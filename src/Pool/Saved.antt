-- ===== src/Pool/Saved.antt =====
-- apps/socks5-proxy/src/bridges/candidate_pool.rs: the file is read back as it was written.
use tor_socks.Base.{
  ◌+◌, ◌≤◌, ◌≡◌, refl, sym, ap, ◌∙◌, true, false, Option, some, List, [], ◌∷◌, ◌++◌, map, arith,
  All, ◌==◌, append-nil, append_assoc,
}
use tor_socks.OrdMap.{KeyOrd, key_eq_refl}
use tor_socks.OrdMap.Text.{Text}
use tor_socks.Pool.KeySet.{has}
use tor_socks.Pool.Candidates.{
  CandidatePool, push_unique, lines, is_skipped, load_lines, load, body_text, save, empty_pool,
}
use tor_socks.Pool.Invariant.{IsPool, count, count-append, push_unique-IsPool}

-- A text without a line feed.
abbrev pub IsLine : Text → Type 0
IsLine s = All (λ c. (c == 10) ≡ false) s

lines-line : (s rest : Text) → IsLine s → lines (s ++ (10 ∷ rest)) ≡ s ∷ lines rest
unfolding lines
lines-line [] rest h = refl
lines-line (c ∷ s) rest h = ground (arith, h.0, lines-line s rest h.1)

lines-body_text :
    {B : Type 0} (print : B → Text) (bridges : List B)
    → ((b : B) → IsLine (print b))
    → lines (body_text print bridges) ≡ map print bridges
unfolding body_text lines
lines-body_text print [] h = refl
lines-body_text print (b ∷ bridges) h =
    lines-line (print b) (body_text print bridges) (h b)
    ∙ ap (λ rest. print b ∷ rest) (lines-body_text print bridges h)

-- What a printer of bridge lines and their parser do: a bridge is one line, which is not a comment
-- and is read as that bridge.
pub record IsPrinter {B : Type 0} (trim : Text → Text) (parse : Text → Option B) (print : B → Text)
    : Type 0 where
  pub one_line : (b : B) → IsLine (print b)
  pub is_kept : (b : B) → is_skipped (trim (print b)) ≡ false
  pub is_read : (b : B) → parse (trim (print b)) ≡ some b

module _ {B K : Type 0} ⦃o : KeyOrd K⦄ (key_of : B → K) (trim : Text → Text)
    (parse : Text → Option B) (print : B → Text) (printer : IsPrinter trim parse print) where
  push_new :
      (b : B) (pool : CandidatePool B K)
      → IsPool key_of pool
      → count key_of (key_of b) pool.bridges ≡ 0
      → (push_unique key_of b pool).1.bridges ≡ pool.bridges ++ (b ∷ [])
  unfolding push_unique
  push_new b pool h e = ground (arith, h (key_of b), e)

  load_lines-print :
      (bridges : List B) (pool : CandidatePool B K)
      → IsPool key_of pool
      → ((k : K) → count key_of k pool.bridges + count key_of k bridges ≤ 1)
      → (load_lines key_of trim parse (map print bridges) pool).bridges ≡ pool.bridges ++ bridges
  unfolding load_lines
  load_lines-print [] pool h once = sym (append-nil pool.bridges)
  load_lines-print (b ∷ bridges) pool h once =
      let pool' = (push_unique key_of b pool).1 in
      let new : pool'.bridges ≡ pool.bridges ++ (b ∷ []) =
        push_new b pool h (ground (arith, once (key_of b), key_eq_refl (key_of b))) in
      let rec =
        load_lines-print bridges pool' (push_unique-IsPool key_of b pool h)
          (λ k. ground (arith, new, once k, count-append key_of k pool.bridges (b ∷ []))) in
      ground (
        arith,
        printer.is_kept b,
        printer.is_read b,
        rec,
        new,
        append_assoc pool.bridges (b ∷ []) bridges,
      )

  -- A pool that is saved and loaded again has the same bridges in the same order, if it was well
  -- formed, the header is a comment line, and bridge lines are printed and read as one line each.
  pub load-save :
      (header : Text) (pool : CandidatePool B K)
      → IsLine header
      → is_skipped (trim header) ≡ true
      → is_skipped (trim []) ≡ true
      → IsPool key_of pool
      → (load key_of trim parse (save header print pool)).bridges ≡ pool.bridges
  unfolding load save load_lines has
  load-save header pool one comment blank h =
      let start = empty_pool key_of in
      let text = 10 ∷ body_text print pool.bridges in
      let split : lines (save header print pool) ≡ header ∷ [] ∷ map print pool.bridges =
        lines-line header text one
        ∙ ap (λ rest. header ∷ rest)
            (lines-line [] (body_text print pool.bridges) tt
              ∙ ap (λ rest. [] ∷ rest) (lines-body_text print pool.bridges printer.one_line)) in
      let rec = load_lines-print pool.bridges start (λ k. refl) (λ k. ground (arith, h k)) in
      ground (arith, split, comment, blank, rec)
