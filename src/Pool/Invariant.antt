-- ===== src/Pool/Invariant.antt =====
-- apps/socks5-proxy/src/bridges/candidate_pool.rs: the identities are those of the bridges, and no
-- two bridges have one.
use tor_socks.Base.{
  Ordering, ltb, ℕ, zero, suc, ◌+◌, ◌≡◌, refl, sym, ap, ◌∙◌, inl, inr, Bool, false, not, ◌&&◌,
  Option, none, some, List, [], ◌∷◌, ◌++◌, map, arith, length, if◌then◌else◌, Bool-cases,
  Option-cases, ◌==◌, ltb, take, drop, keep_if, take-drop,
}
use tor_socks.OrdMap.{KeyOrd, key_eq, key_eq_iff}
use tor_socks.OrdMap.Text.{Text, text_ord}
use tor_socks.Best.{sort, sort_onto, push}
use tor_socks.Pool.KeySet.{has, without, has-without}
use tor_socks.Pool.Candidates.{
  CandidatePool, bool_cmp, empty_pool, push_unique, merge, forget, take_first, split_matches,
  has_transport, take_transport, fresh_keys, prioritize, doom, remove_all, rotate_to_back,
  load_lines, load, lines, is_skipped,
}

module _ {B K : Type 0} ⦃o : KeyOrd K⦄ (key_of : B → K) where
  -- How many of the bridges have this identity.
  abbrev pub count : K → List B → ℕ
  count k [] = 0
  count k (b ∷ bridges) = if key_eq k (key_of b) then suc (count k bridges) else count k bridges

  -- Each identity of the set is that of one bridge, and the bridges have no others.
  abbrev pub IsPool : CandidatePool B K → Type 0
  IsPool pool = (k : K) → count k pool.bridges ≡ (if has k pool.keys then 1 else 0)

  pub count-append : (k : K) (xs ys : List B) → count k (xs ++ ys) ≡ count k xs + count k ys
  count-append k [] ys = omega arith
  count-append k (b ∷ xs) ys = ground (arith, count-append k xs ys)

  pub push_unique-IsPool :
      (b : B) (pool : CandidatePool B K) → IsPool pool → IsPool (push_unique key_of b pool).1
  unfolding push_unique has
  push_unique-IsPool b pool h k =
      ground (arith, h k, count-append k pool.bridges (b ∷ []), key_eq_iff k (key_of b))

  pub merge-IsPool :
      (fetched : List B) (exclude : List K) (pool : CandidatePool B K)
      → IsPool pool
      → IsPool (merge key_of fetched exclude pool).1
  unfolding merge
  merge-IsPool [] exclude pool h = h
  merge-IsPool (b ∷ fetched) exclude pool h = elim (Bool-cases (has (key_of b) exclude)) [
    | inl e ↦ λ k. ground (arith, e, merge-IsPool fetched exclude pool h k)
    | inr e ↦ λ k. ground (
      arith,
      e,
      merge-IsPool fetched exclude (push_unique key_of b pool).1 (push_unique-IsPool b pool h) k,
    )
  ]

  has-forget :
      (k : K) (taken : List B) (keys : List K)
      → has k (forget key_of taken keys) ≡ (has k keys && count k taken == 0)
  unfolding forget
  has-forget k [] keys = ground arith
  has-forget k (b ∷ taken) keys = ground (
    arith,
    has-forget k taken (without (key_of b) keys),
    has-without k (key_of b) keys,
    key_eq_iff k (key_of b),
    key_eq_iff (key_of b) k,
  )

  forget-IsPool :
      (pool : CandidatePool B K) (taken kept : List B)
      → ((k : K) → count k pool.bridges ≡ count k taken + count k kept)
      → IsPool pool
      → IsPool (record { bridges = kept; keys = forget key_of taken pool.keys })
  forget-IsPool pool taken kept split h k =
      ground (arith, h k, split k, has-forget k taken pool.keys)

  take_first-IsPool :
      (n : ℕ) (pool : CandidatePool B K) → IsPool pool → IsPool (take_first key_of n pool).1
  unfolding take_first
  take_first-IsPool n pool h =
      forget-IsPool pool (take n pool.bridges) (drop n pool.bridges)
        (λ k.
          ap (count k) (sym (take-drop n pool.bridges))
          ∙ count-append k (take n pool.bridges) (drop n pool.bridges))
        h

  count-split_matches :
      (is_match : B → Bool) (n : ℕ) (bridges : List B) (k : K)
      → count k bridges
        ≡ count k (split_matches key_of is_match n bridges).0
          + count k (split_matches key_of is_match n bridges).1
  unfolding split_matches
  count-split_matches is_match zero bridges k = omega arith
  count-split_matches is_match (suc n) [] k = omega arith
  count-split_matches is_match (suc n) (b ∷ bridges) k = elim (Bool-cases (is_match b)) [
    | inl e ↦ ground (arith, e, count-split_matches is_match n bridges k)
    | inr e ↦ ground (arith, e, count-split_matches is_match (suc n) bridges k)
  ]

  pub take_transport-IsPool :
      (transport : B → Option Text) (n : ℕ) (name : Option Text) (pool : CandidatePool B K)
      → IsPool pool
      → IsPool (take_transport key_of transport n name pool).1
  unfolding take_transport
  take_transport-IsPool transport n none pool h = take_first-IsPool n pool h
  take_transport-IsPool transport n (some name) pool h =
      let parts = split_matches key_of (has_transport key_of transport name) n pool.bridges in
      forget-IsPool pool parts.0 parts.1
        (count-split_matches (has_transport key_of transport name) n pool.bridges) h

  count-push :
      (cmp : B → B → Ordering) (k : K) (b : B) (xs : List B)
      → count k (push cmp b xs) ≡ count k (b ∷ xs)
  unfolding push
  count-push cmp k b [] = refl
  count-push cmp k b (x ∷ xs) = ground (arith, count-push cmp k b xs)

  count-sort_onto :
      (cmp : B → B → Ordering) (k : K) (sorted xs : List B)
      → count k (sort_onto cmp sorted xs) ≡ count k sorted + count k xs
  unfolding sort_onto
  count-sort_onto cmp k sorted [] = omega arith
  count-sort_onto cmp k sorted (x ∷ xs) =
      ground (arith, count-sort_onto cmp k (push cmp x sorted) xs, count-push cmp k x sorted)

  count-sort : (cmp : B → B → Ordering) (k : K) (xs : List B) → count k (sort cmp xs) ≡ count k xs
  unfolding sort
  count-sort cmp k xs = omega (arith, count-sort_onto cmp k [] xs)

  pub prioritize-IsPool :
      (transport : B → Option Text) (fresh : List B) (name : Option Text) (pool : CandidatePool B K)
      → IsPool pool
      → IsPool (prioritize key_of transport fresh name pool)
  unfolding prioritize
  prioritize-IsPool transport fresh name pool h k =
      let found = fresh_keys key_of transport fresh name in
      count-sort (λ a b. bool_cmp (not (has (key_of a) found)) (not (has (key_of b) found))) k
        pool.bridges
      ∙ h k

  -- A test on identities keeps all the bridges of an identity or none.
  count-keep_if :
      (test : K → Bool) (k : K) (xs : List B)
      → count k (keep_if (λ b. test (key_of b)) xs) ≡ (if test k then count k xs else 0)
  count-keep_if test k [] = ground arith
  count-keep_if test k (b ∷ xs) = ground (arith, count-keep_if test k xs, key_eq_iff k (key_of b))

  pub rotate_to_back-IsPool :
      (bridges : List B) (pool : CandidatePool B K)
      → IsPool pool
      → IsPool (rotate_to_back key_of bridges pool).1
  unfolding rotate_to_back
  rotate_to_back-IsPool bridges pool h k =
      let requested = map key_of bridges in
      ground (
        arith,
        h k,
        count-append k (keep_if (λ b. not (has (key_of b) requested)) pool.bridges)
            (keep_if (λ b. has (key_of b) requested) pool.bridges),
        count-keep_if (λ j. not (has j requested)) k pool.bridges,
        count-keep_if (λ j. has j requested) k pool.bridges,
      )

  doom_lem :
      (bridges : List B) (keys : List K) (k : K)
      → (has k (doom key_of bridges keys).0 ≡ (has k keys && has k (map key_of bridges)))
        × (has k (doom key_of bridges keys).1 ≡ (has k keys && not (has k (map key_of bridges))))
  unfolding doom has
  doom_lem [] keys k = ground arith
  doom_lem (b ∷ bridges) keys k = elim (Bool-cases (has (key_of b) keys)) [
    | inl e ↦ ground (
      arith,
      e,
      doom_lem bridges (without (key_of b) keys) k,
      has-without k (key_of b) keys,
      key_eq_iff k (key_of b),
      key_eq_iff (key_of b) k,
    )
    | inr e ↦ ground (arith, e, doom_lem bridges keys k, key_eq_iff k (key_of b))
  ]

  has_none : (k : K) (ks : List K) → ltb 0 (length ks) ≡ false → has k ks ≡ false
  unfolding has
  has_none k [] e = refl
  has_none k (j ∷ ks) e = ground arith

  pub remove_all-IsPool :
      (bridges : List B) (pool : CandidatePool B K)
      → IsPool pool
      → IsPool (remove_all key_of bridges pool).1
  unfolding remove_all has
  remove_all-IsPool bridges pool h k =
      let doomed = (doom key_of bridges pool.keys).0 in
      elim (Bool-cases (ltb 0 (length doomed))) [
        | inl e ↦ ground (
          arith,
          e,
          h k,
          doom_lem bridges pool.keys k,
          count-keep_if (λ j. not (has j doomed)) k pool.bridges,
        )
        | inr e ↦ ground (arith, e, h k, doom_lem bridges pool.keys k, has_none k doomed)
      ]

  load_lines-IsPool :
      (trim : Text → Text) (parse : Text → Option B) (text : List Text) (pool : CandidatePool B K)
      → IsPool pool
      → IsPool (load_lines key_of trim parse text pool)
  unfolding load_lines
  load_lines-IsPool trim parse [] pool h = h
  load_lines-IsPool trim parse (raw ∷ others) pool h = elim (Bool-cases (is_skipped (trim raw))) [
    | inl e ↦ λ k. ground (arith, e, load_lines-IsPool trim parse others pool h k)
    | inr e ↦ elim (Option-cases (parse (trim raw))) [
      | inl f ↦ λ k. ground (arith, e, f, load_lines-IsPool trim parse others pool h k)
      | inr (b, f) ↦ λ k. ground (
        arith,
        e,
        f,
        load_lines-IsPool trim parse others (push_unique key_of b pool).1
            (push_unique-IsPool b pool h) k,
      )
    ]
  ]

  pub load-IsPool :
      (trim : Text → Text) (parse : Text → Option B) (text : Text)
      → IsPool (load key_of trim parse text)
  unfolding load has
  load-IsPool trim parse text =
      load_lines-IsPool trim parse (lines text) (empty_pool key_of) (λ k. refl)
