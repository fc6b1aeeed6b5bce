-- ===== src/Fetch/Exact.antt =====
-- packages/bridge-fetcher/src/http/framing.rs: an exact read gives the next bytes of the input.
use tor_socks.Base.{
  ℕ, zero, suc, ◌-◌, ◌≤◌, ◌≡◌, ap, ◌∙◌, Bool, List, [], ◌∷◌, ◌++◌, arith, length, append-nil,
  length-append, take-append_right, drop-append_right, append_assoc, take,
}
use tor_socks.Fetch.Reader.{ChunkedReader, fill, read_exact_into}
use tor_socks.Fetch.Plain.{
  plain_fill, plain_exact, pending, view, read_some_cases, broke_off, at_end, some_bytes,
}

module _ (k : ℕ) (filled xs rest : List ℕ) (breaks : Bool) (short : length xs ≤ k) where
  -- The first `xs` of the input may count as filled.
  plain_fill_more :
      plain_fill (k - length xs) (filled ++ xs) (record { bytes = rest; breaks = breaks })
      ≡ plain_fill k filled (record { bytes = xs ++ rest; breaks = breaks })
  unfolding plain_fill
  plain_fill_more = ground (
    arith,
    length-append xs rest,
    take-append_right k xs rest short,
    drop-append_right k xs rest short,
    append_assoc filled xs (take (k - length xs) rest),
  )

view-fill :
    (fuel k : ℕ) (filled : List ℕ) (r : ChunkedReader)
    → k ≤ fuel
    → view (fill fuel k filled r) ≡ plain_fill k filled (pending r)
unfolding fill plain_fill
view-fill fuel zero filled r h = ground (arith, append-nil filled)
view-fill zero (suc k) filled r h = absurd (omega arith)
view-fill (suc fuel) (suc k) filled r h = elim (read_some_cases (suc k) r (omega arith)) [
  | broke_off fails none_left e ↦ ground (arith, e, fails, none_left)
  | at_end r' fine none_left e ↦ ground (arith, e, fine, none_left)
  | some_bytes b bs r' e same short keeps ↦
      let taken : List ℕ = b ∷ bs in
      let step : view (fill (suc fuel) (suc k) filled r)
          ≡ view (fill fuel (suc k - length taken) (filled ++ taken) r') =
        ground (arith, e) in
      step
      ∙ view-fill fuel (suc k - length taken) (filled ++ taken) r' (omega arith)
      ∙ ap
          (λ (x : Bool).
            plain_fill (suc k - length taken) (filled ++ taken)
              (record { bytes = (pending r').bytes; breaks = x }))
          keeps
      ∙ plain_fill_more (suc k) filled taken (pending r').bytes r.stream.fails short
      ∙ ap
          (λ (x : List ℕ).
            plain_fill (suc k) filled (record { bytes = x; breaks = r.stream.fails }))
          same
]

-- Whatever the pieces in which the input arrives, an exact read gives the next bytes of it, or the
-- error of its end.
pub view-read_exact_into :
    (k : ℕ) (r : ChunkedReader) → view (read_exact_into k r) ≡ plain_exact k (pending r)
unfolding read_exact_into plain_exact
view-read_exact_into k r = view-fill k k [] r (omega arith)
