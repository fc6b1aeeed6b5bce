-- ===== src/Fetch/Line.antt =====
-- packages/bridge-fetcher/src/http/framing.rs: lines of the input that are held in part.
use tor_socks.Base.{
  ℕ, ◌+◌, ◌≤◌, ◌<◌, ◌≡◌, sym, ap, ◌∙◌, inl, inr, Bool, none, some, List, [], ◌∷◌, ◌++◌, arith,
  length, if◌then◌else◌, Option-cases, ltb, drop, take, length-append, append-nil, length-take,
  take-append_left, take-drop, drop-append_left,
}
use tor_socks.Fetch.Wire.{LineKind, line_too_long, closed_in_line, got, failed}
use tor_socks.Fetch.Reader.{position, strip_cr}
use tor_socks.Fetch.Plain.{ended, plain_line}

module _ (c : ℕ) where
  pub position_lt : (xs : List ℕ) (i : ℕ) → position c xs ≡ some i → i < length xs
  unfolding position
  position_lt [] i h = absurd (ground arith)
  position_lt (x ∷ xs) i h = elim (Option-cases (position c xs)) [
    | inl missing ↦ ground (arith, missing)
    | inr (j, found) ↦ ground (arith, found, position_lt xs j found)
  ]

  position-append_found :
      (xs ys : List ℕ) (i : ℕ) → position c xs ≡ some i → position c (xs ++ ys) ≡ some i
  unfolding position
  position-append_found [] ys i h = absurd (ground arith)
  position-append_found (x ∷ xs) ys i h = elim (Option-cases (position c xs)) [
    | inl missing ↦ ground (arith, missing)
    | inr (j, found) ↦ ground (arith, found, position-append_found xs ys j found)
  ]

  position-append_missing :
      (xs ys : List ℕ) → position c xs ≡ none → position c ys ≡ none → position c (xs ++ ys) ≡ none
  unfolding position
  position-append_missing [] ys h k = k
  position-append_missing (x ∷ xs) ys h k = ground (arith, position-append_missing xs ys)

  pub position-append_later :
      (xs ys : List ℕ) (i : ℕ)
      → position c xs ≡ none
      → position c ys ≡ some i
      → position c (xs ++ ys) ≡ some (length xs + i)
  unfolding position
  position-append_later [] ys i h k = ground (arith, k)
  position-append_later (x ∷ xs) ys i h k = ground (arith, position-append_later xs ys i)

  -- Searching on from place `s`, with nothing before it.
  pub position_from :
      (s i : ℕ) (xs : List ℕ)
      → s ≤ length xs
      → position c (take s xs) ≡ none
      → position c (drop s xs) ≡ some i
      → position c xs ≡ some (s + i)
  position_from s i xs h before found =
      let n : length (take s xs) ≡ s = omega (arith, length-take s xs) in
      ap (position c) (sym (take-drop s xs))
      ∙ position-append_later (take s xs) (drop s xs) i before found
      ∙ ap (λ (k : ℕ). some (k + i)) n

  pub position_nowhere :
      (s : ℕ) (xs : List ℕ)
      → position c (take s xs) ≡ none
      → position c (drop s xs) ≡ none
      → position c xs ≡ none
  position_nowhere s xs before after =
      ap (position c) (sym (take-drop s xs))
      ∙ position-append_missing (take s xs) (drop s xs) before after

module _ (limit : ℕ) (kind : LineKind) (held rest : List ℕ) (breaks : Bool) where
  pub plain_line_found :
      (i : ℕ)
      → position 10 held ≡ some i
      → plain_line limit kind (record { bytes = held ++ rest; breaks = breaks }) ≡ (
          if ltb limit i
          then failed (line_too_long kind)
          else got
              (strip_cr (take i held))
              (record { bytes = drop (i + 1) held ++ rest; breaks = breaks }))
  unfolding plain_line
  plain_line_found i h = ground (
    arith,
    position_lt 10 held i h,
    position-append_found 10 held rest i h,
    take-append_left i held rest,
    drop-append_left (i + 1) held rest,
  )

  pub plain_line_long :
      position 10 held ≡ none
      → limit < length held
      → plain_line limit kind (record { bytes = held ++ rest; breaks = breaks })
        ≡ failed (line_too_long kind)
  unfolding plain_line
  plain_line_long h k = elim (Option-cases (position 10 rest)) [
    | inl missing ↦
        ground (arith, position-append_missing 10 held rest h missing, length-append held rest)
    | inr (i, found) ↦ ground (arith, position-append_later 10 held rest i h found)
  ]

pub plain_line_end :
    (limit : ℕ) (kind : LineKind) (held rest : List ℕ) (breaks : Bool)
    → position 10 held ≡ none
    → length held ≤ limit
    → rest ≡ []
    → plain_line limit kind (record { bytes = held ++ rest; breaks = breaks })
      ≡ ended breaks (closed_in_line kind)
unfolding plain_line
plain_line_end limit kind held rest breaks h k none_left =
    ap (λ (t : List ℕ). plain_line limit kind (record { bytes = t; breaks = breaks }))
      (ap (λ (t : List ℕ). held ++ t) none_left ∙ append-nil held)
    ∙ whole limit kind held breaks h k
  where
    whole :
        (limit : ℕ) (kind : LineKind) (held : List ℕ) (breaks : Bool)
        → position 10 held ≡ none
        → length held ≤ limit
        → plain_line limit kind (record { bytes = held; breaks = breaks })
          ≡ ended breaks (closed_in_line kind)
    whole limit kind held breaks h k = ground arith
