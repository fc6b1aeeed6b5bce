-- ===== src/Acl/Split.antt =====
-- packages/proxy-config/client-acl/src/parser.rs: the parts of a pattern and their slots.
use tor_socks.Base.{
  ℕ, ◌≡◌, refl, ap, ◌∙◌, ◌≢◌, inl, inr, Option, some, List, [], ◌∷◌, ◌++◌, map, arith, All,
  Bool-cases, ◌==◌,
}
use tor_socks.OrdMap.Text.{Text}
use tor_socks.Acl.Parser.{split, read_slots}

-- The parts of a text with a delimiter between them.
abbrev pub join : ℕ → List Text → Text
join c [] = []
join c (part ∷ []) = part
join c (part ∷ next ∷ parts) = part ++ (c ∷ join c (next ∷ parts))

abbrev pub Without : ℕ → Text → Type 0
Without c part = All (λ (x : ℕ). x ≢ c) part

-- There is always a first part.
pub split_cases :
    (c : ℕ) (t : Text) → (part : Text) × (parts : List Text) × (split c t ≡ part ∷ parts)
unfolding split
split_cases c [] = ([], [], refl)
split_cases c (x ∷ xs) =
    let (part, parts, e) = split_cases c xs in
    elim (Bool-cases (x == c)) [
      | inl same ↦ ([], split c xs, ground (arith, same))
      | inr other ↦ (x ∷ part, parts, ground (arith, other, e))
    ]

join_cons :
    (c : ℕ) (x : ℕ) (part : Text) (parts : List Text)
    → join c ((x ∷ part) ∷ parts) ≡ x ∷ join c (part ∷ parts)
join_cons c x part [] = refl
join_cons c x part (next ∷ parts) = refl

pub join-split : (c : ℕ) (t : Text) → join c (split c t) ≡ t
unfolding split
join-split c [] = refl
join-split c (x ∷ xs) =
    let (part, parts, e) = split_cases c xs in
    ground (arith, join-split c xs, e, join_cons c x part parts)

split-Without : (c : ℕ) (part : Text) → Without c part → split c part ≡ part ∷ []
unfolding split
split-Without c [] free = refl
split-Without c (x ∷ xs) free = ground (arith, split-Without c xs free.1, free.0)

split-append :
    (c : ℕ) (part rest : Text) → Without c part → split c (part ++ (c ∷ rest)) ≡ part ∷ split c rest
unfolding split
split-append c [] rest free = ground arith
split-append c (x ∷ xs) rest free = ground (arith, split-append c xs rest free.1, free.0)

pub split-join :
    (c : ℕ) (part : Text) (parts : List Text)
    → All (Without c) (part ∷ parts)
    → split c (join c (part ∷ parts)) ≡ part ∷ parts
split-join c part [] free = split-Without c part free.0
split-join c part (next ∷ parts) free =
    split-append c part (join c (next ∷ parts)) free.0
    ∙ ap (◌∷◌ part) (split-join c next parts free.1)

module _ (slot : Text → Option (Option ℕ)) (print : Option ℕ → Text)
    (Fits : Option ℕ → Type 0) where
  pub read_slots-map :
      ((s : Option ℕ) → Fits s → slot (print s) ≡ some s)
      → (slots : List (Option ℕ)) → All Fits slots
      → read_slots slot (map print slots) ≡ some slots
  unfolding read_slots
  read_slots-map reads [] fits = refl
  read_slots-map reads (s ∷ slots) fits =
      ground (arith, reads s fits.0, read_slots-map reads slots fits.1)

  pub read_slots-some :
      ((part : Text) (s : Option ℕ) → slot part ≡ some s → (part ≡ print s) × Fits s)
      → (parts : List Text) {slots : List (Option ℕ)} → read_slots slot parts ≡ some slots
      → (parts ≡ map print slots) × All Fits slots
  unfolding read_slots
  read_slots-some spelled [] {slots = []} h = (refl, tt)
  read_slots-some spelled [] {slots = s ∷ slots} h = absurd (ground arith)
  read_slots-some spelled (part ∷ parts) {slots = []} h = absurd (ground arith)
  read_slots-some spelled (part ∷ parts) {slots = s ∷ slots} h =
      let first : slot part ≡ some s = ground arith in
      let others : read_slots slot parts ≡ some slots = ground arith in
      let (e, fit) = spelled part s first in
      let (es, fits) = read_slots-some spelled parts others in (ground (arith, e, es), (fit, fits))
