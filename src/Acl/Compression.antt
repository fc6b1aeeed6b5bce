-- ===== src/Acl/Compression.antt =====
-- packages/proxy-config/client-acl/src/parser.rs: finding the compression in an IPv6 pattern.
use tor_socks.Base.{
  append-nil, ℕ, ◌≡◌, refl, ◌≢◌, inl, inr, Bool, true, false, not, ◌&&◌, ◌||◌, some, List, [], ◌∷◌,
  ◌++◌, arith, All, Option-cases, ◌==◌,
}
use tor_socks.OrdMap.Text.{Text}
use tor_socks.Acl.Endpoint.{contains}
use tor_socks.Acl.AllowList.{has_triple, rfind_colon, split_once_pair}
use tor_socks.Acl.Split.{join, Without}

abbrev pub starts_part : Text → Bool
starts_part [] = false
starts_part (c ∷ cs) = not (c == 58)

-- Every colon is followed by something else.
abbrev pub spaced : Text → Bool
spaced [] = true
spaced (c ∷ cs) = (not (c == 58) || starts_part cs) && spaced cs

pub split_once_pair-append :
    (left right : Text)
    → spaced left ≡ true
    → split_once_pair (left ++ (58 ∷ 58 ∷ right)) ≡ some (left, right)
unfolding split_once_pair
split_once_pair-append [] right h = refl
split_once_pair-append (c ∷ []) right h = ground arith
split_once_pair-append (c ∷ d ∷ ds) right h = ground (arith, split_once_pair-append (d ∷ ds) right)

has_triple-spaced : (t : Text) → spaced t ≡ true → has_triple t ≡ false
unfolding has_triple
has_triple-spaced [] h = refl
has_triple-spaced (a ∷ []) h = refl
has_triple-spaced (a ∷ b ∷ []) h = refl
has_triple-spaced (a ∷ b ∷ c ∷ cs) h = ground (arith, has_triple-spaced (b ∷ c ∷ cs))

-- A text that begins with a part, or is empty.
abbrev pub part_or_end : Text → Bool
part_or_end [] = true
part_or_end (c ∷ cs) = not (c == 58)

has_triple-pair :
    (right : Text)
    → part_or_end right ≡ true
    → spaced right ≡ true
    → has_triple (58 ∷ 58 ∷ right) ≡ false
unfolding has_triple
has_triple-pair [] p h = refl
has_triple-pair (a ∷ []) p h = ground arith
has_triple-pair (a ∷ b ∷ bs) p h = ground (arith, has_triple-spaced (a ∷ b ∷ bs) h)

pub has_triple-append :
    (left right : Text)
    → spaced left ≡ true
    → part_or_end right ≡ true
    → spaced right ≡ true
    → has_triple (left ++ (58 ∷ 58 ∷ right)) ≡ false
unfolding has_triple
has_triple-append [] right h p k = has_triple-pair right p k
has_triple-append (a ∷ []) right h p k = ground (arith, has_triple-pair right p k)
has_triple-append (a ∷ b ∷ []) right h p k =
    ground (arith, has_triple-append (b ∷ []) right (ground arith) p k)
has_triple-append (a ∷ b ∷ c ∷ cs) right h p k =
    ground (arith, has_triple-append (b ∷ c ∷ cs) right (ground arith) p k)

pub contains-rfind_colon :
    (t : Text) {head tail : Text}
    → rfind_colon t ≡ some (head, tail)
    → contains 46 t ≡ false
    → contains 46 tail ≡ false
unfolding rfind_colon contains
contains-rfind_colon [] h free = absurd (ground arith)
contains-rfind_colon (c ∷ cs) h free = elim (Option-cases (rfind_colon cs)) [
  | inl e ↦ ground (arith, e)
  | inr ((front, back), e) ↦ ground (arith, e, contains-rfind_colon cs e)
]

-- A part has something, and no colon.
abbrev pub IsPart : Text → Type 0
IsPart part = (part ≢ []) × Without 58 part

spaced-append : (part rest : Text) → Without 58 part → spaced (part ++ rest) ≡ spaced rest
spaced-append [] rest free = refl
spaced-append (c ∷ cs) rest free = ground (arith, spaced-append cs rest free.1, free.0)

pub starts_part-join :
    (part : Text) (parts : List Text)
    → All IsPart (part ∷ parts)
    → starts_part (join 58 (part ∷ parts)) ≡ true
starts_part-join [] parts h = absurd (h.0.0 refl)
starts_part-join (c ∷ cs) [] h = ground (arith, h.0.1.0)
starts_part-join (c ∷ cs) (next ∷ parts) h = ground (arith, h.0.1.0)

pub spaced-join : (parts : List Text) → All IsPart parts → spaced (join 58 parts) ≡ true
spaced-join [] h = refl
spaced-join (part ∷ []) h = ground (arith, spaced-append part [] h.0.1, append-nil part)
spaced-join (part ∷ next ∷ parts) h = ground (
  arith,
  spaced-append part (58 ∷ join 58 (next ∷ parts)) h.0.1,
  starts_part-join next parts h.1,
  spaced-join (next ∷ parts) h.1,
)

pub part_or_end-join : (parts : List Text) → All IsPart parts → part_or_end (join 58 parts) ≡ true
part_or_end-join [] h = refl
part_or_end-join ([] ∷ parts) h = absurd (h.0.0 refl)
part_or_end-join ((c ∷ cs) ∷ []) h = ground (arith, h.0.1.0)
part_or_end-join ((c ∷ cs) ∷ next ∷ parts) h = ground (arith, h.0.1.0)

pub contains-append :
    (c : ℕ) (xs ys : Text) → contains c (xs ++ ys) ≡ (contains c xs || contains c ys)
unfolding contains
contains-append c [] ys = refl
contains-append c (x ∷ xs) ys = ground (arith, contains-append c xs ys)

contains-Without : (c : ℕ) (xs : Text) → Without c xs → contains c xs ≡ false
unfolding contains
contains-Without c [] free = refl
contains-Without c (x ∷ xs) free = ground (arith, contains-Without c xs free.1, free.0)

pub contains-join :
    (parts : List Text) → All (Without 46) parts → contains 46 (join 58 parts) ≡ false
unfolding contains
contains-join [] h = refl
contains-join (part ∷ []) h = contains-Without 46 part h.0
contains-join (part ∷ next ∷ parts) h = ground (
  arith,
  contains-append 46 part (58 ∷ join 58 (next ∷ parts)),
  contains-Without 46 part h.0,
  contains-join (next ∷ parts) h.1,
)
