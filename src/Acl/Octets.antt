-- ===== src/Acl/Octets.antt =====
-- packages/proxy-config/client-acl/src/parser.rs: which texts are IPv4 patterns.
use tor_socks.Base.{
  length-append, All-append, length-map, ◌/◌, ◌%◌, ℕ, zero, suc, ◌^◌, ◌+◌, ◌-◌, ◌≤◌, ◌<◌, ◌≡◌, refl,
  sym, ap, ◌∙◌, ◌↔◌, ◌⊎◌, inl, inr, Bool, true, false, Option, none, some, List, [], ◌∷◌, ◌++◌, map,
  arith, length, if◌then◌else◌, All, Bool-cases, Option-cases, ltb,
}
use tor_socks.OrdMap.{key_eq, key_eq_iff, key_eq_refl}
use tor_socks.OrdMap.Text.{Text, text_ord}
use tor_socks.Acl.Rule.{Rule, rule_from_v4_slots, matches, v4}
use tor_socks.Acl.Masks.{SlotFits, SlotsMatch, fields, matches-rule_from_v4_slots}
use tor_socks.Acl.Parser.{
  accepted, star, is_decimal, decimal_value, parse_v4_octet, v4_slot, read_slots, last_part,
  wildcards, slots_of, split, parse_ipv4_wildcard,
}
use tor_socks.Acl.Split.{
  split_cases, join, Without, join-split, split-join, read_slots-map, read_slots-some,
}

-- The decimal text of an octet.
unfoldable pub decimal : ℕ → Text
decimal v =
    if ltb v 10
    then (48 + v) ∷ []
    else if ltb v 100
    then (48 + v / 10) ∷ (48 + v % 10) ∷ []
    else (48 + v / 100) ∷ (48 + v / 10 % 10) ∷ (48 + v % 10) ∷ []

unfoldable pub octet_text : Option ℕ → Text
octet_text none = star
octet_text (some v) = decimal v

decimal-star : (v : ℕ) → key_eq (decimal v) star ≡ false
unfolding decimal
decimal-star v = ground (arith, key_eq_iff {K = Text} (decimal v) star)

parse_v4_octet-decimal : (v : ℕ) → v < 256 → parse_v4_octet (decimal v) ≡ some v
unfolding parse_v4_octet decimal is_decimal decimal_value
parse_v4_octet-decimal v h = ground arith

parse_v4_octet-some :
    (part : Text) (v : ℕ) → parse_v4_octet part ≡ some v → (part ≡ decimal v) × (v < 256)
unfolding parse_v4_octet decimal is_decimal decimal_value
parse_v4_octet-some [] v h = absurd (ground arith)
parse_v4_octet-some (a ∷ []) v h = ground arith
parse_v4_octet-some (a ∷ b ∷ []) v h = ground arith
parse_v4_octet-some (a ∷ b ∷ c ∷ []) v h = ground arith
parse_v4_octet-some (a ∷ b ∷ c ∷ d ∷ part) v h = absurd (ground arith)

v4_slot-octet_text : (s : Option ℕ) → SlotFits 8 s → v4_slot (octet_text s) ≡ some s
unfolding v4_slot octet_text
v4_slot-octet_text none h = ground (arith, key_eq_refl {K = Text} star)
v4_slot-octet_text (some v) h = ground (arith, decimal-star v, parse_v4_octet-decimal v h)

v4_slot-some :
    (part : Text) (s : Option ℕ) → v4_slot part ≡ some s → (part ≡ octet_text s) × SlotFits 8 s
unfolding v4_slot octet_text
v4_slot-some part none h = (ground (arith, key_eq_iff {K = Text} part star), omega arith)
v4_slot-some part (some v) h =
    let found : parse_v4_octet part ≡ some v = ground arith in parse_v4_octet-some part v found

octet_text-Without : (s : Option ℕ) → SlotFits 8 s → Without 46 (octet_text s)
unfolding octet_text decimal
octet_text-Without none h = ((λ e. absurd (omega (arith, e))), tt)
octet_text-Without (some v) h = ground arith

octet_texts-Without :
    (slots : List (Option ℕ)) → All (SlotFits 8) slots → All (Without 46) (map octet_text slots)
octet_texts-Without [] h = tt
octet_texts-Without (s ∷ slots) h = (octet_text-Without s h.0, octet_texts-Without slots h.1)

-- The last slot is a wildcard.
abbrev pub ends_open : List (Option ℕ) → Bool
ends_open [] = false
ends_open (none ∷ []) = true
ends_open (some v ∷ []) = false
ends_open (s ∷ next ∷ slots) = ends_open (next ∷ slots)

last_part-octet_text :
    (s : Option ℕ) (slots : List (Option ℕ))
    → key_eq (last_part (map octet_text (s ∷ slots))) star ≡ ends_open (s ∷ slots)
unfolding last_part octet_text
last_part-octet_text none [] = key_eq_refl {K = Text} star
last_part-octet_text (some v) [] = decimal-star v
last_part-octet_text none (next ∷ slots) = last_part-octet_text next slots
last_part-octet_text (some v) (next ∷ slots) = last_part-octet_text next slots

-- Four octets or wildcards, or fewer of which the last is a wildcard.
pub record IsPattern (slots : List (Option ℕ)) : Type 0 where
  pub fit : All (SlotFits 8) slots
  pub some_slot : 0 < length slots
  pub few : length slots ≤ 4
  pub whole : (length slots ≡ 4) ⊎ (ends_open slots ≡ true)

-- The text of a pattern: its octets in decimal and its wildcards, with dots between them.
abbrev pub pattern_text : List (Option ℕ) → Text
pattern_text slots = join 46 (map octet_text slots)

parse_ipv4_wildcard-pattern_text :
    (slots : List (Option ℕ))
    → IsPattern slots
    → parse_ipv4_wildcard (pattern_text slots) ≡ accepted (rule_from_v4_slots (slots_of 4 slots))
unfolding parse_ipv4_wildcard
parse_ipv4_wildcard-pattern_text [] h = absurd (omega (arith, h.some_slot))
parse_ipv4_wildcard-pattern_text (s ∷ slots) h =
    let parts =
      split-join 46 (octet_text s) (map octet_text slots) (octet_texts-Without (s ∷ slots) h.fit) in
    let read =
      read_slots-map v4_slot octet_text (SlotFits 8) v4_slot-octet_text (s ∷ slots) h.fit in
    ground (
      arith,
      parts,
      read,
      last_part-octet_text s slots,
      length-map octet_text (s ∷ slots),
      h.few,
      h.whole,
    )

accepted-IsPattern :
    (token : Text) (slots : List (Option ℕ)) {r : Rule}
    → split 46 token ≡ map octet_text slots
    → All (SlotFits 8) slots
    → read_slots v4_slot (split 46 token) ≡ some slots
    → parse_ipv4_wildcard token ≡ accepted r
    → IsPattern slots × (r ≡ rule_from_v4_slots (slots_of 4 slots))
unfolding parse_ipv4_wildcard
accepted-IsPattern token [] parts fits e h =
    let (_, _, first) = split_cases 46 token in absurd (ground (arith, parts, first))
accepted-IsPattern token (s ∷ slots) {r = r} parts fits e h =
    let size = length-map octet_text (s ∷ slots) in
    let last = last_part-octet_text s slots in
    (
      record {
        fit = fits;
        some_slot = omega arith;
        few = ground (arith, parts, size);
        whole = elim (Bool-cases (ends_open (s ∷ slots))) [
          | inl wild ↦ inr wild
          | inr closed ↦ inl (ground (arith, parts, size, last, closed))
        ];
      },
      ground (arith, e),
    )

parse_ipv4_wildcard-accepted :
    (token : Text) {r : Rule}
    → parse_ipv4_wildcard token ≡ accepted r
    → (slots : List (Option ℕ)) × IsPattern slots
      × (token ≡ pattern_text slots)
      × (r ≡ rule_from_v4_slots (slots_of 4 slots))
unfolding parse_ipv4_wildcard
parse_ipv4_wildcard-accepted token {r = r} h =
    elim (Option-cases (read_slots v4_slot (split 46 token))) [
      | inl e ↦ absurd (ground (arith, e))
      | inr (slots, e) ↦
          let (parts, fits) =
            read_slots-some v4_slot octet_text (SlotFits 8) v4_slot-some (split 46 token) e in
          let (pattern, compiled) = accepted-IsPattern token slots parts fits e h in
          (slots, pattern, sym (join-split 46 token) ∙ ap (join 46) parts, compiled)
    ]

-- The texts that are accepted as IPv4 patterns are exactly those of four octets or wildcards, or
-- fewer of which the last is a wildcard, in decimal without leading zeros; the rule is compiled
-- from these slots, the missing ones being wildcards.
pub parse_ipv4_wildcard_iff :
    (token : Text) (r : Rule)
    → (parse_ipv4_wildcard token ≡ accepted r) ↔ (
        (slots : List (Option ℕ)) × IsPattern slots
        × (token ≡ pattern_text slots)
        × (r ≡ rule_from_v4_slots (slots_of 4 slots)))
parse_ipv4_wildcard_iff token r = (
  parse_ipv4_wildcard-accepted token,
  λ p.
      let (slots, pattern, text, compiled) = p in
      ap parse_ipv4_wildcard text
      ∙ parse_ipv4_wildcard-pattern_text slots pattern
      ∙ ap accepted (sym compiled),
)

wildcards-match : (n : ℕ) (xs : List ℕ) → SlotsMatch (wildcards n) xs
unfolding SlotsMatch
wildcards-match zero [] = tt
wildcards-match zero (x ∷ xs) = tt
wildcards-match (suc n) [] = tt
wildcards-match (suc n) (x ∷ xs) = wildcards-match n xs

wildcards-fit : (n : ℕ) → All (SlotFits 8) (wildcards n)
wildcards-fit zero = tt
wildcards-fit (suc n) = (omega arith, wildcards-fit n)

pub length-wildcards : (n : ℕ) → length (wildcards n) ≡ n
length-wildcards zero = refl
length-wildcards (suc n) = ap suc (length-wildcards n)

-- Wildcards after the slots change nothing.
SlotsMatch-append :
    (slots : List (Option ℕ)) (n : ℕ) (xs : List ℕ)
    → SlotsMatch (slots ++ wildcards n) xs ↔ SlotsMatch slots xs
unfolding SlotsMatch
SlotsMatch-append [] n [] = (λ _. tt, λ _. wildcards-match n [])
SlotsMatch-append [] n (x ∷ xs) = (λ _. tt, λ _. wildcards-match n (x ∷ xs))
SlotsMatch-append (s ∷ slots) n [] = (λ _. tt, λ _. tt)
SlotsMatch-append (none ∷ slots) n (x ∷ xs) = SlotsMatch-append slots n xs
SlotsMatch-append (some v ∷ slots) n (x ∷ xs) =
    let rest = SlotsMatch-append slots n xs in (λ h. (h.0, rest.0 h.1), λ h. (h.0, rest.1 h.1))

-- A token that is the text of an IPv4 pattern gives a rule that matches an IPv4 address iff every
-- fixed octet of the pattern is the octet of the address at its place.
pub parse_ipv4_wildcard-matches :
    (slots : List (Option ℕ)) (octets : List ℕ)
    → IsPattern slots
    → length octets ≡ 4
    → All (λ x. x < 2 ^ 8) octets
    → (r : Rule) × (parse_ipv4_wildcard (pattern_text slots) ≡ accepted r)
      × ((matches r (v4 (fields 8 0 octets)) ≡ true) ↔ SlotsMatch slots octets)
parse_ipv4_wildcard-matches slots octets pattern size bytes =
    let n = 4 - length slots in
    let four : length (slots_of 4 slots) ≡ 4 =
      omega (arith, length-append slots (wildcards n), length-wildcards n, pattern.few) in
    let fits = All-append (SlotFits 8) slots (wildcards n) pattern.fit (wildcards-fit n) in
    let compiled = matches-rule_from_v4_slots (slots_of 4 slots) octets four size fits bytes in
    let same = SlotsMatch-append slots n octets in
    (
      rule_from_v4_slots (slots_of 4 slots),
      parse_ipv4_wildcard-pattern_text slots pattern,
      (λ h. same.0 (compiled.0 h), λ h. compiled.1 (same.1 h)),
    )
