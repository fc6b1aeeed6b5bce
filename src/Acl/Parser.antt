-- ===== src/Acl/Parser.antt =====
-- packages/proxy-config/client-acl/src/parser.rs and lib.rs: the grammar of an allow-list. The
-- standard library's parsers of addresses and its `trim` are parameters.
use tor_socks.Base.{
  ℕ, zero, suc, ◌+◌, ◌-◌, ◌*◌, Bool, true, false, not, ◌&&◌, ◌||◌, Option, none, some, List, [],
  ◌∷◌, ◌++◌, length, if◌then◌else◌, ◌==◌, ltb, leb,
}
use tor_socks.OrdMap.{key_eq}
use tor_socks.OrdMap.Text.{Text, text_ord}
use tor_socks.Acl.Rule.{Rule, rule_from_v4_slots}
use tor_socks.Acl.Endpoint.{is_empty_text}

-- The texts of the reasons.
pub data Reason : Type 0 where
  empty_list : Reason
  empty_token : Reason
  not_a_rule : Reason
  too_many_octets : Reason
  short_octets : Reason
  bad_octet : Reason
  triple_colon : Reason
  bad_prefix : Reason
  not_mapped : Reason
  too_many_hextets : Reason
  short_hextets : Reason
  bad_hextet : Reason
  nothing_compressed : Reason

pub record AllowedClientsError : Type 0 where
  pub token : Text
  pub reason : Reason

pub data Parsed (A : Type 0) : Type 0 where
  accepted : A → Parsed A
  rejected : AllowedClientsError → Parsed A

infixl 5 ◌>>=◌
abbrev pub ◌>>=◌ : {A B : Type 0} → Parsed A → (A → Parsed B) → Parsed B
◌>>=◌ (accepted a) f = f a
◌>>=◌ (rejected e) f = rejected e

abbrev pub bad : {A : Type 0} → Text → Reason → Parsed A
bad token reason = rejected (record { token = token; reason = reason })

abbrev pub ok_or : {A : Type 0} → Text → Reason → Option A → Parsed A
ok_or token reason none = bad token reason
ok_or token reason (some a) = accepted a

abbrev pub star : Text
star = 42 ∷ []

-- `split`: the parts between the delimiters, one at least.
unfoldable pub split : ℕ → Text → List Text
split c [] = [] ∷ []
split c (x ∷ xs) =
    let rest = split c xs in
    if x == c
    then [] ∷ rest
    else elim rest [ [] ↦ (x ∷ []) ∷ [] | part ∷ parts ↦ (x ∷ part) ∷ parts ]

abbrev pub is_digit : ℕ → Bool
is_digit c = leb 48 c && leb c 57

-- The value of a hexadecimal digit.
unfoldable pub hex_value : ℕ → Option ℕ
hex_value c =
    if is_digit c
    then some (c - 48)
    else if leb 65 c && leb c 70
    then some (c - 55)
    else if leb 97 c && leb c 102
    then some (c - 87)
    else none

unfoldable pub is_decimal : Text → Bool
is_decimal [] = true
is_decimal (c ∷ cs) = is_digit c && is_decimal cs

unfoldable pub decimal_value : ℕ → Text → ℕ
decimal_value acc [] = acc
decimal_value acc (c ∷ cs) = decimal_value (acc * 10 + (c - 48)) cs

-- The value of hexadecimal digits, when all of them are.
unfoldable pub hex_number : ℕ → Text → Option ℕ
hex_number acc [] = some acc
hex_number acc (c ∷ cs) = elim (hex_value c) [ none ↦ none | some d ↦ hex_number (acc * 16 + d) cs ]

abbrev pub starts_with_zero : Text → Bool
starts_with_zero [] = false
starts_with_zero (c ∷ cs) = c == 48

-- `parse::<u8>` of at most three digits.
unfoldable pub parse_v4_octet : Text → Option ℕ
unfolding is_decimal decimal_value
parse_v4_octet component =
    if is_empty_text component || ltb 3 (length component)
    then none
    else if ltb 1 (length component) && starts_with_zero component
    then none
    else if not (is_decimal component)
    then none
    else if ltb (decimal_value 0 component) 256
    then some (decimal_value 0 component)
    else none

-- `*` is the wildcard, in the place of a number.
unfoldable pub parse_v6_hextet : Text → Option (Option ℕ)
unfolding hex_number
parse_v6_hextet group =
    if key_eq group star
    then some none
    else if is_empty_text group || ltb 4 (length group)
    then none
    else elim (hex_number 0 group) [ none ↦ none | some v ↦ some (some v) ]

unfoldable pub v4_slot : Text → Option (Option ℕ)
v4_slot component =
    if key_eq component star
    then some none
    else elim (parse_v4_octet component) [ none ↦ none | some v ↦ some (some v) ]

-- The loop that fills the slots, the first that cannot be read ending it.
unfoldable pub read_slots : (Text → Option (Option ℕ)) → List Text → Option (List (Option ℕ))
read_slots slot [] = some []
read_slots slot (part ∷ parts) =
    let rest = read_slots slot parts in
    elim (slot part) [
      | none ↦ none
      | some s ↦ elim rest [ none ↦ none | some slots ↦ some (s ∷ slots) ]
    ]

unfoldable pub last_part : List Text → Text
last_part [] = []
last_part (part ∷ parts) = elim parts [ [] ↦ part | _ ∷ _ ↦ last_part parts ]

abbrev pub wildcards : ℕ → List (Option ℕ)
wildcards zero = []
wildcards (suc n) = none ∷ wildcards n

abbrev pub zeros : ℕ → List (Option ℕ)
zeros zero = []
zeros (suc n) = some 0 ∷ zeros n

-- The first slots of `n`, the others being wildcards.
abbrev pub slots_of : ℕ → List (Option ℕ) → List (Option ℕ)
slots_of n slots = slots ++ wildcards (n - length slots)

unfoldable pub parse_ipv4_wildcard : Text → Parsed Rule
parse_ipv4_wildcard token =
    let components = split 46 token in
    if ltb 4 (length components)
    then bad token too_many_octets
    else if ltb (length components) 4 && not (key_eq (last_part components) star)
    then bad token short_octets
    else ok_or token bad_octet (read_slots v4_slot components) >>= λ slots.
        accepted (rule_from_v4_slots (slots_of 4 slots))
