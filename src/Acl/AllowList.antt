-- ===== src/Acl/AllowList.antt =====
-- packages/proxy-config/client-acl/src/parser.rs and lib.rs: IPv6 patterns, tokens and lists.
use tor_socks.Base.{
  take, drop, ◌/◌, ◌%◌, ℕ, ◌^◌, ◌+◌, ◌-◌, ◌*◌, Bool, true, false, not, ◌&&◌, ◌||◌, Option, none,
  some, List, [], ◌∷◌, ◌++◌, map, length, if◌then◌else◌, ◌==◌, ltb, leb,
}
use tor_socks.OrdMap.{key_eq}
use tor_socks.OrdMap.Text.{Text, text_ord}
use tor_socks.Acl.Rule.{
  IpAddr, v4, v6, Rule, anyone, loopback, v4_net, v6_net, to_ipv4_mapped, rule_from_v4_slots,
  rule_from_v6_slots, split_mapped_v4,
}
use tor_socks.Acl.Clients.{AllowedClients}
use tor_socks.Acl.Endpoint.{contains, is_empty_text}
use tor_socks.Acl.Parser.{
  empty_list, empty_token, not_a_rule, triple_colon, bad_prefix, not_mapped, too_many_hextets,
  short_hextets, bad_hextet, nothing_compressed, Parsed, accepted, ◌>>=◌, bad, ok_or, star, split,
  parse_v6_hextet, read_slots, last_part, zeros, slots_of, parse_ipv4_wildcard,
}

-- `contains(":::")`
unfoldable pub has_triple : Text → Bool
has_triple (a ∷ b ∷ c ∷ cs) = (a == 58 && b == 58 && c == 58) || has_triple (b ∷ c ∷ cs)
has_triple _ = false

-- At the last colon: the part up to it, with it, and the part after it.
unfoldable pub rfind_colon : Text → Option (Text × Text)
rfind_colon [] = none
rfind_colon (c ∷ cs) =
    let rest = rfind_colon cs in
    elim rest [
      | some (head, tail) ↦ some (c ∷ head, tail)
      | none ↦ if c == 58 then some (58 ∷ [], cs) else none
    ]

-- `split_once("::")`
unfoldable pub split_once_pair : Text → Option (Text × Text)
split_once_pair (a ∷ b ∷ cs) =
    let rest = split_once_pair (b ∷ cs) in
    if a == 58 && b == 58
    then some ([], cs)
    else elim rest [ none ↦ none | some (left, right) ↦ some (a ∷ left, right) ]
split_once_pair _ = none

-- The hextet of an address at a place.
unfoldable pub segment : ℕ → ℕ → ℕ
segment i a = a / 2 ^ (112 - 16 * i) % 2 ^ 16

unfoldable pub is_mapped_prefix : ℕ → Bool
is_mapped_prefix a =
    segment 0 a == 0
    && segment 1 a == 0
    && segment 2 a == 0
    && segment 3 a == 0
    && segment 4 a == 0
    && segment 5 a == 0xffff
    && segment 6 a == 0
    && segment 7 a == 0

abbrev pub groups_of : Text → List Text
groups_of [] = []
groups_of (c ∷ cs) = split 58 (c ∷ cs)

-- `copy_within(from..to, at)`
unfoldable pub copy_within : ℕ → ℕ → ℕ → List (Option ℕ) → List (Option ℕ)
copy_within from to at slots =
    take at slots ++ (take (to - from) (drop from slots) ++ drop (at + (to - from)) slots)

-- `slots[from..to]` set to exact zeros.
unfoldable pub zero_fill : ℕ → ℕ → List (Option ℕ) → List (Option ℕ)
zero_fill from to slots = take from slots ++ (zeros (to - from) ++ drop to slots)

-- The slots of a compressed pattern, from those written, of which `right_len` follow the `::`.
unfoldable pub expand : List (Option ℕ) → ℕ → List (Option ℕ)
expand written right_len =
    let fixed_end = length written - right_len in
    zero_fill fixed_end (8 - right_len)
      (copy_within fixed_end (length written) (8 - right_len) (slots_of 8 written))

unfoldable pub compile_v6 : List (Option ℕ) → Rule
compile_v6 slots = elim (split_mapped_v4 slots) [
  | some v4_slots ↦ rule_from_v4_slots v4_slots
  | none ↦ rule_from_v6_slots slots
]

unfoldable pub parse_uncompressed : Text → Parsed Rule
parse_uncompressed token =
    let groups = split 58 token in
    if ltb 8 (length groups)
    then bad token too_many_hextets
    else if ltb (length groups) 8 && not (key_eq (last_part groups) star)
    then bad token short_hextets
    else ok_or token bad_hextet (read_slots parse_v6_hextet groups) >>= λ slots.
        accepted (compile_v6 (slots_of 8 slots))

unfoldable pub parse_compressed : Text → Text → Text → Parsed Rule
parse_compressed token left right =
    let left_groups = groups_of left in
    let right_groups = groups_of right in
    if leb 8 (length left_groups + length right_groups)
    then bad token nothing_compressed
    else ok_or token bad_hextet (read_slots parse_v6_hextet (left_groups ++ right_groups))
      >>= λ written. accepted (compile_v6 (expand written (length right_groups)))

-- A pattern of hextets, without a tail in the form of an IPv4 address.
unfoldable pub parse_hextets : Text → Parsed Rule
parse_hextets token = elim (split_once_pair token) [
  | none ↦ parse_uncompressed token
  | some (left, right) ↦ parse_compressed token left right
]

-- The tail that follows the mapped prefix.
unfoldable pub parse_mapped_tail : (Text → Option ℕ) → Text → Text → Text → Parsed Rule
parse_mapped_tail parse_v6 token head tail = elim (parse_v6 (head ++ (48 ∷ 58 ∷ 48 ∷ []))) [
  | none ↦ bad token bad_prefix
  | some a ↦ if is_mapped_prefix a then parse_ipv4_wildcard tail else bad token not_mapped
]

unfoldable pub parse_ipv6_wildcard : (Text → Option ℕ) → Text → Parsed Rule
parse_ipv6_wildcard parse_v6 token =
    if has_triple token then bad token triple_colon else elim (rfind_colon token) [
      | none ↦ parse_hextets token
      | some (head, tail) ↦
          if contains 46 tail
          then parse_mapped_tail parse_v6 token head tail
          else parse_hextets token
    ]

-- The rule of one address.
unfoldable pub exact_rule : IpAddr → Rule
exact_rule (v4 a) = v4_net a (2 ^ 32 - 1)
exact_rule (v6 a) = elim (to_ipv4_mapped a) [
  | some b ↦ v4_net b (2 ^ 32 - 1)
  | none ↦ v6_net a (2 ^ 128 - 1)
]

abbrev pub loopback_word : Text
loopback_word = 108 ∷ 111 ∷ 111 ∷ 112 ∷ 98 ∷ 97 ∷ 99 ∷ 107 ∷ []

abbrev pub first_is_empty : List Text → Bool
first_is_empty [] = true
first_is_empty (token ∷ tokens) = is_empty_text token

module _ (parse_ip : Text → Option IpAddr) (parse_v6 : Text → Option ℕ) where
  unfoldable pub parse_token : Text → Parsed Rule
  parse_token token =
      if is_empty_text token
      then bad token empty_token
      else if key_eq token star
      then accepted anyone
      else if key_eq token loopback_word
      then accepted loopback
      else elim (parse_ip token) [
        | some ip ↦ accepted (exact_rule ip)
        | none ↦
            if contains 58 token
            then parse_ipv6_wildcard parse_v6 token
            else if contains 46 token
            then parse_ipv4_wildcard token
            else bad token not_a_rule
      ]

  -- The rules of the tokens, the first that is refused ending it.
  unfoldable pub parse_tokens : List Text → Parsed (List Rule)
  parse_tokens [] = accepted []
  parse_tokens (token ∷ tokens) =
      let rest = parse_tokens tokens in
      parse_token token >>= λ rule. rest >>= λ rules. accepted (rule ∷ rules)

  unfoldable pub parse : (Text → Text) → Text → Parsed (List Rule)
  parse trim source =
      let tokens = map trim (split 44 source) in
      if length tokens == 1 && first_is_empty tokens
      then bad (trim source) empty_list
      else parse_tokens tokens

  -- `AllowedClients::from_str`
  unfoldable pub read_clients : (Text → Text) → Text → Parsed AllowedClients
  read_clients trim source =
      parse trim source >>= λ rules. accepted (record { source = source; rules = rules })
