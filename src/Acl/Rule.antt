-- ===== src/Acl/Rule.antt =====
-- packages/proxy-config/client-acl/src/matcher.rs and lib.rs: compiled rules and their matching.
-- An address is its 32 or 128 bits as a number.
use Prim.Native.Nat.{bit_and, bit_or}
use tor_socks.Base.{
  ℕ, suc, ◌-◌, ◌*◌, ◌/◌, ◌%◌, ◌^◌, Bool, true, false, ◌||◌, Option, none, some, List, [], ◌∷◌, ◌==◌,
  if◌then◌else◌, ◌&&◌, ◌++◌,
}

pub data IpAddr : Type 0 where
  v4 : ℕ → IpAddr
  v6 : ℕ → IpAddr

pub data Rule : Type 0 where
  anyone : Rule
  loopback : Rule
  v4_net : ℕ → ℕ → Rule
  v6_net : ℕ → ℕ → Rule

-- `Ipv6Addr::to_ipv4_mapped`: 80 zero bits, 16 ones, and the IPv4 address.
unfoldable pub to_ipv4_mapped : ℕ → Option ℕ
to_ipv4_mapped a = if a / 2 ^ 32 == 0xffff then some (a % 2 ^ 32) else none

unfoldable pub normalize_peer : IpAddr → IpAddr
unfolding to_ipv4_mapped
normalize_peer (v4 a) = v4 a
normalize_peer (v6 a) = elim (to_ipv4_mapped a) [ some b ↦ v4 b | none ↦ v6 a ]

-- `Ipv4Addr::is_loopback` is 127.0.0.0/8, `Ipv6Addr::is_loopback` is `::1`.
unfoldable pub matches : Rule → IpAddr → Bool
matches anyone peer = true
matches loopback (v4 a) = a / 2 ^ 24 == 127
matches loopback (v6 a) = a == 1
matches (v4_net network mask) (v4 a) = bit_and a mask == bit_and network mask
matches (v4_net network mask) (v6 a) = false
matches (v6_net network mask) (v6 a) = bit_and a mask == bit_and network mask
matches (v6_net network mask) (v4 a) = false

unfoldable pub any_matches : List Rule → IpAddr → Bool
any_matches [] peer = false
any_matches (r ∷ rules) peer = matches r peer || any_matches rules peer

unfoldable pub allows : List Rule → IpAddr → Bool
unfolding normalize_peer any_matches matches
allows rules ip = any_matches rules (normalize_peer ip)

-- The loop over the slots: `none` is a wildcard. The slot at place `i` is shifted by
-- `top - width * i` bits.
unfoldable pub slots_loop : ℕ → ℕ → ℕ → List (Option ℕ) → ℕ → ℕ → ℕ × ℕ
slots_loop width top i [] network mask = (network, mask)
slots_loop width top i (none ∷ slots) network mask = slots_loop width top (suc i) slots network mask
slots_loop width top i (some v ∷ slots) network mask =
    slots_loop width top (suc i) slots (bit_or network (v * 2 ^ (top - width * i)))
      (bit_or mask ((2 ^ width - 1) * 2 ^ (top - width * i)))

unfoldable pub rule_from_v4_slots : List (Option ℕ) → Rule
unfolding slots_loop
rule_from_v4_slots slots = let (network, mask) = slots_loop 8 24 0 slots 0 0 in v4_net network mask

unfoldable pub rule_from_v6_slots : List (Option ℕ) → Rule
unfolding slots_loop
rule_from_v6_slots slots =
    let (network, mask) = slots_loop 16 112 0 slots 0 0 in v6_net network mask

unfoldable pub to_octets : Option ℕ → List (Option ℕ)
to_octets none = none ∷ none ∷ []
to_octets (some v) = some (v / 256 % 256) ∷ some (v % 256) ∷ []

-- The slot is fixed to this value.
unfoldable pub is_fixed : ℕ → Option ℕ → Bool
is_fixed v none = false
is_fixed v (some w) = v == w

unfoldable pub split_mapped_v4 : List (Option ℕ) → Option (List (Option ℕ))
unfolding to_octets is_fixed
split_mapped_v4 (a ∷ b ∷ c ∷ d ∷ e ∷ f ∷ g ∷ h ∷ []) =
    if is_fixed 0 a
      && is_fixed 0 b
      && is_fixed 0 c
      && is_fixed 0 d
      && is_fixed 0 e
      && is_fixed 0xffff f
    then some (to_octets g ++ to_octets h)
    else none
split_mapped_v4 _ = none
