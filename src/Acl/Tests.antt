-- ===== src/Acl/Tests.antt =====
-- A toy format of socket addresses, and the theorems on client rules and endpoints at concrete
-- inputs.
use tor_socks.Base.{
  ℕ, ◌+◌, ◌-◌, ◌≡◌, refl, ◌↔◌, inr, false, Option, none, some, List, [], ◌∷◌, ◌++◌, map, arith,
}
use tor_socks.OrdMap.Text.{Text, text_cmp}
use tor_socks.Acl.Rule.{IpAddr, v4_net, rule_from_v4_slots}
use tor_socks.Acl.Rule.{anyone, loopback}
use tor_socks.Acl.Clients.{AllowedClients}
use tor_socks.Acl.Parser.{accepted, slots_of, split, zeros, parse_ipv4_wildcard}
use tor_socks.Acl.AllowList.{
  read_clients, parse, parse_tokens, parse_token, parse_ipv6_wildcard, compile_v6,
}
use tor_socks.Acl.Octets.{IsPattern, pattern_text, parse_ipv4_wildcard_iff}
use tor_socks.Acl.Validated.{Reads, read_clients_iff}
use tor_socks.Acl.Compressed.{hextets_text, parse_ipv6_wildcard-compressed}
use tor_socks.Acl.Endpoint.{
  SocketAddr, v4_addr, v6_addr, Socks5Endpoint, from_str, serialize, contains, bar, bad_credentials,
  split_endpoint, read_credentials,
}
use tor_socks.Acl.EndpointText.{IsTextual, IsWritable, AddrText, from_str-serialize}

-- An IPv4 address is written as its two numbers, an IPv6 one as three, without the flow label;
-- each number is shifted off the bar.
abbrev shift_off : ℕ → ℕ
shift_off n = n + 1000

abbrev print_toy : SocketAddr → Text
print_toy (v4_addr ip port) = shift_off ip ∷ shift_off port ∷ []
print_toy (v6_addr ip port flowinfo scope_id) =
    shift_off ip ∷ shift_off port ∷ shift_off scope_id ∷ []

abbrev parse_toy : Text → Option SocketAddr
parse_toy (n ∷ p ∷ []) = some (v4_addr (n - 1000) (p - 1000))
parse_toy (n ∷ p ∷ i ∷ []) = some (v6_addr (n - 1000) (p - 1000) 0 (i - 1000))
parse_toy _ = none

print_toy_reads : (a : SocketAddr) → IsTextual a → parse_toy (print_toy a) ≡ some a
print_toy_reads (v4_addr ip port) h = ground arith
print_toy_reads (v6_addr ip port flowinfo scope_id) h = ground (arith, h.2)

print_toy-no_bar : (a : SocketAddr) → contains bar (print_toy a) ≡ false
unfolding contains
print_toy-no_bar (v4_addr ip port) = ground arith
print_toy-no_bar (v6_addr ip port flowinfo scope_id) = ground arith

toy_text : AddrText parse_toy print_toy
toy_text = record {
  reads = print_toy_reads;
  no_bar = print_toy-no_bar;
  no_none = refl;
  no_empty = refl;
}

-- [::1%2]:9050 with the credentials `u` and `p`.
abbrev local : SocketAddr
local = v6_addr 1 9050 0 2

abbrev proxy : Socks5Endpoint
proxy = record { address = local; username = some (117 ∷ []); password = some (112 ∷ []) }

proxy-IsWritable : IsWritable proxy
unfolding bad_credentials contains
proxy-IsWritable = record {
  has_port = ground arith;
  clean = inr (117 ∷ [], 112 ∷ [], refl, refl, refl);
}

local-IsTextual : IsTextual local
local-IsTextual = (omega arith, omega arith, refl, omega arith)

from_str-serialize_example :
    from_str parse_toy print_toy (serialize parse_toy print_toy proxy) ≡ some proxy
from_str-serialize_example =
    from_str-serialize parse_toy print_toy proxy toy_text local-IsTextual proxy-IsWritable

from_str-serialize_again :
    from_str parse_toy print_toy (serialize parse_toy print_toy proxy) ≡ some proxy
unfolding from_str serialize split_endpoint read_credentials text_cmp
from_str-serialize_again = refl

-- `10.*`
abbrev ten_any : List (Option ℕ)
ten_any = some 10 ∷ none ∷ []

abbrev ten_text : Text
ten_text = 49 ∷ 48 ∷ 46 ∷ 42 ∷ []

parse_ipv4_wildcard_iff_example :
    (parse_ipv4_wildcard ten_text ≡ accepted (v4_net 0x0a000000 0xff000000)) ↔ (
      (slots : List (Option ℕ)) × IsPattern slots
      × (ten_text ≡ pattern_text slots)
      × (v4_net 0x0a000000 0xff000000 ≡ rule_from_v4_slots (slots_of 4 slots)))
parse_ipv4_wildcard_iff_example = parse_ipv4_wildcard_iff ten_text (v4_net 0x0a000000 0xff000000)

abbrev no_address : Text → Option IpAddr
no_address t = none

abbrev no_v6 : Text → Option ℕ
no_v6 t = none

abbrev no_trim : Text → Text
no_trim t = t

-- `*,loopback`
abbrev list_text : Text
list_text = 42 ∷ 44 ∷ 108 ∷ 111 ∷ 111 ∷ 112 ∷ 98 ∷ 97 ∷ 99 ∷ 107 ∷ []

abbrev two_rules : AllowedClients
two_rules = record { source = list_text; rules = anyone ∷ loopback ∷ [] }

list_text_reads : read_clients no_address no_v6 no_trim list_text ≡ accepted two_rules
unfolding read_clients parse parse_tokens parse_token split text_cmp
list_text_reads = refl

read_clients_iff_example :
    (read_clients no_address no_v6 no_trim list_text ≡ accepted two_rules) ↔ (
      (two_rules.source ≡ list_text)
      × Reads no_address no_v6 (map no_trim (split 44 list_text)) two_rules.rules)
read_clients_iff_example = read_clients_iff no_address no_v6 no_trim list_text two_rules

-- `2001:db8::*`
abbrev db8 : List (Option ℕ)
db8 = some 0x2001 ∷ some 0xdb8 ∷ []

parse_ipv6_wildcard-compressed_example :
    parse_ipv6_wildcard no_v6 (hextets_text db8 ++ (58 ∷ 58 ∷ hextets_text (none ∷ [])))
    ≡ accepted (compile_v6 (db8 ++ (zeros 5 ++ (none ∷ []))))
parse_ipv6_wildcard-compressed_example =
    parse_ipv6_wildcard-compressed no_v6 db8 (none ∷ []) (omega arith, (omega arith, tt))
      (omega arith, tt) (omega arith)
