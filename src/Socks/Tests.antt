-- ===== src/Socks/Tests.antt =====
-- A login and a request for a name, and the theorems on the exchange.
use tor_socks.Base.{
  ℕ, suc, ◌+◌, ◌≡◌, refl, ◌↔◌, true, false, Option, none, some, List, [], ◌∷◌, ◌++◌, map, arith,
}
use tor_socks.OrdMap.Text.{Text, text_ord, text_cmp}
use tor_socks.Acl.Rule.{IpAddr}
use tor_socks.Acl.Endpoint.{contains}
use tor_socks.Socks.Client.{Credentials, Stream, ok, connect, connect_request, bad_host}
use tor_socks.Socks.Exchange.{Grants, to_name, negotiation, greeting, writes, connect-granted}
use tor_socks.Socks.Sound.{connect_sound}
use tor_socks.Socks.Request.{
  Bytes, IsAddress, decode_request, destination, decode_request-connect_request,
}
use tor_socks.Socks.Onion.{is_onion, is_onion_iff, ascii_lower, onion, dots, trim_dots, last_label}

abbrev no_ip : Text → Option IpAddr
no_ip host = none

abbrev host_a : Text
host_a = 97 ∷ []

abbrev user_b : Option Credentials
user_b = some (record { username = 98 ∷ []; password = 99 ∷ [] })

abbrev granting : List ℕ
granting = 5 ∷ 0 ∷ 0 ∷ 3 ∷ 1 ∷ 100 ∷ 0 ∷ 80 ∷ []

granting-Grants : Grants granting
granting-Grants = to_name 1 (100 ∷ 0 ∷ 80 ∷ []) (λ e. absurd (omega (arith, e))) refl

host_a_good : bad_host host_a ≡ false
unfolding bad_host contains
host_a_good = refl

abbrev before : Stream
before = record {
  incoming = negotiation user_b ++ (granting ++ (33 ∷ []));
  written = [];
  writes_left = writes user_b + suc 0;
}

abbrev afterwards : Stream
afterwards = record {
  incoming = 33 ∷ [];
  written = ([] ++ greeting user_b) ++ connect_request no_ip host_a 80;
  writes_left = 0;
}

connect-granted_example : connect no_ip host_a 80 user_b none before ≡ (ok tt, afterwards)
connect-granted_example =
    connect-granted no_ip host_a 80 user_b (33 ∷ []) [] 0 host_a_good granting-Grants

connect_sound_example :
    (bad_host host_a ≡ false)
    × ◌≡◌ {A = Option Stream} none none
    × (g : List ℕ) × Grants g
    × (before.incoming ≡ negotiation user_b ++ (g ++ afterwards.incoming))
    × (afterwards.written ≡ (before.written ++ greeting user_b) ++ connect_request no_ip host_a 80)
connect_sound_example =
    connect_sound no_ip host_a 80 user_b none before
      (connect-granted no_ip host_a 80 user_b (33 ∷ []) [] 0 host_a_good granting-Grants)

no-IsAddress : (h : Text) (ip : IpAddr) → no_ip h ≡ some ip → IsAddress ip
no-IsAddress h ip e = absurd (ground arith)

decode_request-connect_request_example :
    Bytes (connect_request no_ip host_a 80)
    × (decode_request (connect_request no_ip host_a 80) ≡ some (destination no_ip host_a, 80))
decode_request-connect_request_example =
    decode_request-connect_request no_ip host_a 80 no-IsAddress host_a_good (omega arith, tt)
      (omega arith)

-- `a.OnIon..`
abbrev onion_host : Text
onion_host = 97 ∷ 46 ∷ 79 ∷ 110 ∷ 73 ∷ 111 ∷ 110 ∷ 46 ∷ 46 ∷ []

onion_host_is : is_onion onion_host ≡ true
unfolding is_onion trim_dots last_label ascii_lower text_cmp
onion_host_is = refl

is_onion_iff_example : (is_onion onion_host ≡ true) ↔ (
    (label : Text) × (tld : Text) × (n : ℕ) × (onion_host ≡ label ++ (46 ∷ (tld ++ dots n)))
    × (map ascii_lower tld ≡ onion))
is_onion_iff_example = is_onion_iff onion_host
