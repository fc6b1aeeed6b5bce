-- ===== src/Socks/Request.antt =====
-- packages/socks5-proto/src/client.rs: the bytes of a request, read back.
use tor_socks.Base.{
  append_parts, ◌/◌, ◌%◌, drop, take, length-append, All-append, ℕ, zero, suc, ◌^◌, ◌+◌, ◌*◌, ◌<◌,
  ◌≡◌, refl, inl, inr, false, not, ◌&&◌, Option, none, some, List, [], ◌∷◌, ◌++◌, arith, length,
  if◌then◌else◌, All, Option-cases, ◌==◌, ◌/◌, ◌%◌, drop, take, length-append,
}
use tor_socks.OrdMap.Text.{Text, text_ord}
use tor_socks.Acl.Rule.{IpAddr, v4, v6}
use tor_socks.Socks.Client.{be_bytes, address_bytes, connect_request, bad_host}

pub data Destination : Type 0 where
  at_address : IpAddr → Destination
  at_name : Text → Destination

-- The number that bytes spell, the highest first, after the digits in `acc`.
unfoldable pub be_number : ℕ → List ℕ → ℕ
be_number acc [] = acc
be_number acc (b ∷ bs) = be_number (acc * 256 + b) bs

unfoldable pub decode_name : List ℕ → Option (Destination × ℕ)
decode_name [] = none
decode_name (n ∷ body) =
    if length body == n + 2 then some (at_name (take n body), be_number 0 (drop n body)) else none

-- RFC 1928, section 4: the destination and the port that a CONNECT request names.
unfoldable pub decode_request : List ℕ → Option (Destination × ℕ)
decode_request (version ∷ command ∷ reserved ∷ kind ∷ body) =
    if not (version == 5 && command == 1 && reserved == 0)
    then none
    else if kind == 1 && length body == 6
    then some (at_address (v4 (be_number 0 (take 4 body))), be_number 0 (drop 4 body))
    else if kind == 4 && length body == 18
    then some (at_address (v6 (be_number 0 (take 16 body))), be_number 0 (drop 16 body))
    else if kind == 3
    then decode_name body
    else none
decode_request bytes = none

-- What a host stands for, once the parser of addresses has been tried.
unfoldable pub destination : (Text → Option IpAddr) → Text → Destination
destination parse_ip host = elim (parse_ip host) [ some ip ↦ at_address ip | none ↦ at_name host ]

-- An address the parser can return fits its width.
pub data IsAddress : IpAddr → Type 0 where
  is_v4 : (a : ℕ) → a < 256 ^ 4 → IsAddress (v4 a)
  is_v6 : (a : ℕ) → a < 256 ^ 16 → IsAddress (v6 a)

length-be_bytes : (k n : ℕ) → length (be_bytes k n) ≡ k
unfolding be_bytes
length-be_bytes zero n = refl
length-be_bytes (suc k) n =
    omega (arith, length-append (be_bytes k (n / 256)) (n % 256 ∷ []), length-be_bytes k (n / 256))

be_number-append :
    (acc : ℕ) (xs : List ℕ) (b : ℕ) → be_number acc (xs ++ (b ∷ [])) ≡ be_number acc xs * 256 + b
unfolding be_number
be_number-append acc [] b = refl
be_number-append acc (x ∷ xs) b = be_number-append (acc * 256 + x) xs b

be_number-be_bytes : (k n : ℕ) → n < 256 ^ k → be_number 0 (be_bytes k n) ≡ n
unfolding be_bytes be_number
be_number-be_bytes zero n h = omega arith
be_number-be_bytes (suc k) n h = omega (
  arith,
  be_number-append 0 (be_bytes k (n / 256)) (n % 256),
  be_number-be_bytes k (n / 256) (omega arith),
)

v4_fits : {a : ℕ} → IsAddress (v4 a) → a < 256 ^ 4
v4_fits (is_v4 a h) = h

v6_fits : {a : ℕ} → IsAddress (v6 a) → a < 256 ^ 16
v6_fits (is_v6 a h) = h

abbrev pub Bytes : List ℕ → Type 0
Bytes xs = All (λ (b : ℕ). b < 256) xs

be_bytes-Bytes : (k n : ℕ) → Bytes (be_bytes k n)
unfolding be_bytes
be_bytes-Bytes zero n = tt
be_bytes-Bytes (suc k) n =
    All-append (λ (b : ℕ). b < 256) (be_bytes k (n / 256)) (n % 256 ∷ [])
      (be_bytes-Bytes k (n / 256)) (omega arith, tt)

address_bytes-Bytes :
    (parse_ip : Text → Option IpAddr) (host : Text)
    → bad_host host ≡ false
    → Bytes host
    → Bytes (address_bytes parse_ip host)
unfolding address_bytes bad_host
address_bytes-Bytes parse_ip host good bytes = elim (Option-cases (parse_ip host)) [
  | inl e ↦ rw (e, address_bytes) (omega arith, (ground arith, bytes))
  | inr (v4 a, e) ↦ rw (e, address_bytes) (omega arith, be_bytes-Bytes 4 a)
  | inr (v6 a, e) ↦ rw (e, address_bytes) (omega arith, be_bytes-Bytes 16 a)
]

-- Every element of a request is a byte, also the length of the host and the port's two halves.
pub connect_request-Bytes :
    (parse_ip : Text → Option IpAddr) (host : Text) (port : ℕ)
    → bad_host host ≡ false
    → Bytes host
    → Bytes (connect_request parse_ip host port)
unfolding connect_request
connect_request-Bytes parse_ip host port good bytes =
    All-append (λ (b : ℕ). b < 256) (5 ∷ 1 ∷ 0 ∷ address_bytes parse_ip host) (be_bytes 2 port)
      (omega arith, (omega arith, (omega arith, address_bytes-Bytes parse_ip host good bytes)))
      (be_bytes-Bytes 2 port)

request_read_back :
    (parse_ip : Text → Option IpAddr) (host : Text) (port : ℕ)
    → ((h : Text) (ip : IpAddr) → parse_ip h ≡ some ip → IsAddress ip)
    → port < 256 ^ 2
    → decode_request (connect_request parse_ip host port) ≡ some (destination parse_ip host, port)
unfolding decode_request decode_name connect_request address_bytes destination
request_read_back parse_ip host port fits small = elim (Option-cases (parse_ip host)) [
  | inl e ↦
      let (front, back) = append_parts (length host) host (be_bytes 2 port) refl in
      rw e (
        ground (
          arith,
          front,
          back,
          length-append host (be_bytes 2 port),
          length-be_bytes 2 port,
          be_number-be_bytes 2 port small,
        ))
  | inr (v4 a, e) ↦
      let (front, back) = append_parts 4 (be_bytes 4 a) (be_bytes 2 port) (length-be_bytes 4 a) in
      rw e (
        ground (
          arith,
          front,
          back,
          length-append (be_bytes 4 a) (be_bytes 2 port),
          length-be_bytes 4 a,
          length-be_bytes 2 port,
          be_number-be_bytes 4 a (v4_fits (fits host (v4 a) e)),
          be_number-be_bytes 2 port small,
        ))
  | inr (v6 a, e) ↦
      let (front, back) =
        append_parts 16 (be_bytes 16 a) (be_bytes 2 port) (length-be_bytes 16 a) in
      rw e (
        ground (
          arith,
          front,
          back,
          length-append (be_bytes 16 a) (be_bytes 2 port),
          length-be_bytes 16 a,
          length-be_bytes 2 port,
          be_number-be_bytes 16 a (v6_fits (fits host (v6 a) e)),
          be_number-be_bytes 2 port small,
        ))
]

-- The request for a usable host is made of bytes, and a proxy that reads it by the RFC finds
-- the host (as an address when it parses as one) and the port it was made for.
pub decode_request-connect_request :
    (parse_ip : Text → Option IpAddr) (host : Text) (port : ℕ)
    → ((h : Text) (ip : IpAddr) → parse_ip h ≡ some ip → IsAddress ip)
    → bad_host host ≡ false
    → Bytes host
    → port < 256 ^ 2
    → Bytes (connect_request parse_ip host port)
      × (decode_request (connect_request parse_ip host port)
          ≡ some (destination parse_ip host, port))
decode_request-connect_request parse_ip host port fits good bytes small = (
  connect_request-Bytes parse_ip host port good bytes,
  request_read_back parse_ip host port fits small,
)
