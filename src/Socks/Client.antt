-- ===== src/Socks/Client.antt =====
-- packages/socks5-proto/src/client.rs: connecting through a SOCKS5 proxy.
-- The parser of IP addresses is the standard library's, and a parameter.
use tor_socks.Base.{
  take, drop, ◌/◌, ◌%◌, ℕ, zero, suc, ◌+◌, ◌-◌, Bool, true, false, ◌&&◌, ◌||◌, Option, none, some,
  List, [], ◌∷◌, ◌++◌, length, if◌then◌else◌, ◌==◌, ltb, leb,
}
use tor_socks.OrdMap.{key_eq}
use tor_socks.OrdMap.Text.{Text, text_ord}
use tor_socks.Acl.Rule.{IpAddr, v4, v6}
use tor_socks.Acl.Endpoint.{contains, is_empty_text}

pub record Credentials : Type 0 where
  pub username : Text
  pub password : Text

pub data ConnectError : Type 0 where
  invalid_input : ConnectError
  io_error : ConnectError
  timeout : ConnectError
  protocol : ConnectError

-- `Credentials::new`
unfoldable pub new_credentials : Text → Text → Option Credentials
new_credentials username password =
    if is_empty_text username
      || is_empty_text password
      || ltb 255 (length username)
      || ltb 255 (length password)
    then none
    else some (record { username = username; password = password })

-- What the peer will have sent, what was written to it, and how many writes still succeed.
pub record Stream : Type 0 where
  pub incoming : List ℕ
  pub written : List ℕ
  pub writes_left : ℕ

pub data Result (A : Type 0) : Type 0 where
  ok : A → Result A
  err : ConnectError → Result A

abbrev pub Step : Type 0 → Type 0
Step A = Stream → Result A × Stream

abbrev pub after : {A B : Type 0} → (A → Step B) → Result A × Stream → Result B × Stream
after f (ok a, s) = f a s
after f (err e, s) = (err e, s)

infixl 5 ◌>>=◌ ◌>>◌
abbrev pub ◌>>=◌ : {A B : Type 0} → Step A → (A → Step B) → Step B
◌>>=◌ m f s = after f (m s)

abbrev pub ◌>>◌ : {B : Type 0} → Step (Unit {0}) → Step B → Step B
◌>>◌ m k s = after (λ _. k) (m s)

abbrev pub pure : {A : Type 0} → A → Step A
pure a s = (ok a, s)

abbrev pub fail : {A : Type 0} → ConnectError → Step A
fail e s = (err e, s)

abbrev pub check : Bool → Step (Unit {0})
check true s = (ok tt, s)
check false s = (err protocol, s)

unfoldable pub write_all : List ℕ → Step (Unit {0})
write_all bytes s =
    if 0 == s.writes_left
    then (err io_error, s)
    else (ok tt, record s { written = s.written ++ bytes; writes_left = s.writes_left - 1 })

unfoldable pub read_exact : ℕ → Step (List ℕ)
read_exact k s =
    if leb k (length s.incoming)
    then (ok (take k s.incoming), record s { incoming = drop k s.incoming })
    else (err io_error, record s { incoming = [] })

-- The byte at a place of a buffer that is long enough.
abbrev pub byte : ℕ → List ℕ → ℕ
byte i [] = 0
byte zero (x ∷ xs) = x
byte (suc i) (x ∷ xs) = byte i xs

-- The `k` bytes of a number, the highest first.
unfoldable pub be_bytes : ℕ → ℕ → List ℕ
be_bytes zero n = []
be_bytes (suc k) n = be_bytes k (n / 256) ++ (n % 256 ∷ [])

unfoldable pub address_bytes : (Text → Option IpAddr) → Text → List ℕ
address_bytes parse_ip host = elim (parse_ip host) [
  | some ip ↦ elim ip [ v4 a ↦ 1 ∷ be_bytes 4 a | v6 a ↦ 4 ∷ be_bytes 16 a ]
  | none ↦ 3 ∷ length host ∷ host
]

unfoldable pub connect_request : (Text → Option IpAddr) → Text → ℕ → List ℕ
connect_request parse_ip host port = (5 ∷ 1 ∷ 0 ∷ address_bytes parse_ip host) ++ be_bytes 2 port

unfoldable pub method : Option Credentials → ℕ
method none = 0
method (some c) = 2

unfoldable pub auth_request : Credentials → List ℕ
auth_request c =
    (1 ∷ length c.username % 256 ∷ c.username) ++ (length c.password % 256 ∷ c.password)

-- The negotiation of the method, and the login when the proxy asks for it.
unfoldable pub negotiate : Option Credentials → Step (Unit {0})
negotiate credentials s =
    (do
      write_all (5 ∷ 1 ∷ [])
      write_all (method credentials ∷ [])
      choice ← read_exact 2
      check (byte 0 choice == 5 && byte 1 choice == method credentials)
      elim (byte 1 choice == 2) [
        | false ↦ pure tt
        | true ↦ elim credentials [
          | none ↦ fail protocol
          | some c ↦
              write_all (auth_request c)
              >> (read_exact 2 >>= λ result. check (key_eq result (1 ∷ 0 ∷ [])))
        ]
      ])
      s

-- The length of the bound address that follows the header of a reply.
unfoldable pub tail_length : ℕ → Step ℕ
tail_length kind s =
    if kind == 1
    then (ok 4, s)
    else if kind == 4
    then (ok 16, s)
    else if kind == 3
    then (read_exact 1 >>= λ n. if byte 0 n == 0 then fail protocol else pure (byte 0 n)) s
    else (err protocol, s)

unfoldable pub read_reply : Step (Unit {0})
read_reply s =
    (do
      header ← read_exact 4
      check (byte 0 header == 5 && byte 2 header == 0)
      tail_len ← tail_length (byte 3 header)
      tail ← read_exact (tail_len + 2)
      check (byte 1 header == 0))
      s

unfoldable pub exchange : Option Credentials → List ℕ → Step (Unit {0})
exchange credentials request s = (do negotiate credentials; write_all request; read_reply) s

unfoldable pub bad_host : Text → Bool
bad_host host = is_empty_text host || ltb 255 (length host) || contains 0 host

-- `cut` is the stream when the deadline elapsed before the end of the exchange.
unfoldable pub connect :
    (Text → Option IpAddr) → Text → ℕ → Option Credentials → Option Stream → Step (Unit {0})
connect parse_ip host port credentials cut s =
    if bad_host host then (err invalid_input, s) else elim cut [
      | some s' ↦ (err timeout, s')
      | none ↦ exchange credentials (connect_request parse_ip host port) s
    ]
