-- ===== src/Acl/Endpoint.antt =====
-- packages/proxy-config/client-acl/src/socks5.rs: SOCKS5 endpoints and their text.
-- The parser and the printer of a socket address are the standard library's, and parameters.
use tor_socks.Base.{
  ℕ, ◌∷◌, Option, Bool, ◌||◌, if◌then◌else◌, none, some, [], false, true, ◌==◌, ◌++◌, ltb, length,
}
use tor_socks.OrdMap.{key_eq}
use tor_socks.Acl.Rule.{IpAddr, v4, v6}
use tor_socks.OrdMap.Text.{Text, text_ord}

-- `std::net::SocketAddr`: an IPv4 address and a port, or an IPv6 address, a port, a flow label and
-- a scope.
pub data SocketAddr : Type 0 where
  v4_addr : (ip port : ℕ) → SocketAddr
  v6_addr : (ip port flowinfo scope_id : ℕ) → SocketAddr

abbrev pub ip_of : SocketAddr → IpAddr
ip_of (v4_addr ip port) = v4 ip
ip_of (v6_addr ip port flowinfo scope_id) = v6 ip

abbrev pub port_of : SocketAddr → ℕ
port_of (v4_addr ip port) = port
port_of (v6_addr ip port flowinfo scope_id) = port

pub record Socks5Endpoint : Type 0 where
  pub address : SocketAddr
  pub username : Option Text
  pub password : Option Text

unfoldable pub credentials : Socks5Endpoint → Option (Text × Text)
credentials e = elim e.username [
  | none ↦ none
  | some name ↦ elim e.password [ none ↦ none | some secret ↦ some (name, secret) ]
]

-- `str::split_once` at a one-byte delimiter.
unfoldable pub split_once : ℕ → Text → Option (Text × Text)
split_once c [] = none
split_once c (x ∷ xs) =
    let rest = split_once c xs in
    if x == c
    then some ([], xs)
    else elim rest [ none ↦ none | some (before, after) ↦ some (x ∷ before, after) ]

-- `str::contains` of a one-byte character.
unfoldable pub contains : ℕ → Text → Bool
contains c [] = false
contains c (x ∷ xs) = (x == c) || contains c xs

-- The bytes of `|`, `:` and of the word `none`.
abbrev pub bar : ℕ
bar = 124

abbrev pub colon : ℕ
colon = 58

abbrev pub none_word : Text
none_word = 110 ∷ 111 ∷ 110 ∷ 101 ∷ []

abbrev pub is_empty_text : Text → Bool
is_empty_text [] = true
is_empty_text (x ∷ xs) = false

unfoldable pub bad_credentials : Text → Text → Bool
unfolding contains
bad_credentials name secret =
    contains colon name
    || contains colon secret
    || contains bar name
    || contains bar secret
    || is_empty_text name
    || is_empty_text secret
    || ltb 255 (length name)
    || ltb 255 (length secret)

-- The credentials after the bar: `none` for a refusal.
unfoldable pub read_credentials : Option Text → Option (Option Text × Option Text)
unfolding split_once bad_credentials
read_credentials none = some (none, none)
read_credentials (some text) = elim (split_once colon text) [
  | none ↦ none
  | some (name, secret) ↦
      if bad_credentials name secret then none else some (some name, some secret)
]

unfoldable pub split_endpoint : Text → Text × Option Text
unfolding split_once
split_endpoint value = elim (split_once bar value) [
  | none ↦ (value, none)
  | some (address, secret) ↦ (address, some secret)
]

module _ (parse_addr : Text → Option SocketAddr) (print_addr : SocketAddr → Text) where
  unfoldable pub from_str : Text → Option Socks5Endpoint
  unfolding split_endpoint read_credentials
  from_str value =
      let (address, secret) = split_endpoint value in
      if key_eq value none_word || is_empty_text value then none else elim (parse_addr address) [
        | none ↦ none
        | some a ↦ if port_of a == 0 then none else elim (read_credentials secret) [
          | none ↦ none
          | some (name, password) ↦
              some (record { address = a; username = name; password = password })
        ]
      ]

  unfoldable pub serialize : Socks5Endpoint → Text
  serialize e = elim e.username [
    | none ↦ print_addr e.address
    | some name ↦ elim e.password [
      | none ↦ print_addr e.address
      | some secret ↦ print_addr e.address ++ (bar ∷ (name ++ (colon ∷ secret)))
    ]
  ]

-- Disable the proxy, an inherited one too, or use this one.
pub data EndpointOverride : Type 0 where
  disabled : EndpointOverride
  endpoint : Socks5Endpoint → EndpointOverride

unfoldable pub resolve_endpoint :
    Option EndpointOverride → Option EndpointOverride → Option Socks5Endpoint
resolve_endpoint global (some (endpoint e)) = some e
resolve_endpoint global (some disabled) = none
resolve_endpoint (some (endpoint e)) none = some e
resolve_endpoint (some disabled) none = none
resolve_endpoint none none = none
