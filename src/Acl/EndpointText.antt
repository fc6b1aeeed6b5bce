-- ===== src/Acl/EndpointText.antt =====
-- packages/proxy-config/client-acl/src/socks5.rs: what the text of an endpoint keeps.
use tor_socks.Base.{
  ℕ, ◌^◌, ◌<◌, ◌≡◌, refl, ap, ◌≢◌, ◌⊎◌, inl, inr, true, false, Option, none, some, [], ◌∷◌, ◌++◌,
  arith, Bool-cases,
}
use tor_socks.OrdMap.{key_eq, key_eq_iff}
use tor_socks.OrdMap.Text.{Text, text_ord}
use tor_socks.Acl.Endpoint.{
  SocketAddr, v4_addr, v6_addr, port_of, Socks5Endpoint, split_once, contains, bar, colon,
  none_word, is_empty_text, bad_credentials, read_credentials, split_endpoint, from_str, serialize,
}

split_once-first :
    (c : ℕ) (a b : Text) → contains c a ≡ false → split_once c (a ++ (c ∷ b)) ≡ some (a, b)
unfolding contains split_once
split_once-first c [] b h = ground arith
split_once-first c (x ∷ a) b h = ground (arith, split_once-first c a b)

split_once-absent : (c : ℕ) (a : Text) → contains c a ≡ false → split_once c a ≡ none
unfolding contains split_once
split_once-absent c [] h = refl
split_once-absent c (x ∷ a) h = ground (arith, split_once-absent c a)

-- The numbers of the address are in range and its text has them all: the text of an IPv6 address
-- has its scope and no flow label.
abbrev pub IsTextual : SocketAddr → Type 0
IsTextual (v4_addr ip port) = (ip < 2 ^ 32) × (port < 2 ^ 16)
IsTextual (v6_addr ip port flowinfo scope_id) =
    (ip < 2 ^ 128) × (port < 2 ^ 16) × (flowinfo ≡ 0) × (scope_id < 2 ^ 32)

-- An endpoint with a port, and with no credentials or with credentials that can be written.
pub record IsWritable (e : Socks5Endpoint) : Type 0 where
  pub has_port : port_of e.address ≢ 0
  pub clean :
      ((e.username ≡ none) × (e.password ≡ none))
      ⊎ ((n : Text) × (p : Text) × (e.username ≡ some n)
          × (e.password ≡ some p)
          × (bad_credentials n p ≡ false))

-- What the text of a socket address promises: one without a flow label reads back, each holds no bar, and is neither empty
-- nor the word `none`.
pub record AddrText (parse_addr : Text → Option SocketAddr) (print_addr : SocketAddr → Text)
    : Type 0 where
  pub reads : (a : SocketAddr) → IsTextual a → parse_addr (print_addr a) ≡ some a
  pub no_bar : (a : SocketAddr) → contains bar (print_addr a) ≡ false
  pub no_none : parse_addr none_word ≡ none
  pub no_empty : parse_addr [] ≡ none

address_split :
    (a t : Text) → contains bar a ≡ false → split_endpoint (a ++ (bar ∷ t)) ≡ (a, some t)
unfolding split_endpoint
address_split a t h = ground (arith, split_once-first bar a t h)

address_whole : (a : Text) → contains bar a ≡ false → split_endpoint a ≡ (a, none)
unfolding split_endpoint
address_whole a h = ground (arith, split_once-absent bar a h)

contains-append : (c : ℕ) (a b : Text) → contains c (a ++ (c ∷ b)) ≡ true
unfolding contains
contains-append c [] b = ground arith
contains-append c (x ∷ a) b = ground (arith, contains-append c a b)

no_colon : (n p : Text) → bad_credentials n p ≡ false → contains colon n ≡ false
unfolding bad_credentials
no_colon n p h = ground arith

credentials_read :
    (n p : Text)
    → bad_credentials n p ≡ false
    → read_credentials (some (n ++ (colon ∷ p))) ≡ some (some n, some p)
unfolding read_credentials
credentials_read n p h = ground (arith, split_once-first colon n p (no_colon n p h))

is_empty_text-nil : (a : Text) → is_empty_text a ≡ true → a ≡ []
is_empty_text-nil [] h = refl
is_empty_text-nil (x ∷ a) h = ground arith

append-not_empty : (a : Text) (c : ℕ) (b : Text) → is_empty_text (a ++ (c ∷ b)) ≡ false
append-not_empty [] c b = refl
append-not_empty (x ∷ a) c b = refl

not_none_with_bar : (a b : Text) → key_eq (a ++ (bar ∷ b)) none_word ≡ false
unfolding contains
not_none_with_bar a b =
    ground
      (arith, key_eq_iff (a ++ (bar ∷ b)) none_word, contains-append bar a b, ap (contains bar))

module _ (parse_addr : Text → Option SocketAddr) (print_addr : SocketAddr → Text) where
  -- Every endpoint that is read has a port, and no credentials or credentials that are not empty,
  -- have no delimiter and are at most 255 bytes long.
  pub from_str-IsWritable :
      (v : Text) (e : Socks5Endpoint) → from_str parse_addr print_addr v ≡ some e → IsWritable e
  unfolding from_str split_endpoint read_credentials
  from_str-IsWritable v e h = ground arith

  -- The text `v` splits into the text of `a` and the credentials `n` and `p`.
  from_str_of :
      (v : Text) (a : SocketAddr) (c n p : Option Text)
      → AddrText parse_addr print_addr
      → IsTextual a
      → port_of a ≢ 0
      → key_eq v none_word ≡ false
      → is_empty_text v ≡ false
      → split_endpoint v ≡ (print_addr a, c)
      → read_credentials c ≡ some (n, p)
      → from_str parse_addr print_addr v ≡ some (record { address = a; username = n; password = p })
  unfolding from_str
  from_str_of v a c n p t whole port word empty s r = ground (arith, t.reads a whole)

  not_none_word :
      (a : SocketAddr)
      → AddrText parse_addr print_addr
      → IsTextual a
      → key_eq (print_addr a) none_word ≡ false
  not_none_word a t whole =
      ground (arith, key_eq_iff (print_addr a) none_word, ap parse_addr, t.reads a whole, t.no_none)

  not_empty :
      (a : SocketAddr)
      → AddrText parse_addr print_addr
      → IsTextual a
      → is_empty_text (print_addr a) ≡ false
  not_empty a t whole = elim (Bool-cases (is_empty_text (print_addr a))) [
    | inl h ↦
        ground
          (arith, is_empty_text-nil (print_addr a) h, ap parse_addr, t.reads a whole, t.no_empty)
    | inr h ↦ h
  ]

  round_of :
      (a : SocketAddr) (n p : Option Text)
      → AddrText parse_addr print_addr
      → IsTextual a
      → IsWritable (record { address = a; username = n; password = p })
      → from_str parse_addr print_addr
          (serialize parse_addr print_addr (record { address = a; username = n; password = p }))
        ≡ some (record { address = a; username = n; password = p })
  unfolding serialize read_credentials
  round_of a none none t whole w =
      from_str_of (print_addr a) a none none none t whole w.has_port (not_none_word a t whole)
        (not_empty a t whole) (address_whole (print_addr a) (t.no_bar a)) refl
  round_of a none (some p) t whole w = absurd (ground (arith, w.clean))
  round_of a (some n) none t whole w = absurd (ground (arith, w.clean))
  round_of a (some n) (some p) t whole w =
      let body : Text = n ++ (colon ∷ p) in
      from_str_of (print_addr a ++ (bar ∷ body)) a (some body) (some n) (some p) t whole w.has_port
        (not_none_with_bar (print_addr a) body) (append-not_empty (print_addr a) bar body)
        (address_split (print_addr a) body (t.no_bar a))
        (credentials_read n p (ground (arith, w.clean)))

  -- If the text of a socket address without a flow label reads back, no such text has a bar, and
  -- neither the empty text nor the word `none` is read as an address: the text of a writable
  -- endpoint, whose address is in range and has no flow label, reads back as the endpoint.
  pub from_str-serialize :
      (e : Socks5Endpoint)
      → AddrText parse_addr print_addr
      → IsTextual e.address
      → IsWritable e
      → from_str parse_addr print_addr (serialize parse_addr print_addr e) ≡ some e
  from_str-serialize e t whole w = round_of e.address e.username e.password t whole w
