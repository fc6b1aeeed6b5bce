-- ===== src/Socks/Exchange.antt =====
-- packages/socks5-proto/src/client.rs: which answers of a proxy grant a connection.
use tor_socks.Base.{
  take, drop, take-append_left, drop-append_right, take_all, length-append, ℕ, suc, ◌+◌, ◌-◌, ◌≡◌,
  refl, ap, ◌∙◌, ◌≢◌, Bool, true, false, Option, none, some, List, [], ◌∷◌, ◌++◌, arith, length,
  append_assoc, take-drop, length-take,
}
use tor_socks.OrdMap.{key_eq, key_eq_refl}
use tor_socks.OrdMap.Text.{Text, text_ord}
use tor_socks.Acl.Rule.{IpAddr}
use tor_socks.Socks.Client.{
  Credentials, Stream, Result, ok, err, Step, after, check, write_all, read_exact, method,
  auth_request, negotiate, tail_length, read_reply, exchange, connect, connect_request, bad_host,
}

-- A reply that grants the request: the bound address is of a known kind, with its port.
pub data Grants : List ℕ → Type 0 where
  to_v4 : (bound : List ℕ) → length bound ≡ 6 → Grants (5 ∷ 0 ∷ 0 ∷ 1 ∷ bound)
  to_v6 : (bound : List ℕ) → length bound ≡ 18 → Grants (5 ∷ 0 ∷ 0 ∷ 4 ∷ bound)
  to_name :
      (n : ℕ) (bound : List ℕ) → n ≢ 0 → length bound ≡ n + 2 → Grants (5 ∷ 0 ∷ 0 ∷ 3 ∷ n ∷ bound)

read_exact_next :
    (xs rest written : List ℕ) (w : ℕ)
    → read_exact (length xs) (record { incoming = xs ++ rest; written = written; writes_left = w })
      ≡ (ok xs, record { incoming = rest; written = written; writes_left = w })
unfolding read_exact
read_exact_next xs rest written w =
    let gap : length xs - length xs ≡ 0 = omega arith in
    let front : take (length xs) (xs ++ rest) ≡ xs =
      take-append_left (length xs) xs rest (omega arith) ∙ take_all (length xs) xs (omega arith) in
    let back : drop (length xs) (xs ++ rest) ≡ rest =
      drop-append_right (length xs) xs rest (omega arith) ∙ ap (λ (n : ℕ). drop n rest) gap in
    ground (arith, length-append xs rest, front, back)

read_reply_granted :
    {g : List ℕ} (rest written : List ℕ) (w : ℕ)
    → Grants g
    → read_reply (record { incoming = g ++ rest; written = written; writes_left = w })
      ≡ (ok tt, record { incoming = rest; written = written; writes_left = w })
unfolding read_reply tail_length
read_reply_granted rest written w (to_v4 bound e) = ground (
  arith,
  read_exact_next (5 ∷ 0 ∷ 0 ∷ 1 ∷ []) (bound ++ rest) written w,
  read_exact_next bound rest written w,
  e,
)
read_reply_granted rest written w (to_v6 bound e) = ground (
  arith,
  read_exact_next (5 ∷ 0 ∷ 0 ∷ 4 ∷ []) (bound ++ rest) written w,
  read_exact_next bound rest written w,
  e,
)
read_reply_granted rest written w (to_name n bound ne e) = ground (
  arith,
  read_exact_next (5 ∷ 0 ∷ 0 ∷ 3 ∷ []) (n ∷ (bound ++ rest)) written w,
  read_exact_next (n ∷ []) (bound ++ rest) written w,
  read_exact_next bound rest written w,
  e,
)

-- What the proxy sends before its reply.
unfoldable pub negotiation : Option Credentials → List ℕ
negotiation none = 5 ∷ 0 ∷ []
negotiation (some c) = 5 ∷ 2 ∷ 1 ∷ 0 ∷ []

-- What the client writes before its request.
unfoldable pub greeting : Option Credentials → List ℕ
greeting none = 5 ∷ 1 ∷ 0 ∷ []
greeting (some c) = 5 ∷ 1 ∷ 2 ∷ auth_request c

abbrev pub writes : Option Credentials → ℕ
writes none = 2
writes (some c) = 3

write_all_next :
    (bytes incoming written : List ℕ) (w : ℕ)
    → write_all bytes (record { incoming = incoming; written = written; writes_left = suc w })
      ≡ (ok tt, record { incoming = incoming; written = written ++ bytes; writes_left = w })
unfolding write_all
write_all_next bytes incoming written w = let e : suc w - 1 ≡ w = omega arith in ground (arith, e)

granted_login : key_eq {K = Text} (1 ∷ 0 ∷ []) (1 ∷ 0 ∷ []) ≡ true
granted_login = key_eq_refl {K = Text} (1 ∷ 0 ∷ [])

pub negotiate_granted :
    (c : Option Credentials) (rest written : List ℕ) (w : ℕ)
    → negotiate c
        (record { incoming = negotiation c ++ rest; written = written; writes_left = writes c + w })
      ≡ (ok tt, record { incoming = rest; written = written ++ greeting c; writes_left = w })
unfolding negotiate negotiation greeting method
negotiate_granted none rest written w =
    let k : 2 + w ≡ suc (suc w) = omega arith in
    rw k (
      ground (
        arith,
        write_all_next (5 ∷ 1 ∷ []) (5 ∷ 0 ∷ rest) written (suc w),
        write_all_next (0 ∷ []) (5 ∷ 0 ∷ rest) (written ++ (5 ∷ 1 ∷ [])) w,
        read_exact_next (5 ∷ 0 ∷ []) rest ((written ++ (5 ∷ 1 ∷ [])) ++ (0 ∷ [])) w,
        append_assoc written (5 ∷ 1 ∷ []) (0 ∷ []),
      ))
negotiate_granted (some c) rest written w =
    let k : 3 + w ≡ suc (suc (suc w)) = omega arith in
    rw k (
      ground (
        arith,
        write_all_next (5 ∷ 1 ∷ []) (5 ∷ 2 ∷ 1 ∷ 0 ∷ rest) written (suc (suc w)),
        write_all_next (2 ∷ []) (5 ∷ 2 ∷ 1 ∷ 0 ∷ rest) (written ++ (5 ∷ 1 ∷ [])) (suc w),
        read_exact_next (5 ∷ 2 ∷ []) (1 ∷ 0 ∷ rest) ((written ++ (5 ∷ 1 ∷ [])) ++ (2 ∷ [])) (suc w),
        write_all_next (auth_request c) (1 ∷ 0 ∷ rest) ((written ++ (5 ∷ 1 ∷ [])) ++ (2 ∷ [])) w,
        read_exact_next (1 ∷ 0 ∷ []) rest
            (((written ++ (5 ∷ 1 ∷ [])) ++ (2 ∷ [])) ++ auth_request c) w,
        granted_login,
        append_assoc written (5 ∷ 1 ∷ []) (2 ∷ []),
        append_assoc written (5 ∷ 1 ∷ 2 ∷ []) (auth_request c),
      ))

-- With a usable host, no deadline in the way and enough writes, a proxy that sends its part of
-- the negotiation and then a granting reply is connected through: exactly these bytes are
-- consumed, and what was written is the greeting and the request.
pub connect-granted :
    (parse_ip : Text → Option IpAddr) (host : Text) (port : ℕ) (c : Option Credentials) {g : List ℕ}
    (rest written : List ℕ) (w : ℕ)
    → bad_host host ≡ false
    → Grants g
    → connect parse_ip host port c none (record {
      incoming = negotiation c ++ (g ++ rest);
      written = written;
      writes_left = writes c + suc w;
    })
      ≡ (
        ok tt,
        record {
          incoming = rest;
          written = (written ++ greeting c) ++ connect_request parse_ip host port;
          writes_left = w;
        },
      )
unfolding connect exchange
connect-granted parse_ip host port c {g = g} rest written w good h =
    let request = connect_request parse_ip host port in
    rw good (
      ground (
        arith,
        negotiate_granted c (g ++ rest) written (suc w),
        write_all_next request (g ++ rest) (written ++ greeting c) w,
        read_reply_granted rest ((written ++ greeting c) ++ request) w h,
      ))

pub after-ok :
    {A B : Type 0} (f : A → Step B) (p : Result A × Stream) {b : B} {t : Stream}
    → after f p ≡ (ok b, t)
    → (a : A) × (s : Stream) × (p ≡ (ok a, s)) × (f a s ≡ (ok b, t))
after-ok f (ok a, s) h = (a, s, refl, h)
after-ok f (err e, s) h = absurd (ground arith)

pub read_exact-ok :
    (k : ℕ) (s : Stream) {xs : List ℕ} {t : Stream}
    → read_exact k s ≡ (ok xs, t)
    → (length xs ≡ k) × (s.incoming ≡ xs ++ t.incoming) × (t.written ≡ s.written)
unfolding read_exact
read_exact-ok k s h = ground (arith, take-drop k s.incoming, length-take k s.incoming)

pub write_all-ok :
    (bytes : List ℕ) (s : Stream) {t : Stream}
    → write_all bytes s ≡ (ok tt, t)
    → (t.incoming ≡ s.incoming) × (t.written ≡ s.written ++ bytes)
unfolding write_all
write_all-ok bytes s h = ground arith

pub check-ok : (b : Bool) (s : Stream) {t : Stream} → check b s ≡ (ok tt, t) → (b ≡ true) × (s ≡ t)
check-ok b s h = ground arith
