-- ===== src/Socks/Sound.antt =====
-- packages/socks5-proto/src/client.rs: what a connection that was made means.
use tor_socks.Base.{
  take, drop, take-drop, length-take, append_assoc, ℕ, ◌+◌, ◌≡◌, refl, inl, inr, true, false, ◌&&◌,
  Option, none, some, List, [], ◌∷◌, ◌++◌, arith, length, Bool-cases, ◌==◌,
}
use tor_socks.OrdMap.{key_eq_iff}
use tor_socks.OrdMap.Text.{Text, text_ord}
use tor_socks.Acl.Rule.{IpAddr}
use tor_socks.Socks.Client.{
  Credentials, Stream, ok, ◌>>◌, write_all, read_exact, byte, method, auth_request, negotiate,
  tail_length, read_reply, exchange, connect, connect_request, bad_host,
}
use tor_socks.Socks.Exchange.{
  Grants, to_v4, to_v6, to_name, negotiation, greeting, after-ok, write_all-ok,
}

bytes_two : (xs : List ℕ) → length xs ≡ 2 → xs ≡ byte 0 xs ∷ byte 1 xs ∷ []
bytes_two [] e = absurd (omega arith)
bytes_two (x ∷ []) e = absurd (omega arith)
bytes_two (x ∷ y ∷ []) e = refl
bytes_two (x ∷ y ∷ z ∷ xs) e = absurd (omega arith)

bytes_one : (xs : List ℕ) → length xs ≡ 1 → xs ≡ byte 0 xs ∷ []
bytes_one [] e = absurd (omega arith)
bytes_one (x ∷ []) e = refl
bytes_one (x ∷ y ∷ xs) e = absurd (omega arith)

bytes_four : (xs : List ℕ) → length xs ≡ 4 → xs ≡ byte 0 xs ∷ byte 1 xs ∷ byte 2 xs ∷ byte 3 xs ∷ []
bytes_four [] e = absurd (omega arith)
bytes_four (x ∷ []) e = absurd (omega arith)
bytes_four (x ∷ y ∷ []) e = absurd (omega arith)
bytes_four (x ∷ y ∷ z ∷ []) e = absurd (omega arith)
bytes_four (x ∷ y ∷ z ∷ w ∷ []) e = refl
bytes_four (x ∷ y ∷ z ∷ w ∷ v ∷ xs) e = absurd (omega arith)

-- The method the proxy chose is the one that was offered.
choice_lem :
    (choice : List ℕ) (m : ℕ)
    → length choice ≡ 2
    → (byte 0 choice == 5 && byte 1 choice == m) ≡ true
    → choice ≡ 5 ∷ m ∷ []
choice_lem choice m e h = ground (arith, bytes_two choice e)

negotiate-ok :
    (c : Option Credentials) (s : Stream) {t : Stream}
    → negotiate c s ≡ (ok tt, t)
    → (s.incoming ≡ negotiation c ++ t.incoming) × (t.written ≡ s.written ++ greeting c)
unfolding negotiate negotiation greeting method write_all read_exact
negotiate-ok none s h =
    let choice = take 2 s.incoming in
    ground (
      arith,
      take-drop 2 s.incoming,
      length-take 2 s.incoming,
      choice_lem choice 0,
      append_assoc s.written (5 ∷ 1 ∷ []) (0 ∷ []),
    )
negotiate-ok (some c) s h =
    let choice = take 2 s.incoming in
    let rest = drop 2 s.incoming in
    let login = take 2 rest in
    ground (
      arith,
      take-drop 2 s.incoming,
      length-take 2 s.incoming,
      take-drop 2 rest,
      choice_lem choice 2,
      key_eq_iff {K = Text} login (1 ∷ 0 ∷ []),
      append_assoc s.written (5 ∷ 1 ∷ []) (2 ∷ []),
      append_assoc s.written (5 ∷ 1 ∷ 2 ∷ []) (auth_request c),
    )

bytes_four_of :
    (xs : List ℕ) (a b d : ℕ)
    → length xs ≡ 4
    → byte 0 xs ≡ a
    → byte 1 xs ≡ b
    → byte 2 xs ≡ 0
    → byte 3 xs ≡ d
    → xs ≡ a ∷ b ∷ 0 ∷ d ∷ []
bytes_four_of xs a b d e h0 h1 h2 h3 = ground (arith, bytes_four xs e)

-- A granting header, with what was read after it.
from_header :
    (s : Stream) (d : ℕ) (bound rest : List ℕ)
    → length (take 4 s.incoming) ≡ 4
    → byte 0 (take 4 s.incoming) ≡ 5
    → byte 1 (take 4 s.incoming) ≡ 0
    → byte 2 (take 4 s.incoming) ≡ 0
    → byte 3 (take 4 s.incoming) ≡ d
    → drop 4 s.incoming ≡ bound ++ rest
    → s.incoming ≡ 5 ∷ 0 ∷ 0 ∷ d ∷ (bound ++ rest)
from_header s d bound rest len h0 h1 h2 h3 e =
    let head = bytes_four_of (take 4 s.incoming) 5 0 d len h0 h1 h2 h3 in
    ground (arith, take-drop 4 s.incoming, head, e)

read_reply-ok :
    (s : Stream) {t : Stream}
    → read_reply s ≡ (ok tt, t)
    → (g : List ℕ) × Grants g × (s.incoming ≡ g ++ t.incoming) × (t.written ≡ s.written)
unfolding read_reply tail_length read_exact
read_reply-ok s {t = t} h =
    let header = take 4 s.incoming in
    let rest = drop 4 s.incoming in
    let len = length-take 4 s.incoming in
    elim (Bool-cases (byte 3 header == 1)) [
      | inl e1 ↦
          let bound = take 6 rest in
          (
            5 ∷ 0 ∷ 0 ∷ 1 ∷ bound,
            to_v4 bound (ground (arith, length-take 6 rest)),
            from_header s 1 bound t.incoming (ground (arith, len)) (ground arith) (ground arith)
                (ground arith) (ground arith) (ground (arith, take-drop 6 rest)),
            ground arith,
          )
      | inr n1 ↦ elim (Bool-cases (byte 3 header == 4)) [
        | inl e4 ↦
            let bound = take 18 rest in
            (
              5 ∷ 0 ∷ 0 ∷ 4 ∷ bound,
              to_v6 bound (ground (arith, length-take 18 rest)),
              from_header s 4 bound t.incoming (ground (arith, len)) (ground arith) (ground arith)
                  (ground arith) (ground arith) (ground (arith, take-drop 18 rest)),
              ground arith,
            )
        | inr n4 ↦
            let size = take 1 rest in
            let n = byte 0 size in
            let bound = take (n + 2) (drop 1 rest) in
            (
              5 ∷ 0 ∷ 0 ∷ 3 ∷ n ∷ bound,
              to_name n bound (ground arith) (ground (arith, length-take (n + 2) (drop 1 rest))),
              from_header s 3 (n ∷ bound) t.incoming (ground (arith, len)) (ground arith)
                  (ground arith) (ground arith) (ground arith)
                  (ground (
                    arith,
                    take-drop 1 rest,
                    length-take 1 rest,
                    bytes_one size,
                    take-drop (n + 2) (drop 1 rest),
                  )),
              ground arith,
            )
      ]
    ]

-- A connection that was made: the host was usable, no deadline elapsed, the proxy sent its
-- part of the negotiation and a granting reply and nothing more was consumed, and exactly the
-- greeting and the request were written.
pub connect_sound :
    (parse_ip : Text → Option IpAddr) (host : Text) (port : ℕ) (c : Option Credentials)
    (cut : Option Stream) (s : Stream) {t : Stream}
    → connect parse_ip host port c cut s ≡ (ok tt, t)
    → (bad_host host ≡ false)
      × (cut ≡ none)
      × (g : List ℕ) × Grants g
      × (s.incoming ≡ negotiation c ++ (g ++ t.incoming))
      × (t.written ≡ (s.written ++ greeting c) ++ connect_request parse_ip host port)
unfolding connect exchange
connect_sound parse_ip host port c (some s1) s h = absurd (ground arith)
connect_sound parse_ip host port c none s {t = t} h =
    let request = connect_request parse_ip host port in
    let good : bad_host host ≡ false = ground arith in
    let run : exchange c request s ≡ (ok tt, t) = ground arith in
    let (_, s1, p1, h1) =
      after-ok {A = Unit} {B = Unit} (λ _. write_all request >> read_reply) (negotiate c s) run in
    let (_, s2, p2, h2) =
      after-ok {A = Unit} {B = Unit} (λ _. read_reply) (write_all request s1) h1 in
    let (from1, to1) = negotiate-ok c s p1 in
    let (from2, to2) = write_all-ok request s1 p2 in
    let (g, granted, from3, to3) = read_reply-ok s2 h2 in
    (good, refl, g, granted, ground (arith, from1, from2, from3), ground (arith, to1, to2, to3))
