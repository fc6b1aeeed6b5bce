-- ===== src/Fetch/Total.antt =====
-- packages/bridge-fetcher/src/http/framing.rs: the decoding of a chunked body ends, within bounds.
use tor_socks.Base.{
  ℕ, zero, suc, ◌+◌, ◌≤◌, ◌<◌, ◌≡◌, refl, ap, inl, inr, Bool, true, false, ◌||◌, List, [], ◌∷◌,
  ◌++◌, arith, length, if◌then◌else◌, Option-cases, ltb, leb, length-drop, length-take,
  length-append,
}
use tor_socks.OrdMap.Text.{text_ord}
use tor_socks.Fetch.Wire.{
  Wire, LineKind, chunk_size_line, trailer_line, FetchError, Got, got, failed, unfinished,
  all_bytes, pure, fail, after, map_error, ◌>>=◌, too_large, trailers_too_large,
}
use tor_socks.Fetch.Reader.{position}
use tor_socks.Fetch.Plain.{Input, ended, plain_exact, plain_fill, plain_line, view}
use tor_socks.Fetch.Line.{position_lt}
use tor_socks.Fetch.Chunked.{
  max_size_line, max_trailer_line, chunk_size, trailers, chunk_data, decode, decode_chunked_body,
  chunk_turn, crlf_error, max_trailers_total, usize_bound,
}
use tor_socks.Fetch.Pieces.{plain_reads, decode_input, decode_chunked_body_lem}

-- The read ended, and a value that it gave meets `P` with the input that is left.
abbrev pub Ensures : {A : Type 0} → (A → Input → Type 0) → Got Input A → Type 0
Ensures P (got a p) = P a p
Ensures P (failed e) = Unit
Ensures P unfinished = ⊥

after-Ensures :
    {A B : Type 0} (P : A → Input → Type 0) (Q : B → Input → Type 0) (f : A → Input → Got Input B)
    (g : Got Input A)
    → Ensures P g
    → ((a : A) (p : Input) → P a p → Ensures Q (f a p))
    → Ensures Q (after f g)
after-Ensures P Q f (got a p) h k = k a p h
after-Ensures P Q f (failed e) h k = tt
after-Ensures P Q f unfinished h k = absurd h

if-Ensures :
    {A : Type 0} (P : A → Input → Type 0) (b : Bool) (f g : Input → Got Input A) (p : Input)
    → Ensures P (f p)
    → (b ≡ false → Ensures P (g p))
    → Ensures P ((if b then f else g) p)
if-Ensures P true f g p h k = h
if-Ensures P false f g p h k = k refl

map_error-Ensures :
    {A : Type 0} (P : A → Input → Type 0) (t : FetchError → FetchError) (g : Got Input A)
    → Ensures P g
    → Ensures P (map_error t g)
map_error-Ensures P t (got a p) h = h
map_error-Ensures P t (failed e) h = tt
map_error-Ensures P t unfinished h = absurd h

plain_line-Ensures :
    (limit : ℕ) (kind : LineKind) (p : Input)
    → Ensures (λ l p'. length p'.bytes < length p.bytes) (plain_line limit kind p)
unfolding plain_line ended
plain_line-Ensures limit kind p = elim (Option-cases (position 10 p.bytes)) [
  | inl missing ↦ ground (arith, missing)
  | inr (off, found) ↦
      ground (arith, found, position_lt 10 p.bytes off found, length-drop (off + 1) p.bytes)
]

plain_exact-Ensures :
    (k : ℕ) (p : Input)
    → Ensures (λ l p'. (length l ≡ k) × (length p'.bytes ≤ length p.bytes)) (plain_exact k p)
unfolding plain_exact plain_fill ended
plain_exact-Ensures k p = ground (arith, length-take k p.bytes, length-drop k p.bytes)

chunk_data-Ensures :
    (k : ℕ) (p : Input)
    → Ensures
        (λ l p'. (length l ≡ k) × (length p'.bytes ≤ length p.bytes))
        (chunk_data plain_reads k p)
unfolding chunk_data
chunk_data-Ensures k p =
    after-Ensures (λ l p'. (length l ≡ k) × (length p'.bytes ≤ length p.bytes)) _ _
      (plain_exact k p) (plain_exact-Ensures k p)
      (λ piece p1 h.
        after-Ensures (λ l p'. (length l ≡ 2) × (length p'.bytes ≤ length p1.bytes)) _ _
          (map_error crlf_error (plain_exact 2 p1))
          (map_error-Ensures _ crlf_error (plain_exact 2 p1) (plain_exact-Ensures 2 p1))
          (λ sep p2 k'. ground arith))

-- A body within `m` bytes.
abbrev pub IsWithin : ℕ → Got Input (List ℕ) → Type 0
IsWithin m = Ensures λ b p. length b ≤ m

trailers-IsWithin :
    (m fuel total : ℕ) (body : List ℕ) (p : Input)
    → length body ≤ m
    → length p.bytes < fuel
    → IsWithin m (trailers plain_reads fuel total body p)
unfolding trailers
trailers-IsWithin m zero total body p h enough = absurd (omega arith)
trailers-IsWithin m (suc fuel) total body p h enough =
    after-Ensures (λ l p'. length p'.bytes < length p.bytes) (λ b p'. length b ≤ m) _
      (plain_line max_trailer_line trailer_line p)
      (plain_line-Ensures max_trailer_line trailer_line p)
      (elim [
        | [] ↦ λ p' less.
            if-Ensures (λ b p'. length b ≤ m) (ltb max_trailers_total (total + 2))
              (fail trailers_too_large) (pure body) p' tt (λ small. h)
        | x ∷ xs ↦ λ p' less.
            let total' : ℕ = total + (length (x ∷ xs) + 2) in
            if-Ensures (λ b p'. length b ≤ m) (ltb max_trailers_total total')
              (fail trailers_too_large) (trailers plain_reads fuel total' body) p' tt
              (λ small. trailers-IsWithin m fuel total' body p' h (omega arith))
      ])

module _ (is_utf8 : List ℕ → Bool) (trim : List ℕ → List ℕ) where
  chunk_size-Ensures :
      (line : List ℕ) (p : Input) → Ensures (λ n p'. p' ≡ p) (chunk_size is_utf8 trim line p)
  unfolding chunk_size
  chunk_size-Ensures line p = ground arith

  decode-IsWithin :
      (m fuel : ℕ) (body : List ℕ) (p : Input)
      → length body ≤ m
      → length p.bytes < fuel
      → IsWithin m (decode is_utf8 trim plain_reads m fuel body p)
  unfolding decode
  decode-IsWithin m zero body p h enough = absurd (omega arith)
  decode-IsWithin m (suc fuel) body p h enough =
      after-Ensures (λ l p'. length p'.bytes < length p.bytes) (λ b p'. length b ≤ m) _
        (plain_line max_size_line chunk_size_line p)
        (plain_line-Ensures max_size_line chunk_size_line p)
        (λ line p1 less.
          after-Ensures (λ n p'. p' ≡ p1) (λ b p'. length b ≤ m) _ (chunk_size is_utf8 trim line p1)
            (chunk_size-Ensures line p1)
            (λ n p2 same.
              decode_turn n p2 (omega (arith, ap (λ (t : Input). length t.bytes) same))
                (λ b p' h' less'. decode-IsWithin m fuel b p' h' less')))
    where
      decode_turn :
          (n : ℕ) (p' : Input)
          → length p'.bytes < fuel
          → ((b : List ℕ) (q : Input)
              → length b ≤ m
              → length q.bytes < fuel
              → IsWithin m (decode is_utf8 trim plain_reads m fuel b q))
          → IsWithin m (
              chunk_turn
                (trailers plain_reads fuel 0 body)
                (chunk_data plain_reads n)
                (λ b. decode is_utf8 trim plain_reads m fuel b)
                m
                body
                n
                p')
      decode_turn zero p' less again = trailers-IsWithin m fuel 0 body p' h less
      decode_turn (suc n) p' less again =
          if-Ensures (λ b p'. length b ≤ m)
            (leb usize_bound (length body + suc n) || ltb m (length body + suc n))
            (fail (too_large m))
            (chunk_data plain_reads (suc n) >>= λ piece.
              decode is_utf8 trim plain_reads m fuel (body ++ piece))
            p' tt
            (λ small.
              after-Ensures (λ l q. (length l ≡ suc n) × (length q.bytes ≤ length p'.bytes))
                (λ b p'. length b ≤ m)
                (λ piece. decode is_utf8 trim plain_reads m fuel (body ++ piece))
                (chunk_data plain_reads (suc n) p') (chunk_data-Ensures (suc n) p')
                (λ piece q whole.
                  again (body ++ piece) q (ground (arith, length-append body piece, small, whole))
                    (omega arith)))

  -- Decoding always ends, and a body that it gives is within the limit.
  pub decode_chunked_body-IsWithin :
      (stream : Wire) (preloaded : List ℕ) (max_body : ℕ)
      → IsWithin max_body (view (decode_chunked_body is_utf8 trim stream preloaded max_body))
  unfolding decode_input
  decode_chunked_body-IsWithin stream preloaded max_body =
      rw (decode_chunked_body_lem is_utf8 trim stream preloaded max_body) (
        decode-IsWithin max_body (suc (length (preloaded ++ all_bytes stream.pieces))) [] _
          (omega arith) (omega arith))
