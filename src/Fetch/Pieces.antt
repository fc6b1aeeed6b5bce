-- ===== src/Fetch/Pieces.antt =====
-- packages/bridge-fetcher/src/http/framing.rs: the pieces in which a body arrives do not matter.
use tor_socks.OrdMap.{key_eq}
use tor_socks.Base.{
  ℕ, zero, suc, ◌+◌, ◌≡◌, refl, ap, ◌∙◌, Bool, true, false, ◌||◌, List, [], ◌∷◌, ◌++◌, arith,
  length, if◌then◌else◌, ltb, leb,
}
use tor_socks.OrdMap.{key_eq}
use tor_socks.OrdMap.Text.{text_ord}
use tor_socks.Fetch.Wire.{
  Wire, chunk_size_line, trailer_line, FetchError, Got, got, failed, unfinished, all_bytes, Reading,
  ◌>>=◌, pure, fail, map_err, after, Reading, ◌>>=◌, after, map_err, map_error, fail,
  trailers_too_large, pure, missing_crlf, too_large,
}
use tor_socks.Fetch.Reader.{ChunkedReader, new_reader, read_line, read_exact_into}
use tor_socks.Fetch.Plain.{Input, plain_exact, plain_line, pending, view}
use tor_socks.Fetch.Exact.{view-read_exact_into}
use tor_socks.Fetch.Scan.{view-read_line}
use tor_socks.Fetch.Chunked.{
  Reads, reader_reads, max_size_line, max_trailer_line, chunk_size, trailers, decode,
  decode_chunked_body, max_trailers_total, chunk_data, crlf_error, usize_bound, chunk_turn,
  trailer_turn,
}

abbrev pub plain_reads : Reads Input
plain_reads = record { line = plain_line; exact = plain_exact }

abbrev Agree : {A : Type 0} → Reading ChunkedReader A → Reading Input A → Type 0
Agree m m' = (r : ChunkedReader) → view (m r) ≡ m' (pending r)

>>=-Agree :
    {A B : Type 0} (m : Reading ChunkedReader A) (m' : Reading Input A)
    (f : A → Reading ChunkedReader B) (f' : A → Reading Input B)
    → Agree m m'
    → ((a : A) → Agree (f a) (f' a))
    → Agree (m >>= f) (m' >>= f')
>>=-Agree {A} m m' f f' h k r = here (m r) ∙ ap (after f') (h r)
  where
    here : (g : Got ChunkedReader A) → view (after f g) ≡ after f' (view g)
    here (got a r') = k a r'
    here (failed e) = refl
    here unfinished = refl

map_err-Agree :
    {A : Type 0} (t : FetchError → FetchError) (m : Reading ChunkedReader A) (m' : Reading Input A)
    → Agree m m'
    → Agree (map_err t m) (map_err t m')
map_err-Agree {A} t m m' h r = here (m r) ∙ ap (map_error t) (h r)
  where
    here : (g : Got ChunkedReader A) → view (map_error t g) ≡ map_error t (view g)
    here (got a r') = refl
    here (failed e) = refl
    here unfinished = refl

if-Agree :
    {A : Type 0} (b : Bool) (m n : Reading ChunkedReader A) (m' n' : Reading Input A)
    → Agree m m'
    → Agree n n'
    → Agree (if b then m else n) (if b then m' else n')
if-Agree true m n m' n' h k = h
if-Agree false m n m' n' h k = k

trailer_turn-Agree :
    (rest : ℕ → Reading ChunkedReader (List ℕ)) (rest' : ℕ → Reading Input (List ℕ)) (total : ℕ)
    (body t : List ℕ)
    → ((n : ℕ) → Agree (rest n) (rest' n))
    → Agree (trailer_turn rest total body t) (trailer_turn rest' total body t)
trailer_turn-Agree rest rest' total body [] h =
    if-Agree (ltb max_trailers_total (total + 2)) (fail trailers_too_large) (pure body)
      (fail trailers_too_large) (pure body) (λ r. refl) (λ r. refl)
trailer_turn-Agree rest rest' total body (x ∷ xs) h =
    let total' : ℕ = total + (length (x ∷ xs) + 2) in
    if-Agree (ltb max_trailers_total total') (fail trailers_too_large) (rest total')
      (fail trailers_too_large) (rest' total') (λ r. refl) (h total')

trailers-Agree :
    (fuel total : ℕ) (body : List ℕ)
    → Agree (trailers reader_reads fuel total body) (trailers plain_reads fuel total body)
unfolding trailers
trailers-Agree zero total body r = refl
trailers-Agree (suc fuel) total body r =
    >>=-Agree (read_line max_trailer_line trailer_line) (plain_line max_trailer_line trailer_line)
      (trailer_turn (λ n. trailers reader_reads fuel n body) total body)
      (trailer_turn (λ n. trailers plain_reads fuel n body) total body)
      (view-read_line max_trailer_line trailer_line)
      (λ t.
        trailer_turn-Agree (λ n. trailers reader_reads fuel n body)
          (λ n. trailers plain_reads fuel n body) total body t (λ n. trailers-Agree fuel n body))
      r

chunk_data-Agree : (n : ℕ) → Agree (chunk_data reader_reads n) (chunk_data plain_reads n)
unfolding chunk_data
chunk_data-Agree n r =
    >>=-Agree (read_exact_into n) (plain_exact n) _ _ (view-read_exact_into n)
      (λ piece.
        >>=-Agree (map_err crlf_error (read_exact_into 2)) (map_err crlf_error (plain_exact 2)) _ _
          (map_err-Agree crlf_error (read_exact_into 2) (plain_exact 2) (view-read_exact_into 2))
          (λ sep.
            if-Agree (key_eq sep (13 ∷ 10 ∷ [])) (pure piece) (fail missing_crlf) (pure piece)
              (fail missing_crlf) (λ r. refl) (λ r. refl)))
      r

chunk_turn-Agree :
    (finish chunk : Reading ChunkedReader (List ℕ)) (finish' chunk' : Reading Input (List ℕ))
    (rest : List ℕ → Reading ChunkedReader (List ℕ)) (rest' : List ℕ → Reading Input (List ℕ))
    (max_body : ℕ) (body : List ℕ) (n : ℕ)
    → Agree finish finish'
    → Agree chunk chunk'
    → ((b : List ℕ) → Agree (rest b) (rest' b))
    → Agree
        (chunk_turn finish chunk rest max_body body n)
        (chunk_turn finish' chunk' rest' max_body body n)
chunk_turn-Agree finish chunk finish' chunk' rest rest' max_body body zero f c h = f
chunk_turn-Agree finish chunk finish' chunk' rest rest' max_body body (suc n) f c h =
    if-Agree (leb usize_bound (length body + suc n) || ltb max_body (length body + suc n))
      (fail (too_large max_body)) _ (fail (too_large max_body)) _ (λ r. refl)
      (>>=-Agree chunk chunk' (λ piece. rest (body ++ piece)) (λ piece. rest' (body ++ piece)) c
        (λ piece. h (body ++ piece)))

module _ (is_utf8 : List ℕ → Bool) (trim : List ℕ → List ℕ) where
  chunk_size-Agree :
      (line : List ℕ) → Agree (chunk_size is_utf8 trim line) (chunk_size is_utf8 trim line)
  unfolding chunk_size
  chunk_size-Agree line r = ground arith

  decode-Agree :
      (max_body fuel : ℕ) (body : List ℕ)
      → Agree
          (decode is_utf8 trim reader_reads max_body fuel body)
          (decode is_utf8 trim plain_reads max_body fuel body)
  unfolding decode
  decode-Agree max_body zero body r = refl
  decode-Agree max_body (suc fuel) body r =
      >>=-Agree (read_line max_size_line chunk_size_line) (plain_line max_size_line chunk_size_line)
        _ _ (view-read_line max_size_line chunk_size_line)
        (λ line.
          >>=-Agree (chunk_size is_utf8 trim line) (chunk_size is_utf8 trim line) _ _
            (chunk_size-Agree line)
            (λ n.
              chunk_turn-Agree (trailers reader_reads fuel 0 body) (chunk_data reader_reads n)
                (trailers plain_reads fuel 0 body) (chunk_data plain_reads n)
                (λ b. decode is_utf8 trim reader_reads max_body fuel b)
                (λ b. decode is_utf8 trim plain_reads max_body fuel b) max_body body n
                (trailers-Agree fuel 0 body) (chunk_data-Agree n)
                (λ b. decode-Agree max_body fuel b)))
        r

  -- The decoder on the whole input.
  unfoldable pub decode_input : List ℕ → Bool → ℕ → Got Input (List ℕ)
  decode_input bytes breaks max_body =
      decode is_utf8 trim plain_reads max_body (suc (length bytes)) []
        (record { bytes = bytes; breaks = breaks })

  -- Whatever the pieces in which a body arrives, and whatever part of it was read ahead, the
  -- decoder gives the body, the rest of the input, or the error, of the whole input.
  pub decode_chunked_body_lem :
      (stream : Wire) (preloaded : List ℕ) (max_body : ℕ)
      → view (decode_chunked_body is_utf8 trim stream preloaded max_body)
        ≡ decode_input (preloaded ++ all_bytes stream.pieces) stream.fails max_body
  unfolding decode_chunked_body decode_input
  decode_chunked_body_lem stream preloaded max_body =
      decode-Agree max_body (suc (length (preloaded ++ all_bytes stream.pieces))) []
        (new_reader stream preloaded)
