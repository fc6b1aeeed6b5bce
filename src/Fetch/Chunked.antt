-- ===== src/Fetch/Chunked.antt =====
-- packages/bridge-fetcher/src/http/framing.rs: the decoding of a chunked body, over any reader.
use tor_socks.Base.{
  ℕ, zero, suc, ◌+◌, ◌-◌, ◌*◌, Bool, ◌&&◌, ◌||◌, Option, none, some, List, [], ◌∷◌, ◌++◌, length,
  if◌then◌else◌, ◌==◌, ltb, leb,
}
use tor_socks.OrdMap.{key_eq}
use tor_socks.OrdMap.Text.{text_ord}
use tor_socks.Fetch.Wire.{
  Wire, LineKind, chunk_size_line, trailer_line, FetchError, io, size_not_ascii, invalid_chunk_size,
  trailers_too_large, closed_before_crlf, missing_crlf, too_large, Got, unfinished, all_bytes,
  Reading, ◌>>=◌, pure, fail, map_err,
}
use tor_socks.Fetch.Reader.{ChunkedReader, new_reader, read_line, read_exact_into}

-- The two reads that the decoder uses.
pub record Reads (R : Type 0) : Type 0 where
  pub line : ℕ → LineKind → R → Got R (List ℕ)
  pub exact : ℕ → R → Got R (List ℕ)

abbrev pub reader_reads : Reads ChunkedReader
reader_reads = record { line = read_line; exact = read_exact_into }

abbrev pub max_size_line : ℕ
max_size_line = 1024

abbrev pub max_trailer_line : ℕ
max_trailer_line = 8192

abbrev pub max_trailers_total : ℕ
max_trailers_total = 65_536

-- 2^64, above every `usize`.
abbrev pub usize_bound : ℕ
usize_bound = 18_446_744_073_709_551_616

-- The bytes before the first semicolon.
unfoldable pub before_extension : List ℕ → List ℕ
before_extension [] = []
before_extension (x ∷ xs) = if x == 59 then [] else x ∷ before_extension xs

unfoldable pub hex_value : ℕ → Option ℕ
hex_value c =
    if leb 48 c && leb c 57
    then some (c - 48)
    else if leb 65 c && leb c 70
    then some (c - 55)
    else if leb 97 c && leb c 102
    then some (c - 87)
    else none

unfoldable pub hex_digits : ℕ → List ℕ → Option ℕ
unfolding hex_value
hex_digits acc [] = some acc
hex_digits acc (c ∷ cs) = elim (hex_value c) [
  | none ↦ none
  | some d ↦ if ltb (acc * 16 + d) usize_bound then hex_digits (acc * 16 + d) cs else none
]

-- `usize::from_str_radix(_, 16)`: digits, after an optional plus sign.
unfoldable pub from_str_radix : List ℕ → Option ℕ
unfolding hex_digits
from_str_radix [] = none
from_str_radix (c ∷ []) = hex_digits 0 (c ∷ [])
from_str_radix (c ∷ d ∷ cs) = if c == 43 then hex_digits 0 (d ∷ cs) else hex_digits 0 (c ∷ d ∷ cs)

-- The error of the line break after a chunk, for an error of its read.
unfoldable pub crlf_error : FetchError → FetchError
crlf_error io = io
crlf_error (too_large n) = too_large n
crlf_error e = closed_before_crlf

module _ {R : Type 0} where
  -- A turn of the loop over the trailers: the body, at the empty line.
  abbrev pub trailer_turn : (ℕ → Reading R (List ℕ)) → ℕ → List ℕ → List ℕ → Reading R (List ℕ)
  trailer_turn rest total body [] =
      if ltb max_trailers_total (total + 2) then fail trailers_too_large else pure body
  trailer_turn rest total body (x ∷ xs) =
      let total' = total + (length (x ∷ xs) + 2) in
      if ltb max_trailers_total total' then fail trailers_too_large else rest total'

  -- A turn of the loop over the chunks, for a chunk of `n` bytes.
  abbrev pub chunk_turn :
      Reading R (List ℕ)
      → Reading R (List ℕ)
      → (List ℕ → Reading R (List ℕ))
      → ℕ
      → List ℕ
      → ℕ
      → Reading R (List ℕ)
  chunk_turn finish chunk rest max_body body zero = finish
  chunk_turn finish chunk rest max_body body (suc n) =
      if leb usize_bound (length body + suc n) || ltb max_body (length body + suc n)
      then fail (too_large max_body)
      else chunk >>= λ piece. rest (body ++ piece)

module _ {R : Type 0} (reads : Reads R) where
  -- The trailers after the last chunk, up to an empty line.
  unfoldable pub trailers : ℕ → ℕ → List ℕ → Reading R (List ℕ)
  trailers zero total body r = unfinished
  trailers (suc fuel) total body r =
      (do
        t ← reads.line max_trailer_line trailer_line
        trailer_turn (λ total'. trailers fuel total' body) total body t)
        r

  -- The data of a chunk of `n` bytes, with the line break after it.
  unfoldable pub chunk_data : ℕ → Reading R (List ℕ)
  unfolding crlf_error
  chunk_data n r =
      (do
        piece ← reads.exact n
        sep ← map_err crlf_error (reads.exact 2)
        if key_eq sep (13 ∷ 10 ∷ []) then pure piece else fail missing_crlf)
        r

-- `is_utf8` and `trim` are the standard library's, on the bytes of a string.
module _ (is_utf8 : List ℕ → Bool) (trim : List ℕ → List ℕ) where
  unfoldable pub chunk_size : {R : Type 0} → List ℕ → Reading R ℕ
  unfolding before_extension from_str_radix
  chunk_size line =
      if is_utf8 (before_extension line)
      then elim (from_str_radix (trim (before_extension line))) [
        | none ↦ fail invalid_chunk_size
        | some n ↦ pure n
      ]
      else fail size_not_ascii

  module _ {R : Type 0} (reads : Reads R) where
    unfoldable pub decode : ℕ → ℕ → List ℕ → Reading R (List ℕ)
    decode max_body zero body r = unfinished
    decode max_body (suc fuel) body r =
        (do
          line ← reads.line max_size_line chunk_size_line
          n ← chunk_size line
          chunk_turn (trailers reads fuel 0 body) (chunk_data reads n) (λ b. decode max_body fuel b)
              max_body body n)
          r

  -- Each turn of the loops reads a byte at least.
  unfoldable pub decode_chunked_body : Wire → List ℕ → ℕ → Got ChunkedReader (List ℕ)
  unfolding decode
  decode_chunked_body stream preloaded max_body =
      decode reader_reads max_body (suc (length (preloaded ++ all_bytes stream.pieces))) []
        (new_reader stream preloaded)
