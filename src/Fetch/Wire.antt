-- ===== src/Fetch/Wire.antt =====
-- The connection that packages/bridge-fetcher/src/http/framing.rs reads from, and its errors.
use tor_socks.Base.{
  ℕ, zero, suc, ◌≤◌, ◌<◌, ◌≡◌, refl, sym, ap, ◌∙◌, inl, inr, Bool, Option, none, some, List, [],
  ◌∷◌, ◌++◌, arith, length, if◌then◌else◌, Bool-cases, leb, length-take, take, drop, append_assoc,
  take-drop,
}

-- What the peer sends, in the pieces in which it arrives; then the connection ends, or fails.
pub record Wire : Type 0 where
  pub pieces : List (List ℕ)
  pub fails : Bool

-- What a line of the framing is, in an error.
pub data LineKind : Type 0 where
  chunk_size_line : LineKind
  trailer_line : LineKind

-- `FetchError::ChunkedEncoding` by its text, and the other errors that the framing gives.
pub data FetchError : Type 0 where
  io : FetchError
  closed_mid_chunk : FetchError
  line_too_long : LineKind → FetchError
  closed_in_line : LineKind → FetchError
  size_not_ascii : FetchError
  invalid_chunk_size : FetchError
  trailers_too_large : FetchError
  closed_before_crlf : FetchError
  missing_crlf : FetchError
  too_large : ℕ → FetchError

-- A result with the source that it leaves; `unfinished` when the fuel ran out.
pub data Got (R : Type 0) (A : Type 0) : Type 0 where
  got : A → R → Got R A
  failed : FetchError → Got R A
  unfinished : Got R A

-- A step that reads from a source.
abbrev pub Reading : Type 0 → Type 0 → Type 0
Reading R A = R → Got R A

abbrev pub after : {R A B : Type 0} → (A → Reading R B) → Got R A → Got R B
after f (got a r) = f a r
after f (failed e) = failed e
after f unfinished = unfinished

infixl 5 ◌>>=◌
abbrev pub ◌>>=◌ : {R A B : Type 0} → Reading R A → (A → Reading R B) → Reading R B
◌>>=◌ m f r = after f (m r)

abbrev pub pure : {R A : Type 0} → A → Reading R A
pure a r = got a r

abbrev pub fail : {R A : Type 0} → FetchError → Reading R A
fail e r = failed e

-- `Result::map_err`
abbrev pub map_error : {R A : Type 0} → (FetchError → FetchError) → Got R A → Got R A
map_error f (got a r) = got a r
map_error f (failed e) = failed (f e)
map_error f unfinished = unfinished

abbrev pub map_err : {R A : Type 0} → (FetchError → FetchError) → Reading R A → Reading R A
map_err f m r = map_error f (m r)

-- `AsyncRead::read` into a buffer of `k` bytes: at most the next piece; no bytes at the end.
unfoldable pub read_pieces : ℕ → List (List ℕ) → List ℕ × List (List ℕ)
read_pieces k [] = ([], [])
read_pieces k ([] ∷ pieces) = read_pieces k pieces
read_pieces k ((b ∷ bs) ∷ pieces) =
    if leb (length (b ∷ bs)) k
    then (b ∷ bs, pieces)
    else (take k (b ∷ bs), drop k (b ∷ bs) ∷ pieces)

-- All bytes still to come.
unfoldable pub all_bytes : List (List ℕ) → List ℕ
all_bytes [] = []
all_bytes (piece ∷ pieces) = piece ++ all_bytes pieces

-- A read takes the next bytes, at most `k` of them, and some if there are any.
pub read_pieces_lem :
    (k : ℕ) (pieces : List (List ℕ))
    → (read_pieces k pieces).0 ++ all_bytes (read_pieces k pieces).1 ≡ all_bytes pieces
unfolding read_pieces all_bytes
read_pieces_lem k [] = refl
read_pieces_lem k ([] ∷ pieces) = read_pieces_lem k pieces
read_pieces_lem k ((b ∷ bs) ∷ pieces) = elim (Bool-cases (leb (length (b ∷ bs)) k)) [
  | inl fits ↦ ground (arith, fits)
  | inr more ↦
      let whole : take k (b ∷ bs) ++ (drop k (b ∷ bs) ++ all_bytes pieces)
          ≡ b ∷ (bs ++ all_bytes pieces) =
        sym (append_assoc (take k (b ∷ bs)) (drop k (b ∷ bs)) (all_bytes pieces))
        ∙ ap (λ (x : List ℕ). x ++ all_bytes pieces) (take-drop k (b ∷ bs)) in
      ground (arith, more, whole)
]

pub read_pieces_bounds : (k : ℕ) (pieces : List (List ℕ)) → length (read_pieces k pieces).0 ≤ k
unfolding read_pieces
read_pieces_bounds k [] = omega arith
read_pieces_bounds k ([] ∷ pieces) = read_pieces_bounds k pieces
read_pieces_bounds k ((b ∷ bs) ∷ pieces) = ground (arith, length-take k (b ∷ bs))

-- No bytes, into a buffer that is not empty, only when none are to come.
pub read_pieces_end :
    (k : ℕ) (pieces : List (List ℕ)) → 0 < k → (read_pieces k pieces).0 ≡ [] → all_bytes pieces ≡ []
unfolding read_pieces all_bytes
read_pieces_end k [] h e = refl
read_pieces_end k ([] ∷ pieces) h e = read_pieces_end k pieces h e
read_pieces_end (suc k) ((b ∷ bs) ∷ pieces) h e = absurd (ground arith)
read_pieces_end zero ((b ∷ bs) ∷ pieces) h e = absurd (omega arith)

-- A failure of the connection is an error; `some []` is the end.
unfoldable pub read : ℕ → Wire → Option (List ℕ × Wire)
unfolding read_pieces
read k w =
    let (taken, pieces) = read_pieces k w.pieces in
    elim taken [
      | [] ↦ if w.fails then none else some ([], record w { pieces = pieces })
      | b ∷ bs ↦ some (b ∷ bs, record w { pieces = pieces })
    ]
