-- ===== src/Fetch/Framed.antt =====
-- packages/bridge-fetcher/src/http/framing.rs: every well-formed chunked body is decoded.
use tor_socks.Base.{
  take, drop, take-append_right, take-append_left, drop-append_right, take_all, ℕ, zero, suc, ◌+◌,
  ◌-◌, ◌≤◌, ◌<◌, ◌≡◌, refl, sym, ap, subst, ◌∙◌, inl, inr, Bool, ◌||◌, none, some, List, [], ◌∷◌,
  ◌++◌, arith, length, All, Bool-cases, ltb, leb, length-append, append-nil, append_assoc,
}
use tor_socks.OrdMap.Text.{text_ord, text_cmp}
use tor_socks.Fetch.Wire.{Wire, LineKind, chunk_size_line, trailer_line, Got, got, all_bytes, after}
use tor_socks.Fetch.Reader.{position, strip_cr}
use tor_socks.Fetch.Plain.{Input, plain_exact, plain_fill, plain_line, view}
use tor_socks.Fetch.Line.{position-append_later}
use tor_socks.Fetch.Chunked.{
  max_size_line, max_trailer_line, chunk_size, trailers, chunk_data, decode, decode_chunked_body,
  usize_bound, chunk_turn,
}
use tor_socks.Fetch.Pieces.{plain_reads, decode_input, decode_chunked_body_lem}

pub record Chunk : Type 0 where
  pub size_line : List ℕ
  pub piece : List ℕ

-- The chunks, the line of the last, no trailer, and what follows the body.
abbrev pub frame : List Chunk → List ℕ → List ℕ → List ℕ
frame [] last rest = last ++ (13 ∷ 10 ∷ 13 ∷ 10 ∷ rest)
frame (c ∷ cs) last rest = c.size_line ++ (13 ∷ 10 ∷ (c.piece ++ (13 ∷ 10 ∷ frame cs last rest)))

abbrev pub joined : List Chunk → List ℕ
joined [] = []
joined (c ∷ cs) = c.piece ++ joined cs

strip_cr_one : (xs : List ℕ) → strip_cr (xs ++ (13 ∷ [])) ≡ xs
unfolding strip_cr
strip_cr_one [] = refl
strip_cr_one (x ∷ []) = refl
strip_cr_one (x ∷ y ∷ xs) = ap (◌∷◌ x) (strip_cr_one (y ∷ xs))

-- A line with its line break is read as the line.
line_read :
    (limit : ℕ) (kind : LineKind) (l rest : List ℕ) (breaks : Bool)
    → position 10 l ≡ none
    → length l < limit
    → plain_line limit kind (record { bytes = l ++ (13 ∷ 10 ∷ rest); breaks = breaks })
      ≡ got l (record { bytes = rest; breaks = breaks })
unfolding plain_line position
line_read limit kind l rest breaks h short =
    let place : position 10 (l ++ (13 ∷ 10 ∷ rest)) ≡ some (length l + 1) =
      position-append_later 10 l (13 ∷ 10 ∷ rest) 1 h refl in
    let gap : length l + 1 - length l ≡ 1 = omega arith in
    let gap' : length l + 1 + 1 - length l ≡ 2 = omega arith in
    let front : take (length l + 1) (l ++ (13 ∷ 10 ∷ rest)) ≡ l ++ (13 ∷ []) =
      take-append_right (length l + 1) l (13 ∷ 10 ∷ rest) (omega arith)
      ∙ ap (λ (n : ℕ). l ++ take n (13 ∷ 10 ∷ rest)) gap in
    let back : drop (length l + 1 + 1) (l ++ (13 ∷ 10 ∷ rest)) ≡ rest =
      drop-append_right (length l + 1 + 1) l (13 ∷ 10 ∷ rest) (omega arith)
      ∙ ap (λ (n : ℕ). drop n (13 ∷ 10 ∷ rest)) gap' in
    ground (arith, place, ap strip_cr front, strip_cr_one l, back)

exact_read :
    (xs rest : List ℕ) (breaks : Bool)
    → plain_exact (length xs) (record { bytes = xs ++ rest; breaks = breaks })
      ≡ got xs (record { bytes = rest; breaks = breaks })
unfolding plain_exact plain_fill
exact_read xs rest breaks =
    let gap : length xs - length xs ≡ 0 = omega arith in
    let front : take (length xs) (xs ++ rest) ≡ xs =
      take-append_left (length xs) xs rest (omega arith) ∙ take_all (length xs) xs (omega arith) in
    let back : drop (length xs) (xs ++ rest) ≡ rest =
      drop-append_right (length xs) xs rest (omega arith) ∙ ap (λ (n : ℕ). drop n rest) gap in
    ground (arith, length-append xs rest, front, back)

chunk_read :
    (xs rest : List ℕ) (breaks : Bool)
    → chunk_data plain_reads
        (length xs)
        (record { bytes = xs ++ (13 ∷ 10 ∷ rest); breaks = breaks })
      ≡ got xs (record { bytes = rest; breaks = breaks })
unfolding chunk_data text_cmp
chunk_read xs rest breaks =
    ground (arith, exact_read xs (13 ∷ 10 ∷ rest) breaks, exact_read (13 ∷ 10 ∷ []) rest breaks)

trailers_read :
    (fuel : ℕ) (body rest : List ℕ) (breaks : Bool)
    → trailers plain_reads (suc fuel) 0 body (record { bytes = 13 ∷ 10 ∷ rest; breaks = breaks })
      ≡ got body (record { bytes = rest; breaks = breaks })
unfolding trailers position
trailers_read fuel body rest breaks =
    ap (after _) (line_read max_trailer_line trailer_line [] rest breaks refl (omega arith))

chunk_turn_more :
    (finish chunk : Input → Got Input (List ℕ)) (rest : List ℕ → Input → Got Input (List ℕ)) (m : ℕ)
    (body : List ℕ) (n : ℕ) (p : Input)
    → 0 < n
    → length body + n ≤ m
    → length body + n < usize_bound
    → chunk_turn finish chunk rest m body n p ≡ after (λ piece. rest (body ++ piece)) (chunk p)
chunk_turn_more finish chunk rest m body zero p more fits small = absurd (omega arith)
chunk_turn_more finish chunk rest m body (suc n) p more fits small =
    elim (Bool-cases (leb usize_bound (length body + suc n) || ltb m (length body + suc n))) [
      | inl over ↦ absurd (ground (arith, over))
      | inr within ↦ rw within refl
    ]

frame_long : (cs : List Chunk) (last rest : List ℕ) → length cs + 1 ≤ length (frame cs last rest)
frame_long [] last rest = omega (arith, length-append last (13 ∷ 10 ∷ 13 ∷ 10 ∷ rest))
frame_long (c ∷ cs) last rest = omega (
  arith,
  length-append c.size_line (13 ∷ 10 ∷ (c.piece ++ (13 ∷ 10 ∷ frame cs last rest))),
  length-append c.piece (13 ∷ 10 ∷ frame cs last rest),
  frame_long cs last rest,
)

module _ (is_utf8 : List ℕ → Bool) (trim : List ℕ → List ℕ) where
  -- A size line that fits, and reads as the size `n`.
  pub record IsSizeLine (line : List ℕ) (n : ℕ) : Type 0 where
    pub one_line : position 10 line ≡ none
    pub short : length line < max_size_line
    pub reads : (p : Input) → chunk_size is_utf8 trim line p ≡ got n p

  pub record IsChunk (c : Chunk) : Type 0 where
    pub sized : IsSizeLine c.size_line (length c.piece)
    pub more : 0 < length c.piece

  decode-frame :
      (m fuel : ℕ) (cs : List Chunk) (last body rest : List ℕ) (breaks : Bool)
      → IsSizeLine last 0
      → All IsChunk cs
      → length (body ++ joined cs) ≤ m
      → length (body ++ joined cs) < usize_bound
      → length cs + 1 < fuel
      → decode is_utf8 trim plain_reads m fuel body
          (record { bytes = frame cs last rest; breaks = breaks })
        ≡ got (body ++ joined cs) (record { bytes = rest; breaks = breaks })
  unfolding decode
  decode-frame m zero cs last body rest breaks sl h fits small enough = absurd (omega arith)
  decode-frame m (suc zero) cs last body rest breaks sl h fits small enough = absurd (omega arith)
  decode-frame m (suc (suc fuel)) [] last body rest breaks sl h fits small enough = ground (
    arith,
    line_read max_size_line chunk_size_line last (13 ∷ 10 ∷ rest) breaks sl.one_line sl.short,
    sl.reads (record { bytes = 13 ∷ 10 ∷ rest; breaks = breaks }),
    trailers_read fuel body rest breaks,
    append-nil body,
  )
  decode-frame m (suc (suc fuel)) (c ∷ cs) last body rest breaks sl h fits small enough =
      let later : List ℕ = frame cs last rest in
      let after_line : Input = record { bytes = c.piece ++ (13 ∷ 10 ∷ later); breaks = breaks } in
      let whole : body ++ (c.piece ++ joined cs) ≡ (body ++ c.piece) ++ joined cs =
        sym (append_assoc body c.piece (joined cs)) in
      let line =
        line_read max_size_line chunk_size_line c.size_line (c.piece ++ (13 ∷ 10 ∷ later)) breaks
          h.0.sized.one_line h.0.sized.short in
      let lengths : length (body ++ (c.piece ++ joined cs))
          ≡ length body + (length c.piece + length (joined cs)) =
        length-append body (c.piece ++ joined cs)
        ∙ ap (λ (k : ℕ). length body + k) (length-append c.piece (joined cs)) in
      let rec =
        decode-frame m (suc fuel) cs last (body ++ c.piece) rest breaks sl h.1
          (subst (λ (b : List ℕ). length b ≤ m) whole fits)
          (subst (λ (b : List ℕ). length b < usize_bound) whole small) (omega arith) in
      ap (after _) line
      ∙ ap (after _) (h.0.sized.reads after_line)
      ∙ chunk_turn_more _ (chunk_data plain_reads (length c.piece))
          (λ b. decode is_utf8 trim plain_reads m (suc fuel) b) m body (length c.piece) after_line
          h.0.more (omega (arith, lengths)) (omega (arith, lengths))
      ∙ ap (after _) (chunk_read c.piece later breaks)
      ∙ rec
      ∙ ap (λ (b : List ℕ). got b (record { bytes = rest; breaks = breaks })) (sym whole)

  -- Every well-formed chunked body within the limit is decoded to its pieces, up to its end.
  pub decode_chunked_body-frame :
      (stream : Wire) (preloaded : List ℕ) (max_body : ℕ) (cs : List Chunk) (last rest : List ℕ)
      → preloaded ++ all_bytes stream.pieces ≡ frame cs last rest
      → IsSizeLine last 0
      → All IsChunk cs
      → length (joined cs) ≤ max_body
      → length (joined cs) < usize_bound
      → view (decode_chunked_body is_utf8 trim stream preloaded max_body)
        ≡ got (joined cs) (record { bytes = rest; breaks = stream.fails })
  unfolding decode_input
  decode_chunked_body-frame stream preloaded max_body cs last rest e sl h fits small =
      decode_chunked_body_lem is_utf8 trim stream preloaded max_body
      ∙ ap (λ (b : List ℕ). decode_input is_utf8 trim b stream.fails max_body) e
      ∙ decode-frame max_body (suc (length (frame cs last rest))) cs last [] rest stream.fails sl h
          fits small (omega (arith, frame_long cs last rest))
