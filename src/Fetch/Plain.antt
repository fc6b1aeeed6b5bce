-- ===== src/Fetch/Plain.antt =====
-- The reads of packages/bridge-fetcher/src/http/framing.rs on the whole input as one list: what
-- they mean, whatever the pieces in which the input arrives.
use tor_socks.Base.{
  ℕ, ◌+◌, ◌-◌, ◌≤◌, ◌<◌, ◌≡◌, refl, sym, ap, ◌∙◌, inl, inr, Bool, true, false, none, some, List, [],
  ◌∷◌, ◌++◌, arith, length, if◌then◌else◌, Bool-cases, ltb, leb, take, drop, drop_all, min, ltb→lt,
  length-take, length-drop, drop-drop, append_assoc, take-drop,
}
use tor_socks.Fetch.Wire.{
  Wire, LineKind, FetchError, io, closed_mid_chunk, line_too_long, closed_in_line, Got, got, failed,
  unfinished, read, all_bytes, read_pieces, read_pieces_lem, read_pieces_bounds, read_pieces_end,
}
use tor_socks.Fetch.Reader.{ChunkedReader, position, strip_cr, read_some}

pub record Input : Type 0 where
  pub bytes : List ℕ
  pub breaks : Bool

-- The error of a read that meets the end.
unfoldable pub ended : {A : Type 0} → Bool → FetchError → Got Input A
ended true e = failed io
ended false e = failed e

unfoldable pub plain_fill : ℕ → List ℕ → Input → Got Input (List ℕ)
unfolding ended
plain_fill k filled p =
    if leb k (length p.bytes)
    then got (filled ++ take k p.bytes) (record p { bytes = drop k p.bytes })
    else ended p.breaks closed_mid_chunk

unfoldable pub plain_exact : ℕ → Input → Got Input (List ℕ)
unfolding plain_fill
plain_exact k p = plain_fill k [] p

unfoldable pub plain_line : ℕ → LineKind → Input → Got Input (List ℕ)
unfolding position strip_cr ended
plain_line limit kind p = elim (position 10 p.bytes) [
  | some off ↦
      if ltb limit off
      then failed (line_too_long kind)
      else got (strip_cr (take off p.bytes)) (record p { bytes = drop (off + 1) p.bytes })
  | none ↦
      if ltb limit (length p.bytes)
      then failed (line_too_long kind)
      else ended p.breaks (closed_in_line kind)
]

-- What a reader still holds and will receive.
abbrev pub pending : ChunkedReader → Input
pending r = record {
  bytes = drop r.pre_pos r.pre ++ all_bytes r.stream.pieces;
  breaks = r.stream.fails;
}

abbrev pub view : {A : Type 0} → Got ChunkedReader A → Got Input A
view (got a r) = got a (pending r)
view (failed e) = failed e
view unfinished = unfinished

-- What a read of the stream does.
pub data ReadCase (k : ℕ) (w : Wire) : Type 0 where
  broke : w.fails ≡ true → all_bytes w.pieces ≡ [] → read k w ≡ none → ReadCase k w
  closed :
      (w' : Wire)
      → w.fails ≡ false
      → all_bytes w.pieces ≡ []
      → read k w ≡ some ([], w')
      → ReadCase k w
  block :
      (b : ℕ) (bs : List ℕ) (w' : Wire)
      → read k w ≡ some (b ∷ bs, w')
      → b ∷ (bs ++ all_bytes w'.pieces) ≡ all_bytes w.pieces
      → length (b ∷ bs) ≤ k
      → w'.fails ≡ w.fails
      → ReadCase k w

pub read_cases : (k : ℕ) (w : Wire) → 0 < k → ReadCase k w
unfolding read
read_cases k w h = go (read_pieces k w.pieces) refl
  where
    go : (p : List ℕ × List (List ℕ)) → read_pieces k w.pieces ≡ p → ReadCase k w
    go ([], pieces) e =
        let none_left : all_bytes w.pieces ≡ [] =
          read_pieces_end k w.pieces h (ap (λ (t : List ℕ × List (List ℕ)). t.0) e) in
        elim (Bool-cases w.fails) [
          | inl fails ↦ broke fails none_left (ground (arith, e, fails))
          | inr fine ↦
              closed (record w { pieces = pieces }) fine none_left (ground (arith, e, fine))
        ]
    go (b ∷ bs, pieces) e =
        block b bs (record w { pieces = pieces }) (ground (arith, e))
          (ap (λ (t : List ℕ × List (List ℕ)). t.0 ++ all_bytes t.1) (sym e)
            ∙ read_pieces_lem k w.pieces)
          (omega (
            arith,
            read_pieces_bounds k w.pieces,
            ap (λ (t : List ℕ × List (List ℕ)). length t.0) e,
          ))
          refl

-- What `read_some` does, with what it leaves.
pub data SomeCase (k : ℕ) (r : ChunkedReader) : Type 0 where
  broke_off :
      r.stream.fails ≡ true → (pending r).bytes ≡ [] → read_some k r ≡ failed io → SomeCase k r
  at_end :
      (r' : ChunkedReader)
      → r.stream.fails ≡ false
      → (pending r).bytes ≡ []
      → read_some k r ≡ got [] r'
      → SomeCase k r
  some_bytes :
      (b : ℕ) (bs : List ℕ) (r' : ChunkedReader)
      → read_some k r ≡ got (b ∷ bs) r'
      → b ∷ (bs ++ (pending r').bytes) ≡ (pending r).bytes
      → length (b ∷ bs) ≤ k
      → r'.stream.fails ≡ r.stream.fails
      → SomeCase k r

buffer_used : (r : ChunkedReader) → ltb r.pre_pos (length r.pre) ≡ false → drop r.pre_pos r.pre ≡ []
buffer_used r h = drop_all r.pre_pos r.pre (ground arith)

nothing_held :
    (r : ChunkedReader)
    → ltb r.pre_pos (length r.pre) ≡ false
    → (pending r).bytes ≡ all_bytes r.stream.pieces
nothing_held r h = ap (λ (x : List ℕ). x ++ all_bytes r.stream.pieces) (buffer_used r h)

from_buffer :
    (k : ℕ) (r : ChunkedReader) (t : List ℕ)
    → 0 < k
    → r.pre_pos < length r.pre
    → take (min (length r.pre - r.pre_pos) k) (drop r.pre_pos r.pre) ≡ t
    → SomeCase k r
unfolding read_some
from_buffer k r [] h held e = absurd (
    omega (
      arith,
      ap (λ (x : List ℕ). length x) e,
      length-take (min (length r.pre - r.pre_pos) k) (drop r.pre_pos r.pre),
      length-drop r.pre_pos r.pre,
    ))
from_buffer k r (b ∷ bs) h held e =
    let avail : ℕ = min (length r.pre - r.pre_pos) k in
    let rest : List ℕ = all_bytes r.stream.pieces in
    some_bytes b bs (record r { pre_pos = r.pre_pos + avail }) (ground (arith, e))
      (ap (λ (x : List ℕ). (b ∷ bs) ++ (x ++ rest)) (sym (drop-drop r.pre_pos avail r.pre))
        ∙ sym (append_assoc (b ∷ bs) (drop avail (drop r.pre_pos r.pre)) rest)
        ∙ ap (λ (x : List ℕ). (x ++ drop avail (drop r.pre_pos r.pre)) ++ rest) (sym e)
        ∙ ap (λ (x : List ℕ). x ++ rest) (take-drop avail (drop r.pre_pos r.pre)))
      (omega (arith, ap (λ (x : List ℕ). length x) e, length-take avail (drop r.pre_pos r.pre)))
      refl

pub read_some_cases : (k : ℕ) (r : ChunkedReader) → 0 < k → SomeCase k r
unfolding read_some
read_some_cases k r h = elim (Bool-cases (ltb r.pre_pos (length r.pre))) [
  | inl held ↦ from_buffer k r _ h (ltb→lt _ _ held) refl
  | inr used ↦ elim (read_cases k r.stream h) [
    | broke fails none_left e ↦
        broke_off fails (nothing_held r used ∙ none_left) (ground (arith, e, used))
    | closed w' fine none_left e ↦
        at_end (record r { stream = w' }) fine (nothing_held r used ∙ none_left)
          (ground (arith, e, used))
    | block b bs w' e same fits keeps ↦
        some_bytes b bs (record r { stream = w' }) (ground (arith, e, used))
          (ap (λ (x : List ℕ). b ∷ (bs ++ (x ++ all_bytes w'.pieces))) (buffer_used r used)
            ∙ same
            ∙ sym (nothing_held r used))
          fits keeps
  ]
]
