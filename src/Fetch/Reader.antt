-- ===== src/Fetch/Reader.antt =====
-- packages/bridge-fetcher/src/http/framing.rs: the buffered reader of a chunked body.
use tor_socks.Base.{
  ℕ, zero, suc, ◌+◌, ◌-◌, Option, none, some, List, [], ◌∷◌, ◌++◌, length, if◌then◌else◌, ◌==◌, ltb,
  leb, drop, min, take,
}
use tor_socks.Fetch.Wire.{
  Wire, LineKind, io, closed_mid_chunk, line_too_long, closed_in_line, Got, got, failed, unfinished,
  read, all_bytes,
}

-- `pre` holds bytes read ahead, of which `pre_pos` are used.
pub record ChunkedReader : Type 0 where
  pub stream : Wire
  pub pre : List ℕ
  pub pre_pos : ℕ

abbrev pub new_reader : Wire → List ℕ → ChunkedReader
new_reader stream pre = record { stream = stream; pre = pre; pre_pos = 0 }

-- `Iterator::position` of a byte.
unfoldable pub position : ℕ → List ℕ → Option ℕ
position c [] = none
position c (x ∷ xs) =
    if x == c then some 0 else elim (position c xs) [ none ↦ none | some i ↦ some (suc i) ]

unfoldable pub read_some : ℕ → ChunkedReader → Got ChunkedReader (List ℕ)
read_some k r =
    if ltb r.pre_pos (length r.pre)
    then (let avail = min (length r.pre - r.pre_pos) k in
        got (take avail (drop r.pre_pos r.pre)) (record r { pre_pos = r.pre_pos + avail }))
    else elim (read k r.stream) [
      | none ↦ failed io
      | some (block, stream) ↦ got block (record r { stream = stream })
    ]

-- `read_exact_into` a buffer with `k` bytes to fill, after `filled`.
unfoldable pub fill : ℕ → ℕ → List ℕ → ChunkedReader → Got ChunkedReader (List ℕ)
fill fuel zero filled r = got filled r
fill zero (suc k) filled r = unfinished
fill (suc fuel) (suc k) filled r = elim (read_some (suc k) r) [
  | failed e ↦ failed e
  | unfinished ↦ unfinished
  | got block r' ↦ elim block [
    | [] ↦ failed closed_mid_chunk
    | b ∷ bs ↦ fill fuel (suc k - length (b ∷ bs)) (filled ++ (b ∷ bs)) r'
  ]
]

-- Each turn fills a byte.
unfoldable pub read_exact_into : ℕ → ChunkedReader → Got ChunkedReader (List ℕ)
read_exact_into k r = fill k k [] r

-- A line without its carriage return.
unfoldable pub strip_cr : List ℕ → List ℕ
strip_cr [] = []
strip_cr (x ∷ xs) = elim xs [ [] ↦ if x == 13 then [] else x ∷ [] | y ∷ ys ↦ x ∷ strip_cr xs ]

-- The buffer without its used bytes, and the new ones.
unfoldable pub refill : ChunkedReader → Wire → List ℕ → ChunkedReader
refill r stream block = record r {
  stream = stream;
  pre = (if ltb 0 r.pre_pos then drop r.pre_pos r.pre else r.pre) ++ block;
  pre_pos = 0;
}

-- The loop of `read_line`, which looks for the end of the line from `scan_from` on.
unfoldable pub scan : ℕ → ℕ → LineKind → ℕ → ChunkedReader → Got ChunkedReader (List ℕ)
scan zero limit kind scan_from r = unfinished
scan (suc fuel) limit kind scan_from r = elim (position 10 (drop scan_from r.pre)) [
  | some off ↦
      let nl = scan_from + off in
      if ltb limit (nl - r.pre_pos)
      then failed (line_too_long kind)
      else got (strip_cr (take (nl - r.pre_pos) (drop r.pre_pos r.pre)))
          (record r { pre_pos = nl + 1 })
  | none ↦
      if ltb limit (length r.pre - r.pre_pos)
      then failed (line_too_long kind)
      else elim (read 4096 r.stream) [
        | none ↦ failed io
        | some (block, stream) ↦ elim block [
          | [] ↦ failed (closed_in_line kind)
          | b ∷ bs ↦
              scan fuel limit kind
                (if ltb 0 r.pre_pos then length r.pre - r.pre_pos else length r.pre)
                (refill r stream (b ∷ bs))
        ]
      ]
]

-- A used-up buffer is cleared. Each turn but the last reads a byte of the stream.
unfoldable pub read_line : ℕ → LineKind → ChunkedReader → Got ChunkedReader (List ℕ)
read_line limit kind r =
    let fresh = if leb (length r.pre) r.pre_pos then record r { pre = []; pre_pos = 0 } else r in
    scan (suc (length (all_bytes r.stream.pieces))) limit kind fresh.pre_pos fresh
