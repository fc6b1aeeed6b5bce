-- ===== src/Fetch/Scan.antt =====
-- packages/bridge-fetcher/src/http/framing.rs: a line read from the stream is the next line of the
-- input.
use tor_socks.Base.{
  ℕ, zero, suc, ◌+◌, ◌-◌, ◌≤◌, ◌<◌, ◌≡◌, refl, sym, ap, ◌∙◌, inl, inr, Bool, none, some, List, [],
  ◌∷◌, ◌++◌, arith, length, if◌then◌else◌, Bool-cases, Option-cases, ltb, leb, drop, take,
  length-append, take-append_left, take_all, length-drop, drop-drop, drop_all, append_assoc, leb→le,
}
use tor_socks.Fetch.Wire.{Wire, LineKind, all_bytes}
use tor_socks.Fetch.Reader.{ChunkedReader, position, refill, scan, read_line}
use tor_socks.Fetch.Plain.{ended, plain_line, pending, view, read_cases, broke, closed, block}
use tor_socks.Fetch.Line.{
  position_from, position_nowhere, plain_line_found, plain_line_long, plain_line_end,
}

no_bytes : (xs : List ℕ) → xs ≡ [] → position 10 xs ≡ none
unfolding position
no_bytes xs e = ap (position 10) e

-- The bytes before `scan_from` hold no end of line.
pub record IsScanned (scan_from : ℕ) (r : ChunkedReader) : Type 0 where
  pub after_used : r.pre_pos ≤ scan_from
  pub in_buffer : scan_from ≤ length r.pre
  pub clear : position 10 (take (scan_from - r.pre_pos) (drop r.pre_pos r.pre)) ≡ none

compacted : (pos : ℕ) (xs : List ℕ) → (if ltb 0 pos then drop pos xs else xs) ≡ drop pos xs
compacted zero xs = refl
compacted (suc pos) xs = ground arith

held_length :
    (pos : ℕ) (xs : List ℕ)
    → (if ltb 0 pos then length xs - pos else length xs) ≡ length (drop pos xs)
held_length pos xs = ground (arith, length-drop pos xs)

-- The pending input after a block was added to the buffer.
refill-pending :
    (r : ChunkedReader) (w : Wire) (xs : List ℕ)
    → pending (refill r w xs)
      ≡ record { bytes = (drop r.pre_pos r.pre ++ xs) ++ all_bytes w.pieces; breaks = w.fails }
unfolding refill
refill-pending r w xs =
    ap (λ (t : List ℕ). record { bytes = (t ++ xs) ++ all_bytes w.pieces; breaks = w.fails })
      (compacted r.pre_pos r.pre)

refill-IsScanned :
    (r : ChunkedReader) (w : Wire) (xs : List ℕ)
    → position 10 (drop r.pre_pos r.pre) ≡ none
    → IsScanned (if ltb 0 r.pre_pos then length r.pre - r.pre_pos else length r.pre) (refill r w xs)
unfolding refill
refill-IsScanned r w xs missing =
    let held : List ℕ = drop r.pre_pos r.pre in
    let same_length : length (drop 0 held ++ xs) ≡ length held + length xs =
      length-append held xs in
    let all_held : take (length held - 0) (held ++ xs) ≡ held =
      ap (λ (n : ℕ). take n (held ++ xs)) (omega arith)
      ∙ take-append_left (length held) held xs (omega arith)
      ∙ take_all (length held) held (omega arith) in
    rw (held_length r.pre_pos r.pre, compacted r.pre_pos r.pre)
      (record {
        after_used = omega arith;
        in_buffer = omega (arith, same_length);
        clear = ap (position 10) all_held ∙ missing;
      })

module _ (limit : ℕ) (kind : LineKind) where
  scan_found :
      (fuel scan_from off : ℕ) (r : ChunkedReader)
      → IsScanned scan_from r
      → position 10 (drop scan_from r.pre) ≡ some off
      → view (scan (suc fuel) limit kind scan_from r) ≡ plain_line limit kind (pending r)
  unfolding scan
  scan_found fuel scan_from off r s found =
      let held : List ℕ = drop r.pre_pos r.pre in
      let i : ℕ = scan_from - r.pre_pos + off in
      let at_place : position 10 (drop (scan_from - r.pre_pos) held) ≡ some off =
        ap (position 10) (
          drop-drop r.pre_pos (scan_from - r.pre_pos) r.pre
          ∙ ap (λ (n : ℕ). drop n r.pre) (omega (arith, s.after_used)))
        ∙ found in
      let whole : position 10 held ≡ some i =
        position_from 10 (scan_from - r.pre_pos) off held
          (omega (arith, length-drop r.pre_pos r.pre, s.in_buffer)) s.clear at_place in
      let span : scan_from + off - r.pre_pos ≡ i = omega (arith, s.after_used) in
      let left : drop (i + 1) held ≡ drop (scan_from + off + 1) r.pre =
        drop-drop r.pre_pos (i + 1) r.pre
        ∙ ap (λ (n : ℕ). drop n r.pre) (omega (arith, s.after_used)) in
      ground (
        arith,
        found,
        span,
        left,
        plain_line_found limit kind held (all_bytes r.stream.pieces) r.stream.fails i whole,
      )

  nowhere_held :
      (scan_from : ℕ) (r : ChunkedReader)
      → IsScanned scan_from r
      → position 10 (drop scan_from r.pre) ≡ none
      → position 10 (drop r.pre_pos r.pre) ≡ none
  nowhere_held scan_from r s missing =
      position_nowhere 10 (scan_from - r.pre_pos) (drop r.pre_pos r.pre) s.clear (
        ap (position 10) (
          drop-drop r.pre_pos (scan_from - r.pre_pos) r.pre
          ∙ ap (λ (n : ℕ). drop n r.pre) (omega (arith, s.after_used)))
        ∙ missing)

  view-scan :
      (fuel scan_from : ℕ) (r : ChunkedReader)
      → IsScanned scan_from r
      → length (all_bytes r.stream.pieces) < fuel
      → view (scan fuel limit kind scan_from r) ≡ plain_line limit kind (pending r)
  unfolding scan ended refill
  view-scan zero scan_from r s h = absurd (omega arith)
  view-scan (suc fuel) scan_from r s h = elim (Option-cases (position 10 (drop scan_from r.pre))) [
    | inr (off, found) ↦ scan_found fuel scan_from off r s found
    | inl missing ↦
        let held : List ℕ = drop r.pre_pos r.pre in
        let nowhere = nowhere_held scan_from r s missing in
        let n : length held ≡ length r.pre - r.pre_pos = length-drop r.pre_pos r.pre in
        elim (Bool-cases (ltb limit (length r.pre - r.pre_pos))) [
          | inl long ↦ ground (
            arith,
            missing,
            long,
            plain_line_long limit kind held (all_bytes r.stream.pieces) r.stream.fails nowhere,
          )
          | inr fits ↦ elim (read_cases 4096 r.stream (omega arith)) [
            | broke fails none_left e ↦ ground (
              arith,
              missing,
              fits,
              e,
              fails,
              none_left,
              plain_line_end limit kind held (all_bytes r.stream.pieces) r.stream.fails nowhere
                  (ground (arith, n, fits)) none_left,
            )
            | closed w' fine none_left e ↦ ground (
              arith,
              missing,
              fits,
              e,
              fine,
              none_left,
              plain_line_end limit kind held (all_bytes r.stream.pieces) r.stream.fails nowhere
                  (ground (arith, n, fits)) none_left,
            )
            | block b bs w' e same short keeps ↦
                let next : ChunkedReader = refill r w' (b ∷ bs) in
                let from : ℕ = if ltb 0 r.pre_pos then length r.pre - r.pre_pos else length r.pre in
                let step : view (scan (suc fuel) limit kind scan_from r)
                    ≡ view (scan fuel limit kind from next) =
                  ground (arith, missing, fits, e) in
                step
                ∙ view-scan fuel from next (refill-IsScanned r w' (b ∷ bs) nowhere) (
                    omega (
                      arith,
                      ap (λ (t : List ℕ). length t) same,
                      length-append bs (all_bytes w'.pieces),
                    ))
                ∙ ap (plain_line limit kind) (
                    refill-pending r w' (b ∷ bs)
                    ∙ ap
                        (λ (t : Bool). record {
                          bytes = (held ++ (b ∷ bs)) ++ all_bytes w'.pieces;
                          breaks = t;
                        })
                        keeps
                    ∙ ap (λ (t : List ℕ). record { bytes = t; breaks = r.stream.fails })
                        (append_assoc held (b ∷ bs) (all_bytes w'.pieces)
                          ∙ ap (λ (t : List ℕ). held ++ t) same))
          ]
        ]
  ]

  -- Whatever the pieces in which the input arrives, a line read is the next line of it, or the
  -- error of its end or of a line beyond the limit.
  pub view-read_line :
      (r : ChunkedReader) → view (read_line limit kind r) ≡ plain_line limit kind (pending r)
  unfolding read_line
  view-read_line r = elim (Bool-cases (leb (length r.pre) r.pre_pos)) [
    | inl used ↦
        let fresh : ChunkedReader = record r { pre = []; pre_pos = 0 } in
        let empty : drop r.pre_pos r.pre ≡ [] = drop_all r.pre_pos r.pre (leb→le _ _ used) in
        ap
          (λ (t : ChunkedReader).
            view (scan (suc (length (all_bytes r.stream.pieces))) limit kind t.pre_pos t))
          (ap (λ (c : Bool). if c then fresh else r) used)
        ∙ view-scan (suc (length (all_bytes r.stream.pieces))) 0 fresh
            (record { after_used = omega arith; in_buffer = omega arith; clear = no_bytes [] refl })
            (omega arith)
        ∙ ap
            (λ (t : List ℕ).
              plain_line limit kind
                (record { bytes = t ++ all_bytes r.stream.pieces; breaks = r.stream.fails }))
            (sym empty)
    | inr held ↦
        let width : r.pre_pos - r.pre_pos ≡ 0 = omega arith in
        let none_scanned : take (r.pre_pos - r.pre_pos) (drop r.pre_pos r.pre) ≡ [] =
          ap (λ (n : ℕ). take n (drop r.pre_pos r.pre)) width in
        ap
          (λ (t : ChunkedReader).
            view (scan (suc (length (all_bytes r.stream.pieces))) limit kind t.pre_pos t))
          (ap (λ (c : Bool). if c then record r { pre = []; pre_pos = 0 } else r) held)
        ∙ view-scan (suc (length (all_bytes r.stream.pieces))) r.pre_pos r
            (record {
              after_used = omega arith;
              in_buffer = ground (arith, held);
              clear = no_bytes (take (r.pre_pos - r.pre_pos) (drop r.pre_pos r.pre)) none_scanned;
            })
            (omega arith)
  ]
