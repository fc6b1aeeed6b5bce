-- ===== src/Fetch/Bounded.antt =====
-- packages/bridge-fetcher/src/http.rs: the reading of a response ends, within its limit.
use tor_socks.Base.{
  ℕ, zero, suc, ◌-◌, ◌*◌, ◌≤◌, ◌<◌, ap, inl, inr, Bool, true, false, ◌&&◌, Option, [], ◌∷◌, ◌++◌,
  arith, length, if◌then◌else◌, Bool-cases, Option-cases, ◌==◌, ltb, leb, min, take, length-append,
  drop, length-take,
}
use tor_socks.OrdMap.Text.{Text, text_ord}
use tor_socks.Fetch.Wire.{Wire, Got, got, failed, unfinished, read, all_bytes}
use tor_socks.Fetch.Reader.{ChunkedReader}
use tor_socks.Fetch.Plain.{view, broke, closed, block, read_cases}
use tor_socks.Fetch.Chunked.{decode_chunked_body}
use tor_socks.Fetch.Total.{IsWithin, decode_chunked_body-IsWithin}
use tor_socks.Fetch.Body.{
  Head, HttpResponse, ResponseBody, text, redirect, Answer, answer, refused, out_of_fuel,
  read_buf_size, read_to_end, read_length, turns, of_framing, parse_response_headers, head_turn,
  http, read_head, is_redirect, read_body, after_head, read_http_response, too_large,
}

-- An answer that has come, and that `P` holds of unless it is a refusal.
abbrev pub Comes : {A : Type 0} → (A → Type 0) → Answer A → Type 0
Comes P (answer a) = P a
Comes P (refused e) = Unit
Comes P out_of_fuel = ⊥

-- The body of a page is within the limit.
abbrev pub IsShort : ℕ → ResponseBody → Type 0
IsShort m (text body) = length body ≤ m
IsShort m (redirect loc) = Unit

read_to_end-Comes :
    (m fuel : ℕ) (body : Text) (w : Wire)
    → length body ≤ m
    → length (all_bytes w.pieces) < fuel
    → Comes (λ b. length b ≤ m) (read_to_end m fuel body w)
unfolding read_to_end
read_to_end-Comes m zero body w h f = omega (arith, f)
read_to_end-Comes m (suc fuel) body w h f = elim (read_cases read_buf_size w (omega arith)) [
  | broke _ _ e ↦ rw (e, read_to_end) tt
  | closed w' _ _ e ↦ rw (e, read_to_end) h
  | block b bs w' e left _ _ ↦
      let fewer : length (all_bytes w'.pieces) < fuel =
        omega (arith, f, ap length left, length-append bs (all_bytes w'.pieces)) in
      elim (Bool-cases (ltb m (length (body ++ (b ∷ bs))))) [
        | inl big ↦ rw (e, big, read_to_end) tt
        | inr small ↦
            rw (e, small, read_to_end)
              (read_to_end-Comes m fuel (body ++ (b ∷ bs)) w' (ground (arith, small)) fewer)
      ]
]

read_length-Comes :
    (m cl fuel : ℕ) (body : Text) (w : Wire)
    → cl ≤ m
    → length body ≤ cl
    → length (all_bytes w.pieces) < fuel
    → Comes (λ b. length b ≤ m) (read_length cl fuel body w)
unfolding read_length
read_length-Comes m cl zero body w c h f = omega (arith, f)
read_length-Comes m cl (suc fuel) body w c h f = elim (Bool-cases (leb cl (length body))) [
  | inl full ↦ rw (full) (omega (arith, h, c))
  | inr short ↦
      let room : length body < cl = ground (arith, short) in
      elim (read_cases (min read_buf_size (cl - length body)) w (omega (arith, room))) [
        | broke _ _ e ↦ rw (short, e) tt
        | closed w' _ _ e ↦ rw (short, e) tt
        | block b bs w' e left small _ ↦
            rw (short, e)
              (read_length-Comes m cl fuel (body ++ (b ∷ bs)) w' c
                (omega (arith, small, room, length-append body (b ∷ bs)))
                (omega (arith, f, ap length left, length-append bs (all_bytes w'.pieces))))
      ]
]

module _ (parse_head : Text → Option (Option Head)) (lossy : Text → Text) (is_utf8 : Text → Bool)
    (trim : Text → Text) (parse_usize : Text → Option ℕ) where
  of_framing-Comes :
      (m : ℕ) (g : Got ChunkedReader Text)
      → IsWithin m (view g)
      → Comes (λ b. length b ≤ m) (of_framing parse_head lossy is_utf8 trim parse_usize g)
  unfolding of_framing
  of_framing-Comes m (got body r) h = h
  of_framing-Comes m (failed e) h = tt
  of_framing-Comes m unfinished h = h

  read_body-Comes :
      (m : ℕ) (info : HttpResponse) (preloaded : Text) (w : Wire)
      → Comes
          (λ b. length b ≤ m)
          (read_body parse_head lossy is_utf8 trim parse_usize m info preloaded w)
  unfolding read_body
  read_body-Comes m info preloaded w = elim (Bool-cases info.chunked) [
    | inl e ↦ rw (e) (
        of_framing-Comes m (decode_chunked_body is_utf8 trim w preloaded m)
          (decode_chunked_body-IsWithin is_utf8 trim w preloaded m))
    | inr e ↦ elim (Option-cases info.content_length) [
      | inl f ↦ elim (Bool-cases (ltb m (length preloaded))) [
        | inl big ↦ rw (e, f, big) tt
        | inr small ↦
            rw (e, f, small)
              (read_to_end-Comes m (turns w) preloaded w (ground (arith, small)) (omega arith))
      ]
      | inr (cl, f) ↦ elim (Bool-cases (ltb m cl)) [
        | inl big ↦ rw (e, f, big) tt
        | inr small ↦
            rw (e, f, small)
              (read_length-Comes m cl (turns w) (take cl preloaded) w (ground (arith, small))
                (omega (arith, length-take cl preloaded)) (omega arith))
      ]
    ]
  ]

  head_turn-Comes :
      (m fuel size : ℕ) (buf : Text) (w : Wire)
      → length buf < size
      → length (all_bytes w.pieces) < suc fuel
      → ((buf' : Text) (w' : Wire)
          → length buf' ≤ size
          → length (all_bytes w'.pieces) < fuel
          → Comes
              (λ r. Unit)
              (read_head parse_head lossy is_utf8 trim parse_usize m fuel size buf' w'))
      → Comes
          (λ r. Unit)
          (head_turn parse_head lossy is_utf8 trim parse_usize
            (λ buf' w'. read_head parse_head lossy is_utf8 trim parse_usize m fuel size buf' w')
            buf
            (read (size - length buf) w))
  head_turn-Comes m fuel size buf w room f rest =
      elim (read_cases (size - length buf) w (omega (arith, room))) [
        | broke _ _ e ↦ rw (e, head_turn) tt
        | closed w' _ _ e ↦ rw (e, head_turn) tt
        | block b bs w' e left small _ ↦
            let buf' = buf ++ (b ∷ bs) in
            let more =
              rest buf' w' (omega (arith, small, room, length-append buf (b ∷ bs)))
                (omega (arith, f, ap length left, length-append bs (all_bytes w'.pieces))) in
            rw (e, head_turn)
              (elim (Option-cases
                (parse_response_headers parse_head lossy is_utf8 trim parse_usize buf')) [
                  | inl p ↦ rw (p, head_turn) tt
                  | inr (o, p) ↦ elim (Option-cases o) [
                    | inl q ↦ rw (p, q, head_turn) more
                    | inr (info, q) ↦ rw (p, q, head_turn) tt
                  ]
                ])
      ]

  -- The size of the buffer that a turn reads into.
  abbrev grown : ℕ → Text → ℕ
  grown size buf = if leb size (length buf) then size * 2 else size

  read_head-Comes :
      (m fuel size : ℕ) (buf : Text) (w : Wire)
      → length buf ≤ size
      → 0 < size
      → length (all_bytes w.pieces) < fuel
      → Comes (λ r. Unit) (read_head parse_head lossy is_utf8 trim parse_usize m fuel size buf w)
  unfolding read_head
  read_head-Comes m zero size buf w h p f = omega (arith, f)
  read_head-Comes m (suc fuel) size buf w h p f =
      let room : length buf < grown size buf = ground (arith, h, p) in
      let some_size : 0 < grown size buf = omega (arith, room) in
      turned (leb size (length buf) && ltb m (grown size buf))
        (head_turn parse_head lossy is_utf8 trim parse_usize
          (λ buf' w'.
            read_head parse_head lossy is_utf8 trim parse_usize m fuel (grown size buf) buf' w')
          buf (read (grown size buf - length buf) w))
        (head_turn-Comes m fuel (grown size buf) buf w room f
          (λ buf' w' h' f'. read_head-Comes m fuel (grown size buf) buf' w' h' some_size f'))
    where
      turned :
          (stop : Bool) (a : Answer (HttpResponse × Text × Wire))
          → Comes (λ r. Unit) a
          → Comes
              (λ (r : HttpResponse × Text × Wire). Unit)
              (elim stop [ true ↦ refused (too_large m) | false ↦ a ])
      turned true a h = tt
      turned false a h = h

  after_head-Comes :
      (m : ℕ) (info : HttpResponse) (buf : Text) (w : Wire)
      → Comes (IsShort m) (after_head parse_head lossy is_utf8 trim parse_usize m info buf w)
  unfolding after_head
  after_head-Comes m info buf w =
      elim (Bool-cases (is_redirect parse_head lossy is_utf8 trim parse_usize info.status)) [
        | inl e ↦ elim (Option-cases info.location) [
          | inl f ↦ rw (e, f) tt
          | inr (loc, f) ↦ rw (e, f) tt
        ]
        | inr e ↦ elim (Bool-cases (info.status == 200)) [
          | inl f ↦
              rw (e, f)
                (checked
                  (read_body parse_head lossy is_utf8 trim parse_usize m info
                    (drop info.header_len buf) w)
                  (read_body-Comes m info (drop info.header_len buf) w))
          | inr f ↦ rw (e, f) tt
        ]
      ]
    where
      checked :
          (a : Answer Text)
          → Comes (λ b. length b ≤ m) a
          → Comes (IsShort m) (elim a [
            | answer body ↦ if is_utf8 body then answer (text body) else refused http
            | refused e ↦ refused e
            | out_of_fuel ↦ out_of_fuel
          ])
      checked (answer body) h = elim (Bool-cases (is_utf8 body)) [
        | inl u ↦ rw (u) h
        | inr u ↦ rw (u) tt
      ]
      checked (refused e) h = tt
      checked out_of_fuel h = h

  -- The reading of a response always ends, whatever arrives and in whatever pieces, and the body of
  -- a page that it gives has at most `m` bytes.
  pub read_http_response-Comes :
      (m : ℕ) (w : Wire)
      → Comes (IsShort m) (read_http_response parse_head lossy is_utf8 trim parse_usize m w)
  unfolding read_http_response
  read_http_response-Comes m w =
      go (read_head parse_head lossy is_utf8 trim parse_usize m (turns w) read_buf_size [] w)
        (read_head-Comes m (turns w) read_buf_size [] w (omega arith) (omega arith) (omega arith))
    where
      go :
          (a : Answer (HttpResponse × Text × Wire))
          → Comes (λ r. Unit) a
          → Comes (IsShort m) (elim a [
            | answer (info, buf, stream') ↦
                after_head parse_head lossy is_utf8 trim parse_usize m info buf stream'
            | refused e ↦ refused e
            | out_of_fuel ↦ out_of_fuel
          ])
      go (answer (info, buf, stream')) h = after_head-Comes m info buf stream'
      go (refused e) h = tt
      go out_of_fuel h = h
