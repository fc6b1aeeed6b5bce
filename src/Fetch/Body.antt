-- ===== src/Fetch/Body.antt =====
-- packages/bridge-fetcher/src/http.rs: the reading of a response. The parser of its head is the
-- httparse crate's, and a parameter.
use tor_socks.Base.{
  ℕ, zero, suc, ◌-◌, ◌*◌, Bool, true, false, ◌&&◌, ◌||◌, Option, none, some, List, [], ◌∷◌, ◌++◌,
  map, length, if◌then◌else◌, ◌==◌, ltb, leb, drop, take, min,
}
use tor_socks.OrdMap.{key_eq}
use tor_socks.OrdMap.Text.{Text, text_ord}
use tor_socks.Acl.Parser.{split}
use tor_socks.Socks.Onion.{ascii_lower}
use tor_socks.Fetch.Wire.{Wire, FetchError, Got, got, failed, unfinished, read, all_bytes}
use tor_socks.Fetch.Reader.{ChunkedReader}
use tor_socks.Fetch.Chunked.{before_extension, decode_chunked_body}

-- The errors of a response; those of the framing are `framing`.
pub data ResponseError : Type 0 where
  broken : ResponseError
  http : ResponseError
  too_large : ℕ → ResponseError
  non_200 : ℕ → ResponseError
  incomplete : ℕ → ℕ → ResponseError
  framing : FetchError → ResponseError

-- What httparse says of the head of a response, when it is there.
pub record Head : Type 0 where
  pub code : Option ℕ
  pub headers : List (Text × Text)
  pub length_of_head : ℕ

pub record HttpResponse : Type 0 where
  pub status : ℕ
  pub location : Option Text
  pub content_length : Option ℕ
  pub chunked : Bool
  pub header_len : ℕ

pub data ResponseBody : Type 0 where
  text : Text → ResponseBody
  redirect : Text → ResponseBody

-- `finished`, or `out_of_fuel` when the fuel ran out.
pub data Answer (A : Type 0) : Type 0 where
  answer : A → Answer A
  refused : ResponseError → Answer A
  out_of_fuel : Answer A

abbrev pub read_buf_size : ℕ
read_buf_size = 8192

abbrev pub eq_ignore_ascii_case : Text → Text → Bool
eq_ignore_ascii_case a b = key_eq (map ascii_lower a) (map ascii_lower b)

abbrev location_name : Text
location_name = 108 ∷ 111 ∷ 99 ∷ 97 ∷ 116 ∷ 105 ∷ 111 ∷ 110 ∷ []

abbrev content_length_name : Text
content_length_name =
    99 ∷ 111 ∷ 110 ∷ 116 ∷ 101 ∷ 110 ∷ 116 ∷ 45 ∷ 108 ∷ 101 ∷ 110 ∷ 103 ∷ 116 ∷ 104 ∷ []

abbrev transfer_encoding_name : Text
transfer_encoding_name =
    116 ∷ 114 ∷ 97 ∷ 110 ∷ 115 ∷ 102 ∷ 101 ∷ 114 ∷ 45 ∷ 101 ∷ 110 ∷ 99 ∷ 111 ∷ 100 ∷ 105 ∷ 110 ∷ 103
    ∷ []

abbrev chunked_name : Text
chunked_name = 99 ∷ 104 ∷ 117 ∷ 110 ∷ 107 ∷ 101 ∷ 100 ∷ []

unfoldable pub any : (Text → Bool) → List Text → Bool
any p [] = false
any p (c ∷ cs) = p c || any p cs

-- The loop over the body without a length.
unfoldable pub read_to_end : ℕ → ℕ → Text → Wire → Answer Text
read_to_end max_body zero body stream = out_of_fuel
read_to_end max_body (suc fuel) body stream = elim (read read_buf_size stream) [
  | none ↦ refused broken
  | some ([], stream') ↦ answer body
  | some (b ∷ bs, stream') ↦
      if ltb max_body (length (body ++ (b ∷ bs)))
      then refused (too_large max_body)
      else read_to_end max_body fuel (body ++ (b ∷ bs)) stream'
]

-- The loop over the body of `cl` bytes.
unfoldable pub read_length : ℕ → ℕ → Text → Wire → Answer Text
read_length cl zero body stream = out_of_fuel
read_length cl (suc fuel) body stream =
    if leb cl (length body)
    then answer body
    else elim (read (min read_buf_size (cl - length body)) stream) [
      | none ↦ refused broken
      | some ([], stream') ↦ refused (incomplete cl (length body))
      | some (b ∷ bs, stream') ↦ read_length cl fuel (body ++ (b ∷ bs)) stream'
    ]

-- The bytes of the stream bound the turns of each loop.
abbrev pub turns : Wire → ℕ
turns stream = suc (length (all_bytes stream.pieces))

-- `parse_head` gives `none` for an error and `some none` for a head that is not complete. The lossy
-- reading of UTF-8, its test, `trim` and the reading of a number are the standard library's.
module _ (parse_head : Text → Option (Option Head)) (lossy : Text → Text) (is_utf8 : Text → Bool)
    (trim : Text → Text) (parse_usize : Text → Option ℕ) where
  -- Whether a coding in the list is `chunked`, whatever its parameters.
  unfoldable pub has_chunked : Text → Bool
  unfolding before_extension split any
  has_chunked value =
      any (λ c. eq_ignore_ascii_case (trim (before_extension c)) chunked_name) (split 44 value)

  -- A turn of the loop over the headers.
  unfoldable pub read_header : Text → Text → HttpResponse → HttpResponse
  unfolding has_chunked
  read_header name value r =
      let r1 =
        if eq_ignore_ascii_case name location_name
        then record r { location = some (lossy value) }
        else r in
      let r2 =
        if eq_ignore_ascii_case name content_length_name && is_utf8 value
        then record r1 { content_length = parse_usize (trim value) }
        else r1 in
      if eq_ignore_ascii_case name transfer_encoding_name && (is_utf8 value && has_chunked value)
      then record r2 { chunked = true }
      else r2

  unfoldable pub read_headers : List (Text × Text) → HttpResponse → HttpResponse
  unfolding read_header
  read_headers [] r = r
  read_headers ((name, value) ∷ headers) r = read_headers headers (read_header name value r)

  unfoldable pub parse_response_headers : Text → Option (Option HttpResponse)
  unfolding read_headers
  parse_response_headers buf = elim (parse_head buf) [
    | none ↦ none
    | some none ↦ some none
    | some (some head) ↦ elim head.code [
      | none ↦ none
      | some status ↦ some (
          some (
            read_headers head.headers (record {
              status = status;
              location = none;
              content_length = none;
              chunked = false;
              header_len = head.length_of_head;
            })))
    ]
  ]

  -- What a turn does with what it read behind `buf`.
  abbrev pub head_turn :
      (Text → Wire → Answer (HttpResponse × Text × Wire))
      → Text
      → Option (Text × Wire)
      → Answer (HttpResponse × Text × Wire)
  head_turn rest buf none = refused broken
  head_turn rest buf (some ([], stream)) = refused http
  head_turn rest buf (some (b ∷ bs, stream)) = elim (parse_response_headers (buf ++ (b ∷ bs))) [
    | none ↦ refused http
    | some none ↦ rest (buf ++ (b ∷ bs)) stream
    | some (some info) ↦ answer (info, buf ++ (b ∷ bs), stream)
  ]

  -- The loop over the head, with the buffer's size and what is read: the response, and what is left.
  unfoldable pub read_head : ℕ → ℕ → ℕ → Text → Wire → Answer (HttpResponse × Text × Wire)
  unfolding parse_response_headers
  read_head max_body zero size buf stream = out_of_fuel
  read_head max_body (suc fuel) size buf stream =
      let size' = if leb size (length buf) then size * 2 else size in
      elim (leb size (length buf) && ltb max_body size') [
        | true ↦ refused (too_large max_body)
        | false ↦
            head_turn (λ buf' stream'. read_head max_body fuel size' buf' stream') buf
              (read (size' - length buf) stream)
      ]

  unfoldable pub of_framing : Got ChunkedReader Text → Answer Text
  of_framing (got body r) = answer body
  of_framing (failed e) = refused (framing e)
  of_framing unfinished = out_of_fuel

  -- The body of a response, of which `preloaded` came with the head.
  unfoldable pub read_body : ℕ → HttpResponse → Text → Wire → Answer Text
  unfolding of_framing read_length read_to_end
  read_body max_body info preloaded stream =
      if info.chunked
      then of_framing (decode_chunked_body is_utf8 trim stream preloaded max_body)
      else elim info.content_length [
        | some cl ↦
            if ltb max_body cl
            then refused (too_large max_body)
            else read_length cl (turns stream) (take cl preloaded) stream
        | none ↦
            if ltb max_body (length preloaded)
            then refused (too_large max_body)
            else read_to_end max_body (turns stream) preloaded stream
      ]

  abbrev pub is_redirect : ℕ → Bool
  is_redirect status = (status == 301 || status == 302) || (status == 307 || status == 308)

  -- What follows the head.
  unfoldable pub after_head : ℕ → HttpResponse → Text → Wire → Answer ResponseBody
  unfolding read_body
  after_head max_body info buf stream =
      if is_redirect info.status
      then elim info.location [ some loc ↦ answer (redirect loc) | none ↦ refused http ]
      else if info.status == 200
      then elim (read_body max_body info (drop info.header_len buf) stream) [
        | answer body ↦ if is_utf8 body then answer (text body) else refused http
        | refused e ↦ refused e
        | out_of_fuel ↦ out_of_fuel
      ]
      else refused (non_200 info.status)

  unfoldable pub read_http_response : ℕ → Wire → Answer ResponseBody
  unfolding read_head after_head
  read_http_response max_body stream =
      elim (read_head max_body (turns stream) read_buf_size [] stream) [
        | answer (info, buf, stream') ↦ after_head max_body info buf stream'
        | refused e ↦ refused e
        | out_of_fuel ↦ out_of_fuel
      ]
