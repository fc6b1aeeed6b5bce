-- ===== src/Fetch/Tests.antt =====
-- A chunked body in three pieces, and the theorems on its decoding.
use tor_socks.Base.{
  ℕ, ◌≡◌, refl, Bool, true, false, Option, none, some, List, [], ◌∷◌, ◌++◌, arith, if◌then◌else◌,
  ◌==◌, drop,
}
use tor_socks.OrdMap.Text.{Text, text_ord, text_cmp}
use tor_socks.Fetch.Dedup.{IsDedup, dedup_bridges, dedup_loop, dedup_bridges-IsDedup}
use tor_socks.Socks.Onion.{ascii_lower}
use tor_socks.Fetch.Target.{
  Url, UrlTarget, parse_https_url, target_of, trim_start, trim_end, bracketed_if_ipv6,
}
use tor_socks.Fetch.Body.{
  Head, read_http_response, read_head, parse_response_headers, read_headers, read_header,
  has_chunked, after_head, read_body, read_to_end,
}
use tor_socks.Fetch.Loop.{
  Peer, Request, Fetched, page, fetch_one_inner, fetch_hops, next_url, hop_request, starts_with,
}
use tor_socks.Fetch.Wire.{Wire, all_bytes, got, read, read_pieces}
use tor_socks.Fetch.Reader.{position}
use tor_socks.Fetch.Plain.{view}
use tor_socks.Fetch.Chunked.{
  chunk_size, decode_chunked_body, before_extension, from_str_radix, hex_digits, hex_value,
}
use tor_socks.Fetch.Pieces.{decode_input, decode_chunked_body_lem}
use tor_socks.Fetch.Total.{IsWithin, decode_chunked_body-IsWithin}
use tor_socks.Fetch.Framed.{Chunk, frame, IsSizeLine, IsChunk, decode_chunked_body-frame}

abbrev all_utf8 : List ℕ → Bool
all_utf8 s = true

abbrev no_trim : List ℕ → List ℕ
no_trim s = s

-- The chunk `abc` and what follows it, `!`.
abbrev abc : Chunk
abc = record { size_line = 51 ∷ []; piece = 97 ∷ 98 ∷ 99 ∷ [] }

abbrev early : List ℕ
early = 51 ∷ 13 ∷ []

abbrev arriving : Wire
arriving = record {
  pieces = (10 ∷ 97 ∷ 98 ∷ []) ∷ [] ∷ (99 ∷ 13 ∷ 10 ∷ 48 ∷ 13 ∷ 10 ∷ 13 ∷ 10 ∷ 33 ∷ []) ∷ [];
  fails = false;
}

abc-IsChunk : IsChunk all_utf8 no_trim abc
unfolding chunk_size before_extension from_str_radix hex_digits hex_value position
abc-IsChunk = record {
  sized = record { one_line = refl; short = omega arith; reads = λ p. refl };
  more = omega arith;
}

zero-IsSizeLine : IsSizeLine all_utf8 no_trim (48 ∷ []) 0
unfolding chunk_size before_extension from_str_radix hex_digits hex_value position
zero-IsSizeLine = record { one_line = refl; short = omega arith; reads = λ p. refl }

arrives : early ++ all_bytes arriving.pieces ≡ frame (abc ∷ []) (48 ∷ []) (33 ∷ [])
unfolding all_bytes
arrives = refl

decode_chunked_body-frame_example :
    view (decode_chunked_body all_utf8 no_trim arriving early 10)
    ≡ got (97 ∷ 98 ∷ 99 ∷ []) (record { bytes = 33 ∷ []; breaks = false })
decode_chunked_body-frame_example =
    decode_chunked_body-frame all_utf8 no_trim arriving early 10 (abc ∷ []) (48 ∷ []) (33 ∷ [])
      arrives zero-IsSizeLine (abc-IsChunk, tt) (omega arith) (omega arith)

decode_chunked_body_lem_example :
    view (decode_chunked_body all_utf8 no_trim arriving early 10)
    ≡ decode_input all_utf8 no_trim (early ++ all_bytes arriving.pieces) false 10
decode_chunked_body_lem_example = decode_chunked_body_lem all_utf8 no_trim arriving early 10

decode_chunked_body-IsWithin_example :
    IsWithin 2 (view (decode_chunked_body all_utf8 no_trim arriving early 2))
decode_chunked_body-IsWithin_example =
    decode_chunked_body-IsWithin all_utf8 no_trim arriving early 2

-- Lines with an identity and a certificate.
abbrev identity : ℕ × ℕ → Text
identity line = line.0 ∷ []

abbrev three_lines : List (ℕ × ℕ)
three_lines = (1, 7) ∷ (2, 8) ∷ (1, 9) ∷ []

three_lines_lem : dedup_bridges identity three_lines ≡ ((1, 7) ∷ (2, 8) ∷ [], 1)
unfolding dedup_bridges dedup_loop text_cmp
three_lines_lem = refl

dedup_bridges-IsDedup_example : IsDedup identity [] three_lines (dedup_bridges identity three_lines)
dedup_bridges-IsDedup_example = dedup_bridges-IsDedup identity three_lines

-- A URL is `https://` and a host; a response is a byte 1 for a redirect to the host 98, or a byte 2
-- and a page.
abbrev url_of : ℕ → Text
url_of host = 104 ∷ 116 ∷ 116 ∷ 112 ∷ 115 ∷ 58 ∷ 47 ∷ 47 ∷ host ∷ []

abbrev toy_url : Text → Option Url
toy_url s = some (record {
  scheme = 104 ∷ 116 ∷ 116 ∷ 112 ∷ 115 ∷ [];
  host_str = some (drop 8 s);
  url_port = none;
  port_or_known_default = some 443;
  path = [];
  query = none;
})

abbrev no_ipv6 : Text → Option Text
no_ipv6 s = none

abbrev decimal : ℕ → Text
decimal n = n ∷ []

abbrev toy_head : Text → Option (Option Head)
toy_head [] = some none
toy_head (c ∷ s) =
    if c == 1
    then some (
        some (record {
          code = some 301;
          headers = (76 ∷ 111 ∷ 99 ∷ 97 ∷ 116 ∷ 105 ∷ 111 ∷ 110 ∷ [], url_of 98) ∷ [];
          length_of_head = 1;
        }))
    else some (some (record { code = some 200; headers = []; length_of_head = 1 }))

abbrev toy_connect : ℕ → Text → ℕ → Option Peer
toy_connect hop host port = some (record {
  stream = record { pieces = ((if hop == 0 then 1 else 2) ∷ 120 ∷ 121 ∷ []) ∷ []; fails = false };
  takes_request = true;
})

abbrev toy_usize : Text → Option ℕ
toy_usize s = none

abbrev first_target : UrlTarget
first_target = record {
  dial_host = 97 ∷ [];
  port = 443;
  host_header = 97 ∷ [];
  path_and_query = 47 ∷ [];
}

abbrev toy_fetch : List Request × Fetched
toy_fetch =
    fetch_one_inner toy_url no_ipv6 decimal no_trim toy_connect
      (read_http_response toy_head no_trim all_utf8 no_trim toy_usize 100) ((65 ∷ []) ∷ [])
      ((66 ∷ []) ∷ []) false (url_of 97)

-- The fetch is redirected to another origin, and gives its page.
toy_page : toy_fetch.1 ≡ page (120 ∷ 121 ∷ [])
unfolding fetch_one_inner fetch_hops parse_https_url target_of trim_start trim_end bracketed_if_ipv6
    next_url hop_request starts_with read_http_response read_head parse_response_headers
    read_headers read_header has_chunked after_head read_body read_to_end read read_pieces text_cmp
    ascii_lower
toy_page = refl
