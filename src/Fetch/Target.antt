-- ===== src/Fetch/Target.antt =====
-- packages/bridge-fetcher: parse/url_parse.rs, and the request of http.rs. The parser of URLs is the
-- url crate's, and a parameter.
use tor_socks.Base.{
  ℕ, not, ◌||◌, Option, none, some, List, [], ◌∷◌, ◌++◌, if◌then◌else◌, ◌==◌, keep_if,
}
use tor_socks.OrdMap.{key_eq}
use tor_socks.OrdMap.Text.{Text, text_ord}

-- What the url crate says of a URL.
pub record Url : Type 0 where
  pub scheme : Text
  pub host_str : Option Text
  pub url_port : Option ℕ
  pub port_or_known_default : Option ℕ
  pub path : Text
  pub query : Option Text

pub record UrlTarget : Type 0 where
  pub dial_host : Text
  pub port : ℕ
  pub host_header : Text
  pub path_and_query : Text

abbrev https : Text
https = 104 ∷ 116 ∷ 116 ∷ 112 ∷ 115 ∷ []

-- `trim_start_matches` and `trim_end_matches` of a byte.
unfoldable pub trim_start : ℕ → Text → Text
trim_start x [] = []
trim_start x (c ∷ s) = let rest = trim_start x s in if c == x then rest else c ∷ s

unfoldable pub trim_end : ℕ → Text → Text
trim_end x [] = []
trim_end x (c ∷ s) = elim (trim_end x s) [ [] ↦ if c == x then [] else c ∷ [] | d ∷ t ↦ c ∷ d ∷ t ]

-- The parser of IPv6 literals gives their normal form; `decimal` writes a number.
module _ (parse_url : Text → Option Url) (normal_ipv6 : Text → Option Text)
    (decimal : ℕ → Text) where
  unfoldable pub bracketed_if_ipv6 : Text → Text
  bracketed_if_ipv6 dial_host = elim (normal_ipv6 dial_host) [
    | some v6 ↦ 91 ∷ (v6 ++ (93 ∷ []))
    | none ↦ dial_host
  ]

  abbrev pub with_query : Text → Option Text → Text
  with_query path none = path
  with_query path (some query) = path ++ (63 ∷ query)

  -- The target of a URL with a host and a port.
  unfoldable pub target_of : Url → Text → ℕ → UrlTarget
  unfolding trim_start trim_end bracketed_if_ipv6
  target_of url host port =
      let dial_host = trim_end 93 (trim_start 91 host) in
      let bracketed = bracketed_if_ipv6 dial_host in
      record {
        dial_host = dial_host;
        port = port;
        host_header = elim url.url_port [
          | some p ↦ bracketed ++ (58 ∷ decimal p)
          | none ↦ bracketed
        ];
        path_and_query = with_query (elim url.path [ [] ↦ 47 ∷ [] | c ∷ cs ↦ c ∷ cs ]) url.query;
      }

  -- `none` is the error for a URL that is not one to fetch.
  unfoldable pub parse_https_url : Text → Option UrlTarget
  unfolding target_of
  parse_https_url text = elim (parse_url text) [
    | none ↦ none
    | some url ↦
        if key_eq url.scheme https
        then elim url.host_str [
          | none ↦ none
          | some host ↦ elim url.port_or_known_default [
            | none ↦ none
            | some port ↦ some (target_of url host port)
          ]
        ]
        else none
  ]

-- The fixed parts of the request: `GET `, the version with `Host: `, the lines that every request
-- has, and `Cookie: `.
abbrev get_line : Text
get_line = 71 ∷ 69 ∷ 84 ∷ 32 ∷ []

abbrev host_line : Text
host_line =
    32 ∷ 72 ∷ 84 ∷ 84 ∷ 80 ∷ 47 ∷ 49 ∷ 46 ∷ 49 ∷ 13 ∷ 10 ∷ 72 ∷ 111 ∷ 115 ∷ 116 ∷ 58 ∷ 32 ∷ []

abbrev fixed_lines : Text
fixed_lines =
    13 ∷ 10 ∷ 67 ∷ 111 ∷ 110 ∷ 110 ∷ 101 ∷ 99 ∷ 116 ∷ 105 ∷ 111 ∷ 110 ∷ 58 ∷ 32 ∷ 99 ∷ 108 ∷ 111
    ∷ 115 ∷ 101 ∷ 13 ∷ 10 ∷ 85 ∷ 115 ∷ 101 ∷ 114 ∷ 45 ∷ 65 ∷ 103 ∷ 101 ∷ 110 ∷ 116 ∷ 58 ∷ 32 ∷ 116
    ∷ 111 ∷ 114 ∷ 45 ∷ 115 ∷ 111 ∷ 99 ∷ 107 ∷ 115 ∷ 53 ∷ 47 ∷ 48 ∷ 46 ∷ 49 ∷ 13 ∷ 10 ∷ 65 ∷ 99 ∷ 99
    ∷ 101 ∷ 112 ∷ 116 ∷ 58 ∷ 32 ∷ 42 ∷ 47 ∷ 42 ∷ 13 ∷ 10 ∷ []

abbrev cookie_line : Text
cookie_line = 67 ∷ 111 ∷ 111 ∷ 107 ∷ 105 ∷ 101 ∷ 58 ∷ 32 ∷ []

-- `trim` is the standard library's.
module _ (trim : Text → Text) where
  unfoldable pub sanitize_header_value : Text → Text
  sanitize_header_value s = trim (keep_if (λ c. not (c == 13 || c == 10)) s)

  unfoldable pub header_lines : List Text → Text
  unfolding sanitize_header_value
  header_lines [] = []
  header_lines (h ∷ headers) =
      let rest = header_lines headers in
      elim (sanitize_header_value h) [ [] ↦ rest | c ∷ line ↦ c ∷ (line ++ (13 ∷ 10 ∷ rest)) ]

  unfoldable pub cookie_jar : List Text → List Text
  unfolding sanitize_header_value
  cookie_jar [] = []
  cookie_jar (c ∷ cookies) =
      let rest = cookie_jar cookies in
      elim (sanitize_header_value c) [ [] ↦ rest | x ∷ cookie ↦ (x ∷ cookie) ∷ rest ]

  -- Joined by a semicolon and a space.
  unfoldable pub joined : List Text → Text
  joined [] = []
  joined (c ∷ []) = c
  joined (c ∷ d ∷ cookies) = c ++ (59 ∷ 32 ∷ joined (d ∷ cookies))

  abbrev cookies_of : List Text → Text
  cookies_of [] = []
  cookies_of (c ∷ jar) = cookie_line ++ (joined (c ∷ jar) ++ (13 ∷ 10 ∷ []))

  unfoldable pub build_get_request : Text → Text → List Text → List Text → Text
  unfolding header_lines cookie_jar joined
  build_get_request host path headers cookies =
      get_line
      ++ (path
          ++ (host_line
              ++ (host
                  ++ (fixed_lines
                      ++ (header_lines headers
                          ++ (cookies_of (cookie_jar cookies) ++ (13 ∷ 10 ∷ [])))))))
