-- ===== src/Fetch/Loop.antt =====
-- packages/bridge-fetcher/src/http.rs: the loop over redirects. The network and TLS are a parameter
-- that gives a connection for a turn of the loop, a host and a port.
use tor_socks.Base.{
  ℕ, zero, suc, ◌+◌, Bool, true, false, ◌&&◌, ◌||◌, Option, none, some, List, [], ◌∷◌, ◌++◌,
  if◌then◌else◌, ◌==◌,
}
use tor_socks.OrdMap.{key_eq}
use tor_socks.OrdMap.Text.{Text, text_ord}
use tor_socks.Fetch.Wire.{Wire}
use tor_socks.Fetch.Target.{Url, UrlTarget, bracketed_if_ipv6, parse_https_url, build_get_request}
use tor_socks.Fetch.Body.{
  ResponseError, ResponseBody, text, redirect, Answer, answer, refused, out_of_fuel,
}

abbrev pub max_redirects : ℕ
max_redirects = 3

-- A connection, and whether the request is written to it.
pub record Peer : Type 0 where
  pub stream : Wire
  pub takes_request : Bool

pub data Fetched : Type 0 where
  page : Text → Fetched
  invalid_url : Fetched
  too_many_redirects : Fetched
  no_connection : Fetched
  unsent : Fetched
  unsupported_location : Fetched
  bad_response : ResponseError → Fetched
  never_ends : Fetched

-- A request to a target.
pub record Request : Type 0 where
  pub target : UrlTarget
  pub bytes : Text

abbrev https_prefix : Text
https_prefix = 104 ∷ 116 ∷ 116 ∷ 112 ∷ 115 ∷ 58 ∷ 47 ∷ 47 ∷ []

unfoldable pub starts_with : Text → Text → Bool
starts_with [] s = true
starts_with (x ∷ p) [] = false
starts_with (x ∷ p) (c ∷ s) = x == c && starts_with p s

-- The origins of two targets are one.
abbrev pub same_origin : UrlTarget → UrlTarget → Bool
same_origin a b = key_eq a.dial_host b.dial_host && a.port == b.port

module _ (parse_url : Text → Option Url) (normal_ipv6 : Text → Option Text) (decimal : ℕ → Text)
    (trim : Text → Text) (connect : ℕ → Text → ℕ → Option Peer)
    (read_response : Wire → Answer ResponseBody) (headers cookies : List Text)
    (is_allowed : Bool) where
  -- The URL that a redirect leads to.
  unfoldable pub next_url : UrlTarget → Text → Option Text
  unfolding starts_with
  next_url target loc =
      if starts_with https_prefix loc
      then some loc
      else if starts_with (47 ∷ []) loc
      then some (
          https_prefix
          ++ (bracketed_if_ipv6 parse_url normal_ipv6 decimal target.dial_host
              ++ (58 ∷ (decimal target.port ++ loc))))
      else none

  -- The request of a turn: without the caller's headers and cookies on another origin than that of
  -- the first URL.
  unfoldable pub hop_request : UrlTarget → UrlTarget → Text
  hop_request original target =
      if is_allowed || same_origin target original
      then build_get_request trim target.host_header target.path_and_query headers cookies
      else build_get_request trim target.host_header target.path_and_query [] []

  -- What a turn does when its request is sent; `again` follows a redirect.
  abbrev pub after_request :
      UrlTarget
      → Text
      → Answer ResponseBody
      → (Text → List Request × Fetched)
      → List Request × Fetched
  after_request target bytes out_of_fuel again =
      (record { target = target; bytes = bytes } ∷ [], never_ends)
  after_request target bytes (refused e) again =
      (record { target = target; bytes = bytes } ∷ [], bad_response e)
  after_request target bytes (answer (text body)) again =
      (record { target = target; bytes = bytes } ∷ [], page body)
  after_request target bytes (answer (redirect loc)) again = elim (next_url target loc) [
    | none ↦ (record { target = target; bytes = bytes } ∷ [], unsupported_location)
    | some next ↦
        let (sent, result) = again next in
        (record { target = target; bytes = bytes } ∷ sent, result)
  ]

  -- The turns that are left, the turn and its URL: the requests that were sent, and the result.
  unfoldable pub fetch_hops : UrlTarget → ℕ → ℕ → Text → List Request × Fetched
  unfolding next_url hop_request
  fetch_hops original zero hop url = ([], too_many_redirects)
  fetch_hops original (suc left) hop url =
      elim (parse_https_url parse_url normal_ipv6 decimal url) [
        | none ↦ ([], invalid_url)
        | some target ↦ elim (connect hop target.dial_host target.port) [
          | none ↦ ([], no_connection)
          | some peer ↦
              if peer.takes_request
              then after_request target (hop_request original target) (read_response peer.stream)
                  (λ next. fetch_hops original left (hop + 1) next)
              else ([], unsent)
        ]
      ]

  unfoldable pub fetch_one_inner : Text → List Request × Fetched
  unfolding fetch_hops
  fetch_one_inner url = elim (parse_https_url parse_url normal_ipv6 decimal url) [
    | none ↦ ([], invalid_url)
    | some original ↦ fetch_hops original max_redirects 0 url
  ]
