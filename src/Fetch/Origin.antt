-- ===== src/Fetch/Origin.antt =====
-- packages/bridge-fetcher/src/http.rs: which requests a fetch sends, and what it gives.
use tor_socks.Base.{ℕ, ◌≤◌, ◌≡◌, Bool, true, false, ◌||◌, Option, some, List, [], length, All}
use tor_socks.OrdMap.Text.{Text, text_ord}
use tor_socks.Fetch.Wire.{Wire}
use tor_socks.Fetch.Target.{Url, UrlTarget, parse_https_url, build_get_request}
use tor_socks.Fetch.Body.{ResponseBody, Answer}
use tor_socks.Fetch.Loop.{Peer, Fetched, page, never_ends, Request, same_origin}

module _ (parse_url : Text → Option Url) (normal_ipv6 : Text → Option Text) (decimal : ℕ → Text)
    (trim : Text → Text) (connect : ℕ → Text → ℕ → Option Peer)
    (read_response : Wire → Answer ResponseBody) (headers cookies : List Text)
    (is_allowed : Bool) where
  -- The request is one to a target of an https URL; on another origin than that of the first URL it
  -- has none of the caller's headers and cookies, unless this is allowed.
  pub record IsCareful (original : UrlTarget) (r : Request) : Type 0 where
    pub parsed : (url : Text) × (parse_https_url parse_url normal_ipv6 decimal url ≡ some r.target)
    pub at_home :
        (is_allowed || same_origin r.target original) ≡ true
        → r.bytes
          ≡ build_get_request trim r.target.host_header r.target.path_and_query headers cookies
    pub abroad :
        (is_allowed || same_origin r.target original) ≡ false
        → r.bytes ≡ build_get_request trim r.target.host_header r.target.path_and_query [] []

  -- A result, with a page within `m` bytes.
  abbrev pub IsResult : ℕ → Fetched → Type 0
  IsResult m (page body) = length body ≤ m
  IsResult m never_ends = ⊥
  IsResult m _ = Unit

  -- At most `n` requests, all careful, and a result.
  pub record IsFetch (m n : ℕ) (original : UrlTarget) (out : List Request × Fetched) : Type 0 where
    pub few : length out.0 ≤ n
    pub careful : All (IsCareful original) out.0
    pub result : IsResult m out.1
