-- ===== src/Dns/Overrides.antt =====
-- packages/dns-server/src/overrides/overrides.rs: the patterns of host names and the upstreams that
-- they choose, with the check that an upstream is not this server. An index into a text is the
-- suffix that starts there.
use tor_socks.Base.{
  drop, ◌/◌, ℕ, zero, suc, ◌^◌, ◌+◌, ◌*◌, Bool, true, false, ◌&&◌, ◌||◌, Option, none, some, List,
  [], ◌∷◌, map, length, if◌then◌else◌, ◌==◌, leb,
}
use tor_socks.OrdMap.Text.{Text}
use tor_socks.Acl.Rule.{IpAddr, v4, v6, to_ipv4_mapped}
use tor_socks.Acl.Endpoint.{SocketAddr, ip_of, port_of}

pub data OverrideResolver : Type 0 where
  system : OverrideResolver
  server : SocketAddr → OverrideResolver

pub record DnsOverride : Type 0 where
  pub pattern : Text
  pub resolver : OverrideResolver

-- `to_ascii_lowercase`
unfoldable pub to_lower : ℕ → ℕ
to_lower c = if leb 65 c && leb c 90 then c + 32 else c

-- The rest of a pattern is stars.
unfoldable pub all_stars : Text → Bool
all_stars [] = true
all_stars (x ∷ p) = x == 42 && all_stars p

-- The pattern after the last star, and the host from where that star's match ends.
abbrev pub Star : Type 0
Star = Option (Text × Text)

-- After a mismatch the star's match is longer by one byte.
abbrev pub resume : Star → (Text → Text → Star → Option Bool) → Option Bool
resume none again = some false
resume (some (p, s)) again = again p (drop 1 s) (some (p, drop 1 s))

-- The loop of `matches`.
unfoldable pub scan_host : ℕ → Text → Text → Star → Option Bool
unfolding all_stars
scan_host zero p s star = none
scan_host (suc fuel) p [] star = some (all_stars p)
scan_host (suc fuel) [] (c ∷ s) star = resume star (scan_host fuel)
scan_host (suc fuel) (x ∷ p) (c ∷ s) star = elim (x == 42) [
  | true ↦ scan_host fuel p (c ∷ s) (some (p, c ∷ s))
  | false ↦ elim (x == c) [ true ↦ scan_host fuel p s star | false ↦ resume star (scan_host fuel) ]
]

-- `none` would be a loop that has not ended.
unfoldable pub host_matches : Text → Text → Option Bool
host_matches pattern host =
    scan_host (suc (length host * suc (length pattern) + length pattern)) (map to_lower pattern)
      (map to_lower host) none

unfoldable pub find_override : List DnsOverride → Text → Option DnsOverride
find_override [] host = none
find_override (entry ∷ overrides) host =
    let rest = find_override overrides host in
    elim (host_matches entry.pattern host) [ some true ↦ some entry | _ ↦ rest ]

unfoldable pub canonical_ip : IpAddr → IpAddr
canonical_ip (v4 a) = v4 a
canonical_ip (v6 a) = elim (to_ipv4_mapped a) [ some b ↦ v4 b | none ↦ v6 a ]

unfoldable pub same_ip : IpAddr → IpAddr → Bool
same_ip (v4 a) (v4 b) = a == b
same_ip (v6 a) (v6 b) = a == b
same_ip _ _ = false

unfoldable pub is_unspecified : IpAddr → Bool
is_unspecified (v4 a) = a == 0
is_unspecified (v6 a) = a == 0

unfoldable pub is_loopback : IpAddr → Bool
is_loopback (v4 a) = a / 2 ^ 24 == 127
is_loopback (v6 a) = a == 1

abbrev same_family : IpAddr → IpAddr → Bool
same_family (v4 a) (v4 b) = true
same_family (v6 a) (v6 b) = true
same_family _ _ = false

-- The listener would receive what is sent to the upstream.
unfoldable pub covers_target : SocketAddr → IpAddr → IpAddr → SocketAddr → Bool
unfolding canonical_ip same_ip is_unspecified is_loopback
covers_target upstream target local listener =
    let bound = canonical_ip (ip_of listener) in
    port_of listener == port_of upstream
    && (same_ip bound target
        || (is_unspecified bound
            && (is_unspecified target || is_loopback target || same_ip target local)
            && same_family bound target))

unfoldable pub self_reference : SocketAddr → List SocketAddr → IpAddr → Bool
unfolding covers_target
self_reference upstream [] route_local = false
self_reference upstream (listener ∷ listeners) route_local =
    let rest = self_reference upstream listeners route_local in
    covers_target upstream (canonical_ip (ip_of upstream)) (canonical_ip route_local) listener
    || rest
