-- ===== src/Dns/Ageing.antt =====
-- packages/dns-server/src/cache/cache.rs: the lifetime of an answer only shrinks.
use tor_socks.Base.{
  ℕ, ◌≤◌, ◌<◌, ◌≡◌, subst, inl, inr, false, some, List, [], ◌∷◌, arith, if◌then◌else◌, All,
  Option-cases,
}
use tor_socks.OrdMap.{KeyOrd, lookup}
use tor_socks.Dns.Cache.{
  CacheItem, Query, wall_age, age, remaining, is_expired, touch, find_same, get_entry, duration_max,
}

-- A touched entry lives as long as before at the instant of the touch, and never longer at a
-- later instant, whatever wall time says then.
touch-shrinks :
    (e : CacheItem) (now instant later instant' : ℕ)
    → e.ttl ≤ duration_max
    → instant ≤ instant'
    → remaining (touch e now instant) later instant' ≤ remaining e now instant
unfolding remaining touch age wall_age
touch-shrinks e now instant later instant' h k = ground arith

touch-remaining :
    (e : CacheItem) (now instant : ℕ)
    → e.ttl ≤ duration_max
    → remaining (touch e now instant) now instant ≡ remaining e now instant
unfolding remaining touch age wall_age
touch-remaining e now instant h = ground arith

module _ {K : Type 0} where
  -- Every lifetime is a `Duration`.
  abbrev pub IsTimed : List (K × CacheItem) → Type 0
  IsTimed = All λ p. p.1.ttl ≤ duration_max

lookup_timed :
    {K : Type 0} ⦃o : KeyOrd K⦄ (k : K) (m : List (K × CacheItem)) (e : CacheItem)
    → IsTimed m
    → lookup k m ≡ some e
    → e.ttl ≤ duration_max
unfolding lookup
lookup_timed k [] e t h = absurd (ground arith)
lookup_timed k ((j, d) ∷ m) e t h = ground (arith, lookup_timed k m e t.1, t.0)

module _ {L : Type 0} ⦃o : KeyOrd L⦄ where
  find_same_timed :
      (query : Query L) (m : List (Query L × CacheItem)) (e : CacheItem)
      → IsTimed m
      → find_same query m ≡ some e
      → e.ttl ≤ duration_max
  unfolding find_same
  find_same_timed query [] e t h = absurd (ground arith)
  find_same_timed query ((j, d) ∷ m) e t h = ground (arith, find_same_timed query m e t.1, t.0)

-- The answer `d` of a read at `now` and `instant` is alive, and lives no longer at any later
-- instant, whatever wall time says then.
pub record Shrinks (d : CacheItem) (now instant : ℕ) : Type 0 where
  pub alive : 0 < remaining d now instant
  pub shrinks :
      (later instant' : ℕ)
      → instant ≤ instant'
      → remaining d later instant' ≤ remaining d now instant

touched-Shrinks :
    (e : CacheItem) (now instant : ℕ)
    → e.ttl ≤ duration_max
    → is_expired e now instant ≡ false
    → Shrinks (touch e now instant) now instant
unfolding is_expired
touched-Shrinks e now instant h live = record {
  alive = rw (touch-remaining e now instant h) (ground arith);
  shrinks = λ later instant' k.
      rw (touch-remaining e now instant h) (touch-shrinks e now instant later instant' h k);
}

module _ {L : Type 0} ⦃o : KeyOrd L⦄ ⦃q : KeyOrd (Query L)⦄ where
  found_timed :
      (entries : List (Query L × CacheItem)) (query : Query L) (e : CacheItem)
      → IsTimed entries
      → (if query.name.is_fqdn then lookup query entries else find_same query entries) ≡ some e
      → e.ttl ≤ duration_max
  found_timed entries query e timed h =
      ground (arith, lookup_timed query entries e timed, find_same_timed query entries e timed)

  -- What a read answers with was found alive, and touched.
  get_entry_touched :
      (entries : List (Query L × CacheItem)) (query : Query L) (now instant : ℕ) (d : CacheItem)
      → (get_entry entries query now instant).0 ≡ some d
      → (e : CacheItem) × ((if query.name.is_fqdn
            then lookup query entries
            else find_same query entries)
          ≡ some e)
        × (is_expired e now instant ≡ false)
        × (touch e now instant ≡ d)
  unfolding get_entry
  get_entry_touched entries query now instant d h =
      elim (Option-cases
        (if query.name.is_fqdn then lookup query entries else find_same query entries)) [
          | inl unknown ↦ absurd (ground (arith, unknown))
          | inr (e, found) ↦
              let kept : (is_expired e now instant ≡ false) × (touch e now instant ≡ d) =
                ground (arith, found) in
              (e, found, kept.0, kept.1)
        ]

  -- If every lifetime is a `Duration`, an answer that is read is alive, and lives no longer at any
  -- later instant, whatever wall time says then.
  pub get_entry-Shrinks :
      (entries : List (Query L × CacheItem)) (query : Query L) (now instant : ℕ) (d : CacheItem)
      → IsTimed entries
      → (get_entry entries query now instant).0 ≡ some d
      → Shrinks d now instant
  get_entry-Shrinks entries query now instant d timed h =
      let (e, found, live, same) = get_entry_touched entries query now instant d h in
      subst (λ (c : CacheItem). Shrinks c now instant) same
        (touched-Shrinks e now instant (found_timed entries query e timed found) live)
