-- ===== src/Dns/Cache.antt =====
-- packages/dns-server/src/cache/cache.rs: cached answers, their ageing, and their admission.
-- The hash map is a list of pairs in its order of iteration. Times are nanoseconds.
use tor_socks.Base.{
  min, max, map_or, keep_if, ℕ, zero, suc, ◌+◌, ◌-◌, Bool, true, not, ◌&&◌, ◌||◌, Option, none,
  some, List, [], ◌∷◌, length, if◌then◌else◌, ◌==◌, ltb, leb,
}
use tor_socks.OrdMap.{KeyOrd, key_eq, lookup, remove}
use tor_socks.OrdMap.Text.{Text}

abbrev pub dns_cache_cap : ℕ
dns_cache_cap = 4096

abbrev pub max_packet : ℕ
max_packet = 65_535

abbrev pub max_payload : ℕ
max_payload = 16_777_216

-- `Duration::MAX`: 2^64 seconds less a nanosecond.
abbrev pub duration_max : ℕ
duration_max = 18_446_744_073_709_551_615_999_999_999

-- A name without its letter case, and whether it is written with the root.
pub record Name (L : Type 0) : Type 0 where
  pub labels : L
  pub is_fqdn : Bool

pub record Query (L : Type 0) : Type 0 where
  pub name : Name L
  pub query_type : ℕ
  pub query_class : ℕ

module _ {L : Type 0} where
  unfoldable pub admitted_query : Query L → Query L
  admitted_query q = record q { name = record q.name { is_fqdn = true } }

  unfoldable pub same_question : ⦃o : KeyOrd L⦄ → Query L → Query L → Bool
  same_question a b =
      key_eq a.name.labels b.name.labels
      && (a.query_type == b.query_type)
      && (a.query_class == b.query_class)

pub record CacheItem : Type 0 where
  pub packet : Text
  pub ttl : ℕ
  pub resolved_at : ℕ
  pub admitted : ℕ
  pub initial_age : ℕ

-- `none` when the stamp is in the future.
unfoldable pub wall_age : ℕ → ℕ → Option ℕ
wall_age stamp now = if ltb now stamp then none else some (now - stamp)

unfoldable pub age : CacheItem → ℕ → ℕ → ℕ
unfolding wall_age
age e now instant =
    max (min (e.initial_age + (instant - e.admitted)) duration_max)
      (map_or 0 (λ a. a) (wall_age e.resolved_at now))

unfoldable pub remaining : CacheItem → ℕ → ℕ → ℕ
unfolding age
remaining e now instant = e.ttl - age e now instant

unfoldable pub is_expired : CacheItem → ℕ → ℕ → Bool
unfolding remaining
is_expired e now instant = remaining e now instant == 0

-- What a read keeps: the greatest age seen, even if wall time jumps back.
unfoldable pub touch : CacheItem → ℕ → ℕ → CacheItem
unfolding age
touch e now instant = record e { initial_age = age e now instant; admitted = instant }

module _ {K : Type 0} where
  -- The bytes of all packets.
  unfoldable pub payload : List (K × CacheItem) → ℕ
  payload [] = 0
  payload ((k, e) ∷ entries) = length e.packet + payload entries

  -- `min_by_key` over the lifetimes: the first of the least.
  unfoldable pub victim : ℕ → ℕ → List (K × CacheItem) → Option (K × CacheItem)
  victim now instant [] = none
  victim now instant ((k, e) ∷ entries) = elim (victim now instant entries) [
    | none ↦ some (k, e)
    | some (j, d) ↦
        if leb (remaining e now instant) (remaining d now instant) then some (k, e) else some (j, d)
  ]

module _ {K : Type 0} ⦃o : KeyOrd K⦄ where
  -- The loop that makes room for a packet of `size` bytes, on fuel.
  unfoldable pub evict : ℕ → ℕ → ℕ → ℕ → List (K × CacheItem) → ℕ → List (K × CacheItem)
  unfolding victim
  evict zero size now instant entries bytes = entries
  evict (suc fuel) size now instant entries bytes =
      if leb dns_cache_cap (length entries) || ltb max_payload (bytes + size)
      then elim (victim now instant entries) [
        | none ↦ entries
        | some (k, e) ↦ elim (lookup k entries) [
          | none ↦ evict fuel size now instant entries bytes
          | some removed ↦
              evict fuel size now instant (remove k entries) (bytes - length removed.packet)
        ]
      ]
      else entries

  -- The entries still alive but for the one under the key.
  unfoldable pub swept : List (K × CacheItem) → K → ℕ → ℕ → List (K × CacheItem)
  unfolding is_expired
  swept entries key now instant =
      remove key (keep_if (λ (p : K × CacheItem). not (is_expired p.1 now instant)) entries)

  unfoldable pub admit : List (K × CacheItem) → K → CacheItem → ℕ → ℕ → List (K × CacheItem)
  unfolding swept evict payload
  admit entries key e now instant =
      let rest = swept entries key now instant in
      (key, e) ∷ evict (length rest) (length e.packet) now instant rest (payload rest)

module _ {L : Type 0} ⦃o : KeyOrd L⦄ where
  -- The first entry for the same question, the root aside.
  unfoldable pub find_same : Query L → List (Query L × CacheItem) → Option CacheItem
  unfolding same_question
  find_same query [] = none
  find_same query ((k, e) ∷ entries) =
      let rest = find_same query entries in if same_question k query then some e else rest

  unfoldable pub replace_same :
      Query L → CacheItem → List (Query L × CacheItem) → List (Query L × CacheItem)
  unfolding same_question
  replace_same query d [] = []
  replace_same query d ((k, e) ∷ entries) =
      let rest = replace_same query d entries in
      if same_question k query then (k, d) ∷ entries else (k, e) ∷ rest

module _ {K : Type 0} ⦃o : KeyOrd K⦄ where
  unfoldable pub replace_key : K → CacheItem → List (K × CacheItem) → List (K × CacheItem)
  replace_key key d [] = []
  replace_key key d ((k, e) ∷ entries) =
      let rest = replace_key key d entries in
      if key_eq key k then (k, d) ∷ entries else (k, e) ∷ rest

module _ {L : Type 0} ⦃o : KeyOrd L⦄ ⦃q : KeyOrd (Query L)⦄ where
  -- The part of a read under the lock: an expired entry goes, a live one is touched.
  unfoldable pub get_entry :
      List (Query L × CacheItem) → Query L → ℕ → ℕ → Option CacheItem × List (Query L × CacheItem)
  unfolding is_expired touch find_same replace_same replace_key same_question
  get_entry entries query now instant =
      let found = if query.name.is_fqdn then lookup query entries else find_same query entries in
      elim found [
        | none ↦ (none, entries)
        | some e ↦
            if is_expired e now instant
            then (
              none,
              (if query.name.is_fqdn
                  then remove query entries
                  else keep_if (λ (p : Query L × CacheItem). not (same_question p.0 query))
                      entries),
            )
            else (
              some (touch e now instant),
              (if query.name.is_fqdn
                  then replace_key query (touch e now instant) entries
                  else replace_same query (touch e now instant) entries),
            )
      ]
