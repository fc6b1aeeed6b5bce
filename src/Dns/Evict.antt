-- ===== src/Dns/Evict.antt =====
-- packages/dns-server/src/cache/cache.rs: what `admit` leaves in the cache.
use tor_socks.Base.{
  ℕ, zero, suc, ◌+◌, ◌-◌, ◌≤◌, ◌<◌, ◌≡◌, refl, ◌≢◌, inl, inr, none, some, List, [], ◌∷◌, arith,
  length, Option-cases,
}
use tor_socks.OrdMap.{KeyOrd, key_eq_refl, lookup, remove}
use tor_socks.Dns.Cache.{
  CacheItem, payload, victim, evict, swept, admit, dns_cache_cap, max_payload,
}

module _ {K : Type 0} ⦃o : KeyOrd K⦄ where
  -- Taking out a known key takes one entry and its bytes.
  length-remove :
      (k : K) (m : List (K × CacheItem)) (e : CacheItem)
      → lookup k m ≡ some e
      → (suc (length (remove k m)) ≡ length m)
        × (payload (remove k m) + length e.packet ≡ payload m)
  unfolding lookup remove payload
  length-remove k [] e h = absurd (ground arith)
  length-remove k ((j, d) ∷ m) e h = ground (arith, length-remove k m e)

  pub victim_known :
      (now instant : ℕ) (m : List (K × CacheItem)) (v : K × CacheItem)
      → victim now instant m ≡ some v
      → lookup v.0 m ≢ none
  unfolding victim lookup
  victim_known now instant [] v h = absurd (ground arith)
  victim_known now instant ((k, e) ∷ m) v h = elim (Option-cases (victim now instant m)) [
    | inl empty ↦ ground (arith, empty, key_eq_refl k)
    | inr (w, found) ↦ ground (arith, found, victim_known now instant m w found, key_eq_refl k)
  ]

  pub victim-none :
      (now instant : ℕ) (m : List (K × CacheItem)) → victim now instant m ≡ none → m ≡ []
  unfolding victim
  victim-none now instant [] h = refl
  victim-none now instant ((k, e) ∷ m) h = absurd (ground arith)

  -- Enough fuel: the loop ends within both bounds.
  evict_bounds :
      (fuel size now instant : ℕ) (m : List (K × CacheItem)) (bytes : ℕ)
      → length m ≤ fuel
      → bytes ≡ payload m
      → size ≤ max_payload
      → (length (evict fuel size now instant m bytes) < dns_cache_cap)
        × (payload (evict fuel size now instant m bytes) + size ≤ max_payload)
  unfolding evict payload
  evict_bounds zero size now instant [] bytes enough same fits = ground arith
  evict_bounds zero size now instant (p ∷ m) bytes enough same fits = absurd (omega arith)
  evict_bounds (suc fuel) size now instant m bytes enough same fits =
      elim (Option-cases (victim now instant m)) [
        | inl empty ↦ ground (arith, empty, victim-none now instant m empty)
        | inr (v, found) ↦ elim (Option-cases (lookup v.0 m)) [
          | inl unknown ↦ absurd (victim_known now instant m v found unknown)
          | inr (removed, known) ↦
              let less = length-remove v.0 m removed known in
              ground (
                arith,
                found,
                known,
                evict_bounds fuel size now instant (remove v.0 m) (bytes - length removed.packet)
                    (omega (arith, less.0)) (omega (arith, less.1)) fits,
              )
        ]
      ]

  -- After an admission of a packet that fits, the cache holds at most the cap of entries and of
  -- bytes, whatever it held before, and the new entry answers for its key.
  pub admit_bounds :
      (entries : List (K × CacheItem)) (key : K) (e : CacheItem) (now instant : ℕ)
      → length e.packet ≤ max_payload
      → (length (admit entries key e now instant) ≤ dns_cache_cap)
        × (payload (admit entries key e now instant) ≤ max_payload)
        × (lookup key (admit entries key e now instant) ≡ some e)
  unfolding admit payload lookup
  admit_bounds entries key e now instant fits =
      let rest = swept entries key now instant in
      let room =
        evict_bounds (length rest) (length e.packet) now instant rest (payload rest) (omega arith)
          refl fits in
      (omega (arith, room.0), omega (arith, room.1), ground (arith, key_eq_refl key))
