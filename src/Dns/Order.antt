-- ===== src/Dns/Order.antt =====
-- packages/dns-server/src/cache/cache.rs: the loop of `admit` gives up the soonest expiring first.
use tor_socks.Base.{
  ℕ, zero, suc, ◌-◌, ◌≤◌, ◌≡◌, refl, sym, ap, subst, ◌∙◌, inl, inr, false, none, some, List, [],
  ◌∷◌, arith, length, All, Bool-cases, Option-cases, leb, leb→le,
}
use tor_socks.OrdMap.{KeyOrd, key_eq, key_eq_iff, key_eq_refl, lookup, remove}
use tor_socks.OrdMap.Laws.{All-remove}
use tor_socks.Dns.Cache.{CacheItem, victim, evict, remaining}
use tor_socks.Dns.Evict.{victim-none}

module _ {K : Type 0} ⦃o : KeyOrd K⦄ where
  -- No key twice, as in a hash map.
  unfoldable pub IsDistinct : List (K × CacheItem) → Type 0
  IsDistinct [] = Unit
  IsDistinct ((k, e) ∷ m) = (lookup k m ≡ none) × IsDistinct m

  lookup-remove_other :
      (k j : K) (m : List (K × CacheItem)) → key_eq k j ≡ false → lookup k (remove j m) ≡ lookup k m
  unfolding lookup remove
  lookup-remove_other k j [] h = refl
  lookup-remove_other k j ((i, e) ∷ m) h =
      ground (arith, lookup-remove_other k j m h, key_eq_iff j i, key_eq_iff k i, key_eq_iff k j)

  remove-absent :
      (k j : K) (m : List (K × CacheItem)) → lookup k m ≡ none → lookup k (remove j m) ≡ none
  unfolding lookup remove
  remove-absent k j [] h = refl
  remove-absent k j ((i, e) ∷ m) h = ground (arith, remove-absent k j m)

  remove-IsDistinct : (j : K) (m : List (K × CacheItem)) → IsDistinct m → IsDistinct (remove j m)
  unfolding remove IsDistinct
  remove-IsDistinct j [] d = tt
  remove-IsDistinct j ((i, e) ∷ m) d =
      ground (arith, remove-IsDistinct j m d.1, remove-absent i j m d.0, d)

  -- The victim is an entry of the map, and none lives shorter.
  victim-lookup :
      (now instant : ℕ) (m : List (K × CacheItem)) (v : K × CacheItem)
      → IsDistinct m
      → victim now instant m ≡ some v
      → lookup v.0 m ≡ some v.1
  unfolding victim lookup IsDistinct
  victim-lookup now instant [] v d h = absurd (ground arith)
  victim-lookup now instant ((k, e) ∷ m) v d h = elim (Option-cases (victim now instant m)) [
    | inl empty ↦ ground (arith, empty, key_eq_refl k)
    | inr (w, found) ↦ ground (
      arith,
      found,
      d.0,
      key_eq_refl k,
      key_eq_iff w.0 k,
      victim-lookup now instant m w d.1 found,
    )
  ]

  abbrev pub Outlives : ℕ → ℕ → CacheItem → List (K × CacheItem) → Type 0
  Outlives now instant d = All λ p. remaining d now instant ≤ remaining p.1 now instant

  Outlives-trans :
      (now instant : ℕ) (d e : CacheItem) (m : List (K × CacheItem))
      → remaining d now instant ≤ remaining e now instant
      → Outlives now instant e m
      → Outlives now instant d m
  Outlives-trans now instant d e [] h a = tt
  Outlives-trans now instant d e (p ∷ m) h a =
      (omega (arith, a.0), Outlives-trans now instant d e m h a.1)

  victim-Outlives :
      (now instant : ℕ) (m : List (K × CacheItem)) (v : K × CacheItem)
      → victim now instant m ≡ some v
      → Outlives now instant v.1 m
  unfolding victim
  victim-Outlives now instant [] v h = tt
  victim-Outlives now instant ((k, e) ∷ m) v h = elim (Option-cases (victim now instant m)) [
    | inl empty ↦
        let nothing : m ≡ [] = victim-none now instant m empty in ground (arith, empty, nothing)
    | inr (w, found) ↦
        let least : Outlives now instant w.1 m = victim-Outlives now instant m w found in
        elim (Bool-cases (leb (remaining e now instant) (remaining w.1 now instant))) [
          | inl less ↦
              let same : v ≡ (k, e) = ground (arith, found, less) in
              subst (λ (u : K × CacheItem). Outlives now instant u.1 ((k, e) ∷ m)) (sym same)
                (omega arith, Outlives-trans now instant e w.1 m (leb→le _ _ less) least)
          | inr more ↦
              let same : v ≡ w = ground (arith, found, more) in
              subst (λ (u : K × CacheItem). Outlives now instant u.1 ((k, e) ∷ m)) (sym same)
                (ground (arith, more), least)
        ]
  ]

  evict-All :
      (P : K × CacheItem → Type 0) (fuel size now instant : ℕ) (m : List (K × CacheItem))
      (bytes : ℕ)
      → All P m
      → All P (evict fuel size now instant m bytes)
  unfolding evict
  evict-All P zero size now instant m bytes a = a
  evict-All P (suc fuel) size now instant m bytes a = elim (Option-cases (victim now instant m)) [
    | inl empty ↦ ground (arith, empty, a)
    | inr (v, found) ↦ elim (Option-cases (lookup v.0 m)) [
      | inl unknown ↦ ground (arith, found, unknown, a, evict-All P fuel size now instant m bytes a)
      | inr (e, known) ↦ ground (
        arith,
        found,
        known,
        a,
        evict-All P fuel size now instant (remove v.0 m) (bytes - length e.packet)
            (All-remove P v.0 m a),
      )
    ]
  ]

  -- Without a key held twice, an entry that the loop gave up lives no longer than any entry that
  -- it kept, as of the time of the admission.
  pub evict-Outlives :
      (fuel size now instant : ℕ) (m : List (K × CacheItem)) (bytes : ℕ) (k : K) (d : CacheItem)
      → IsDistinct m
      → lookup k m ≡ some d
      → lookup k (evict fuel size now instant m bytes) ≡ none
      → Outlives now instant d (evict fuel size now instant m bytes)
  unfolding evict
  evict-Outlives zero size now instant m bytes k d one held gone = absurd (ground arith)
  evict-Outlives (suc fuel) size now instant m bytes k d one held gone =
      elim (Option-cases (victim now instant m)) [
        | inl empty ↦ absurd (ground (arith, empty))
        | inr (v, found) ↦
            let known : lookup v.0 m ≡ some v.1 = victim-lookup now instant m v one found in
            let less : List (K × CacheItem) = remove v.0 m in
            let left : ℕ = bytes - length v.1.packet in
            elim (Bool-cases (key_eq k v.0)) [
              | inl same ↦
                  let is_victim : d ≡ v.1 =
                    ground (
                      arith,
                      known,
                      held,
                      ap (λ (t : K). lookup t m) ((key_eq_iff k v.0).0 same),
                    ) in
                  evict-All (λ p. remaining d now instant ≤ remaining p.1 now instant) (suc fuel)
                    size now instant m bytes
                    (subst (λ (c : CacheItem). Outlives now instant c m) (sym is_victim)
                      (victim-Outlives now instant m v found))
              | inr other ↦ ground (
                arith,
                found,
                known,
                evict-Outlives fuel size now instant less left k d (remove-IsDistinct v.0 m one)
                    (lookup-remove_other k v.0 m other ∙ held),
              )
            ]
      ]
