-- ===== src/OrdMap/Laws.antt =====
-- Lookups after each map operation, and the ascending key order that each operation keeps.
use mathlib.Core.Option.{Option}
use mathlib.Core.Option
use tor_socks.Base.{
  ◌≡◌, refl, inl, inr, Bool, none, some, List, [], ◌∷◌, subst, arith, Ordering, if◌then◌else◌, All,
  keep_if, map_or, Option-cases, Bool-cases, ap,
}
use tor_socks.OrdMap.Defs.{
  KeyOrd, key_eq, key_eq_iff, lookup, insert, remove, modify, upsert, key_eq_refl,
}

-- `Option::filter`
abbrev pub filter_option : {V : Type 0} → (V → Bool) → Option V → Option V
filter_option p none = none
filter_option p (some v) = if p v then some v else none

module _ {K V : Type 0} ⦃o : KeyOrd K⦄ where
  pub lookup-insert :
      (k j : K) (v : V) (m : List (K × V))
      → lookup j (insert k v m) ≡ (if key_eq j k then some v else lookup j m)
  unfolding lookup insert
  lookup-insert k j v [] = refl
  lookup-insert k j v ((i, w) ∷ m) =
      ground (arith, key_eq_iff j k, key_eq_iff j i, o.cmp_eq k i, lookup-insert k j v m)

  abbrev pub Above : K → List (K × V) → Type 0
  Above k = All λ e. o.cmp k e.0 ≡ Ordering.lt

  abbrev pub IsSorted : List (K × V) → Type 0
  IsSorted [] = Unit
  IsSorted ((k, v) ∷ m) = Above k m × IsSorted m

  pub Above-mono : (k j : K) (m : List (K × V)) → o.cmp k j ≡ Ordering.lt → Above j m → Above k m
  Above-mono k j [] h a = tt
  Above-mono k j ((i, v) ∷ m) h a = (o.cmp_trans k j i h a.0, Above-mono k j m h a.1)

  insert-Above :
      (b k : K) (v : V) (m : List (K × V))
      → o.cmp b k ≡ Ordering.lt
      → Above b m
      → Above b (insert k v m)
  unfolding insert
  insert-Above b k v [] h a = (h, tt)
  insert-Above b k v ((j, w) ∷ m) h a = ground (arith, insert-Above b k v m h a.1)

  pub insert-IsSorted : (k : K) (v : V) (m : List (K × V)) → IsSorted m → IsSorted (insert k v m)
  unfolding insert
  insert-IsSorted k v [] s = (tt, tt)
  insert-IsSorted k v ((j, w) ∷ m) s = ground (
    arith,
    o.cmp_eq k j,
    o.cmp_flip k j,
    Above-mono k j m,
    insert-Above j k v m,
    insert-IsSorted k v m s.1,
  )

  pub lookup-Above : (k : K) (m : List (K × V)) → Above k m → lookup k m ≡ none
  unfolding lookup
  lookup-Above k [] a = refl
  lookup-Above k ((j, v) ∷ m) a = ground (arith, lookup-Above k m a.1)

  pub lookup-remove :
      (k j : K) (m : List (K × V))
      → IsSorted m
      → lookup j (remove k m) ≡ (if key_eq j k then none else lookup j m)
  unfolding lookup remove
  lookup-remove k j [] s = ground arith
  lookup-remove k j ((i, w) ∷ m) s = ground (
    arith,
    key_eq_iff j k,
    key_eq_iff j i,
    key_eq_iff k i,
    lookup-Above i m s.0,
    lookup-remove k j m s.1,
  )

  remove-Above : (b k : K) (m : List (K × V)) → Above b m → Above b (remove k m)
  unfolding remove
  remove-Above b k [] a = tt
  remove-Above b k ((j, w) ∷ m) a = ground (arith, remove-Above b k m a.1)

  pub remove-IsSorted : (k : K) (m : List (K × V)) → IsSorted m → IsSorted (remove k m)
  unfolding remove
  remove-IsSorted k [] s = tt
  remove-IsSorted k ((j, w) ∷ m) s = ground (arith, remove-Above j k m s.0, remove-IsSorted k m s.1)

  pub keep_if-Above :
      (b : K) (p : K × V → Bool) (m : List (K × V)) → Above b m → Above b (keep_if p m)
  keep_if-Above b p [] a = tt
  keep_if-Above b p (e ∷ m) a = ground (arith, keep_if-Above b p m a.1)

  pub keep_if-IsSorted : (p : K × V → Bool) (m : List (K × V)) → IsSorted m → IsSorted (keep_if p m)
  keep_if-IsSorted p [] s = tt
  keep_if-IsSorted p ((k, v) ∷ m) s =
      ground (arith, keep_if-Above k p m s.0, keep_if-IsSorted p m s.1)

  pub lookup-modify :
      (k j : K) (f : V → V) (m : List (K × V))
      → lookup j (modify k f m) ≡ (if key_eq j k then Option.map f (lookup k m) else lookup j m)
  unfolding modify
  lookup-modify k j f m = elim (Option-cases (lookup k m)) [
    | inl e ↦ rw (e, modify) (ground (arith, key_eq_iff j k))
    | inr (v, e) ↦ rw (e, modify) (ground (arith, lookup-insert k j (f v) m))
  ]

  -- The value that an `entry(k).or_insert_with(fresh)` call hands to the change after it.
  pub lookup-upsert :
      (k j : K) (fresh : V) (f : V → V) (m : List (K × V))
      → lookup j (upsert k fresh f m)
        ≡ (if key_eq j k then some (f (map_or fresh (λ v. v) (lookup k m))) else lookup j m)
  unfolding upsert
  lookup-upsert k j fresh f m = elim (Option-cases (lookup k m)) [
    | inl e ↦ rw (e, upsert) (lookup-insert k j (f fresh) m)
    | inr (v, e) ↦ rw (e, upsert) (lookup-insert k j (f v) m)
  ]

  pub modify-IsSorted :
      (k : K) (f : V → V) (m : List (K × V)) → IsSorted m → IsSorted (modify k f m)
  unfolding modify
  modify-IsSorted k f m s = elim (Option-cases (lookup k m)) [
    | inl e ↦ rw (e, modify) s
    | inr (v, e) ↦ rw (e, modify) (insert-IsSorted k (f v) m s)
  ]

  pub upsert-IsSorted :
      (k : K) (fresh : V) (f : V → V) (m : List (K × V))
      → IsSorted m
      → IsSorted (upsert k fresh f m)
  unfolding upsert
  upsert-IsSorted k fresh f m s = elim (Option-cases (lookup k m)) [
    | inl e ↦ rw (e, upsert) (insert-IsSorted k (f fresh) m s)
    | inr (v, e) ↦ rw (e, upsert) (insert-IsSorted k (f v) m s)
  ]

module _ {ℓ} {K V : Type 0} ⦃o : KeyOrd K⦄ (P : K × V → Type ℓ) where
  pub All-insert : (k : K) (v : V) (m : List (K × V)) → P (k, v) → All P m → All P (insert k v m)
  unfolding insert
  All-insert k v [] h a = (h, tt)
  All-insert k v ((j, w) ∷ m) h a = ground (arith, All-insert k v m h a.1)

  pub All-remove : (k : K) (m : List (K × V)) → All P m → All P (remove k m)
  unfolding remove
  All-remove k [] a = tt
  All-remove k ((j, w) ∷ m) a = ground (arith, All-remove k m a.1)

  pub All-lookup : (k : K) (v : V) (m : List (K × V)) → All P m → lookup k m ≡ some v → P (k, v)
  unfolding lookup
  All-lookup k v [] a e = cc
  All-lookup k v ((j, w) ∷ m) a e = elim (Bool-cases (key_eq k j)) [
    | inl hit ↦ subst P (ground (arith, key_eq_iff k j)) a.0
    | inr miss ↦ All-lookup k v m a.1 (ground arith)
  ]

  pub All-modify :
      (k : K) (f : V → V) (m : List (K × V))
      → ((v : V) → P (k, v) → P (k, f v))
      → All P m
      → All P (modify k f m)
  unfolding modify
  All-modify k f m h a = elim (Option-cases (lookup k m)) [
    | inl e ↦ rw (e, modify) a
    | inr (v, e) ↦ rw (e, modify) (All-insert k (f v) m (h v (All-lookup k v m a e)) a)
  ]

  pub All-upsert :
      (k : K) (fresh : V) (f : V → V) (m : List (K × V))
      → P (k, f fresh)
      → ((v : V) → P (k, v) → P (k, f v))
      → All P m
      → All P (upsert k fresh f m)
  unfolding upsert
  All-upsert k fresh f m new h a = elim (Option-cases (lookup k m)) [
    | inl e ↦ rw (e, upsert) (All-insert k (f fresh) m new a)
    | inr (v, e) ↦ rw (e, upsert) (All-insert k (f v) m (h v (All-lookup k v m a e)) a)
  ]

module _ {K V : Type 0} ⦃o : KeyOrd K⦄ where
  pub lookup-keep_if :
      (k : K) (p : V → Bool) (m : List (K × V))
      → IsSorted m
      → lookup k (keep_if (λ e. p e.1) m) ≡ filter_option p (lookup k m)
  unfolding lookup
  lookup-keep_if k p [] s = refl
  lookup-keep_if k p ((j, v) ∷ m) s = elim (Bool-cases (key_eq k j)) [
    | inl hit ↦ ground (
      arith,
      key_eq_iff k j,
      lookup-keep_if k p m s.1,
      ap (λ i. lookup i m) ((key_eq_iff k j).0 hit),
      lookup-Above j m s.0,
    )
    | inr miss ↦ ground (arith, lookup-keep_if k p m s.1)
  ]

  lookup_below :
      (j : K) (v : V) (m l : List (K × V))
      → Above j m
      → All (λ x. lookup x.0 l ≡ some x.1) m
      → All (λ x. lookup x.0 ((j, v) ∷ l) ≡ some x.1) m
  unfolding lookup
  lookup_below j v [] l a h = tt
  lookup_below j v ((i, w) ∷ m) l a h =
      (ground (arith, o.cmp_eq j i, key_eq_iff i j), lookup_below j v m l a.1 h.1)

  -- Every entry of a sorted map is found under its key.
  pub lookup_self : (m : List (K × V)) → IsSorted m → All (λ x. lookup x.0 m ≡ some x.1) m
  unfolding lookup
  lookup_self [] s = tt
  lookup_self ((j, v) ∷ m) s =
      (ground (arith, key_eq_refl j), lookup_below j v m m s.0 (lookup_self m s.1))
