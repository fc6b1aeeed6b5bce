-- ===== src/OrdMap/Defs.antt =====
-- Ordered keys, and the map operations: get, insert, remove, retain, and the entry calls.
use tor_socks.Base.{
  ℕ, ◌≡◌, refl, ◌↔◌, Bool, true, false, Option, none, some, List, [], ◌∷◌, map, arith, compare,
  Ordering, if◌then◌else◌,
}

-- A total order with decidable equality: `derive(Ord)` of a key type.
pub record KeyOrd (K : Type 0) : Type 0 where
  pub cmp : K → K → Ordering
  pub cmp_eq : (a b : K) → (cmp a b ≡ Ordering.eq) ↔ (a ≡ b)
  pub cmp_flip : (a b : K) → cmp a b ≡ Ordering.gt → cmp b a ≡ Ordering.lt
  pub cmp_trans :
      (a b c : K) → cmp a b ≡ Ordering.lt → cmp b c ≡ Ordering.lt → cmp a c ≡ Ordering.lt

pub nat-cmp_eq : (a b : ℕ) → (compare a b ≡ Ordering.eq) ↔ (a ≡ b)
nat-cmp_eq a b = ground arith

pub nat-cmp_flip : (a b : ℕ) → compare a b ≡ Ordering.gt → compare b a ≡ Ordering.lt
nat-cmp_flip a b h = ground arith

pub nat-cmp_trans :
    (a b c : ℕ) → compare a b ≡ Ordering.lt → compare b c ≡ Ordering.lt → compare a c ≡ Ordering.lt
nat-cmp_trans a b c h k = ground arith

instance abbrev pub nat_ord : KeyOrd ℕ
nat_ord = record {
  cmp = compare;
  cmp_eq = nat-cmp_eq;
  cmp_flip = nat-cmp_flip;
  cmp_trans = nat-cmp_trans;
}

module _ {K : Type 0} ⦃o : KeyOrd K⦄ where
  abbrev pub key_eq : K → K → Bool
  key_eq a b = elim (o.cmp a b) [ Ordering.eq ↦ true | _ ↦ false ]

  pub key_eq_iff : (a b : K) → (key_eq a b ≡ true) ↔ (a ≡ b)
  key_eq_iff a b = ground (arith, o.cmp_eq a b)

  pub key_eq_refl : (a : K) → key_eq a a ≡ true
  key_eq_refl a = (key_eq_iff a a).1 refl

module _ {K V : Type 0} ⦃o : KeyOrd K⦄ where
  unfoldable pub lookup : K → List (K × V) → Option V
  lookup k [] = none
  lookup k ((j, v) ∷ m) = if key_eq k j then some v else lookup k m

  unfoldable pub insert : K → V → List (K × V) → List (K × V)
  insert k v [] = (k, v) ∷ []
  insert k v ((j, w) ∷ m) =
      let rest = insert k v m in
      elim (o.cmp k j) [
        | Ordering.lt ↦ (k, v) ∷ (j, w) ∷ m
        | Ordering.eq ↦ (k, v) ∷ m
        | Ordering.gt ↦ (j, w) ∷ rest
      ]

  unfoldable pub remove : K → List (K × V) → List (K × V)
  remove k [] = []
  remove k ((j, v) ∷ m) = let rest = remove k m in if key_eq k j then m else (j, v) ∷ rest

  -- `if let Some(v) = map.get_mut(k) { … }`
  unfoldable pub modify : K → (V → V) → List (K × V) → List (K × V)
  modify k f m = elim (lookup k m) [ none ↦ m | some v ↦ insert k (f v) m ]

  -- `map.entry(k).or_insert_with(fresh)`, then a change of the value.
  unfoldable pub upsert : K → V → (V → V) → List (K × V) → List (K × V)
  upsert k fresh f m = elim (lookup k m) [ none ↦ insert k (f fresh) m | some v ↦ insert k (f v) m ]

module _ {K V : Type 0} where
  abbrev pub keys : List (K × V) → List K
  keys = map λ e. e.0

  abbrev pub values : List (K × V) → List V
  values = map λ e. e.1
