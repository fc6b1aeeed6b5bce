-- ===== src/Pool/KeySet.antt =====
-- `HashSet` of the Rust library as a list, with the laws of membership.
use tor_socks.Base.{
  ◌≡◌, refl, Bool, false, not, ◌&&◌, ◌||◌, List, [], ◌∷◌, ◌++◌, arith, if◌then◌else◌,
}
use tor_socks.OrdMap.{KeyOrd, key_eq, key_eq_iff, key_eq_refl}

module _ {K : Type 0} ⦃o : KeyOrd K⦄ where
  -- `contains`
  unfoldable pub has : K → List K → Bool
  has k [] = false
  has k (j ∷ ks) = key_eq k j || has k ks

  -- `remove`
  unfoldable pub without : K → List K → List K
  without k [] = []
  without k (j ∷ ks) = let rest = without k ks in if key_eq k j then rest else j ∷ rest

  pub has-without : (k j : K) (ks : List K) → has k (without j ks) ≡ (has k ks && not (key_eq j k))
  unfolding has without
  has-without k j [] = refl
  has-without k j (i ∷ ks) =
      ground
        (arith, has-without k j ks, key_eq_iff j i, key_eq_iff k i, key_eq_iff j k, key_eq_refl k)

  pub has-append : (k : K) (js ks : List K) → has k (js ++ ks) ≡ (has k js || has k ks)
  unfolding has
  has-append k [] ks = refl
  has-append k (j ∷ js) ks = ground (arith, has-append k js ks)

  -- No key twice.
  abbrev pub Distinct : List K → Type 0
  Distinct [] = Unit
  Distinct (k ∷ ks) = (has k ks ≡ false) × Distinct ks
