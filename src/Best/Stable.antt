-- ===== src/Best/Stable.antt =====
-- Breaking ties by position makes a sort stable: both give the same order.
use tor_socks.Base.{
  ℕ, suc, ◌<◌, ◌≡◌, refl, List, [], ◌∷◌, map, compare, Ordering, arith, All, ap, subst, sym, ◌∙◌,
}
use tor_socks.Best.Defs.{◌then_with◌, push, sort_onto, sort}

module _ {R : Type 0} (position : R → ℕ) where
  abbrev pub BeforeAt : ℕ → List R → Type 0
  BeforeAt n = All λ r. position r < n

  -- The positions count up from `n`.
  abbrev pub CountedFrom : ℕ → List R → Type 0
  CountedFrom n [] = Unit
  CountedFrom n (x ∷ xs) = (position x ≡ n) × CountedFrom (suc n) xs

module _ {R A : Type 0} (position : R → ℕ) (item : R → A) (c : A → A → Ordering) where
  abbrev pub tie_broken : R → R → Ordering
  tie_broken a b = c (item a) (item b) then_with compare (position a) (position b)

  abbrev Before : ℕ → List R → Type 0
  Before = BeforeAt position

  map-push :
      (x : R) (s : List R)
      → Before (position x) s
      → map item (push tie_broken x s) ≡ push c (item x) (map item s)
  unfolding push
  map-push x [] b = refl
  map-push x (y ∷ s) b = ground (arith, map-push x s b.1)

  push-Before :
      (n : ℕ) (x : R) (s : List R) → position x < n → Before n s → Before n (push tie_broken x s)
  unfolding push
  push-Before n x [] h b = (h, tt)
  push-Before n x (y ∷ s) h b = ground (arith, push-Before n x s h b.1)

  Before-suc : (n : ℕ) (s : List R) → Before n s → Before (suc n) s
  Before-suc n [] b = tt
  Before-suc n (x ∷ s) b = (omega arith, Before-suc n s b.1)

  map-sort_onto :
      (n : ℕ) (s xs : List R)
      → Before n s
      → CountedFrom position n xs
      → map item (sort_onto tie_broken s xs) ≡ sort_onto c (map item s) (map item xs)
  unfolding sort_onto
  map-sort_onto n s [] b k = refl
  map-sort_onto n s (x ∷ xs) b k =
      map-sort_onto (suc n) (push tie_broken x s) xs
        (push-Before (suc n) x s (omega arith) (Before-suc n s b)) k.1
      ∙ ap (λ l. sort_onto c l (map item xs)) (map-push x s (subst (λ m. Before m s) (sym k.0) b))

  -- The items of the sort with ties broken are those of the stable sort.
  pub map-sort :
      (n : ℕ) (xs : List R)
      → CountedFrom position n xs
      → map item (sort tie_broken xs) ≡ sort c (map item xs)
  unfolding sort
  map-sort n xs k = map-sort_onto n [] xs tt k
