-- ===== src/Best/Insertion.antt =====
-- Insertion into an ascending list, its first items and its last one.
use tor_socks.Base.{
  ℕ, zero, suc, ◌+◌, ◌≤◌, ◌<◌, ◌≡◌, refl, sym, ap, subst, inl, inr, true, false, Option, none, some,
  List, [], ◌∷◌, ◌++◌, arith, length, if◌then◌else◌, All, Bool-cases, Ordering, take, All-take,
}
use tor_socks.Best.Defs.{is_lt, push, sort_onto}
use tor_socks.Best.Order.{IsPreorder}

module _ {A : Type 0} where
  unfoldable pub last_of : List A → Option A
  last_of [] = none
  last_of (x ∷ []) = some x
  last_of (x ∷ y ∷ ys) = last_of (y ∷ ys)

  unfoldable pub but_last : List A → List A
  but_last [] = []
  but_last (x ∷ []) = []
  but_last (x ∷ y ∷ ys) = x ∷ but_last (y ∷ ys)

  pub last_of-snoc : (xs : List A) (w : A) → last_of (xs ++ w ∷ []) ≡ some w
  unfolding last_of
  last_of-snoc [] w = refl
  last_of-snoc (x ∷ []) w = refl
  last_of-snoc (x ∷ y ∷ ys) w = last_of-snoc (y ∷ ys) w

  pub but_last-snoc : (xs : List A) (w : A) → but_last (xs ++ w ∷ []) ≡ xs
  unfolding but_last
  but_last-snoc [] w = refl
  but_last-snoc (x ∷ []) w = refl
  but_last-snoc (x ∷ y ∷ ys) w = ap (◌∷◌ x) (but_last-snoc (y ∷ ys) w)

  pub take_short : (n : ℕ) (xs : List A) → length xs ≤ n → take n xs ≡ xs
  take_short zero [] h = refl
  take_short zero (x ∷ xs) h = absurd (omega arith)
  take_short (suc n) [] h = refl
  take_short (suc n) (x ∷ xs) h = ap (◌∷◌ x) (take_short n xs (omega arith))

  but_last-take : (n : ℕ) (xs : List A) → n < length xs → but_last (take (suc n) xs) ≡ take n xs
  unfolding but_last
  but_last-take n [] h = absurd (omega arith)
  but_last-take zero (x ∷ xs) h = refl
  but_last-take (suc n) (x ∷ []) h = absurd (omega arith)
  but_last-take (suc n) (x ∷ y ∷ ys) h = ap (◌∷◌ x) (but_last-take n (y ∷ ys) (omega arith))

  All-last_of {ℓ} : (P : A → Type ℓ) (xs : List A) (w : A) → All P xs → last_of xs ≡ some w → P w
  unfolding last_of
  All-last_of P [] w a e = cc
  All-last_of P (x ∷ []) w a e = subst P (ground arith) a.0
  All-last_of P (x ∷ y ∷ ys) w a e = All-last_of P (y ∷ ys) w a.1 e

module _ {A : Type 0} (cmp : A → A → Ordering) (p : IsPreorder cmp) where
  abbrev pub Ascending : List A → Type 0
  Ascending [] = Unit
  Ascending (y ∷ ys) = All (λ z. is_lt (cmp z y) ≡ false) ys × Ascending ys

  pub lt_of_lt_of_not_lt :
      (x y z : A) → is_lt (cmp x y) ≡ true → is_lt (cmp z y) ≡ false → is_lt (cmp x z) ≡ true
  lt_of_lt_of_not_lt x y z h k =
      ground (arith, p.flip x y, p.flip y z, p.flip x z, p.trans y z x, p.trans z x y)

  pub not_lt_of_lt : (x y : A) → is_lt (cmp x y) ≡ true → is_lt (cmp y x) ≡ false
  not_lt_of_lt x y h = ground (arith, p.flip x y)

  All-not_lt :
      (x y : A) (ys : List A)
      → is_lt (cmp x y) ≡ true
      → All (λ z. is_lt (cmp z y) ≡ false) ys
      → All (λ z. is_lt (cmp z x) ≡ false) ys
  All-not_lt x y [] h a = tt
  All-not_lt x y (z ∷ zs) h a =
      (not_lt_of_lt x z (lt_of_lt_of_not_lt x y z h a.0), All-not_lt x y zs h a.1)

  pub All-push {ℓ} : (P : A → Type ℓ) (x : A) (ys : List A) → P x → All P ys → All P (push cmp x ys)
  unfolding push
  All-push P x [] h a = (h, tt)
  All-push P x (y ∷ ys) h a = ground (arith, All-push P x ys h a.1)

  pub push-Ascending : (x : A) (ys : List A) → Ascending ys → Ascending (push cmp x ys)
  unfolding push
  push-Ascending x [] a = (tt, tt)
  push-Ascending x (y ∷ ys) a = elim (Bool-cases (is_lt (cmp x y))) [
    | inl lt ↦ rw lt ((not_lt_of_lt x y lt, All-not_lt x y ys lt a.0), a)
    | inr ge ↦ rw ge (All-push (λ z. is_lt (cmp z y) ≡ false) x ys ge a.0, push-Ascending x ys a.1)
  ]

  pub sort_onto-Ascending : (s xs : List A) → Ascending s → Ascending (sort_onto cmp s xs)
  unfolding sort_onto
  sort_onto-Ascending s [] a = a
  sort_onto-Ascending s (x ∷ xs) a = sort_onto-Ascending (push cmp x s) xs (push-Ascending x s a)

  pub length-push : (x : A) (ys : List A) → length (push cmp x ys) ≡ suc (length ys)
  unfolding push
  length-push x [] = refl
  length-push x (y ∷ ys) = ground (arith, length-push x ys)

  pub length-sort_onto : (s xs : List A) → length (sort_onto cmp s xs) ≡ length s + length xs
  unfolding sort_onto
  length-sort_onto s [] = omega arith
  length-sort_onto s (x ∷ xs) = omega (arith, length-sort_onto (push cmp x s) xs, length-push x s)

  pub All-sort_onto {ℓ} :
      (P : A → Type ℓ) (s xs : List A) → All P s → All P xs → All P (sort_onto cmp s xs)
  unfolding sort_onto
  All-sort_onto P s [] a b = a
  All-sort_onto P s (x ∷ xs) a b = All-sort_onto P (push cmp x s) xs (All-push P x s b.0 a) b.1

  -- The first items after an insertion: the worst of them is replaced, or nothing happens.
  pub take-push :
      (n : ℕ) (x : A) (s : List A)
      → Ascending s
      → n < length s
      → (w : A) × (last_of (take (suc n) s) ≡ some w)
        × (take (suc n) (push cmp x s)
            ≡ (if is_lt (cmp x w) then push cmp x (but_last (take (suc n) s)) else take (suc n) s))
  unfolding push last_of but_last
  take-push n x [] a h = absurd (omega arith)
  take-push zero x (y ∷ ys) a h = (y, refl, ground arith)
  take-push (suc n) x (y ∷ []) a h = absurd (omega arith)
  take-push (suc n) x (y ∷ z ∷ zs) a h =
      let (w, found, step) = take-push n x (z ∷ zs) a.1 (omega arith) in
      (
        w,
        found,
        elim (Bool-cases (is_lt (cmp x y))) [
          | inl lt ↦
              let beats : is_lt (cmp x w) ≡ true = lt_of_lt_of_not_lt x y w lt (
                All-last_of (λ v. is_lt (cmp v y) ≡ false) (take (suc n) (z ∷ zs)) w
                  (All-take (λ v. is_lt (cmp v y) ≡ false) (suc n) (z ∷ zs) a.0) found) in
              rw (lt, beats) (ap (λ l. x ∷ y ∷ l) (sym (but_last-take n (z ∷ zs) (omega arith))))
          | inr ge ↦ rw ge (ground (arith, step))
        ],
      )

  -- Behind the items of an ascending list that nothing of the second list beats.
  pub push-last :
      (x : A) (s : List A) → All (λ y. is_lt (cmp x y) ≡ false) s → push cmp x s ≡ s ++ x ∷ []
  unfolding push
  push-last x [] a = refl
  push-last x (y ∷ s) a = ground (arith, push-last x s a.1)
