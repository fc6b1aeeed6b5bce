-- ===== src/Best/Selection.antt =====
-- `take_best` selects what a stable sort followed by `take` would, if the order tells the items apart.
use tor_socks.Base.{
  ℕ, zero, suc, ◌≤◌, ◌≡◌, refl, sym, ap, subst, ◌∙◌, inl, inr, false, some, List, [], ◌∷◌, ◌++◌,
  arith, length, if◌then◌else◌, All, Bool-cases, Option-cases, ltb, take, length-take, Ordering,
  lt→ltb,
}
use mathlib.Core.List.{Permᴰ}
use mathlib.Core.List.Permᴰ
use tor_socks.Best.Defs.{
  is_lt, push, sort_onto, sort, BinaryHeap, HeapLaws, offer, offer_all, take_best,
}
use tor_socks.Best.Order.{IsPreorder}
use tor_socks.Best.Insertion.{
  last_of, but_last, last_of-snoc, but_last-snoc, take_short, take-push, length-push,
  push-Ascending, push-last, lt_of_lt_of_not_lt, not_lt_of_lt, Ascending, length-sort_onto,
  All-sort_onto,
}

All-permuted {ℓ} :
    {A : Type 0} (P : A → Type ℓ) {xs ys : List A} → Permᴰ xs ys → All P xs → All P ys
All-permuted P Permᴰ.nil a = tt
All-permuted P (Permᴰ.cons e d) a = (subst P e a.0, All-permuted P d a.1)
All-permuted P (Permᴰ.swap e f) a = (subst P f a.1.0, (subst P e a.0, a.1.1))
All-permuted P (Permᴰ.trans d e) a = All-permuted P e (All-permuted P d a)

-- Items with `P` that compare equal are the same.
abbrev pub TellsApart {ℓ} : {A : Type 0} → (A → A → Ordering) → (A → Type ℓ) → Type ℓ
TellsApart {A = A} cmp P = (x y : A) → P x → P y → cmp x y ≡ Ordering.eq → x ≡ y

module _ {ℓ} {A : Type 0} (cmp : A → A → Ordering) (p : IsPreorder cmp) (P : A → Type ℓ)
    (apart : TellsApart cmp P) where
  same_of_not_lt : (x y : A) → P x → P y → is_lt (cmp x y) ≡ false → is_lt (cmp y x) ≡ false → x ≡ y
  same_of_not_lt x y hx hy h k = apart x y hx hy (ground (arith, p.flip x y, h, k))

  push-front :
      (x y : A) (s : List A)
      → P x
      → P y
      → (if is_lt (cmp x y) then x ∷ y ∷ s else y ∷ x ∷ s)
        ≡ (if is_lt (cmp y x) then y ∷ x ∷ s else x ∷ y ∷ s)
  push-front x y s hx hy = elim (Bool-cases (is_lt (cmp x y))) [
    | inl lt ↦ ground (arith, lt, not_lt_of_lt cmp p x y lt)
    | inr ge ↦ elim (Bool-cases (is_lt (cmp y x))) [
      | inl lt ↦ ground (arith, lt, ge)
      | inr eq ↦ ground (arith, eq, ge, same_of_not_lt x y hx hy ge eq)
    ]
  ]

  -- The order of two insertions does not matter.
  push-push :
      (x y : A) (s : List A) → P x → P y → push cmp x (push cmp y s) ≡ push cmp y (push cmp x s)
  unfolding push
  push-push x y [] hx hy = push-front x y [] hx hy
  push-push x y (z ∷ s) hx hy = elim (Bool-cases (is_lt (cmp x z))) [
    | inl xz ↦ elim (Bool-cases (is_lt (cmp y z))) [
      | inl yz ↦ rw (xz, yz) (ground (arith, xz, yz, push-front x y (z ∷ s) hx hy))
      | inr zy ↦
          let yx : is_lt (cmp y x) ≡ false =
            not_lt_of_lt cmp p x y (lt_of_lt_of_not_lt cmp p x z y xz zy) in
          rw (xz, zy) (ground (arith, xz, zy, yx))
    ]
    | inr zx ↦ elim (Bool-cases (is_lt (cmp y z))) [
      | inl yz ↦
          let xy : is_lt (cmp x y) ≡ false =
            not_lt_of_lt cmp p y x (lt_of_lt_of_not_lt cmp p y z x yz zx) in
          rw (zx, yz) (ground (arith, zx, yz, xy))
      | inr zy ↦ rw (zx, zy) (ground (arith, zx, zy, push-push x y s hx hy))
    ]
  ]

  sort_onto-push :
      (x : A) (s xs : List A)
      → P x
      → All P xs
      → sort_onto cmp (push cmp x s) xs ≡ push cmp x (sort_onto cmp s xs)
  unfolding sort_onto
  sort_onto-push x s [] hx a = refl
  sort_onto-push x s (y ∷ xs) hx a =
      ap (λ t. sort_onto cmp t xs) (push-push y x s a.0 hx)
      ∙ sort_onto-push x (push cmp y s) xs hx a.1

  sort_onto-permuted :
      {xs ys : List A} (s : List A)
      → Permᴰ xs ys
      → All P xs
      → sort_onto cmp s xs ≡ sort_onto cmp s ys
  unfolding sort_onto
  sort_onto-permuted s Permᴰ.nil a = refl
  sort_onto-permuted s (Permᴰ.cons {b = y} {l₁ = l} e d) a =
      ap (λ z. sort_onto cmp (push cmp z s) l) e ∙ sort_onto-permuted (push cmp y s) d a.1
  sort_onto-permuted s (Permᴰ.swap {a = x} {b = y} {b' = v} {l = l} e f) a =
      ap (λ t. sort_onto cmp t l)
        (push-push y x s a.1.0 a.0
          ∙ ap (λ z. push cmp z (push cmp y s)) e
          ∙ ap (λ z. push cmp v (push cmp z s)) f)
  sort_onto-permuted s (Permᴰ.trans d e) a =
      sort_onto-permuted s d a ∙ sort_onto-permuted s e (All-permuted P d a)

  module _ (heap : BinaryHeap A) (laws : HeapLaws cmp heap) (n : ℕ) where
    -- The heap holds the items of the ascending list, in any order.
    abbrev Holds : heap.carrier → List A → Type ℓ
    Holds h s = (sort cmp (heap.into_vec h) ≡ s) × All P (heap.into_vec h)

    length-Holds : (h : heap.carrier) (s : List A) → Holds h s → length (heap.into_vec h) ≡ length s
    unfolding sort
    length-Holds h s (e, a) =
        sym (length-sort_onto cmp p [] (heap.into_vec h) ∙ omega arith) ∙ ap length e

    push-Holds :
        (h : heap.carrier) (s : List A) (x : A)
        → Holds h s
        → P x
        → Holds (heap.push x h) (push cmp x s)
    unfolding sort
    push-Holds h s x (e, a) hx = (
      sort_onto-permuted [] (laws.push_vec x h)
            (All-permuted P (Permᴰ.symm (laws.push_vec x h)) (hx, a))
          ∙ sort_onto-push x [] (heap.into_vec h) hx a
          ∙ ap (push cmp x) e,
      All-permuted P (Permᴰ.symm (laws.push_vec x h)) (hx, a),
    )

    -- The heap's greatest item is the last of the list, and its removal leaves the others.
    pop-Holds :
        (h : heap.carrier) (s : List A) (w : A)
        → Holds h s
        → heap.peek h ≡ some w
        → (last_of s ≡ some w) × Holds (heap.pop h) (but_last s)
    unfolding sort
    pop-Holds h s w (e, a) top =
        let whole = laws.pop_vec h w top in
        let rest = heap.into_vec (heap.pop h) in
        let all = All-permuted P whole a in
        let below : All (λ y. is_lt (cmp w y) ≡ false) rest =
          (All-permuted (λ y. is_lt (cmp w y) ≡ false) whole (laws.peek_greatest h w top)).1 in
        let split : s ≡ sort_onto cmp [] rest ++ w ∷ [] =
          sym e
          ∙ sort_onto-permuted [] whole a
          ∙ sort_onto-push w [] rest all.0 all.1
          ∙ push-last cmp p w (sort_onto cmp [] rest)
              (All-sort_onto cmp p (λ y. is_lt (cmp w y) ≡ false) [] rest tt below) in
        (
          ap last_of split ∙ last_of-snoc (sort_onto cmp [] rest) w,
          (sym (but_last-snoc (sort_onto cmp [] rest) w) ∙ ap but_last (sym split), all.1),
        )

    -- One round keeps the best `n + 1` items of those seen.
    offer-Holds :
        (h : heap.carrier) (s : List A) (x : A)
        → Ascending cmp p s
        → Holds h (take (suc n) s)
        → P x
        → (h' : heap.carrier) × (offer cmp heap (suc n) h x ≡ some h')
          × Holds h' (take (suc n) (push cmp x s))
    unfolding offer
    offer-Holds h s x asc holds hx =
        let size = length-Holds h (take (suc n) s) holds in
        elim (Bool-cases (ltb (length (heap.into_vec h)) (suc n))) [
          | inl short ↦
              let few : length s ≤ n = ground (arith, size, short, length-take (suc n) s) in
              (
                heap.push x h,
                rw short refl,
                subst (Holds (heap.push x h))
                    (ap (push cmp x) (take_short (suc n) s (omega (arith, few)))
                      ∙ sym (
                          take_short (suc n) (push cmp x s)
                            (omega (arith, few, length-push cmp p x s))))
                    (push-Holds h (take (suc n) s) x holds hx),
              )
          | inr full ↦ elim (Option-cases (heap.peek h)) [
            | inl none_there ↦
                absurd (ground (arith, full, ap length (laws.peek_none h none_there)))
            | inr (w, top) ↦
                let (last, popped) = pop-Holds h (take (suc n) s) w holds top in
                let (v, found, step) =
                  take-push cmp p n x s asc (ground (arith, size, full, length-take (suc n) s)) in
                let same : v ≡ w = ground (arith, found, last) in
                elim (Bool-cases (is_lt (cmp x w))) [
                  | inl lt ↦ (
                    heap.push x (heap.pop h),
                    rw (full, top, lt) refl,
                    subst (Holds (heap.push x (heap.pop h))) (sym (step ∙ ground (arith, same, lt)))
                        (push-Holds (heap.pop h) (but_last (take (suc n) s)) x popped hx),
                  )
                  | inr ge ↦ (
                    h,
                    rw (full, top, ge) refl,
                    subst (Holds h) (sym (step ∙ ground (arith, same, ge))) holds,
                  )
                ]
          ]
        ]

    offer_all-Holds :
        (h : heap.carrier) (s xs : List A)
        → Ascending cmp p s
        → Holds h (take (suc n) s)
        → All P xs
        → (h' : heap.carrier) × (offer_all cmp heap (suc n) h xs ≡ some h')
          × Holds h' (take (suc n) (sort_onto cmp s xs))
    unfolding offer_all sort_onto
    offer_all-Holds h s [] asc holds a = (h, refl, holds)
    offer_all-Holds h s (x ∷ xs) asc holds a =
        let (h', made, holds') = offer-Holds h s x asc holds a.0 in
        let (h'', all_made, holds'') =
          offer_all-Holds h' (push cmp x s) xs (push-Ascending cmp p x s asc) holds' a.1 in
        (h'', rw (made, offer_all) all_made, holds'')

  -- For a heap that keeps the documented laws, and items that a total preorder tells apart, the
  -- bounded selection never meets the empty heap and gives the first `limit` items of the sort.
  pub take_best_lem :
      (heap : BinaryHeap A) (limit : ℕ) (items : List A)
      → HeapLaws cmp heap
      → All P items
      → take_best cmp heap limit items ≡ some (take limit (sort cmp items))
  unfolding take_best sort
  take_best_lem heap zero items laws a = refl
  take_best_lem heap (suc n) items laws a =
      let empty_holds : (sort_onto cmp [] (heap.into_vec heap.empty) ≡ [])
          × All P (heap.into_vec heap.empty) =
        (ap (sort_onto cmp []) laws.empty_vec, subst (All P) (sym laws.empty_vec) tt) in
      let (h, made, holds) = offer_all-Holds heap laws n heap.empty [] items tt empty_holds a in
      rw (lt→ltb 0 (suc n) (omega arith), made) (ap some holds.0)
