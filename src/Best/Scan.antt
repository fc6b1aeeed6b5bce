-- ===== src/Best/Scan.antt =====
-- A heap without any order: a list that is searched for a greatest item. It keeps the laws of a
-- `BinaryHeap` for every total preorder.
use tor_socks.Base.{
  ◌≡◌, refl, sym, subst, inl, inr, true, false, Option, none, some, List, [], ◌∷◌, arith,
  if◌then◌else◌, All, Bool-cases, Ordering,
}
use mathlib.Core.List.{Permᴰ}
use mathlib.Core.List.Permᴰ
use mathlib.Core.Option.{some-injective}
use tor_socks.Best.Defs.{is_lt, BinaryHeap, HeapLaws}
use tor_socks.Best.Order.{IsPreorder}

module _ {A : Type 0} (cmp : A → A → Ordering) where
  unfoldable pub take_greatest : List A → Option (A × List A)
  take_greatest [] = none
  take_greatest (x ∷ xs) = elim (take_greatest xs) [
    | none ↦ some (x, xs)
    | some (w, rest) ↦ some (if is_lt (cmp w x) then (x, w ∷ rest) else (w, x ∷ rest))
  ]

  abbrev first_of : Option (A × List A) → Option A
  first_of none = none
  first_of (some (w, rest)) = some w

  abbrev rest_of : Option (A × List A) → List A
  rest_of none = []
  rest_of (some (w, rest)) = rest

  abbrev pub scan_heap : BinaryHeap A
  scan_heap = record {
    carrier = List A;
    empty = [];
    push = λ x h. x ∷ h;
    peek = λ h. first_of (take_greatest h);
    pop = λ h. rest_of (take_greatest h);
    into_vec = λ h. h;
  }

  module _ (p : IsPreorder cmp) where
    not_lt_trans :
        (x y z : A) → is_lt (cmp x y) ≡ false → is_lt (cmp y z) ≡ false → is_lt (cmp x z) ≡ false
    not_lt_trans x y z h k = ground (arith, h, k, p.flip x y, p.flip y z, p.flip x z, p.trans z y x)

    -- What is found is an item that no other exceeds, and the rest are the others.
    abbrev IsGreatest : List A → Option (A × List A) → Type 0
    IsGreatest xs none = xs ≡ []
    IsGreatest xs (some (w, rest)) = Permᴰ xs (w ∷ rest) × All (λ y. is_lt (cmp w y) ≡ false) xs

    All-not_lt :
        (w x : A) (ys : List A)
        → is_lt (cmp x w) ≡ false
        → All (λ y. is_lt (cmp w y) ≡ false) ys
        → All (λ y. is_lt (cmp x y) ≡ false) ys
    All-not_lt w x [] h a = tt
    All-not_lt w x (y ∷ ys) h a = (not_lt_trans x w y h a.0, All-not_lt w x ys h a.1)

    irreflexive : (x : A) → is_lt (cmp x x) ≡ false
    irreflexive x = ground (arith, p.flip x x)

    not_lt_of_lt : (x y : A) → is_lt (cmp x y) ≡ true → is_lt (cmp y x) ≡ false
    not_lt_of_lt x y h = ground (arith, h, p.flip x y)

    step-IsGreatest :
        (x : A) (xs : List A) (found : Option (A × List A))
        → take_greatest xs ≡ found
        → IsGreatest xs found
        → IsGreatest (x ∷ xs) (take_greatest (x ∷ xs))
    unfolding take_greatest
    step-IsGreatest x xs none e g = rw e (
      Permᴰ.refl (x ∷ xs),
      (irreflexive x, subst (All (λ y. is_lt (cmp x y) ≡ false)) (sym g) tt),
    )
    step-IsGreatest x xs (some (w, rest)) e (perm, below) = elim (Bool-cases (is_lt (cmp w x))) [
      | inl lt ↦
          subst (IsGreatest (x ∷ xs)) {x = some (x, w ∷ rest)} {y = take_greatest (x ∷ xs)}
            (ground (arith, e, lt))
            (Permᴰ.cons refl perm, (irreflexive x, All-not_lt w x xs (not_lt_of_lt w x lt) below))
      | inr ge ↦
          subst (IsGreatest (x ∷ xs)) {x = some (w, x ∷ rest)} {y = take_greatest (x ∷ xs)}
            (ground (arith, e, ge))
            (Permᴰ.trans (Permᴰ.cons refl perm) (Permᴰ.swap refl refl), (ge, below))
    ]

    take_greatest-IsGreatest : (xs : List A) → IsGreatest xs (take_greatest xs)
    unfolding take_greatest
    take_greatest-IsGreatest [] = refl
    take_greatest-IsGreatest (x ∷ xs) =
        step-IsGreatest x xs (take_greatest xs) refl (take_greatest-IsGreatest xs)

    pub scan_heap-HeapLaws : HeapLaws cmp scan_heap
    scan_heap-HeapLaws = record {
      empty_vec = refl;
      push_vec = λ x h. Permᴰ.refl (x ∷ h);
      peek_none = λ h e. peeked_none h (take_greatest h) (take_greatest-IsGreatest h) e;
      peek_greatest = λ h w e. (peeked h (take_greatest h) w (take_greatest-IsGreatest h) e).1;
      pop_vec = λ h w e. (peeked h (take_greatest h) w (take_greatest-IsGreatest h) e).0;
    }
      where
        peeked_none :
            (h : List A) (found : Option (A × List A))
            → IsGreatest h found
            → first_of found ≡ none
            → h ≡ []
        peeked_none h none g e = g
        peeked_none h (some (w, rest)) g e = absurd (ground (arith, e))

        peeked :
            (h : List A) (found : Option (A × List A)) (w : A)
            → IsGreatest h found
            → first_of found ≡ some w
            → Permᴰ h (w ∷ rest_of found) × All (λ y. is_lt (cmp w y) ≡ false) h
        peeked h none w g e = absurd (ground (arith, e))
        peeked h (some (v, rest)) w g e =
            subst (λ u. Permᴰ h (u ∷ rest) × All (λ y. is_lt (cmp u y) ≡ false) h)
              (some-injective v w e) g
