-- ===== src/Best/Defs.antt =====
-- Comparators, the stable sort, the heap and the loop of `take_best`.
use tor_socks.Base.{
  ℕ, Bool, true, false, Option, none, some, List, [], ◌∷◌, compare, Ordering, length, ltb,
  if◌then◌else◌, All, ◌≡◌,
}
use mathlib.Core.List.{Permᴰ}

-- `Ordering::then` and `then_with`
infixl 30 ◌then_with◌
abbrev pub ◌then_with◌ : Ordering → Ordering → Ordering
Ordering.lt then_with c = Ordering.lt
Ordering.eq then_with c = c
Ordering.gt then_with c = Ordering.gt

-- `Ord for Option<u64>`: `None` is the least.
abbrev pub option_cmp : Option ℕ → Option ℕ → Ordering
option_cmp none none = Ordering.eq
option_cmp none (some b) = Ordering.lt
option_cmp (some a) none = Ordering.gt
option_cmp (some a) (some b) = compare a b

abbrev pub is_lt : Ordering → Bool
is_lt Ordering.lt = true
is_lt Ordering.eq = false
is_lt Ordering.gt = false

module _ {A : Type 0} (cmp : A → A → Ordering) where
  -- Behind the items that it equals.
  unfoldable pub push : A → List A → List A
  push x [] = x ∷ []
  push x (y ∷ ys) = let rest = push x ys in if is_lt (cmp x y) then x ∷ y ∷ ys else y ∷ rest

  -- `slice::sort`, which is stable.
  unfoldable pub sort_onto : List A → List A → List A
  unfolding push
  sort_onto sorted [] = sorted
  sort_onto sorted (x ∷ xs) = sort_onto (push x sorted) xs

  unfoldable pub sort : List A → List A
  unfolding sort_onto
  sort xs = sort_onto [] xs

-- `BinaryHeap` of the Rust library: what a heap is, and in which order it holds its items, is left
-- open.
pub record BinaryHeap (A : Type 0) : Type 1 where
  pub carrier : Type 0
  pub empty : carrier
  pub push : A → carrier → carrier
  pub peek : carrier → Option A
  pub pop : carrier → carrier
  pub into_vec : carrier → List A

-- What the documentation promises for an order: `peek` gives a greatest item, which `pop` removes;
-- `into_vec` gives the items in an arbitrary order.
pub record HeapLaws {A : Type 0} (cmp : A → A → Ordering) (heap : BinaryHeap A) : Type 0 where
  pub empty_vec : heap.into_vec heap.empty ≡ []
  pub push_vec :
      (x : A) (h : heap.carrier) → Permᴰ (heap.into_vec (heap.push x h)) (x ∷ heap.into_vec h)
  pub peek_none : (h : heap.carrier) → heap.peek h ≡ none → heap.into_vec h ≡ []
  pub peek_greatest :
      (h : heap.carrier) (w : A)
      → heap.peek h ≡ some w
      → All (λ y. is_lt (cmp w y) ≡ false) (heap.into_vec h)
  pub pop_vec :
      (h : heap.carrier) (w : A)
      → heap.peek h ≡ some w
      → Permᴰ (heap.into_vec h) (w ∷ heap.into_vec (heap.pop h))

module _ {A : Type 0} (cmp : A → A → Ordering) (heap : BinaryHeap A) (limit : ℕ) where
  -- One round of the loop; `none` is the panic of `expect` on an empty heap.
  unfoldable pub offer : heap.carrier → A → Option heap.carrier
  offer kept item =
      if ltb (length (heap.into_vec kept)) limit
      then some (heap.push item kept)
      else elim (heap.peek kept) [
        | none ↦ none
        | some worst ↦
            some (if is_lt (cmp item worst) then heap.push item (heap.pop kept) else kept)
      ]

  unfoldable pub offer_all : heap.carrier → List A → Option heap.carrier
  unfolding offer
  offer_all kept [] = some kept
  offer_all kept (item ∷ items) = elim (offer kept item) [
    | none ↦ none
    | some kept' ↦ offer_all kept' items
  ]

  unfoldable pub take_best : List A → Option (List A)
  unfolding offer_all sort
  take_best items =
      if ltb 0 limit
      then elim (offer_all heap.empty items) [
        | none ↦ none
        | some kept ↦ some (sort cmp (heap.into_vec kept))
      ]
      else some []
