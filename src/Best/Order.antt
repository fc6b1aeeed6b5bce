-- ===== src/Best/Order.antt =====
-- Comparators that are total preorders, and the constructions that keep them so.
use tor_socks.Base.{ℕ, ◌≡◌, Option, compare, Ordering, arith, ◌≢◌}
use tor_socks.Best.Defs.{◌then_with◌, option_cmp}

abbrev pub swap : Ordering → Ordering
swap Ordering.lt = Ordering.gt
swap Ordering.eq = Ordering.eq
swap Ordering.gt = Ordering.lt

pub record IsPreorder {A : Type 0} (cmp : A → A → Ordering) : Type 0 where
  pub flip : (x y : A) → cmp y x ≡ swap (cmp x y)
  pub trans : (x y z : A) → cmp x y ≢ Ordering.gt → cmp y z ≢ Ordering.gt → cmp x z ≢ Ordering.gt

pub compare-IsPreorder : IsPreorder compare
compare-IsPreorder = record { flip = λ x y. ground arith; trans = λ x y z h k. ground arith }

option_cmp-flip : (x y : Option ℕ) → option_cmp y x ≡ swap (option_cmp x y)
option_cmp-flip x y = ground arith

option_cmp_trans :
    (x y z : Option ℕ)
    → option_cmp x y ≢ Ordering.gt
    → option_cmp y z ≢ Ordering.gt
    → option_cmp x z ≢ Ordering.gt
option_cmp_trans x y z h k = ground arith

pub option_cmp-IsPreorder : IsPreorder option_cmp
option_cmp-IsPreorder = record { flip = option_cmp-flip; trans = option_cmp_trans }

module _ {A B : Type 0} (f : A → B) {cmp : B → B → Ordering} (p : IsPreorder cmp) where
  pub by-IsPreorder : IsPreorder (λ x y. cmp (f x) (f y))
  by-IsPreorder = record {
    flip = λ x y. p.flip (f x) (f y);
    trans = λ x y z. p.trans (f x) (f y) (f z);
  }

  -- `b.f.cmp(&a.f)`: descending.
  pub descending-IsPreorder : IsPreorder (λ x y. cmp (f y) (f x))
  descending-IsPreorder = record {
    flip = λ x y. p.flip (f y) (f x);
    trans = λ x y z h k. p.trans (f z) (f y) (f x) k h;
  }

module _ {A : Type 0} {c d : A → A → Ordering} (p : IsPreorder c) (q : IsPreorder d) where
  then_with_trans :
      (x y z : A)
      → c x y then_with d x y ≢ Ordering.gt
      → c y z then_with d y z ≢ Ordering.gt
      → c x z then_with d x z ≢ Ordering.gt
  then_with_trans x y z h k = ground (
    arith,
    p.trans x y z,
    p.trans z x y,
    p.trans y z x,
    p.flip x y,
    p.flip y z,
    p.flip x z,
    q.trans x y z,
  )

  pub then_with-IsPreorder : IsPreorder (λ x y. c x y then_with d x y)
  then_with-IsPreorder = record {
    flip = λ x y. ground (arith, p.flip x y, q.flip x y);
    trans = then_with_trans;
  }
