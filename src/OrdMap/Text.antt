-- ===== src/OrdMap/Text.antt =====
-- Strings as the list of their UTF-8 bytes, in the lexicographic order of `derive(Ord)`.
use tor_socks.Base.{ℕ, ◌≡◌, refl, List, [], ◌∷◌, arith, compare, Ordering, subst}
use tor_socks.OrdMap.Defs.{KeyOrd}

abbrev pub Text : Type 0
Text = List ℕ

unfoldable pub text_cmp : Text → Text → Ordering
text_cmp [] [] = Ordering.eq
text_cmp [] (y ∷ ys) = Ordering.lt
text_cmp (x ∷ xs) [] = Ordering.gt
text_cmp (x ∷ xs) (y ∷ ys) =
    let rest = text_cmp xs ys in
    elim (compare x y) [
      | Ordering.lt ↦ Ordering.lt
      | Ordering.eq ↦ rest
      | Ordering.gt ↦ Ordering.gt
    ]

pub text_cmp_self : (a : Text) → text_cmp a a ≡ Ordering.eq
unfolding text_cmp
text_cmp_self [] = refl
text_cmp_self (x ∷ xs) = ground (arith, text_cmp_self xs)

pub text_cmp-eq : (a b : Text) → text_cmp a b ≡ Ordering.eq → a ≡ b
unfolding text_cmp
text_cmp-eq [] [] h = refl
text_cmp-eq [] (y ∷ ys) h = ground arith
text_cmp-eq (x ∷ xs) [] h = ground arith
text_cmp-eq (x ∷ xs) (y ∷ ys) h = ground (arith, text_cmp-eq xs ys)

pub text_cmp-flip : (a b : Text) → text_cmp a b ≡ Ordering.gt → text_cmp b a ≡ Ordering.lt
unfolding text_cmp
text_cmp-flip [] [] h = ground arith
text_cmp-flip [] (y ∷ ys) h = ground arith
text_cmp-flip (x ∷ xs) [] h = refl
text_cmp-flip (x ∷ xs) (y ∷ ys) h = ground (arith, text_cmp-flip xs ys)

pub text_cmp_trans :
    (a b c : Text)
    → text_cmp a b ≡ Ordering.lt
    → text_cmp b c ≡ Ordering.lt
    → text_cmp a c ≡ Ordering.lt
unfolding text_cmp
text_cmp_trans [] [] c h k = ground arith
text_cmp_trans [] (y ∷ ys) [] h k = ground arith
text_cmp_trans [] (y ∷ ys) (z ∷ zs) h k = refl
text_cmp_trans (x ∷ xs) [] c h k = ground arith
text_cmp_trans (x ∷ xs) (y ∷ ys) [] h k = ground arith
text_cmp_trans (x ∷ xs) (y ∷ ys) (z ∷ zs) h k = ground (arith, text_cmp_trans xs ys zs)

instance abbrev pub text_ord : KeyOrd Text
text_ord = record {
  cmp = text_cmp;
  cmp_eq =
      λ a b. (text_cmp-eq a b, λ e. subst (λ c. text_cmp a c ≡ Ordering.eq) e (text_cmp_self a));
  cmp_flip = text_cmp-flip;
  cmp_trans = text_cmp_trans;
}
