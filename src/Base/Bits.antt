-- ===== src/Base/Bits.antt =====
-- `&` and `|` on numbers made of fields of one width: they work field by field.
use Prim.Native.Nat.{
  ℕ, zero, suc, ◌+◌, ◌*◌, ◌/◌, ◌%◌, ◌^◌, ◌≤◌, ◌<◌, min, max, bit_and, bit_or, digits,
  bit_and-bitwise, bit_or-bitwise, ◌-◌,
}
use native.Mathlib.Nat.{pow-suc, mul-le-mul_right}
use mathlib.Core.Logic.{◌⊎◌, inl, inr}
use mathlib.Core.Path.{◌≡◌, refl, ◌∙◌, ap, ap₂, sym}
use native.Mathlib.Omega.{arith}

module _ (rest : ℕ → ℕ) (on_digits : ℕ → ℕ → ℕ) where
  no_digits : (n y : ℕ) → digits rest on_digits n 0 y ≡ rest y
  no_digits zero y = refl
  no_digits (suc n) y = refl

  -- Fuel beyond the first number changes nothing.
  spare_fuel :
      (k x y : ℕ) (n : ℕ) → n ≡ x + k → digits rest on_digits n x y ≡ digits rest on_digits x x y
  spare_fuel k x y n e = between n x x y (omega arith) (omega arith)
    where
      between :
          (n m x y : ℕ) → m ≤ n → x ≤ m → digits rest on_digits n x y ≡ digits rest on_digits m x y
      between n m zero y up down = no_digits n y ∙ sym (no_digits m y)
      between n zero (suc x) y up down = absurd (omega arith)
      between zero (suc m) (suc x) y up down = absurd (omega arith)
      between (suc n) (suc m) (suc x) y up down =
          ap (λ (t : ℕ). t * 2 + on_digits (suc x % 2) (y % 2))
            (between n m (suc x / 2) (y / 2) (omega arith) (omega arith))

  lowest_digit :
      (x y : ℕ)
      → digits rest on_digits (suc x) (suc x) y
        ≡ on_digits (suc x % 2) (y % 2) + 2 * digits rest on_digits (suc x / 2) (suc x / 2) (y / 2)
  lowest_digit x y =
      let half = suc x / 2 in omega (arith, spare_fuel (x - half) half (y / 2) x (omega arith))

pub low-bit_and : (x y : ℕ) → bit_and x y ≡ min (x % 2) (y % 2) + 2 * bit_and (x / 2) (y / 2)
low-bit_and zero y = omega (arith, bit_and-bitwise 0 y, bit_and-bitwise 0 (y / 2))
low-bit_and (suc x) y =
    rw (bit_and-bitwise (suc x) y, bit_and-bitwise (suc x / 2) (y / 2))
      (lowest_digit (λ y. zero) min x y)

pub low-bit_or : (x y : ℕ) → bit_or x y ≡ max (x % 2) (y % 2) + 2 * bit_or (x / 2) (y / 2)
low-bit_or zero y = omega (arith, bit_or-bitwise 0 y, bit_or-bitwise 0 (y / 2))
low-bit_or (suc x) y =
    rw (bit_or-bitwise (suc x) y, bit_or-bitwise (suc x / 2) (y / 2))
      (lowest_digit (λ y. y) max x y)

-- The number without its last bit, and the last bit.
half_field : (k a b : ℕ) → (a * 2 ^ suc k + b) / 2 ≡ a * 2 ^ k + b / 2
half_field k a b = rw pow-suc (omega arith)

low_field : (k a b : ℕ) → (a * 2 ^ suc k + b) % 2 ≡ b % 2
low_field k a b = rw pow-suc (omega arith)

half_lt : (k b : ℕ) → b < 2 ^ suc k → b / 2 < 2 ^ k
half_lt k b h = omega (arith, pow-suc 2 k)

pub bit_and-split :
    (k a b c d : ℕ)
    → b < 2 ^ k
    → d < 2 ^ k
    → bit_and (a * 2 ^ k + b) (c * 2 ^ k + d) ≡ bit_and a c * 2 ^ k + bit_and b d
bit_and-split zero a b c d p q =
    let b0 : b ≡ 0 = omega arith in
    let d0 : d ≡ 0 = omega arith in
    let a1 : a * 1 + 0 ≡ a = omega arith in
    let c1 : c * 1 + 0 ≡ c = omega arith in rw (b0, d0, a1, c1) (omega arith)
bit_and-split (suc k) a b c d p q =
    low-bit_and (a * 2 ^ suc k + b) (c * 2 ^ suc k + d)
    ∙ rw (half_field k a b, half_field k c d, low_field k a b, low_field k c d)
        (omega (
          arith,
          bit_and-split k a (b / 2) c (d / 2) (half_lt k b p) (half_lt k d q),
          low-bit_and b d,
          pow-suc 2 k,
          ap (λ (t : ℕ). bit_and a c * t) (pow-suc 2 k),
        ))

pub bit_or-split :
    (k a b c d : ℕ)
    → b < 2 ^ k
    → d < 2 ^ k
    → bit_or (a * 2 ^ k + b) (c * 2 ^ k + d) ≡ bit_or a c * 2 ^ k + bit_or b d
bit_or-split zero a b c d p q =
    let b0 : b ≡ 0 = omega arith in
    let d0 : d ≡ 0 = omega arith in
    let a1 : a * 1 + 0 ≡ a = omega arith in
    let c1 : c * 1 + 0 ≡ c = omega arith in rw (b0, d0, a1, c1) (omega arith)
bit_or-split (suc k) a b c d p q =
    low-bit_or (a * 2 ^ suc k + b) (c * 2 ^ suc k + d)
    ∙ rw (half_field k a b, half_field k c d, low_field k a b, low_field k c d)
        (omega (
          arith,
          bit_or-split k a (b / 2) c (d / 2) (half_lt k b p) (half_lt k d q),
          low-bit_or b d,
          pow-suc 2 k,
          ap (λ (t : ℕ). bit_or a c * t) (pow-suc 2 k),
        ))

and_nothing : (n x : ℕ) → digits (λ y. zero) min n x 0 ≡ 0
and_nothing zero x = refl
and_nothing (suc n) zero = refl
and_nothing (suc n) (suc x) = omega (arith, and_nothing n (suc x / 2))

pub bit_and-zero : (x : ℕ) → bit_and x 0 ≡ 0
bit_and-zero x = bit_and-bitwise x 0 ∙ and_nothing x x

or_nothing : (n x : ℕ) → x ≤ n → digits (λ y. y) max n x 0 ≡ x
or_nothing zero x h = omega arith
or_nothing (suc n) zero h = refl
or_nothing (suc n) (suc x) h = omega (arith, or_nothing n (suc x / 2) (omega arith))

pub bit_or-zero : (x : ℕ) → bit_or x 0 ≡ x
bit_or-zero x = bit_or-bitwise x 0 ∙ or_nothing x x (omega arith)

pub zero-bit_or : (a : ℕ) → bit_or 0 a ≡ a
zero-bit_or a = bit_or-bitwise 0 a

pub pow2_pos : (k : ℕ) → 1 ≤ 2 ^ k
pow2_pos zero = omega arith
pow2_pos (suc k) = omega (arith, pow-suc 2 k, pow2_pos k)

-- A mask of `k` ones keeps a number of `k` bits.
pub bit_and-ones : (k b : ℕ) → b < 2 ^ k → bit_and b (2 ^ k - 1) ≡ b
bit_and-ones zero b h = let b0 : b ≡ 0 = omega arith in rw b0
bit_and-ones (suc k) b h =
    let half : (2 ^ suc k - 1) / 2 ≡ 2 ^ k - 1 = omega (arith, pow-suc 2 k, pow2_pos k) in
    let low : (2 ^ suc k - 1) % 2 ≡ 1 = omega (arith, pow-suc 2 k, pow2_pos k) in
    low-bit_and b (2 ^ suc k - 1)
    ∙ rw (half, low) (omega (arith, bit_and-ones k (b / 2) (half_lt k b h)))

pub pow2-add : (a b : ℕ) → 2 ^ (a + b) ≡ 2 ^ a * 2 ^ b
pow2-add zero b = let e : 0 + b ≡ b = omega arith in rw e (omega arith)
pow2-add (suc a) b =
    let e : suc a + b ≡ suc (a + b) = omega arith in
    rw e (omega (arith, pow-suc 2 (a + b), pow2-add a b, ap (λ (t : ℕ). t * 2 ^ b) (pow-suc 2 a)))

-- Setting a field of `w` bits above `k` empty ones.
pub bit_or-field :
    (w k n v : ℕ) → v < 2 ^ w → bit_or (n * 2 ^ (w + k)) (v * 2 ^ k) ≡ (n * 2 ^ w + v) * 2 ^ k
bit_or-field w k n v h =
    let high : n * 2 ^ (w + k) ≡ n * 2 ^ w * 2 ^ k + 0 =
      omega (arith, ap (λ (t : ℕ). n * t) (pow2-add w k)) in
    let low : v * 2 ^ k ≡ v * 2 ^ k + 0 = omega arith in
    let inner : bit_or (n * 2 ^ w) v ≡ n * 2 ^ w + v =
      ap₂ bit_or (omega arith) (omega arith)
      ∙ bit_or-split w n 0 0 v (pow2_pos w) h
      ∙ rw (bit_or-zero n, zero-bit_or v) in
    ap₂ bit_or high low
    ∙ bit_or-split k (n * 2 ^ w) 0 v 0 (pow2_pos k) (pow2_pos k)
    ∙ rw inner (omega arith)

-- Two numbers with fields below `p` are equal field by field.
pub field_eq : (p a b x y : ℕ) → x < p → y < p → a * p + x ≡ b * p + y → (a ≡ b) × (x ≡ y)
field_eq p a b x y hx hy e = elim (lt_trichotomy a b) [
  | inl lt ↦ absurd (omega (arith, mul-le-mul_right p lt))
  | inr (inl same) ↦ (same, omega (arith, ap (λ (t : ℕ). t * p) same))
  | inr (inr gt) ↦ absurd (omega (arith, mul-le-mul_right p gt))
]
  where
    lt_trichotomy : (a b : ℕ) → (a < b) ⊎ ((a ≡ b) ⊎ (b < a))
    lt_trichotomy a b = omega arith
