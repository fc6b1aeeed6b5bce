-- ===== src/Acl/Masks.antt =====
-- packages/proxy-config/client-acl/src/matcher.rs: what a rule compiled from slots matches.
use tor_socks.Base.{
  ℕ, suc, ◌+◌, ◌-◌, ◌*◌, ◌^◌, ◌%◌, ◌/◌, ◌<◌, ◌≡◌, refl, ap, ◌∙◌, ◌↔◌, true, Option, none, some,
  List, [], ◌∷◌, map, arith, length, All,
}
use Prim.Native.Nat.{bit_and, bit_or}
use mathlib.Core.Path.{ap₂}
use tor_socks.Base.Bits.{
  bit_and-split, bit_and-zero, bit_and-ones, bit_or-field, pow2-add, pow2_pos, field_eq,
}
use tor_socks.Acl.Rule.{
  v4, v6, Rule, slots_loop, rule_from_v4_slots, rule_from_v6_slots, matches, allows, normalize_peer,
}

-- The number made of these fields of `w` bits, after the fields of `acc`.
pub fields : ℕ → ℕ → List ℕ → ℕ
fields w acc [] = acc
fields w acc (x ∷ xs) = fields w (acc * 2 ^ w + x) xs

abbrev pub slot_value : Option ℕ → ℕ
slot_value none = 0
slot_value (some v) = v

slot_mask : ℕ → Option ℕ → ℕ
slot_mask w none = 0
slot_mask w (some v) = 2 ^ w - 1

-- Each fixed slot is the field of the address at its place.
unfoldable pub SlotsMatch : List (Option ℕ) → List ℕ → Type 0
SlotsMatch [] [] = Unit
SlotsMatch [] (x ∷ xs) = Unit
SlotsMatch (s ∷ slots) [] = Unit
SlotsMatch (none ∷ slots) (x ∷ xs) = SlotsMatch slots xs
SlotsMatch (some v ∷ slots) (x ∷ xs) = (x ≡ v) × SlotsMatch slots xs

abbrev pub SlotFits : ℕ → Option ℕ → Type 0
SlotFits w s = slot_value s < 2 ^ w

SlotsMatch-cons :
    (s : Option ℕ) (slots : List (Option ℕ)) (x : ℕ) (xs : List ℕ)
    → SlotsMatch (s ∷ slots) (x ∷ xs) ↔ (SlotsMatch (s ∷ []) (x ∷ []) × SlotsMatch slots xs)
unfolding SlotsMatch
SlotsMatch-cons none slots x xs = (λ h. (tt, h), λ h. h.1)
SlotsMatch-cons (some v) slots x xs = (λ h. ((h.0, tt), h.1), λ h. (h.0.0, h.1))

module _ (w : ℕ) where
  -- One field more: the masked numbers agree iff they agreed before and the field does.
  field_matches :
      (n m a x : ℕ) (s : Option ℕ)
      → x < 2 ^ w
      → slot_value s < 2 ^ w
      → (bit_and (a * 2 ^ w + x) (m * 2 ^ w + slot_mask w s)
          ≡ bit_and (n * 2 ^ w + slot_value s) (m * 2 ^ w + slot_mask w s))
        ↔ ((bit_and a m ≡ bit_and n m) × SlotsMatch (s ∷ []) (x ∷ []))
  unfolding slot_mask SlotsMatch
  field_matches n m a x none hx hs =
      rw
        (
          bit_and-split w a x m 0 hx (pow2_pos w),
          bit_and-split w n 0 m 0 hs (pow2_pos w),
          bit_and-zero x,
        )
        (
          λ e. (
            (field_eq (2 ^ w) (bit_and a m) (bit_and n m) 0 0 (pow2_pos w) (pow2_pos w) e).0,
            tt,
          ),
          λ t. ap (λ (k : ℕ). k * 2 ^ w + 0) t.0,
        )
  field_matches n m a x (some v) hx hs =
      let ones : 2 ^ w - 1 < 2 ^ w = omega (arith, pow2_pos w) in
      rw
        (
          bit_and-split w a x m (2 ^ w - 1) hx ones,
          bit_and-split w n v m (2 ^ w - 1) hs ones,
          bit_and-ones w x hx,
          bit_and-ones w v hs,
        )
        (
          λ e.
              let same = field_eq (2 ^ w) (bit_and a m) (bit_and n m) x v hx hs e in
              (same.0, (same.1, tt)),
          λ t. ap (λ (k : ℕ). k * 2 ^ w + x) t.0 ∙ ap (λ (k : ℕ). bit_and n m * 2 ^ w + k) t.1.0,
        )

  -- The two sides agree iff every fixed slot does.
  fields_match :
      (n m a : ℕ) (slots : List (Option ℕ)) (xs : List ℕ)
      → length slots ≡ length xs
      → All (SlotFits w) slots
      → All (λ x. x < 2 ^ w) xs
      → (bit_and (fields w a xs) (fields w m (map (slot_mask w) slots))
          ≡ bit_and (fields w n (map slot_value slots)) (fields w m (map (slot_mask w) slots)))
        ↔ ((bit_and a m ≡ bit_and n m) × SlotsMatch slots xs)
  unfolding fields SlotsMatch
  fields_match n m a [] [] e hs hx = (λ h. (h, tt), λ h. h.0)
  fields_match n m a [] (x ∷ xs) e hs hx = absurd (omega arith)
  fields_match n m a (s ∷ slots) [] e hs hx = absurd (omega arith)
  fields_match n m a (s ∷ slots) (x ∷ xs) e hs hx =
      let rest =
        fields_match (n * 2 ^ w + slot_value s) (m * 2 ^ w + slot_mask w s) (a * 2 ^ w + x) slots xs
          (omega arith) hs.1 hx.1 in
      let here = field_matches n m a x s hx.0 hs.0 in
      let split = SlotsMatch-cons s slots x xs in
      (
        λ h. let r = rest.0 h in let q = here.0 r.0 in (q.0, split.1 (q.1, r.1)),
        λ h. let q = split.0 h.1 in rest.1 (here.1 (h.0, q.0), q.1),
      )

  pow_step : (n k : ℕ) → n * 2 ^ (w * suc k) ≡ (n * 2 ^ w + 0) * 2 ^ (w * k)
  pow_step n k =
      let more : w * suc k ≡ w + w * k = omega arith in
      rw more (omega (arith, ap (λ (t : ℕ). n * t) (pow2-add w (w * k))))

  -- Setting the field at place `i`, with `k` fields to come.
  shifted :
      (top i k n v : ℕ)
      → top + w ≡ w * i + w * suc k
      → v < 2 ^ w
      → bit_or (n * 2 ^ (w * suc k)) (v * 2 ^ (top - w * i)) ≡ (n * 2 ^ w + v) * 2 ^ (w * k)
  shifted top i k n v e h =
      let more : w * suc k ≡ w + w * k = omega arith in
      let shift : top - w * i ≡ w * k = omega arith in
      rw (more, shift) (bit_or-field w (w * k) n v h)

  slots_loop_lem :
      (top i : ℕ) (slots : List (Option ℕ)) (n m : ℕ)
      → top + w ≡ w * i + w * length slots
      → All (SlotFits w) slots
      → slots_loop w top i slots (n * 2 ^ (w * length slots)) (m * 2 ^ (w * length slots))
        ≡ (fields w n (map slot_value slots), fields w m (map (slot_mask w) slots))
  unfolding fields slots_loop slot_mask
  slots_loop_lem top i [] n m e hs =
      let zero_bits : w * 0 ≡ 0 = omega arith in
      let one : (k : ℕ) → k * 1 ≡ k = λ k. omega arith in rw (zero_bits, one n, one m) refl
  slots_loop_lem top i (none ∷ slots) n m e hs =
      ap₂ (slots_loop w top (suc i) slots) (pow_step n (length slots)) (pow_step m (length slots))
      ∙ slots_loop_lem top (suc i) slots (n * 2 ^ w + 0) (m * 2 ^ w + 0) (omega arith) hs.1
  slots_loop_lem top i (some v ∷ slots) n m e hs =
      let ones : 2 ^ w - 1 < 2 ^ w = omega (arith, pow2_pos w) in
      ap₂ (slots_loop w top (suc i) slots) (shifted top i (length slots) n v e hs.0)
        (shifted top i (length slots) m (2 ^ w - 1) e ones)
      ∙ slots_loop_lem top (suc i) slots (n * 2 ^ w + v) (m * 2 ^ w + (2 ^ w - 1)) (omega arith)
          hs.1

-- An address made of fields of `w` bits, against the network and the mask of slots.
module _ (w top : ℕ) where
  compiled_matches :
      (slots : List (Option ℕ)) (xs : List ℕ)
      → top + w ≡ w * length slots
      → length slots ≡ length xs
      → All (SlotFits w) slots
      → All (λ x. x < 2 ^ w) xs
      → (bit_and (fields w 0 xs) (slots_loop w top 0 slots 0 0).1
          ≡ bit_and (slots_loop w top 0 slots 0 0).0 (slots_loop w top 0 slots 0 0).1)
        ↔ SlotsMatch slots xs
  compiled_matches slots xs e len hs hx =
      let both = fields_match w 0 0 0 slots xs len hs hx in
      let none_set : 0 ≡ 0 * 2 ^ (w * length slots) = omega arith in
      let loop : slots_loop w top 0 slots 0 0
          ≡ (fields w 0 (map slot_value slots), fields w 0 (map (slot_mask w) slots)) =
        ap₂ (slots_loop w top 0 slots) none_set none_set
        ∙ slots_loop_lem w top 0 slots 0 0 (omega arith) hs in
      rw loop (λ h. (both.0 h).1, λ h. both.1 (refl, h))

-- The rule compiled from four slots, each an octet or a wildcard, matches an IPv4 address iff every
-- fixed slot is the octet of the address at its place.
pub matches-rule_from_v4_slots :
    (slots : List (Option ℕ)) (octets : List ℕ)
    → length slots ≡ 4
    → length octets ≡ 4
    → All (SlotFits 8) slots
    → All (λ x. x < 2 ^ 8) octets
    → (matches (rule_from_v4_slots slots) (v4 (fields 8 0 octets)) ≡ true) ↔ SlotsMatch slots octets
unfolding matches rule_from_v4_slots
matches-rule_from_v4_slots slots octets n m hs hx =
    let r = compiled_matches 8 24 slots octets (omega arith) (omega arith) hs hx in
    ground (arith, r)

-- The rule compiled from eight slots, each a hextet or a wildcard, matches an IPv6 address iff every
-- fixed slot is the hextet of the address at its place.
pub matches-rule_from_v6_slots :
    (slots : List (Option ℕ)) (hextets : List ℕ)
    → length slots ≡ 8
    → length hextets ≡ 8
    → All (SlotFits 16) slots
    → All (λ x. x < 2 ^ 16) hextets
    → (matches (rule_from_v6_slots slots) (v6 (fields 16 0 hextets)) ≡ true)
      ↔ SlotsMatch slots hextets
unfolding matches rule_from_v6_slots
matches-rule_from_v6_slots slots hextets n m hs hx =
    let r = compiled_matches 16 112 slots hextets (omega arith) (omega arith) hs hx in
    ground (arith, r)

-- An IPv4 address below 2^32 written in IPv6 form is treated as the IPv4 address.
pub allows-mapped :
    (rules : List Rule) (a : ℕ)
    → a < 2 ^ 32
    → allows rules (v6 (0xffff * 2 ^ 32 + a)) ≡ allows rules (v4 a)
unfolding allows normalize_peer
allows-mapped rules a h =
    let high : (0xffff * 2 ^ 32 + a) / 2 ^ 32 ≡ 0xffff = omega arith in
    let low : (0xffff * 2 ^ 32 + a) % 2 ^ 32 ≡ a = omega arith in ground (arith, high, low)
