-- ===== src/Acl/Hextets.antt =====
-- packages/proxy-config/client-acl/src/parser.rs: IPv6 patterns with a compression.
use tor_socks.Base.{
  ◌/◌, ◌%◌, append_parts, take, drop, length-append, append_assoc, take-append_right, drop_all,
  length-take, append-nil, ℕ, zero, suc, ◌+◌, ◌-◌, ◌≤◌, ◌<◌, ◌≡◌, refl, ap, ◌∙◌, ◌≢◌, ◌⊎◌, false,
  ◌||◌, Option, none, some, List, [], ◌∷◌, ◌++◌, arith, length, if◌then◌else◌, ltb,
}
use tor_socks.OrdMap.{key_eq, key_eq_iff, key_eq_refl}
use tor_socks.OrdMap.Text.{Text, text_ord}
use tor_socks.Acl.Octets.{length-wildcards}
use tor_socks.Acl.Masks.{SlotFits}
use tor_socks.Acl.Endpoint.{is_empty_text}
use tor_socks.Acl.Parser.{star, hex_value, hex_number, parse_v6_hextet, wildcards, zeros, slots_of}
use tor_socks.Acl.AllowList.{copy_within, zero_fill, expand}
use tor_socks.Acl.Split.{Without}

length-zeros : (n : ℕ) → length (zeros n) ≡ n
length-zeros zero = refl
length-zeros (suc n) = ap suc (length-zeros n)

copied :
    (a b : ℕ) (slots right : List (Option ℕ))
    → a + b ≤ 8
    → length slots ≡ 8
    → take b (drop a slots) ≡ right
    → copy_within a (a + b) (8 - b) slots ≡ take (8 - b) slots ++ right
unfolding copy_within
copied a b slots right h e moved =
    let size : a + b - a ≡ b = omega arith in
    let none_left : drop (8 - b + (a + b - a)) slots ≡ [] =
      drop_all (8 - b + (a + b - a)) slots (omega (arith, e)) in
    let part : take (a + b - a) (drop a slots) ≡ right =
      ap (λ (n : ℕ). take n (drop a slots)) size ∙ moved in
    ground (arith, none_left, part, append-nil right)

filled :
    (b : ℕ) (left gap right : List (Option ℕ))
    → length left + length gap ≡ 8 - b
    → zero_fill (length left) (8 - b) ((left ++ gap) ++ right)
      ≡ left ++ (zeros (length gap) ++ right)
unfolding zero_fill
filled b left gap right e =
    let whole : length (left ++ gap) ≡ 8 - b = omega (arith, length-append left gap, e) in
    let size : 8 - b - length left ≡ length gap = omega (arith, e) in
    let (_, back) = append_parts (8 - b) (left ++ gap) right whole in
    let (front, _) = append_parts (length left) left (gap ++ right) refl in
    ground (arith, back, front, append_assoc left gap right, size)

-- The slots written before and after the `::` end up at the two ends, with exact zeros between.
pub expand-append :
    (left right : List (Option ℕ))
    → length left + length right < 8
    → expand (left ++ right) (length right)
      ≡ left ++ (zeros (8 - (length left + length right)) ++ right)
unfolding expand
expand-append left right h =
    let a = length left in
    let b = length right in
    let open_slots = wildcards (8 - length (left ++ right)) in
    let both = length-append left right in
    let slots = slots_of 8 (left ++ right) in
    let eight : length slots ≡ 8 = omega (
      arith,
      both,
      length-append (left ++ right) open_slots,
      length-wildcards (8 - length (left ++ right)),
    ) in
    let assoc : slots ≡ left ++ (right ++ open_slots) = append_assoc left right open_slots in
    let (_, behind) = append_parts a left (right ++ open_slots) refl in
    let (moved, _) = append_parts b right open_slots refl in
    let gap = take (8 - b - a) (right ++ open_slots) in
    let front : take (8 - b) slots ≡ left ++ gap =
      ap (take (8 - b)) assoc
      ∙ take-append_right (8 - b) left (right ++ open_slots) (omega arith) in
    let gap_size : length gap ≡ 8 - (a + b) = omega (
      arith,
      length-take (8 - b - a) (right ++ open_slots),
      length-append left (right ++ open_slots),
      ap length assoc,
      eight,
    ) in
    let fixed : length (left ++ right) - b ≡ a = omega (arith, both) in
    let run : ℕ → ℕ → List (Option ℕ) =
      λ from to. zero_fill from (8 - b) (copy_within from to (8 - b) slots) in
    let moved_slots : take b (drop a slots) ≡ right =
      ap (λ (xs : List (Option ℕ)). take b (drop a xs)) assoc ∙ ap (take b) behind ∙ moved in
    ap (λ (n : ℕ). run n (length (left ++ right))) fixed
    ∙ ap (run a) both
    ∙ ap (zero_fill a (8 - b)) (copied a b slots right (omega arith) eight moved_slots)
    ∙ ap (λ (xs : List (Option ℕ)). zero_fill a (8 - b) (xs ++ right)) front
    ∙ filled b left gap right (omega (arith, gap_size))
    ∙ ap (λ (n : ℕ). left ++ (zeros n ++ right)) gap_size

unfoldable pub hex_digit : ℕ → ℕ
hex_digit d = if ltb d 10 then 48 + d else 87 + d

-- The text of a hextet: lower-case digits without leading zeros.
unfoldable pub hexadecimal : ℕ → Text
hexadecimal v =
    if ltb v 16
    then hex_digit v ∷ []
    else if ltb v 256
    then hex_digit (v / 16) ∷ hex_digit (v % 16) ∷ []
    else if ltb v 4096
    then hex_digit (v / 256) ∷ hex_digit (v / 16 % 16) ∷ hex_digit (v % 16) ∷ []
    else hex_digit (v / 4096)
      ∷ hex_digit (v / 256 % 16)
      ∷ hex_digit (v / 16 % 16)
      ∷ hex_digit (v % 16)
      ∷ []

unfoldable pub hextet_text : Option ℕ → Text
hextet_text none = star
hextet_text (some v) = hexadecimal v

hex_value-hex_digit : (d : ℕ) → d < 16 → hex_value (hex_digit d) ≡ some d
unfolding hex_value hex_digit
hex_value-hex_digit d h = ground arith

hex_number-hexadecimal : (v : ℕ) → v < 65536 → hex_number 0 (hexadecimal v) ≡ some v
unfolding hex_number hexadecimal
hex_number-hexadecimal v h = ground (
  arith,
  hex_value-hex_digit v,
  hex_value-hex_digit (v / 16),
  hex_value-hex_digit (v / 256),
  hex_value-hex_digit (v / 4096),
  hex_value-hex_digit (v / 256 % 16),
  hex_value-hex_digit (v / 16 % 16),
  hex_value-hex_digit (v % 16),
)

hex_digit_lem : (d : ℕ) → hex_digit d ≢ 42
unfolding hex_digit
hex_digit_lem d = ground arith

hexadecimal-star : (v : ℕ) → key_eq (hexadecimal v) star ≡ false
unfolding hexadecimal
hexadecimal-star v = ground (arith, key_eq_iff {K = Text} (hexadecimal v) star, hex_digit_lem v)

hexadecimal_size :
    (v : ℕ) → (is_empty_text (hexadecimal v) || ltb 4 (length (hexadecimal v))) ≡ false
unfolding hexadecimal
hexadecimal_size v = ground arith

pub parse_v6_hextet-hextet_text :
    (s : Option ℕ) → SlotFits 16 s → parse_v6_hextet (hextet_text s) ≡ some s
unfolding parse_v6_hextet hextet_text
parse_v6_hextet-hextet_text none h = ground (arith, key_eq_refl {K = Text} star)
parse_v6_hextet-hextet_text (some v) h =
    ground (arith, hexadecimal-star v, hexadecimal_size v, hex_number-hexadecimal v h)

pub hextet_text-Without :
    (c : ℕ) (s : Option ℕ) → (c ≡ 46) ⊎ (c ≡ 58) → SlotFits 16 s → Without c (hextet_text s)
unfolding hextet_text hexadecimal hex_digit
hextet_text-Without c none which h = ground arith
hextet_text-Without c (some v) which h = ground arith
