-- ===== src/Store/SourceText.antt =====
-- packages/bridge-store/src/persistence.rs: source labels in the meta comments of the store's file.
-- A character is its list of UTF-8 bytes; `char::is_whitespace` is a parameter.
use tor_socks.Base.{
  ◌/◌, ◌%◌, ℕ, ◌+◌, ◌-◌, ◌*◌, ◌<◌, ◌≡◌, refl, sym, ap, ◌∙◌, ◌≢◌, inl, inr, Bool, true, false, ◌&&◌,
  Option, none, some, List, [], ◌∷◌, ◌++◌, arith, if◌then◌else◌, All, Bool-cases, ◌==◌, ltb, leb,
}
use tor_socks.OrdMap.{key_eq, key_eq_iff}
use tor_socks.OrdMap.Text.{Text, text_ord}

abbrev pub percent : ℕ
percent = 37

-- A digit of `HEX`, and `char::to_digit(16)`.
unfoldable pub hex_digit : ℕ → ℕ
hex_digit d = if ltb d 10 then 48 + d else 55 + d

unfoldable pub to_digit : ℕ → Option ℕ
to_digit c =
    if leb 48 c && leb c 57
    then some (c - 48)
    else if leb 65 c && leb c 70
    then some (c - 55)
    else if leb 97 c && leb c 102
    then some (c - 87)
    else none

unfoldable pub escape : Text → Text
unfolding hex_digit
escape [] = []
escape (b ∷ bytes) = percent ∷ hex_digit (b / 16) ∷ hex_digit (b % 16) ∷ escape bytes

module _ (is_whitespace : Text → Bool) where
  unfoldable pub encode_char : Text → Text
  unfolding escape
  encode_char c =
      if key_eq c (percent ∷ [])
      then percent ∷ 50 ∷ 53 ∷ []
      else if key_eq c (44 ∷ [])
      then percent ∷ 50 ∷ 67 ∷ []
      else if is_whitespace c
      then escape c
      else c

  unfoldable pub encode_source : List Text → Text
  unfolding encode_char
  encode_source [] = []
  encode_source (c ∷ label) = encode_char c ++ encode_source label

-- The bytes of `decode_source`, before they are read as UTF-8.
unfoldable pub decode_source : Text → Text
unfolding to_digit
decode_source [] = []
decode_source (b ∷ []) = b ∷ []
decode_source (b ∷ h ∷ []) = b ∷ h ∷ []
decode_source (b ∷ h ∷ l ∷ rest) = elim (b == percent) [
  | false ↦ b ∷ decode_source (h ∷ l ∷ rest)
  | true ↦ elim (to_digit h) [
    | none ↦ b ∷ decode_source (h ∷ l ∷ rest)
    | some hi ↦ elim (to_digit l) [
      | none ↦ b ∷ decode_source (h ∷ l ∷ rest)
      | some lo ↦ (hi * 16 + lo) ∷ decode_source rest
    ]
  ]
]

unfoldable pub bytes_of : List Text → Text
bytes_of [] = []
bytes_of (c ∷ label) = c ++ bytes_of label

to_digit-hex_digit : (d : ℕ) → d < 16 → to_digit (hex_digit d) ≡ some d
unfolding to_digit hex_digit
to_digit-hex_digit d h = ground arith

decode_source-plain : (b : ℕ) (t : Text) → b ≢ percent → decode_source (b ∷ t) ≡ b ∷ decode_source t
unfolding decode_source
decode_source-plain b [] h = refl
decode_source-plain b (x ∷ []) h = refl
decode_source-plain b (x ∷ y ∷ t) h = ground arith

decode_source-escaped :
    (b : ℕ) (t : Text)
    → b < 256
    → decode_source (percent ∷ hex_digit (b / 16) ∷ hex_digit (b % 16) ∷ t) ≡ b ∷ decode_source t
unfolding decode_source
decode_source-escaped b t h =
    ground
      (arith, to_digit-hex_digit (b / 16) (omega arith), to_digit-hex_digit (b % 16) (omega arith))

decode_source-escape :
    (c t : Text) → All (λ b. b < 256) c → decode_source (escape c ++ t) ≡ c ++ decode_source t
unfolding escape
decode_source-escape [] t h = refl
decode_source-escape (b ∷ c) t h =
    decode_source-escaped b (escape c ++ t) h.0 ∙ ap (◌∷◌ b) (decode_source-escape c t h.1)

decode_source-kept :
    (c t : Text) → All (λ b. b ≢ percent) c → decode_source (c ++ t) ≡ c ++ decode_source t
decode_source-kept [] t h = refl
decode_source-kept (b ∷ c) t h =
    decode_source-plain b (c ++ t) h.0 ∙ ap (◌∷◌ b) (decode_source-kept c t h.1)

-- The UTF-8 form of a character: bytes, and the percent sign only as itself.
pub record IsChar (c : Text) : Type 0 where
  pub bytes : All (λ b. b < 256) c
  pub percent_alone : key_eq c (percent ∷ []) ≡ false → All (λ b. b ≢ percent) c

module _ (is_whitespace : Text → Bool) where
  decode_source-encode_char :
      (c t : Text)
      → IsChar c
      → decode_source (encode_char is_whitespace c ++ t) ≡ c ++ decode_source t
  unfolding encode_char hex_digit
  decode_source-encode_char c t char = elim (Bool-cases (key_eq c (percent ∷ []))) [
    | inl is_percent ↦
        ap (λ (x : Text). decode_source (x ++ t)) (encode-percent c is_percent)
        ∙ decode_source-escaped percent t (omega arith)
        ∙ ap (λ (x : Text). x ++ decode_source t) (sym ((key_eq_iff c (percent ∷ [])).0 is_percent))
    | inr other ↦ elim (Bool-cases (key_eq c (44 ∷ []))) [
      | inl is_comma ↦
          ap (λ (x : Text). decode_source (x ++ t)) (encode-comma c other is_comma)
          ∙ decode_source-escaped 44 t (omega arith)
          ∙ ap (λ (x : Text). x ++ decode_source t) (sym ((key_eq_iff c (44 ∷ [])).0 is_comma))
      | inr plain ↦ ground (
        arith,
        other,
        plain,
        decode_source-escape c t char.bytes,
        decode_source-kept c t (char.percent_alone other),
      )
    ]
  ]
    where
      encode-percent :
          (c : Text)
          → key_eq c (percent ∷ []) ≡ true
          → encode_char is_whitespace c ≡ percent ∷ 50 ∷ 53 ∷ []
      encode-percent c h = ground (arith, h)

      encode-comma :
          (c : Text)
          → key_eq c (percent ∷ []) ≡ false
          → key_eq c (44 ∷ []) ≡ true
          → encode_char is_whitespace c ≡ percent ∷ 50 ∷ 67 ∷ []
      encode-comma c h k = ground (arith, h, k)

  -- If each character of a label is in UTF-8 form, decoding its encoded form gives back its bytes,
  -- whatever counts as white space.
  pub decode_source-encode_source :
      (label : List Text)
      → All IsChar label
      → decode_source (encode_source is_whitespace label) ≡ bytes_of label
  unfolding encode_source bytes_of decode_source
  decode_source-encode_source [] h = refl
  decode_source-encode_source (c ∷ label) h =
      decode_source-encode_char c (encode_source is_whitespace label) h.0
      ∙ ap (◌++◌ c) (decode_source-encode_source label h.1)
