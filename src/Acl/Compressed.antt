-- ===== src/Acl/Compressed.antt =====
-- packages/proxy-config/client-acl/src/parser.rs: the rules of IPv6 patterns with a compression.
use tor_socks.Base.{
  map-append, length-map, All-append, ℕ, ◌+◌, ◌-◌, ◌<◌, ◌≡◌, refl, ◌∙◌, inl, inr, true, false,
  Option, none, some, List, [], ◌∷◌, ◌++◌, map, arith, length, All, Option-cases,
}
use tor_socks.OrdMap.Text.{Text}
use tor_socks.Acl.Masks.{SlotFits}
use tor_socks.Acl.Endpoint.{contains}
use tor_socks.Acl.Parser.{accepted, parse_v6_hextet, zeros, split}
use tor_socks.Acl.AllowList.{
  rfind_colon, groups_of, compile_v6, parse_compressed, parse_hextets, parse_ipv6_wildcard,
}
use tor_socks.Acl.Split.{join, Without, split-join, read_slots-map}
use tor_socks.Acl.Hextets.{
  expand-append, hexadecimal, hextet_text, parse_v6_hextet-hextet_text, hextet_text-Without,
}
use tor_socks.Acl.Compression.{
  starts_part, starts_part-join, split_once_pair-append, has_triple-append, contains-rfind_colon,
  IsPart, spaced-join, part_or_end-join, contains-append, contains-join,
}

abbrev pub hextets_text : List (Option ℕ) → Text
hextets_text slots = join 58 (map hextet_text slots)

hextet_text-IsPart : (s : Option ℕ) → SlotFits 16 s → IsPart (hextet_text s)
unfolding hextet_text hexadecimal
hextet_text-IsPart none h = (λ e. ground (arith, e), hextet_text-Without 58 none (inr refl) h)
hextet_text-IsPart (some v) h =
    (λ e. ground (arith, e), hextet_text-Without 58 (some v) (inr refl) h)

module _ (P : Text → Type 0) (each : (s : Option ℕ) → SlotFits 16 s → P (hextet_text s)) where
  All-texts : (slots : List (Option ℕ)) → All (SlotFits 16) slots → All P (map hextet_text slots)
  All-texts [] h = tt
  All-texts (s ∷ slots) h = (each s h.0, All-texts slots h.1)

texts-IsPart :
    (slots : List (Option ℕ)) → All (SlotFits 16) slots → All IsPart (map hextet_text slots)
texts-IsPart = All-texts IsPart hextet_text-IsPart

texts-no_dot :
    (slots : List (Option ℕ)) → All (SlotFits 16) slots → All (Without 46) (map hextet_text slots)
texts-no_dot = All-texts (Without 46) (λ s h. hextet_text-Without 46 s (inl refl) h)

groups_of-split : (t : Text) → starts_part t ≡ true → groups_of t ≡ split 58 t
groups_of-split [] h = absurd (ground arith)
groups_of-split (c ∷ cs) h = refl

groups_of-hextets_text :
    (slots : List (Option ℕ))
    → All (SlotFits 16) slots
    → groups_of (hextets_text slots) ≡ map hextet_text slots
groups_of-hextets_text [] h = refl
groups_of-hextets_text (s ∷ slots) h =
    let parts = texts-IsPart (s ∷ slots) h in
    groups_of-split (hextets_text (s ∷ slots))
      (starts_part-join (hextet_text s) (map hextet_text slots) parts)
    ∙ split-join 58 (hextet_text s) (map hextet_text slots)
        (All-texts (Without 58) (λ x f. hextet_text-Without 58 x (inr refl) f) (s ∷ slots) h)

module _ (left right : List (Option ℕ)) (fit_left : All (SlotFits 16) left)
    (fit_right : All (SlotFits 16) right) where
  parse_hextets-compressed :
      length left + length right < 8
      → parse_hextets (hextets_text left ++ (58 ∷ 58 ∷ hextets_text right))
        ≡ accepted (compile_v6 (left ++ (zeros (8 - (length left + length right)) ++ right)))
  unfolding parse_hextets parse_compressed
  parse_hextets-compressed h =
      let found =
        split_once_pair-append (hextets_text left) (hextets_text right)
          (spaced-join (map hextet_text left) (texts-IsPart left fit_left)) in
      let read =
        read_slots-map parse_v6_hextet hextet_text (SlotFits 16) parse_v6_hextet-hextet_text
          (left ++ right) (All-append (SlotFits 16) left right fit_left fit_right) in
      ground (
        arith,
        found,
        groups_of-hextets_text left fit_left,
        groups_of-hextets_text right fit_right,
        length-map hextet_text left,
        length-map hextet_text right,
        map-append hextet_text left right,
        read,
        expand-append left right h,
      )

  no_dot : contains 46 (hextets_text left ++ (58 ∷ 58 ∷ hextets_text right)) ≡ false
  unfolding contains
  no_dot = ground (
    arith,
    contains-append 46 (hextets_text left) (58 ∷ 58 ∷ hextets_text right),
    contains-join (map hextet_text left) (texts-no_dot left fit_left),
    contains-join (map hextet_text right) (texts-no_dot right fit_right),
  )

-- The text of at most seven hextets or wildcards with a `::` between them is accepted; its rule is
-- compiled from the eight slots that have exact zeros, never wildcards, in the place of the `::`.
pub parse_ipv6_wildcard-compressed :
    (parse_v6 : Text → Option ℕ) (left right : List (Option ℕ))
    → All (SlotFits 16) left
    → All (SlotFits 16) right
    → length left + length right < 8
    → parse_ipv6_wildcard parse_v6 (hextets_text left ++ (58 ∷ 58 ∷ hextets_text right))
      ≡ accepted (compile_v6 (left ++ (zeros (8 - (length left + length right)) ++ right)))
unfolding parse_ipv6_wildcard
parse_ipv6_wildcard-compressed parse_v6 left right fit_left fit_right h =
    let token = hextets_text left ++ (58 ∷ 58 ∷ hextets_text right) in
    let single =
      has_triple-append (hextets_text left) (hextets_text right)
        (spaced-join (map hextet_text left) (texts-IsPart left fit_left))
        (part_or_end-join (map hextet_text right) (texts-IsPart right fit_right))
        (spaced-join (map hextet_text right) (texts-IsPart right fit_right)) in
    let parsed = parse_hextets-compressed left right fit_left fit_right h in
    elim (Option-cases (rfind_colon token)) [
      | inl e ↦ ground (arith, single, e, parsed)
      | inr ((head, tail), e) ↦ ground (
        arith,
        single,
        e,
        contains-rfind_colon token e (no_dot left right fit_left fit_right),
        parsed,
      )
    ]
