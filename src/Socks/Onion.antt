-- ===== src/Socks/Onion.antt =====
-- packages/socks5-proto/src/lib.rs: `is_onion`, the hosts that are routed as onion services.
use tor_socks.Base.{
  append_assoc, ℕ, zero, suc, ◌+◌, ◌≡◌, refl, sym, ap, subst, ◌∙◌, ◌≢◌, ◌↔◌, ◌⊎◌, inl, inr, Bool,
  true, false, ◌&&◌, Option, none, some, List, [], ◌∷◌, ◌++◌, map, arith, if◌then◌else◌, All,
  Bool-cases, Option-cases, ◌==◌, leb,
}
use tor_socks.OrdMap.{key_eq, key_eq_refl, key_eq_iff}
use tor_socks.OrdMap.Text.{Text, text_ord}

-- `trim_end_matches('.')`
unfoldable pub trim_dots : Text → Text
trim_dots [] = []
trim_dots (c ∷ cs) =
    let rest = trim_dots cs in
    elim rest [ [] ↦ if c == 46 then [] else c ∷ [] | d ∷ ds ↦ c ∷ d ∷ ds ]

-- The part after the last dot: `rsplit_once('.')`, its second component.
unfoldable pub last_label : Text → Option Text
last_label [] = none
last_label (c ∷ cs) =
    let rest = last_label cs in
    elim rest [ some tld ↦ some tld | none ↦ if c == 46 then some cs else none ]

unfoldable pub ascii_lower : ℕ → ℕ
ascii_lower c = if leb 65 c && leb c 90 then c + 32 else c

abbrev pub onion : Text
onion = 111 ∷ 110 ∷ 105 ∷ 111 ∷ 110 ∷ []

unfoldable pub is_onion : Text → Bool
is_onion host = elim (last_label (trim_dots host)) [
  | some tld ↦ key_eq (map ascii_lower tld) onion
  | none ↦ false
]

abbrev pub dots : ℕ → Text
dots zero = []
dots (suc n) = 46 ∷ dots n

-- No dot at the end, and none at all.
abbrev pub NoDot : Text → Type 0
NoDot cs = All (λ (c : ℕ). c ≢ 46) cs

List-cases : (xs : List ℕ) → (xs ≡ []) ⊎ ((c : ℕ) × (cs : List ℕ) × (xs ≡ c ∷ cs))
List-cases [] = inl refl
List-cases (c ∷ cs) = inr (c, cs, refl)

trim_dots-split : (host : Text) → (n : ℕ) × (host ≡ trim_dots host ++ dots n)
unfolding trim_dots
trim_dots-split [] = (0, refl)
trim_dots-split (c ∷ cs) =
    let (n, e) = trim_dots-split cs in
    elim (List-cases (trim_dots cs)) [
      | inr (d, ds, kept) ↦ (n, ground (arith, e, kept))
      | inl gone ↦ elim (Bool-cases (c == 46)) [
        | inl dot ↦ (suc n, ground (arith, e, gone))
        | inr other ↦ (n, ground (arith, e, gone))
      ]
    ]

last_label-split :
    (host : Text) {tld : Text}
    → last_label host ≡ some tld
    → (label : Text) × (host ≡ label ++ (46 ∷ tld))
unfolding last_label
last_label-split [] h = absurd (ground arith)
last_label-split (c ∷ cs) {tld = tld} h = elim (Option-cases (last_label cs)) [
  | inl e ↦ ([], ground (arith, e))
  | inr (t, e) ↦
      let same : t ≡ tld = ground (arith, e) in
      let (label, split) =
        last_label-split cs (subst (λ (x : Text). last_label cs ≡ some x) same e) in
      (c ∷ label, ap (◌∷◌ c) split)
]

trim_dots-dots : (n : ℕ) → trim_dots (dots n) ≡ []
unfolding trim_dots
trim_dots-dots zero = refl
trim_dots-dots (suc n) = ground (arith, trim_dots-dots n)

trim_dots_label : (tld : Text) (n : ℕ) → NoDot tld → trim_dots (tld ++ dots n) ≡ tld
unfolding trim_dots
trim_dots_label [] n free = trim_dots-dots n
trim_dots_label (c ∷ []) n free = ground (arith, trim_dots-dots n, free.0)
trim_dots_label (c ∷ d ∷ ds) n free = ground (arith, trim_dots_label (d ∷ ds) n free.1)

trim_dots-append : (xs ys : Text) → trim_dots ys ≢ [] → trim_dots (xs ++ ys) ≡ xs ++ trim_dots ys
unfolding trim_dots
trim_dots-append [] ys kept = refl
trim_dots-append (x ∷ []) ys kept = elim (List-cases (trim_dots ys)) [
  | inl e ↦ absurd (kept e)
  | inr (d, ds, e) ↦ ground (arith, e)
]
trim_dots-append (x ∷ y ∷ xs) ys kept = ground (arith, trim_dots-append (y ∷ xs) ys kept)

last_label_free : (tld : Text) → NoDot tld → last_label tld ≡ none
unfolding last_label
last_label_free [] free = refl
last_label_free (c ∷ cs) free = ground (arith, last_label_free cs free.1, free.0)

last_label-append : (label tld : Text) → NoDot tld → last_label (label ++ (46 ∷ tld)) ≡ some tld
unfolding last_label
last_label-append [] tld free = ground (arith, last_label_free tld free)
last_label-append (c ∷ label) tld free = ground (arith, last_label-append label tld free)

-- A label whose letters spell `onion` has no dot.
NoDot-map : (tld : Text) → NoDot (map ascii_lower tld) → NoDot tld
unfolding ascii_lower
NoDot-map [] free = tt
NoDot-map (c ∷ cs) free = (λ e. free.0 (ground (arith, e)), NoDot-map cs free.1)

onion-NoDot : NoDot onion
onion-NoDot =
    let far : (c : ℕ) → leb 47 c ≡ true → c ≢ 46 = λ c h e. ground (arith, h, e) in
    (far 111 refl, (far 110 refl, (far 105 refl, (far 111 refl, (far 110 refl, tt)))))

trim_host :
    (label tld : Text) (n : ℕ)
    → NoDot tld
    → tld ≢ []
    → trim_dots (label ++ (46 ∷ (tld ++ dots n))) ≡ label ++ (46 ∷ tld)
unfolding trim_dots
trim_host label [] n free some_tld = absurd (some_tld refl)
trim_host label (c ∷ cs) n free some_tld =
    let tail : trim_dots (46 ∷ ((c ∷ cs) ++ dots n)) ≡ 46 ∷ c ∷ cs =
      ground (arith, trim_dots_label (c ∷ cs) n free) in
    trim_dots-append label (46 ∷ ((c ∷ cs) ++ dots n)) (λ e. ground (arith, tail))
    ∙ ap (λ (xs : Text). label ++ xs) tail

-- The onion hosts are those whose text is a label, a dot, `onion` in any case of its letters,
-- and any number of dots.
pub is_onion_iff :
    (host : Text)
    → (is_onion host ≡ true) ↔ (
        (label : Text) × (tld : Text) × (n : ℕ) × (host ≡ label ++ (46 ∷ (tld ++ dots n)))
        × (map ascii_lower tld ≡ onion))
unfolding is_onion
is_onion_iff host = (
  λ h. elim (Option-cases (last_label (trim_dots host))) [
    | inl e ↦ absurd (ground (arith, e))
    | inr (tld, e) ↦
        let (n, trimmed) = trim_dots-split host in
        let (label, split) = last_label-split (trim_dots host) e in
        (
          label,
          tld,
          n,
          ground (arith, trimmed, split, append_assoc label (46 ∷ tld) (dots n)),
          ground (arith, e, key_eq_iff {K = Text} (map ascii_lower tld) onion),
        )
  ],
  λ p.
      let (label, tld, n, split, spelled) = p in
      let free : NoDot tld = NoDot-map tld (subst NoDot (sym spelled) onion-NoDot) in
      let some_tld : tld ≢ [] = λ e. ground (arith, e, spelled) in
      ground (
        arith,
        split,
        trim_host label tld n free some_tld,
        last_label-append label tld free,
        spelled,
        key_eq_refl {K = Text} onion,
      ),
)
