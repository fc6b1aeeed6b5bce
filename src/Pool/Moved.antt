-- ===== src/Pool/Moved.antt =====
-- apps/socks5-proxy/src/bridges/candidate_pool.rs: which bridges are taken, and in which order the
-- others stay.
use tor_socks.Base.{
  ◌≡◌, refl, sym, ap, ◌∙◌, ◌↔◌, ◌⊎◌, inl, inr, Bool, true, false, not, Option, none, some, List, [],
  ◌∷◌, ◌++◌, arith, All, Bool-cases, Option-cases, Ordering, keep_if, append-nil, append_assoc,
  All-append,
}
use tor_socks.OrdMap.{KeyOrd, key_eq, key_eq_iff, key_eq_refl}
use tor_socks.OrdMap.Text.{Text, text_ord}
use tor_socks.Best.{sort, sort_onto, push}
use tor_socks.Pool.KeySet.{has}
use tor_socks.Pool.Candidates.{CandidatePool, bool_cmp, fresh_keys, has_transport, prioritize}

module _ {B : Type 0} (late : B → Bool) where
  abbrev cmp : B → B → Ordering
  cmp a b = bool_cmp (late a) (late b)

  -- The early items, in their order, and then the late ones.
  abbrev pub parted : List B → List B
  parted xs = keep_if (λ b. not (late b)) xs ++ keep_if late xs

  push_late : (b : B) (xs : List B) → late b ≡ true → push cmp b xs ≡ xs ++ (b ∷ [])
  unfolding push
  push_late b [] e = refl
  push_late b (x ∷ xs) e = ground (arith, e, push_late b xs e)

  push_early :
      (b : B) (xs ys : List B)
      → late b ≡ false
      → All (λ x. late x ≡ false) xs
      → All (λ x. late x ≡ true) ys
      → push cmp b (xs ++ ys) ≡ xs ++ (b ∷ ys)
  unfolding push
  push_early b [] [] e hx hy = refl
  push_early b [] (y ∷ ys) e hx hy = ground (arith, e, hy.0)
  push_early b (x ∷ xs) ys e hx hy = ground (arith, e, hx.0, push_early b xs ys e hx.1 hy)

  sort_onto-parted :
      (early lates xs : List B)
      → All (λ x. late x ≡ false) early
      → All (λ x. late x ≡ true) lates
      → sort_onto cmp (early ++ lates) xs
        ≡ (early ++ keep_if (λ b. not (late b)) xs) ++ (lates ++ keep_if late xs)
  unfolding sort_onto
  sort_onto-parted early lates [] he hl = ground (arith, append-nil early, append-nil lates)
  sort_onto-parted early lates (x ∷ xs) he hl = elim (Bool-cases (late x)) [
    | inl e ↦
        let rec =
          sort_onto-parted early (lates ++ (x ∷ [])) xs he
            (All-append (λ b. late b ≡ true) lates (x ∷ []) hl (e, tt)) in
        ground (
          arith,
          e,
          rec,
          push_late x (early ++ lates) e,
          append_assoc early lates (x ∷ []),
          append_assoc lates (x ∷ []) (keep_if late xs),
        )
    | inr e ↦
        let rec =
          sort_onto-parted (early ++ (x ∷ [])) lates xs
            (All-append (λ b. late b ≡ false) early (x ∷ []) he (e, tt)) hl in
        ground (
          arith,
          e,
          rec,
          push_early x early lates e he hl,
          append_assoc early (x ∷ []) lates,
          append_assoc early (x ∷ []) (keep_if (λ b. not (late b)) xs),
        )
  ]

  -- A stable sort by a test parts the list.
  sort-parted : (xs : List B) → sort cmp xs ≡ parted xs
  unfolding sort
  sort-parted xs = sort_onto-parted [] [] xs tt tt

module _ {B K : Type 0} ⦃o : KeyOrd K⦄ (key_of : B → K) (transport : B → Option Text) where
  -- A fetched bridge counts if no transport is asked for, or if it is of that transport.
  abbrev pub IsAsked : Option Text → B → Type 0
  IsAsked none b = Unit
  IsAsked (some name) b = transport b ≡ some name

  -- A fetched bridge that counts has this identity.
  abbrev pub IsFresh : List B → Option Text → K → Type 0
  IsFresh [] name k = ⊥
  IsFresh (b ∷ fresh) name k = (IsAsked name b × (key_of b ≡ k)) ⊎ IsFresh fresh name k

  has_transport_iff :
      (name : Text) (b : B)
      → (has_transport key_of transport name b ≡ true) ↔ (transport b ≡ some name)
  unfolding has_transport
  has_transport_iff name b = elim (Option-cases (transport b)) [
    | inl n ↦ (λ h. absurd (ground (arith, n, h)), λ h. absurd (ground (arith, n, h)))
    | inr (t, n) ↦ (
      λ h. n ∙ ap some ((key_eq_iff t name).0 (ground (arith, n, h))),
      λ h. ground (arith, n, h, key_eq_refl name),
    )
  ]

  IsFresh-has :
      (fresh : List B) (name : Option Text) (k : K)
      → (has k (fresh_keys key_of transport fresh name) ≡ true) ↔ IsFresh fresh name k
  unfolding has fresh_keys
  IsFresh-has [] none k = (λ h. absurd (ground (arith, h)), λ h. absurd h)
  IsFresh-has [] (some name) k = (λ h. absurd (ground (arith, h)), λ h. absurd h)
  IsFresh-has (b ∷ fresh) none k =
      let rec = IsFresh-has fresh none k in
      elim (Bool-cases (key_eq k (key_of b))) [
        | inl same ↦
            (λ h. inl (tt, sym ((key_eq_iff k (key_of b)).0 same)), λ f. ground (arith, same))
        | inr other ↦ (
          λ h. inr (rec.0 (ground (arith, other, h))),
          λ f. elim f [
            | inl (asked, same) ↦
                absurd (ground (arith, other, (key_eq_iff k (key_of b)).1 (sym same)))
            | inr found ↦ ground (arith, other, rec.1 found)
          ],
        )
      ]
  IsFresh-has (b ∷ fresh) (some name) k =
      let rec = IsFresh-has fresh (some name) k in
      elim (Bool-cases (has_transport key_of transport name b)) [
        | inr off ↦ (
          λ h. inr (rec.0 (ground (arith, off, h))),
          λ f. elim f [
            | inl (asked, same) ↦ absurd (ground (arith, off, (has_transport_iff name b).1 asked))
            | inr found ↦ ground (arith, off, rec.1 found)
          ],
        )
        | inl on ↦ elim (Bool-cases (key_eq k (key_of b))) [
          | inl same ↦ (
            λ h. inl ((has_transport_iff name b).0 on, sym ((key_eq_iff k (key_of b)).0 same)),
            λ f. ground (arith, on, same),
          )
          | inr other ↦ (
            λ h. inr (rec.0 (ground (arith, on, other, h))),
            λ f. elim f [
              | inl (asked, same) ↦
                  absurd (ground (arith, other, (key_eq_iff k (key_of b)).1 (sym same)))
              | inr found ↦ ground (arith, on, other, rec.1 found)
            ],
          )
        ]
      ]

  -- Prioritizing splits the bridges of the pool by whether a fetched bridge of the transport asked
  -- for has their identity: those come first, and in both parts the order stays.
  pub prioritize-parted :
      (fresh : List B) (name : Option Text) (pool : CandidatePool B K)
      → (late : B → Bool) × ((b : B) → (late b ≡ false) ↔ IsFresh fresh name (key_of b))
        × ((prioritize key_of transport fresh name pool).bridges ≡ parted late pool.bridges)
  unfolding prioritize
  prioritize-parted fresh name pool =
      let late : B → Bool = λ b. not (has (key_of b) (fresh_keys key_of transport fresh name)) in
      (
        late,
        λ b. (
          λ h. (IsFresh-has fresh name (key_of b)).0 (ground arith),
          λ h. ground (arith, (IsFresh-has fresh name (key_of b)).1 h),
        ),
        sort-parted late pool.bridges,
      )
