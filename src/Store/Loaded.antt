-- ===== src/Store/Loaded.antt =====
-- packages/bridge-store/src/persistence.rs: what is read from a file is a valid store.
use tor_socks.Base.{
  ℕ, ◌≤◌, ◌≡◌, refl, subst, inl, inr, Bool, true, Option, none, some, List, [], ◌∷◌, arith, All,
  Bool-cases, Option-cases, ◌==◌, u32_max,
}
use tor_socks.OrdMap.{KeyOrd}
use tor_socks.OrdMap.Laws.{IsSorted, All-insert, insert-IsSorted}
use tor_socks.OrdMap.Text.{Text, text_ord}
use tor_socks.Store.Entry.{Entry}
use tor_socks.Store.Notes.{Note, run}
use tor_socks.Store.Valid.{IsKept, IsValid, run-IsValid}
use tor_socks.Store.File.{
  Meta, field, set, strip_prefix, optional_time, parse_latency, parse_field, parse_fields,
  parse_legacy, parse_meta_comment, default_meta, entry_of, or_default, load_bridge, load_line,
  load_all, load_store, fails_mark, seen_mark, attempt_mark, ok_mark, latency_mark, chseen_mark,
  chok_mark, evseen_mark, evok_mark, evtry_mark, cfails_mark, cobs_mark, srcenc_mark, src_mark,
}

-- Every counter of a comment is within a `u32`.
pub record IsInRange (m : Meta) : Type 0 where
  pub fails_u32 : m.fails ≤ u32_max
  pub circuit_fails_u32 : m.circuit_fails ≤ u32_max
  pub ok_count_u32 : m.ok_count ≤ u32_max
  pub channel_ok_count_u32 : m.channel_ok_count ≤ u32_max
  pub verified_count_u32 : m.verified_count ≤ u32_max

abbrev IsParsed : Option Meta → Type 0
IsParsed none = Unit
IsParsed (some m) = IsInRange m

field-IsParsed :
    (o : Option Text) (f : Text → Option Meta) (others : Option Meta)
    → ((v : Text) → IsParsed (f v))
    → IsParsed others
    → IsParsed (field o f others)
field-IsParsed none f others h k = k
field-IsParsed (some v) f others h k = h v

set-IsParsed {ℓ} :
    {A : Type ℓ} (o : Option A) (f : A → Meta)
    → ((a : A) → o ≡ some a → IsInRange (f a))
    → IsParsed (set o f)
set-IsParsed none f h = tt
set-IsParsed (some a) f h = h a refl

module _ (epoch : ℕ) (parse_u32 : Text → Option ℕ) (parse_u64 : Text → Option ℕ)
    (parse_time : Text → Option ℕ) (lossy : Text → Text) (trim : Text → Text)
    (split_whitespace : Text → List Text)
    (within : (t : Text) (n : ℕ) → parse_u32 t ≡ some n → n ≤ u32_max) where
  parse_field-IsParsed :
      (tok : Text) (meta : Meta)
      → IsInRange meta
      → IsParsed
          (parse_field epoch parse_u32 parse_u64 parse_time lossy trim split_whitespace tok meta)
  unfolding parse_field
  parse_field-IsParsed tok meta h =
      field-IsParsed (strip_prefix fails_mark tok) _ _
        (λ v. set-IsParsed (parse_u32 v) _ (λ n e. ground (arith, h, within v n e)))
        (field-IsParsed (strip_prefix seen_mark tok) _ _
          (λ v. set-IsParsed (parse_u32 v) _ (λ n e. ground (arith, h, within v n e)))
          (field-IsParsed (strip_prefix attempt_mark tok) _ _
            (λ v. set-IsParsed (parse_time v) _ (λ n e. ground (arith, h)))
            (field-IsParsed (strip_prefix ok_mark tok) _ _
              (λ v.
                set-IsParsed
                  (optional_time epoch parse_u32 parse_u64 parse_time lossy trim split_whitespace v)
                  _ (λ n e. ground (arith, h)))
              (field-IsParsed (strip_prefix latency_mark tok) _ _
                (λ v.
                  set-IsParsed
                    (parse_latency epoch parse_u32 parse_u64 parse_time lossy trim split_whitespace
                      v)
                    _ (λ n e. ground (arith, h)))
                (field-IsParsed (strip_prefix chseen_mark tok) _ _
                  (λ v. set-IsParsed (parse_u32 v) _ (λ n e. ground (arith, h, within v n e)))
                  (field-IsParsed (strip_prefix chok_mark tok) _ _
                    (λ v.
                      set-IsParsed
                        (optional_time epoch parse_u32 parse_u64 parse_time lossy trim
                          split_whitespace v)
                        _ (λ n e. ground (arith, h)))
                    (field-IsParsed (strip_prefix evseen_mark tok) _ _
                      (λ v. set-IsParsed (parse_u32 v) _ (λ n e. ground (arith, h, within v n e)))
                      (field-IsParsed (strip_prefix evok_mark tok) _ _
                        (λ v.
                          set-IsParsed
                            (optional_time epoch parse_u32 parse_u64 parse_time lossy trim
                              split_whitespace v)
                            _ (λ n e. ground (arith, h)))
                        (field-IsParsed (strip_prefix evtry_mark tok) _ _
                          (λ v. set-IsParsed (parse_time v) _ (λ n e. ground (arith, h)))
                          (field-IsParsed (strip_prefix cfails_mark tok) _ _
                            (λ v.
                              set-IsParsed (parse_u32 v) _ (λ n e. ground (arith, h, within v n e)))
                            (field-IsParsed (strip_prefix cobs_mark tok) _ _
                              (λ v. set-IsParsed (parse_time v) _ (λ n e. ground (arith, h)))
                              (field-IsParsed (strip_prefix srcenc_mark tok) _ _
                                (λ v. ground (arith, h))
                                (field-IsParsed (strip_prefix src_mark tok) _ _
                                  (λ v. ground (arith, h)) (h))))))))))))))

  parse_fields-IsParsed :
      (tokens : List Text) (meta : Meta)
      → IsInRange meta
      → IsParsed (
          parse_fields epoch parse_u32 parse_u64 parse_time lossy trim split_whitespace tokens meta)
  unfolding parse_fields
  parse_fields-IsParsed [] meta h = h
  parse_fields-IsParsed (tok ∷ tokens) meta h =
      let here = parse_field-IsParsed tok meta h in
      elim (Option-cases
        (parse_field epoch parse_u32 parse_u64 parse_time lossy trim split_whitespace tok meta)) [
          | inl e ↦ rw (e, parse_fields) tt
          | inr (m, e) ↦
              rw (e, parse_fields) (parse_fields-IsParsed tokens m (subst IsParsed e here))
        ]

  default-IsInRange :
      IsInRange (default_meta epoch parse_u32 parse_u64 parse_time lossy trim split_whitespace)
  default-IsInRange = ground arith

  parse_legacy-IsParsed :
      (s : Text)
      → IsParsed (parse_legacy epoch parse_u32 parse_u64 parse_time lossy trim split_whitespace s)
  unfolding parse_legacy
  parse_legacy-IsParsed s = grind arith

  parse_meta_comment-IsParsed :
      (s : Text)
      → IsParsed
          (parse_meta_comment epoch parse_u32 parse_u64 parse_time lossy trim split_whitespace s)
  unfolding parse_meta_comment
  parse_meta_comment-IsParsed s = go (strip_prefix fails_mark s)
    where
      go :
          (o : Option Text)
          → IsParsed (elim o [
            | some v ↦
                parse_fields epoch parse_u32 parse_u64 parse_time lossy trim split_whitespace
                  (split_whitespace s)
                  (default_meta epoch parse_u32 parse_u64 parse_time lossy trim split_whitespace)
            | none ↦ parse_legacy epoch parse_u32 parse_u64 parse_time lossy trim split_whitespace s
          ])
      go none = parse_legacy-IsParsed s
      go (some v) = parse_fields-IsParsed (split_whitespace s) _ default-IsInRange

  module _ {L K : Type 0} ⦃o : KeyOrd K⦄ (key_of : L → K) (parse_bridge : Text → Option L)
      (usable_for_tor : L → Bool) where
    -- An entry that stands under the key of its bridge, which Tor can use.
    abbrev Good : K × Entry L Text → Type 0
    Good x = IsKept key_of x × (usable_for_tor x.1.bridge ≡ true)

    record IsGood (loading : List (K × Entry L Text) × Option Meta) : Type 0 where
      is_sorted : IsSorted loading.0
      all_good : All Good loading.0
      pending : IsParsed loading.1

    or_default-IsInRange :
        (pending : Option Meta)
        → IsParsed pending
        → IsInRange (
            or_default epoch parse_u32 parse_u64 parse_time lossy trim split_whitespace key_of
              parse_bridge usable_for_tor pending)
    unfolding or_default
    or_default-IsInRange none h = default-IsInRange
    or_default-IsInRange (some m) h = h

    entry-Good :
        (b : L) (meta : Meta)
        → IsInRange meta
        → IsKept key_of (
          key_of b,
          entry_of epoch parse_u32 parse_u64 parse_time lossy trim split_whitespace key_of
              parse_bridge usable_for_tor b meta,
        )
    entry-Good b meta h = record {
      keyed = refl;
      fails_u32 = h.fails_u32;
      circuit_fails_u32 = h.circuit_fails_u32;
      ok_count_u32 = h.ok_count_u32;
      channel_ok_count_u32 = h.channel_ok_count_u32;
      verified_count_u32 = h.verified_count_u32;
    }

    load_bridge-IsGood :
        (line : Text) (loading : List (K × Entry L Text) × Option Meta)
        → IsGood loading
        → IsGood (
            load_bridge epoch parse_u32 parse_u64 parse_time lossy trim split_whitespace key_of
              parse_bridge usable_for_tor line loading)
    unfolding load_bridge
    load_bridge-IsGood line (entries, pending) h = elim (Option-cases (parse_bridge line)) [
      | inl e ↦
          rw (e, load_bridge)
            (record { is_sorted = h.is_sorted; all_good = h.all_good; pending = tt })
      | inr (b, e) ↦ elim (Bool-cases (usable_for_tor b)) [
        | inl f ↦
            let meta =
              or_default epoch parse_u32 parse_u64 parse_time lossy trim split_whitespace key_of
                parse_bridge usable_for_tor pending in
            let entry =
              entry_of epoch parse_u32 parse_u64 parse_time lossy trim split_whitespace key_of
                parse_bridge usable_for_tor b meta in
            rw (e, f, load_bridge)
              (record {
                is_sorted = insert-IsSorted (key_of b) entry entries h.is_sorted;
                all_good =
                    All-insert Good (key_of b) entry entries
                      (entry-Good b meta (or_default-IsInRange pending h.pending), f) h.all_good;
                pending = tt;
              })
        | inr f ↦
            rw (e, f, load_bridge)
              (record { is_sorted = h.is_sorted; all_good = h.all_good; pending = tt })
      ]
    ]

    load_line-IsGood :
        (line : Text) (loading : List (K × Entry L Text) × Option Meta)
        → IsGood loading
        → IsGood (
            load_line epoch parse_u32 parse_u64 parse_time lossy trim split_whitespace key_of
              parse_bridge usable_for_tor line loading)
    unfolding load_line
    load_line-IsGood [] (entries, pending) h = h
    load_line-IsGood (c ∷ line) (entries, pending) h =
        elim (Option-cases (strip_prefix (35 ∷ 32 ∷ []) (c ∷ line))) [
          | inr (rest, e) ↦
              let parsed = parse_meta_comment-IsParsed rest in
              elim (Option-cases (
                parse_meta_comment epoch parse_u32 parse_u64 parse_time lossy trim split_whitespace
                  rest)) [
                    | inl f ↦ rw (e, f, load_line) h
                    | inr (meta, f) ↦
                        rw (e, f, load_line)
                          (record {
                            is_sorted = h.is_sorted;
                            all_good = h.all_good;
                            pending = subst IsParsed f parsed;
                          })
                  ]
          | inl e ↦ elim (Bool-cases (c == 35)) [
            | inl f ↦ rw (e, f, load_line) h
            | inr f ↦ rw (e, f, load_line) (load_bridge-IsGood (c ∷ line) (entries, pending) h)
          ]
        ]

    load_all-IsGood :
        (lines : List Text) (loading : List (K × Entry L Text) × Option Meta)
        → IsGood loading
        → IsGood (
            load_all epoch parse_u32 parse_u64 parse_time lossy trim split_whitespace key_of
              parse_bridge usable_for_tor lines loading)
    unfolding load_all
    load_all-IsGood [] loading h = h
    load_all-IsGood (raw ∷ lines) loading h =
        load_all-IsGood lines
          (load_line epoch parse_u32 parse_u64 parse_time lossy trim split_whitespace key_of
            parse_bridge usable_for_tor (trim raw) loading)
          (load_line-IsGood (trim raw) loading h)

    -- If the parser of a `u32` keeps to its range: in a store that is read from any lines, however
    -- damaged, Tor can use every bridge; and after any history of calls on it, its entries are in
    -- key order, each under the identity of its own bridge, with every counter within a `u32`.
    pub load_store-IsValid :
        (path : List ℕ) (lines : List Text) (notes : List (Note L Text))
        → All
            (λ x. usable_for_tor x.1.bridge ≡ true)
            (load_store epoch parse_u32 parse_u64 parse_time lossy trim split_whitespace key_of
              parse_bridge usable_for_tor path lines).entries
          × IsValid key_of (
              run key_of
                (load_store epoch parse_u32 parse_u64 parse_time lossy trim split_whitespace key_of
                  parse_bridge usable_for_tor path lines)
                notes)
    unfolding load_store
    load_store-IsValid path lines notes =
        let loaded =
          load_store epoch parse_u32 parse_u64 parse_time lossy trim split_whitespace key_of
            parse_bridge usable_for_tor path lines in
        let good =
          load_all-IsGood lines ([], none)
            (record { is_sorted = tt; all_good = tt; pending = tt }) in
        let valid : IsValid key_of loaded = record {
          sorted = good.is_sorted;
          kept = kept loaded.entries good.all_good;
        } in
        (usable loaded.entries good.all_good, run-IsValid key_of loaded notes valid)
      where
        usable :
            (xs : List (K × Entry L Text))
            → All Good xs
            → All (λ x. usable_for_tor x.1.bridge ≡ true) xs
        usable [] h = tt
        usable (x ∷ xs) h = (h.0.1, usable xs h.1)

        kept : (xs : List (K × Entry L Text)) → All Good xs → All (IsKept key_of) xs
        kept [] h = tt
        kept (x ∷ xs) h = (h.0.0, kept xs h.1)
