-- ===== src/Store/Tally.antt =====
-- The rows of the summaries count the entries that they are about.
use tor_socks.Base.{
  ℕ, ◌+◌, ◌≤◌, ◌≡◌, refl, ◌∙◌, Bool, true, false, ◌&&◌, ◌||◌, List, [], ◌∷◌, arith, if◌then◌else◌,
  map_or, All, Bool-cases, inl, inr,
}
use tor_socks.OrdMap.{KeyOrd, key_eq, key_eq_iff, lookup, upsert, keys}
use tor_socks.OrdMap.Laws.{IsSorted, Above, lookup-upsert}
use tor_socks.Store.Entry.{Entry, SourceStats, is_retired, is_proven_alive}
use tor_socks.Store.Rank.{is_channel_proven}
use tor_socks.Store.Summary.{fresh_source, count_source, count_labels, count_sources}

-- How many elements pass a test.
abbrev pub count_if : {A : Type 0} → (A → Bool) → List A → ℕ
count_if p [] = 0
count_if p (x ∷ xs) = (if p x then 1 else 0) + count_if p xs

module _ {S : Type 0} ⦃t : KeyOrd S⦄ (label : S) where
  -- `label` is one of the labels.
  unfoldable pub member : List S → Bool
  member [] = false
  member (l ∷ labels) = key_eq label l || member labels

  abbrev pub row_of : List (S × SourceStats S) → SourceStats S
  row_of rows = map_or (fresh_source label) (λ r. r) (lookup label rows)

  Above-member :
      (l : S) (m : List (S × Unit {0}))
      → Above l m
      → key_eq label l ≡ true
      → member (keys m) ≡ false
  unfolding member
  Above-member l [] a h = refl
  Above-member l ((j, _) ∷ m) a h =
      ground (arith, key_eq_iff label l, key_eq_iff label j, t.cmp_eq l j, Above-member l m a.1 h)

module _ {L S : Type 0} ⦃t : KeyOrd S⦄ (label : S) where
  -- The entry credits the source `label`.
  abbrev pub credits : Entry L S → Bool
  credits e = member label (keys e.sources)

  row-upsert :
      (e : Entry L S) (l : S) (rows : List (S × SourceStats S))
      → row_of label (upsert l (fresh_source l) (count_source e) rows)
        ≡ (if key_eq label l then count_source e (row_of label rows) else row_of label rows)
  row-upsert e l rows =
      ground
        (arith, lookup-upsert l label (fresh_source l) (count_source e) rows, key_eq_iff label l)

  row-count_labels_absent :
      (e : Entry L S) (labels : List S) (rows : List (S × SourceStats S))
      → member label labels ≡ false
      → row_of label (count_labels e labels rows) ≡ row_of label rows
  unfolding count_labels member
  row-count_labels_absent e [] rows h = refl
  row-count_labels_absent e (l ∷ labels) rows h =
      row-count_labels_absent e labels (upsert l (fresh_source l) (count_source e) rows)
        (ground arith)
      ∙ ground (arith, row-upsert e l rows)

  row-count_labels :
      (e : Entry L S) (m : List (S × Unit {0})) (rows : List (S × SourceStats S))
      → IsSorted m
      → row_of label (count_labels e (keys m) rows)
        ≡ (if member label (keys m) then count_source e (row_of label rows) else row_of label rows)
  unfolding count_labels member
  row-count_labels e [] rows s = refl
  row-count_labels e ((l, _) ∷ m) rows s = elim (Bool-cases (key_eq label l)) [
    | inl hit ↦ ground (
      arith,
      row-count_labels_absent e (keys m) (upsert l (fresh_source l) (count_source e) rows)
          (Above-member label l m s.0 hit),
      row-upsert e l rows,
    )
    | inr miss ↦ ground (
      arith,
      row-count_labels e m (upsert l (fresh_source l) (count_source e) rows) s.1,
      row-upsert e l rows,
    )
  ]

  -- From one row to the next, what the given entries add.
  abbrev pub Adds : SourceStats S → SourceStats S → List (Entry L S) → Type 0
  Adds row row' es =
      (row'.offered ≡ row.offered + count_if credits es)
      × (row'.alive ≡ row.alive + count_if (λ e. credits e && is_proven_alive e) es)
      × (row'.channel_proven
          ≡ row.channel_proven + count_if (λ e. credits e && is_channel_proven e) es)
      × (row'.retired ≡ row.retired + count_if (λ e. credits e && is_retired e) es)

  count_source-Adds :
      (e : Entry L S) (row : SourceStats S)
      → Adds row (if credits e then count_source e row else row) (e ∷ [])
  unfolding count_source is_proven_alive is_channel_proven
  count_source-Adds e row = ground arith

  alive_or_retired :
      (es : List (Entry L S))
      → count_if (λ e. credits e && is_proven_alive e) es
          + count_if (λ e. credits e && is_retired e) es
        ≤ count_if credits es
  unfolding is_proven_alive
  alive_or_retired [] = omega arith
  alive_or_retired (e ∷ es) = ground (arith, alive_or_retired es)

  Adds-trans :
      (a b c : SourceStats S) (e : Entry L S) (es : List (Entry L S))
      → Adds a b (e ∷ [])
      → Adds b c es
      → Adds a c (e ∷ es)
  Adds-trans a b c e es h k = omega arith

  count_sources-Adds :
      (es : List (Entry L S)) (rows : List (S × SourceStats S))
      → All (λ e. IsSorted e.sources) es
      → Adds (row_of label rows) (row_of label (count_sources es rows)) es
  unfolding count_sources
  count_sources-Adds [] rows s = omega arith
  count_sources-Adds (e ∷ es) rows s =
      let rows' = count_labels e (keys e.sources) rows in
      Adds-trans (row_of label rows) (row_of label rows') (row_of label (count_sources es rows')) e
        es (rw (row-count_labels e e.sources rows s.0) (count_source-Adds e (row_of label rows)))
        (count_sources-Adds es rows' s.1)

  -- The row of a source counts the entries that credit it: all of them as offered, and of those the
  -- proven alive, the channel-proven and the retired; so it counts nobody alive and retired at once.
  pub source_row_counts :
      (es : List (Entry L S))
      → All (λ e. IsSorted e.sources) es
      → let row = row_of label (count_sources es []) in
        (row.offered ≡ count_if credits es)
        × (row.alive ≡ count_if (λ e. credits e && is_proven_alive e) es)
        × (row.channel_proven ≡ count_if (λ e. credits e && is_channel_proven e) es)
        × (row.retired ≡ count_if (λ e. credits e && is_retired e) es)
        × (row.alive + row.retired ≤ row.offered)
  unfolding fresh_source lookup
  source_row_counts es s = omega (arith, count_sources-Adds es [] s, alive_or_retired es)
