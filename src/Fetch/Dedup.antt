-- ===== src/Fetch/Dedup.antt =====
-- packages/bridge-fetcher/src/fetch/dedup.rs: one bridge line for each bridge identity. The line and
-- its identity are another crate's, and parameters; the hash set is the list of what it holds.
use tor_socks.Base.{
  Bool-cases, ◌||◌, ℕ, ◌+◌, ◌≡◌, inl, inr, Bool, true, false, ◌||◌, List, [], ◌∷◌, map, arith,
  length, if◌then◌else◌, All, Bool-cases,
}
use tor_socks.OrdMap.{KeyOrd, key_eq, key_eq_refl}

module _ {B K : Type 0} ⦃o : KeyOrd K⦄ (bridge_identity : B → K) where
  abbrev pub holds : K → List K → Bool
  holds k [] = false
  holds k (j ∷ js) = key_eq k j || holds k js

  -- The loop, with the identities seen before.
  unfoldable pub dedup_loop : List K → List B → List B × ℕ
  dedup_loop seen [] = ([], 0)
  dedup_loop seen (b ∷ bridges) =
      let key = bridge_identity b in
      let again = dedup_loop seen bridges in
      let first = dedup_loop (key ∷ seen) bridges in
      if holds key seen then (again.0, again.1 + 1) else (b ∷ first.0, first.1)

  unfoldable pub dedup_bridges : List B → List B × ℕ
  dedup_bridges bridges = dedup_loop [] bridges

  -- Some of the lines, in their order.
  pub data Among : List B → List B → Type 0 where
    nothing : Among [] []
    kept : (b : B) {us bs : List B} → Among us bs → Among (b ∷ us) (b ∷ bs)
    left_out : (b : B) {us bs : List B} → Among us bs → Among us (b ∷ bs)

  abbrev pub identities : List B → List K
  identities bridges = map bridge_identity bridges

  -- No identity twice, and none of those in `seen`.
  abbrev pub Fresh : List K → List B → Type 0
  Fresh seen [] = Unit
  Fresh seen (b ∷ bs) =
      (holds (bridge_identity b) seen ≡ false) × Fresh (bridge_identity b ∷ seen) bs

  -- What a deduplication of these lines gives: lines among them in their order, one at most for an
  -- identity, one for the identity of each line, and the number of the lines left out.
  pub record IsDedup (seen : List K) (bridges : List B) (answer : List B × ℕ) : Type 0 where
    pub among : Among answer.0 bridges
    pub distinct : Fresh seen answer.0
    pub covers :
        All
          (λ b.
            (holds (bridge_identity b) seen || holds (bridge_identity b) (identities answer.0))
            ≡ true)
          bridges
    pub counted : length answer.0 + answer.1 ≡ length bridges

  covers-cons :
      (seen ids : List K) (key : K) (bridges : List B)
      → All
          (λ b. (holds (bridge_identity b) (key ∷ seen) || holds (bridge_identity b) ids) ≡ true)
          bridges
      → All
          (λ b. (holds (bridge_identity b) seen || holds (bridge_identity b) (key ∷ ids)) ≡ true)
          bridges
  covers-cons seen ids key [] h = tt
  covers-cons seen ids key (b ∷ bridges) h =
      (ground (arith, h.0), covers-cons seen ids key bridges h.1)

  dedup_loop-IsDedup :
      (seen : List K) (bridges : List B) → IsDedup seen bridges (dedup_loop seen bridges)
  unfolding dedup_loop
  dedup_loop-IsDedup seen [] = record {
    among = nothing;
    distinct = tt;
    covers = tt;
    counted = omega arith;
  }
  dedup_loop-IsDedup seen (b ∷ bridges) =
      let key = bridge_identity b in
      let again = dedup_loop-IsDedup seen bridges in
      let first = dedup_loop-IsDedup (key ∷ seen) bridges in
      elim (Bool-cases (holds key seen)) [
        | inl known ↦ rw known (record {
          among = left_out b again.among;
          distinct = again.distinct;
          covers = (ground (arith, known), again.covers);
          counted = omega (arith, again.counted);
        })
        | inr new ↦ rw new (record {
          among = kept b first.among;
          distinct = (new, first.distinct);
          covers = (
            ground (arith, key_eq_refl key),
            covers-cons seen (identities (dedup_loop (key ∷ seen) bridges).0) key bridges
                first.covers,
          );
          counted = omega (arith, first.counted);
        })
      ]

  -- The lines that are kept are among the lines in their order, no two with one identity, and one
  -- for the identity of each line; with the duplicates they are as many as the lines.
  pub dedup_bridges-IsDedup : (bridges : List B) → IsDedup [] bridges (dedup_bridges bridges)
  unfolding dedup_bridges
  dedup_bridges-IsDedup bridges = dedup_loop-IsDedup [] bridges
