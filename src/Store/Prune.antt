-- ===== src/Store/Prune.antt =====
-- What `prune` leaves in the health store, and what it hands back.
use tor_socks.Base.{
  ℕ, ◌≡◌, refl, ap, ◌∙◌, inl, inr, Bool, not, ◌&&◌, List, [], ◌∷◌, map, arith, Bool-cases,
  Option-cases, ltb, keep_if,
}
use tor_socks.OrdMap.{KeyOrd, key_eq_iff, key_eq_refl, lookup, remove}
use tor_socks.OrdMap.Laws.{IsSorted, Above, keep_if-Above}
use tor_socks.Store.Entry.{Entry, BridgeStore}
use tor_socks.Store.Observe.{is_dead, dead_of, remove_all, prune}

module _ {L S : Type 0} where
  -- Below both limits, the boolean of it.
  abbrev pub is_below : ℕ → ℕ → Entry L S → Bool
  is_below a b e = ltb e.fails a && ltb e.circuit_fails b

  is_dead-is_below : (a b : ℕ) (e : Entry L S) → is_dead a b e ≡ not (is_below a b e)
  unfolding is_dead
  is_dead-is_below a b e = ground arith

module _ {L K S : Type 0} ⦃o : KeyOrd K⦄ where
  abbrev pub kept_of : ℕ → ℕ → List (K × Entry L S) → List (K × Entry L S)
  kept_of a b = keep_if λ e. not (is_dead a b e.1)

  abbrev pub bridges_of : List (K × Entry L S) → List L
  bridges_of = map λ e. e.1.bridge

  -- A removal of keys that lie above the first entry leaves that entry in place.
  remove_all-cons :
      (k : K) (e : Entry L S) (d m : List (K × Entry L S))
      → Above k d
      → remove_all d ((k, e) ∷ m) ≡ ((remove_all d m).0, (k, e) ∷ (remove_all d m).1)
  unfolding remove_all lookup remove
  remove_all-cons k e [] m a = refl
  remove_all-cons k e ((j, x) ∷ d) m a = elim (Option-cases (lookup j m)) [
    | inl n ↦ ground (arith, o.cmp_eq k j, key_eq_iff j k, remove_all-cons k e d m a.1)
    | inr (y, n) ↦
        ground (arith, o.cmp_eq k j, key_eq_iff j k, remove_all-cons k e d (remove j m) a.1)
  ]

  remove_all-dead_of :
      (a b : ℕ) (m : List (K × Entry L S))
      → IsSorted m
      → remove_all (dead_of a b m) m ≡ (bridges_of (dead_of a b m), kept_of a b m)
  unfolding remove_all dead_of lookup remove
  remove_all-dead_of a b [] s = refl
  remove_all-dead_of a b ((k, e) ∷ m) s = elim (Bool-cases (is_dead a b e)) [
    | inl dead ↦ rw dead (ground (arith, key_eq_refl k, remove_all-dead_of a b m s.1))
    | inr alive ↦ rw alive (
        ground (
          arith,
          remove_all-cons k e (dead_of a b m) m (keep_if-Above k (λ x. is_dead a b x.1) m s.0),
          remove_all-dead_of a b m s.1,
        ))
  ]

  keep_if_same :
      (p q : K × Entry L S → Bool)
      → ((x : K × Entry L S) → p x ≡ q x)
      → (m : List (K × Entry L S)) → keep_if p m ≡ keep_if q m
  keep_if_same p q h [] = refl
  keep_if_same p q h (x ∷ m) = ground (arith, h x, keep_if_same p q h m)

  -- `prune` splits the store by `is_dead`.
  pub prune_split :
      (s : BridgeStore L K S) (a b : ℕ)
      → IsSorted s.entries
      → prune s a b
        ≡ (record s { entries = kept_of a b s.entries }, bridges_of (dead_of a b s.entries))
  unfolding prune
  prune_split s a b sorted = ground (arith, remove_all-dead_of a b s.entries sorted)

  -- Over a store in key order, pruning keeps the entries with fewer failures and fewer circuit
  -- failures than the two limits, and hands back the bridges of all others, both in key order.
  pub prune_lem :
      (s : BridgeStore L K S) (a b : ℕ)
      → IsSorted s.entries
      → prune s a b ≡ (
        record s { entries = keep_if (λ x. is_below a b x.1) s.entries },
        map (λ x. x.1.bridge) (keep_if (λ x. not (is_below a b x.1)) s.entries),
      )
  unfolding dead_of
  prune_lem s a b sorted =
      prune_split s a b sorted
      ∙ ap
          (λ (l : List (K × Entry L S) × List (K × Entry L S)).
            (record s { entries = l.0 }, bridges_of l.1))
          (ground (
            arith,
            keep_if_same (λ x. not (is_dead a b x.1)) (λ x. is_below a b x.1)
                (λ x. ground (arith, is_dead-is_below a b x.1)) s.entries,
            keep_if_same (λ x. is_dead a b x.1) (λ x. not (is_below a b x.1))
                (λ x. is_dead-is_below a b x.1) s.entries,
          ))
