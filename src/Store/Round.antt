-- ===== src/Store/Round.antt =====
-- The outcome of one probe round, bridge by bridge: pruned, reset by an answer, or counted as failed.
use tor_socks.Base.{
  ℕ, ◌≡◌, refl, inl, inr, Bool, true, false, ◌||◌, some, List, [], ◌∷◌, arith, Option-cases,
  Bool-cases, ap, ◌∙◌,
}
use tor_socks.OrdMap.{KeyOrd, key_eq, key_eq_iff, key_eq_refl, lookup}
use tor_socks.OrdMap.Laws.{lookup-insert, lookup-upsert}
use tor_socks.Store.Entry.{Entry, BridgeStore, bare_entry}
use tor_socks.Store.Observe.{
  probe_hit, probe_miss, record_at, record_alive, contains_key, note_failure_at, note_failures,
}

module _ {L K : Type 0} ⦃o : KeyOrd K⦄ (key_of : L → K) where
  -- `k` is the identity of one of the probed bridges.
  unfoldable pub was_probed : List L → K → Bool
  was_probed [] k = false
  was_probed (b ∷ probed) k = key_eq (key_of b) k || was_probed probed k

module _ {L K S : Type 0} ⦃o : KeyOrd K⦄ (key_of : L → K) (k : K) (now : ℕ) where
  pub record_at-other :
      (s : BridgeStore L K S) (b : L) (lat : ℕ)
      → key_eq (key_of b) k ≡ false
      → lookup k (record_at key_of s b lat now).entries ≡ lookup k s.entries
  unfolding record_at
  record_at-other s b lat h = ground (
    arith,
    lookup-upsert (key_of b) k (bare_entry b now lat) (probe_hit b lat now) s.entries,
    key_eq_iff (key_of b) k,
    key_eq_iff k (key_of b),
  )

  pub record_alive-other :
      (s : BridgeStore L K S) (alive : List (L × ℕ))
      → contains_key key_of alive k ≡ false
      → lookup k (record_alive key_of s alive now).entries ≡ lookup k s.entries
  unfolding record_alive contains_key
  record_alive-other s [] h = refl
  record_alive-other s ((b, lat) ∷ alive) h =
      record_alive-other (record_at key_of s b lat now) alive (ground arith)
      ∙ record_at-other s b lat (ground arith)

  module _ (window : ℕ) where
    pub note_failure_at-other :
        (s : BridgeStore L K S) (b : L)
        → key_eq (key_of b) k ≡ false
        → lookup k (note_failure_at key_of s b now window).0.entries ≡ lookup k s.entries
    unfolding note_failure_at
    note_failure_at-other s b h = elim (Option-cases (lookup (key_of b) s.entries)) [
      | inl n ↦
          rw (n, note_failure_at)
            (ground (
              arith,
              lookup-insert (key_of b) k (record (bare_entry b now 0) { fails = 1 }) s.entries,
              key_eq_iff (key_of b) k,
              key_eq_iff k (key_of b),
            ))
      | inr (e, n) ↦
          rw (n, note_failure_at)
            (ground (
              arith,
              lookup-insert (key_of b) k (probe_miss now window e).0 s.entries,
              key_eq_iff (key_of b) k,
              key_eq_iff k (key_of b),
            ))
    ]

    pub note_failure_at_self :
        (s : BridgeStore L K S) (b : L) (e : Entry L S)
        → key_eq (key_of b) k ≡ true
        → lookup k s.entries ≡ some e
        → lookup k (note_failure_at key_of s b now window).0.entries
          ≡ some (probe_miss now window e).0
    unfolding note_failure_at
    note_failure_at_self s b e h f =
        let same : key_of b ≡ k = (key_eq_iff (key_of b) k).0 h in
        rw (same, f, note_failure_at)
          (ground (arith, lookup-insert k k (probe_miss now window e).0 s.entries, key_eq_refl k))

    -- A round leaves the bridges that it did not probe, or that answered, to `record_alive`.
    pub note_failures-answered :
        (s : BridgeStore L K S) (alive : List (L × ℕ)) (probed : List L)
        → contains_key key_of alive k ≡ true
        → lookup k (note_failures key_of s alive probed now window).entries ≡ lookup k s.entries
    unfolding note_failures
    note_failures-answered s alive [] h = refl
    note_failures-answered s alive (b ∷ probed) h =
        elim (Bool-cases (contains_key key_of alive (key_of b))) [
          | inl hit ↦ rw (hit, note_failures) (note_failures-answered s alive probed h)
          | inr miss ↦
              rw (miss, note_failures)
                (note_failures-answered (note_failure_at key_of s b now window).0 alive probed h
                  ∙ note_failure_at-other s b (not_alive miss))
        ]
      where
        not_alive : contains_key key_of alive (key_of b) ≡ false → key_eq (key_of b) k ≡ false
        not_alive miss = elim (Bool-cases (key_eq (key_of b) k)) [
          | inl same ↦
              ground (arith, ap (contains_key key_of alive) ((key_eq_iff (key_of b) k).0 same))
          | inr other ↦ other
        ]

    pub note_failures-unprobed :
        (s : BridgeStore L K S) (alive : List (L × ℕ)) (probed : List L)
        → was_probed key_of probed k ≡ false
        → lookup k (note_failures key_of s alive probed now window).entries ≡ lookup k s.entries
    unfolding note_failures was_probed
    note_failures-unprobed s alive [] h = refl
    note_failures-unprobed s alive (b ∷ probed) h =
        elim (Bool-cases (contains_key key_of alive (key_of b))) [
          | inl hit ↦ rw (hit, note_failures) (note_failures-unprobed s alive probed (ground arith))
          | inr miss ↦
              rw (miss, note_failures)
                (note_failures-unprobed (note_failure_at key_of s b now window).0 alive probed
                    (ground arith)
                  ∙ note_failure_at-other s b (ground arith))
        ]
