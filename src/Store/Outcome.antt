-- ===== src/Store/Outcome.antt =====
-- What `note_probe_round` leaves of each bridge.
use tor_socks.Base.{
  ℕ, ◌<◌, ◌≡◌, refl, ap, ◌∙◌, ◌⊎◌, inl, inr, true, false, not, ◌&&◌, Option, none, some, List, [],
  ◌∷◌, arith, if◌then◌else◌, All, Bool-cases, Option-cases, ltb, All-keep_if,
}
use tor_socks.OrdMap.{KeyOrd, key_eq, key_eq_iff, lookup}
use tor_socks.OrdMap.Laws.{filter_option, lookup-keep_if}
use tor_socks.Store.Entry.{Entry, BridgeStore}
use tor_socks.Store.Observe.{
  is_dead, probe_miss, record_alive, contains_key, note_failure_at, note_failures, note_probe_round,
}
use tor_socks.Store.Answers.{answers, last_answer, answered, record_alive-answered}
use tor_socks.Store.Prune.{prune_split}
use tor_socks.Store.Valid.{IsValid, record_alive-IsValid, note_failures-IsValid}
use tor_socks.Store.Round.{
  was_probed, note_failure_at_self, note_failure_at-other, note_failures-answered,
  note_failures-unprobed, record_alive-other,
}

module _ {L S : Type 0} where
  -- Below both limits.
  pub record Spared (a b : ℕ) (e : Entry L S) : Type 0 where
    pub probes : e.fails < a
    pub circuits : e.circuit_fails < b

  not_dead-Spared : (a b : ℕ) (e : Entry L S) → not (is_dead a b e) ≡ true → Spared a b e
  unfolding is_dead
  not_dead-Spared a b e h = ground arith

  -- Within its window a second failure changes nothing.
  probe_miss_twice :
      (now window : ℕ) (e : Entry L S)
      → 0 < window
      → (probe_miss now window (probe_miss now window e).0).0 ≡ (probe_miss now window e).0
  unfolding probe_miss
  probe_miss_twice now window e h = ground arith

  answered-clean :
      (now n : ℕ) (b : L) (latency : ℕ) (old : Option (Entry L S))
      → (answered now n b latency old).fails ≡ 0
  answered-clean now n b latency none = refl
  answered-clean now n b latency (some e) = refl

module _ {L K S : Type 0} ⦃o : KeyOrd K⦄ (key_of : L → K) (k : K) (now window : ℕ) where
  note_failures-settled :
      (s : BridgeStore L K S) (alive : List (L × ℕ)) (probed : List L) (e : Entry L S)
      → (probe_miss now window e).0 ≡ e
      → lookup k s.entries ≡ some e
      → lookup k (note_failures key_of s alive probed now window).entries ≡ some e
  unfolding note_failures
  note_failures-settled s alive [] e fix h = h
  note_failures-settled s alive (b ∷ probed) e fix h =
      elim (Bool-cases (contains_key key_of alive (key_of b))) [
        | inl hit ↦ rw (hit, note_failures) (note_failures-settled s alive probed e fix h)
        | inr miss ↦
            rw (miss, note_failures)
              (note_failures-settled (note_failure_at key_of s b now window).0 alive probed e fix
                (kept (Bool-cases (key_eq (key_of b) k))))
      ]
    where
      kept :
          (key_eq (key_of b) k ≡ true) ⊎ (key_eq (key_of b) k ≡ false)
          → lookup k (note_failure_at key_of s b now window).0.entries ≡ some e
      kept (inl same) = note_failure_at_self key_of k now window s b e same h ∙ ap some fix
      kept (inr other) = note_failure_at-other key_of k now window s b other ∙ h

  note_failures-missed :
      (s : BridgeStore L K S) (alive : List (L × ℕ)) (probed : List L) (e : Entry L S)
      → 0 < window
      → contains_key key_of alive k ≡ false
      → was_probed key_of probed k ≡ true
      → lookup k s.entries ≡ some e
      → lookup k (note_failures key_of s alive probed now window).entries
        ≡ some (probe_miss now window e).0
  unfolding note_failures was_probed
  note_failures-missed s alive [] e pos dead h f = cc
  note_failures-missed s alive (b ∷ probed) e pos dead h f =
      elim (Bool-cases (key_eq (key_of b) k)) [
        | inl same ↦
            rw
              (
                ap (contains_key key_of alive) ((key_eq_iff (key_of b) k).0 same) ∙ dead,
                note_failures,
              )
              (note_failures-settled (note_failure_at key_of s b now window).0 alive probed
                (probe_miss now window e).0 (probe_miss_twice now window e pos)
                (note_failure_at_self key_of k now window s b e same f))
        | inr other ↦ elim (Bool-cases (contains_key key_of alive (key_of b))) [
          | inl hit ↦
              rw (hit, note_failures)
                (note_failures-missed s alive probed e pos dead (ground arith) f)
          | inr miss ↦
              rw (miss, note_failures)
                (note_failures-missed (note_failure_at key_of s b now window).0 alive probed e pos
                  dead (ground arith) (note_failure_at-other key_of k now window s b other ∙ f))
        ]
      ]

module _ {L K S : Type 0} ⦃o : KeyOrd K⦄ (key_of : L → K) where
  -- What pruning at the limits `a` and `b` leaves of the entry under a key.
  abbrev pub spare : ℕ → ℕ → Option (Entry L S) → Option (Entry L S)
  spare a b = filter_option λ e. not (is_dead a b e)

  module _ (s : BridgeStore L K S) (probed : List L) (alive : List (L × ℕ)) (now window a b : ℕ)
      (v : IsValid key_of s) where
    -- The store as the round hands it to `prune`.
    abbrev noted : BridgeStore L K S
    noted = note_failures key_of (record_alive key_of s alive now) alive probed now window

    noted-IsValid : IsValid key_of noted
    noted-IsValid =
        note_failures-IsValid key_of _ alive probed now window
          (record_alive-IsValid key_of s alive now v)

    -- A probe round leaves no entry at either limit.
    pub note_probe_round-Spared :
        All (λ x. Spared a b x.1) (note_probe_round key_of s probed alive now window a b).0.entries
    unfolding note_probe_round
    note_probe_round-Spared = rw (prune_split noted a b noted-IsValid.sorted) (
        All-keep_if (λ x. Spared a b x.1) (λ x. not (is_dead a b x.1)) noted.entries
          (λ x h. not_dead-Spared a b x.1 h))

    lookup-note_probe_round :
        (k : K)
        → lookup k (note_probe_round key_of s probed alive now window a b).0.entries
          ≡ spare a b (lookup k noted.entries)
    unfolding note_probe_round
    lookup-note_probe_round k =
        rw (prune_split noted a b noted-IsValid.sorted)
          (lookup-keep_if k (λ e. not (is_dead a b e)) noted.entries noted-IsValid.sorted)

    contains_key-last_answer :
        (k : K) (alive : List (L × ℕ)) (x : L × ℕ)
        → last_answer key_of k alive ≡ some x
        → contains_key key_of alive k ≡ true
    unfolding contains_key
    contains_key-last_answer k [] x h = absurd (ground (arith, h))
    contains_key-last_answer k ((b, latency) ∷ alive) x h =
        elim (Option-cases (last_answer key_of k alive)) [
          | inl n ↦ ground (arith, n, h)
          | inr (y, found) ↦ ground (arith, contains_key-last_answer k alive y found)
        ]

    -- In a probe round over a valid store, the entry of a bridge that answered has the line and the
    -- latency of its last answer, no failures, both stamps of now, as many more answers as it gave,
    -- up to the u32 maximum, and else the fields of its old entry, or those of a new bridge if it had
    -- none; the entry is in the store afterwards iff the failure limit is not zero and its circuit
    -- failures are below their limit.
    pub note_probe_round-Answered :
        (k : K) (c : L) (latency : ℕ)
        → last_answer key_of k alive ≡ some (c, latency)
        → let e = answered now (answers key_of k alive) c latency (lookup k s.entries) in
          lookup k (note_probe_round key_of s probed alive now window a b).0.entries
          ≡ (if ltb 0 a && ltb e.circuit_fails b then some e else none)
    unfolding is_dead
    note_probe_round-Answered k c latency h =
        let e = answered now (answers key_of k alive) c latency (lookup k s.entries) in
        let clean : e.fails ≡ 0 =
          answered-clean now (answers key_of k alive) c latency (lookup k s.entries) in
        lookup-note_probe_round k
        ∙ ap (spare a b) (
            note_failures-answered key_of k now window _ alive probed
              (contains_key-last_answer k alive (c, latency) h)
            ∙ record_alive-answered key_of k now s alive c latency h)
        ∙ ground (arith, clean)

    -- A known bridge that was probed and did not answer is counted as failed once, however often it
    -- is listed, and only if its window has passed; then it is pruned or kept by the limits.
    pub note_probe_round-missed :
        (k : K) (e : Entry L S)
        → 0 < window
        → contains_key key_of alive k ≡ false
        → was_probed key_of probed k ≡ true
        → lookup k s.entries ≡ some e
        → lookup k (note_probe_round key_of s probed alive now window a b).0.entries
          ≡ spare a b (some (probe_miss now window e).0)
    note_probe_round-missed k e pos dead h f =
        lookup-note_probe_round k
        ∙ ap (spare a b) (
            note_failures-missed key_of k now window _ alive probed e pos dead h
              (record_alive-other key_of k now s alive dead ∙ f))

    -- A round changes no entry of a bridge that it neither probed nor heard of, but may prune it.
    pub note_probe_round-others :
        (k : K)
        → contains_key key_of alive k ≡ false
        → was_probed key_of probed k ≡ false
        → lookup k (note_probe_round key_of s probed alive now window a b).0.entries
          ≡ spare a b (lookup k s.entries)
    note_probe_round-others k dead h =
        lookup-note_probe_round k
        ∙ ap (spare a b) (
            note_failures-unprobed key_of k now window _ alive probed h
            ∙ record_alive-other key_of k now s alive dead)
