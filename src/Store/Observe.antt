-- ===== src/Store/Observe.antt =====
-- packages/bridge-store/src/observe.rs: recording of observations, and pruning.
use tor_socks.Base.{
  ℕ, ◌+◌, Bool, true, false, ◌||◌, ◌&&◌, none, some, List, [], ◌∷◌, leb, ltb, ◌==◌, if◌then◌else◌,
  keep_if, saturating_add, map_or,
}
use tor_socks.OrdMap.{KeyOrd, key_eq, lookup, insert, remove, modify, upsert}
use tor_socks.Store.Entry.{Entry, BridgeStore, retired_circuit_fails, is_retired, bare_entry, date}

module _ {L S : Type 0} where
  -- The assignments of each operation, as changes of one entry.
  unfoldable pub probe_hit : L → ℕ → ℕ → Entry L S → Entry L S
  probe_hit bridge latency now e = record e {
    bridge = bridge;
    last_ok = some now;
    last_attempt = now;
    last_latency = latency;
    fails = 0;
    ok_count = saturating_add e.ok_count 1;
  }

  -- `now - e.last_attempt >= window`, with the subtraction moved over.
  unfoldable pub probe_miss : ℕ → ℕ → Entry L S → Entry L S × Bool
  probe_miss now window e =
      if leb (e.last_attempt + window) now
      then (record e { fails = saturating_add e.fails 1; last_attempt = now }, true)
      else (e, false)

  unfoldable pub circuit_miss : ℕ → ℕ → Entry L S → Entry L S × Bool
  circuit_miss now window e =
      if leb (e.last_circuit_observation + window) now
      then (
        record e {
          circuit_fails = saturating_add e.circuit_fails 1;
          last_circuit_observation = now;
        },
        true,
      )
      else (e, false)

  unfoldable pub retire : ℕ → Entry L S → Entry L S
  retire now e = record e { circuit_fails = retired_circuit_fails; last_circuit_observation = now }

  unfoldable pub circuit_hit : ℕ → Entry L S → Entry L S
  circuit_hit now e = record e { circuit_fails = 0; last_circuit_observation = now }

  unfoldable pub channel_hit : ℕ → Entry L S → Entry L S
  channel_hit now e = record e {
    channel_ok_count = saturating_add e.channel_ok_count 1;
    last_channel_ok = some now;
  }

  unfoldable pub verified_hit : ℕ → Entry L S → Entry L S
  verified_hit now e = record e {
    verified_count = saturating_add e.verified_count 1;
    last_verified = some now;
    last_verification_attempt = some now;
  }

  unfoldable pub verification_attempt : ℕ → Entry L S → Entry L S
  verification_attempt now e = record e { last_verification_attempt = some now }

  unfoldable pub is_dead : ℕ → ℕ → Entry L S → Bool
  is_dead max_fails max_circuit_fails e =
      leb max_fails e.fails || leb max_circuit_fails e.circuit_fails

module _ {L K S : Type 0} ⦃o : KeyOrd K⦄ where
  -- The keys of the dead entries are removed one by one; the bridges go to the caller.
  unfoldable pub dead_of : ℕ → ℕ → List (K × Entry L S) → List (K × Entry L S)
  unfolding is_dead
  dead_of max_fails max_circuit_fails = keep_if λ e. is_dead max_fails max_circuit_fails e.1

  unfoldable pub remove_all :
      List (K × Entry L S) → List (K × Entry L S) → List L × List (K × Entry L S)
  remove_all [] m = ([], m)
  remove_all ((k, _) ∷ dead) m = elim (lookup k m) [
    | none ↦ remove_all dead m
    | some e ↦ let r = remove_all dead (remove k m) in (e.bridge ∷ r.0, r.1)
  ]

  unfoldable pub prune : BridgeStore L K S → ℕ → ℕ → BridgeStore L K S × List L
  unfolding dead_of remove_all
  prune s max_fails max_circuit_fails =
      let r = remove_all (dead_of max_fails max_circuit_fails s.entries) s.entries in
      (record s { entries = r.1 }, r.0)

module _ {L K : Type 0} ⦃o : KeyOrd K⦄ (key_of : L → K) where
  -- `alive_keys.contains(..)`
  unfoldable pub contains_key : List (L × ℕ) → K → Bool
  contains_key [] k = false
  contains_key ((bridge, _) ∷ alive) k = key_eq (key_of bridge) k || contains_key alive k

module _ {L K S : Type 0} ⦃o : KeyOrd K⦄ (key_of : L → K) where
  unfoldable pub record_at : BridgeStore L K S → L → ℕ → ℕ → BridgeStore L K S
  unfolding probe_hit bare_entry upsert
  record_at s bridge latency now = record s {
    entries =
        upsert (key_of bridge) (bare_entry bridge now latency) (probe_hit bridge latency now)
          s.entries;
  }

  unfoldable pub note_failure_at : BridgeStore L K S → L → ℕ → ℕ → BridgeStore L K S × Bool
  unfolding probe_miss bare_entry
  note_failure_at s bridge now window = elim (lookup (key_of bridge) s.entries) [
    | some e ↦ (
      record s { entries = insert (key_of bridge) (probe_miss now window e).0 s.entries },
      (probe_miss now window e).1,
    )
    | none ↦ (
      record s {
        entries = insert (key_of bridge) (record (bare_entry bridge now 0) { fails = 1 }) s.entries;
      },
      true,
    )
  ]

  unfoldable pub note_circuit_failure_at : BridgeStore L K S → L → ℕ → ℕ → BridgeStore L K S × Bool
  unfolding circuit_miss bare_entry
  note_circuit_failure_at s bridge now window = elim (lookup (key_of bridge) s.entries) [
    | some e ↦ (
      record s { entries = insert (key_of bridge) (circuit_miss now window e).0 s.entries },
      (circuit_miss now window e).1,
    )
    | none ↦ (
      record s {
        entries =
            insert (key_of bridge) (record (bare_entry bridge now 0) { circuit_fails = 1 })
              s.entries;
      },
      true,
    )
  ]

  unfoldable pub note_permanent_failure_at : BridgeStore L K S → L → ℕ → BridgeStore L K S
  unfolding bare_entry retire upsert
  note_permanent_failure_at s bridge now = record s {
    entries = upsert (key_of bridge) (bare_entry bridge now 0) (retire now) s.entries;
  }

  unfoldable pub bridge_is_retired : BridgeStore L K S → L → Bool
  unfolding is_retired
  bridge_is_retired s bridge = map_or false is_retired (lookup (key_of bridge) s.entries)

  unfoldable pub failed_today : BridgeStore L K S → L → ℕ → Bool
  unfolding date
  failed_today s bridge today =
      map_or false (λ e. ltb 0 e.fails && date e.last_attempt == date today)
        (lookup (key_of bridge) s.entries)

  unfoldable pub note_circuit_success_at : BridgeStore L K S → L → ℕ → BridgeStore L K S
  unfolding circuit_hit modify
  note_circuit_success_at s bridge now = record s {
    entries = modify (key_of bridge) (circuit_hit now) s.entries;
  }

  unfoldable pub note_channel_success_at : BridgeStore L K S → L → ℕ → BridgeStore L K S
  unfolding channel_hit modify
  note_channel_success_at s bridge now = record s {
    entries = modify (key_of bridge) (channel_hit now) s.entries;
  }

  unfoldable pub note_circuit_verified_at : BridgeStore L K S → L → ℕ → BridgeStore L K S
  unfolding verified_hit modify
  note_circuit_verified_at s bridge now = record s {
    entries = modify (key_of bridge) (verified_hit now) s.entries;
  }

  unfoldable pub note_verification_attempt_at : BridgeStore L K S → L → ℕ → BridgeStore L K S
  unfolding verification_attempt modify
  note_verification_attempt_at s bridge now = record s {
    entries = modify (key_of bridge) (verification_attempt now) s.entries;
  }

  unfoldable pub record_alive : BridgeStore L K S → List (L × ℕ) → ℕ → BridgeStore L K S
  record_alive s [] now = s
  record_alive s ((bridge, latency) ∷ alive) now =
      record_alive (record_at s bridge latency now) alive now

  unfoldable pub note_failures :
      BridgeStore L K S → List (L × ℕ) → List L → ℕ → ℕ → BridgeStore L K S
  unfolding contains_key
  note_failures s alive [] now window = s
  note_failures s alive (bridge ∷ probed) now window =
      note_failures
        (if contains_key key_of alive (key_of bridge)
          then s
          else (note_failure_at s bridge now window).0)
        alive probed now window

  unfoldable pub note_probe_round :
      BridgeStore L K S → List L → List (L × ℕ) → ℕ → ℕ → ℕ → ℕ → BridgeStore L K S × List L
  note_probe_round s probed alive now fail_window max_fails max_circuit_fails =
      prune (note_failures (record_alive s alive now) alive probed now fail_window) max_fails
        max_circuit_fails

module _ {L S : Type 0} ⦃t : KeyOrd S⦄ where
  unfoldable pub add_source : S → Entry L S → Entry L S
  add_source source e = record e { sources = insert source tt e.sources }

module _ {L K S : Type 0} ⦃o : KeyOrd K⦄ ⦃t : KeyOrd S⦄ (key_of : L → K) where
  unfoldable pub note_source_at : BridgeStore L K S → L → S → ℕ → BridgeStore L K S
  unfolding bare_entry upsert add_source
  note_source_at s bridge source now = record s {
    entries = upsert (key_of bridge) (bare_entry bridge now 0) (add_source source) s.entries;
  }
