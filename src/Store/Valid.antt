-- ===== src/Store/Valid.antt =====
-- Every call keeps the entries in key order, each under the identity of its own bridge line, and
-- every counter within a `u32`.
use tor_socks.Base.{
  ℕ, ◌≤◌, ◌≡◌, inl, inr, List, [], ◌∷◌, arith, All, u32_max, Bool-cases, Option-cases,
  All-keep_if_of_All,
}
use tor_socks.OrdMap.{KeyOrd, lookup, insert, modify, upsert}
use tor_socks.OrdMap.Laws.{
  IsSorted, insert-IsSorted, keep_if-IsSorted, modify-IsSorted, upsert-IsSorted, All-insert,
  All-lookup, All-modify, All-upsert,
}
use tor_socks.Store.Entry.{Entry, BridgeStore, bare_entry}
use tor_socks.Store.Observe.{
  probe_hit, retire, circuit_hit, channel_hit, verified_hit, verification_attempt, record_at,
  note_failure_at, record_alive, note_failures, contains_key, note_circuit_failure_at,
  note_permanent_failure_at, note_circuit_success_at, prune, note_channel_success_at,
  note_circuit_verified_at, note_verification_attempt_at, note_source_at, note_probe_round,
  add_source,
}
use tor_socks.Store.Prune.{prune_lem}
use tor_socks.Store.Notes.{
  Note, probe_round, circuit_failure, permanent_failure, source_credit, circuit_success,
  channel_success, circuit_verified, verification_tried, note, run,
}

-- What holds of an entry that stands under the key `k`.
pub record IsKept {L K S : Type 0} (key_of : L → K) (x : K × Entry L S) : Type 0 where
  pub keyed : key_of x.1.bridge ≡ x.0
  pub fails_u32 : x.1.fails ≤ u32_max
  pub circuit_fails_u32 : x.1.circuit_fails ≤ u32_max
  pub ok_count_u32 : x.1.ok_count ≤ u32_max
  pub channel_ok_count_u32 : x.1.channel_ok_count ≤ u32_max
  pub verified_count_u32 : x.1.verified_count ≤ u32_max

pub record IsValid {L K S : Type 0} ⦃o : KeyOrd K⦄ (key_of : L → K) (s : BridgeStore L K S)
    : Type 0 where
  pub sorted : IsSorted s.entries
  pub kept : All (IsKept key_of) s.entries

module _ {L K S : Type 0} ⦃o : KeyOrd K⦄ (key_of : L → K) where
  abbrev Kept : K × Entry L S → Type 0
  Kept = IsKept key_of

  bare-IsKept : (b : L) (now lat : ℕ) → Kept (key_of b, bare_entry b now lat)
  unfolding bare_entry
  bare-IsKept b now lat = ground arith

  module _ (s : BridgeStore L K S) (v : IsValid key_of s) where
    insert-IsValid :
        (k : K) (e : Entry L S)
        → Kept (k, e)
        → IsValid key_of (record s { entries = insert k e s.entries })
    insert-IsValid k e h = record {
      sorted = insert-IsSorted k e s.entries v.sorted;
      kept = All-insert Kept k e s.entries h v.kept;
    }

    modify-IsValid :
        (k : K) (f : Entry L S → Entry L S)
        → ((e : Entry L S) → Kept (k, e) → Kept (k, f e))
        → IsValid key_of (record s { entries = modify k f s.entries })
    modify-IsValid k f h = record {
      sorted = modify-IsSorted k f s.entries v.sorted;
      kept = All-modify Kept k f s.entries h v.kept;
    }

    upsert-IsValid :
        (b : L) (now lat : ℕ) (f : Entry L S → Entry L S)
        → ((e : Entry L S) → Kept (key_of b, e) → Kept (key_of b, f e))
        → IsValid key_of
            (record s { entries = upsert (key_of b) (bare_entry b now lat) f s.entries })
    upsert-IsValid b now lat f h = record {
      sorted = upsert-IsSorted (key_of b) (bare_entry b now lat) f s.entries v.sorted;
      kept =
          All-upsert Kept (key_of b) (bare_entry b now lat) f s.entries
            (h (bare_entry b now lat) (bare-IsKept b now lat)) h v.kept;
    }

    record_at-IsValid : (b : L) (lat now : ℕ) → IsValid key_of (record_at key_of s b lat now)
    unfolding record_at
    record_at-IsValid b lat now =
        upsert-IsValid b now lat (probe_hit b lat now) (λ e h. ground arith)

    note_failure_at-IsValid :
        (b : L) (now window : ℕ) → IsValid key_of (note_failure_at key_of s b now window).0
    unfolding note_failure_at
    note_failure_at-IsValid b now window = elim (Option-cases (lookup (key_of b) s.entries)) [
      | inl e ↦ rw (e, note_failure_at) (insert-IsValid _ _ (ground arith))
      | inr (x, e) ↦
          rw (e, note_failure_at)
            (insert-IsValid _ _ (ground (arith, All-lookup Kept (key_of b) x s.entries v.kept e)))
    ]

    note_circuit_failure_at-IsValid :
        (b : L) (now window : ℕ) → IsValid key_of (note_circuit_failure_at key_of s b now window).0
    unfolding note_circuit_failure_at
    note_circuit_failure_at-IsValid b now window =
        elim (Option-cases (lookup (key_of b) s.entries)) [
          | inl e ↦ rw (e, note_circuit_failure_at) (insert-IsValid _ _ (ground arith))
          | inr (x, e) ↦
              rw (e, note_circuit_failure_at)
                (insert-IsValid _ _
                  (ground (arith, All-lookup Kept (key_of b) x s.entries v.kept e)))
        ]

    prune-IsValid : (a b : ℕ) → IsValid key_of (prune s a b).0
    prune-IsValid a b = rw (prune_lem s a b v.sorted) (record {
      sorted = keep_if-IsSorted _ s.entries v.sorted;
      kept = All-keep_if_of_All Kept _ s.entries v.kept;
    })

  pub record_alive-IsValid :
      (s : BridgeStore L K S) (alive : List (L × ℕ)) (now : ℕ)
      → IsValid key_of s
      → IsValid key_of (record_alive key_of s alive now)
  unfolding record_alive
  record_alive-IsValid s [] now v = v
  record_alive-IsValid s ((b, lat) ∷ alive) now v =
      record_alive-IsValid (record_at key_of s b lat now) alive now
        (record_at-IsValid s v b lat now)

  pub note_failures-IsValid :
      (s : BridgeStore L K S) (alive : List (L × ℕ)) (probed : List L) (now window : ℕ)
      → IsValid key_of s
      → IsValid key_of (note_failures key_of s alive probed now window)
  unfolding note_failures
  note_failures-IsValid s alive [] now window v = v
  note_failures-IsValid s alive (b ∷ probed) now window v =
      elim (Bool-cases (contains_key key_of alive (key_of b))) [
        | inl hit ↦ rw (hit, note_failures) (note_failures-IsValid s alive probed now window v)
        | inr miss ↦
            rw (miss, note_failures)
              (note_failures-IsValid (note_failure_at key_of s b now window).0 alive probed now
                window (note_failure_at-IsValid s v b now window))
      ]

  note_probe_round-IsValid :
      (s : BridgeStore L K S) (probed : List L) (alive : List (L × ℕ)) (now window a b : ℕ)
      → IsValid key_of s
      → IsValid key_of (note_probe_round key_of s probed alive now window a b).0
  unfolding note_probe_round
  note_probe_round-IsValid s probed alive now window a b v =
      prune-IsValid _
        (note_failures-IsValid _ alive probed now window (record_alive-IsValid s alive now v)) a b

module _ {L K S : Type 0} ⦃o : KeyOrd K⦄ ⦃t : KeyOrd S⦄ (key_of : L → K) where
  pub note-IsValid :
      (s : BridgeStore L K S) (n : Note L S) → IsValid key_of s → IsValid key_of (note key_of s n)
  unfolding note note_permanent_failure_at note_source_at note_circuit_success_at
      note_channel_success_at note_circuit_verified_at note_verification_attempt_at
  note-IsValid s (probe_round probed alive now window a b) v =
      note_probe_round-IsValid key_of s probed alive now window a b v
  note-IsValid s (circuit_failure b now window) v =
      note_circuit_failure_at-IsValid key_of s v b now window
  note-IsValid s (permanent_failure b now) v =
      upsert-IsValid key_of s v b now 0 (retire now) (λ e h. ground arith)
  note-IsValid s (source_credit b source now) v =
      upsert-IsValid key_of s v b now 0 (add_source source) (λ e h. ground arith)
  note-IsValid s (circuit_success b now) v =
      modify-IsValid key_of s v (key_of b) (circuit_hit now) (λ e h. ground arith)
  note-IsValid s (channel_success b now) v =
      modify-IsValid key_of s v (key_of b) (channel_hit now) (λ e h. ground arith)
  note-IsValid s (circuit_verified b now) v =
      modify-IsValid key_of s v (key_of b) (verified_hit now) (λ e h. ground arith)
  note-IsValid s (verification_tried b now) v =
      modify-IsValid key_of s v (key_of b) (verification_attempt now) (λ e h. ground arith)

  -- Every history of calls keeps the store valid.
  pub run-IsValid :
      (s : BridgeStore L K S) (ns : List (Note L S))
      → IsValid key_of s
      → IsValid key_of (run key_of s ns)
  unfolding run
  run-IsValid s [] v = v
  run-IsValid s (n ∷ ns) v = run-IsValid (note key_of s n) ns (note-IsValid s n v)
