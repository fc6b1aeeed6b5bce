-- ===== src/Store/Notes.antt =====
-- The public calls that change a health store, as one type, and histories of them.
use tor_socks.Base.{ℕ, List, [], ◌∷◌}
use tor_socks.OrdMap.{KeyOrd}
use tor_socks.Store.Entry.{BridgeStore}
use tor_socks.Store.Observe.{
  note_probe_round, note_circuit_failure_at, note_permanent_failure_at, note_circuit_success_at,
  note_channel_success_at, note_circuit_verified_at, note_verification_attempt_at, note_source_at,
}

pub data Note (L S : Type 0) : Type 0 where
  probe_round : List L → List (L × ℕ) → ℕ → ℕ → ℕ → ℕ → Note L S
  circuit_failure : L → ℕ → ℕ → Note L S
  permanent_failure : L → ℕ → Note L S
  source_credit : L → S → ℕ → Note L S
  circuit_success : L → ℕ → Note L S
  channel_success : L → ℕ → Note L S
  circuit_verified : L → ℕ → Note L S
  verification_tried : L → ℕ → Note L S

module _ {L K S : Type 0} ⦃o : KeyOrd K⦄ ⦃t : KeyOrd S⦄ (key_of : L → K) where
  unfoldable pub note : BridgeStore L K S → Note L S → BridgeStore L K S
  note s (probe_round probed alive now window a b) =
      (note_probe_round key_of s probed alive now window a b).0
  note s (circuit_failure bridge now window) =
      (note_circuit_failure_at key_of s bridge now window).0
  note s (permanent_failure bridge now) = note_permanent_failure_at key_of s bridge now
  note s (source_credit bridge source now) = note_source_at key_of s bridge source now
  note s (circuit_success bridge now) = note_circuit_success_at key_of s bridge now
  note s (channel_success bridge now) = note_channel_success_at key_of s bridge now
  note s (circuit_verified bridge now) = note_circuit_verified_at key_of s bridge now
  note s (verification_tried bridge now) = note_verification_attempt_at key_of s bridge now

  unfoldable pub run : BridgeStore L K S → List (Note L S) → BridgeStore L K S
  unfolding note
  run s [] = s
  run s (n ∷ ns) = run (note s n) ns
