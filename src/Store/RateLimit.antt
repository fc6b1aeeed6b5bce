-- ===== src/Store/RateLimit.antt =====
-- However many failures are reported, a counter grows at most once per window of time.
use native.Mathlib.Nat.{mul-le-mul_right}
use tor_socks.Base.{
  ℕ, ◌+◌, ◌*◌, ◌≤◌, ◌≡◌, some, List, [], ◌∷◌, arith, All, Bool-cases, leb, inl, saturating_add,
  leb→le, inr,
}
use tor_socks.OrdMap.{KeyOrd, key_eq_refl, lookup}
use tor_socks.OrdMap.Laws.{lookup-insert}
use tor_socks.Store.Entry.{Entry, BridgeStore}
use tor_socks.Store.Observe.{probe_miss, circuit_miss, note_failure_at, note_circuit_failure_at}

-- One counted failure spends a whole window.
window_spent :
    (f g w last now latest r : ℕ)
    → g ≤ f + 1
    → last + w ≤ now
    → r + now ≤ latest + g * w
    → r + last ≤ latest + f * w
window_spent f g w last now latest r h k m = omega (arith, mul-le-mul_right w h)

module _ {L S : Type 0} (now window latest : ℕ) (e : Entry L S) (now_le : now ≤ latest) where
  probe_miss-latest : e.last_attempt ≤ latest → (probe_miss now window e).0.last_attempt ≤ latest
  unfolding probe_miss
  probe_miss-latest h = ground arith

  probe_miss-rate :
      (r : ℕ)
      → r + (probe_miss now window e).0.last_attempt
        ≤ latest + (probe_miss now window e).0.fails * window
      → r + e.last_attempt ≤ latest + e.fails * window
  unfolding probe_miss
  probe_miss-rate r h = elim (Bool-cases (leb (e.last_attempt + window) now)) [
    | inl due ↦
        window_spent e.fails (saturating_add e.fails 1) window e.last_attempt now latest r
          (omega arith) (leb→le _ _ due) (rw (due, probe_miss) at h)
    | inr early ↦ (rw (early, probe_miss) at h)
  ]

  circuit_miss-latest :
      e.last_circuit_observation ≤ latest
      → (circuit_miss now window e).0.last_circuit_observation ≤ latest
  unfolding circuit_miss
  circuit_miss-latest h = ground arith

  circuit_miss-rate :
      (r : ℕ)
      → r + (circuit_miss now window e).0.last_circuit_observation
        ≤ latest + (circuit_miss now window e).0.circuit_fails * window
      → r + e.last_circuit_observation ≤ latest + e.circuit_fails * window
  unfolding circuit_miss
  circuit_miss-rate r h = elim (Bool-cases (leb (e.last_circuit_observation + window) now)) [
    | inl due ↦
        window_spent e.circuit_fails (saturating_add e.circuit_fails 1) window
          e.last_circuit_observation now latest r (omega arith) (leb→le _ _ due)
          (rw (due, circuit_miss) at h)
    | inr early ↦ (rw (early, circuit_miss) at h)
  ]

module _ {L K S : Type 0} ⦃o : KeyOrd K⦄ (key_of : L → K) (b : L) (window : ℕ) where
  -- Failures of one bridge, reported at the given times.
  pub failures_at : BridgeStore L K S → List ℕ → BridgeStore L K S
  failures_at s [] = s
  failures_at s (now ∷ times) = failures_at (note_failure_at key_of s b now window).0 times

  pub circuit_failures_at : BridgeStore L K S → List ℕ → BridgeStore L K S
  circuit_failures_at s [] = s
  circuit_failures_at s (now ∷ times) =
      circuit_failures_at (note_circuit_failure_at key_of s b now window).0 times

  lookup-note_failure_at :
      (s : BridgeStore L K S) (now : ℕ) (e : Entry L S)
      → lookup (key_of b) s.entries ≡ some e
      → lookup (key_of b) (note_failure_at key_of s b now window).0.entries
        ≡ some (probe_miss now window e).0
  unfolding note_failure_at
  lookup-note_failure_at s now e h =
      rw (h, note_failure_at)
        (ground (
          arith,
          lookup-insert (key_of b) (key_of b) (probe_miss now window e).0 s.entries,
          key_eq_refl (key_of b),
        ))

  lookup-note_circuit_failure_at :
      (s : BridgeStore L K S) (now : ℕ) (e : Entry L S)
      → lookup (key_of b) s.entries ≡ some e
      → lookup (key_of b) (note_circuit_failure_at key_of s b now window).0.entries
        ≡ some (circuit_miss now window e).0
  unfolding note_circuit_failure_at
  lookup-note_circuit_failure_at s now e h =
      rw (h, note_circuit_failure_at)
        (ground (
          arith,
          lookup-insert (key_of b) (key_of b) (circuit_miss now window e).0 s.entries,
          key_eq_refl (key_of b),
        ))

  -- Probe failures of a known bridge reported at any times up to `latest`: the bridge stays known,
  -- and its failure counter has grown by at most one for each whole window that has passed since
  -- the counter was last touched.
  pub failures_at-rate :
      (s : BridgeStore L K S) (times : List ℕ) (latest : ℕ) (e : Entry L S)
      → lookup (key_of b) s.entries ≡ some e
      → e.last_attempt ≤ latest
      → All (λ now. now ≤ latest) times
      → (e' : Entry L S) × (lookup (key_of b) (failures_at s times).entries ≡ some e')
        × (e'.fails * window + e.last_attempt ≤ latest + e.fails * window)
  unfolding failures_at
  failures_at-rate s [] latest e h le all = (e, h, omega arith)
  failures_at-rate s (now ∷ times) latest e h le all =
      let (e', found, bound) =
        failures_at-rate (note_failure_at key_of s b now window).0 times latest
          (probe_miss now window e).0 (lookup-note_failure_at s now e h)
          (probe_miss-latest now window latest e all.0 le) all.1 in
      (e', found, probe_miss-rate now window latest e all.0 (e'.fails * window) bound)

  -- The same of circuit failures.
  pub circuit_failures_at-rate :
      (s : BridgeStore L K S) (times : List ℕ) (latest : ℕ) (e : Entry L S)
      → lookup (key_of b) s.entries ≡ some e
      → e.last_circuit_observation ≤ latest
      → All (λ now. now ≤ latest) times
      → (e' : Entry L S) × (lookup (key_of b) (circuit_failures_at s times).entries ≡ some e')
        × (e'.circuit_fails * window + e.last_circuit_observation
            ≤ latest + e.circuit_fails * window)
  unfolding circuit_failures_at
  circuit_failures_at-rate s [] latest e h le all = (e, h, omega arith)
  circuit_failures_at-rate s (now ∷ times) latest e h le all =
      let (e', found, bound) =
        circuit_failures_at-rate (note_circuit_failure_at key_of s b now window).0 times latest
          (circuit_miss now window e).0 (lookup-note_circuit_failure_at s now e h)
          (circuit_miss-latest now window latest e all.0 le) all.1 in
      (e', found, circuit_miss-rate now window latest e all.0 (e'.circuit_fails * window) bound)
