-- ===== src/Store/Answers.antt =====
-- What the answers of one probe round make of the entry of a bridge.
use tor_socks.Base.{
  ℕ, suc, ◌+◌, ◌≡◌, refl, sym, ap, ◌∙◌, inl, inr, Bool, true, false, Option, none, some, List, [],
  ◌∷◌, arith, if◌then◌else◌, Bool-cases, Option-cases, map_or, min, u32_max,
}
use tor_socks.OrdMap.{KeyOrd, key_eq, key_eq_iff, lookup}
use tor_socks.OrdMap.Laws.{lookup-upsert}
use tor_socks.Store.Entry.{Entry, BridgeStore, bare_entry}
use tor_socks.Store.Observe.{probe_hit, record_at, record_alive, contains_key}
use tor_socks.Store.Round.{record_at-other, record_alive-other}

module _ {L K : Type 0} ⦃o : KeyOrd K⦄ (key_of : L → K) (k : K) where
  -- How often a bridge of this identity is listed among those that answered, and its last answer.
  abbrev pub answers : List (L × ℕ) → ℕ
  answers [] = 0
  answers ((b, latency) ∷ alive) =
      let rest = answers alive in if key_eq (key_of b) k then suc rest else rest

  abbrev pub last_answer : List (L × ℕ) → Option (L × ℕ)
  last_answer [] = none
  last_answer ((b, latency) ∷ alive) = elim (last_answer alive) [
    | some later ↦ some later
    | none ↦ if key_eq (key_of b) k then some (b, latency) else none
  ]

  silent :
      (alive : List (L × ℕ))
      → last_answer alive ≡ none
      → (contains_key key_of alive k ≡ false) × (answers alive ≡ 0)
  unfolding contains_key
  silent [] h = (refl, refl)
  silent ((b, latency) ∷ alive) h = elim (Option-cases (last_answer alive)) [
    | inl none_later ↦
        let (absent, no_answer) = silent alive none_later in
        (ground (arith, none_later, h, absent), ground (arith, none_later, h, no_answer))
    | inr (later, found) ↦ absurd (ground (arith, found, h))
  ]

saturating_twice : (a n : ℕ) → min (min (a + 1) u32_max + n) u32_max ≡ min (a + (suc n)) u32_max
saturating_twice a n = ground arith

saturating_first : (n : ℕ) → min (min 1 u32_max + n) u32_max ≡ min (suc n) u32_max
saturating_first n = ground arith

module _ {L S : Type 0} (now : ℕ) where
  -- The entry of a bridge that answered `n` times, with the last bridge line and latency: its other
  -- fields are those of its old entry, or zeros and `none` if it was unknown.
  abbrev pub answered : ℕ → L → ℕ → Option (Entry L S) → Entry L S
  answered n b latency (some e) = record e {
    bridge = b;
    last_ok = some now;
    last_attempt = now;
    last_latency = latency;
    fails = 0;
    ok_count = min (e.ok_count + n) u32_max;
  }
  answered n b latency none = record {
    bridge = b;
    last_ok = some now;
    last_attempt = now;
    last_latency = latency;
    fails = 0;
    ok_count = min n u32_max;
    channel_ok_count = 0;
    last_channel_ok = none;
    verified_count = 0;
    last_verified = none;
    last_verification_attempt = none;
    circuit_fails = 0;
    last_circuit_observation = now;
    sources = [];
  }

  -- One answer.
  answered_once :
      (b : L) (latency : ℕ) (old : Option (Entry L S))
      → probe_hit b latency now (map_or (bare_entry b now latency) (λ e. e) old)
        ≡ answered 1 b latency old
  unfolding probe_hit bare_entry
  answered_once b latency none = refl
  answered_once b latency (some e) = refl

  -- One answer and then `n` more.
  answered_more :
      (n : ℕ) (b c : L) (latency later : ℕ) (old : Option (Entry L S))
      → answered n c later (some (answered 1 b latency old)) ≡ answered (suc n) c later old
  answered_more n b c latency later none =
      ap (λ (m : ℕ). record (answered n c later none) { ok_count = m }) (saturating_first n)
  answered_more n b c latency later (some e) =
      ap (λ (m : ℕ). record (answered n c later (some e)) { ok_count = m })
        (saturating_twice e.ok_count n)

module _ {L K S : Type 0} ⦃o : KeyOrd K⦄ (key_of : L → K) (k : K) (now : ℕ) where
  record_at-answered :
      (s : BridgeStore L K S) (b : L) (latency : ℕ)
      → key_eq (key_of b) k ≡ true
      → lookup k (record_at key_of s b latency now).entries
        ≡ some (answered now 1 b latency (lookup k s.entries))
  unfolding record_at
  record_at-answered s b latency h =
      let old : Entry L S =
        map_or (bare_entry b now latency) (λ e. e) (lookup (key_of b) s.entries) in
      let same : key_of b ≡ k = (key_eq_iff (key_of b) k).0 h in
      lookup-upsert (key_of b) k (bare_entry b now latency) (probe_hit b latency now) s.entries
      ∙ ap (λ (t : Bool). if t then some (probe_hit b latency now old) else lookup k s.entries)
          ((key_eq_iff k (key_of b)).1 (sym same))
      ∙ ap some (
          answered_once now b latency (lookup (key_of b) s.entries)
          ∙ ap (λ (j : K). answered now 1 b latency (lookup j s.entries)) same)

  pub record_alive-answered :
      (s : BridgeStore L K S) (alive : List (L × ℕ)) (c : L) (later : ℕ)
      → last_answer key_of k alive ≡ some (c, later)
      → lookup k (record_alive key_of s alive now).entries
        ≡ some (answered now (answers key_of k alive) c later (lookup k s.entries))
  unfolding record_alive
  record_alive-answered s [] c later h = absurd (ground (arith, h))
  record_alive-answered s ((b, latency) ∷ alive) c later h =
      let next = record_at key_of s b latency now in
      elim (Option-cases (last_answer key_of k alive)) [
        | inr (last, found) ↦
            let rec = record_alive-answered next alive c later (ground (arith, found, h)) in
            elim (Bool-cases (key_eq (key_of b) k)) [
              | inl hit ↦ rw hit (
                  rec
                  ∙ ap (λ old. some (answered now (answers key_of k alive) c later old))
                      (record_at-answered s b latency hit)
                  ∙ ap some (
                      answered_more now (answers key_of k alive) b c latency later
                        (lookup k s.entries)))
              | inr miss ↦ rw miss (
                  rec
                  ∙ ap (λ old. some (answered now (answers key_of k alive) c later old))
                      (record_at-other key_of k now s b latency miss))
            ]
        | inl none_later ↦
            let (absent, no_answer) = silent key_of k alive none_later in
            elim (Bool-cases (key_eq (key_of b) k)) [
              | inl hit ↦
                  let single : Option (L × ℕ) → Option (Entry L S) = λ t. elim t [
                    | none ↦ none
                    | some x ↦ some (answered now 1 x.0 x.1 (lookup k s.entries))
                  ] in
                  rw (hit, no_answer)
                    (record_alive-other key_of k now next alive absent
                      ∙ record_at-answered s b latency hit
                      ∙ ap single {x = some (b, latency)} {y = some (c, later)}
                          (ground (arith, none_later, hit, h)))
              | inr miss ↦ absurd (ground (arith, none_later, miss, h))
            ]
      ]
