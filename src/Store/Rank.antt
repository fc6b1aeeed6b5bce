-- ===== src/Store/Rank.antt =====
-- packages/bridge-store/src/stats.rs: the health-ranked selections. `none` is a panic of `take_best`.
use tor_socks.Base.{
  ℕ, suc, ◌+◌, Bool, true, false, ◌&&◌, ◌||◌, not, Option, none, some, List, [], ◌∷◌, map, compare,
  Ordering, ltb, leb, keep_if, map_or,
}
use tor_socks.OrdMap.{KeyOrd, key_eq, lookup, values}
use tor_socks.Best.{◌then_with◌, option_cmp, BinaryHeap, take_best, sort}
use tor_socks.Store.Entry.{Entry, BridgeStore, is_retired, is_proven_alive}

-- `Ranked`, `DueForVerification` and `ChannelProven`: an entry with its place in the store map.
pub record Ranked (L S : Type 0) : Type 0 where
  pub position : ℕ
  pub entry : Entry L S

module _ {L S : Type 0} where
  unfoldable pub rank_cmp : Entry L S → Entry L S → Ordering
  rank_cmp a b =
      compare b.verified_count a.verified_count
      then_with option_cmp b.last_verified a.last_verified
      then_with compare b.channel_ok_count a.channel_ok_count
      then_with option_cmp b.last_channel_ok a.last_channel_ok
      then_with compare b.ok_count a.ok_count
      then_with compare a.last_latency b.last_latency

  unfoldable pub channel_proven_cmp : Entry L S → Entry L S → Ordering
  channel_proven_cmp a b =
      option_cmp b.last_channel_ok a.last_channel_ok
      then_with compare b.channel_ok_count a.channel_ok_count

  -- `last_verification_attempt.or(last_verified)`
  unfoldable pub due : Entry L S → Option ℕ
  due e = elim e.last_verification_attempt [ some t ↦ some t | none ↦ e.last_verified ]

  -- `impl Ord` of the three heap items.
  unfoldable pub ranked_cmp : Ranked L S → Ranked L S → Ordering
  ranked_cmp a b = rank_cmp a.entry b.entry then_with compare a.position b.position

  unfoldable pub channel_cmp : Ranked L S → Ranked L S → Ordering
  channel_cmp a b = channel_proven_cmp a.entry b.entry then_with compare a.position b.position

  unfoldable pub due_cmp : Ranked L S → Ranked L S → Ordering
  due_cmp a b = option_cmp (due a.entry) (due b.entry) then_with compare a.position b.position

  -- `.enumerate().map(..)`
  unfoldable pub enumerate : ℕ → List (Entry L S) → List (Ranked L S)
  enumerate n [] = []
  enumerate n (e ∷ es) = record { position = n; entry = e } ∷ enumerate (suc n) es

  -- `.into_iter().map(|ranked| ranked.entry.bridge.clone()).collect()`
  abbrev pub bridges : Option (List (Ranked L S)) → Option (List L)
  bridges none = none
  bridges (some rs) = some (map (λ r. r.entry.bridge) rs)

  unfoldable pub is_channel_proven : Entry L S → Bool
  unfolding is_retired
  is_channel_proven e = ltb 0 e.channel_ok_count && not (is_retired e)

  -- The last verification is missing, or at least `max_age` old.
  unfoldable pub is_due : ℕ → ℕ → Entry L S → Bool
  is_due now max_age e = map_or true (λ t. leb (t + max_age) now) e.last_verified

-- The heap of the Rust library that `take_best` uses, at the type of its items.
module _ {L S : Type 0} (heap : BinaryHeap (Ranked L S)) where
  unfoldable pub rank_and_take : List (Entry L S) → ℕ → Option (List L)
  rank_and_take healthy limit = bridges (take_best ranked_cmp heap limit (enumerate 0 healthy))

module _ {L K S : Type 0} (heap : BinaryHeap (Ranked L S)) where
  unfoldable pub channel_proven_bridges : BridgeStore L K S → ℕ → Option (List L)
  channel_proven_bridges s limit = bridges (
      take_best channel_cmp heap limit (enumerate 0 (keep_if is_channel_proven (values s.entries))))

  unfoldable pub needing_circuit_verification :
      BridgeStore L K S → ℕ → ℕ → ℕ → (L → Bool) → Option (List L)
  needing_circuit_verification s now max_age limit filter = bridges (
      take_best due_cmp heap limit (
        enumerate 0 (
          keep_if (λ e. filter e.bridge)
            (keep_if (is_due now max_age) (keep_if is_channel_proven (values s.entries))))))

  unfoldable pub healthiest_bridges : BridgeStore L K S → ℕ → Option (List L)
  healthiest_bridges s limit = rank_and_take heap (keep_if is_proven_alive (values s.entries)) limit

module _ {L K : Type 0} ⦃o : KeyOrd K⦄ (key_of : L → K) where
  -- `allowed.contains(key)`
  unfoldable pub allowed : List L → K → Bool
  allowed [] k = false
  allowed (c ∷ candidates) k = key_eq (key_of c) k || allowed candidates k

module _ {L K S : Type 0} ⦃o : KeyOrd K⦄ (key_of : L → K) where
  unfoldable pub healthiest_among :
      BinaryHeap (Ranked L S) → BridgeStore L K S → List L → ℕ → Option (List L)
  healthiest_among heap s candidates limit =
      rank_and_take heap
        (values (keep_if (λ x. is_proven_alive x.1 && allowed key_of candidates x.0) s.entries))
        limit

  -- The cached sort key: more proven channels, then more answered probes, then lower latency.
  unfoldable pub round_cmp : BridgeStore L K S → L × ℕ → L × ℕ → Ordering
  round_cmp s (b, b_latency) (c, c_latency) =
      let channels : L → ℕ =
        λ x. map_or 0 (λ e. e.channel_ok_count) (lookup (key_of x) s.entries) in
      let oks : L → ℕ = λ x. map_or 0 (λ e. e.ok_count) (lookup (key_of x) s.entries) in
      compare (channels c) (channels b)
      then_with compare (oks c) (oks b)
      then_with compare b_latency c_latency

  unfoldable pub rank_probe_round : BridgeStore L K S → List (L × ℕ) → List (L × ℕ)
  unfolding round_cmp sort
  rank_probe_round s alive = sort (round_cmp s) alive
