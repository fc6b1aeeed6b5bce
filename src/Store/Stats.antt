-- ===== src/Store/Stats.antt =====
-- packages/bridge-store/src/stats.rs: the counters of one bridge.
use tor_socks.Base.{ℕ, ◌≡◌, Option, none, some, List, arith, length, keep_if, map_or, []}
use mathlib.Core.Option
use tor_socks.OrdMap.{KeyOrd, lookup, keys, values}
use tor_socks.Store.Entry.{BridgeStore, HealthSnapshot, is_proven_alive}

module _ {L K S : Type 0} where
  unfoldable pub alive_count : BridgeStore L K S → ℕ
  alive_count s = length (keep_if is_proven_alive (values s.entries))

module _ {L K S : Type 0} ⦃o : KeyOrd K⦄ (key_of : L → K) (s : BridgeStore L K S) (bridge : L) where
  unfoldable pub ok_count : ℕ
  ok_count = map_or 0 (λ e. e.ok_count) (lookup (key_of bridge) s.entries)

  unfoldable pub circuit_fails : ℕ
  circuit_fails = map_or 0 (λ e. e.circuit_fails) (lookup (key_of bridge) s.entries)

  unfoldable pub last_circuit_observation : Option ℕ
  last_circuit_observation =
      Option.map (λ e. e.last_circuit_observation) (lookup (key_of bridge) s.entries)

  unfoldable pub channel_ok_count : ℕ
  channel_ok_count = map_or 0 (λ e. e.channel_ok_count) (lookup (key_of bridge) s.entries)

  unfoldable pub verified_count : ℕ
  verified_count = map_or 0 (λ e. e.verified_count) (lookup (key_of bridge) s.entries)

  unfoldable pub last_verified : Option ℕ
  last_verified = Option.bind (lookup (key_of bridge) s.entries) (λ e. e.last_verified)

  unfoldable pub tcp_fails : ℕ
  tcp_fails = map_or 0 (λ e. e.fails) (lookup (key_of bridge) s.entries)

  unfoldable pub sources_of : List S
  sources_of = map_or [] (λ e. keys e.sources) (lookup (key_of bridge) s.entries)

  unfoldable pub health_snapshot : Option HealthSnapshot
  health_snapshot =
      Option.map
        (λ e. record {
          tcp_fails = e.fails;
          circuit_fails = e.circuit_fails;
          verified_count = e.verified_count;
          ok_count = e.ok_count;
          last_circuit_observation = some e.last_circuit_observation;
        })
        (lookup (key_of bridge) s.entries)

  -- What a caller reads off an absent snapshot: zero counts, and no time.
  unfoldable pub snapshot_or_default : HealthSnapshot
  snapshot_or_default =
      map_or
        (record {
          tcp_fails = 0;
          circuit_fails = 0;
          verified_count = 0;
          ok_count = 0;
          last_circuit_observation = none;
        })
        (λ h. h) health_snapshot

  -- The snapshot holds what the single getters return, with their fallbacks for an unknown bridge.
  pub health_snapshot-getters : snapshot_or_default ≡ record {
    tcp_fails = tcp_fails;
    circuit_fails = circuit_fails;
    verified_count = verified_count;
    ok_count = ok_count;
    last_circuit_observation = last_circuit_observation;
  }
  unfolding snapshot_or_default health_snapshot tcp_fails circuit_fails verified_count ok_count
      last_circuit_observation
  health_snapshot-getters = ground arith
