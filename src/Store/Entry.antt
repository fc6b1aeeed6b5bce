-- ===== src/Store/Entry.antt =====
-- packages/bridge-store/src/lib.rs: the stored entry, its predicates, and the row types.
use tor_socks.Base.{
  ℕ, ◌==◌, ltb, leb, Bool, ◌&&◌, not, Option, none, List, [], u32_max, length, ◌/◌,
}

pub record Entry (L S : Type 0) : Type 0 where
  pub bridge : L
  pub last_ok : Option ℕ
  pub last_attempt : ℕ
  pub last_latency : ℕ
  pub fails : ℕ
  pub ok_count : ℕ
  pub channel_ok_count : ℕ
  pub last_channel_ok : Option ℕ
  pub verified_count : ℕ
  pub last_verified : Option ℕ
  pub last_verification_attempt : Option ℕ
  pub circuit_fails : ℕ
  pub last_circuit_observation : ℕ
  pub sources : List (S × Unit {0})

abbrev pub retired_circuit_fails : ℕ
retired_circuit_fails = u32_max

pub record BridgeStore (L K S : Type 0) : Type 0 where
  pub path : List ℕ
  pub entries : List (K × Entry L S)

pub record SourceStats (S : Type 0) : Type 0 where
  pub label : S
  pub offered : ℕ
  pub alive : ℕ
  pub channel_proven : ℕ
  pub retired : ℕ

unfoldable pub is_barren : {S : Type 0} → SourceStats S → ℕ → Bool
is_barren s min_sample = leb min_sample s.offered && s.alive == 0

pub record HealthSnapshot : Type 0 where
  pub tcp_fails : ℕ
  pub circuit_fails : ℕ
  pub verified_count : ℕ
  pub ok_count : ℕ
  pub last_circuit_observation : Option ℕ

-- `OffsetDateTime::date` of a UTC time, as the number of its day.
abbrev pub nanos_per_day : ℕ
nanos_per_day = 86_400_000_000_000

unfoldable pub date : ℕ → ℕ
date t = t / nanos_per_day

module _ {L S : Type 0} where
  unfoldable pub is_retired : Entry L S → Bool
  is_retired e = e.circuit_fails == retired_circuit_fails

  unfoldable pub is_proven_alive : Entry L S → Bool
  unfolding is_retired
  is_proven_alive e = e.fails == 0 && ltb 0 e.ok_count && not (is_retired e)

  -- The entry that every `or_insert_with` writes; `record_at` alone starts from a latency.
  unfoldable pub bare_entry : L → ℕ → ℕ → Entry L S
  bare_entry bridge now latency = record {
    bridge = bridge;
    last_ok = none;
    last_attempt = now;
    last_latency = latency;
    fails = 0;
    ok_count = 0;
    channel_ok_count = 0;
    last_channel_ok = none;
    verified_count = 0;
    last_verified = none;
    last_verification_attempt = none;
    circuit_fails = 0;
    last_circuit_observation = now;
    sources = [];
  }

  module _ {K : Type 0} where
    unfoldable pub len : BridgeStore L K S → ℕ
    len s = length s.entries

    unfoldable pub is_empty : BridgeStore L K S → Bool
    unfolding len
    is_empty s = len s == 0
