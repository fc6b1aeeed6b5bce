-- ===== src/Store/Summary.antt =====
-- packages/bridge-store/src/stats.rs: the rows by source and by transport.
use tor_socks.Base.{
  ℕ, ◌+◌, ◌&&◌, Option, none, some, List, [], ◌∷◌, ltb, ◌==◌, Ordering, if◌then◌else◌, map_or,
}
use tor_socks.OrdMap.{KeyOrd, upsert, values, keys}
use tor_socks.Best.{option_cmp}
use tor_socks.Store.Entry.{Entry, BridgeStore, SourceStats, is_retired}

pub record TransportStats (T : Type 0) : Type 0 where
  pub transport : T
  pub known : ℕ
  pub alive : ℕ
  pub channel_proven : ℕ
  pub retired : ℕ
  pub last_probe_ok : Option ℕ
  pub last_channel_ok : Option ℕ

-- `Option::max`, the later argument on a tie.
abbrev pub option_max : Option ℕ → Option ℕ → Option ℕ
option_max a b = elim (option_cmp a b) [ Ordering.gt ↦ a | _ ↦ b ]

unfoldable pub fresh_source : {S : Type 0} → S → SourceStats S
fresh_source label = record {
  label = label;
  offered = 0;
  alive = 0;
  channel_proven = 0;
  retired = 0;
}

unfoldable pub fresh_transport : {T : Type 0} → T → TransportStats T
fresh_transport name = record {
  transport = name;
  known = 0;
  alive = 0;
  channel_proven = 0;
  retired = 0;
  last_probe_ok = none;
  last_channel_ok = none;
}

module _ {L S : Type 0} where
  -- The body of the inner loop for one entry and one of its labels.
  unfoldable pub count_source : Entry L S → SourceStats S → SourceStats S
  unfolding is_retired
  count_source e row =
      let counted = record row { offered = row.offered + 1 } in
      if is_retired e then record counted { retired = counted.retired + 1 } else record counted {
        alive = if e.fails == 0 && ltb 0 e.ok_count then counted.alive + 1 else counted.alive;
        channel_proven =
            if ltb 0 e.channel_ok_count then counted.channel_proven + 1 else counted.channel_proven;
      }

  unfoldable pub count_transport : {T : Type 0} → Entry L S → TransportStats T → TransportStats T
  unfolding is_retired
  count_transport e row =
      let counted = record row { known = row.known + 1 } in
      if is_retired e then record counted { retired = counted.retired + 1 } else record counted {
        alive = if e.fails == 0 && ltb 0 e.ok_count then counted.alive + 1 else counted.alive;
        channel_proven =
            if ltb 0 e.channel_ok_count then counted.channel_proven + 1 else counted.channel_proven;
        last_probe_ok =
            map_or counted.last_probe_ok (λ ok. option_max counted.last_probe_ok (some ok))
              e.last_ok;
        last_channel_ok = option_max counted.last_channel_ok e.last_channel_ok;
      }

module _ {L S : Type 0} ⦃t : KeyOrd S⦄ where
  unfoldable pub count_labels :
      Entry L S → List S → List (S × SourceStats S) → List (S × SourceStats S)
  count_labels e [] rows = rows
  count_labels e (label ∷ labels) rows =
      count_labels e labels (upsert label (fresh_source label) (count_source e) rows)

  unfoldable pub count_sources :
      List (Entry L S) → List (S × SourceStats S) → List (S × SourceStats S)
  count_sources [] rows = rows
  count_sources (e ∷ es) rows = count_sources es (count_labels e (keys e.sources) rows)

  unfoldable pub source_summary : {K : Type 0} → BridgeStore L K S → List (SourceStats S)
  source_summary s = values (count_sources (values s.entries) [])

-- `plain` names a bridge with no transport; `transport` reads the line's.
module _ {L S T : Type 0} ⦃t : KeyOrd T⦄ (transport : L → Option T) (plain : T) where
  unfoldable pub count_transports :
      List (Entry L S) → List (T × TransportStats T) → List (T × TransportStats T)
  count_transports [] rows = rows
  count_transports (e ∷ es) rows =
      let name = map_or plain (λ n. n) (transport e.bridge) in
      count_transports es (upsert name (fresh_transport name) (count_transport e) rows)

  unfoldable pub transport_summary : {K : Type 0} → BridgeStore L K S → List (TransportStats T)
  transport_summary s = values (count_transports (values s.entries) [])
