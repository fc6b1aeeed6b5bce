-- ===== src/Health/Tests.antt =====
-- A connection that fails while a summary runs, and the theorems on the counters.
use tor_socks.Base.{List, ◌≡◌, refl, some, ◌∷◌, []}
use tor_socks.Health.Counters.{ConnHealthSnapshot, connect_success_rate_pct}
use tor_socks.Health.Steps.{
  World, Steps, stay, next, fresh, starts, enters, drains, at_started, IsExact, Steps-IsExact, set,
  more,
}
use tor_socks.OrdMap.Text.{text_cmp}
use tor_socks.Health.Counters.{in_relay, relay}
use tor_socks.Health.Failure.{
  Cause, another_type, io_error, connection_reset, stage_relay, classify_conn_failure, stage_of,
  any_cause, is_relay, is_dropish, is_tor_connect, IsClassified, classify_conn_failure-IsClassified,
}

abbrev counted : World
counted = record fresh {
  counters = set at_started 1 fresh.counters;
  entering = 1;
  events = more at_started 1 fresh.events;
}

abbrev entered : World
entered = record counted {
  counters = record counted.counters { pending = 1 };
  entering = 0;
  guards = 1;
}

abbrev drained : World
drained = record entered {
  counters = set at_started 0 entered.counters;
  reported = more at_started 1 entered.reported;
}

-- The summary takes the start while the connection is pending.
drained_reached : Steps fresh drained
drained_reached =
    next (starts fresh)
      (next (enters counted 0 refl) (next (drains entered at_started) (stay drained)))

Steps-IsExact_example : IsExact drained
Steps-IsExact_example = Steps-IsExact drained_reached

abbrev window : ConnHealthSnapshot
window = record {
  window_started = 4;
  window_ok = 2;
  window_failed = 1;
  window_closed = 0;
  window_relay = 0;
  window_client = 0;
  window_tor = 1;
  window_other = 0;
  in_flight = 1;
}

two_of_three : connect_success_rate_pct window ≡ some 66
unfolding connect_success_rate_pct
two_of_three = refl

-- A reset connection below the tag of the relay.
abbrev reset_in_relay : List Cause
reset_in_relay =
    record { shown = stage_relay; of_type = another_type }
    ∷ record { shown = []; of_type = io_error connection_reset }
    ∷ []

reset_lem : classify_conn_failure reset_in_relay ≡ (in_relay, relay)
unfolding classify_conn_failure stage_of any_cause is_relay is_dropish is_tor_connect text_cmp
reset_lem = refl

classify_conn_failure-IsClassified_example :
    IsClassified reset_in_relay (classify_conn_failure reset_in_relay)
classify_conn_failure-IsClassified_example = classify_conn_failure-IsClassified reset_in_relay
