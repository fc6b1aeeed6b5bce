-- ===== src/Health/Counters.antt =====
-- apps/socks5-proxy/src/tor/conn_health.rs: counters of connections, drained by a summary.
use tor_socks.Base.{
  min, ◌/◌, ◌%◌, ℕ, ◌+◌, ◌-◌, ◌*◌, Bool, ◌&&◌, ◌||◌, Option, none, some, if◌then◌else◌, ◌==◌, leb,
}

-- The words of 64 bits, in which the atomics count.
abbrev pub u64_bound : ℕ
u64_bound = 18_446_744_073_709_551_616

-- `fetch_add(1)` and `fetch_sub(1)` wrap around.
abbrev pub fetch_add : ℕ → ℕ
fetch_add n = (n + 1) % u64_bound

abbrev pub fetch_sub : ℕ → ℕ
fetch_sub n = (n + (u64_bound - 1)) % u64_bound

pub data ConnErrorKind : Type 0 where
  client : ConnErrorKind
  tor : ConnErrorKind
  relay : ConnErrorKind
  other : ConnErrorKind

pub data ConnStage : Type 0 where
  handshake : ConnStage
  connect : ConnStage
  in_relay : ConnStage
  other_stage : ConnStage

pub record ConnHealthCounters : Type 0 where
  pub started : ℕ
  pub pending : ℕ
  pub connect_ok : ℕ
  pub connect_failed : ℕ
  pub relay_closed : ℕ
  pub relay_errors : ℕ
  pub client_errors : ℕ
  pub tor_errors : ℕ
  pub other_errors : ℕ

-- The counters of a summary window; `pending` is a gauge.
pub record ConnHealthSnapshot : Type 0 where
  pub window_started : ℕ
  pub window_ok : ℕ
  pub window_failed : ℕ
  pub window_closed : ℕ
  pub window_relay : ℕ
  pub window_client : ℕ
  pub window_tor : ℕ
  pub window_other : ℕ
  pub in_flight : ℕ

abbrev pub no_counts : ConnHealthCounters
no_counts = record {
  started = 0;
  pending = 0;
  connect_ok = 0;
  connect_failed = 0;
  relay_closed = 0;
  relay_errors = 0;
  client_errors = 0;
  tor_errors = 0;
  other_errors = 0;
}

unfoldable pub record_started : ConnHealthCounters → ConnHealthCounters
record_started c = record c { started = fetch_add c.started; pending = fetch_add c.pending }

-- `PendingConnectionGuard::drop`
unfoldable pub drop_guard : ConnHealthCounters → ConnHealthCounters
drop_guard c = record c { pending = fetch_sub c.pending }

unfoldable pub record_connect_ok : ConnHealthCounters → ConnHealthCounters
record_connect_ok c = record c { connect_ok = fetch_add c.connect_ok }

unfoldable pub record_connect_failed : ConnHealthCounters → ConnHealthCounters
record_connect_failed c = record c { connect_failed = fetch_add c.connect_failed }

unfoldable pub record_relay_closed : ConnHealthCounters → ConnHealthCounters
record_relay_closed c = record c { relay_closed = fetch_add c.relay_closed }

unfoldable pub record_error : ConnErrorKind → ConnHealthCounters → ConnHealthCounters
record_error client c = record c { client_errors = fetch_add c.client_errors }
record_error tor c = record c { tor_errors = fetch_add c.tor_errors }
record_error relay c = record c { relay_errors = fetch_add c.relay_errors }
record_error other c = record c { other_errors = fetch_add c.other_errors }

unfoldable pub record_failure : ConnStage → ConnErrorKind → ConnHealthCounters → ConnHealthCounters
unfolding record_error record_connect_failed
record_failure connect kind c = record_connect_failed (record_error kind c)
record_failure handshake kind c = record_error kind c
record_failure in_relay kind c = record_error kind c
record_failure other_stage kind c = record_error kind c

-- When nothing else runs between the reads.
unfoldable pub snapshot_and_reset : ConnHealthCounters → ConnHealthSnapshot × ConnHealthCounters
snapshot_and_reset c = (
  record {
    window_started = c.started;
    window_ok = c.connect_ok;
    window_failed = c.connect_failed;
    window_closed = c.relay_closed;
    window_relay = c.relay_errors;
    window_client = c.client_errors;
    window_tor = c.tor_errors;
    window_other = c.other_errors;
    in_flight = c.pending;
  },
  record no_counts { pending = c.pending },
)

unfoldable pub is_empty : ConnHealthSnapshot → Bool
is_empty s =
    s.window_started == 0
    && s.window_ok == 0
    && s.window_failed == 0
    && s.window_closed == 0
    && s.window_relay == 0
    && s.window_client == 0
    && s.window_tor == 0
    && s.window_other == 0

-- `checked_add`, then the percentage, rounded down.
unfoldable pub connect_success_rate_pct : ConnHealthSnapshot → Option ℕ
connect_success_rate_pct s =
    let completed = s.window_ok + s.window_failed in
    if leb u64_bound completed || completed == 0
    then none
    else some (min ((s.window_ok * 100) / completed) 100)
