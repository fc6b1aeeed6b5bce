-- ===== src/Dns/Statistics/System.antt =====
-- packages/dns-server/src/statistics: the callers of `record_at`, the thread that stops the
-- statistics and the thread that keeps them, as atomic steps on what they share.
use tor_socks.Base.{
  ℕ, ◌+◌, ◌<◌, ◌≡◌, Bool, true, false, not, ◌&&◌, ◌||◌, Option, none, some, List, [], ◌∷◌, ◌++◌,
  length, if◌then◌else◌, All, ◌==◌, leb,
}
use tor_socks.OrdMap.Text.{Text}
use tor_socks.Health.Counters.{fetch_sub}
use tor_socks.Dns.Statistics.Ledger.{Event, Health, Store, add, batch, batch_capacity}

abbrev pub ingress_capacity : ℕ
ingress_capacity = 4096

-- The high bit of a `u64`.
abbrev pub admission_stop : ℕ
admission_stop = 9_223_372_036_854_775_808

abbrev pub is_stopped : ℕ → Bool
is_stopped value = leb admission_stop value

-- `fetch_or(ADMISSION_STOP)`
unfoldable pub close_admission : ℕ → ℕ
close_admission value = if is_stopped value then value else value + admission_stop

pub data RecordOutcome : Type 0 where
  accepted : RecordOutcome
  dropped_full : RecordOutcome
  closed : RecordOutcome

-- What is sent to the thread; the reads and refreshes of the database change no counter.
pub data Command : Type 0 where
  record_event : Event → Command
  other_command : Command

-- The queue, whether its receiver is closed, and whether every sender is gone.
pub record Shared : Type 0 where
  pub admission : ℕ
  pub is_stopping : Bool
  pub queue : List Command
  pub is_closed : Bool
  pub no_senders : Bool
  pub health : Health

-- Where a call of `record_at` stands.
pub data Producer : Type 0 where
  started : Event → Producer
  checked : Event → Producer
  loaded : Event → ℕ → Producer
  entered : Event → Producer
  sent : Producer
  refused : Producer
  leaving : RecordOutcome → Producer
  ended : RecordOutcome → Producer

-- The exchange of `enter`: it fails when the word has changed, and `fails` lets it fail at will.
unfoldable pub enter : Bool → ℕ → Event → Shared → Producer × Shared
enter fails value event s =
    if is_stopped value || is_stopped (value + 1)
    then (ended closed, s)
    else if not fails && value == s.admission
    then (entered event, record s { admission = value + 1 })
    else (loaded event s.admission, s)

unfoldable pub try_send : Event → Shared → Producer × Shared
try_send event s =
    if s.is_closed
    then (leaving closed, s)
    else if leb ingress_capacity (length s.queue)
    then (refused, s)
    else (sent, record s { queue = s.queue ++ (record_event event ∷ []) })

-- The next step of a call.
unfoldable pub record_at : Bool → Producer → Shared → Producer × Shared
unfolding enter try_send
record_at fails (started event) s = (if s.is_stopping then ended closed else checked event, s)
record_at fails (checked event) s = (loaded event s.admission, s)
record_at fails (loaded event value) s = enter fails value event s
record_at fails (entered event) s = try_send event s
record_at fails sent s =
    (leaving accepted, record s { health = record s.health { accepted = add s.health.accepted 1 } })
record_at fails refused s = (
  leaving dropped_full,
  record s { health = record s.health { dropped = add s.health.dropped 1 } },
)
record_at fails (leaving outcome) s =
    (ended outcome, record s { admission = fetch_sub s.admission })
record_at fails (ended outcome) s = (ended outcome, s)

-- Where the loop of the thread stands: `next` is a command it took out and has not yet handled.
pub data Worker : Type 0 where
  at_top : Option Command → Worker
  closing : Option Command → Worker
  waiting : Option Command → Worker
  receiving : Option Command → Worker
  collecting : List Event → Worker
  saving : List Event → Option Command → Worker
  done : Worker

unfoldable pub handle : Command → Worker
handle (record_event event) = collecting (event ∷ [])
handle other_command = at_top none

unfoldable pub receive : Option Command → Shared → Worker × Shared
unfolding handle
receive (some command) s = (handle command, s)
receive none s = elim s.queue [
  | [] ↦ (if s.is_closed || s.no_senders then done else receiving none, s)
  | command ∷ queue ↦ (handle command, record s { queue = queue })
]

unfoldable pub collect : List Event → Shared → Worker × Shared
collect events s =
    if leb batch_capacity (length events) then (saving events none, s) else elim s.queue [
      | [] ↦ (saving events none, s)
      | record_event event ∷ queue ↦
          (collecting (events ++ (event ∷ [])), record s { queue = queue })
      | other_command ∷ queue ↦ (saving events (some other_command), record s { queue = queue })
    ]

abbrev pub is_ended : Producer → Bool
is_ended (ended outcome) = true
is_ended _ = false

pub record System : Type 0 where
  pub shared : Shared
  pub producers : List Producer
  pub worker : Worker
  pub store : Store

module _ (is_instant : ℕ → Bool) (is_normalized : Text → Bool) where
  -- The next step of the thread.
  unfoldable pub run : Bool → ℕ → Worker → Store → Shared → Worker × Store × Shared
  unfolding receive collect
  run is_committed now (at_top next) store s =
      (if s.is_stopping then closing next else receiving next, store, s)
  run is_committed now (closing next) store s =
      (waiting next, store, record s { admission = close_admission s.admission })
  run is_committed now (waiting next) store s =
      if s.admission == admission_stop
      then (receiving next, store, record s { is_closed = true })
      else (waiting next, store, s)
  run is_committed now (receiving next) store s = let (w, s') = receive next s in (w, store, s')
  run is_committed now (collecting events) store s =
      let (w, s') = collect events s in (w, store, s')
  run is_committed now (saving events next) store s =
      let (store', health) =
        batch is_instant is_normalized is_committed events now store s.health in
      (at_top next, store', record s { health = health })
  run is_committed now done store s = (done, store, s)

  -- Calls begin while there is a sender; the stop's three operations may come at any time, and so
  -- may those of an abandoned start.
  pub data Step : System → System → Type 0 where
    call :
        (event : Event) (y : System)
        → y.shared.no_senders ≡ false
        → Step y (record y { producers = started event ∷ y.producers })
    turn :
        (fails : Bool) (before after : List Producer) (p : Producer) (y : System)
        → y.producers ≡ before ++ (p ∷ after)
        → Step y (record y {
          producers = before ++ ((record_at fails p y.shared).0 ∷ after);
          shared = (record_at fails p y.shared).1;
        })
    work :
        (is_committed : Bool) (now : ℕ) (y : System)
        → Step y (record y {
          worker = (run is_committed now y.worker y.store y.shared).0;
          store = (run is_committed now y.worker y.store y.shared).1;
          shared = (run is_committed now y.worker y.store y.shared).2;
        })
    stop_entries :
        (y : System)
        → Step y (record y {
          shared = record y.shared { admission = close_admission y.shared.admission };
        })
    stop_calls :
        (y : System) → Step y (record y { shared = record y.shared { is_stopping = true } })
    send_other :
        (y : System)
        → y.shared.is_closed ≡ false
        → y.shared.no_senders ≡ false
        → length y.shared.queue < ingress_capacity
        → Step y (record y {
          shared = record y.shared { queue = y.shared.queue ++ (other_command ∷ []) };
        })
    senders_end :
        (y : System)
        → All (λ p. is_ended p ≡ true) y.producers
        → Step y (record y { shared = record y.shared { no_senders = true } })
