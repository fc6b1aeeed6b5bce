-- ===== src/Dns/Statistics/Shutdown.antt =====
-- packages/dns-server/src/statistics: what the end of the thread leaves.
use tor_socks.Base.{
  ℕ, ◌+◌, ◌≡◌, refl, subst, inl, inr, Bool, true, false, ◌||◌, none, some, List, [], ◌∷◌, ◌++◌,
  arith, length, Bool-cases, leb, length-append,
}
use tor_socks.OrdMap.Text.{Text}
use tor_socks.Dns.Statistics.Ledger.{batch_capacity, Event, Store}
use tor_socks.Dns.Statistics.System.{
  Shared, Worker, Command, close_admission, handle, receive, collect, run, at_top, closing, waiting,
  receiving, collecting, saving, done, record_event, other_command,
}
use tor_socks.Dns.Statistics.Accounts.{batch-IsCounted}
use tor_socks.Dns.Statistics.Drained.{queued, backlog, IsKept}

abbrev pub is_done : Worker → Bool
is_done done = true
is_done _ = false

-- The thread ended on an empty queue that nobody can send to.
abbrev pub IsOver : Worker → Shared → Type 0
IsOver w s = is_done w ≡ true → (s.queue ≡ []) × ((s.is_closed || s.no_senders) ≡ true)

module _ (held unseen : ℕ) where
  -- Commands move from the queue to the thread.
  IsKept-queue :
      (b b' : ℕ) (queue : List Command) (s : Shared)
      → queued queue + b' ≡ queued s.queue + b
      → IsKept held unseen b s
      → IsKept held unseen b' (record s { queue = queue })
  IsKept-queue b b' queue s e k = record {
    word = k.word;
    in_range = k.in_range;
    shut = k.shut;
    balance = λ f. omega (arith, k.balance f, e);
  }

  receive-IsKept :
      (queue : List Command) (s : Shared)
      → s.queue ≡ queue
      → IsKept held unseen 0 s
      → IsKept held unseen (backlog (receive none s).0) (receive none s).1
  unfolding receive handle
  receive-IsKept [] s e k = record {
    word = ground (arith, k.word, e);
    in_range = ground (arith, k.in_range, e);
    shut = λ f. ground (arith, k.shut, e, f);
    balance = λ f. ground (arith, k.balance, e, f);
  }
  receive-IsKept (record_event event ∷ queue) s e k =
      rw (e) (IsKept-queue 0 1 queue s (ground (arith, e)) k)
  receive-IsKept (other_command ∷ queue) s e k =
      rw (e) (IsKept-queue 0 0 queue s (ground (arith, e)) k)

  collect-IsKept :
      (events : List Event) (queue : List Command) (s : Shared)
      → s.queue ≡ queue
      → IsKept held unseen (length events) s
      → IsKept held unseen (backlog (collect events s).0) (collect events s).1
  unfolding collect
  collect-IsKept events queue s e k = elim (Bool-cases (leb batch_capacity (length events))) [
    | inl f ↦ rw (f) (subst (λ n. IsKept held unseen n s) (omega arith) k)
    | inr f ↦
        elim queue
            as (λ q.
              s.queue ≡ q
              → IsKept held unseen (backlog (collect events s).0) (collect events s).1) [
                | [] ↦ λ e. rw (f, e) (subst (λ n. IsKept held unseen n s) (omega arith) k)
                | record_event event ∷ queue ↦ λ e.
                    rw (f, e)
                      (IsKept-queue (length events) (length (events ++ (event ∷ []))) queue s
                        (ground (arith, e, length-append events (event ∷ []))) k)
                | other_command ∷ queue ↦ λ e.
                    rw (f, e)
                      (IsKept-queue (length events) (length events + 0) queue s (ground (arith, e))
                        k)
              ]
          e
  ]

module _ (is_instant : ℕ → Bool) (is_normalized : Text → Bool) where
  module _ (is_committed : Bool) (now held unseen : ℕ) (store : Store) where
    pub run-IsKept :
        (w : Worker) (s : Shared)
        → IsKept held unseen (backlog w) s
        → IsKept held unseen
            (backlog (run is_instant is_normalized is_committed now w store s).0)
            (run is_instant is_normalized is_committed now w store s).2
    unfolding run receive handle close_admission
    run-IsKept (at_top next) s k = record {
      word = k.word;
      in_range = k.in_range;
      shut = k.shut;
      balance = λ f. ground (arith, k.balance f);
    }
    run-IsKept (closing next) s k = record {
      word = ground (arith, k.word, k.in_range);
      in_range = ground (arith, k.in_range);
      shut = λ e. ground (arith, k.shut e);
      balance = k.balance;
    }
    run-IsKept (waiting next) s k = record {
      word = ground (arith, k.word);
      in_range = ground (arith, k.in_range);
      shut = λ e. ground (arith, k.shut, e);
      balance = λ f. ground (arith, k.balance, f);
    }
    run-IsKept (receiving (some (record_event event))) s k = k
    run-IsKept (receiving (some other_command)) s k = k
    run-IsKept (receiving none) s k = receive-IsKept held unseen s.queue s refl k
    run-IsKept (collecting events) s k = collect-IsKept held unseen events s.queue s refl k
    run-IsKept (saving events next) s k =
        let counted =
          batch-IsCounted is_instant is_normalized is_committed events now store s.health in
        record {
          word = k.word;
          in_range = k.in_range;
          shut = k.shut;
          balance = λ f. ground (arith, k.balance, f, counted.accepted, counted.balance);
        }
    run-IsKept done s k = k

    pub run-IsOver :
        (w : Worker) (s : Shared)
        → IsOver w s
        → IsOver
            (run is_instant is_normalized is_committed now w store s).0
            (run is_instant is_normalized is_committed now w store s).2
    unfolding run receive collect handle
    run-IsOver (at_top next) s k = λ e. ground (arith, e)
    run-IsOver (closing next) s k = λ e. ground (arith, e)
    run-IsOver (waiting next) s k = λ e. ground (arith, e)
    run-IsOver (receiving next) s k = λ e. ground (arith, e)
    run-IsOver (collecting events) s k = λ e. ground (arith, e)
    run-IsOver (saving events next) s k = λ e. ground (arith, e)
    run-IsOver done s k = k
