-- ===== src/Dns/Statistics/Nearer.antt =====
-- packages/dns-server/src/statistics: once it is stopped, every step of the thread brings its end
-- nearer.
use tor_socks.Base.{
  ℕ, ◌+◌, ◌*◌, ◌<◌, ◌≡◌, refl, ◌⊎◌, inl, inr, Bool, true, ◌||◌, Option, none, some, List, [], ◌∷◌,
  arith, length, ltb,
}
use tor_socks.OrdMap.Text.{Text}
use tor_socks.Dns.Statistics.Ledger.{Store}
use tor_socks.Dns.Statistics.System.{
  Shared, Worker, Command, System, admission_stop, is_stopped, close_admission, run, receive,
  collect, handle, at_top, closing, waiting, receiving, collecting, saving, done, record_event,
  other_command,
}

-- How far the thread is from its end, and whether it has something to receive.
abbrev units : Option Command → ℕ
units none = 0
units (some c) = 1

abbrev pub distance : Worker → ℕ → ℕ
distance (at_top next) n = 8 * (units next + n) + 4
distance (closing next) n = 8 * (units next + n) + 3
distance (waiting next) n = 8 * (units next + n) + 2
distance (receiving next) n = 8 * (units next + n) + 1
distance (collecting events) n = 8 * n + 7
distance (saving events next) n = 8 * (units next + n) + 6
distance done n = 0

abbrev pub is_live : Worker → Shared → Bool
is_live (receiving none) s = s.is_closed || (s.no_senders || ltb 0 (length s.queue))
is_live _ _ = true

module _ (is_instant : ℕ → Bool) (is_normalized : Text → Bool) where
  abbrev pub worked : System → System
  worked y = record y {
    worker = (run is_instant is_normalized true 0 y.worker y.store y.shared).0;
    store = (run is_instant is_normalized true 0 y.worker y.store y.shared).1;
    shared = (run is_instant is_normalized true 0 y.worker y.store y.shared).2;
  }

  -- What a step of the thread achieves.
  pub record IsNearer (w w' : Worker) (s s' : Shared) : Type 0 where
    pub nearer : distance w' (length s'.queue) < distance w (length s.queue)
    pub lives : is_live w' s' ≡ true
    pub stays_stopped : is_stopped s'.admission ≡ true
    pub stays_stopping : s'.is_stopping ≡ true

  module _ (store : Store) where
    pub run-IsNearer :
        (w : Worker) (queue : List Command) (s : Shared)
        → s.queue ≡ queue
        → s.admission ≡ admission_stop
        → s.is_stopping ≡ true
        → is_live w s ≡ true
        → (w ≡ done)
          ⊎ IsNearer w
              (run is_instant is_normalized true 0 w store s).0
              s
              (run is_instant is_normalized true 0 w store s).2
    unfolding run receive collect handle close_admission
    run-IsNearer (at_top next) queue s e a t l = inr (record {
      nearer = ground (arith, t);
      lives = ground (arith, t);
      stays_stopped = ground (arith, a);
      stays_stopping = t;
    })
    run-IsNearer (closing next) queue s e a t l = inr (record {
      nearer = ground arith;
      lives = refl;
      stays_stopped = ground (arith, a);
      stays_stopping = t;
    })
    run-IsNearer (waiting next) queue s e a t l = inr (record {
      nearer = ground (arith, a);
      lives =
          elim next
            as (λ m.
              is_live (run is_instant is_normalized true 0 (waiting m) store s).0
                (run is_instant is_normalized true 0 (waiting m) store s).2
              ≡ true) [ none ↦ ground (arith, a) | some c ↦ ground (arith, a) ];
      stays_stopped = ground (arith, a);
      stays_stopping = ground (arith, t);
    })
    run-IsNearer (receiving (some (record_event event))) queue s e a t l = inr (record {
      nearer = omega arith;
      lives = refl;
      stays_stopped = ground (arith, a);
      stays_stopping = t;
    })
    run-IsNearer (receiving (some other_command)) queue s e a t l = inr (record {
      nearer = omega arith;
      lives = refl;
      stays_stopped = ground (arith, a);
      stays_stopping = t;
    })
    run-IsNearer (receiving none) [] s e a t l = inr (record {
      nearer = ground (arith, e, l);
      lives = ground (arith, e, l);
      stays_stopped = ground (arith, e, a);
      stays_stopping = ground (arith, e, t);
    })
    run-IsNearer (receiving none) (record_event event ∷ queue) s e a t l = inr (record {
      nearer = ground (arith, e);
      lives = ground (arith, e);
      stays_stopped = ground (arith, e, a);
      stays_stopping = ground (arith, e, t);
    })
    run-IsNearer (receiving none) (other_command ∷ queue) s e a t l = inr (record {
      nearer = ground (arith, e);
      lives = ground (arith, e);
      stays_stopped = ground (arith, e, a);
      stays_stopping = ground (arith, e, t);
    })
    run-IsNearer (collecting events) [] s e a t l = inr (record {
      nearer = ground (arith, e);
      lives = ground (arith, e);
      stays_stopped = ground (arith, e, a);
      stays_stopping = ground (arith, e, t);
    })
    run-IsNearer (collecting events) (record_event event ∷ queue) s e a t l = inr (record {
      nearer = ground (arith, e);
      lives = ground (arith, e);
      stays_stopped = ground (arith, e, a);
      stays_stopping = ground (arith, e, t);
    })
    run-IsNearer (collecting events) (other_command ∷ queue) s e a t l = inr (record {
      nearer = ground (arith, e);
      lives = ground (arith, e);
      stays_stopped = ground (arith, e, a);
      stays_stopping = ground (arith, e, t);
    })
    run-IsNearer (saving events next) queue s e a t l = inr (record {
      nearer = omega arith;
      lives = refl;
      stays_stopped = ground (arith, a);
      stays_stopping = t;
    })
    run-IsNearer done queue s e a t l = inl refl
