-- ===== src/Dns/Statistics/Finish.antt =====
-- packages/dns-server/src/statistics: the thread can always come to its end.
use tor_socks.Base.{
  ℕ, zero, suc, ◌<◌, ◌≡◌, refl, inl, inr, Bool, true, false, none, some, [], ◌∷◌, ◌++◌, arith,
  length, Bool-cases, length-append,
}
use tor_socks.OrdMap.Text.{Text}
use tor_socks.Dns.Statistics.Ledger.{restore_totals, Health, Store}
use tor_socks.Dns.Statistics.System.{
  Shared, Worker, System, admission_stop, close_admission, at_top, closing, waiting, receiving,
  collecting, saving, done, other_command, work, stop_entries, stop_calls, send_other,
}
use tor_socks.Dns.Statistics.Accounts.{restore_totals_lem}
use tor_socks.Dns.Statistics.Drained.{total}
use tor_socks.Dns.Statistics.Reached.{IsSound, Step-IsSound}
use tor_socks.Dns.Statistics.Ends.{
  start, start-IsSound, Reaches-IsSound, Reaches, stay, and_then, ended_hold,
}
use tor_socks.Dns.Statistics.Turns.{closed_stops, rank, Reaches-append, IsSettled, calls_settle}
use tor_socks.Dns.Statistics.Nearer.{distance, is_live, worked, run-IsNearer}

module _ (is_instant : ℕ → Bool) (is_normalized : Text → Bool) where
  at_stop :
      {first : ℕ} {y : System}
      → IsSettled is_instant is_normalized first y
      → y.shared.admission ≡ admission_stop
  at_stop {y = y} h =
      ground (
        arith,
        h.sound.kept.word,
        h.sound.kept.in_range,
        h.stopped,
        ended_hold y.producers h.settled,
      )

  finish :
      (first fuel : ℕ) (y : System)
      → IsSettled is_instant is_normalized first y
      → is_live y.worker y.shared ≡ true
      → distance y.worker (length y.shared.queue) < fuel
      → (z : System) × Reaches is_instant is_normalized y z × (z.worker ≡ done)
  finish first zero y h l f = absurd (omega (arith, f))
  finish first (suc fuel) y h l f =
      elim (run-IsNearer is_instant is_normalized y.store y.worker y.shared.queue y.shared refl
        (at_stop h) h.stopping l) [
          | inl e ↦ (y, stay y, e)
          | inr n ↦
              let h' : IsSettled is_instant is_normalized first
                  (worked is_instant is_normalized y) =
                record {
                  sound = Step-IsSound is_instant is_normalized first (work true 0 y) h.sound;
                  stopped = n.stays_stopped;
                  stopping = n.stays_stopping;
                  settled = h.settled;
                } in
              let (z, steps, e) =
                finish first fuel (worked is_instant is_normalized y) h' n.lives
                  (omega (arith, n.nearer, f)) in
              (z, and_then (work true 0 y) steps, e)
        ]

  waken :
      (first : ℕ) (y : System)
      → IsSettled is_instant is_normalized first y
      → (z : System) × Reaches is_instant is_normalized y z
        × IsSettled is_instant is_normalized first z
        × (is_live z.worker z.shared ≡ true)
  waken first y h = elim (Bool-cases (is_live y.worker y.shared)) [
    | inl l ↦ (y, stay y, h, l)
    | inr l ↦
        let still : (y.shared.is_closed ≡ false)
            × (y.shared.no_senders ≡ false)
            × (length y.shared.queue ≡ 0) =
          asleep y.worker y.shared l in
        let s' : Shared = record y.shared { queue = y.shared.queue ++ (other_command ∷ []) } in
        let step = send_other y still.0 still.1 (omega (arith, still.2)) in
        (
          record y { shared = s' },
          and_then step (stay (record y { shared = s' })),
          record {
            sound = Step-IsSound is_instant is_normalized first step h.sound;
            stopped = h.stopped;
            stopping = h.stopping;
            settled = h.settled;
          },
          awake y.worker y.shared,
        )
  ]
    where
      asleep :
          (w : Worker) (s : Shared)
          → is_live w s ≡ false
          → (s.is_closed ≡ false) × (s.no_senders ≡ false) × (length s.queue ≡ 0)
      asleep (receiving none) s l = (ground (arith, l), ground (arith, l), ground (arith, l))
      asleep (receiving (some c)) s l = ground (arith, l)
      asleep (at_top next) s l = ground (arith, l)
      asleep (closing next) s l = ground (arith, l)
      asleep (waiting next) s l = ground (arith, l)
      asleep (collecting events) s l = ground (arith, l)
      asleep (saving events next) s l = ground (arith, l)
      asleep done s l = ground (arith, l)

      awake :
          (w : Worker) (s : Shared)
          → is_live w (record s { queue = s.queue ++ (other_command ∷ []) }) ≡ true
      awake (receiving none) s = ground (arith, length-append s.queue (other_command ∷ []))
      awake (receiving (some c)) s = refl
      awake (at_top next) s = refl
      awake (closing next) s = refl
      awake (waiting next) s = refl
      awake (collecting events) s = refl
      awake (saving events next) s = refl
      awake done s = refl

  -- From every state that the threads reach after counters were restored in range, there are further
  -- steps after which the thread has ended.
  pub Reaches-done :
      (accepted0 unsaved0 : ℕ) (health : Health) (store : Store) (y : System)
      → restore_totals accepted0 health.saved health.expired unsaved0
        ≡ some (health.accepted, health.unsaved)
      → Reaches is_instant is_normalized (start health store) y
      → (z : System) × Reaches is_instant is_normalized y z × (z.worker ≡ done)
  Reaches-done accepted0 unsaved0 health store y restored reached =
      let first = health.accepted in
      let y1 : System = record y {
        shared = record y.shared { admission = close_admission y.shared.admission };
      } in
      let y2 : System = record y1 { shared = record y1.shared { is_stopping = true } } in
      let to_stop : Reaches is_instant is_normalized y y2 =
        and_then (stop_entries y) (and_then (stop_calls y1) (stay y2)) in
      let sound : IsSound is_instant is_normalized first y2 =
        Reaches-IsSound is_instant is_normalized first
          (Reaches-append is_instant is_normalized reached to_stop)
          (start-IsSound is_instant is_normalized health store (
            restore_totals_lem accepted0 health.saved health.expired unsaved0
              (health.accepted, health.unsaved) restored)) in
      let (a, to_a, a_settled) =
        calls_settle is_instant is_normalized first (suc (total rank y2.producers)) y2 sound
          (closed_stops y.shared.admission) refl (omega arith) in
      let (b, to_b, b_settled, b_live) = waken first a a_settled in
      let (z, to_z, e) =
        finish first (suc (distance b.worker (length b.shared.queue))) b b_settled b_live
          (omega arith) in
      (
        z,
        Reaches-append is_instant is_normalized to_stop (
            Reaches-append is_instant is_normalized to_a
              (Reaches-append is_instant is_normalized to_b to_z)),
        e,
      )
