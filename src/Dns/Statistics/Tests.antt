-- ===== src/Dns/Statistics/Tests.antt =====
-- One call from its beginning to the end of the thread.
use tor_socks.Base.{
  ℕ, zero, suc, ◌+◌, ◌≡◌, refl, Bool, true, false, [], ◌∷◌, arith, length, ltb, leb,
}
use tor_socks.OrdMap.Text.{Text}
use tor_socks.Dns.Statistics.Ledger.{
  Event, Health, Store, pos, batch, save_batch, new_highwater, classify, is_valid, pending,
  restore_totals,
}
use tor_socks.Dns.Statistics.System.{
  Producer, System, enter, try_send, close_admission, record_at, run, receive, collect, handle,
  call, turn, work, stop_entries, stop_calls, started, checked, loaded, entered, sent, leaving,
  accepted, done,
}
use tor_socks.Dns.Statistics.Accounts.{completed}
use tor_socks.Dns.Statistics.Drained.{total}
use tor_socks.Dns.Statistics.Outcomes.{is_accepted}
use tor_socks.Dns.Statistics.Finish.{Reaches-done}
use tor_socks.Dns.Statistics.Ends.{start, Reaches, stay, and_then, start-Reaches}

abbrev is_instant : ℕ → Bool
is_instant n = leb n 1000

abbrev is_normalized : Text → Bool
is_normalized name = ltb 0 (length name)

abbrev a_question : Event
a_question = record { domain = 97 ∷ []; rr_type = 1; class = 1; second = pos 7 }

-- Six questions of earlier runs, of which one was lost.
abbrev restored : Health
restored = record { accepted = 6; saved = 3; expired = 2; dropped = 0; unsaved = 1 }

abbrev store : Store
store = record { highwater = 5; is_faulted = false }

abbrev turned : Producer → System → System
turned p y = record y {
  producers = (record_at false p y.shared).0 ∷ [];
  shared = (record_at false p y.shared).1;
}

abbrev worked : System → System
worked y = record y {
  worker = (run is_instant is_normalized true 8 y.worker y.store y.shared).0;
  store = (run is_instant is_normalized true 8 y.worker y.store y.shared).1;
  shared = (run is_instant is_normalized true 8 y.worker y.store y.shared).2;
}

abbrev works : ℕ → System → System
works zero y = y
works (suc n) y = works n (worked y)

works-Reaches : (n : ℕ) (y : System) → Reaches is_instant is_normalized y (works n y)
works-Reaches zero y = stay y
works-Reaches (suc n) y = and_then (work true 8 y) (works-Reaches n (worked y))

abbrev called : System
called = record (start restored store) { producers = started a_question ∷ [] }

abbrev answered : System
answered = turned (leaving accepted) (
    turned sent (
      turned (entered a_question) (
        turned (loaded a_question 0)
          (turned (checked a_question) (turned (started a_question) called)))))

abbrev stopped : System
stopped = record answered {
  shared = record answered.shared {
    admission = close_admission answered.shared.admission;
    is_stopping = true;
  };
}

called-Reaches : Reaches is_instant is_normalized called stopped
unfolding record_at enter try_send
called-Reaches =
    let y1 = turned (started a_question) called in
    let y2 = turned (checked a_question) y1 in
    let y3 = turned (loaded a_question 0) y2 in
    let y4 = turned (entered a_question) y3 in
    let y5 = turned sent y4 in
    and_then (turn false [] [] (started a_question) called refl) (
      and_then (turn false [] [] (checked a_question) y1 refl) (
        and_then (turn false [] [] (loaded a_question 0) y2 refl) (
          and_then (turn false [] [] (entered a_question) y3 refl) (
            and_then (turn false [] [] sent y4 refl) (
              and_then (turn false [] [] (leaving accepted) y5 refl) (
                and_then (stop_entries answered) (
                  and_then
                    (stop_calls (record answered {
                      shared = record answered.shared {
                        admission = close_admission answered.shared.admission;
                      };
                    }))
                    (stay stopped))))))))

joined :
    {x y z : System}
    → Reaches is_instant is_normalized x y
    → Reaches is_instant is_normalized y z
    → Reaches is_instant is_normalized x z
joined (stay x) rest = rest
joined (and_then step more) rest = and_then step (joined more rest)

finished : Reaches is_instant is_normalized (start restored store) (works 11 stopped)
finished =
    and_then (call a_question (start restored store) refl)
      (joined called-Reaches (works-Reaches 11 stopped))

is_finished : (works 11 stopped).worker ≡ done
unfolding run receive collect handle record_at enter try_send close_admission
is_finished = refl

start-Reaches_example :
    ((works 11 stopped).shared.queue ≡ [])
    × (6 + total is_accepted (works 11 stopped).producers
        ≡ completed (works 11 stopped).shared.health)
    × (pending (works 11 stopped).shared.health ≡ 0)
unfolding run receive collect handle record_at enter try_send close_admission batch save_batch
    new_highwater classify is_valid restore_totals
start-Reaches_example =
    start-Reaches is_instant is_normalized 4 1 restored store (works 11 stopped) refl finished
      is_finished (ground arith)

Reaches-done_example : (z : System) × Reaches is_instant is_normalized called z × (z.worker ≡ done)
unfolding restore_totals
Reaches-done_example =
    Reaches-done is_instant is_normalized 4 1 restored store called refl
      (and_then (call a_question (start restored store) refl) (stay called))
