-- ===== src/Dns/Statistics/Ends.antt =====
-- packages/dns-server/src/statistics: the counters when the thread has ended.
use tor_socks.Base.{
  ℕ, ◌+◌, ◌≤◌, ◌<◌, ◌≡◌, refl, ap, inl, inr, Bool, true, false, none, some, List, [], ◌∷◌, arith,
  All, Bool-cases,
}
use tor_socks.OrdMap.Text.{Text}
use tor_socks.Dns.Statistics.Ledger.{Health, Store, i64_max, pending, restore_totals}
use tor_socks.Dns.Statistics.System.{
  Producer, System, Step, is_ended, started, at_top, done, sent, refused, leaving, ended, checked,
  loaded, entered,
}
use tor_socks.Dns.Statistics.Accounts.{completed, restore_totals_lem}
use tor_socks.Dns.Statistics.Drained.{holds, is_sent, total}
use tor_socks.Dns.Statistics.Shutdown.{is_done}
use tor_socks.Dns.Statistics.Reached.{IsSound, Step-IsSound}
use tor_socks.Dns.Statistics.Outcomes.{is_accepted}

-- The thread has restored its counters, and no call has begun.
abbrev pub start : Health → Store → System
start health store = record {
  shared = record {
    admission = 0;
    is_stopping = false;
    queue = [];
    is_closed = false;
    no_senders = false;
    health = health;
  };
  producers = [];
  worker = at_top none;
  store = store;
}

sent_holds : (ps : List Producer) → total is_sent ps ≤ total holds ps
sent_holds [] = omega arith
sent_holds (started event ∷ ps) = omega (arith, sent_holds ps)
sent_holds (checked event ∷ ps) = omega (arith, sent_holds ps)
sent_holds (loaded event value ∷ ps) = omega (arith, sent_holds ps)
sent_holds (entered event ∷ ps) = omega (arith, sent_holds ps)
sent_holds (sent ∷ ps) = omega (arith, sent_holds ps)
sent_holds (refused ∷ ps) = omega (arith, sent_holds ps)
sent_holds (leaving outcome ∷ ps) = omega (arith, sent_holds ps)
sent_holds (ended outcome ∷ ps) = omega (arith, sent_holds ps)

pub ended_hold : (ps : List Producer) → All (λ p. is_ended p ≡ true) ps → total holds ps ≡ 0
ended_hold [] h = refl
ended_hold (ended outcome ∷ ps) h = omega (arith, ended_hold ps h.1)
ended_hold (started event ∷ ps) h = ground (arith, h.0)
ended_hold (checked event ∷ ps) h = ground (arith, h.0)
ended_hold (loaded event value ∷ ps) h = ground (arith, h.0)
ended_hold (entered event ∷ ps) h = ground (arith, h.0)
ended_hold (sent ∷ ps) h = ground (arith, h.0)
ended_hold (refused ∷ ps) h = ground (arith, h.0)
ended_hold (leaving outcome ∷ ps) h = ground (arith, h.0)

module _ (is_instant : ℕ → Bool) (is_normalized : Text → Bool) where
  pub data Reaches : System → System → Type 0 where
    stay : (y : System) → Reaches y y
    and_then : {x y z : System} → Step is_instant is_normalized x y → Reaches y z → Reaches x z

  pub Reaches-IsSound :
      {y z : System} (first : ℕ)
      → Reaches y z
      → IsSound is_instant is_normalized first y
      → IsSound is_instant is_normalized first z
  Reaches-IsSound first (stay y) h = h
  Reaches-IsSound first (and_then step rest) h =
      Reaches-IsSound first rest (Step-IsSound is_instant is_normalized first step h)

  pub start-IsSound :
      (health : Health) (store : Store)
      → health.accepted ≡ completed health
      → IsSound is_instant is_normalized health.accepted (start health store)
  start-IsSound health store e = record {
    kept = record {
      word = refl;
      in_range = omega arith;
      shut = λ f. ground arith;
      balance = λ f. omega (arith, e);
    };
    gone = λ f. tt;
    over = λ f. ground arith;
    agreed = λ f. omega arith;
  }

  -- Nobody is registered once the queue is closed or every sender is gone.
  none_held :
      (first : ℕ) (y : System)
      → IsSound is_instant is_normalized first y
      → is_done y.worker ≡ true
      → total holds y.producers ≡ 0
  none_held first y h e = elim (Bool-cases y.shared.is_closed) [
    | inl f ↦ omega (arith, h.kept.word, h.kept.shut f)
    | inr f ↦ ended_hold y.producers (h.gone (ground (arith, f, (h.over e).1)))
  ]

  -- Whatever order the steps of any number of calls, of the stop and of the thread happen in, from
  -- counters restored in range: when the thread has ended and the counter of accepted questions is
  -- below its limit, the queue is empty, every question accepted in this run or an earlier one is
  -- counted as saved, expired or unsaved, and none is pending.
  pub start-Reaches :
      (accepted0 unsaved0 : ℕ) (health : Health) (store : Store) (y : System)
      → restore_totals accepted0 health.saved health.expired unsaved0
        ≡ some (health.accepted, health.unsaved)
      → Reaches (start health store) y
      → y.worker ≡ done
      → y.shared.health.accepted < i64_max
      → (y.shared.queue ≡ [])
        × (health.accepted + total is_accepted y.producers ≡ completed y.shared.health)
        × (pending y.shared.health ≡ 0)
  unfolding pending
  start-Reaches accepted0 unsaved0 health store y restored reached ends small =
      let sound : IsSound is_instant is_normalized health.accepted y =
        Reaches-IsSound health.accepted reached (
          start-IsSound health store (
            restore_totals_lem accepted0 health.saved health.expired unsaved0
              (health.accepted, health.unsaved) restored)) in
      let is_over : is_done y.worker ≡ true = ap is_done ends in
      let empty = (sound.over is_over).0 in
      let held = none_held health.accepted y sound is_over in
      let unseen : total is_sent y.producers ≡ 0 = omega (arith, held, sent_holds y.producers) in
      let balance : y.shared.health.accepted ≡ completed y.shared.health =
        ground (arith, ends, empty, unseen, small, sound.kept.balance) in
      (empty, omega (arith, balance, sound.agreed small), omega (arith, balance))
