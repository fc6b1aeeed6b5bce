-- ===== src/Dns/Statistics/Drained.antt =====
-- packages/dns-server/src/statistics: what every interleaving keeps, and what the end of the thread
-- leaves.
use tor_socks.Base.{
  ℕ, ◌+◌, ◌<◌, ◌≡◌, refl, Bool, true, Option, none, some, List, [], ◌∷◌, ◌++◌, arith, length, ◌%◌,
}
use tor_socks.Dns.Statistics.Ledger.{i64_max}
use tor_socks.Dns.Statistics.System.{
  Shared, Producer, Worker, Command, admission_stop, enter, try_send, record_at, is_ended, started,
  checked, loaded, entered, sent, refused, leaving, ended, at_top, closing, waiting, receiving,
  collecting, saving, done, record_event, other_command,
}
use tor_socks.Dns.Statistics.Accounts.{completed}

-- Whether a call has registered, and whether its question is sent and not yet counted.
abbrev pub holds : Producer → ℕ
holds (entered event) = 1
holds sent = 1
holds refused = 1
holds (leaving outcome) = 1
holds _ = 0

abbrev pub is_sent : Producer → ℕ
is_sent sent = 1
is_sent _ = 0

abbrev pub total : (Producer → ℕ) → List Producer → ℕ
total f [] = 0
total f (p ∷ ps) = f p + total f ps

-- The questions in the queue, and those that the thread holds.
abbrev pub one : Command → ℕ
one (record_event event) = 1
one other_command = 0

abbrev pub queued : List Command → ℕ
queued [] = 0
queued (c ∷ cs) = one c + queued cs

abbrev pub next_one : Option Command → ℕ
next_one none = 0
next_one (some c) = one c

abbrev pub backlog : Worker → ℕ
backlog (at_top next) = next_one next
backlog (closing next) = next_one next
backlog (waiting next) = next_one next
backlog (receiving next) = next_one next
backlog (collecting events) = length events
backlog (saving events next) = length events + next_one next
backlog done = 0

pub total-append :
    (f : Producer → ℕ) (xs ys : List Producer) → total f (xs ++ ys) ≡ total f xs + total f ys
total-append f [] ys = omega arith
total-append f (p ∷ xs) ys = omega (arith, total-append f xs ys)

pub queued-append : (xs ys : List Command) → queued (xs ++ ys) ≡ queued xs + queued ys
queued-append [] ys = omega arith
queued-append (c ∷ xs) ys = omega (arith, queued-append xs ys)

-- With `held` registered calls, `unseen` questions sent and not yet counted and `held_back` ones
-- in the thread: the word is their number and maybe the high bit, a closed queue has no registered
-- call, and accepted questions are counted as done or waiting.
pub record IsKept (held unseen held_back : ℕ) (s : Shared) : Type 0 where
  pub word : s.admission % admission_stop ≡ held
  pub in_range : s.admission < admission_stop + admission_stop
  pub shut : s.is_closed ≡ true → s.admission ≡ admission_stop
  pub balance :
      s.health.accepted + unseen < i64_max
      → s.health.accepted + unseen ≡ completed s.health + queued s.queue + held_back

-- What a call leaves as it is.
pub record IsMild (p : Producer) (s s' : Shared) : Type 0 where
  pub same_closed : s'.is_closed ≡ s.is_closed
  pub same_senders : s'.no_senders ≡ s.no_senders
  pub no_send : s.is_closed ≡ true → s'.queue ≡ s.queue
  pub after_end : is_ended p ≡ true → s' ≡ s

module _ (fails : Bool) (held unseen held_back : ℕ) where
  pub record_at-IsKept :
      (p : Producer) (s : Shared)
      → IsKept (held + holds p) (unseen + is_sent p) held_back s
      → IsKept
          (held + holds (record_at fails p s).0)
          (unseen + is_sent (record_at fails p s).0)
          held_back
          (record_at fails p s).1
  unfolding record_at enter try_send
  record_at-IsKept (started event) s k = record {
    word = ground (arith, k.word);
    in_range = k.in_range;
    shut = k.shut;
    balance = λ f. ground (arith, k.balance, f);
  }
  record_at-IsKept (checked event) s k = k
  record_at-IsKept (loaded event value) s k = record {
    word = ground (arith, k.word, k.in_range);
    in_range = ground (arith, k.in_range);
    shut = λ e. ground (arith, k.shut, e);
    balance = λ f. ground (arith, k.balance, f);
  }
  record_at-IsKept (entered event) s k = record {
    word = ground (arith, k.word);
    in_range = ground (arith, k.in_range);
    shut = λ e. ground (arith, k.shut, e);
    balance = λ f. ground (arith, k.balance, f, queued-append s.queue (record_event event ∷ []));
  }
  record_at-IsKept sent s k = record {
    word = k.word;
    in_range = k.in_range;
    shut = k.shut;
    balance = λ f. ground (arith, k.balance, f);
  }
  record_at-IsKept refused s k = record {
    word = k.word;
    in_range = k.in_range;
    shut = k.shut;
    balance = λ f. ground (arith, k.balance, f);
  }
  record_at-IsKept (leaving outcome) s k = record {
    word = omega (arith, k.word, k.in_range);
    in_range = omega (arith, k.word, k.in_range);
    shut = λ e. omega (arith, k.word, k.shut e);
    balance = λ f. ground (arith, k.balance, f);
  }
  record_at-IsKept (ended outcome) s k = k

  pub record_at-IsMild : (p : Producer) (s : Shared) → IsMild p s (record_at fails p s).1
  unfolding record_at enter try_send
  record_at-IsMild (started event) s = record {
    same_closed = refl;
    same_senders = refl;
    no_send = λ e. refl;
    after_end = λ e. ground arith;
  }
  record_at-IsMild (checked event) s = record {
    same_closed = refl;
    same_senders = refl;
    no_send = λ e. refl;
    after_end = λ e. ground arith;
  }
  record_at-IsMild (loaded event value) s = record {
    same_closed = ground arith;
    same_senders = ground arith;
    no_send = λ e. ground arith;
    after_end = λ e. ground arith;
  }
  record_at-IsMild (entered event) s = record {
    same_closed = ground arith;
    same_senders = ground arith;
    no_send = λ e. ground (arith, e);
    after_end = λ e. ground arith;
  }
  record_at-IsMild sent s = record {
    same_closed = refl;
    same_senders = refl;
    no_send = λ e. refl;
    after_end = λ e. ground arith;
  }
  record_at-IsMild refused s = record {
    same_closed = refl;
    same_senders = refl;
    no_send = λ e. refl;
    after_end = λ e. ground arith;
  }
  record_at-IsMild (leaving outcome) s = record {
    same_closed = refl;
    same_senders = refl;
    no_send = λ e. refl;
    after_end = λ e. ground arith;
  }
  record_at-IsMild (ended outcome) s = record {
    same_closed = refl;
    same_senders = refl;
    no_send = λ e. refl;
    after_end = λ e. refl;
  }
