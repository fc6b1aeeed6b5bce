-- ===== src/Dns/Statistics/Outcomes.antt =====
-- packages/dns-server/src/statistics: the answers of calls, and what the thread leaves as it is.
use tor_socks.Base.{
  ℕ, ◌+◌, ◌<◌, ◌≡◌, refl, subst, Bool, true, none, some, List, [], ◌∷◌, ◌++◌, arith, All,
}
use tor_socks.OrdMap.Text.{Text}
use tor_socks.Dns.Statistics.Ledger.{Store, i64_max}
use tor_socks.Dns.Statistics.System.{
  Shared, Producer, Worker, enter, try_send, record_at, run, receive, collect, is_ended, started,
  at_top, done, sent, refused, leaving, ended, dropped_full, closed, checked, loaded, entered,
  accepted, closing, waiting, receiving, collecting, saving,
}
use tor_socks.Dns.Statistics.Accounts.{batch-IsCounted}
use tor_socks.Dns.Statistics.Drained.{total, total-append, IsKept}

pub All-middle :
    {A : Type 0} (P : A → Type 0) (xs : List A) (x : A) (ys : List A)
    → All P (xs ++ (x ∷ ys))
    → P x × ((y : A) → P y → All P (xs ++ (y ∷ ys)))
All-middle P [] x ys h = (h.0, λ y k. (k, h.1))
All-middle P (z ∷ xs) x ys h =
    let rec = All-middle P xs x ys h.1 in (rec.0, λ y k. (h.0, rec.1 y k))

pub total-middle :
    (f : Producer → ℕ) (xs : List Producer) (p : Producer) (ys : List Producer)
    → total f (xs ++ (p ∷ ys)) ≡ (total f xs + total f ys) + f p
total-middle f xs p ys = omega (arith, total-append f xs (p ∷ ys))

-- A call whose answer is that its question was accepted.
abbrev pub is_accepted : Producer → ℕ
is_accepted (leaving accepted) = 1
is_accepted (ended accepted) = 1
is_accepted _ = 0

pub IsKept-subst :
    {h h' u u' b : ℕ} {s : Shared} → h ≡ h' → u ≡ u' → IsKept h u b s → IsKept h' u' b s
IsKept-subst {h = h} {u' = u'} {b = b} {s = s} e f k =
    subst (λ n. IsKept n u' b s) e (subst (λ n. IsKept h n b s) f k)

pub record_at-accepted :
    (fails : Bool) (first others : ℕ) (p : Producer) (s : Shared)
    → (s.health.accepted < i64_max → s.health.accepted ≡ first + (others + is_accepted p))
    → (record_at fails p s).1.health.accepted < i64_max
    → (record_at fails p s).1.health.accepted
      ≡ first + (others + is_accepted (record_at fails p s).0)
unfolding record_at enter try_send
record_at-accepted fails first others (started event) s h f = ground (arith, h, f)
record_at-accepted fails first others (checked event) s h f = ground (arith, h, f)
record_at-accepted fails first others (loaded event value) s h f = ground (arith, h, f)
record_at-accepted fails first others (entered event) s h f = ground (arith, h, f)
record_at-accepted fails first others sent s h f = ground (arith, h, f)
record_at-accepted fails first others refused s h f = ground (arith, h, f)
record_at-accepted fails first others (leaving accepted) s h f = h f
record_at-accepted fails first others (leaving dropped_full) s h f = h f
record_at-accepted fails first others (leaving closed) s h f = h f
record_at-accepted fails first others (ended outcome) s h f = h f

pub ended-stays :
    (fails : Bool) (p : Producer) (s : Shared)
    → is_ended p ≡ true
    → is_ended (record_at fails p s).0 ≡ true
unfolding record_at
ended-stays fails (started event) s e = ground arith
ended-stays fails (checked event) s e = ground arith
ended-stays fails (loaded event value) s e = ground arith
ended-stays fails (entered event) s e = ground arith
ended-stays fails sent s e = ground arith
ended-stays fails refused s e = ground arith
ended-stays fails (leaving outcome) s e = refl
ended-stays fails (ended outcome) s e = refl

module _ (is_instant : ℕ → Bool) (is_normalized : Text → Bool) where
  pub run-accepted :
      (is_committed : Bool) (now : ℕ) (w : Worker) (store : Store) (s : Shared)
      → (run is_instant is_normalized is_committed now w store s).2.health.accepted
        ≡ s.health.accepted
  unfolding run receive collect
  run-accepted is_committed now (at_top next) store s = refl
  run-accepted is_committed now (closing next) store s = refl
  run-accepted is_committed now (waiting next) store s = ground arith
  run-accepted is_committed now (receiving (some c)) store s = refl
  run-accepted is_committed now (receiving none) store s = ground arith
  run-accepted is_committed now (collecting events) store s = ground arith
  run-accepted is_committed now (saving events next) store s =
      (batch-IsCounted is_instant is_normalized is_committed events now store s.health).accepted
  run-accepted is_committed now done store s = refl

  pub run-no_senders :
      (is_committed : Bool) (now : ℕ) (w : Worker) (store : Store) (s : Shared)
      → (run is_instant is_normalized is_committed now w store s).2.no_senders ≡ s.no_senders
  unfolding run receive collect
  run-no_senders is_committed now (at_top next) store s = refl
  run-no_senders is_committed now (closing next) store s = refl
  run-no_senders is_committed now (waiting next) store s = ground arith
  run-no_senders is_committed now (receiving (some c)) store s = refl
  run-no_senders is_committed now (receiving none) store s = ground arith
  run-no_senders is_committed now (collecting events) store s = ground arith
  run-no_senders is_committed now (saving events next) store s = refl
  run-no_senders is_committed now done store s = refl
