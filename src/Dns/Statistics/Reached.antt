-- ===== src/Dns/Statistics/Reached.antt =====
-- packages/dns-server/src/statistics: every state that the interleaved threads reach.
use tor_socks.Base.{
  ℕ, ◌+◌, ◌<◌, ◌≡◌, sym, ap, subst, ◌∙◌, inl, inr, Bool, true, List, [], ◌∷◌, ◌++◌, arith, All,
  Bool-cases,
}
use tor_socks.OrdMap.Text.{Text}
use tor_socks.Dns.Statistics.Ledger.{i64_max}
use tor_socks.Dns.Statistics.System.{
  Shared, Producer, Worker, System, Step, close_admission, record_at, is_ended, other_command, call,
  turn, work, stop_entries, stop_calls, send_other, senders_end,
}
use tor_socks.Dns.Statistics.Drained.{
  holds, is_sent, total, backlog, queued-append, IsKept, IsMild, record_at-IsKept, record_at-IsMild,
}
use tor_socks.Dns.Statistics.Shutdown.{IsOver, run-IsKept, run-IsOver}
use tor_socks.Dns.Statistics.Outcomes.{
  All-middle, total-middle, is_accepted, IsKept-subst, record_at-accepted, ended-stays,
  run-accepted, run-no_senders,
}

module _ (is_instant : ℕ → Bool) (is_normalized : Text → Bool) where
  -- `first` questions were accepted in earlier runs.
  pub record IsSound (first : ℕ) (y : System) : Type 0 where
    pub kept :
        IsKept (total holds y.producers) (total is_sent y.producers) (backlog y.worker) y.shared
    pub gone : y.shared.no_senders ≡ true → All (λ p. is_ended p ≡ true) y.producers
    pub over : IsOver y.worker y.shared
    pub agreed :
        y.shared.health.accepted < i64_max
        → y.shared.health.accepted ≡ first + total is_accepted y.producers

  IsOver-turn :
      (w : Worker) (p : Producer) (s s' : Shared)
      → IsMild p s s'
      → (s.no_senders ≡ true → is_ended p ≡ true)
      → IsOver w s
      → IsOver w s'
  IsOver-turn w p s s' mild gone over e =
      let (empty, shut) = over e in
      elim (Bool-cases s.is_closed) [
        | inl f ↦ (mild.no_send f ∙ empty, ground (arith, mild.same_closed, f))
        | inr f ↦
            let g : s.no_senders ≡ true = ground (arith, f, shut) in
            (
              ap (λ t. t.queue) (mild.after_end (gone g)) ∙ empty,
              ground (arith, mild.same_senders, g),
            )
      ]

  turn-IsSound :
      (fails : Bool) (first : ℕ) (before after : List Producer) (p : Producer) (y : System)
      → y.producers ≡ before ++ (p ∷ after)
      → IsSound first y
      → IsSound first (record y {
        producers = before ++ ((record_at fails p y.shared).0 ∷ after);
        shared = (record_at fails p y.shared).1;
      })
  turn-IsSound fails first before after p y e h =
      let s = y.shared in
      let p' = (record_at fails p s).0 in
      let mild = record_at-IsMild fails 0 0 0 p s in
      let held = total holds before + total holds after in
      let unseen = total is_sent before + total is_sent after in
      let kept : IsKept (held + holds p) (unseen + is_sent p) (backlog y.worker) s =
        IsKept-subst (ap (total holds) e ∙ total-middle holds before p after)
          (ap (total is_sent) e ∙ total-middle is_sent before p after) h.kept in
      let ends : (t : s.no_senders ≡ true)
          → (is_ended p ≡ true)
            × ((q : Producer)
                → is_ended q ≡ true
                → All (λ r. is_ended r ≡ true) (before ++ (q ∷ after))) =
        λ t.
          All-middle (λ r. is_ended r ≡ true) before p after
            (subst (λ ps. All (λ r. is_ended r ≡ true) ps) e (h.gone t)) in
      record {
        kept =
            IsKept-subst (sym (total-middle holds before p' after))
              (sym (total-middle is_sent before p' after))
              (record_at-IsKept fails held unseen (backlog y.worker) p s kept);
        gone = λ t.
            let at_end = ends (sym mild.same_senders ∙ t) in
            at_end.1 p' (ended-stays fails p s at_end.0);
        over = IsOver-turn y.worker p s (record_at fails p s).1 mild (λ t. (ends t).0) h.over;
        agreed = λ f.
            let others = total is_accepted before + total is_accepted after in
            record_at-accepted fails first others p s
              (λ g.
                h.agreed g
                ∙ ap (λ n. first + n)
                    (ap (total is_accepted) e ∙ total-middle is_accepted before p after))
              f
            ∙ ap (λ n. first + n) (sym (total-middle is_accepted before p' after));
      }

  pub Step-IsSound :
      {y z : System} (first : ℕ)
      → Step is_instant is_normalized y z
      → IsSound first y
      → IsSound first z
  unfolding close_admission
  Step-IsSound first (call event y e) h = record {
    kept = IsKept-subst (omega arith) (omega arith) h.kept;
    gone = λ f. ground (arith, e, f);
    over = h.over;
    agreed = λ f. omega (arith, h.agreed f);
  }
  Step-IsSound first (turn fails before after p y e) h =
      turn-IsSound fails first before after p y e h
  Step-IsSound first (work is_committed now y) h = record {
    kept =
        run-IsKept is_instant is_normalized is_committed now (total holds y.producers)
          (total is_sent y.producers) y.store y.worker y.shared h.kept;
    gone = λ f. h.gone (
        sym (run-no_senders is_instant is_normalized is_committed now y.worker y.store y.shared)
        ∙ f);
    over =
        run-IsOver is_instant is_normalized is_committed now (total holds y.producers)
          (total is_sent y.producers) y.store y.worker y.shared h.over;
    agreed = λ f. ground (
      arith,
      h.agreed,
      f,
      run-accepted is_instant is_normalized is_committed now y.worker y.store y.shared,
    );
  }
  Step-IsSound first (stop_entries y) h = record {
    kept = record {
      word = ground (arith, h.kept.word, h.kept.in_range);
      in_range = ground (arith, h.kept.in_range);
      shut = λ e. ground (arith, h.kept.shut e);
      balance = h.kept.balance;
    };
    gone = h.gone;
    over = h.over;
    agreed = h.agreed;
  }
  Step-IsSound first (stop_calls y) h = record {
    kept = record {
      word = h.kept.word;
      in_range = h.kept.in_range;
      shut = h.kept.shut;
      balance = h.kept.balance;
    };
    gone = h.gone;
    over = h.over;
    agreed = h.agreed;
  }
  Step-IsSound first (send_other y e f g) h = record {
    kept = record {
      word = h.kept.word;
      in_range = h.kept.in_range;
      shut = h.kept.shut;
      balance =
          λ b. ground (arith, h.kept.balance, b, queued-append y.shared.queue (other_command ∷ []));
    };
    gone = h.gone;
    over = λ d. ground (arith, (h.over d).1, e, f);
    agreed = h.agreed;
  }
  Step-IsSound first (senders_end y e) h = record {
    kept = record {
      word = h.kept.word;
      in_range = h.kept.in_range;
      shut = h.kept.shut;
      balance = h.kept.balance;
    };
    gone = λ f. e;
    over = λ d. ((h.over d).0, ground arith);
    agreed = h.agreed;
  }
