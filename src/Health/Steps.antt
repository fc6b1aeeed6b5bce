-- ===== src/Health/Steps.antt =====
-- apps/socks5-proxy/src/tor/conn_health.rs: connections and a summary at the same time.
use tor_socks.Base.{◌%◌, ℕ, suc, ◌+◌, ◌<◌, ◌≡◌, ◌∙◌, Bool, true, false, arith, if◌then◌else◌}
use tor_socks.Health.Counters.{
  u64_bound, fetch_add, fetch_sub, ConnHealthCounters, no_counts, drop_guard,
}

-- The counters that a summary resets.
pub data Counter : Type 0 where
  at_started : Counter
  at_ok : Counter
  at_failed : Counter
  at_closed : Counter
  at_relay : Counter
  at_client : Counter
  at_tor : Counter
  at_other : Counter

abbrev pub count : Counter → ConnHealthCounters → ℕ
count at_started c = c.started
count at_ok c = c.connect_ok
count at_failed c = c.connect_failed
count at_closed c = c.relay_closed
count at_relay c = c.relay_errors
count at_client c = c.client_errors
count at_tor c = c.tor_errors
count at_other c = c.other_errors

abbrev pub set : Counter → ℕ → ConnHealthCounters → ConnHealthCounters
set at_started n c = record c { started = n }
set at_ok n c = record c { connect_ok = n }
set at_failed n c = record c { connect_failed = n }
set at_closed n c = record c { relay_closed = n }
set at_relay n c = record c { relay_errors = n }
set at_client n c = record c { client_errors = n }
set at_tor n c = record c { tor_errors = n }
set at_other n c = record c { other_errors = n }

-- The counters, the connections that are counted as started and not yet as pending, the guards
-- that live, and, for each counter, the events so far and those that summaries reported.
pub record World : Type 0 where
  pub counters : ConnHealthCounters
  pub entering : ℕ
  pub guards : ℕ
  pub events : Counter → ℕ
  pub reported : Counter → ℕ

abbrev pub same : Counter → Counter → Bool
same at_started at_started = true
same at_ok at_ok = true
same at_failed at_failed = true
same at_closed at_closed = true
same at_relay at_relay = true
same at_client at_client = true
same at_tor at_tor = true
same at_other at_other = true
same _ _ = false

abbrev pub more : Counter → ℕ → (Counter → ℕ) → Counter → ℕ
more k n f j = if same k j then f j + n else f j

-- One atomic operation of a connection's task or of the summary's.
pub data Step : World → World → Type 0 where
  -- The two additions of `record_started`.
  starts :
      (w : World)
      → Step w (record w {
        counters = set at_started (fetch_add (count at_started w.counters)) w.counters;
        entering = w.entering + 1;
        events = more at_started 1 w.events;
      })
  enters :
      (w : World) (n : ℕ)
      → w.entering ≡ suc n
      → Step w (record w {
        counters = record w.counters { pending = fetch_add w.counters.pending };
        entering = n;
        guards = w.guards + 1;
      })
  -- The drop of a guard that lives.
  leaves :
      (w : World) (n : ℕ)
      → w.guards ≡ suc n
      → Step w (record w { counters = drop_guard w.counters; guards = n })
  -- An addition of one of the other calls.
  counts :
      (w : World) (k : Counter)
      → same at_started k ≡ false
      → Step w (record w {
        counters = set k (fetch_add (count k w.counters)) w.counters;
        events = more k 1 w.events;
      })
  -- One exchange of `snapshot_and_reset`.
  drains :
      (w : World) (k : Counter)
      → Step w (record w {
        counters = set k 0 w.counters;
        reported = more k (count k w.counters) w.reported;
      })

pub data Steps : World → World → Type 0 where
  stay : (w : World) → Steps w w
  next : {u v w : World} → Step u v → Steps v w → Steps u w

abbrev pub fresh : World
fresh = record {
  counters = no_counts;
  entering = 0;
  guards = 0;
  events = λ k. 0;
  reported = λ k. 0;
}

-- The gauge is the number of living guards, up to multiples of 2^64. What summaries reported and
-- what is counted since are together the number of events, if these are fewer than 2^64.
pub record IsExact (w : World) : Type 0 where
  pub gauge : w.counters.pending ≡ w.guards % u64_bound
  pub whole :
      (k : Counter) → w.events k < u64_bound → w.reported k + count k w.counters ≡ w.events k

count-pending :
    (k : Counter) (n : ℕ) (c : ConnHealthCounters) → count k (record c { pending = n }) ≡ count k c
count-pending k n c = ground arith

pending-set : (k : Counter) (n : ℕ) (c : ConnHealthCounters) → (set k n c).pending ≡ c.pending
pending-set k n c = ground arith

count-set :
    (j k : Counter) (n : ℕ) (c : ConnHealthCounters)
    → count k (set j n c) ≡ (if same j k then n else count k c)
count-set j k n c = ground arith

Step-IsExact : {u v : World} → Step u v → IsExact u → IsExact v
unfolding drop_guard
Step-IsExact (starts w) h = record {
  gauge = h.gauge;
  whole = λ k f.
      ground (arith, h.whole k, count-set at_started k (fetch_add w.counters.started) w.counters);
}
Step-IsExact (enters w n e) h = record {
  gauge = omega (arith, h.gauge);
  whole =
      λ k f. ground (arith, h.whole k, count-pending k (fetch_add w.counters.pending) w.counters);
}
Step-IsExact (leaves w n e) h = record {
  gauge = omega (arith, h.gauge, e);
  whole =
      λ k f. ground (arith, h.whole k, count-pending k (fetch_sub w.counters.pending) w.counters);
}
Step-IsExact (counts w j e) h = record {
  gauge = pending-set j (fetch_add (count j w.counters)) w.counters ∙ h.gauge;
  whole =
      λ k f. ground (arith, h.whole k, count-set j k (fetch_add (count j w.counters)) w.counters);
}
Step-IsExact (drains w j) h = record {
  gauge = pending-set j 0 w.counters ∙ h.gauge;
  whole = λ k f. ground (arith, h.whole k, count-set j k 0 w.counters);
}

Steps-keep : {u v : World} → Steps u v → IsExact u → IsExact v
Steps-keep (stay w) h = h
Steps-keep (next s rest) h = Steps-keep rest (Step-IsExact s h)

fresh-IsExact : IsExact fresh
fresh-IsExact = record { gauge = omega arith; whole = λ k f. ground arith }

-- Whatever order the additions of connections, the drops of their guards and the exchanges of
-- summaries happen in, the gauge is the number of living guards up to multiples of 2^64, and, for
-- every counter with fewer than 2^64 events, what summaries reported and what is counted since are
-- together the number of events: none is lost or reported twice.
pub Steps-IsExact : {w : World} → Steps fresh w → IsExact w
Steps-IsExact h = Steps-keep h fresh-IsExact
