-- ===== src/Dns/Statistics/Turns.antt =====
-- packages/dns-server/src/statistics: once it is stopped, every call comes to its end.
use tor_socks.Base.{
  ℕ, zero, suc, ◌+◌, ◌<◌, ◌≡◌, refl, ap, subst, ◌∙◌, ◌⊎◌, inl, inr, Bool, true, false, List, [],
  ◌∷◌, ◌++◌, arith, if◌then◌else◌, All, Bool-cases,
}
use tor_socks.OrdMap.Text.{Text}
use tor_socks.Dns.Statistics.System.{
  Shared, Producer, System, is_stopped, close_admission, enter, try_send, record_at, is_ended,
  started, checked, loaded, entered, sent, refused, leaving, ended, turn, Step,
}
use tor_socks.Dns.Statistics.Drained.{backlog, holds, is_sent, total, IsKept}
use tor_socks.Dns.Statistics.Reached.{IsSound, Step-IsSound}
use tor_socks.Dns.Statistics.Outcomes.{total-middle}
use tor_socks.Dns.Statistics.Ends.{Reaches, stay, and_then}

pub closed_stops : (value : ℕ) → is_stopped (close_admission value) ≡ true
unfolding close_admission
closed_stops value = ground arith

-- How many steps a call may still take once the admission is closed.
abbrev pub rank : Producer → ℕ
rank (started event) = 7
rank (checked event) = 6
rank (loaded event value) = if is_stopped value then 4 else 5
rank (entered event) = 3
rank sent = 2
rank refused = 2
rank (leaving outcome) = 1
rank (ended outcome) = 0

turn-rank :
    (p : Producer) (s : Shared)
    → is_stopped s.admission ≡ true
    → is_ended p ≡ false
    → rank (record_at false p s).0 < rank p
unfolding record_at enter try_send
turn-rank (started event) s h e = ground arith
turn-rank (checked event) s h e = ground (arith, h)
turn-rank (loaded event value) s h e = ground (arith, h)
turn-rank (entered event) s h e = ground arith
turn-rank sent s h e = ground arith
turn-rank refused s h e = ground arith
turn-rank (leaving outcome) s h e = ground arith
turn-rank (ended outcome) s h e = ground arith

turn-stopped :
    (held unseen held_back : ℕ) (p : Producer) (s : Shared)
    → IsKept (held + holds p) unseen held_back s
    → is_stopped s.admission ≡ true
    → is_stopped (record_at false p s).1.admission ≡ true
unfolding record_at enter try_send
turn-stopped held unseen held_back (started event) s k h = h
turn-stopped held unseen held_back (checked event) s k h = h
turn-stopped held unseen held_back (loaded event value) s k h = ground (arith, h)
turn-stopped held unseen held_back (entered event) s k h = ground (arith, h)
turn-stopped held unseen held_back sent s k h = h
turn-stopped held unseen held_back refused s k h = h
turn-stopped held unseen held_back (leaving outcome) s k h = ground (arith, h, k.word, k.in_range)
turn-stopped held unseen held_back (ended outcome) s k h = h

turn-stopping : (p : Producer) (s : Shared) → (record_at false p s).1.is_stopping ≡ s.is_stopping
unfolding record_at enter try_send
turn-stopping (started event) s = refl
turn-stopping (checked event) s = refl
turn-stopping (loaded event value) s = ground arith
turn-stopping (entered event) s = ground arith
turn-stopping sent s = refl
turn-stopping refused s = refl
turn-stopping (leaving outcome) s = refl
turn-stopping (ended outcome) s = refl

-- All calls have ended, or one has not.
a_running :
    (ps : List Producer)
    → All (λ p. is_ended p ≡ true) ps
      ⊎ ((before : List Producer) × (p : Producer) × (after : List Producer) × (ps
            ≡ before ++ (p ∷ after))
          × (is_ended p ≡ false))
a_running [] = inl tt
a_running (p ∷ ps) = elim (Bool-cases (is_ended p)) [
  | inl e ↦ elim (a_running ps) [
    | inl h ↦ inl (e, h)
    | inr (before, q, after, f, g) ↦ inr (p ∷ before, q, after, ap (λ rest. p ∷ rest) f, g)
  ]
  | inr e ↦ inr ([], p, ps, refl, e)
]

module _ (is_instant : ℕ → Bool) (is_normalized : Text → Bool) where
  pub Reaches-append :
      {x y z : System}
      → Reaches is_instant is_normalized x y
      → Reaches is_instant is_normalized y z
      → Reaches is_instant is_normalized x z
  Reaches-append (stay x) rest = rest
  Reaches-append (and_then step more) rest = and_then step (Reaches-append more rest)

  -- The calls have ended, and the stop has been signalled.
  pub record IsSettled (first : ℕ) (y : System) : Type 0 where
    pub sound : IsSound is_instant is_normalized first y
    pub stopped : is_stopped y.shared.admission ≡ true
    pub stopping : y.shared.is_stopping ≡ true
    pub settled : All (λ p. is_ended p ≡ true) y.producers

  -- Every call comes to its end.
  pub calls_settle :
      (first fuel : ℕ) (y : System)
      → IsSound is_instant is_normalized first y
      → is_stopped y.shared.admission ≡ true
      → y.shared.is_stopping ≡ true
      → total rank y.producers < fuel
      → (z : System) × Reaches is_instant is_normalized y z × IsSettled first z
  calls_settle first zero y h a t f = absurd (omega (arith, f))
  calls_settle first (suc fuel) y h a t f = elim (a_running y.producers) [
    | inl all ↦ (y, stay y, record { sound = h; stopped = a; stopping = t; settled = all })
    | inr (before, p, after, e, g) ↦
        let s = y.shared in
        let p' = (record_at false p s).0 in
        let step : Step is_instant is_normalized y
            (record y { producers = before ++ (p' ∷ after); shared = (record_at false p s).1 }) =
          turn false before after p y e in
        let y' : System = record y {
          producers = before ++ (p' ∷ after);
          shared = (record_at false p s).1;
        } in
        let smaller : total rank (before ++ (p' ∷ after)) < fuel = omega (
          arith,
          total-middle rank before p' after,
          total-middle rank before p after,
          ap (total rank) e,
          turn-rank p s a g,
          f,
        ) in
        let kept : IsKept (total holds before + total holds after + holds p)
            (total is_sent y.producers) (backlog y.worker) s =
          subst (λ n. IsKept n (total is_sent y.producers) (backlog y.worker) s)
            (ap (total holds) e ∙ total-middle holds before p after) h.kept in
        let (z, steps, k) =
          calls_settle first fuel y' (Step-IsSound is_instant is_normalized first step h)
            (turn-stopped (total holds before + total holds after) (total is_sent y.producers)
              (backlog y.worker) p s kept a)
            (turn-stopping p s ∙ t) smaller in
        (z, and_then step steps, k)
  ]
