-- ===== src/Health/Rate.antt =====
-- apps/socks5-proxy/src/tor/conn_health.rs: the percentage of connections that were made.
use tor_socks.Base.{
  min, ◌/◌, ℕ, ◌+◌, ◌*◌, ◌≤◌, ◌<◌, ◌≡◌, subst, ◌≢◌, ◌⊎◌, inl, inr, Option, none, some, arith,
  Bool-cases, ◌==◌, leb,
}
use native.Mathlib.Nat.{div-mul-le_self, lt-div-mul-add, div-lt_iff_lt-mul}
use tor_socks.Health.Counters.{u64_bound, ConnHealthSnapshot, connect_success_rate_pct}

-- No percentage, without a completion or beyond the word; else the percentage rounded down.
pub data IsRate (ok failed : ℕ) : Option ℕ → Type 0 where
  no_rate : (ok + failed ≡ 0) ⊎ (u64_bound ≤ ok + failed) → IsRate ok failed none
  rounded :
      (p : ℕ)
      → ok + failed ≢ 0
      → p ≤ 100
      → p * (ok + failed) ≤ 100 * ok
      → 100 * ok < p * (ok + failed) + (ok + failed)
      → IsRate ok failed (some p)

-- The percentage of a window is that of its completed connections that succeeded, rounded down and
-- at most 100; there is none exactly when nothing completed or the sum leaves the 64 bits.
pub connect_success_rate_pct-IsRate :
    (s : ConnHealthSnapshot) → IsRate s.window_ok s.window_failed (connect_success_rate_pct s)
unfolding connect_success_rate_pct
connect_success_rate_pct-IsRate s =
    let n = s.window_ok + s.window_failed in
    elim (Bool-cases (leb u64_bound n)) [
      | inl e ↦
          subst (λ (o : Option ℕ). IsRate s.window_ok s.window_failed o) (ground (arith, e))
            (no_rate (inr (ground (arith, e))))
      | inr e ↦ elim (Bool-cases (n == 0)) [
        | inl z ↦
            subst (λ (o : Option ℕ). IsRate s.window_ok s.window_failed o) (ground (arith, e, z))
              (no_rate (inl (ground (arith, z))))
        | inr some_done ↦
            let p = (s.window_ok * 100) / n in
            let positive : 0 < n = ground (arith, some_done) in
            let below : p < 101 = (div-lt_iff_lt-mul positive).1 (omega arith) in
            let cap : min p 100 ≡ p = omega arith in
            let lower : p * n ≤ 100 * s.window_ok =
              subst (λ (m : ℕ). p * n ≤ m) (omega arith) (div-mul-le_self (s.window_ok * 100) n) in
            let upper : 100 * s.window_ok < p * n + n =
              subst (λ (m : ℕ). m < p * n + n) (omega arith)
                (lt-div-mul-add {a = s.window_ok * 100} positive) in
            subst (λ (o : Option ℕ). IsRate s.window_ok s.window_failed o)
              (ground (arith, e, some_done, cap))
              (rounded p (ground (arith, some_done)) (omega arith) lower upper)
      ]
    ]
