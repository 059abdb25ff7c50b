-- ===== src/Balancer/Health.antt =====
-- The health of an upstream API over any sequence of reports.
use Prim.Native.Nat.{min}
use laskah.Prelude.{
  ℕ, suc, ◌+◌, ◌-◌, ◌*◌, ◌/◌, ◌≤◌, ◌<◌, ◌≡◌, refl, Option, List, [], ◌∷◌, ◌++◌, arith, length, All,
  nat_eq,
}
use laskah.Prelude.Text.{Text}
use laskah.Store.Model.{Time, Provider}
use laskah.Balancer.{Balancer}
use laskah.Balancer.Report.{
  Usage, Report, succeeded, failed, move_mean, cooldown_factor, report_success, report_failure,
  after_reports,
}

module _ {R : Type 0} where
  -- Every call is counted once, as a success or as a failure.
  abbrev pub IsCounted : Provider R → Type 0
  IsCounted p = p.stats.requests ≡ p.stats.success + p.stats.failure

  -- If the requests of a provider are its successes and failures together, they are so after
  -- any reports.
  pub after_reports-IsCounted :
      (b : Balancer) (p : Provider R) (rs : List (Time × Report))
      → IsCounted p
      → IsCounted (after_reports b p rs)
  unfolding after_reports report_success report_failure
  after_reports-IsCounted b p [] h = h
  after_reports-IsCounted b p ((now, succeeded l u) ∷ rs) h =
      after_reports-IsCounted b (report_success now p l u) rs (omega arith)
  after_reports-IsCounted b p ((now, failed e) ∷ rs) h =
      after_reports-IsCounted b (report_failure now b p e) rs (omega arith)

div_bound : (a n : ℕ) → a / suc n ≤ a
div_bound a n = omega arith

move_mean_bounds :
    (lo hi avg latency n : ℕ)
    → lo ≤ avg
    → avg ≤ hi
    → lo ≤ latency
    → latency ≤ hi
    → (lo ≤ move_mean avg latency (suc n)) × (move_mean avg latency (suc n) ≤ hi)
unfolding move_mean
move_mean_bounds lo hi avg latency n a b c d =
    ground (arith, div_bound (latency - avg) n, div_bound (avg - latency) n)

abbrev pub LatencyIn : ℕ → ℕ → Time × Report → Type 0
LatencyIn lo hi (now, succeeded latency usage) = (lo ≤ latency) × (latency ≤ hi)
LatencyIn lo hi (now, failed err) = Unit

module _ {R : Type 0} where
  -- The mean latency lies between two bounds, once there is one.
  pub data MeanIn (lo hi : ℕ) (p : Provider R) : Type 0 where
    unused : p.stats.success ≡ 0 → MeanIn lo hi p
    used : lo ≤ p.stats.avg_latency_ms → p.stats.avg_latency_ms ≤ hi → MeanIn lo hi p

  success-MeanIn :
      (lo hi : ℕ) (now : Time) (p : Provider R) (latency : ℕ) (u : Usage)
      → lo ≤ latency
      → latency ≤ hi
      → MeanIn lo hi p
      → MeanIn lo hi (report_success now p latency u)
  unfolding report_success
  success-MeanIn lo hi now p latency u a b (unused z) = used (ground arith) (ground arith)
  success-MeanIn lo hi now p latency u a b (used c d) =
      let r = move_mean_bounds lo hi p.stats.avg_latency_ms latency p.stats.success c d a b in
      used (ground (arith, r)) (ground (arith, r))

  failure-MeanIn :
      (lo hi : ℕ) (now : Time) (b : Balancer) (p : Provider R) (e : Option Text)
      → MeanIn lo hi p
      → MeanIn lo hi (report_failure now b p e)
  unfolding report_failure
  failure-MeanIn lo hi now b p e (unused z) = unused z
  failure-MeanIn lo hi now b p e (used c d) = used c d

  -- If the latencies of all reports lie between two bounds and the mean does, or there is no
  -- success yet, then the mean still does after the reports, or there is still no success.
  pub after_reports-MeanIn :
      (lo hi : ℕ) (b : Balancer) (p : Provider R) (rs : List (Time × Report))
      → All (LatencyIn lo hi) rs
      → MeanIn lo hi p
      → MeanIn lo hi (after_reports b p rs)
  unfolding after_reports
  after_reports-MeanIn lo hi b p [] a m = m
  after_reports-MeanIn lo hi b p ((now, succeeded l u) ∷ rs) a m =
      after_reports-MeanIn lo hi b (report_success now p l u) rs a.1
        (success-MeanIn lo hi now p l u (a.0).0 (a.0).1 m)
  after_reports-MeanIn lo hi b p ((now, failed e) ∷ rs) a m =
      after_reports-MeanIn lo hi b (report_failure now b p e) rs a.1
        (failure-MeanIn lo hi now b p e m)

abbrev pub failures : List (Time × Option Text) → List (Time × Report)
failures [] = []
failures ((now, e) ∷ es) = (now, failed e) ∷ failures es

module _ {R : Type 0} where
  after_failures :
      (b : Balancer) (p : Provider R) (es : List (Time × Option Text))
      → (after_reports b p (failures es)).consecutive_failures ≡ p.consecutive_failures + length es
  unfolding after_reports report_failure
  after_failures b p [] = omega arith
  after_failures b p ((now, e) ∷ es) = omega (arith, after_failures b (report_failure now b p e) es)

  -- Failures that leave a provider below the threshold of failures in a row do not change until
  -- when it pauses.
  pub cooldown-failures_below :
      (b : Balancer) (p : Provider R) (es : List (Time × Option Text))
      → p.consecutive_failures + length es < b.failure_threshold
      → (after_reports b p (failures es)).cooldown_until ≡ p.cooldown_until
  unfolding after_reports report_failure
  cooldown-failures_below b p [] h = refl
  cooldown-failures_below b p ((now, e) ∷ es) h =
      ground (arith, cooldown-failures_below b (report_failure now b p e) es)

  after_reports-append :
      (b : Balancer) (p : Provider R) (es : List (Time × Option Text)) (now : Time)
      (e : Option Text)
      → after_reports b p (failures (es ++ (now, e) ∷ []))
        ≡ report_failure now b (after_reports b p (failures es)) e
  unfolding after_reports
  after_reports-append b p [] now e = refl
  after_reports-append b p ((t, d) ∷ es) now e =
      after_reports-append b (report_failure t b p d) es now e

  -- If a provider without failures in a row fails at least as often as the threshold, without a
  -- success between, it pauses from the last failure for one cooldown more than the failures
  -- that go beyond the threshold, and at most for six.
  pub cooldown-failures_at :
      (b : Balancer) (p : Provider R) (es : List (Time × Option Text)) (now : Time)
      (e : Option Text)
      → p.consecutive_failures ≡ 0
      → b.failure_threshold ≤ length es + 1
      → (after_reports b p (failures (es ++ (now, e) ∷ []))).cooldown_until
        ≡ now + b.cooldown * min 6 (length es + 2 - b.failure_threshold)
  unfolding cooldown_factor report_failure
  cooldown-failures_at b p es now e z h =
      rw (after_reports-append b p es now e, factor) (ground (arith, after_failures b p es))
    where
      factor : min 6 (length es + 2 - b.failure_threshold) ≡ cooldown_factor b (length es + 1)
      factor = ground arith
