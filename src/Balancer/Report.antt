-- ===== src/Balancer/Report.antt =====
-- internal/balancer/balancer.go: the health of an upstream API after a call. Latencies are whole
-- milliseconds; the division of a signed difference rounds towards zero, so it is written on both
-- sides of the mean.
use laskah.Prelude.{
  ℕ, ◌+◌, ◌-◌, ◌*◌, ◌/◌, Option, none, some, List, [], ◌∷◌, ◌==◌, nat_eq, ltb, leb, if◌then◌else◌,
}
use laskah.Prelude.Text.{Text, codes}
use laskah.Store.Model.{Time, Provider}
use laskah.Balancer.{Balancer}

pub record Usage : Type 0 where
  pub prompt_tokens : ℕ
  pub completion_tokens : ℕ
  pub total_tokens : ℕ
  pub upstream_tokens : ℕ

-- `avg += (latency - avg) / n`.
unfoldable pub move_mean : ℕ → ℕ → ℕ → ℕ
move_mean avg latency n =
    if leb avg latency then avg + (latency - avg) / n else avg - (avg - latency) / n

-- `factor := failures - threshold + 1`, at most 6.
unfoldable pub cooldown_factor : Balancer → ℕ → ℕ
cooldown_factor b failures =
    let factor = failures - b.failure_threshold + 1 in if ltb 6 factor then 6 else factor

module _ {R : Type 0} where
  unfoldable pub report_success : Time → Provider R → ℕ → Usage → Provider R
  unfolding move_mean
  report_success now p latency usage =
      let stats = p.stats in
      let success = stats.success + 1 in
      record p {
        stats = record stats {
          requests = stats.requests + 1;
          success = success;
          avg_latency_ms =
              if success == 1 then latency else move_mean stats.avg_latency_ms latency success;
          prompt_tokens = stats.prompt_tokens + usage.prompt_tokens;
          completion_tokens = stats.completion_tokens + usage.completion_tokens;
          total_tokens = stats.total_tokens + usage.total_tokens;
          upstream_tokens = stats.upstream_tokens + usage.upstream_tokens;
          last_used_at = some now;
          last_error = none;
        };
        consecutive_failures = 0;
        cooldown_until = 0;
      }

  unfoldable pub report_failure : Time → Balancer → Provider R → Option Text → Provider R
  unfolding cooldown_factor
  report_failure now b p err =
      let stats = p.stats in
      let message : Text = elim err [ none ↦ codes "unknown" | some m ↦ m ] in
      let failures = p.consecutive_failures + 1 in
      record p {
        stats = record stats {
          requests = stats.requests + 1;
          failure = stats.failure + 1;
          last_used_at = some now;
          last_error = some (record { message = message; at = now });
        };
        consecutive_failures = failures;
        cooldown_until =
            if leb b.failure_threshold failures
            then now + b.cooldown * cooldown_factor b failures
            else p.cooldown_until;
      }

pub data Report : Type 0 where
  succeeded : ℕ → Usage → Report
  failed : Option Text → Report

-- The reports on one provider, each with the time it is made at.
unfoldable pub after_reports :
    {R : Type 0} → Balancer → Provider R → List (Time × Report) → Provider R
after_reports b p [] = p
after_reports b p ((now, succeeded latency usage) ∷ rs) =
    after_reports b (report_success now p latency usage) rs
after_reports b p ((now, failed err) ∷ rs) = after_reports b (report_failure now b p err) rs
