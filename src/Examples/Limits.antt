-- ===== src/Examples/Limits.antt =====
-- Examples for the rate limit and for the lock against guessed passwords.
use laskah.Prelude.{◌+◌, ◌≤◌, ◌≡◌, refl, true, List, [], ◌∷◌, arith, inr, length, keep, leb, nat_eq}
use laskah.Prelude.Text.{codes, text_eq, text_beq}
use laskah.Prelude.Maps.{lookup}
use laskah.Limiter.{
  RateLimiter, new_rate_limiter, allow, peek, live, hits, decide, decide_at, effective,
}
use laskah.Limiter.Calls.{Call, allows, peeks, prunes, run, last_time}
use laskah.Limiter.Window.{accepted-le-limit}
use laskah.Limiter.Peek.{allow-peek, allow-retry_after}
use laskah.Throttle.{Throttle, new_throttle, check}
use laskah.Throttle.Entries.{fail_all}
use laskah.Throttle.Lock.{check-fail_locked}

abbrev some_calls : List Call
some_calls =
    allows (codes "k") 2 1 0
    ∷ peeks (codes "k") 2 2 0
    ∷ allows (codes "k") 2 3 0
    ∷ prunes 4 0
    ∷ allows (codes "k") 2 5 0
    ∷ []

accepted-le-limit_example :
    length (keep (live (last_time 0 some_calls)) (run (codes "k") some_calls new_rate_limiter []).1)
    ≤ 2
unfolding effective
accepted-le-limit_example =
    accepted-le-limit (codes "k") 2 some_calls (omega arith)
      (inr refl, (tt, (inr refl, (tt, (inr refl, tt)))))
      (omega arith, (omega arith, (omega arith, (omega arith, (omega arith, tt)))))

-- A bucket with one hit, which is full.
abbrev full_bucket : RateLimiter
full_bucket = record { buckets = (codes "k", 5 ∷ []) ∷ [] }

allow-retry_after_example :
    (allow 7
      (codes "k")
      1
      (7 + (allow 7 (codes "k") 1 7 full_bucket).1.retry_after)
      (allow 7 (codes "k") 1 7 full_bucket).0).1.allowed
    ≡ true
unfolding allow decide decide_at effective keep live hits text_beq lookup
allow-retry_after_example =
    allow-retry_after 7 (codes "k") 1 7 full_bucket (omega arith) (omega arith) (omega arith) refl

abbrev guards : Throttle
guards = new_throttle 3 100 1000

allow-peek_example :
    ((peek 7 (codes "k") 1 7 full_bucket).1.allowed
      ≡ (allow 7 (codes "k") 1 7 full_bucket).1.allowed)
    × ((allow 7 (codes "k") 1 7 (peek 7 (codes "k") 1 7 full_bucket).0).1
        ≡ (allow 7 (codes "k") 1 7 full_bucket).1)
allow-peek_example = allow-peek 7 (codes "k") 1 7 full_bucket

check-fail_locked_example :
    (check (fail_all guards (codes "ip") (([], 5) ∷ (([], 6) ∷ ([], 7) ∷ []))) (codes "ip") 900).1
    ≡ leb (7 + guards.lockout) 900
unfolding new_throttle lookup
check-fail_locked_example =
    check-fail_locked guards (codes "ip") [] 5 (([], 6) ∷ []) tt refl (omega arith) [] 7 900
      (omega arith, tt) (omega arith) refl
