-- ===== src/Limiter.antt =====
-- internal/balancer/limiter.go: the sliding window of one minute, for keys and for accounts.
-- A limit of 0 stands for every limit that is not positive; `clock` is `time.Now()`. A hit is inside
-- the window if it is after `now - minute`; the test adds the minute instead.
pub mod Calls
pub mod Remembers
pub mod Window
pub mod Peek
use laskah.Prelude.{
  ℕ, ◌+◌, ◌-◌, Bool, true, false, Option, none, some, List, [], ◌∷◌, ◌++◌, ◌==◌, nat_eq, ltb, leb,
  if◌then◌else◌, keep, length,
}
use laskah.Prelude.Text.{Text, codes, text_eq}
use laskah.Prelude.Maps.{lookup, insert}
use laskah.Prelude.Int.{ℤ, pos, negsuc}
use laskah.Store.Model.{Time, minute}

pub record RateLimiter : Type 0 where
  pub buckets : List (Text × List Time)

unfoldable pub new_rate_limiter : RateLimiter
new_rate_limiter = record { buckets = [] }

pub record Decision : Type 0 where
  pub allowed : Bool
  pub remaining : ℤ
  pub retry_after : ℕ

unfoldable pub live : Time → Time → Bool
live now hit = ltb now (hit + minute)

unfoldable pub hits : Text → RateLimiter → List Time
hits id r = elim (lookup id r.buckets) [ none ↦ [] | some h ↦ h ]

unfoldable pub put_hits : Text → List Time → RateLimiter → RateLimiter
put_hits id kept r = record { buckets = insert id kept r.buckets }

-- `kept[0].Add(time.Minute).Sub(now)`, not below 0; there is a first hit where it is called.
unfoldable pub retry_after : Time → List Time → ℕ
retry_after now [] = 0
retry_after now (first ∷ rest) = first + minute - now

-- The body of `decide` behind its early return, at the time `now`.
unfoldable pub decide_at : Text → ℕ → Time → Bool → RateLimiter → RateLimiter × Decision
unfolding put_hits retry_after
decide_at id limit now record_hit r =
    let kept = keep (live now) (hits id r) in
    if leb limit (length kept)
    then (
      put_hits id kept r,
      record { allowed = false; remaining = pos 0; retry_after = retry_after now kept },
    )
    else if record_hit
    then (
      put_hits id (kept ++ now ∷ []) r,
      record { allowed = true; remaining = pos (limit - (length kept + 1)); retry_after = 0 },
    )
    else (
      put_hits id kept r,
      record { allowed = true; remaining = pos (limit - length kept); retry_after = 0 },
    )

-- A caller that gives no time gets the clock's.
unfoldable pub effective : Time → Time → Time
effective clock now = if now == 0 then clock else now

unfoldable pub decide : Time → Text → ℕ → Time → Bool → RateLimiter → RateLimiter × Decision
decide clock id limit now record_hit r =
    if limit == 0
    then (r, record { allowed = true; remaining = negsuc 0; retry_after = 0 })
    else decide_at id limit (effective clock now) record_hit r

unfoldable pub allow : Time → Text → ℕ → Time → RateLimiter → RateLimiter × Decision
allow clock id limit now = decide clock id limit now true

unfoldable pub peek : Time → Text → ℕ → Time → RateLimiter → RateLimiter × Decision
peek clock id limit now = decide clock id limit now false

unfoldable pub account_bucket : Text → Text
account_bucket account_id = codes "account:" ++ account_id

-- The loop of `Prune`: an empty bucket is deleted.
unfoldable pub prune_buckets : Time → List (Text × List Time) → List (Text × List Time)
prune_buckets now [] = []
prune_buckets now ((id, h) ∷ m) =
    let kept = keep (live now) h in
    if length kept == 0 then prune_buckets now m else (id, kept) ∷ prune_buckets now m

unfoldable pub prune : Time → Time → RateLimiter → RateLimiter
prune clock now r = record { buckets = prune_buckets (effective clock now) r.buckets }
