-- ===== src/Limiter/Calls.antt =====
-- Sequences of calls of `Allow`, `Peek` and `Prune`, and the accepted calls of one bucket.
use laskah.Prelude.{ℕ, ◌≤◌, ◌≡◌, false, List, [], ◌∷◌, ◌++◌, ◌⊎◌, ◌==◌, nat_eq, if◌then◌else◌}
use laskah.Prelude.Text.{Text, text_eq}
use laskah.Store.Model.{Time}
use laskah.Limiter.{RateLimiter, allow, peek, prune, effective}

-- A call, with the clock and the time that the caller gives.
pub data Call : Type 0 where
  allows : Text → ℕ → Time → Time → Call
  peeks : Text → ℕ → Time → Time → Call
  prunes : Time → Time → Call

abbrev pub at : Call → Time
at (allows id limit clock now) = effective clock now
at (peeks id limit clock now) = effective clock now
at (prunes clock now) = effective clock now

-- The calls of one bucket agree on its limit.
abbrev pub Limits : Text → ℕ → Call → Type 0
Limits id limit (allows i l clock now) = ((i == id) ≡ false) ⊎ (l ≡ limit)
Limits id limit (peeks i l clock now) = Unit
Limits id limit (prunes clock now) = Unit

unfoldable pub step : Call → RateLimiter → RateLimiter
step (allows id limit clock now) r = (allow clock id limit now r).0
step (peeks id limit clock now) r = (peek clock id limit now r).0
step (prunes clock now) r = prune clock now r

-- The time at which `Allow` lets a call of the bucket pass.
unfoldable pub accepted : Text → Call → RateLimiter → List Time
accepted id (allows i limit clock now) r =
    if i == id
    then if (allow clock i limit now r).1.allowed then effective clock now ∷ [] else []
    else []
accepted id (peeks i limit clock now) r = []
accepted id (prunes clock now) r = []

-- The limiter after some calls, and the accepted times of a bucket so far.
unfoldable pub run : Text → List Call → RateLimiter → List Time → RateLimiter × List Time
run id [] r log = (r, log)
run id (c ∷ cs) r log = run id cs (step c r) (log ++ accepted id c r)

-- Time does not run backwards.
abbrev pub Ordered : Time → List Call → Type 0
Ordered t [] = Unit
Ordered t (c ∷ cs) = (t ≤ at c) × Ordered (at c) cs

abbrev pub last_time : Time → List Call → Time
last_time t [] = t
last_time t (c ∷ cs) = last_time (at c) cs

abbrev pub Agree : Text → ℕ → List Call → Type 0
Agree id limit [] = Unit
Agree id limit (c ∷ cs) = Limits id limit c × Agree id limit cs
