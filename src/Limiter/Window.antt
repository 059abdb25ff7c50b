-- ===== src/Limiter/Window.antt =====
-- Any interleaving of `Allow`, `Peek` and `Prune`: never more than the limit in one minute.
use mathlib.Core.List.{append-nil}
use laskah.Prelude.{
  ℕ, ◌≤◌, ◌<◌, ◌≡◌, refl, ◌∙◌, false, List, [], ◌∷◌, ◌++◌, arith, inl, inr, ◌⊎◌, Bool-cases, ◌==◌,
  nat_eq, leb, if◌then◌else◌, keep, length, beq_cases,
}
use laskah.Prelude.Text.{Text, text_eq}
use laskah.Prelude.Maps.{lookup}
use laskah.Store.Model.{Time}
use laskah.Limiter.Calls.{
  Call, allows, peeks, prunes, at, Limits, step, accepted, run, Ordered, last_time, Agree,
}
use laskah.Limiter.Remembers.{
  Holds, later_Holds, refresh_Holds, record_Holds, elsewhere_Holds, hits-prune, prune-Distinct,
  keep-live_later,
}
use laskah.Limiter.{
  RateLimiter, live, hits, decide_at, decide, allow, peek, prune, effective, new_rate_limiter,
}

-- `Allow` on another bucket.
allow_other :
    (i id : Text) (l limit : ℕ) (clock now : Time) (r : RateLimiter) (log : List Time)
    → (i == id) ≡ false
    → Holds id limit (effective clock now) r log
    → Holds id limit (effective clock now) (allow clock i l now r).0 log
unfolding allow decide decide_at
allow_other i id l limit clock now r log e v = elim (Bool-cases (l == 0)) [
  | inl z ↦ rw z v
  | inr z ↦ rw z (elim (Bool-cases (leb l (length (keep (live t) (hits i r))))) [
    | inl f ↦ rw f (elsewhere_Holds i id limit t (keep (live t) (hits i r)) r log e v)
    | inr f ↦ rw f (elsewhere_Holds i id limit t (keep (live t) (hits i r) ++ t ∷ []) r log e v)
  ])
]
  where
    t : Time
    t = effective clock now

-- `Allow` on the bucket itself.
allow_self :
    (id : Text) (limit : ℕ) (clock now : Time) (r : RateLimiter) (log : List Time)
    → (limit == 0) ≡ false
    → Holds id limit (effective clock now) r log
    → Holds id limit
        (effective clock now)
        (allow clock id limit now r).0
        (log ++ (if (allow clock id limit now r).1.allowed then effective clock now ∷ [] else []))
unfolding allow decide decide_at
allow_self id limit clock now r log z v =
    rw z (elim (Bool-cases (leb limit (length (keep (live t) (hits id r))))) [
      | inl f ↦ rw (f, append-nil log) (refresh_Holds id id limit t r log v)
      | inr f ↦ rw f (record_Holds id limit t r log f v)
    ])
  where
    t : Time
    t = effective clock now

allow-Holds :
    (i id : Text) (l limit : ℕ) (clock now : Time) (r : RateLimiter) (log : List Time)
    → (limit == 0) ≡ false
    → ((i == id) ≡ false) ⊎ (l ≡ limit)
    → Holds id limit (effective clock now) r log
    → Holds id limit
        (effective clock now)
        (allow clock i l now r).0
        (log ++ accepted id (allows i l clock now) r)
unfolding accepted
allow-Holds i id l limit clock now r log z (inl e) v =
    rw (e, append-nil log) (allow_other i id l limit clock now r log e v)
allow-Holds i id l limit clock now r log z (inr q) v = elim (beq_cases i id) [
  | inl (e, p) ↦ rw (e, p, q) (allow_self id limit clock now r log z v)
  | inr (e, n) ↦ rw (e, append-nil log) (allow_other i id l limit clock now r log e v)
]

peek-Holds :
    (i id : Text) (l limit : ℕ) (clock now : Time) (r : RateLimiter) (log : List Time)
    → Holds id limit (effective clock now) r log
    → Holds id limit (effective clock now) (peek clock i l now r).0 log
unfolding peek decide decide_at
peek-Holds i id l limit clock now r log v = elim (Bool-cases (l == 0)) [
  | inl z ↦ rw z v
  | inr z ↦
      rw z (elim (Bool-cases (leb l (length (keep (live (effective clock now)) (hits i r))))) [
        | inl e ↦ rw e (refresh_Holds i id limit (effective clock now) r log v)
        | inr e ↦ rw e (refresh_Holds i id limit (effective clock now) r log v)
      ])
]

prune-Holds :
    (id : Text) (limit : ℕ) (clock now : Time) (r : RateLimiter) (log : List Time)
    → Holds id limit (effective clock now) r log
    → Holds id limit (effective clock now) (prune clock now r) log
prune-Holds id limit clock now r log v =
    let t = effective clock now in
    let e = hits-prune id clock now r v.distinct in
    record {
      distinct = prune-Distinct clock now r v.distinct;
      remembers = rw e (keep-live_later t t (hits id r) (omega arith) ∙ v.remembers);
      bounded = rw (e, keep-live_later t t (hits id r) (omega arith)) v.bounded;
    }

step-Holds :
    (id : Text) (limit : ℕ) (c : Call) (r : RateLimiter) (log : List Time)
    → (limit == 0) ≡ false
    → Limits id limit c
    → Holds id limit (at c) r log
    → Holds id limit (at c) (step c r) (log ++ accepted id c r)
unfolding step accepted
step-Holds id limit (allows i l clock now) r log z a v =
    allow-Holds i id l limit clock now r log z a v
step-Holds id limit (peeks i l clock now) r log z a v =
    rw (append-nil log) (peek-Holds i id l limit clock now r log v)
step-Holds id limit (prunes clock now) r log z a v =
    rw (append-nil log) (prune-Holds id limit clock now r log v)

-- After any calls whose times do not fall, the bucket still holds what it accepted.
pub run-Holds :
    (id : Text) (limit : ℕ) (t : Time) (cs : List Call) (r : RateLimiter) (log : List Time)
    → (limit == 0) ≡ false
    → Agree id limit cs
    → Ordered t cs
    → Holds id limit t r log
    → Holds id limit (last_time t cs) (run id cs r log).0 (run id cs r log).1
unfolding run
run-Holds id limit t [] r log z a o v = v
run-Holds id limit t (c ∷ cs) r log z a o v =
    run-Holds id limit (at c) cs (step c r) (log ++ accepted id c r) z a.1 o.1
      (step-Holds id limit c r log z a.0 (later_Holds id limit t (at c) r log o.0 v))

new-Holds : (id : Text) (limit : ℕ) (t : Time) → Holds id limit t new_rate_limiter []
unfolding new_rate_limiter hits lookup keep
new-Holds id limit t = record { distinct = tt; remembers = refl; bounded = omega arith }

-- Start from an empty limiter and make any calls of `Allow`, `Peek` and `Prune` on any buckets,
-- at times that do not fall, where the calls on one bucket agree on a positive limit: in the
-- minute up to the last call that bucket accepted at most `limit` calls.
pub accepted-le-limit :
    (id : Text) (limit : ℕ) (cs : List Call)
    → 0 < limit
    → Agree id limit cs
    → Ordered 0 cs
    → length (keep (live (last_time 0 cs)) (run id cs new_rate_limiter []).1) ≤ limit
accepted-le-limit id limit cs p a o =
    let v = run-Holds id limit 0 cs new_rate_limiter [] (ground arith) a o (new-Holds id limit 0) in
    rw (← v.remembers) v.bounded
