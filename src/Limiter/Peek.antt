-- ===== src/Limiter/Peek.antt =====
-- What `Peek` tells about a later `Allow`, and how long a refused caller has to wait.
use native.Mathlib.Nat.{le_trans}
use laskah.Prelude.{
  ℕ, ◌+◌, ◌-◌, ◌≤◌, ◌<◌, ◌≡◌, refl, true, false, List, [], ◌∷◌, arith, inl, inr, Bool-cases, ◌==◌,
  nat_eq, leb, leb→le, keep, length, length-keep-le, beq_refl, All, All-keep,
}
use laskah.Prelude.Text.{Text, text_eq}
use laskah.Store.Model.{Time, minute}
use laskah.Limiter.{
  RateLimiter, live, hits, put_hits, retry_after, decide_at, decide, allow, peek, effective,
}
use laskah.Limiter.Remembers.{hits-put_hits, keep-live_later}

kept_again :
    (id : Text) (t : Time) (r : RateLimiter)
    → keep (live t) (hits id (put_hits id (keep (live t) (hits id r)) r))
      ≡ keep (live t) (hits id r)
kept_again id t r =
    rw (hits-put_hits id id (keep (live t) (hits id r)) r, beq_refl id)
      (keep-live_later t t (hits id r) (omega arith))

peek_then_allow :
    (id : Text) (limit : ℕ) (t : Time) (r : RateLimiter)
    → ((decide_at id limit t false r).1.allowed ≡ (decide_at id limit t true r).1.allowed)
      × ((decide_at id limit t true (decide_at id limit t false r).0).1
          ≡ (decide_at id limit t true r).1)
unfolding decide_at
peek_then_allow id limit t r = elim (Bool-cases (leb limit (length (keep (live t) (hits id r))))) [
  | inl f ↦ rw (f, kept_again id t r, f) (refl, refl)
  | inr f ↦ rw (f, kept_again id t r, f) (refl, refl)
]

-- `Peek` allows a call exactly if `Allow` would, and an `Allow` after it decides as it would
-- have without it.
pub allow-peek :
    (clock : Time) (id : Text) (limit : ℕ) (now : Time) (r : RateLimiter)
    → ((peek clock id limit now r).1.allowed ≡ (allow clock id limit now r).1.allowed)
      × ((allow clock id limit now (peek clock id limit now r).0).1
          ≡ (allow clock id limit now r).1)
unfolding peek allow decide
allow-peek clock id limit now r = elim (Bool-cases (limit == 0)) [
  | inl z ↦ rw z (refl, refl)
  | inr z ↦ rw z (peek_then_allow id limit (effective clock now) r)
]

-- Once the first hit is a minute old, fewer are live.
keep-expired_lt :
    (now : Time) (xs : List Time) (limit : ℕ)
    → 0 < limit
    → limit ≤ length (keep (live now) xs)
    → length (keep (live now) xs) ≤ limit
    → length (keep (live (now + retry_after now (keep (live now) xs))) (keep (live now) xs)) < limit
unfolding live keep retry_after
keep-expired_lt now xs limit p a b = oldest (keep (live now) xs) (All-keep (live now) xs) a b
  where
    oldest :
        (ys : List Time)
        → All (λ y. live now y ≡ true) ys
        → limit ≤ length ys
        → length ys ≤ limit
        → length (keep (live (now + retry_after now ys)) ys) < limit
    oldest [] l c d = omega arith
    oldest (y ∷ ys) l c d = ground (arith, length-keep-le (live (now + (y + minute - now))) ys)

refusal :
    (id : Text) (limit : ℕ) (t : Time) (r : RateLimiter)
    → (decide_at id limit t true r).1.allowed ≡ false
    → (limit ≤ length (keep (live t) (hits id r)))
      × ((decide_at id limit t true r).0 ≡ put_hits id (keep (live t) (hits id r)) r)
      × ((decide_at id limit t true r).1.retry_after ≡ retry_after t (keep (live t) (hits id r)))
unfolding decide_at
refusal id limit t r e = elim (Bool-cases (leb limit (length (keep (live t) (hits id r))))) [
  | inl f ↦ (leb→le limit _ f, rw f, rw f)
  | inr f ↦ absurd (ground arith)
]

acceptance :
    (id : Text) (limit : ℕ) (t : Time) (r : RateLimiter)
    → length (keep (live t) (hits id r)) < limit
    → (decide_at id limit t true r).1.allowed ≡ true
unfolding decide_at
acceptance id limit t r h = ground arith

refused_then_allowed :
    (id : Text) (limit : ℕ) (now : Time) (r : RateLimiter)
    → 0 < limit
    → length (hits id r) ≤ limit
    → (decide_at id limit now true r).1.allowed ≡ false
    → (decide_at id limit
        (now + (decide_at id limit now true r).1.retry_after)
        true
        (decide_at id limit now true r).0).1.allowed
      ≡ true
refused_then_allowed id limit now r q h e =
    let (full, state, wait) = refusal id limit now r e in
    rw (state, wait)
      (acceptance id limit (now + retry_after now kept) (put_hits id kept r) (
        rw (hits-put_hits id id kept r, beq_refl id)
          (keep-expired_lt now (hits id r) limit q full
            (le_trans (length-keep-le (live now) (hits id r)) h))))
  where
    kept : List Time
    kept = keep (live now) (hits id r)

allow_positive :
    (clock : Time) (id : Text) (limit : ℕ) (now : Time) (r : RateLimiter)
    → 0 < now
    → 0 < limit
    → allow clock id limit now r ≡ decide_at id limit now true r
unfolding allow decide effective
allow_positive clock id limit now r p q = ground arith

-- If a bucket holds no more hits than a positive limit and `Allow` refuses a call at a time
-- given by the caller, then `Allow` accepts the call that waits for `retry_after`, if no call
-- came between.
pub allow-retry_after :
    (clock : Time) (id : Text) (limit : ℕ) (now : Time) (r : RateLimiter)
    → 0 < now
    → 0 < limit
    → length (hits id r) ≤ limit
    → (allow clock id limit now r).1.allowed ≡ false
    → (allow clock id limit
        (now + (allow clock id limit now r).1.retry_after)
        (allow clock id limit now r).0).1.allowed
      ≡ true
allow-retry_after clock id limit now r p q h e =
    rw
      (
        allow_positive clock id limit now r p q,
        allow_positive clock id limit (now + (decide_at id limit now true r).1.retry_after)
            (decide_at id limit now true r).0 (omega arith) q,
      )
      (refused_then_allowed id limit now r q h (rw (allow_positive clock id limit now r p q) at e))
