-- ===== src/Limiter/Remembers.antt =====
-- A bucket remembers the accepted calls of the last minute, through every change of it.
use laskah.Prelude.{
  ℕ, ◌≤◌, ◌≡◌, refl, sym, ap, ◌∙◌, true, false, none, some, List, [], ◌∷◌, ◌++◌, arith, inl, inr,
  ◌==◌, nat_eq, leb, if◌then◌else◌, keep, keep-append, length, length-append, length-keep-le,
  beq_cases, beq_refl,
}
use laskah.Prelude.Text.{Text, text_eq}
use laskah.Prelude.Maps.{lookup, lookup-insert, Distinct, Fresh, Fresh→none, insert-Distinct}
use laskah.Store.Model.{Time}
use laskah.Limiter.{RateLimiter, live, hits, put_hits, prune, prune_buckets, effective}

-- The bucket remembers every accepted call of the last minute, and there are at most `limit`.
pub record Holds (id : Text) (limit : ℕ) (t : Time) (r : RateLimiter) (log : List Time)
    : Type 0 where
  pub distinct : Distinct r.buckets
  pub remembers : keep (live t) (hits id r) ≡ keep (live t) log
  pub bounded : length (keep (live t) (hits id r)) ≤ limit

-- What is live later is live now.
pub keep-live_later :
    (t u : Time) (xs : List Time) → t ≤ u → keep (live u) (keep (live t) xs) ≡ keep (live u) xs
unfolding keep live
keep-live_later t u [] h = refl
keep-live_later t u (x ∷ xs) h = ground (arith, keep-live_later t u xs h)

pub hits-put_hits :
    (i id : Text) (kept : List Time) (r : RateLimiter)
    → hits id (put_hits i kept r) ≡ (if i == id then kept else hits id r)
unfolding hits put_hits
hits-put_hits i id kept r = ground (arith, lookup-insert i id kept r.buckets)

put_hits-Distinct :
    (i : Text) (kept : List Time) (r : RateLimiter)
    → Distinct r.buckets
    → Distinct (put_hits i kept r).buckets
unfolding put_hits
put_hits-Distinct i kept r d = insert-Distinct i kept r.buckets d

-- Time passes.
pub later_Holds :
    (id : Text) (limit : ℕ) (t u : Time) (r : RateLimiter) (log : List Time)
    → t ≤ u
    → Holds id limit t r log
    → Holds id limit u r log
later_Holds id limit t u r log h v = record {
  distinct = v.distinct;
  remembers =
      sym (keep-live_later t u (hits id r) h)
      ∙ ap (keep (live u)) v.remembers
      ∙ keep-live_later t u log h;
  bounded = omega (
    arith,
    ap length (keep-live_later t u (hits id r) h),
    length-keep-le (live u) (keep (live t) (hits id r)),
    v.bounded,
  );
}

-- A bucket rewritten to what is live remembers as much.
pub refresh_Holds :
    (i id : Text) (limit : ℕ) (t : Time) (r : RateLimiter) (log : List Time)
    → Holds id limit t r log
    → Holds id limit t (put_hits i (keep (live t) (hits i r)) r) log
refresh_Holds i id limit t r log v = elim (beq_cases i id) [
  | inl (e, q) ↦ record {
    distinct = put_hits-Distinct i (keep (live t) (hits i r)) r v.distinct;
    remembers =
        rw (hits-put_hits i id (keep (live t) (hits i r)) r, e, q)
          (keep-live_later t t (hits id r) (omega arith) ∙ v.remembers);
    bounded =
        rw
          (
            hits-put_hits i id (keep (live t) (hits i r)) r,
            e,
            q,
            keep-live_later t t (hits id r) (omega arith),
          )
          v.bounded;
  }
  | inr (e, n) ↦ record {
    distinct = put_hits-Distinct i (keep (live t) (hits i r)) r v.distinct;
    remembers = rw (hits-put_hits i id (keep (live t) (hits i r)) r, e) v.remembers;
    bounded = rw (hits-put_hits i id (keep (live t) (hits i r)) r, e) v.bounded;
  }
]

live_now : (t : Time) → live t t ≡ true
unfolding live
live_now t = ground arith

keep-live_snoc :
    (t : Time) (xs : List Time) → keep (live t) (xs ++ t ∷ []) ≡ keep (live t) xs ++ t ∷ []
unfolding keep
keep-live_snoc t xs = keep-append (live t) xs (t ∷ []) ∙ rw (live_now t)

-- A recorded hit below the limit is remembered.
pub record_Holds :
    (id : Text) (limit : ℕ) (t : Time) (r : RateLimiter) (log : List Time)
    → leb limit (length (keep (live t) (hits id r))) ≡ false
    → Holds id limit t r log
    → Holds id limit t (put_hits id (keep (live t) (hits id r) ++ t ∷ []) r) (log ++ t ∷ [])
record_Holds id limit t r log below v = record {
  distinct = put_hits-Distinct id (keep (live t) (hits id r) ++ t ∷ []) r v.distinct;
  remembers =
      rw (hits-put_hits id id (keep (live t) (hits id r) ++ t ∷ []) r, beq_refl id)
        (kept ∙ ap (λ l. l ++ t ∷ []) v.remembers ∙ sym (keep-live_snoc t log));
  bounded =
      rw (hits-put_hits id id (keep (live t) (hits id r) ++ t ∷ []) r, beq_refl id, kept)
        (ground (arith, length-append (keep (live t) (hits id r)) (t ∷ [])));
}
  where
    kept : keep (live t) (keep (live t) (hits id r) ++ t ∷ []) ≡ keep (live t) (hits id r) ++ t ∷ []
    kept =
        keep-live_snoc t (keep (live t) (hits id r))
        ∙ ap (λ l. l ++ t ∷ []) (keep-live_later t t (hits id r) (omega arith))

-- A hit of another bucket changes nothing here.
pub elsewhere_Holds :
    (i id : Text) (limit : ℕ) (t : Time) (kept : List Time) (r : RateLimiter) (log : List Time)
    → (i == id) ≡ false
    → Holds id limit t r log
    → Holds id limit t (put_hits i kept r) log
elsewhere_Holds i id limit t kept r log e v = record {
  distinct = put_hits-Distinct i kept r v.distinct;
  remembers = rw (hits-put_hits i id kept r, e) v.remembers;
  bounded = rw (hits-put_hits i id kept r, e) v.bounded;
}

Fresh-prune_buckets :
    (id : Text) (t : Time) (m : List (Text × List Time)) → Fresh id m → Fresh id (prune_buckets t m)
unfolding prune_buckets
Fresh-prune_buckets id t [] f = tt
Fresh-prune_buckets id t ((i, h) ∷ m) f = ground (arith, Fresh-prune_buckets id t m f.1)

prune_buckets-Distinct :
    (t : Time) (m : List (Text × List Time)) → Distinct m → Distinct (prune_buckets t m)
unfolding prune_buckets
prune_buckets-Distinct t [] d = tt
prune_buckets-Distinct t ((i, h) ∷ m) d =
    ground (arith, Fresh-prune_buckets i t m d.0, prune_buckets-Distinct t m d.1)

pub prune-Distinct :
    (clock now : Time) (r : RateLimiter) → Distinct r.buckets → Distinct (prune clock now r).buckets
unfolding prune
prune-Distinct clock now r d = prune_buckets-Distinct (effective clock now) r.buckets d

found : Text → List (Text × List Time) → List Time
found id m = elim (lookup id m) [ none ↦ [] | some h ↦ h ]

empty_of_length : (xs : List Time) → (length xs == 0) ≡ true → xs ≡ []
empty_of_length [] h = refl
empty_of_length (x ∷ xs) h = absurd (ground arith)

found-prune_buckets :
    (id : Text) (t : Time) (m : List (Text × List Time))
    → Distinct m
    → found id (prune_buckets t m) ≡ keep (live t) (found id m)
unfolding found lookup prune_buckets keep
found-prune_buckets id t [] d = refl
found-prune_buckets id t ((i, h) ∷ m) d = ground (
  arith,
  found-prune_buckets id t m d.1,
  text_eq.beq_iff i id,
  Fresh→none i m d.0,
  Fresh→none i (prune_buckets t m) (Fresh-prune_buckets i t m d.0),
  empty_of_length (keep (live t) h),
)

-- `Prune` keeps what is live in every bucket.
pub hits-prune :
    (id : Text) (clock now : Time) (r : RateLimiter)
    → Distinct r.buckets
    → hits id (prune clock now r) ≡ keep (live (effective clock now)) (hits id r)
unfolding hits prune found
hits-prune id clock now r d = found-prune_buckets id (effective clock now) r.buckets d
