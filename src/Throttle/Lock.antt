-- ===== src/Throttle/Lock.antt =====
-- When a source is locked out, and for how long.
use laskah.Prelude.{
  suc, ◌+◌, ◌≤◌, ◌<◌, ◌≡◌, refl, ap, ◌∙◌, true, Option, none, some, List, [], ◌∷◌, ◌++◌, arith, leb,
  length, length-append, All,
}
use laskah.Prelude.Text.{Text, text_eq}
use laskah.Prelude.Maps.{lookup, Distinct}
use laskah.Store.Model.{Time}
use laskah.Throttle.{Throttle, Entry, check, check_entry, outside, current, count_failure}
use laskah.Throttle.Entries.{fail_all, times, entry_after, lookup-fail_all}

abbrev pub Within : Throttle → Time → List Time → Type 0
Within t start ts = All (λ (now : Time). now ≤ start + t.window) ts

one_failure :
    (t : Throttle) (e : Entry) (now : Time)
    → now ≤ e.first_at + t.window
    → e.failures + 1 < t.limit
    → count_failure t now (current t now (some e)) ≡ record e { failures = e.failures + 1 }
unfolding count_failure current outside
one_failure t e now a h = ground arith

-- Below the limit the failures are counted.
entry_after-below :
    (t : Throttle) (e : Entry) (ts : List Time)
    → Within t e.first_at ts
    → e.failures + length ts < t.limit
    → entry_after t (some e) ts ≡ some (record e { failures = e.failures + length ts })
unfolding entry_after count_failure current outside
entry_after-below t e [] w h = ground arith
entry_after-below t e (now ∷ ts) w h = rw (one_failure t e now w.0 (omega arith)) (
    entry_after-below t (record e { failures = e.failures + 1 }) ts w.1 (omega arith)
    ∙ ground arith)

entry_after-append :
    (t : Throttle) (o : Option Entry) (ts us : List Time)
    → entry_after t o (ts ++ us) ≡ entry_after t (entry_after t o ts) us
unfolding entry_after
entry_after-append t o [] us = refl
entry_after-append t o (now ∷ ts) us =
    entry_after-append t (some (count_failure t now (current t now o))) ts us

locking_failure :
    (t : Throttle) (e : Entry) (last : Time)
    → last ≤ e.first_at + t.window
    → e.failures + 1 ≡ t.limit
    → count_failure t last (current t last (some e))
      ≡ record { failures = 0; first_at = last; locked_till = last + t.lockout }
unfolding count_failure current outside
locking_failure t e last a h = ground arith

-- The failure that reaches the limit locks.
entry_after-at :
    (t : Throttle) (e : Entry) (ts : List Time) (last : Time)
    → Within t e.first_at ts
    → last ≤ e.first_at + t.window
    → e.failures + length ts + 1 ≡ t.limit
    → entry_after t (some e) (ts ++ last ∷ [])
      ≡ some (record { failures = 0; first_at = last; locked_till = last + t.lockout })
unfolding entry_after
entry_after-at t e ts last w a h =
    rw (entry_after-append t (some e) ts (last ∷ []), entry_after-below t e ts w (omega arith))
      (ap some (locking_failure t (record e { failures = e.failures + length ts }) last a h))

-- A check refuses exactly before the end of the lock.
check-entry :
    (t : Throttle) (key : Text) (u : Time) (e : Entry)
    → lookup key t.entries ≡ some e
    → (check t key u).1 ≡ leb e.locked_till u
unfolding check check_entry
check-entry t key u e h = ground arith

times-append :
    (cs : List (List Text × Time)) (visits : List Text) (now : Time)
    → times (cs ++ (visits, now) ∷ []) ≡ times cs ++ now ∷ []
times-append [] visits now = refl
times-append ((v, t) ∷ cs) visits now = ap (◌∷◌ t) (times-append cs visits now)

length-times : (cs : List (List Text × Time)) → length (times cs) ≡ length cs
length-times [] = refl
length-times ((v, t) ∷ cs) = ap suc (length-times cs)

start : Time → Entry
start first = record { failures = 1; first_at = first; locked_till = 0 }

entry_first :
    (t : Throttle) (first : Time) (ts : List Time)
    → 1 < t.limit
    → entry_after t none (first ∷ ts) ≡ entry_after t (some (start first)) ts
unfolding entry_after count_failure current start
entry_first t first ts h = ground arith

-- A source without an entry.
module _ (t : Throttle) (key : Text) (visits : List Text) (first : Time)
    (cs : List (List Text × Time)) (distinct : Distinct t.entries)
    (missing : lookup key t.entries ≡ none)
    (room : length t.entries + length cs + 2 ≤ t.max_entry) where
  below_entry :
      Within t first (times cs)
      → length cs + 1 < t.limit
      → lookup key (fail_all t key ((visits, first) ∷ cs)).entries
        ≡ some (record (start first) { failures = 1 + length (times cs) })
  unfolding start
  below_entry w h =
      lookup-fail_all t key ((visits, first) ∷ cs) distinct (omega arith)
      ∙ rw missing (
          entry_first t first (times cs) (omega arith)
          ∙ entry_after-below t (start first) (times cs) w (omega (arith, length-times cs)))

  -- Fewer failures of a source than the limit, all within one window of the first, with room in
  -- the table for an entry for each and none for the source before, leave a check to let it
  -- try.
  pub check-fail_below :
      (u : Time)
      → Within t first (times cs)
      → length cs + 1 < t.limit
      → (check (fail_all t key ((visits, first) ∷ cs)) key u).1 ≡ true
  unfolding start
  check-fail_below u w h =
      check-entry (fail_all t key ((visits, first) ∷ cs)) key u _ (below_entry w h) ∙ ground arith

  -- Let a source without an entry fail as often as the limit (at least twice), all within one
  -- window of the first, with room in the table for an entry for each: a check lets it try
  -- again exactly from `lockout` after the last failure on.
  pub check-fail_locked :
      (last_visits : List Text) (last u : Time)
      → Within t first (times cs)
      → last ≤ first + t.window
      → length cs + 2 ≡ t.limit
      → (check (fail_all t key ((visits, first) ∷ (cs ++ (last_visits, last) ∷ []))) key u).1
        ≡ leb (last + t.lockout) u
  unfolding start
  check-fail_locked last_visits last u w a h =
      check-entry (fail_all t key ((visits, first) ∷ more)) key u
        (record { failures = 0; first_at = last; locked_till = last + t.lockout })
        (lookup-fail_all t key ((visits, first) ∷ more) distinct
            (omega (arith, length-append cs ((last_visits, last) ∷ [])))
          ∙ rw (missing, times-append cs last_visits last)
              (entry_first t first (times cs ++ last ∷ []) (omega arith)
                ∙ entry_after-at t (start first) (times cs) last w a
                    (omega (arith, length-times cs))))
    where
      more : List (List Text × Time)
      more = cs ++ (last_visits, last) ∷ []
