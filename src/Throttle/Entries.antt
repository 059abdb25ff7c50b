-- ===== src/Throttle/Entries.antt =====
-- What failures make of the entry of a source, in the table that `Fail` prunes as it goes.
use laskah.Prelude.{suc, ◌+◌, ◌≤◌, ◌≡◌, refl, ap, ◌∙◌, Option, some, List, [], ◌∷◌, arith, length}
use laskah.Prelude.Text.{Text, text_eq}
use laskah.Prelude.Maps.{
  lookup, insert, delete_if, lookup-insert_self, lookup-delete_if, Distinct, length-delete_if-le,
  delete_if-Distinct, insert-Distinct, length-insert-le,
}
use laskah.Store.Model.{Time}
use laskah.Throttle.{
  Throttle, Entry, fail, prune_entries, is_stale, outside, current, count_failure,
}

-- Pruning deletes only entries whose window is over, which `Fail` would begin anew anyway.
current-prune :
    (t : Throttle) (visits : List Text) (key : Text) (now : Time)
    → Distinct t.entries
    → length t.entries ≤ t.max_entry
    → current t now (lookup key (prune_entries t visits now)) ≡ current t now (lookup key t.entries)
unfolding prune_entries current
current-prune t visits key now d h = ground (
  arith,
  length-delete_if-le (is_stale t now) t.entries,
  lookup-delete_if key (is_stale t now) t.entries d,
)

lookup-fail :
    (t : Throttle) (visits : List Text) (key : Text) (now : Time)
    → Distinct t.entries
    → length t.entries ≤ t.max_entry
    → lookup key (fail t visits key now).entries
      ≡ some (count_failure t now (current t now (lookup key t.entries)))
unfolding fail
lookup-fail t visits key now d h = rw (
  lookup-insert_self key
      (count_failure t now (current t now (lookup key (prune_entries t visits now))))
      (prune_entries t visits now),
  current-prune t visits key now d h,
)

small_prune :
    (t : Throttle) (visits : List Text) (now : Time)
    → length t.entries ≤ t.max_entry
    → prune_entries t visits now ≡ delete_if (is_stale t now) t.entries
unfolding prune_entries
small_prune t visits now h = ground (arith, length-delete_if-le (is_stale t now) t.entries)

fail-Distinct :
    (t : Throttle) (visits : List Text) (key : Text) (now : Time)
    → Distinct t.entries
    → length t.entries ≤ t.max_entry
    → Distinct (fail t visits key now).entries
unfolding fail
fail-Distinct t visits key now d h =
    insert-Distinct key _ (prune_entries t visits now)
      (rw (small_prune t visits now h) (delete_if-Distinct (is_stale t now) t.entries d))

length-fail :
    (t : Throttle) (visits : List Text) (key : Text) (now : Time)
    → length t.entries ≤ t.max_entry
    → length (fail t visits key now).entries ≤ suc (length t.entries)
unfolding fail
length-fail t visits key now h = omega (
  arith,
  length-insert-le key
      (count_failure t now (current t now (lookup key (prune_entries t visits now))))
      (prune_entries t visits now),
  ap length (small_prune t visits now h),
  length-delete_if-le (is_stale t now) t.entries,
)

-- Failures of one source, each with the order in which Go visits the table.
unfoldable pub fail_all : Throttle → Text → List (List Text × Time) → Throttle
fail_all t key [] = t
fail_all t key ((visits, now) ∷ cs) = fail_all (fail t visits key now) key cs

abbrev pub times : List (List Text × Time) → List Time
times [] = []
times ((visits, now) ∷ cs) = now ∷ times cs

-- What they do to the entry of the source.
unfoldable pub entry_after : Throttle → Option Entry → List Time → Option Entry
entry_after t o [] = o
entry_after t o (now ∷ ts) = entry_after t (some (count_failure t now (current t now o))) ts

same_rules :
    (t : Throttle) (m : List (Text × Entry)) (o : Option Entry) (ts : List Time)
    → entry_after (record t { entries = m }) o ts ≡ entry_after t o ts
unfolding entry_after count_failure current outside
same_rules t m o [] = refl
same_rules t m o (now ∷ ts) = same_rules t m (some (count_failure t now (current t now o))) ts

rules-fail :
    (t : Throttle) (visits : List Text) (key : Text) (now : Time) (o : Option Entry)
    (ts : List Time)
    → entry_after (fail t visits key now) o ts ≡ entry_after t o ts
unfolding fail
rules-fail t visits key now o ts =
    same_rules t
      (insert key (count_failure t now (current t now (lookup key (prune_entries t visits now))))
        (prune_entries t visits now))
      o ts

max_entry-fail :
    (t : Throttle) (visits : List Text) (key : Text) (now : Time)
    → (fail t visits key now).max_entry ≡ t.max_entry
unfolding fail
max_entry-fail t visits key now = refl

-- The table holds what the failures make of the entry, whatever pruning did in between.
pub lookup-fail_all :
    (t : Throttle) (key : Text) (cs : List (List Text × Time))
    → Distinct t.entries
    → length t.entries + length cs ≤ t.max_entry
    → lookup key (fail_all t key cs).entries ≡ entry_after t (lookup key t.entries) (times cs)
unfolding fail_all entry_after
lookup-fail_all t key [] d h = refl
lookup-fail_all t key ((visits, now) ∷ cs) d h =
    lookup-fail_all (fail t visits key now) key cs (fail-Distinct t visits key now d (omega arith))
      (omega (arith, length-fail t visits key now (omega arith), max_entry-fail t visits key now))
    ∙ rw (lookup-fail t visits key now d (omega arith)) (
        rules-fail t visits key now
          (some (count_failure t now (current t now (lookup key t.entries)))) (times cs))
