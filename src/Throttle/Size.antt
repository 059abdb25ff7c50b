-- ===== src/Throttle/Size.antt =====
-- The table of sources stays small.
use laskah.Prelude.{
  ℕ, suc, ◌≤◌, ◌≡◌, refl, Bool, Option, none, some, List, [], ◌∷◌, arith, inl, inr, ◌⊎◌, Bool-cases,
  beq_cases, leb, leb→le, length, In, All,
}
use laskah.Prelude.Text.{Text, text_eq}
use laskah.Prelude.Maps.{lookup, delete, delete_if, length-insert-le, length-delete-le}
use laskah.Store.Model.{Time}
use laskah.Throttle.{
  Throttle, Entry, check, check_entry, fail, reset, prune, prune_entries, make_room, is_stale,
}

-- A loop over a map visits each of its keys.
abbrev pub Visits : List Text → List (Text × Entry) → Type 0
Visits keys m = All (λ (x : Text × Entry). In x.0 keys) m

Visits-delete :
    (k : Text) (ks : List Text) (m : List (Text × Entry))
    → Visits (k ∷ ks) m
    → Visits ks (delete k m)
unfolding delete
Visits-delete k ks [] v = tt
Visits-delete k ks ((j, w) ∷ m) (here, v) = elim (beq_cases j k) [
  | inl (e, q) ↦ rw e (Visits-delete k ks m v)
  | inr (e, n) ↦ rw e (other here n, Visits-delete k ks m v)
]
  where
    other : (j ≡ k) ⊎ In j ks → ¬ (j ≡ k) → In j ks
    other (inl q) n = absurd (n q)
    other (inr i) n = i

Visits-delete_if :
    (p : Entry → Bool) (ks : List Text) (m : List (Text × Entry))
    → Visits ks m
    → Visits ks (delete_if p m)
unfolding delete_if
Visits-delete_if p ks [] v = tt
Visits-delete_if p ks ((j, w) ∷ m) v = elim (Bool-cases (p w)) [
  | inl e ↦ rw e (Visits-delete_if p ks m v.1)
  | inr e ↦ rw e (v.0, Visits-delete_if p ks m v.1)
]

length-make_room :
    (max : ℕ) (ks : List Text) (m : List (Text × Entry))
    → Visits ks m
    → length (make_room max ks m) ≤ max
unfolding make_room
length-make_room max [] [] v = omega arith
length-make_room max [] (x ∷ m) v = absurd v.0
length-make_room max (k ∷ ks) m v = elim (Bool-cases (leb (length (delete k m)) max)) [
  | inl e ↦ rw e (leb→le (length (delete k m)) max e)
  | inr e ↦ rw e (length-make_room max ks (delete k m) (Visits-delete k ks m v))
]

-- Pruning leaves at most `max_entry` sources.
pub length-prune :
    (t : Throttle) (visits : List Text) (now : Time)
    → Visits visits t.entries
    → length (prune t visits now).entries ≤ t.max_entry
unfolding prune prune_entries
length-prune t visits now v = elim (Bool-cases (leb (length fresh) t.max_entry)) [
  | inl e ↦ rw e (leb→le (length fresh) t.max_entry e)
  | inr e ↦ rw e (
      length-make_room t.max_entry visits fresh
        (Visits-delete_if (is_stale t now) visits t.entries v))
]
  where
    fresh : List (Text × Entry)
    fresh = delete_if (is_stale t now) t.entries

pub data Call : Type 0 where
  checks : Text → Time → Call
  fails : Text → Time → Call
  resets : Text → Call
  prunes : Time → Call

-- The calls, each with the order in which Go visits the table.
pub step : Throttle → List Text → Call → Throttle
step t visits (checks key now) = (check t key now).0
step t visits (fails key now) = fail t visits key now
step t visits (resets key) = reset t key
step t visits (prunes now) = prune t visits now

check_entry-size :
    (t : Throttle) (key : Text) (now : Time) (o : Option Entry)
    → (length (check_entry t key now o).0.entries ≤ length t.entries)
      × ((check_entry t key now o).0.max_entry ≡ t.max_entry)
unfolding check_entry
check_entry-size t key now none = (omega arith, refl)
check_entry-size t key now (some e) = ground (arith, length-delete-le key t.entries)

-- If the loop that makes room visits every source of the table, a call on a table that holds at
-- most one source more than `max_entry` leaves it so, with the same `max_entry`.
pub step-size :
    (t : Throttle) (visits : List Text) (c : Call)
    → Visits visits t.entries
    → length t.entries ≤ suc t.max_entry
    → (length (step t visits c).entries ≤ suc t.max_entry)
      × ((step t visits c).max_entry ≡ t.max_entry)
unfolding step check fail reset prune
step-size t visits (checks key now) v h =
    let s = check_entry-size t key now (lookup key t.entries) in (omega (arith, s.0), s.1)
step-size t visits (fails key now) v h = (
  omega (arith, length-prune t visits now v, length-insert-le key _ (prune_entries t visits now)),
  refl,
)
step-size t visits (resets key) v h = (omega (arith, length-delete-le key t.entries), refl)
step-size t visits (prunes now) v h = (omega (arith, length-prune t visits now v), refl)
