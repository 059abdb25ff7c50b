-- ===== src/Throttle.antt =====
-- internal/security/throttle.go: the lock against guessed passwords. `now` is `time.Now()`. Go visits
-- a map in an order that it does not fix: the loop that makes room takes it as `visits`.
pub mod Entries
pub mod Lock
pub mod Size
use laskah.Prelude.{
  ℕ, ◌+◌, ◌-◌, ◌*◌, Bool, true, false, ◌&&◌, ◌||◌, Option, none, some, List, [], ◌∷◌, ◌==◌, nat_eq,
  ltb, leb, if◌then◌else◌, length,
}
use laskah.Prelude.Text.{Text, text_eq}
use laskah.Prelude.Maps.{lookup, insert, delete, delete_if}
use laskah.Store.Model.{Time, minute}

pub record Entry : Type 0 where
  pub failures : ℕ
  pub first_at : Time
  pub locked_till : Time

pub record Throttle : Type 0 where
  pub entries : List (Text × Entry)
  pub limit : ℕ
  pub window : ℕ
  pub lockout : ℕ
  pub max_entry : ℕ

unfoldable pub new_throttle : ℕ → ℕ → ℕ → Throttle
new_throttle limit window lockout = record {
  entries = [];
  limit = if ltb limit 1 then 5 else limit;
  window = if window == 0 then 10 * minute else window;
  lockout = if lockout == 0 then 15 * minute else lockout;
  max_entry = 4096;
}

-- `now.Sub(entry.firstAt) > t.window`.
unfoldable pub outside : Throttle → Time → Entry → Bool
outside t now e = ltb (e.first_at + t.window) now

unfoldable pub check_entry : Throttle → Text → Time → Option Entry → Throttle × Bool × ℕ
unfolding outside
check_entry t key now none = (t, true, 0)
check_entry t key now (some e) =
    if ltb now e.locked_till
    then (t, false, e.locked_till - now)
    else if outside t now e
    then (record t { entries = delete key t.entries }, true, 0)
    else (t, true, 0)

unfoldable pub check : Throttle → Text → Time → Throttle × Bool × ℕ
unfolding check_entry
check t key now = check_entry t key now (lookup key t.entries)

unfoldable pub is_stale : Throttle → Time → Entry → Bool
is_stale t now e = ltb e.locked_till now && outside t now e

-- The loop that deletes entries until there are few enough.
unfoldable pub make_room : ℕ → List Text → List (Text × Entry) → List (Text × Entry)
make_room max [] m = m
make_room max (key ∷ keys) m =
    let m' = delete key m in if leb (length m') max then m' else make_room max keys m'

unfoldable pub prune_entries : Throttle → List Text → Time → List (Text × Entry)
unfolding is_stale
prune_entries t visits now =
    let fresh = delete_if (is_stale t now) t.entries in
    if leb (length fresh) t.max_entry then fresh else make_room t.max_entry visits fresh

unfoldable pub prune : Throttle → List Text → Time → Throttle
unfolding prune_entries
prune t visits now = record t { entries = prune_entries t visits now }

-- The entry to count in: a new one if there is none, or if its window is over.
unfoldable pub current : Throttle → Time → Option Entry → Entry
current t now none = record { failures = 0; first_at = now; locked_till = 0 }
current t now (some e) =
    if outside t now e then record { failures = 0; first_at = now; locked_till = 0 } else e

unfoldable pub count_failure : Throttle → Time → Entry → Entry
count_failure t now e =
    if leb t.limit (e.failures + 1)
    then record { failures = 0; first_at = now; locked_till = now + t.lockout }
    else record e { failures = e.failures + 1 }

unfoldable pub fail : Throttle → List Text → Text → Time → Throttle
fail t visits key now =
    let m = prune_entries t visits now in
    record t { entries = insert key (count_failure t now (current t now (lookup key m))) m }

unfoldable pub reset : Throttle → Text → Throttle
reset t key = record t { entries = delete key t.entries }
