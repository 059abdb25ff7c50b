-- ===== src/Examples/Logins.antt =====
-- Examples for the sessions of the administration pages.
use laskah.Prelude.{
  none, ◌≤◌, ◌<◌, ◌⊎◌, ◌+◌, ◌≡◌, refl, false, some, List, [], ◌∷◌, arith, ◌==◌, nat_eq,
}
use laskah.Prelude.Text.{Text, codes, text_eq, text_beq, trim_space, trim_left, is_space}
use laskah.Prelude.Maps.{lookup, delete_if}
use laskah.Store.Model.{Time}
use laskah.Sessions.{
  Session, SessionStore, admin, new_session, issue, find_session, revoke_user, make_room, is_over,
  touch,
}
use laskah.Sessions.Limits.{IsValid, IsDropped, make_room_full}
use laskah.Sessions.Steps.{
  Operation, issue_to, look_up, revoke_one, revoke_of, sweep, steps, steps-IsValid, GivesDigests,
}
use laskah.Sessions.Access.{find_session-again, find_session-issue, find_session-revoke_user}

-- A digest for the example: the token behind a letter, so never the empty string.
abbrev digest : Text → Text
digest token = 104 ∷ token

abbrev empty_store : SessionStore
empty_store = record { sessions = []; ttl = 100; idle = 50; max_count = 2 }

abbrev seen : Text → Time → Session
seen user_id last_seen = record {
  user_id = user_id;
  user = user_id;
  role = admin;
  csrf = codes "c";
  created_at = 1;
  expires_at = 90;
  last_seen = last_seen;
}

-- Two sessions in a table for two.
abbrev full_store : SessionStore
full_store = record empty_store {
  sessions = (codes "ht", seen (codes "u") 20) ∷ (codes "hs", seen (codes "v") 10) ∷ [];
}

empty_store-IsValid : IsValid empty_store
empty_store-IsValid = record {
  positive = omega arith;
  bounded = omega arith;
  distinct = tt;
  named = tt;
}

full_store-IsValid : IsValid full_store
unfolding text_beq
full_store-IsValid = record {
  positive = omega arith;
  bounded = omega arith;
  distinct = ((refl, tt), (tt, tt));
  named = (refl, (refl, tt));
}

abbrev some_operations : List (Operation × Time)
some_operations =
    (issue_to (codes "u") (codes "u") admin (some (codes "t")) (some (codes "c")), 5)
    ∷ (look_up (codes "t"), 6)
    ∷ (revoke_one (codes "s"), 7)
    ∷ (sweep, 8)
    ∷ (revoke_of (codes "u"), 9)
    ∷ []

digest-GivesDigests : GivesDigests digest
unfolding text_beq
digest-GivesDigests t = refl

steps-IsValid_example : IsValid (steps digest empty_store some_operations)
steps-IsValid_example =
    steps-IsValid digest empty_store some_operations digest-GivesDigests empty_store-IsValid

make_room_full_example : IsDropped full_store (make_room full_store)
make_room_full_example = make_room_full full_store full_store-IsValid refl

found_there : (find_session digest full_store (codes "t") 30).1 ≡ some (seen (codes "u") 30)
unfolding find_session touch lookup is_over text_beq trim_space trim_left is_space
found_there = refl

find_session-again_example :
    (35 ≤ (seen (codes "u") 30).expires_at
      → 35 ≤ 30 + full_store.idle
      → (find_session digest (find_session digest full_store (codes "t") 30).0 (codes "t") 35).1
        ≡ some (seen (codes "u") 35))
    × (((seen (codes "u") 30).expires_at < 35) ⊎ (30 + full_store.idle < 35)
        → (find_session digest (find_session digest full_store (codes "t") 30).0 (codes "t") 35).1
          ≡ none)
find_session-again_example =
    find_session-again digest full_store (codes "t") 30 35 (seen (codes "u") 30) found_there

not_blank : (trim_space (codes "t") == codes "") ≡ false
unfolding trim_space trim_left is_space text_beq
not_blank = refl

find_session-issue_example :
    (find_session digest
      (issue digest empty_store
        (codes "u")
        (codes "u")
        admin
        (some (codes "t"))
        (some (codes "c"))
        5).0
      (codes "t")
      40).1
    ≡ some (record (new_session digest empty_store (codes "u") (codes "u") admin (codes "c") 5) {
      last_seen = 40;
    })
find_session-issue_example =
    find_session-issue digest empty_store (codes "u") (codes "u") admin (codes "t") (codes "c") 5 40
      not_blank (omega arith) (omega arith)

different : (digest (codes "t") == digest (codes "s")) ≡ false
unfolding text_beq
different = refl

another_user :
    (find_session digest (revoke_user full_store (codes "v")) (codes "t") 30).1
    ≡ some (seen (codes "u") 30)
unfolding find_session touch lookup is_over text_beq trim_space trim_left is_space revoke_user
    delete_if
another_user = refl

a_user : (codes "v" == codes "") ≡ false
unfolding text_beq
a_user = refl

find_session-revoke_user_example : ((seen (codes "u") 30).user_id == codes "v") ≡ false
find_session-revoke_user_example =
    find_session-revoke_user digest full_store (codes "v") (codes "t") 30 (seen (codes "u") 30)
      full_store-IsValid.distinct a_user another_user
