-- ===== src/Sessions/Steps.antt =====
-- Sequences of the session table's operations keep it well formed.
use laskah.Prelude.{
  ◌≤◌, ◌<◌, ◌≡◌, refl, Bool, false, Option, none, some, List, [], ◌∷◌, arith, inl, inr, Bool-cases,
  ◌==◌, length,
}
use laskah.Prelude.Text.{Text, codes, text_eq, trim_space}
use laskah.Prelude.Maps.{
  lookup, insert, delete, insert-Distinct, delete-Distinct, delete_if-Distinct, All-delete,
  All-delete_if, All-insert, length-insert_there, length-insert-le, length-delete-le,
  length-delete_if-le,
}
use laskah.Store.Model.{Time}
use laskah.Sessions.{
  Session, SessionStore, Role, is_over, prune_locked, make_room, issue, touch, find_session, revoke,
  revoke_all, revoke_user, prune, new_session,
}
use laskah.Sessions.Limits.{IsValid, make_room-IsValid, make_room-room, prune_locked-IsValid}

-- One call of the table by the administration pages.
pub data Operation : Type 0 where
  issue_to : Text → Text → Role → Option Text → Option Text → Operation
  look_up : Text → Operation
  revoke_one : Text → Operation
  revoke_every : Operation
  revoke_of : Text → Operation
  sweep : Operation

unfoldable pub step : (Text → Text) → SessionStore → Operation × Time → SessionStore
step hash s (issue_to user_id user role token csrf, now) =
    (issue hash s user_id user role token csrf now).0
step hash s (look_up token, now) = (find_session hash s token now).0
step hash s (revoke_one token, now) = revoke hash s token
step hash s (revoke_every, now) = revoke_all s
step hash s (revoke_of user_id, now) = revoke_user s user_id
step hash s (sweep, now) = prune s now

unfoldable pub steps : (Text → Text) → SessionStore → List (Operation × Time) → SessionStore
steps hash s [] = s
steps hash s (o ∷ os) = steps hash (step hash s o) os

-- `HashToken` gives 64 hexadecimal digits, so never the empty string.
abbrev pub GivesDigests : (Text → Text) → Type 0
GivesDigests hash = (t : Text) → (hash t == codes "") ≡ false

delete-IsValid :
    (s : SessionStore) (k : Text)
    → IsValid s
    → IsValid (record s { sessions = delete k s.sessions })
delete-IsValid s k v = record {
  positive = v.positive;
  bounded = omega (arith, length-delete-le k s.sessions, v.bounded);
  distinct = delete-Distinct k s.sessions v.distinct;
  named = All-delete _ k s.sessions v.named;
}

insert-IsValid :
    (s : SessionStore) (k : Text) (x : Session)
    → (k == codes "") ≡ false
    → length (insert k x s.sessions) ≤ s.max_count
    → IsValid s
    → IsValid (record s { sessions = insert k x s.sessions })
insert-IsValid s k x n h v = record {
  positive = v.positive;
  bounded = h;
  distinct = insert-Distinct k x s.sessions v.distinct;
  named = All-insert _ k x s.sessions n v.named;
}

issue-IsValid :
    (hash : Text → Text) (s : SessionStore) (user_id user : Text) (role : Role)
    (token csrf : Option Text) (now : Time)
    → GivesDigests hash
    → IsValid s
    → IsValid (issue hash s user_id user role token csrf now).0
unfolding issue
issue-IsValid hash s user_id user role none csrf now g v = v
issue-IsValid hash s user_id user role (some token) none now g v = v
issue-IsValid hash s user_id user role (some token) (some csrf) now g v =
    let pruned = prune_locked-IsValid s now v in
    let s' = make_room (prune_locked s now) in
    let x = new_session hash s user_id user role csrf now in
    let room : length s'.sessions < s'.max_count = make_room-room (prune_locked s now) pruned in
    insert-IsValid s' (hash token) x (g token)
      (omega (arith, room, length-insert-le (hash token) x s'.sessions))
      (make_room-IsValid (prune_locked s now) pruned)

touch-IsValid :
    (hash : Text → Text) (s : SessionStore) (k : Text) (now : Time) (found : Option Session)
    → (k == codes "") ≡ false
    → lookup k s.sessions ≡ found
    → IsValid s
    → IsValid (touch hash s k now found).0
unfolding touch
touch-IsValid hash s k now none n e v = v
touch-IsValid hash s k now (some x) n e v = elim (Bool-cases (is_over s now x)) [
  | inl over ↦ rw over (delete-IsValid s k v)
  | inr live ↦
      let x' = record x { last_seen = now } in
      let same = length-insert_there k x' x s.sessions e in
      rw live (insert-IsValid s k x' n (omega (arith, same, v.bounded)) v)
]

find_session-IsValid :
    (hash : Text → Text) (s : SessionStore) (token : Text) (now : Time)
    → GivesDigests hash
    → IsValid s
    → IsValid (find_session hash s token now).0
unfolding find_session
find_session-IsValid hash s token now g v = elim (Bool-cases (trim_space token == codes "")) [
  | inl e ↦ rw e v
  | inr e ↦
      rw e (touch-IsValid hash s (hash token) now (lookup (hash token) s.sessions) (g token) refl v)
]

revoke-IsValid :
    (hash : Text → Text) (s : SessionStore) (token : Text)
    → IsValid s
    → IsValid (revoke hash s token)
unfolding revoke
revoke-IsValid hash s token v = elim (Bool-cases (token == codes "")) [
  | inl e ↦ rw e v
  | inr e ↦ rw e (delete-IsValid s (hash token) v)
]

revoke_user-IsValid :
    (s : SessionStore) (user_id : Text) → IsValid s → IsValid (revoke_user s user_id)
unfolding revoke_user
revoke_user-IsValid s user_id v = elim (Bool-cases (user_id == codes "")) [
  | inl e ↦ rw e v
  | inr e ↦
      let p : Session → Bool = λ x. x.user_id == user_id in
      rw e (record {
        positive = v.positive;
        bounded = omega (arith, length-delete_if-le p s.sessions, v.bounded);
        distinct = delete_if-Distinct p s.sessions v.distinct;
        named = All-delete_if _ p s.sessions v.named;
      })
]

-- If digests are never empty and the table of sessions is well formed (room for one, no more
-- sessions than the limit, one for a digest, no empty digest), it is so after any sequence of
-- issues, lookups, revocations and sweeps.
pub steps-IsValid :
    (hash : Text → Text) (s : SessionStore) (os : List (Operation × Time))
    → GivesDigests hash
    → IsValid s
    → IsValid (steps hash s os)
unfolding steps step revoke_all prune
steps-IsValid hash s [] g v = v
steps-IsValid hash s (o ∷ os) g v = steps-IsValid hash (step hash s o) os g (one o)
  where
    one : (o : Operation × Time) → IsValid (step hash s o)
    one (issue_to user_id user role token csrf, now) =
        issue-IsValid hash s user_id user role token csrf now g v
    one (look_up token, now) = find_session-IsValid hash s token now g v
    one (revoke_one token, now) = revoke-IsValid hash s token v
    one (revoke_every, now) = record {
      positive = v.positive;
      bounded = omega arith;
      distinct = tt;
      named = tt;
    }
    one (revoke_of user_id, now) = revoke_user-IsValid s user_id v
    one (sweep, now) = prune_locked-IsValid s now v
