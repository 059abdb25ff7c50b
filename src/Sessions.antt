-- ===== src/Sessions.antt =====
-- internal/security/session.go: the sessions of the administration pages. `hash` stands for
-- `HashToken` (SHA-256 in hexadecimal) and `now` for `time.Now()`; the two random tokens of `Issue`
-- are arguments, absent where the source of randomness fails.
pub mod Limits
pub mod Steps
pub mod Access
use laskah.Prelude.{
  ℕ, ◌+◌, ◌*◌, Bool, true, false, not, ◌||◌, Option, none, some, List, [], ◌∷◌, ◌==◌, nat_eq, ltb,
  leb, if◌then◌else◌, length,
}
use laskah.Prelude.Text.{Text, codes, text_eq, trim_space}
use laskah.Prelude.Maps.{lookup, insert, delete, delete_if}
use laskah.Store.Model.{Time, minute}

pub data Role : Type 0 where
  super admin : Role
  other : Text → Role

pub record Session : Type 0 where
  pub user_id : Text
  pub user : Text
  pub role : Role
  pub csrf : Text
  pub created_at : Time
  pub expires_at : Time
  pub last_seen : Time

unfoldable pub is_super : Option Session → Bool
is_super none = false
is_super (some s) = elim s.role [ super ↦ true | _ ↦ false ]

pub record SessionStore : Type 0 where
  pub sessions : List (Text × Session)
  pub ttl : ℕ
  pub idle : ℕ
  pub max_count : ℕ

unfoldable pub new_session_store : ℕ → ℕ → SessionStore
new_session_store ttl idle = record {
  sessions = [];
  ttl = if ttl == 0 then 12 * (60 * minute) else ttl;
  idle = if idle == 0 then 2 * (60 * minute) else idle;
  max_count = 512;
}

-- `now.After(ExpiresAt) || now.Sub(LastSeen) > idle`.
unfoldable pub is_over : SessionStore → Time → Session → Bool
is_over s now x = ltb x.expires_at now || ltb (x.last_seen + s.idle) now

unfoldable pub prune_locked : SessionStore → Time → SessionStore
prune_locked s now = record s { sessions = delete_if (is_over s now) s.sessions }

-- The loop of `dropOldestLocked`: the digest found so far ("" at first) and when it was last seen.
unfoldable pub oldest_of : Text → Time → List (Text × Session) → Text
oldest_of digest oldest [] = digest
oldest_of digest oldest ((k, x) ∷ m) =
    let older = digest == codes "" || ltb x.last_seen oldest in
    oldest_of (if older then k else digest) (if older then x.last_seen else oldest) m

unfoldable pub drop_oldest : SessionStore → SessionStore
drop_oldest s =
    let digest = oldest_of (codes "") 0 s.sessions in
    if digest == codes "" then s else record s { sessions = delete digest s.sessions }

unfoldable pub make_room : SessionStore → SessionStore
make_room s = if leb s.max_count (length s.sessions) then drop_oldest s else s

unfoldable pub prune : SessionStore → Time → SessionStore
prune s now = prune_locked s now

unfoldable pub count : SessionStore → ℕ
count s = length s.sessions

unfoldable pub revoke_all : SessionStore → SessionStore
revoke_all s = record s { sessions = [] }

unfoldable pub revoke_user : SessionStore → Text → SessionStore
revoke_user s user_id =
    if user_id == codes ""
    then s
    else record s { sessions = delete_if (λ x. x.user_id == user_id) s.sessions }

module _ (hash : Text → Text) where
  unfoldable pub new_session : SessionStore → Text → Text → Role → Text → Time → Session
  new_session s user_id user role csrf now = record {
    user_id = user_id;
    user = user;
    role = role;
    csrf = csrf;
    created_at = now;
    expires_at = now + s.ttl;
    last_seen = now;
  }

  unfoldable pub issue :
      SessionStore
      → Text
      → Text
      → Role
      → Option Text
      → Option Text
      → Time
      → SessionStore × Option (Text × Session)
  issue s user_id user role none csrf now = (s, none)
  issue s user_id user role (some token) none now = (s, none)
  issue s user_id user role (some token) (some csrf) now =
      let x = new_session s user_id user role csrf now in
      let s' = make_room (prune_locked s now) in
      (record s' { sessions = insert (hash token) x s'.sessions }, some (token, x))

  unfoldable pub touch : SessionStore → Text → Time → Option Session → SessionStore × Option Session
  touch s digest now none = (s, none)
  touch s digest now (some x) =
      if is_over s now x then (record s { sessions = delete digest s.sessions }, none) else (
        record s { sessions = insert digest (record x { last_seen = now }) s.sessions },
        some (record x { last_seen = now }),
      )

  -- `Lookup`: a session is given as a copy, so the caller cannot change the stored one.
  unfoldable pub find_session : SessionStore → Text → Time → SessionStore × Option Session
  find_session s token now =
      if trim_space token == codes ""
      then (s, none)
      else touch s (hash token) now (lookup (hash token) s.sessions)

  unfoldable pub revoke : SessionStore → Text → SessionStore
  revoke s token =
      if token == codes "" then s else record s { sessions = delete (hash token) s.sessions }
