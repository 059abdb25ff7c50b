-- ===== src/Sessions/Access.antt =====
-- Which calls give a session, and to whom: a token opens the session that was issued with it until it
-- is over or revoked, and nothing else.
use laskah.Prelude.{
  none-some, ◌+◌, ◌≤◌, ◌<◌, ◌⊎◌, true, ◌≡◌, refl, sym, ◌∙◌, subst, Bool, false, Option, none, some,
  List, arith, inl, inr, Bool-cases, ◌==◌, beq_refl, eq_of_beq, if◌then◌else◌,
}
use laskah.Prelude.Text.{Text, codes, text_eq, text_beq, trim_space}
use laskah.Prelude.Maps.{
  lookup, insert, delete, delete_if, Distinct, lookup-insert_self, lookup-delete, lookup-delete_if,
}
use mathlib.Core.Option.{some-injective}
use laskah.Store.Model.{Time}
use laskah.Sessions.{
  Session, SessionStore, Role, is_over, prune_locked, drop_oldest, make_room, issue, touch,
  find_session, revoke, revoke_user, new_session,
}

some_inj : {x y : Session} → some x ≡ some y → x ≡ y
some_inj {x} {y} h = some-injective x y h

find_nothing :
    (hash : Text → Text) (s : SessionStore) (token : Text) (now : Time)
    → lookup (hash token) s.sessions ≡ none
    → (find_session hash s token now).1 ≡ none
unfolding find_session touch
find_nothing hash s token now e = elim (Bool-cases (trim_space token == codes "")) [
  | inl b ↦ rw b refl
  | inr b ↦ rw (b, e) refl
]

find_there :
    (hash : Text → Text) (s : SessionStore) (token : Text) (now : Time) (x : Session)
    → (trim_space token == codes "") ≡ false
    → lookup (hash token) s.sessions ≡ some x
    → is_over s now x ≡ false
    → (find_session hash s token now).1 ≡ some (record x { last_seen = now })
unfolding find_session touch
find_there hash s token now x b e live = rw (b, e, live) refl

find_over :
    (hash : Text → Text) (s : SessionStore) (token : Text) (now : Time) (x : Session)
    → lookup (hash token) s.sessions ≡ some x
    → is_over s now x ≡ true
    → (find_session hash s token now).1 ≡ none
unfolding find_session touch
find_over hash s token now x e over = elim (Bool-cases (trim_space token == codes "")) [
  | inl b ↦ rw b refl
  | inr b ↦ rw (b, e, over) refl
]

-- What a call that finds a session leaves behind.
abbrev used : (Text → Text) → SessionStore → Text → Time → Session → SessionStore
used hash s token now x = record s {
  sessions = insert (hash token) (record x { last_seen = now }) s.sessions;
}

find_session-used :
    (hash : Text → Text) (s : SessionStore) (token : Text) (now : Time) (x : Session)
    → (trim_space token == codes "") ≡ false
    → lookup (hash token) s.sessions ≡ some x
    → is_over s now x ≡ false
    → (find_session hash s token now).0 ≡ used hash s token now x
unfolding find_session touch
find_session-used hash s token now x b e live = rw (b, e, live) refl

-- What a call found: a stored session that is not over, with only its last use changed.
pub record IsFound (hash : Text → Text) (s : SessionStore) (token : Text) (now : Time) (y : Session)
    : Type 0 where
  pub stored : Session
  pub was_there : lookup (hash token) s.sessions ≡ some stored
  pub live : is_over s now stored ≡ false
  pub same : y ≡ record stored { last_seen = now }

-- The session that `touch` gives, whichever entry it was given.
touch-stored :
    (hash : Text → Text) (s : SessionStore) (k : Text) (now : Time) (found : Option Session)
    (y : Session)
    → (touch hash s k now found).1 ≡ some y
    → (x : Session) × (found ≡ some x)
      × (is_over s now x ≡ false)
      × (y ≡ record x { last_seen = now })
unfolding touch
touch-stored hash s k now none y h = absurd (none-some h)
touch-stored hash s k now (some x) y h = elim (Bool-cases (is_over s now x)) [
  | inl over ↦ absurd (none-some (rw over at h))
  | inr live ↦ (x, refl, live, sym (some_inj (rw live at h)))
]

-- If a token gives a session, one is stored under the token's digest that is not over at that
-- time, and the one given differs from it only in the time it was last seen.
pub find_session-IsFound :
    (hash : Text → Text) (s : SessionStore) (token : Text) (now : Time) (y : Session)
    → (find_session hash s token now).1 ≡ some y
    → IsFound hash s token now y
unfolding find_session
find_session-IsFound hash s token now y h = elim (Bool-cases (trim_space token == codes "")) [
  | inl b ↦ absurd (none-some (rw b at h))
  | inr b ↦
      let (x, e, live, q) =
        touch-stored hash s (hash token) now (lookup (hash token) s.sessions) y (rw b at h) in
      record { stored = x; was_there = e; live = live; same = q }
]

find_blank :
    (hash : Text → Text) (s : SessionStore) (token : Text) (now : Time)
    → (trim_space token == codes "") ≡ true
    → (find_session hash s token now).1 ≡ none
unfolding find_session
find_blank hash s token now b = rw b refl

in_time :
    (s : SessionStore) (now : Time) (x : Session)
    → now ≤ x.expires_at
    → now ≤ x.last_seen + s.idle
    → is_over s now x ≡ false
unfolding is_over
in_time s now x t i = ground arith

past :
    (s : SessionStore) (now : Time) (x : Session)
    → (x.expires_at < now) ⊎ (x.last_seen + s.idle < now)
    → is_over s now x ≡ true
unfolding is_over
past s now x over = ground arith

-- A token that gave a session gives it again in the next call exactly until it is past the
-- lifetime, which does not move, or past the idle limit since the call before: within both the
-- second call gives the session with only its last use changed, and past either it gives
-- nothing.
pub find_session-again :
    (hash : Text → Text) (s : SessionStore) (token : Text) (now later : Time) (y : Session)
    → (find_session hash s token now).1 ≡ some y
    → (later ≤ y.expires_at
        → later ≤ now + s.idle
        → (find_session hash (find_session hash s token now).0 token later).1
          ≡ some (record y { last_seen = later }))
      × ((y.expires_at < later) ⊎ (now + s.idle < later)
          → (find_session hash (find_session hash s token now).0 token later).1 ≡ none)
find_session-again hash s token now later y h = elim (Bool-cases (trim_space token == codes "")) [
  | inl b ↦ absurd (none-some (sym (find_blank hash s token now b) ∙ h))
  | inr b ↦
      let found = find_session-IsFound hash s token now y h in
      let x = found.stored in
      let z = record x { last_seen = now } in
      let state = find_session-used hash s token now x b found.was_there found.live in
      let there = lookup-insert_self (hash token) z s.sessions in
      rw (state, found.same)
        (
          λ t i.
              find_there hash (used hash s token now x) token later z b there
                (in_time (used hash s token now x) later z t i),
          λ over.
              find_over hash (used hash s token now x) token later z there
                (past (used hash s token now x) later z over),
        )
]

make_room-idle : (s : SessionStore) → (make_room s).idle ≡ s.idle
unfolding make_room drop_oldest
make_room-idle s = ground arith

-- A session that is issued with a token that is not blank is found under that token, with its
-- user, role and secret, at any time that is neither past its lifetime nor past the idle limit
-- since its issue.
pub find_session-issue :
    (hash : Text → Text) (s : SessionStore) (user_id user : Text) (role : Role) (token csrf : Text)
    (now later : Time)
    → (trim_space token == codes "") ≡ false
    → later ≤ now + s.ttl
    → later ≤ now + s.idle
    → (find_session hash
        (issue hash s user_id user role (some token) (some csrf) now).0
        token
        later).1
      ≡ some (record (new_session hash s user_id user role csrf now) { last_seen = later })
unfolding issue is_over new_session prune_locked
find_session-issue hash s user_id user role token csrf now later b t i =
    let s' = make_room (prune_locked s now) in
    let x = new_session hash s user_id user role csrf now in
    let same : s'.idle ≡ s.idle = make_room-idle (prune_locked s now) in
    find_there hash (record s' { sessions = insert (hash token) x s'.sessions }) token later x b
      (lookup-insert_self (hash token) x s'.sessions) (rw same (ground (arith, t, i)))

revoked_finds_none :
    (hash : Text → Text) (s : SessionStore) (token : Text) (now : Time)
    → (find_session hash (revoke hash s token) token now).1 ≡ none
unfolding revoke find_session trim_space text_beq
revoked_finds_none hash s token now = elim (Bool-cases (token == codes "")) [
  | inl b ↦ rw (eq_of_beq token (codes "") b) refl
  | inr b ↦ rw b (
      find_nothing hash (record s { sessions = delete (hash token) s.sessions }) token now
        (lookup-delete (hash token) (hash token) s.sessions ∙ rw (beq_refl (hash token)) refl))
]

touch-same :
    (hash : Text → Text) (s : SessionStore) (m : List (Text × Session)) (k : Text) (now : Time)
    (found : Option Session)
    → (touch hash (record s { sessions = m }) k now found).1 ≡ (touch hash s k now found).1
unfolding touch is_over
touch-same hash s m k now none = refl
touch-same hash s m k now (some x) = elim (Bool-cases (is_over s now x)) [
  | inl b ↦ rw b refl
  | inr b ↦ rw b refl
]

find_session-same :
    (hash : Text → Text) (s : SessionStore) (m : List (Text × Session)) (token : Text) (now : Time)
    → lookup (hash token) m ≡ lookup (hash token) s.sessions
    → (find_session hash (record s { sessions = m }) token now).1
      ≡ (find_session hash s token now).1
unfolding find_session
find_session-same hash s m token now e = elim (Bool-cases (trim_space token == codes "")) [
  | inl b ↦ rw b refl
  | inr b ↦ rw (b, e) (touch-same hash s m (hash token) now (lookup (hash token) s.sessions))
]

-- After a token is revoked it gives no session, and a token with another digest gives what it
-- gave before.
pub find_session-revoke :
    (hash : Text → Text) (s : SessionStore) (token kept : Text) (now : Time)
    → (hash token == hash kept) ≡ false
    → ((find_session hash (revoke hash s token) token now).1 ≡ none)
      × ((find_session hash (revoke hash s token) kept now).1 ≡ (find_session hash s kept now).1)
unfolding revoke
find_session-revoke hash s token kept now ne = (
  revoked_finds_none hash s token now,
  elim (Bool-cases (token == codes "")) [
    | inl b ↦ rw b refl
    | inr b ↦ rw b (
        find_session-same hash s (delete (hash token) s.sessions) kept now
          (lookup-delete (hash token) (hash kept) s.sessions ∙ rw ne refl))
  ],
)

not_dropped :
    (p : Session → Bool) (o : Option Session) (x : Session)
    → elim o [ none ↦ none | some v ↦ if p v then none else some v ] ≡ some x
    → p x ≡ false
not_dropped p none x h = absurd (none-some h)
not_dropped p (some v) x h = elim (Bool-cases (p v)) [
  | inl b ↦ absurd (none-some (rw b at h))
  | inr b ↦ rw (← some_inj {x = v} {y = x} (rw b at h)) b
]

revoked :
    (s : SessionStore) (user_id : Text)
    → (user_id == codes "") ≡ false
    → (revoke_user s user_id).sessions
      ≡ delete_if (λ (x : Session). x.user_id == user_id) s.sessions
unfolding revoke_user
revoked s user_id ne = rw ne refl

-- If the digests of the table are distinct and the sessions of a user with an id that is not
-- empty are revoked, any session that a token still gives belongs to another user.
pub find_session-revoke_user :
    (hash : Text → Text) (s : SessionStore) (user_id token : Text) (now : Time) (y : Session)
    → Distinct s.sessions
    → (user_id == codes "") ≡ false
    → (find_session hash (revoke_user s user_id) token now).1 ≡ some y
    → (y.user_id == user_id) ≡ false
unfolding revoke_user
find_session-revoke_user hash s user_id token now y d ne h =
    let found = find_session-IsFound hash (revoke_user s user_id) token now y h in
    let p : Session → Bool = λ x. x.user_id == user_id in
    let there : lookup (hash token) (delete_if p s.sessions) ≡ some found.stored =
      subst (λ m. lookup (hash token) m ≡ some found.stored) (revoked s user_id ne)
        found.was_there in
    let split = lookup-delete_if (hash token) p s.sessions d in
    rw (found.same)
      (not_dropped p (lookup (hash token) s.sessions) found.stored (sym split ∙ there))
