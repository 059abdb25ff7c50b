-- ===== src/Store/Admin/Creation.antt =====
-- Creating and enabling administrators keeps them sound.
use laskah.Prelude.{
  ◌≡◌, refl, sym, ◌∙◌, subst, Bool, true, false, not, ◌&&◌, Option, none, some, List, [], ◌∷◌,
  arith, inl, inr, Bool-cases, ◌==◌, nat_eq, leb, if◌then◌else◌, length, find, In, All, eq_of_beq,
  beq_refl, none-some, find→In,
}
use laskah.Prelude.Text.{Text, codes, text_eq, trim_space}
use laskah.Store.Model.{Time}
use laskah.Store.Admin.{
  AdminUser, Admins, Result, ok, err, invalid, name_taken, not_found, super_disabled, persisted,
  valid_name, long_enough, valid_role, is_super_admin, find_admin_by_hash, find_admin_by_id,
  add_user, store_user, needs_setup, build_admin_user, add_super, add_admin, set_admin_enabled,
}
use laskah.Store.Admin.Users.{
  IsSound, find_once, Column-OneEach, find_by_hash-scan, store_user-IsSound,
}
use laskah.Store.Admin.Changes.{add_user-IsSound, some_super}

abbrev pub IsFresh : Text → Admins → Type 0
IsFresh id s = All (λ (w : AdminUser). (w.id == id) ≡ false) s.users

-- What a valid input builds.
abbrev pub IsBuilt : (Text → Text) → Text → Text → Text → Result AdminUser → Type 0
IsBuilt hash_token username role id (err e) = Unit
IsBuilt hash_token username role id (ok u) =
    (u.id ≡ id)
    × (u.enabled ≡ true)
    × (u.username_hash ≡ hash_token (trim_space username))
    × (u.role ≡ role)

find-none :
    (test : AdminUser → Bool) (xs : List AdminUser)
    → find test xs ≡ none
    → All (λ u. test u ≡ false) xs
unfolding find
find-none test [] h = tt
find-none test (x ∷ xs) h = elim (Bool-cases (test x)) [
  | inl e ↦ absurd (none-some (sym (rw e at h)))
  | inr e ↦ (e, find-none test xs (rw e at h))
]

pub found_by_id :
    (s : Admins) (id : Text) (user : AdminUser)
    → find_admin_by_id s id ≡ some user
    → (find (λ u. u.id == id) s.users ≡ some user) × (user.id ≡ id)
unfolding find_admin_by_id
found_by_id s id user h = elim (Bool-cases (id == codes "")) [
  | inl e ↦ absurd (none-some (rw e at h))
  | inr e ↦
      let f : find (λ (u : AdminUser). u.id == id) s.users ≡ some user = rw e at h in
      (f, eq_of_beq user.id id (find→In (λ (u : AdminUser). u.id == id) s.users f).1)
]

pub same_super :
    (user : AdminUser) (enabled : Bool) (now : Time)
    → (is_super_admin user && not enabled) ≡ false
    → (is_super_admin (record user { enabled = enabled; updated_at = now }) && not enabled) ≡ false
unfolding is_super_admin
same_super user enabled now h = h

super_role : (u : AdminUser) → u.role ≡ codes "super" → is_super_admin u ≡ true
unfolding is_super_admin
super_role u r = rw r (beq_refl (codes "super"))

-- A user that is in the list is the first of its id.
pub first_of_id :
    (s : Admins) (user : AdminUser)
    → IsSound s
    → In user s.users
    → find (λ u. u.id == user.id) s.users ≡ some user
first_of_id s user v i =
    find_once (λ (u : AdminUser). u.id) user s.users
      (Column-OneEach (λ (u : AdminUser). u.id) s.users v.ids_once) i

module _ (hash_token : Text → Text) (hash_password : Text → Option Text)
    (verify_password : Text → Text → Bool) where
  pub build-IsBuilt :
      (username password role note id : Text) (now : Time)
      → IsBuilt hash_token username role id (
          build_admin_user hash_token hash_password verify_password username password role note id
            now)
  unfolding build_admin_user
  build-IsBuilt username password role note id now =
      elim (Bool-cases (
        not (
          valid_name (trim_space username)
          && long_enough (trim_space password)
          && valid_role role))) [
            | inl e ↦ rw e tt
            | inr e ↦ rw e (hashed (hash_password (trim_space password)))
          ]
    where
      hashed :
          (o : Option Text)
          → IsBuilt hash_token username role id (elim o [
            | none ↦ err invalid
            | some h ↦ ok (record {
              id = id;
              username = trim_space username;
              username_hash = hash_token (trim_space username);
              password = h;
              role = role;
              enabled = true;
              note = trim_space note;
              created_at = now;
              updated_at = now;
              password_set_at = now;
              last_login_at = none;
            })
          ])
      hashed none = tt
      hashed (some h) = (refl, refl, refl, refl)

  -- Digests are never empty.
  abbrev pub GivesDigests : Type 0
  GivesDigests = (t : Text) → (hash_token t == codes "") ≡ false

  pub add_super-IsSound :
      (s : Admins) (username id : Text) (r : Result AdminUser) (saved : Bool)
      → GivesDigests
      → IsFresh id s
      → IsBuilt hash_token username (codes "super") id r
      → IsSound s
      → IsSound (add_super hash_token hash_password verify_password s r saved).0
  unfolding add_super needs_setup
  add_super-IsSound s username id (err e) saved g fresh b v = v
  add_super-IsSound s username id (ok u) saved g fresh (i, on, h, r) v =
      elim (Bool-cases (length s.users == 0)) [
        | inr e ↦ rw e v
        | inl e ↦ rw e (
            same_setup (add_user s u) (
              add_user-IsSound s u
                (subst (λ k. All (λ (w : AdminUser). (w.id == k) ≡ false) s.users) (sym i) fresh)
                (empty s.users e) (rw h (g (trim_space username))) (ground (arith, e)) on
                (rw (super_role u r) (omega arith)) v))
      ]
    where
      empty :
          (xs : List AdminUser)
          → (length xs == 0) ≡ true
          → All (λ w. (w.username_hash == u.username_hash) ≡ false) xs
      empty [] e = tt
      empty (x ∷ xs) e = absurd (ground (arith, e))

      same_setup : (t : Admins) → IsSound t → IsSound (record t { setup = true })
      same_setup t w = record {
        ids_once = w.ids_once;
        hashes_once = w.hashes_once;
        named = w.named;
        supers = w.supers;
        awake = w.awake;
        bounded = w.bounded;
        indexed = w.indexed;
      }

  pub add_admin-IsSound :
      (s : Admins) (username role id : Text) (r : Result AdminUser) (saved : Bool)
      → GivesDigests
      → IsFresh id s
      → IsBuilt hash_token username role id r
      → IsSound s
      → IsSound (add_admin hash_token hash_password verify_password s r saved).0
  unfolding add_admin needs_setup
  add_admin-IsSound s username role id (err e) saved g fresh b v = v
  add_admin-IsSound s username role id (ok u) saved g fresh (i, on, h, r) v =
      elim (Bool-cases (length s.users == 0)) [
        | inl e ↦ rw e v
        | inr e ↦ elim (Bool-cases (leb 64 (length s.users))) [
          | inl full ↦ rw (e, full) v
          | inr room ↦ rw (e, room) (taken (find_admin_by_hash s u.username_hash) refl e room)
        ]
      ]
    where
      taken :
          (o : Option AdminUser)
          → find_admin_by_hash s u.username_hash ≡ o
          → (length s.users == 0) ≡ false
          → leb 64 (length s.users) ≡ false
          → IsSound
              (elim o as (λ _. Admins × Result AdminUser) [
                | some w ↦ (s, err name_taken)
                | none ↦ (add_user s u, persisted saved u)
              ]).0
      taken (some w) f e room = v
      taken none f e room =
          let n : (u.username_hash == codes "") ≡ false = rw h (g (trim_space username)) in
          let scan = find_by_hash-scan s u.username_hash v n in
          add_user-IsSound s u
            (subst (λ k. All (λ (w : AdminUser). (w.id == k) ≡ false) s.users) (sym i) fresh)
            (find-none (λ w. w.username_hash == u.username_hash) s.users (sym scan ∙ f)) n
            (ground (arith, room)) on (let some_one = some_super s v e in ground (arith, some_one))
            v

  pub set_enabled-IsSound :
      (s : Admins) (id : Text) (enabled : Bool) (now : Time) (saved : Bool)
      → IsSound s
      → IsSound
          (set_admin_enabled hash_token hash_password verify_password s id enabled now saved).0
  unfolding set_admin_enabled
  set_enabled-IsSound s id enabled now saved v = found (find_admin_by_id s id) refl
    where
      found :
          (o : Option AdminUser)
          → find_admin_by_id s id ≡ o
          → IsSound
              (elim o as (λ _. Admins × Result Unit) [
                | none ↦ (s, err not_found)
                | some user ↦
                    if is_super_admin user && not enabled then (s, err super_disabled) else (
                      store_user s (record user { enabled = enabled; updated_at = now }),
                      persisted saved tt,
                    )
              ]).0
      found none e = v
      found (some user) e = elim (Bool-cases (is_super_admin user && not enabled)) [
        | inl b ↦ rw b v
        | inr b ↦
            let (f, i) = found_by_id s id user e in
            let u = record user { enabled = enabled; updated_at = now } in
            rw b (
              store_user-IsSound s u user
                (subst (λ k. find (λ (w : AdminUser). w.id == k) s.users ≡ some user) (sym i) f)
                refl refl refl (same_super user enabled now b) v)
      ]
