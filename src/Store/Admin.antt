-- ===== src/Store/Admin.antt =====
-- internal/store/admin.go and store.go: the administrators. `HashToken`, `HashPassword` and
-- `VerifyPassword` are parameters, as are the new id, the clock and whether the data could be written
-- to disk; `HashPassword` fails where the source of randomness does.
pub mod Users
pub mod Changes
pub mod Creation
pub mod Writes
pub mod Reach
pub mod Logins
use laskah.Prelude.{
  ℕ, suc, ◌+◌, Bool, true, false, not, ◌&&◌, ◌||◌, Option, none, some, List, [], ◌∷◌, ◌++◌, ◌==◌,
  nat_eq, ltb, leb, if◌then◌else◌, length, keep, find, count, any,
}
use laskah.Prelude.Text.{Text, codes, text_eq, trim_space}
use laskah.Store.Model.{Time}
use laskah.Store.Data.{named_positions, at_index}

pub record AdminUser : Type 0 where
  pub id : Text
  pub username : Text
  pub username_hash : Text
  pub password : Text
  pub role : Text
  pub enabled : Bool
  pub note : Text
  pub created_at : Time
  pub updated_at : Time
  pub password_set_at : Time
  pub last_login_at : Option Time

-- The administrators' part of `Config`, with the index by the digest of the name.
pub record Admins : Type 0 where
  pub users : List AdminUser
  pub setup : Bool
  pub by_hash : Option (List (Text × ℕ))

pub data AdminError : Type 0 where
  invalid setup_done not_setup too_many name_taken not_found super_disabled last_super : AdminError
  not_saved no_name too_short no_randomness : AdminError

pub data Result (A : Type 0) : Type 0 where
  ok : A → Result A
  err : AdminError → Result A

unfoldable pub valid_role : Text → Bool
valid_role value = trim_space value == codes "super" || trim_space value == codes "admin"

unfoldable pub is_super_admin : AdminUser → Bool
is_super_admin u = u.role == codes "super"

unfoldable pub valid_name : Text → Bool
valid_name name = not (name == codes "") && leb 3 (length name) && leb (length name) 48

unfoldable pub long_enough : Text → Bool
long_enough secret = leb 8 (length secret)

unfoldable pub find_admin_by_hash : Admins → Text → Option AdminUser
find_admin_by_hash s digest = if digest == codes "" then none else elim s.by_hash [
  | some m ↦ at_index s.users digest m
  | none ↦ find (λ u. u.username_hash == digest) s.users
]

unfoldable pub find_admin_by_id : Admins → Text → Option AdminUser
find_admin_by_id s id = if id == codes "" then none else find (λ u. u.id == id) s.users

unfoldable pub super_admin : Admins → Option AdminUser
super_admin s = find is_super_admin s.users

unfoldable pub count_super_admins : Admins → ℕ
count_super_admins s = count is_super_admin s.users

unfoldable pub reindex_admins : Admins → Admins
reindex_admins s = record s { by_hash = some (named_positions (λ u. u.username_hash) 0 s.users []) }

unfoldable pub remove_admin : Admins → Text → Admins × Bool
remove_admin s id =
    let s' = record s { users = keep (λ u. not (u.id == id)) s.users } in
    if any (λ u. u.id == id) s.users then (reindex_admins s', true) else (s', false)

unfoldable pub needs_setup : Admins → Bool
needs_setup s = length s.users == 0

-- A write through the pointer of a user that was found.
unfoldable pub put_user : AdminUser → List AdminUser → List AdminUser
put_user u [] = []
put_user u (v ∷ vs) = if v.id == u.id then u ∷ vs else v ∷ put_user u vs

unfoldable pub store_user : Admins → AdminUser → Admins
store_user s u = record s { users = put_user u s.users }

unfoldable pub add_user : Admins → AdminUser → Admins
add_user s u = reindex_admins (record s { users = s.users ++ u ∷ [] })

-- The result of an operation that ends with `persistLocked`.
unfoldable pub persisted : {A : Type 0} → Bool → A → Result A
persisted true a = ok a
persisted false a = err not_saved

-- The user with a new password.
unfoldable pub with_password : AdminUser → Text → Time → AdminUser
with_password user hashed now = record user {
  password = hashed;
  password_set_at = now;
  updated_at = now;
}

module _ (hash_token : Text → Text) (hash_password : Text → Option Text)
    (verify_password : Text → Text → Bool) where
  unfoldable pub build_admin_user : Text → Text → Text → Text → Text → Time → Result AdminUser
  build_admin_user username password role note id now =
      let name = trim_space username in
      let secret = trim_space password in
      if not (valid_name name && long_enough secret && valid_role role)
      then err invalid
      else elim (hash_password secret) [
        | none ↦ err invalid
        | some hashed ↦ ok (record {
          id = id;
          username = name;
          username_hash = hash_token name;
          password = hashed;
          role = role;
          enabled = true;
          note = trim_space note;
          created_at = now;
          updated_at = now;
          password_set_at = now;
          last_login_at = none;
        })
      ]

  unfoldable pub add_super : Admins → Result AdminUser → Bool → Admins × Result AdminUser
  add_super s (err e) saved = (s, err e)
  add_super s (ok user) saved =
      if not (needs_setup s)
      then (s, err setup_done)
      else (record (add_user s user) { setup = true }, persisted saved user)

  unfoldable pub create_super_admin :
      Admins → Text → Text → Text → Time → Bool → Admins × Result AdminUser
  create_super_admin s username password id now saved =
      add_super s (build_admin_user username password (codes "super") (codes "初始超级管理员") id now)
        saved

  unfoldable pub add_admin : Admins → Result AdminUser → Bool → Admins × Result AdminUser
  add_admin s (err e) saved = (s, err e)
  add_admin s (ok user) saved =
      if needs_setup s
      then (s, err not_setup)
      else if leb 64 (length s.users)
      then (s, err too_many)
      else elim (find_admin_by_hash s user.username_hash) [
        | some u ↦ (s, err name_taken)
        | none ↦ (add_user s user, persisted saved user)
      ]

  unfoldable pub create_admin_user :
      Admins → Text → Text → Text → Text → Text → Time → Bool → Admins × Result AdminUser
  create_admin_user s username password role note id now saved =
      add_admin s (build_admin_user username password role note id now) saved

  unfoldable pub set_admin_enabled : Admins → Text → Bool → Time → Bool → Admins × Result Unit
  set_admin_enabled s id enabled now saved = elim (find_admin_by_id s id) [
    | none ↦ (s, err not_found)
    | some user ↦ if is_super_admin user && not enabled then (s, err super_disabled) else (
      store_user s (record user { enabled = enabled; updated_at = now }),
      persisted saved tt,
    )
  ]

  unfoldable pub remove_admin_user : Admins → Text → Bool → Admins × Result Unit
  remove_admin_user s id saved = elim (find_admin_by_id s id) [
    | none ↦ (s, err not_found)
    | some user ↦
        let (s', removed) = remove_admin s id in
        if is_super_admin user && leb (count_super_admins s) 1
        then (s, err last_super)
        else if not removed
        then (s', err not_found)
        else (s', persisted saved tt)
  ]

  unfoldable pub verify_admin : Admins → Text → Text → Time → Admins × Option AdminUser
  verify_admin s username password now =
      elim (find_admin_by_hash s (hash_token (trim_space username))) [
        | none ↦ (s, none)
        | some user ↦
            let seen = record user { last_login_at = some now } in
            if not user.enabled
            then (s, none)
            else if not (verify_password user.password (trim_space password))
            then (s, none)
            else (store_user s seen, some seen)
      ]

  unfoldable pub reset_admin_password_by_name :
      Admins → Text → Text → Time → Bool → Admins × Result AdminUser
  reset_admin_password_by_name s username password now saved =
      let name = trim_space username in
      let secret = trim_space password in
      if name == codes ""
      then (s, err no_name)
      else if not (long_enough secret)
      then (s, err too_short)
      else elim (hash_password secret) [
        | none ↦ (s, err no_randomness)
        | some hashed ↦ elim (find_admin_by_hash s (hash_token name)) [
          | none ↦ (s, err not_found)
          | some user ↦
              let user' = record (with_password user hashed now) { enabled = true } in
              (store_user s user', persisted saved user')
        ]
      ]

  unfoldable pub set_admin_password : Admins → Text → Text → Time → Bool → Admins × Result Unit
  set_admin_password s id password now saved =
      let secret = trim_space password in
      if not (long_enough secret) then (s, err too_short) else elim (hash_password secret) [
        | none ↦ (s, err no_randomness)
        | some hashed ↦ elim (find_admin_by_id s id) [
          | none ↦ (s, err not_found)
          | some user ↦ (store_user s (with_password user hashed now), persisted saved tt)
        ]
      ]
