-- ===== src/Store/Admin/Writes.antt =====
-- Removals, logins and new passwords keep the administrators sound.
use laskah.Prelude.{
  ◌≡◌, refl, sym, ◌∙◌, Bool, true, false, not, ◌&&◌, Option, none, some, arith, inl, inr,
  Bool-cases, ◌==◌, nat_eq, leb, if◌then◌else◌, any, In, All-In, find→In, In→any,
}
use laskah.Prelude.Text.{Text, codes, text_eq, trim_space}
use laskah.Store.Model.{Time}
use laskah.Store.Admin.{
  AdminUser, Admins, Result, err, is_super_admin, count_super_admins, find_admin_by_hash,
  find_admin_by_id, store_user, remove_admin, remove_admin_user, verify_admin, with_password,
  reset_admin_password_by_name, set_admin_password, persisted, long_enough, not_found, last_super,
  no_randomness,
}
use laskah.Store.Admin.Users.{IsSound, find_by_hash-scan, store_user-IsSound}
use laskah.Store.Admin.Changes.{remove_admin-IsSound}
use laskah.Store.Admin.Creation.{GivesDigests, found_by_id, first_of_id}

remove_admin_there :
    (s : Admins) (id : Text) → any (λ u. u.id == id) s.users ≡ true → (remove_admin s id).1 ≡ true
unfolding remove_admin
remove_admin_there s id h = rw h refl

-- A super administrator of a sound state is enabled.
awake_user :
    (s : Admins) (user : AdminUser)
    → IsSound s
    → In user s.users
    → (is_super_admin user && not user.enabled) ≡ false
awake_user s user v i =
    All-In (λ (u : AdminUser). (is_super_admin u && not u.enabled) ≡ false) s.users v.awake i

pub hash-In :
    (s : Admins) (digest : Text) (user : AdminUser)
    → IsSound s
    → (digest == codes "") ≡ false
    → find_admin_by_hash s digest ≡ some user
    → In user s.users
hash-In s digest user v n h =
    (find→In (λ (u : AdminUser). u.username_hash == digest) s.users
      (sym (find_by_hash-scan s digest v n) ∙ h)).0

-- A change of the fields that the state does not depend on.
touched-IsSound :
    (s : Admins) (user : AdminUser) (at : Option Time)
    → IsSound s
    → In user s.users
    → IsSound (store_user s (record user { last_login_at = at }))
unfolding is_super_admin
touched-IsSound s user at v i =
    store_user-IsSound s (record user { last_login_at = at }) user (first_of_id s user v i) refl
      refl refl (awake_user s user v i) v

password-IsSound :
    (s : Admins) (user : AdminUser) (hashed : Text) (now : Time)
    → IsSound s
    → In user s.users
    → IsSound (store_user s (with_password user hashed now))
unfolding is_super_admin with_password
password-IsSound s user hashed now v i =
    store_user-IsSound s (with_password user hashed now) user (first_of_id s user v i) refl refl
      refl (awake_user s user v i) v

reset-IsSound :
    (s : Admins) (user : AdminUser) (hashed : Text) (now : Time)
    → IsSound s
    → In user s.users
    → IsSound (store_user s (record (with_password user hashed now) { enabled = true }))
unfolding with_password
reset-IsSound s user hashed now v i =
    store_user-IsSound s (record (with_password user hashed now) { enabled = true }) user
      (first_of_id s user v i) refl refl refl (ground arith) v

module _ (hash_token : Text → Text) (hash_password : Text → Option Text)
    (verify_password : Text → Text → Bool) where
  pub remove_admin_user-IsSound :
      (s : Admins) (id : Text) (saved : Bool)
      → IsSound s
      → IsSound (remove_admin_user hash_token hash_password verify_password s id saved).0
  unfolding remove_admin_user
  remove_admin_user-IsSound s id saved v = found (find_admin_by_id s id) refl
    where
      found :
          (o : Option AdminUser)
          → find_admin_by_id s id ≡ o
          → IsSound
              (elim o as (λ _. Admins × Result Unit) [
                | none ↦ (s, err not_found)
                | some user ↦
                    if is_super_admin user && leb (count_super_admins s) 1
                    then (s, err last_super)
                    else if not (remove_admin s id).1
                    then ((remove_admin s id).0, err not_found)
                    else ((remove_admin s id).0, persisted saved tt)
              ]).0
      found none e = v
      found (some user) e =
          let (f, i) = found_by_id s id user e in
          let (j, q) = find→In (λ (u : AdminUser). u.id == id) s.users f in
          let there = In→any (λ (u : AdminUser). u.id == id) s.users j q in
          elim (Bool-cases (is_super_admin user && leb (count_super_admins s) 1)) [
            | inl b ↦ rw b v
            | inr b ↦
                rw (b, remove_admin_there s id there) (remove_admin-IsSound s id user f b there v)
          ]

  pub verify_admin-IsSound :
      (s : Admins) (username password : Text) (now : Time)
      → GivesDigests hash_token hash_password verify_password
      → IsSound s
      → IsSound (verify_admin hash_token hash_password verify_password s username password now).0
  unfolding verify_admin
  verify_admin-IsSound s username password now g v =
      found (find_admin_by_hash s (hash_token (trim_space username))) refl
    where
      found :
          (o : Option AdminUser)
          → find_admin_by_hash s (hash_token (trim_space username)) ≡ o
          → IsSound
              (elim o as (λ _. Admins × Option AdminUser) [
                | none ↦ (s, none)
                | some user ↦
                    if not user.enabled
                    then (s, none)
                    else if not (verify_password user.password (trim_space password))
                    then (s, none)
                    else (
                      store_user s (record user { last_login_at = some now }),
                      some (record user { last_login_at = some now }),
                    )
              ]).0
      found none e = v
      found (some user) e =
          let i = hash-In s (hash_token (trim_space username)) user v (g (trim_space username)) e in
          elim (Bool-cases (not user.enabled)) [
            | inl b ↦ rw b v
            | inr b ↦
                elim (Bool-cases (not (verify_password user.password (trim_space password)))) [
                  | inl c ↦ rw (b, c) v
                  | inr c ↦ rw (b, c) (touched-IsSound s user (some now) v i)
                ]
          ]

  pub reset_password-IsSound :
      (s : Admins) (username password : Text) (now : Time) (saved : Bool)
      → GivesDigests hash_token hash_password verify_password
      → IsSound s
      → IsSound
          (reset_admin_password_by_name hash_token hash_password verify_password s username password
            now saved).0
  unfolding reset_admin_password_by_name
  reset_password-IsSound s username password now saved g v =
      elim (Bool-cases (trim_space username == codes "")) [
        | inl b ↦ rw b v
        | inr b ↦ elim (Bool-cases (not (long_enough (trim_space password)))) [
          | inl c ↦ rw (b, c) v
          | inr c ↦ rw (b, c) (hashed (hash_password (trim_space password)))
        ]
      ]
    where
      changed : AdminUser → Text → AdminUser
      changed user h = record (with_password user h now) { enabled = true }

      digest : Text
      digest = hash_token (trim_space username)

      found :
          (h : Text) (o : Option AdminUser)
          → find_admin_by_hash s digest ≡ o
          → IsSound
              (elim o as (λ _. Admins × Result AdminUser) [
                | none ↦ (s, err not_found)
                | some user ↦ (store_user s (changed user h), persisted saved (changed user h))
              ]).0
      found h none e = v
      found h (some user) e =
          reset-IsSound s user h now v (hash-In s digest user v (g (trim_space username)) e)

      hashed :
          (o : Option Text)
          → IsSound
              (elim o as (λ _. Admins × Result AdminUser) [
                | none ↦ (s, err no_randomness)
                | some h ↦ elim (find_admin_by_hash s digest) as (λ _. Admins × Result AdminUser) [
                  | none ↦ (s, err not_found)
                  | some user ↦ (store_user s (changed user h), persisted saved (changed user h))
                ]
              ]).0
      hashed none = v
      hashed (some h) = found h (find_admin_by_hash s digest) refl

  pub set_password-IsSound :
      (s : Admins) (id password : Text) (now : Time) (saved : Bool)
      → IsSound s
      → IsSound
          (set_admin_password hash_token hash_password verify_password s id password now saved).0
  unfolding set_admin_password
  set_password-IsSound s id password now saved v =
      elim (Bool-cases (not (long_enough (trim_space password)))) [
        | inl c ↦ rw c v
        | inr c ↦ rw c (hashed (hash_password (trim_space password)))
      ]
    where
      found :
          (h : Text) (o : Option AdminUser)
          → find_admin_by_id s id ≡ o
          → IsSound
              (elim o as (λ _. Admins × Result Unit) [
                | none ↦ (s, err not_found)
                | some user ↦ (store_user s (with_password user h now), persisted saved tt)
              ]).0
      found h none e = v
      found h (some user) e =
          let (f, i) = found_by_id s id user e in
          password-IsSound s user h now v (find→In (λ (u : AdminUser). u.id == id) s.users f).0

      hashed :
          (o : Option Text)
          → IsSound
              (elim o as (λ _. Admins × Result Unit) [
                | none ↦ (s, err no_randomness)
                | some h ↦ elim (find_admin_by_id s id) as (λ _. Admins × Result Unit) [
                  | none ↦ (s, err not_found)
                  | some user ↦ (store_user s (with_password user h now), persisted saved tt)
                ]
              ]).0
      hashed none = v
      hashed (some h) = found h (find_admin_by_id s id) refl
