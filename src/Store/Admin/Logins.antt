-- ===== src/Store/Admin/Logins.antt =====
-- Who may log in, and that a reset password opens the account.
use mathlib.Core.Option.{some-injective}
use laskah.Prelude.{
  ◌≡◌, refl, sym, ◌∙◌, ap, subst, Bool, true, false, not, Option, none, some, List, [], ◌∷◌, arith,
  inl, inr, Bool-cases, ◌==◌, if◌then◌else◌, find, In, none-some, find→In, eq_of_beq,
}
use laskah.Prelude.Text.{Text, codes, text_eq, trim_space}
use laskah.Store.Model.{Time}
use laskah.Store.Admin.{
  AdminUser, Admins, find_admin_by_hash, put_user, store_user, verify_admin, with_password,
  reset_admin_password_by_name, long_enough,
}
use laskah.Store.Admin.Users.{IsSound, find_by_hash-scan, find_once, Column-OneEach}
use laskah.Store.Admin.Creation.{GivesDigests, first_of_id}
use laskah.Store.Admin.Writes.{reset_password-IsSound}

put_user-In :
    (u old : AdminUser) (users : List AdminUser)
    → find (λ v. v.id == u.id) users ≡ some old
    → In u (put_user u users)
unfolding put_user find
put_user-In u old [] h = absurd (none-some h)
put_user-In u old (x ∷ xs) h = elim (Bool-cases (x.id == u.id)) [
  | inl e ↦ rw e (inl refl)
  | inr e ↦ rw e (inr (put_user-In u old xs (rw e at h)))
]

module _ (hash_token : Text → Text) (hash_password : Text → Option Text)
    (verify_password : Text → Text → Bool) where
  -- A login that is let in.
  pub record IsLogin (s : Admins) (username password : Text) (now : Time) (seen : AdminUser)
      : Type 0 where
    pub user : AdminUser
    pub known : In user s.users
    pub named : user.username_hash ≡ hash_token (trim_space username)
    pub on : user.enabled ≡ true
    pub verified : verify_password user.password (trim_space password) ≡ true
    pub same : seen ≡ record user { last_login_at = some now }

  -- If digests are never empty and the administrators are sound, a login is let in only for a
  -- user who is there, has the digest of the trimmed name, is enabled, and whose stored
  -- password verifies the trimmed one; the copy given differs only in the time of the last
  -- login.
  pub verify_admin-IsLogin :
      (s : Admins) (username password : Text) (now : Time) (seen : AdminUser)
      → GivesDigests hash_token hash_password verify_password
      → IsSound s
      → (verify_admin hash_token hash_password verify_password s username password now).1
        ≡ some seen
      → IsLogin s username password now seen
  unfolding verify_admin
  verify_admin-IsLogin s username password now seen g v h =
      found (find_admin_by_hash s digest) refl h
    where
      digest : Text
      digest = hash_token (trim_space username)

      found :
          (o : Option AdminUser)
          → find_admin_by_hash s digest ≡ o
          → (elim o as (λ _. Admins × Option AdminUser) [
            | none ↦ (s, none)
            | some user ↦
                if not user.enabled
                then (s, none)
                else if not (verify_password user.password (trim_space password))
                then (s, none)
                else (
                  store_user s (record user { last_login_at = some now }),
                  some (record user { last_login_at = some now }),
                )
          ]).1
            ≡ some seen
          → IsLogin s username password now seen
      found none e k = absurd (none-some k)
      found (some user) e k =
          let scan = sym (find_by_hash-scan s digest v (g (trim_space username))) ∙ e in
          let (i, q) = find→In (λ (u : AdminUser). u.username_hash == digest) s.users scan in
          elim (Bool-cases (not user.enabled)) [
            | inl b ↦ absurd (none-some (rw b at k))
            | inr b ↦
                elim (Bool-cases (not (verify_password user.password (trim_space password)))) [
                  | inl c ↦ absurd (none-some (rw (b, c) at k))
                  | inr c ↦ record {
                    user = user;
                    known = i;
                    named = eq_of_beq user.username_hash digest q;
                    on = ground (arith, b);
                    verified = ground (arith, c);
                    same = sym (some-injective _ seen (rw (b, c) at k));
                  }
                ]
          ]

  verify_admin_there :
      (s : Admins) (username password : Text) (now : Time) (user : AdminUser)
      → find_admin_by_hash s (hash_token (trim_space username)) ≡ some user
      → user.enabled ≡ true
      → verify_password user.password (trim_space password) ≡ true
      → (verify_admin hash_token hash_password verify_password s username password now).1
        ≡ some (record user { last_login_at = some now })
  unfolding verify_admin
  verify_admin_there s username password now user f on ok =
      ap
        (λ (o : Option AdminUser).
          (elim o as (λ _. Admins × Option AdminUser) [
            | none ↦ (s, none)
            | some w ↦
                if not w.enabled
                then (s, none)
                else if not (verify_password w.password (trim_space password))
                then (s, none)
                else (
                  store_user s (record w { last_login_at = some now }),
                  some (record w { last_login_at = some now }),
                )
          ]).1)
        f
      ∙ passed user.enabled (verify_password user.password (trim_space password)) on ok
    where
      passed :
          (b c : Bool)
          → b ≡ true
          → c ≡ true
          → (let r : Admins × Option AdminUser =
                if not b then (s, none) else if not c then (s, none) else (
                  store_user s (record user { last_login_at = some now }),
                  some (record user { last_login_at = some now }),
                ) in
              r.1)
            ≡ some (record user { last_login_at = some now })
      passed b c p q = rw (p, q) refl

  -- The state and the user after a password was reset.
  reset_done :
      (s : Admins) (username password h : Text) (now : Time) (saved : Bool) (user : AdminUser)
      → (trim_space username == codes "") ≡ false
      → long_enough (trim_space password) ≡ true
      → hash_password (trim_space password) ≡ some h
      → find_admin_by_hash s (hash_token (trim_space username)) ≡ some user
      → (reset_admin_password_by_name hash_token hash_password verify_password s username password
          now saved).0
        ≡ store_user s (record (with_password user h now) { enabled = true })
  unfolding reset_admin_password_by_name
  reset_done s username password h now saved user b c e f = rw (b, c, e, f) refl

  -- If digests are never empty, the administrators are sound, the trimmed name is not empty and
  -- that of a user, and the trimmed password is long enough, gets a hash and verifies against
  -- it, then after the password is reset by name a login with it is let in at any time, whether
  -- or not the user was enabled and the write to disk succeeded.
  pub verify_admin-reset :
      (s : Admins) (username password h : Text) (now later : Time) (saved : Bool) (user : AdminUser)
      → GivesDigests hash_token hash_password verify_password
      → IsSound s
      → (trim_space username == codes "") ≡ false
      → long_enough (trim_space password) ≡ true
      → hash_password (trim_space password) ≡ some h
      → verify_password h (trim_space password) ≡ true
      → find_admin_by_hash s (hash_token (trim_space username)) ≡ some user
      → (verify_admin hash_token hash_password verify_password
          (reset_admin_password_by_name hash_token hash_password verify_password s username password
            now saved).0
          username
          password
          later).1
        ≡ some (record (with_password user h now) { enabled = true; last_login_at = some later })
  unfolding with_password store_user
  verify_admin-reset s username password h now later saved user g v b c e k f =
      rw (reset_done s username password h now saved user b c e f)
        (verify_admin_there (store_user s user') username password later user' there refl k)
    where
      digest : Text
      digest = hash_token (trim_space username)

      user' : AdminUser
      user' = record (with_password user h now) { enabled = true }

      sound : IsSound (store_user s user')
      sound = subst IsSound (reset_done s username password h now saved user b c e f) (
          reset_password-IsSound hash_token hash_password verify_password s username password now
            saved g v)

      there : find_admin_by_hash (store_user s user') digest ≡ some user'
      there =
          let (i, q) =
            find→In (λ (u : AdminUser). u.username_hash == digest) s.users
              (sym (find_by_hash-scan s digest v (g (trim_space username))) ∙ f) in
          let same : user'.username_hash ≡ digest = eq_of_beq user.username_hash digest q in
          let now_in = put_user-In user' user s.users (first_of_id s user v i) in
          let once =
            find_once (λ (u : AdminUser). u.username_hash) user' (put_user user' s.users)
              (Column-OneEach (λ (u : AdminUser). u.username_hash) (put_user user' s.users)
                sound.hashes_once)
              now_in in
          find_by_hash-scan (store_user s user') digest sound (g (trim_space username))
          ∙ subst
              (λ k.
                find (λ (u : AdminUser). u.username_hash == k) (put_user user' s.users)
                ≡ some user')
              same once
