-- ===== src/Examples/Admins.antt =====
-- Examples for the administrators.
use laskah.Prelude.{
  ◌≡◌, refl, Bool, true, false, Option, none, some, [], ◌∷◌, arith, inr, ◌==◌, find, count,
  none-some,
}
use laskah.Prelude.Text.{Text, codes, text_eq, text_beq, trim_space, trim_left, is_space}
use laskah.Store.Admin.{
  AdminUser, Admins, find_admin_by_hash, create_super_admin, verify_admin,
  reset_admin_password_by_name, with_password, reindex_admins, long_enough, is_super_admin,
}
use laskah.Store.Admin.Users.{IsSound}
use laskah.Store.Admin.Creation.{GivesDigests}
use laskah.Store.Admin.Reach.{start, after, sets_up, nobody, reachable-IsSound}
use laskah.Store.Admin.Logins.{IsLogin, verify_admin-IsLogin, verify_admin-reset}

-- A digest is the text behind a letter, a stored password is the text itself.
abbrev digest : Text → Text
digest t = 104 ∷ t

abbrev stored : Text → Option Text
stored secret = some secret

abbrev verified : Text → Text → Bool
verified kept secret = kept == secret

digest-GivesDigests : GivesDigests digest stored verified
unfolding text_beq
digest-GivesDigests t = refl

abbrev one_user : AdminUser
one_user = record {
  id = codes "usr1";
  username = codes "root";
  username_hash = digest (codes "root");
  password = codes "secret-one";
  role = codes "super";
  enabled = true;
  note = [];
  created_at = 1;
  updated_at = 1;
  password_set_at = 1;
  last_login_at = none;
}

abbrev one_admin : Admins
one_admin = record { users = one_user ∷ []; setup = true; by_hash = none }

one_admin-IsSound : IsSound one_admin
unfolding text_beq count is_super_admin
one_admin-IsSound = record {
  ids_once = (tt, tt);
  hashes_once = (tt, tt);
  named = (refl, tt);
  supers = inr (omega arith);
  awake = (refl, tt);
  bounded = omega arith;
  indexed = λ m e. absurd (none-some e);
}

reachable-IsSound_example :
    IsSound
      (create_super_admin digest stored verified
        (reindex_admins (nobody none))
        (codes "root")
        (codes "secret-one")
        (codes "usr1")
        5
        true).0
unfolding reindex_admins
reachable-IsSound_example =
    reachable-IsSound digest stored verified
      (create_super_admin digest stored verified (reindex_admins (nobody none)) (codes "root")
        (codes "secret-one") (codes "usr1") 5 true).0
      digest-GivesDigests
      (after start (sets_up (codes "root") (codes "secret-one") (codes "usr1") 5 true tt))

logged_in :
    (verify_admin digest stored verified one_admin (codes " root") (codes "secret-one") 9).1
    ≡ some (record one_user { last_login_at = some 9 })
unfolding verify_admin find_admin_by_hash find text_beq trim_space trim_left is_space
logged_in = refl

verify_admin-IsLogin_example :
    IsLogin digest stored verified one_admin
      (codes " root")
      (codes "secret-one")
      9
      (record one_user { last_login_at = some 9 })
verify_admin-IsLogin_example =
    verify_admin-IsLogin digest stored verified one_admin (codes " root") (codes "secret-one") 9
      (record one_user { last_login_at = some 9 }) digest-GivesDigests one_admin-IsSound logged_in

a_name : (trim_space (codes "root") == codes "") ≡ false
unfolding text_beq trim_space trim_left is_space
a_name = refl

a_password : long_enough (trim_space (codes "secret-two")) ≡ true
unfolding long_enough trim_space trim_left is_space
a_password = refl

hashed : stored (trim_space (codes "secret-two")) ≡ some (codes "secret-two")
unfolding trim_space trim_left is_space
hashed = refl

matches : verified (codes "secret-two") (trim_space (codes "secret-two")) ≡ true
unfolding text_beq trim_space trim_left is_space
matches = refl

found : find_admin_by_hash one_admin (digest (trim_space (codes "root"))) ≡ some one_user
unfolding find_admin_by_hash find text_beq trim_space trim_left is_space
found = refl

verify_admin-reset_example :
    (verify_admin digest stored verified
      (reset_admin_password_by_name digest stored verified one_admin
        (codes "root")
        (codes "secret-two")
        5
        false).0
      (codes "root")
      (codes "secret-two")
      7).1
    ≡ some (record (with_password one_user (codes "secret-two") 5) {
      enabled = true;
      last_login_at = some 7;
    })
verify_admin-reset_example =
    verify_admin-reset digest stored verified one_admin (codes "root") (codes "secret-two")
      (codes "secret-two") 5 7 false one_user digest-GivesDigests one_admin-IsSound a_name
      a_password hashed matches found
