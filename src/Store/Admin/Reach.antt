-- ===== src/Store/Admin/Reach.antt =====
-- Every state of the administrators that the operations reach is sound.
use mathlib.Core.Option.{some-injective}
use laskah.Prelude.{ℕ, refl, sym, Bool, false, Option, none, List, [], arith, inl, nat_eq}
use laskah.Prelude.Text.{Text, codes, text_eq}
use laskah.Store.Model.{Time}
use laskah.Store.Data.{named_positions}
use laskah.Store.Admin.{
  Admins, create_super_admin, create_admin_user, set_admin_enabled, remove_admin_user, verify_admin,
  reset_admin_password_by_name, set_admin_password, reindex_admins,
}
use laskah.Store.Admin.Users.{IsSound}
use laskah.Store.Admin.Creation.{
  IsFresh, GivesDigests, build-IsBuilt, add_super-IsSound, add_admin-IsSound, set_enabled-IsSound,
}
use laskah.Store.Admin.Writes.{
  remove_admin_user-IsSound, verify_admin-IsSound, reset_password-IsSound, set_password-IsSound,
}

-- No administrators, as in a new data file; the index may have been made.
abbrev pub nobody : Option (List (Text × ℕ)) → Admins
nobody by_hash = record { users = []; setup = false; by_hash = by_hash }

module _ (hash_token : Text → Text) (hash_password : Text → Option Text)
    (verify_password : Text → Text → Bool) where
  -- One call, and the state that it leaves; a new user has an id that no user has.
  pub data Step (s : Admins) : Admins → Type 0 where
    sets_up :
        (username password id : Text) (now : Time) (saved : Bool)
        → IsFresh id s
        → Step s
            (create_super_admin hash_token hash_password verify_password s username password id now
              saved).0
    creates :
        (username password role note id : Text) (now : Time) (saved : Bool)
        → IsFresh id s
        → Step s
            (create_admin_user hash_token hash_password verify_password s username password role
              note id now saved).0
    enables :
        (id : Text) (enabled : Bool) (now : Time) (saved : Bool)
        → Step s
            (set_admin_enabled hash_token hash_password verify_password s id enabled now saved).0
    removes :
        (id : Text) (saved : Bool)
        → Step s (remove_admin_user hash_token hash_password verify_password s id saved).0
    verifies :
        (username password : Text) (now : Time)
        → Step s (verify_admin hash_token hash_password verify_password s username password now).0
    resets :
        (username password : Text) (now : Time) (saved : Bool)
        → Step s
            (reset_admin_password_by_name hash_token hash_password verify_password s username
              password now saved).0
    sets_password :
        (id password : Text) (now : Time) (saved : Bool)
        → Step s
            (set_admin_password hash_token hash_password verify_password s id password now saved).0

  pub data Reachable : Admins → Type 0 where
    start : Reachable (reindex_admins (nobody none))
    after : {s s' : Admins} → Reachable s → Step s s' → Reachable s'

  Step-IsSound :
      (s s' : Admins)
      → GivesDigests hash_token hash_password verify_password
      → Step s s'
      → IsSound s
      → IsSound s'
  unfolding create_super_admin create_admin_user
  Step-IsSound s s' g (sets_up username password id now saved fresh) v =
      add_super-IsSound hash_token hash_password verify_password s username id _ saved g fresh
        (build-IsBuilt hash_token hash_password verify_password username password (codes "super")
          (codes "初始超级管理员") id now)
        v
  Step-IsSound s s' g (creates username password role note id now saved fresh) v =
      add_admin-IsSound hash_token hash_password verify_password s username role id _ saved g fresh
        (build-IsBuilt hash_token hash_password verify_password username password role note id now)
        v
  Step-IsSound s s' g (enables id enabled now saved) v =
      set_enabled-IsSound hash_token hash_password verify_password s id enabled now saved v
  Step-IsSound s s' g (removes id saved) v =
      remove_admin_user-IsSound hash_token hash_password verify_password s id saved v
  Step-IsSound s s' g (verifies username password now) v =
      verify_admin-IsSound hash_token hash_password verify_password s username password now g v
  Step-IsSound s s' g (resets username password now saved) v =
      reset_password-IsSound hash_token hash_password verify_password s username password now saved
        g v
  Step-IsSound s s' g (sets_password id password now saved) v =
      set_password-IsSound hash_token hash_password verify_password s id password now saved v

  -- If digests are never empty, then in every state that set-up, creation, enabling, removal,
  -- login and new passwords reach from a new data file, whether or not the writes to disk
  -- succeed and if each new user gets an id that no user has, the ids and the digests of the
  -- users are distinct, no digest is empty, some user is a super administrator if there are
  -- users, no super administrator is disabled, there are at most 64 users, and the index is
  -- that of the digests.
  pub reachable-IsSound :
      (s : Admins) → GivesDigests hash_token hash_password verify_password → Reachable s → IsSound s
  unfolding reindex_admins named_positions
  reachable-IsSound s g start = record {
    ids_once = tt;
    hashes_once = tt;
    named = tt;
    supers = inl refl;
    awake = tt;
    bounded = omega arith;
    indexed = λ m e. sym (some-injective _ m e);
  }
  reachable-IsSound s g (after {s = t} r step) = Step-IsSound t s g step (reachable-IsSound t g r)
