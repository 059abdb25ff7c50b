-- ===== src/Store/Admin/Changes.antt =====
-- The addition and the removal of an administrator keep the administrators sound.
use mathlib.Core.Option.{some-injective}
use laskah.Prelude.{
  ℕ, suc, ◌+◌, ◌≤◌, ◌<◌, ◌≡◌, refl, sym, ◌∙◌, ap, subst, Bool, true, false, not, ◌&&◌, some, List,
  [], ◌∷◌, ◌++◌, map, arith, inl, inr, ◌⊎◌, Bool-cases, ◌==◌, nat_eq, leb, if◌then◌else◌, length,
  keep, find, count, any, In, All, All-In, All-intro, All-map, All-append, keep-All, length-append,
  length-keep-le, eq_of_beq, none-some, find→In, In-keep, In-positive,
}
use laskah.Prelude.Text.{Text, codes, text_eq}
use laskah.Store.Admin.{
  AdminUser, Admins, is_super_admin, count_super_admins, reindex_admins, add_user, remove_admin,
}
use laskah.Store.Admin.Users.{
  Column, IsSound, roles, Column-add, Column-keep, All-map-keep, from_map, to_map,
  named_positions-map,
}

length-map : {A B : Type 0} (f : A → B) (xs : List A) → length (map f xs) ≡ length xs
length-map f [] = refl
length-map f (x ∷ xs) = ap suc (length-map f xs)

count-roles :
    (xs : List AdminUser)
    → count (λ r. r == codes "super") (map (λ (u : AdminUser). u.role) xs) ≡ count is_super_admin xs
unfolding count is_super_admin
count-roles [] = refl
count-roles (x ∷ xs) = elim (Bool-cases (x.role == codes "super")) [
  | inl e ↦ rw e (ap suc (count-roles xs))
  | inr e ↦ rw e (count-roles xs)
]

count-add :
    (xs : List AdminUser) (u : AdminUser)
    → count is_super_admin (xs ++ u ∷ [])
      ≡ count is_super_admin xs + (if is_super_admin u then 1 else 0)
unfolding count
count-add [] u = ground arith
count-add (x ∷ xs) u = ground (arith, count-add xs u)

-- Where there are users, one is a super administrator.
pub some_super :
    (s : Admins) → IsSound s → (length s.users == 0) ≡ false → 0 < count is_super_admin s.users
some_super s v e = from v.supers
  where
    from :
        ((length (roles s) == 0) ≡ true) ⊎ (0 < count (λ r. r == codes "super") (roles s))
        → 0 < count is_super_admin s.users
    from (inl k) = absurd (ground (arith, k, e, length-map (λ (w : AdminUser). w.role) s.users))
    from (inr h) = ground (arith, h, count-roles s.users)

-- Removing a user by the id takes one super administrator away if the user is one, and none else.
count-remove :
    (id : Text) (xs : List AdminUser) (user : AdminUser)
    → Column (map (λ (u : AdminUser). u.id) xs)
    → find (λ u. u.id == id) xs ≡ some user
    → count is_super_admin (keep (λ u. not (u.id == id)) xs)
        + (if is_super_admin user then 1 else 0)
      ≡ count is_super_admin xs
unfolding count keep find
count-remove id [] user c f = absurd (none-some f)
count-remove id (x ∷ xs) user c f = elim (Bool-cases (x.id == id)) [
  | inl e ↦
      let same : x ≡ user = some-injective x user (rw e at f) in
      let others : All (λ (u : AdminUser). not (u.id == id) ≡ true) xs =
        All-map (λ (u : AdminUser). (u.id == x.id) ≡ false) _ xs
          (λ u h. let k : (u.id == id) ≡ false = rw (← eq_of_beq x.id id e) h in rw k refl)
          (from_map (λ (u : AdminUser). u.id) (λ k. (k == x.id) ≡ false) xs c.0) in
      rw (e, keep-All (λ (u : AdminUser). not (u.id == id)) xs others, ← same)
        (counted (is_super_admin x) (count is_super_admin xs))
  | inr e ↦
      let rest = count-remove id xs user c.1 (rw e at f) in
      rw e (behind (is_super_admin x) _ _ _ rest)
]
  where
    counted : (b : Bool) (n : ℕ) → n + (if b then 1 else 0) ≡ (if b then suc n else n)
    counted b n = ground arith

    behind :
        (b : Bool) (k n m : ℕ) → k + n ≡ m → (if b then suc k else k) + n ≡ (if b then suc m else m)
    behind b k n m h = ground (arith, h)

-- A new, enabled user with a fresh id and a fresh digest that is not empty, where there is room, and a
-- super administrator is there or is the new one.
pub add_user-IsSound :
    (s : Admins) (u : AdminUser)
    → All (λ w. (w.id == u.id) ≡ false) s.users
    → All (λ w. (w.username_hash == u.username_hash) ≡ false) s.users
    → (u.username_hash == codes "") ≡ false
    → length s.users < 64
    → u.enabled ≡ true
    → 0 < count is_super_admin s.users + (if is_super_admin u then 1 else 0)
    → IsSound s
    → IsSound (add_user s u)
unfolding add_user reindex_admins
add_user-IsSound s u fresh_id fresh_hash n room on super v = record {
  ids_once = Column-add (λ (w : AdminUser). w.id) u s.users v.ids_once fresh_id;
  hashes_once = Column-add (λ (w : AdminUser). w.username_hash) u s.users v.hashes_once fresh_hash;
  named =
      to_map (λ (w : AdminUser). w.username_hash) (λ k. (k == codes "") ≡ false) (s.users ++ u ∷ [])
        (All-append _ s.users (u ∷ [])
          (from_map (λ (w : AdminUser). w.username_hash) (λ k. (k == codes "") ≡ false) s.users
            v.named)
          (n, tt));
  supers = inr (rw (count-roles (s.users ++ u ∷ []), count-add s.users u) super);
  awake = All-append _ s.users (u ∷ []) v.awake (ground (arith, on), tt);
  bounded =
      rw (length-map (λ (w : AdminUser). w.id) (s.users ++ u ∷ []), length-append s.users (u ∷ []))
        (omega (arith, room));
  indexed = λ m e.
      sym (some-injective _ m e)
      ∙ named_positions-map (λ (w : AdminUser). w.username_hash) 0 (s.users ++ u ∷ []) [];
}

-- A user that is found by the id, and that is not the last super administrator, is removed.
pub remove_admin-IsSound :
    (s : Admins) (id : Text) (user : AdminUser)
    → find (λ u. u.id == id) s.users ≡ some user
    → (is_super_admin user && leb (count_super_admins s) 1) ≡ false
    → any (λ u. u.id == id) s.users ≡ true
    → IsSound s
    → IsSound (remove_admin s id).0
unfolding remove_admin reindex_admins count_super_admins
remove_admin-IsSound s id user f last there v =
    let kept = keep (λ (u : AdminUser). not (u.id == id)) s.users in
    let left = count-remove id s.users user v.ids_once f in
    rw there (record {
      ids_once = Column-keep (λ (w : AdminUser). w.id) (λ u. not (u.id == id)) s.users v.ids_once;
      hashes_once =
          Column-keep (λ (w : AdminUser). w.username_hash) (λ u. not (u.id == id)) s.users
            v.hashes_once;
      named =
          All-map-keep (λ (w : AdminUser). w.username_hash) _ (λ u. not (u.id == id)) s.users
            v.named;
      supers = inr (rw (count-roles kept) (some_left v.supers left));
      awake =
          All-intro _ kept
            (λ u i. All-In _ s.users v.awake (In-keep (λ u. not (u.id == id)) s.users i).0);
      bounded = rw (length-map (λ (w : AdminUser). w.id) kept) (
          let before : length s.users ≤ 64 =
            subst (λ n. n ≤ 64) (length-map (λ (w : AdminUser). w.id) s.users) v.bounded in
          omega (arith, before, length-keep-le (λ u. not (u.id == id)) s.users));
      indexed = λ m e.
          sym (some-injective _ m e)
          ∙ named_positions-map (λ (w : AdminUser). w.username_hash) 0 kept [];
    })
  where
    some_left :
        ((length (roles s) == 0) ≡ true) ⊎ (0 < count (λ r. r == codes "super") (roles s))
        → count is_super_admin (keep (λ u. not (u.id == id)) s.users)
            + (if is_super_admin user then 1 else 0)
          ≡ count is_super_admin s.users
        → 0 < count is_super_admin (keep (λ u. not (u.id == id)) s.users)
    some_left (inl e) left = absurd (
        let i : In user s.users = (find→In (λ (u : AdminUser). u.id == id) s.users f).0 in
        ground
          (arith, In-positive user s.users i, length-map (λ (w : AdminUser). w.role) s.users, e))
    some_left (inr h) left = ground (arith, left, last, h, count-roles s.users)
