-- ===== src/Store/Admin/Users.antt =====
-- The list of administrators: what a write, an addition and a removal do to its columns.
use mathlib.Core.Option.{some-injective}
use laskah.Prelude.{
  ℕ, suc, ◌≤◌, ◌<◌, ◌≡◌, refl, sym, ◌∙◌, ap, subst, Bool, true, false, not, ◌&&◌, Option, none,
  some, List, [], ◌∷◌, ◌++◌, map, inl, inr, ◌⊎◌, Bool-cases, ◌==◌, nat_eq, if◌then◌else◌, length,
  keep, find, count, In, All, All-In, beq_refl, none-some,
}
use laskah.Prelude.Text.{Text, codes, text_eq}
use laskah.Prelude.Maps.{lookup, insert, beq_swap}
use laskah.Store.Data.{named_positions, positions, at_index}
use laskah.Store.Data.Positions.{OneEach, positions_found, StandsAt-self}
use laskah.Store.Admin.{AdminUser, Admins, is_super_admin, find_admin_by_hash, put_user, store_user}

-- No two texts of a column are equal.
abbrev pub Column : List Text → Type 0
Column ks = OneEach (λ (k : Text). k) ks

module _ {A : Type 0} (key : A → Text) where
  pub from_map : (P : Text → Type 0) (xs : List A) → All P (map key xs) → All (λ x. P (key x)) xs
  from_map P [] h = tt
  from_map P (x ∷ xs) h = (h.0, from_map P xs h.1)

  pub to_map : (P : Text → Type 0) (xs : List A) → All (λ x. P (key x)) xs → All P (map key xs)
  to_map P [] h = tt
  to_map P (x ∷ xs) h = (h.0, to_map P xs h.1)

  pub Column-OneEach : (xs : List A) → Column (map key xs) → OneEach key xs
  Column-OneEach [] c = tt
  Column-OneEach (x ∷ xs) c = (from_map (λ k. (k == key x) ≡ false) xs c.0, Column-OneEach xs c.1)

  -- An element of a list with distinct keys is the first of its key.
  pub find_once :
      (x : A) (xs : List A) → OneEach key xs → In x xs → find (λ y. key y == key x) xs ≡ some x
  unfolding find
  find_once x [] c i = absurd i
  find_once x (y ∷ ys) c (inl q) =
      let e : (key y == key x) ≡ true = rw q (beq_refl (key y)) in rw e (ap some (sym q))
  find_once x (y ∷ ys) c (inr i) =
      let e : (key x == key y) ≡ false = All-In (λ z. (key z == key y) ≡ false) ys c.0 i in
      let n : (key y == key x) ≡ false = beq_swap (key y) (key x) ∙ e in rw n (find_once x ys c.1 i)

  pub All-map-keep :
      (P : Text → Type 0) (p : A → Bool) (xs : List A)
      → All P (map key xs)
      → All P (map key (keep p xs))
  unfolding keep
  All-map-keep P p [] h = tt
  All-map-keep P p (x ∷ xs) h = elim (Bool-cases (p x)) [
    | inl e ↦ rw e (h.0, All-map-keep P p xs h.1)
    | inr e ↦ rw e (All-map-keep P p xs h.1)
  ]

  pub Column-keep :
      (p : A → Bool) (xs : List A) → Column (map key xs) → Column (map key (keep p xs))
  unfolding keep
  Column-keep p [] c = tt
  Column-keep p (x ∷ xs) c = elim (Bool-cases (p x)) [
    | inl e ↦ rw e (All-map-keep (λ k. (k == key x) ≡ false) p xs c.0, Column-keep p xs c.1)
    | inr e ↦ rw e (Column-keep p xs c.1)
  ]

  pub Column-add :
      (x : A) (xs : List A)
      → Column (map key xs)
      → All (λ y. (key y == key x) ≡ false) xs
      → Column (map key (xs ++ x ∷ []))
  Column-add x [] c h = (tt, tt)
  Column-add x (y ∷ ys) c h = (All-add y ys c.0 h.0, Column-add x ys c.1 h.1)
    where
      All-add :
          (y : A) (ys : List A)
          → All (λ k. (k == key y) ≡ false) (map key ys)
          → (key y == key x) ≡ false
          → All (λ k. (k == key y) ≡ false) (map key (ys ++ x ∷ []))
      All-add y [] a n = (beq_swap (key x) (key y) ∙ n, tt)
      All-add y (z ∷ zs) a n = (a.0, All-add y zs a.1 n)

  -- The index made from the column.
  pub named_positions-map :
      (i : ℕ) (xs : List A) (m : List (Text × ℕ))
      → named_positions key i xs m ≡ named_positions (λ (k : Text). k) i (map key xs) m
  unfolding named_positions
  named_positions-map i [] m = refl
  named_positions-map i (x ∷ xs) m =
      named_positions-map (suc i) xs (if key x == codes "" then m else insert (key x) i m)

  named_positions-positions :
      (i : ℕ) (xs : List A) (m : List (Text × ℕ))
      → All (λ k. (k == codes "") ≡ false) (map key xs)
      → named_positions key i xs m ≡ positions key i xs m
  unfolding named_positions positions
  named_positions-positions i [] m h = refl
  named_positions-positions i (x ∷ xs) m h =
      rw (h.0) (named_positions-positions (suc i) xs (insert (key x) i m) h.1)

-- The columns of the users.
abbrev pub ids : Admins → List Text
ids s = map (λ (u : AdminUser). u.id) s.users

abbrev pub hashes : Admins → List Text
hashes s = map (λ (u : AdminUser). u.username_hash) s.users

abbrev pub roles : Admins → List Text
roles s = map (λ (u : AdminUser). u.role) s.users

-- Distinct ids and digests, a super administrator among any users, none of them disabled, and at most
-- 64 users; the index, if it has been made, is the one of the digests.
pub record IsSound (s : Admins) : Type 0 where
  pub ids_once : Column (ids s)
  pub hashes_once : Column (hashes s)
  pub named : All (λ k. (k == codes "") ≡ false) (hashes s)
  pub supers : ((length (roles s) == 0) ≡ true) ⊎ (0 < count (λ r. r == codes "super") (roles s))
  pub awake : All (λ u. (is_super_admin u && not u.enabled) ≡ false) s.users
  pub bounded : length (ids s) ≤ 64
  pub indexed :
      (m : List (Text × ℕ))
      → s.by_hash ≡ some m
      → m ≡ named_positions (λ (k : Text). k) 0 (hashes s) []

-- The index finds a user by the digest as the scan does.
pub find_by_hash-scan :
    (s : Admins) (digest : Text)
    → IsSound s
    → (digest == codes "") ≡ false
    → find_admin_by_hash s digest ≡ find (λ u. u.username_hash == digest) s.users
unfolding find_admin_by_hash lookup
find_by_hash-scan s digest v n = rw n (searched s.by_hash refl)
  where
    hash : AdminUser → Text
    hash u = u.username_hash

    searched :
        (o : Option (List (Text × ℕ)))
        → s.by_hash ≡ o
        → elim o [
          | some m ↦ at_index s.users digest m
          | none ↦ find (λ (u : AdminUser). u.username_hash == digest) s.users
        ]
          ≡ find (λ u. u.username_hash == digest) s.users
    searched none e = refl
    searched (some m) e =
        let made : m ≡ positions hash 0 s.users [] =
          v.indexed m e
          ∙ sym (named_positions-map hash 0 s.users [])
          ∙ named_positions-positions hash 0 s.users [] v.named in
        ap (at_index s.users digest) made
        ∙ positions_found hash digest 0 s.users s.users []
            (Column-OneEach hash s.users v.hashes_once) refl (StandsAt-self s.users)

-- A write to the user that is found by the id keeps each column that the write keeps.
pub map-put_user :
    {B : Type 0} (key : AdminUser → B) (u old : AdminUser) (users : List AdminUser)
    → find (λ v. v.id == u.id) users ≡ some old
    → key u ≡ key old
    → map key (put_user u users) ≡ map key users
unfolding put_user find
map-put_user key u old [] h e = absurd (none-some h)
map-put_user key u old (x ∷ xs) h e = elim (Bool-cases (x.id == u.id)) [
  | inl b ↦ rw b (ap (λ k. k ∷ map key xs) (e ∙ ap key (sym (some-injective x old (rw b at h)))))
  | inr b ↦ rw b (ap (◌∷◌ (key x)) (map-put_user key u old xs (rw b at h) e))
]

pub All-put_user :
    (P : AdminUser → Type 0) (u : AdminUser) (users : List AdminUser)
    → P u
    → All P users
    → All P (put_user u users)
unfolding put_user
All-put_user P u [] p h = tt
All-put_user P u (x ∷ xs) p h = elim (Bool-cases (x.id == u.id)) [
  | inl b ↦ rw b (p, h.1)
  | inr b ↦ rw b (h.0, All-put_user P u xs p h.1)
]

-- A write that changes neither the id, the digest nor the role, and disables no super administrator.
pub store_user-IsSound :
    (s : Admins) (u old : AdminUser)
    → find (λ v. v.id == u.id) s.users ≡ some old
    → u.id ≡ old.id
    → u.username_hash ≡ old.username_hash
    → u.role ≡ old.role
    → (is_super_admin u && not u.enabled) ≡ false
    → IsSound s
    → IsSound (store_user s u)
unfolding store_user
store_user-IsSound s u old f i h r a v =
    let same_ids = map-put_user (λ w. w.id) u old s.users f i in
    let same_hashes = map-put_user (λ w. w.username_hash) u old s.users f h in
    let same_roles = map-put_user (λ w. w.role) u old s.users f r in
    record {
      ids_once = subst Column (sym same_ids) v.ids_once;
      hashes_once = subst Column (sym same_hashes) v.hashes_once;
      named = subst (All (λ k. (k == codes "") ≡ false)) (sym same_hashes) v.named;
      supers =
          subst
            (λ (rs : List Text).
              ((length rs == 0) ≡ true) ⊎ (0 < count (λ r. r == codes "super") rs))
            (sym same_roles) v.supers;
      awake = All-put_user (λ u. (is_super_admin u && not u.enabled) ≡ false) u s.users a v.awake;
      bounded = subst (λ (ks : List Text). length ks ≤ 64) (sym same_ids) v.bounded;
      indexed = λ m e.
          v.indexed m e ∙ ap (λ ks. named_positions (λ (k : Text). k) 0 ks []) (sym same_hashes);
    }
