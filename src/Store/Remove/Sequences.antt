-- ===== src/Store/Remove/Sequences.antt =====
-- The removal of groups, and any sequence of removals.
use laskah.Prelude.{
  true-false, ◌≡◌, refl, sym, ◌∙◌, ap, subst, true, false, not, ◌&&◌, List, [], ◌∷◌, map, arith,
  inl, inr, Bool-cases, ◌==◌, nat_eq, length, keep, any, In→any, keep-In, In-keep, In, All-In,
  All-intro, beq_refl,
}
use laskah.Prelude.Text.{Text, codes, text_eq, trim_space}
use laskah.Store.Model.{Time, Group}
use laskah.Store.Account.{Account}
use laskah.Store.Data.{Data, reindex}
use laskah.Store.Remove.{
  is_wanted, none_wanted, removed_account, ungroup, remove_accounts, remove_groups,
  remove_providers, remove_keys,
}
use laskah.Store.Remove.Links.{
  Refers, IsLinked, Refers-keep, All-mapped, ungrouped, same_account, reindex-IsLinked,
  remove_accounts-IsLinked, remove_providers-IsLinked, remove_keys-IsLinked,
}

In-map : {A B : Type 0} (f : A → B) (a : A) (xs : List A) → In a xs → In (f a) (map f xs)
In-map f a [] i = absurd i
In-map f a (x ∷ xs) (inl q) = inl (ap f q)
In-map f a (x ∷ xs) (inr i) = inr (In-map f a xs i)

empty_map : {A B : Type 0} (f : A → B) (xs : List A) → (length (map f xs) == 0) ≡ true → xs ≡ []
empty_map f [] h = refl
empty_map f (x ∷ xs) h = absurd (ground (arith, h))

-- A wanted id that is not blank is in the set, so the set is not empty.
wanted_some : (ids : List Text) (id : Text) → none_wanted ids ≡ true → is_wanted ids id ≡ false
unfolding none_wanted is_wanted any
wanted_some [] id h = refl
wanted_some (w ∷ ids) id h = ground (arith, wanted_some ids id, h)

listed_wanted :
    (ids : List Text) (id : Text)
    → In id ids
    → (trim_space id == codes "") ≡ false
    → is_wanted ids id ≡ true
unfolding is_wanted
listed_wanted ids id i n =
    In→any (λ w. not (trim_space w == codes "") && w == id) ids i (rw (n, beq_refl id) refl)

module _ {R : Type 0} where
  -- No account of a wanted id is left.
  remove_accounts-gone :
      (d : Data R) (ids : List Text) (reason : Text) (now : Time) (a : Account R)
      → In a (remove_accounts d ids reason now).0.accounts
      → In a d.accounts × (is_wanted ids a.id ≡ false)
  unfolding remove_accounts reindex
  remove_accounts-gone d ids reason now a i = elim (Bool-cases (none_wanted ids)) [
    | inl e ↦ (rw e at i, wanted_some ids a.id e)
    | inr e ↦
        let gone = keep (λ (a : Account R). is_wanted ids a.id) d.accounts in
        elim (Bool-cases (length (map (removed_account d reason now) gone) == 0)) [
          | inl k ↦
              let j : In a d.accounts = rw (e, k) at i in
              (j, not_gone j (empty_map (removed_account d reason now) gone k))
          | inr k ↦
              let (j, n) =
                In-keep (λ (a : Account R). not (is_wanted ids a.id)) d.accounts (rw (e, k) at i) in
              (j, ground (arith, n))
        ]
  ]
    where
      not_gone :
          In a d.accounts
          → keep (λ (a : Account R). is_wanted ids a.id) d.accounts ≡ []
          → is_wanted ids a.id ≡ false
      not_gone j q = elim (Bool-cases (is_wanted ids a.id)) [
        | inr b ↦ b
        | inl b ↦
            absurd (subst (In a) q (keep-In (λ (a : Account R). is_wanted ids a.id) d.accounts j b))
      ]

  remove_accounts-groups :
      (d : Data R) (ids : List Text) (reason : Text) (now : Time)
      → (remove_accounts d ids reason now).0.groups ≡ d.groups
  unfolding remove_accounts reindex
  remove_accounts-groups d ids reason now = ground arith

  remove_groups-IsLinked :
      (d : Data R) (ids : List Text) (now : Time)
      → IsLinked d
      → IsLinked (remove_groups d ids now).0
  unfolding remove_groups
  remove_groups-IsLinked d ids now v = elim (Bool-cases (none_wanted ids)) [
    | inl e ↦ rw e v
    | inr e ↦ rw e (reindex-IsLinked _ left)
  ]
    where
      account_ids : List Text
      account_ids = map (λ (a : Account R). a.id) (keep (λ a. is_wanted ids a.group_id) d.accounts)

      d' : Data R
      d' = (remove_accounts d account_ids (codes "所属分组已删除") now).0

      v' : IsLinked d'
      v' = remove_accounts-IsLinked d account_ids (codes "所属分组已删除") now v

      -- The accounts of a wanted group are gone.
      stays : (a : Account R) → In a d'.accounts → is_wanted ids a.group_id ≡ false
      stays a i =
          let (j, n) = remove_accounts-gone d account_ids (codes "所属分组已删除") now a i in
          elim (Bool-cases (is_wanted ids a.group_id)) [
            | inr b ↦ b
            | inl b ↦
                let listed =
                  In-map (λ (a : Account R). a.id) a _
                    (keep-In (λ (a : Account R). is_wanted ids a.group_id) d.accounts j b) in
                let named =
                  All-In (λ (a : Account R). (trim_space a.id == codes "") ≡ false) d.accounts
                    v.named j in
                absurd (true-false (sym (listed_wanted account_ids a.id listed named) ∙ n))
          ]

      left : IsLinked (record d' {
        groups = keep (λ g. not (is_wanted ids g.id)) d'.groups;
        keys = map (ungroup ids now) d'.keys;
      })
      left = record {
        named = v'.named;
        providers = v'.providers;
        keys = All-mapped _ _ (ungroup ids now) d'.keys (same_account ids now d'.accounts) v'.keys;
        grouped = All-intro _ d'.accounts (λ a i.
            Refers-keep (λ (g : Group). g.id) ids d'.groups a.group_id (stays a i)
              (All-In (λ (a : Account R). Refers (λ (g : Group). g.id) d'.groups a.group_id)
                d'.accounts v'.grouped i));
        keys_grouped =
            All-mapped _ _ (ungroup ids now) d'.keys (ungrouped ids now d'.groups) v'.keys_grouped;
        recent = v'.recent;
      }

-- One removal by the administration pages.
pub data Removal : Type 0 where
  accounts_of : List Text → Text → Time → Removal
  groups_of : List Text → Time → Removal
  providers_of : List Text → Removal
  keys_of : List Text → Removal

module _ {R : Type 0} where
  unfoldable pub remove_all : Data R → List Removal → Data R
  remove_all d [] = d
  remove_all d (accounts_of ids reason now ∷ rs) =
      remove_all (remove_accounts d ids reason now).0 rs
  remove_all d (groups_of ids now ∷ rs) = remove_all (remove_groups d ids now).0 rs
  remove_all d (providers_of ids ∷ rs) = remove_all (remove_providers d ids).0 rs
  remove_all d (keys_of ids ∷ rs) = remove_all (remove_keys d ids).0 rs

  -- If every account id, group id and owner that the data refers to is empty or there, no
  -- account has a blank id, and the history holds at most 200 removed accounts, then this is so
  -- after any sequence of removals of accounts, groups, providers and keys.
  pub remove_all-IsLinked :
      (d : Data R) (rs : List Removal) → IsLinked d → IsLinked (remove_all d rs)
  unfolding remove_all
  remove_all-IsLinked d [] v = v
  remove_all-IsLinked d (accounts_of ids reason now ∷ rs) v =
      remove_all-IsLinked (remove_accounts d ids reason now).0 rs
        (remove_accounts-IsLinked d ids reason now v)
  remove_all-IsLinked d (groups_of ids now ∷ rs) v =
      remove_all-IsLinked (remove_groups d ids now).0 rs (remove_groups-IsLinked d ids now v)
  remove_all-IsLinked d (providers_of ids ∷ rs) v =
      remove_all-IsLinked (remove_providers d ids).0 rs (remove_providers-IsLinked d ids v)
  remove_all-IsLinked d (keys_of ids ∷ rs) v =
      remove_all-IsLinked (remove_keys d ids).0 rs (remove_keys-IsLinked d ids v)
