-- ===== src/Store/Remove/Links.antt =====
-- After any removals, what is left refers only to accounts and groups that are left.
use laskah.Prelude.{
  ◌-◌, ◌≤◌, ◌≡◌, refl, Bool, true, false, not, List, [], ◌∷◌, ◌++◌, map, arith, inl, inr, ◌⊎◌,
  Bool-cases, ◌==◌, nat_eq, ltb, length, length-drop, keep, count, any, any→In, In→any, keep-In,
  In-keep, In, All, All-In, All-intro, eq_of_beq,
}
use laskah.Prelude.Text.{Text, codes, text_eq, text_beq, trim_space}
use laskah.Store.Model.{Time, Provider, ApiKey, Group}
use laskah.Store.Account.{Account}
use laskah.Store.Data.{Data, RemovedAccount, reindex}
use laskah.Store.Remove.{
  is_wanted, none_wanted, removed_account, unbind, ungroup, keep_recent, remove_accounts,
  remove_providers, remove_keys,
}

-- An id that is empty or that one of the elements has.
abbrev pub Refers : {A : Type 0} → (A → Text) → List A → Text → Type 0
Refers key xs id = ((id == codes "") ≡ true) ⊎ (any (λ x. key x == id) xs ≡ true)

-- Every reference of the data is empty or to something that is there, and no account has a blank id.
pub record IsLinked {R : Type 0} (d : Data R) : Type 0 where
  pub named : All (λ (a : Account R). (trim_space a.id == codes "") ≡ false) d.accounts
  pub providers :
      All (λ (p : Provider R). Refers (λ (a : Account R). a.id) d.accounts p.account_id) d.providers
  pub keys : All (λ (k : ApiKey R). Refers (λ (a : Account R). a.id) d.accounts k.account_id) d.keys
  pub grouped : All (λ (a : Account R). Refers (λ (g : Group). g.id) d.groups a.group_id) d.accounts
  pub keys_grouped : All (λ (k : ApiKey R). Refers (λ (g : Group). g.id) d.groups k.group_id) d.keys
  pub recent : length d.removed_accounts ≤ 200

-- A reference that is not wanted stands after the wanted elements are gone.
pub Refers-keep :
    {A : Type 0} (key : A → Text) (ids : List Text) (xs : List A) (id : Text)
    → is_wanted ids id ≡ false
    → Refers key xs id
    → Refers key (keep (λ x. not (is_wanted ids (key x))) xs) id
Refers-keep key ids xs id n (inl e) = inl e
Refers-keep key ids xs id n (inr h) =
    let (x, i, e) = any→In (λ x. key x == id) xs h in
    let stays : not (is_wanted ids (key x)) ≡ true = rw (eq_of_beq (key x) id e, n) refl in
    inr (In→any (λ x. key x == id) _ (keep-In (λ x. not (is_wanted ids (key x))) xs i stays) e)

pub All-keep_old :
    {A : Type 0} (P : A → Type 0) (test : A → Bool) (xs : List A) → All P xs → All P (keep test xs)
All-keep_old P test xs h = All-intro P (keep test xs) (λ x i. All-In P xs h (In-keep test xs i).0)

pub All-mapped :
    {A : Type 0} (P Q : A → Type 0) (f : A → A) (xs : List A)
    → ((x : A) → P x → Q (f x))
    → All P xs
    → All Q (map f xs)
All-mapped P Q f [] h a = tt
All-mapped P Q f (x ∷ xs) h a = (h x a.0, All-mapped P Q f xs h a.1)

module _ {R : Type 0} where
  -- What a removal of accounts leaves, before the indexes are made again.
  abbrev without_accounts : Data R → List Text → Time → List (RemovedAccount R) → Data R
  without_accounts d ids now removed = record d {
    accounts = keep (λ a. not (is_wanted ids a.id)) d.accounts;
    providers = keep (λ p. not (is_wanted ids p.account_id)) d.providers;
    keys = map (unbind ids now) d.keys;
    removed_accounts = keep_recent (d.removed_accounts ++ removed);
  }

  length-keep_recent : (xs : List (RemovedAccount R)) → length (keep_recent xs) ≤ 200
  unfolding keep_recent
  length-keep_recent xs = elim (Bool-cases (ltb 200 (length xs))) [
    | inl e ↦ rw e (omega (arith, length-drop (length xs - 200) xs))
    | inr e ↦ rw e (ground (arith, e))
  ]

  kept_provider :
      (ids : List Text) (d : Data R)
      → IsLinked d
      → (p : Provider R) → In p (keep (λ p. not (is_wanted ids p.account_id)) d.providers)
      → Refers
          (λ (a : Account R). a.id)
          (keep (λ a. not (is_wanted ids a.id)) d.accounts)
          p.account_id
  kept_provider ids d v p i =
      let (j, n) = In-keep (λ (p : Provider R). not (is_wanted ids p.account_id)) d.providers i in
      Refers-keep (λ (a : Account R). a.id) ids d.accounts p.account_id (ground (arith, n))
        (All-In (λ (p : Provider R). Refers (λ (a : Account R). a.id) d.accounts p.account_id)
          d.providers v.providers j)

  unbound :
      (ids : List Text) (now : Time) (accounts : List (Account R)) (k : ApiKey R)
      → Refers (λ (a : Account R). a.id) accounts k.account_id
      → Refers
          (λ (a : Account R). a.id)
          (keep (λ a. not (is_wanted ids a.id)) accounts)
          (unbind ids now k).account_id
  unfolding unbind text_beq
  unbound ids now accounts k h = elim (Bool-cases (is_wanted ids k.account_id)) [
    | inl e ↦ rw e (inl refl)
    | inr e ↦ rw e (Refers-keep (λ (a : Account R). a.id) ids accounts k.account_id e h)
  ]

  pub ungrouped :
      (ids : List Text) (now : Time) (groups : List Group) (k : ApiKey R)
      → Refers (λ (g : Group). g.id) groups k.group_id
      → Refers
          (λ (g : Group). g.id)
          (keep (λ g. not (is_wanted ids g.id)) groups)
          (ungroup ids now k).group_id
  unfolding ungroup text_beq
  ungrouped ids now groups k h = elim (Bool-cases (is_wanted ids k.group_id)) [
    | inl e ↦ rw e (inl refl)
    | inr e ↦ rw e (Refers-keep (λ (g : Group). g.id) ids groups k.group_id e h)
  ]

  same_group :
      (ids : List Text) (now : Time) (groups : List Group) (k : ApiKey R)
      → Refers (λ (g : Group). g.id) groups k.group_id
      → Refers (λ (g : Group). g.id) groups (unbind ids now k).group_id
  unfolding unbind
  same_group ids now groups k h = elim (Bool-cases (is_wanted ids k.account_id)) [
    | inl e ↦ rw e h
    | inr e ↦ rw e h
  ]

  pub same_account :
      (ids : List Text) (now : Time) (accounts : List (Account R)) (k : ApiKey R)
      → Refers (λ (a : Account R). a.id) accounts k.account_id
      → Refers (λ (a : Account R). a.id) accounts (ungroup ids now k).account_id
  unfolding ungroup
  same_account ids now accounts k h = elim (Bool-cases (is_wanted ids k.group_id)) [
    | inl e ↦ rw e h
    | inr e ↦ rw e h
  ]

  without_accounts-IsLinked :
      (d : Data R) (ids : List Text) (now : Time) (removed : List (RemovedAccount R))
      → IsLinked d
      → IsLinked (without_accounts d ids now removed)
  without_accounts-IsLinked d ids now removed v = record {
    named = All-keep_old _ _ d.accounts v.named;
    providers = All-intro _ _ (kept_provider ids d v);
    keys = All-mapped _ _ (unbind ids now) d.keys (unbound ids now d.accounts) v.keys;
    grouped = All-keep_old _ _ d.accounts v.grouped;
    keys_grouped =
        All-mapped _ _ (unbind ids now) d.keys (same_group ids now d.groups) v.keys_grouped;
    recent = length-keep_recent (d.removed_accounts ++ removed);
  }

  pub reindex-IsLinked : (d : Data R) → IsLinked d → IsLinked (reindex d)
  unfolding reindex
  reindex-IsLinked d v = record {
    named = v.named;
    providers = v.providers;
    keys = v.keys;
    grouped = v.grouped;
    keys_grouped = v.keys_grouped;
    recent = v.recent;
  }

  pub remove_accounts-IsLinked :
      (d : Data R) (ids : List Text) (reason : Text) (now : Time)
      → IsLinked d
      → IsLinked (remove_accounts d ids reason now).0
  unfolding remove_accounts
  remove_accounts-IsLinked d ids reason now v = elim (Bool-cases (none_wanted ids)) [
    | inl e ↦ rw e v
    | inr e ↦
        let removed =
          map (removed_account d reason now) (keep (λ a. is_wanted ids a.id) d.accounts) in
        elim (Bool-cases (length removed == 0)) [
          | inl k ↦ rw (e, k) v
          | inr k ↦ rw (e, k) (reindex-IsLinked _ (without_accounts-IsLinked d ids now removed v))
        ]
  ]

  pub remove_providers-IsLinked :
      (d : Data R) (ids : List Text) → IsLinked d → IsLinked (remove_providers d ids).0
  unfolding remove_providers
  remove_providers-IsLinked d ids v = elim (Bool-cases (none_wanted ids)) [
    | inl e ↦ rw e v
    | inr e ↦ elim (Bool-cases (ltb 0 (count (λ p. is_wanted ids p.id) d.providers))) [
      | inl k ↦ rw (e, k) (reindex-IsLinked _ left)
      | inr k ↦ rw (e, k) left
    ]
  ]
    where
      left : IsLinked (record d { providers = keep (λ p. not (is_wanted ids p.id)) d.providers })
      left = record {
        named = v.named;
        providers = All-keep_old _ _ d.providers v.providers;
        keys = v.keys;
        grouped = v.grouped;
        keys_grouped = v.keys_grouped;
        recent = v.recent;
      }

  pub remove_keys-IsLinked :
      (d : Data R) (ids : List Text) → IsLinked d → IsLinked (remove_keys d ids).0
  unfolding remove_keys
  remove_keys-IsLinked d ids v = elim (Bool-cases (none_wanted ids)) [
    | inl e ↦ rw e v
    | inr e ↦ elim (Bool-cases (ltb 0 (count (λ k. is_wanted ids k.id) d.keys))) [
      | inl k ↦ rw (e, k) (reindex-IsLinked _ left)
      | inr k ↦ rw (e, k) left
    ]
  ]
    where
      left : IsLinked (record d { keys = keep (λ k. not (is_wanted ids k.id)) d.keys })
      left = record {
        named = v.named;
        providers = v.providers;
        keys = All-keep_old _ _ d.keys v.keys;
        grouped = v.grouped;
        keys_grouped = All-keep_old _ _ d.keys v.keys_grouped;
        recent = v.recent;
      }
