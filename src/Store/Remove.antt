-- ===== src/Store/Remove.antt =====
-- internal/store/account.go and store.go: the removal of accounts, groups, upstream APIs and keys, and
-- the suspension of several accounts.
pub mod Links
pub mod Sequences
use laskah.Prelude.{
  ℕ, ◌-◌, Bool, true, false, not, ◌&&◌, ◌||◌, Option, none, some, List, [], ◌∷◌, ◌++◌, map, ◌==◌,
  nat_eq, ltb, if◌then◌else◌, length, drop, keep, count, any,
}
use laskah.Prelude.Text.{Text, codes, text_eq, trim_space}
use laskah.Store.Model.{Time, Provider, ApiKey, Group}
use laskah.Store.Account.{Account, suspend}
use laskah.Store.Data.{Data, RemovedAccount, reindex, find_account, count_account_keys}

-- The set `wanted`: the ids that are not blank.
unfoldable pub is_wanted : List Text → Text → Bool
is_wanted ids id = any (λ w. not (trim_space w == codes "") && w == id) ids

unfoldable pub none_wanted : List Text → Bool
none_wanted ids = not (any (λ w. not (trim_space w == codes "")) ids)

module _ {R : Type 0} where
  unfoldable pub removed_account : Data R → Text → Time → Account R → RemovedAccount R
  removed_account d reason now a = record {
    id = a.id;
    group_id = a.group_id;
    name = a.name;
    site_url = a.site_url;
    reason = reason;
    balance = a.balance;
    used_amount = a.used_amount;
    tokens = a.stats.total_tokens;
    keys = count_account_keys d a.id;
    removed_at = now;
  }

  unfoldable pub unbind : List Text → Time → ApiKey R → ApiKey R
  unbind ids now k =
      if is_wanted ids k.account_id then record k { account_id = codes ""; updated_at = now } else k

  -- The last 200 entries.
  unfoldable pub keep_recent : List (RemovedAccount R) → List (RemovedAccount R)
  keep_recent xs = if ltb 200 (length xs) then drop (length xs - 200) xs else xs

  unfoldable pub remove_accounts :
      Data R → List Text → Text → Time → Data R × List (RemovedAccount R)
  remove_accounts d ids reason now =
      let gone = keep (λ a. is_wanted ids a.id) d.accounts in
      let removed = map (removed_account d reason now) gone in
      if none_wanted ids then (d, []) else if length removed == 0 then (d, []) else (
        reindex (record d {
          accounts = keep (λ a. not (is_wanted ids a.id)) d.accounts;
          providers = keep (λ p. not (is_wanted ids p.account_id)) d.providers;
          keys = map (unbind ids now) d.keys;
          removed_accounts = keep_recent (d.removed_accounts ++ removed);
        }),
        removed,
      )

  unfoldable pub ungroup : List Text → Time → ApiKey R → ApiKey R
  ungroup ids now k =
      if is_wanted ids k.group_id then record k { group_id = codes ""; updated_at = now } else k

  unfoldable pub remove_groups : Data R → List Text → Time → Data R × ℕ
  remove_groups d ids now =
      let account_ids =
        map (λ (a : Account R). a.id) (keep (λ a. is_wanted ids a.group_id) d.accounts) in
      let (d', gone) = remove_accounts d account_ids (codes "所属分组已删除") now in
      if none_wanted ids then (d, 0) else (
        reindex (record d' {
          groups = keep (λ g. not (is_wanted ids g.id)) d'.groups;
          keys = map (ungroup ids now) d'.keys;
        }),
        count (λ g. is_wanted ids g.id) d'.groups,
      )

  unfoldable pub remove_providers : Data R → List Text → Data R × ℕ
  remove_providers d ids =
      let removed = count (λ p. is_wanted ids p.id) d.providers in
      let d' = record d { providers = keep (λ p. not (is_wanted ids p.id)) d.providers } in
      if none_wanted ids then (d, 0) else (if ltb 0 removed then reindex d' else d', removed)

  unfoldable pub remove_keys : Data R → List Text → Data R × ℕ
  remove_keys d ids =
      let removed = count (λ k. is_wanted ids k.id) d.keys in
      let d' = record d { keys = keep (λ k. not (is_wanted ids k.id)) d.keys } in
      if none_wanted ids then (d, 0) else (if ltb 0 removed then reindex d' else d', removed)

  -- A write through the pointer that `FindAccount` gives.
  unfoldable pub put_account : Account R → List (Account R) → List (Account R)
  put_account a [] = []
  put_account a (b ∷ bs) = if b.id == a.id then a ∷ bs else b ∷ put_account a bs

  unfoldable pub suspend_found : Data R → Option (Account R) → Text → Time → Data R × List Text
  suspend_found d none reason now = (d, [])
  suspend_found d (some a) reason now =
      let (a', changed) = suspend a reason now in
      if changed then (record d { accounts = put_account a' d.accounts }, a.name ∷ []) else (d, [])

  unfoldable pub suspend_accounts : Data R → List Text → Text → Time → Data R × List Text
  suspend_accounts d [] reason now = (d, [])
  suspend_accounts d (id ∷ ids) reason now =
      let (d', name) = suspend_found d (find_account d id) reason now in
      let (d'', names) = suspend_accounts d' ids reason now in (d'', name ++ names)
