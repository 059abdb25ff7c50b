-- ===== src/Store/Data.antt =====
-- The `Data` of internal/store/model.go with its in-memory indexes (allocate.go) and the searches over it
-- (account.go, store.go). The lists hold pointers in Go; here the list holds the value, and an index
-- holds its position. `adminByHash` is in `Store.Admin`.
pub mod Positions
pub mod Search
use laskah.Prelude.{
  ℕ, suc, Bool, true, false, not, Option, none, some, List, [], ◌∷◌, ◌++◌, ◌==◌, if◌then◌else◌,
  length, get_elem?, find, count, keep,
}
use laskah.Prelude.Float.{Float}
use laskah.Prelude.Text.{Text, codes, text_eq}
use laskah.Prelude.Maps.{lookup, insert}
use laskah.Store.Model.{Time, Provider, ApiKey, Group}
use laskah.Store.Account.{Account}

pub record RemovedAccount (R : Type 0) : Type 0 where
  pub id : Text
  pub group_id : Text
  pub name : Text
  pub site_url : Text
  pub reason : Text
  pub balance : R
  pub used_amount : R
  pub tokens : ℕ
  pub keys : ℕ
  pub removed_at : Time

pub record Indexes : Type 0 where
  pub key_by_hash : List (Text × ℕ)
  pub account_by_id : List (Text × ℕ)
  pub group_by_id : List (Text × ℕ)
  pub provider_by_id : List (Text × ℕ)
  pub account_provs : List (Text × List ℕ)
  pub account_key_load : List (Text × ℕ)

-- The six maps are made together: before the first `reindex` all of them are nil.
pub record Data (R : Type 0) : Type 0 where
  pub groups : List Group
  pub accounts : List (Account R)
  pub providers : List (Provider R)
  pub keys : List (ApiKey R)
  pub removed_accounts : List (RemovedAccount R)
  pub index : Option Indexes

-- `for … { m[key] = element }`: a later element replaces an earlier one of the same key.
unfoldable pub positions :
    {A : Type 0} → (A → Text) → ℕ → List A → List (Text × ℕ) → List (Text × ℕ)
positions key i [] m = m
positions key i (x ∷ xs) m = positions key (suc i) xs (insert (key x) i m)

-- `for … { if key != "" { m[key] = element } }`
unfoldable pub named_positions :
    {A : Type 0} → (A → Text) → ℕ → List A → List (Text × ℕ) → List (Text × ℕ)
named_positions key i [] m = m
named_positions key i (x ∷ xs) m =
    named_positions key (suc i) xs (if key x == codes "" then m else insert (key x) i m)

-- What a map of lists or of numbers has under a key that may be missing.
unfoldable pub list_at : Text → List (Text × List ℕ) → List ℕ
list_at k m = elim (lookup k m) [ none ↦ [] | some is ↦ is ]

unfoldable pub number_at : Text → List (Text × ℕ) → ℕ
number_at k m = elim (lookup k m) [ none ↦ 0 | some n ↦ n ]

unfoldable pub at_index : {A : Type 0} → List A → Text → List (Text × ℕ) → Option A
at_index xs id m = elim (lookup id m) [ none ↦ none | some i ↦ get_elem? xs i ]

unfoldable pub put_some : {A : Type 0} → Option A → List A → List A
put_some none xs = xs
put_some (some x) xs = x ∷ xs

unfoldable pub at_positions : {A : Type 0} → List A → List ℕ → List A
at_positions xs [] = []
at_positions xs (i ∷ is) = put_some (get_elem? xs i) (at_positions xs is)

module _ {R : Type 0} where
  unfoldable pub own_positions : ℕ → List (Provider R) → List (Text × List ℕ) → List (Text × List ℕ)
  own_positions i [] m = m
  own_positions i (p ∷ ps) m = own_positions (suc i) ps (
      if p.account_id == codes ""
      then m
      else insert p.account_id (list_at p.account_id m ++ i ∷ []) m)

  unfoldable pub key_loads : List (ApiKey R) → List (Text × ℕ) → List (Text × ℕ)
  key_loads [] m = m
  key_loads (k ∷ ks) m = key_loads ks (
      if k.account_id == codes ""
      then m
      else insert k.account_id (suc (number_at k.account_id m)) m)

  unfoldable pub reindex : Data R → Data R
  reindex d = record d {
    index = some (record {
      key_by_hash = named_positions (λ k. k.key_hash) 0 d.keys [];
      account_by_id = positions (λ a. a.id) 0 d.accounts [];
      group_by_id = positions (λ g. g.id) 0 d.groups [];
      provider_by_id = positions (λ p. p.id) 0 d.providers [];
      account_provs = own_positions 0 d.providers [];
      account_key_load = key_loads d.keys [];
    });
  }

  unfoldable pub find_group : Data R → Text → Option Group
  find_group d id = if id == codes "" then none else elim d.index [
    | some ix ↦ at_index d.groups id ix.group_by_id
    | none ↦ find (λ g. g.id == id) d.groups
  ]

  unfoldable pub group_enabled : Data R → Text → Bool
  group_enabled d id =
      if id == codes "" then true else elim (find_group d id) [ none ↦ false | some g ↦ g.enabled ]

  unfoldable pub group_accounts : Data R → Text → List (Account R)
  group_accounts d group_id = keep (λ a. a.group_id == group_id) d.accounts

  unfoldable pub find_account : Data R → Text → Option (Account R)
  find_account d id = if id == codes "" then none else elim d.index [
    | some ix ↦ at_index d.accounts id ix.account_by_id
    | none ↦ find (λ a. a.id == id) d.accounts
  ]

  unfoldable pub find_provider : Data R → Text → Option (Provider R)
  find_provider d id = elim d.index [
    | some ix ↦ at_index d.providers id ix.provider_by_id
    | none ↦ find (λ p. p.id == id) d.providers
  ]

  unfoldable pub find_key_by_id : Data R → Text → Option (ApiKey R)
  find_key_by_id d id = find (λ k. k.id == id) d.keys

  unfoldable pub find_key_by_secret : (Text → Text) → Data R → Text → Option (ApiKey R)
  find_key_by_secret hash d secret = if secret == codes "" then none else elim d.index [
    | some ix ↦ at_index d.keys (hash secret) ix.key_by_hash
    | none ↦ find (λ k. k.key_hash == hash secret) d.keys
  ]

  unfoldable pub account_providers : Data R → Text → List (Provider R)
  account_providers d account_id = elim d.index [
    | some ix ↦ at_positions d.providers (list_at account_id ix.account_provs)
    | none ↦ keep (λ p. p.account_id == account_id) d.providers
  ]

  unfoldable pub count_account_keys : Data R → Text → ℕ
  count_account_keys d account_id = length (account_providers d account_id)

  unfoldable pub keys_using_account : Data R → Text → ℕ
  keys_using_account d account_id = elim d.index [
    | some ix ↦ number_at account_id ix.account_key_load
    | none ↦ count (λ k. k.account_id == account_id) d.keys
  ]
