-- ===== src/Store/Allocate.antt =====
-- internal/store/allocate.go: which account a gateway key's call goes to. `now` is `time.Now()`; the
-- gate is the admission test that the caller hands in, absent for nil.
pub mod Pool
pub mod Assign
pub mod Promise
pub mod Preference
pub mod Choice
pub mod Loads
use laskah.Prelude.{
  ℕ, suc, ◌+◌, ◌-◌, Bool, true, false, not, ◌&&◌, ◌||◌, Option, none, some, List, [], ◌∷◌, ◌==◌,
  nat_eq, ltb, leb, if◌then◌else◌, length, head?, keep, any,
}
use laskah.Prelude.Float.{Float}
use laskah.Prelude.Text.{Text, codes, text_eq}
use laskah.Prelude.Maps.{insert}
use laskah.Prelude.Sorts.{sort_stable}
use laskah.Store.Model.{Time, Provider, ApiKey, explicitly_supports_model, supports_model}
use laskah.Store.Account.{Account, usable, unlimited}
use laskah.Store.Data.{
  Data, Indexes, number_at, group_enabled, find_account, account_providers, keys_using_account,
}

abbrev pub Gate : Type 0 → Type 0
Gate R = Option (Account R → Bool)

-- `gate == nil || gate(account)`.
unfoldable pub passes : {R : Type 0} → Gate R → Account R → Bool
passes none a = true
passes (some gate) a = gate a

unfoldable pub raise_load : Text → List (Text × ℕ) → List (Text × ℕ)
raise_load id m = insert id (suc (number_at id m)) m

unfoldable pub lower_load : Text → List (Text × ℕ) → List (Text × ℕ)
lower_load id m = if ltb 0 (number_at id m) then insert id (number_at id m - 1) m else m

-- `if d.accountKeyLoad != nil { … }`
unfoldable pub change_load : (List (Text × ℕ) → List (Text × ℕ)) → Option Indexes → Option Indexes
change_load change none = none
change_load change (some ix) = some (record ix { account_key_load = change ix.account_key_load })

module _ {R : Type 0} where
  unfoldable pub is_ready : Time → Provider R → Bool
  is_ready now p = p.enabled && not (ltb now p.cooldown_until)

  -- The loop of `providerCountsForModel`: the explicit and the loose providers.
  unfoldable pub provider_counts : Text → Time → List (Provider R) → ℕ × ℕ
  provider_counts model now [] = (0, 0)
  provider_counts model now (p ∷ ps) =
      let (explicit, loose) = provider_counts model now ps in
      if not (is_ready now p)
      then (explicit, loose)
      else if model == codes ""
      then (explicit, suc loose)
      else if explicitly_supports_model p model
      then (suc explicit, loose)
      else if supports_model p model
      then (explicit, suc loose)
      else (explicit, loose)

  unfoldable pub provider_counts_for_model : Data R → Text → Text → Time → ℕ × ℕ
  provider_counts_for_model d account_id model now =
      provider_counts model now (account_providers d account_id)

  unfoldable pub healthy_providers_for_model : Data R → Text → Text → Time → ℕ
  healthy_providers_for_model d account_id model now =
      let (explicit, loose) = provider_counts_for_model d account_id model now in explicit + loose

  unfoldable pub explicit_providers_for_model : Data R → Text → Text → Time → ℕ
  explicit_providers_for_model d account_id model now =
      (provider_counts_for_model d account_id model now).0

  unfoldable pub account_declares_model : Data R → Text → Text → Time → Bool
  account_declares_model d account_id model now =
      ltb 0 (explicit_providers_for_model d account_id model now)

  -- `HealthyAccountProviders`: no model is asked for.
  unfoldable pub healthy_account_providers : Data R → Text → Time → ℕ
  healthy_account_providers d account_id now =
      healthy_providers_for_model d account_id (codes "") now

  unfoldable pub account_serves_model : Data R → Text → Text → Time → Bool
  account_serves_model d account_id model now =
      ltb 0 (healthy_providers_for_model d account_id model now)

  unfoldable pub contains_account : List (Account R) → Text → Bool
  contains_account pool id = any (λ a. a.id == id) pool

  -- A write through the pointer of a key that stands in `d.Keys`.
  unfoldable pub put_key : ApiKey R → List (ApiKey R) → List (ApiKey R)
  put_key key [] = []
  put_key key (k ∷ ks) = if k.id == key.id then key ∷ ks else k ∷ put_key key ks

  unfoldable pub with_load : (List (Text × ℕ) → List (Text × ℕ)) → Data R → Data R
  with_load change d = record d { index = change_load change d.index }

  unfoldable pub bind_key : Data R → ApiKey R → Text → Data R
  bind_key d key account_id = record d {
    keys = put_key (record key { account_id = account_id }) d.keys;
  }

  unfoldable pub detach_key_account : Data R → ApiKey R → Data R
  detach_key_account d key =
      if key.account_id == codes ""
      then d
      else bind_key (with_load (lower_load key.account_id) d) key (codes "")

  -- The end of `AssignAccountGated`: a new binding to the first account of the pool.
  unfoldable pub assign_new :
      Data R → ApiKey R → Option (Account R) → Time → Data R × Option (Account R)
  assign_new d key none now = (d, none)
  assign_new d key (some chosen) now = (
    bind_key (with_load (raise_load chosen.id) d) (record key { updated_at = now }) chosen.id,
    some chosen,
  )

  -- The same group, or a key of no group: `key.GroupID == "" || current.GroupID == key.GroupID`.
  unfoldable pub same_group : ApiKey R → Account R → Bool
  same_group key current = key.group_id == codes "" || current.group_id == key.group_id

module _ {R : Type 0} ⦃f : Float R⦄ where
  unfoldable pub is_admitted : Data R → Text → Text → Gate R → Time → Account R → Bool
  is_admitted d group_id model gate now a =
      not (not (group_id == codes "") && not (a.group_id == group_id))
      && group_enabled d a.group_id
      && (usable a && not (healthy_providers_for_model d a.id model now == 0))
      && passes gate a

  unfoldable pub usable_accounts_gated : Data R → Text → Text → Gate R → Time → List (Account R)
  usable_accounts_gated d group_id model gate now =
      keep (is_admitted d group_id model gate now) d.accounts

  unfoldable pub usable_accounts_for_model : Data R → Text → Text → Time → List (Account R)
  usable_accounts_for_model d group_id model now = usable_accounts_gated d group_id model none now

  unfoldable pub usable_accounts : Data R → Text → Time → List (Account R)
  usable_accounts d group_id now = usable_accounts_for_model d group_id (codes "") now

  unfoldable pub account_pool_gated : Data R → Text → Text → Gate R → Time → List (Account R)
  account_pool_gated d group_id model gate now =
      let pool = usable_accounts_gated d group_id model gate now in
      let explicit = keep (λ a. account_declares_model d a.id model now) pool in
      if model == codes "" || length pool == 0
      then pool
      else if ltb 0 (length explicit)
      then explicit
      else pool

  unfoldable pub account_key_pressure_for_model : Data R → Text → Text → Time → R
  account_key_pressure_for_model d account_id model now =
      let healthy = healthy_providers_for_model d account_id model now in
      if healthy == 0
      then f.of_ℕ 1_048_576
      else f.over (f.of_ℕ (keys_using_account d account_id)) (f.of_ℕ healthy)

  -- The comparison of `sortAccountPool`.
  unfoldable pub less_account : Data R → Text → Time → Account R → Account R → Bool
  less_account d model now a b =
      let left_share = account_key_pressure_for_model d a.id model now in
      let right_share = account_key_pressure_for_model d b.id model now in
      let left_load = keys_using_account d a.id in
      let right_load = keys_using_account d b.id in
      if not (f.eq left_share right_share)
      then f.lt left_share right_share
      else if not (left_load == right_load)
      then ltb left_load right_load
      else if not (elim (unlimited a) [ true ↦ unlimited b | false ↦ not (unlimited b) ])
      then unlimited a
      else if not (f.eq a.balance b.balance)
      then f.lt b.balance a.balance
      else ltb a.created_at b.created_at

  unfoldable pub sort_account_pool : Data R → List (Account R) → Text → Time → List (Account R)
  sort_account_pool d pool model now = sort_stable (less_account d model now) pool

  unfoldable pub pick_from_pool : Data R → List (Account R) → Text → Time → Option (Account R)
  pick_from_pool d pool model now =
      if length pool == 0 then none else head? (sort_account_pool d pool model now)

  -- A bound account that is well and only does not serve this one call.
  unfoldable pub keeps_binding : Data R → Text → Gate R → Time → Account R → Bool
  keeps_binding d model gate now current =
      (not (model == codes "") || not (passes gate current))
      && group_enabled d current.group_id
      && usable current
      && ltb 0 (healthy_account_providers d current.id now)

  -- A key without a binding that is kept: it is detached and given a new one.
  unfoldable pub assign_anew :
      Data R → ApiKey R → Text → List (Account R) → Time → Data R × Option (Account R)
  assign_anew d key model pool now =
      let d' = detach_key_account d key in
      assign_new d' (record key { account_id = codes "" }) (pick_from_pool d' pool model now) now

  -- The account that the key is bound to, if the data still has it.
  unfoldable pub assign_bound :
      Data R
      → ApiKey R
      → Text
      → Gate R
      → List (Account R)
      → Time
      → Option (Account R)
      → Data R × Option (Account R)
  assign_bound d key model gate pool now none = assign_anew d key model pool now
  assign_bound d key model gate pool now (some current) =
      if same_group key current && contains_account pool current.id
      then (d, some current)
      else if same_group key current && keeps_binding d model gate now current
      then (d, pick_from_pool d pool model now)
      else assign_anew d key model pool now

  unfoldable pub assign_account_gated :
      Data R → Option (ApiKey R) → Text → Gate R → Time → Data R × Option (Account R)
  assign_account_gated d none model gate now = (d, none)
  assign_account_gated d (some key) model gate now =
      let pool = account_pool_gated d key.group_id model gate now in
      if key.account_id == codes ""
      then assign_anew d key model pool now
      else assign_bound d key model gate pool now (find_account d key.account_id)

  unfoldable pub assign_account_for_model :
      Data R → Option (ApiKey R) → Text → Time → Data R × Option (Account R)
  assign_account_for_model d key model now = assign_account_gated d key model none now

  unfoldable pub assign_account : Data R → Option (ApiKey R) → Time → Data R × Option (Account R)
  assign_account d key now = assign_account_for_model d key (codes "") now
