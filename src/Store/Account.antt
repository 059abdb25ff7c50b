-- ===== src/Store/Account.antt =====
-- internal/store/account.go: what an account may spend, what a call costs it, and its suspension.
-- The amounts are `float64`s of the `Float` interface.
pub mod Funds
pub mod Refresh
use laskah.Prelude.{
  ℕ, suc, ◌+◌, ◌*◌, Bool, true, false, not, ◌&&◌, ◌||◌, Option, none, some, List, [], ◌∷◌, ◌==◌,
  nat_eq, ltb, leb, if◌then◌else◌,
}
use laskah.Prelude.Float.{Float}
use laskah.Prelude.Int.{ℤ, pos, negsuc}
use laskah.Prelude.Text.{Text, codes, text_eq, trim_space}
use laskah.Store.Model.{Time, second, minute}

-- `BillingMode`, a string in Go: the three modes, the empty string and any other.
pub data BillingMode : Type 0 where
  billing_none billing_per_mtoken billing_per_call billing_unset billing_other : BillingMode

pub record AccountStats (R : Type 0) : Type 0 where
  pub requests : ℕ
  pub success : ℕ
  pub failure : ℕ
  pub prompt_tokens : ℕ
  pub completion_tokens : ℕ
  pub total_tokens : ℕ
  pub upstream_tokens : ℕ
  pub cost : R
  pub last_used_at : Option Time

pub record Account (R : Type 0) : Type 0 where
  pub id : Text
  pub group_id : Text
  pub name : Text
  pub site_url : Text
  pub base_url : Text
  -- The compiled query script, here by its source.
  pub program : Option Text
  pub user_id : Text
  pub access_token : Text
  pub timeout_seconds : ℤ
  pub query_interval_min : ℤ
  pub refresh_on_request : Bool
  pub request_refresh_sec : ℤ
  pub billing_mode : BillingMode
  pub price_per_mtoken : R
  pub price_per_call : R
  pub manual_balance : Bool
  pub initial_balance : R
  pub enabled : Bool
  pub min_balance : R
  pub auto_suspend : Bool
  pub suspended : Bool
  pub suspend_reason : Text
  pub suspended_at : Option Time
  pub rate_limit_per_min : Option ℤ
  pub balance : R
  pub used_amount : R
  pub total_amount : R
  pub balance_from : Text
  pub checked_at : Option Time
  pub check_error : Text
  pub created_at : Time
  pub updated_at : Time
  pub stats : AccountStats R

-- An `int` or `int64` that counts: what is not positive counts as 0.
unfoldable pub positive : ℤ → ℕ
positive (pos n) = n
positive (negsuc n) = 0

-- `now.Sub(*CheckedAt) >= interval`.
unfoldable pub elapsed : Time → ℕ → Time → Bool
elapsed checked_at interval now = leb (checked_at + interval) now

module _ {R : Type 0} where
  unfoldable pub has_query_script : Account R → Bool
  has_query_script a = elim a.program [ none ↦ false | some source ↦ true ]

  unfoldable pub has_builtin_query : Account R → Bool
  has_builtin_query a =
      not (trim_space a.access_token == codes "") && not (trim_space a.user_id == codes "")

  unfoldable pub has_balance_query : Account R → Bool
  has_balance_query a = has_query_script a || has_builtin_query a

  unfoldable pub query_base : Account R → Text
  query_base a =
      let base = trim_space a.site_url in
      if not (base == codes "") then base else trim_space a.base_url

  unfoldable pub has_manual_balance : Account R → Bool
  has_manual_balance a =
      a.manual_balance
      && elim a.billing_mode [ billing_none ↦ false | billing_unset ↦ false | _ ↦ true ]

  unfoldable pub unlimited : Account R → Bool
  unlimited a = not (has_balance_query a) && not (has_manual_balance a)

  unfoldable pub rate_limit : Account R → ℕ
  rate_limit a = elim a.rate_limit_per_min [ none ↦ 0 | some n ↦ positive n ]

  -- Both give the account after the call; `suspend` also whether it changed.
  unfoldable pub suspend : Account R → Text → Time → Account R × Bool
  suspend a reason now = if a.suspended then (a, false) else (
    record a {
      suspended = true;
      suspend_reason = trim_space reason;
      suspended_at = some now;
      updated_at = now;
    },
    true,
  )

  unfoldable pub resume : Account R → Time → Account R
  resume a now = record a {
    suspended = false;
    suspend_reason = codes "";
    suspended_at = none;
    enabled = true;
    updated_at = now;
  }

  unfoldable pub query_timeout : Account R → ℕ
  query_timeout a =
      let seconds = positive a.timeout_seconds in
      let seconds = if ltb seconds 30 then 30 else seconds in
      (if ltb 300 seconds then 300 else seconds) * second

  unfoldable pub due_for_query : Account R → Time → Bool
  due_for_query a now =
      if positive a.query_interval_min == 0 || not (has_balance_query a)
      then false
      else elim a.checked_at [
        | none ↦ true
        | some t ↦ elapsed t (positive a.query_interval_min * minute) now
      ]

  unfoldable pub request_refresh_interval : Account R → ℕ
  request_refresh_interval a =
      let seconds = positive a.request_refresh_sec in
      let seconds = if seconds == 0 then 60 else seconds in
      (if ltb 3600 seconds then 3600 else seconds) * second

  unfoldable pub needs_request_refresh : Account R → Time → Bool
  needs_request_refresh a now =
      if not a.refresh_on_request || not a.enabled || not (has_balance_query a)
      then false
      else elim a.checked_at [ none ↦ true | some t ↦ elapsed t (request_refresh_interval a) now ]

module _ {R : Type 0} ⦃f : Float R⦄ where
  unfoldable pub zero_amount : R
  zero_amount = f.of_ℕ 0

  unfoldable pub million : R
  million = f.of_ℕ 1_000_000

  unfoldable pub estimated_call_cost : Account R → R
  estimated_call_cost a = elim a.billing_mode [
    | billing_per_mtoken ↦ f.over (f.times a.price_per_mtoken (f.of_ℕ 4000)) million
    | billing_per_call ↦ a.price_per_call
    | _ ↦ zero_amount
  ]

  unfoldable pub cost_for : Account R → ℤ → ℤ → R
  cost_for a tokens calls = elim a.billing_mode [
    | billing_per_mtoken ↦
        if positive tokens == 0
        then zero_amount
        else f.over (f.times a.price_per_mtoken (f.of_ℕ (positive tokens))) million
    | billing_per_call ↦
        if positive calls == 0
        then zero_amount
        else f.times a.price_per_call (f.of_ℕ (positive calls))
    | _ ↦ zero_amount
  ]

  unfoldable pub round6 : R → R
  round6 value =
      let scaled = f.times value million in
      f.over
        (f.trunc (if f.le zero_amount scaled then f.plus scaled f.half else f.minus scaled f.half))
        million

  unfoldable pub add_cost : Account R → R → Account R
  add_cost a cost = record a {
    stats = record (a.stats) { cost = round6 (f.plus a.stats.cost cost) };
  }

  unfoldable pub lower : R → R → R
  lower balance cost =
      let left = round6 (f.minus balance cost) in
      if f.lt left zero_amount then zero_amount else left

  unfoldable pub charge : Account R → ℤ → ℤ → Time → Account R × R
  charge a tokens calls now =
      let cost = cost_for a tokens calls in
      if f.le cost zero_amount
      then (a, zero_amount)
      else if not (has_manual_balance a)
      then (add_cost a cost, cost)
      else (
        record (add_cost a cost) {
          balance = lower a.balance cost;
          used_amount = round6 (f.plus a.used_amount cost);
          checked_at = some now;
          check_error = codes "";
          balance_from = codes "local";
        },
        cost,
      )

  -- `HasManualBalance() && !HasBalanceQuery()`.
  unfoldable pub is_local : Account R → Bool
  is_local a = has_manual_balance a && not (has_balance_query a)

  unfoldable pub balance_floor : Account R → R
  balance_floor a =
      let floor = if is_local a then estimated_call_cost a else f.half in
      if f.lt floor a.min_balance then a.min_balance else floor

  -- `CheckedAt != nil && CheckError == ""`.
  unfoldable pub is_checked : Account R → Bool
  is_checked a = elim a.checked_at [ none ↦ false | some t ↦ a.check_error == codes "" ]

  unfoldable pub usable : Account R → Bool
  usable a =
      if not a.enabled || a.suspended
      then false
      else if unlimited a
      then true
      else if is_local a
      then f.lt (balance_floor a) a.balance
      else if not (is_checked a)
      then true
      else f.lt (balance_floor a) a.balance

  unfoldable pub exhausted : Account R → Bool
  exhausted a =
      if unlimited a
      then false
      else if is_local a
      then f.le a.balance (balance_floor a)
      else is_checked a && f.le a.balance (balance_floor a)
