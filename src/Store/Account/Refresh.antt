-- ===== src/Store/Account/Refresh.antt =====
-- When the balance of an account is queried again.
use laskah.Prelude.{◌+◌, ◌*◌, ◌≤◌, ◌<◌, ◌≡◌, true, false, some, arith, nat_eq}
use laskah.Store.Model.{Time, second}
use laskah.Store.Account.{
  Account, query_timeout, elapsed, has_balance_query, request_refresh_interval,
  needs_request_refresh,
}

module _ {R : Type 0} where
  -- A balance query may take between 30 and 300 seconds, whatever the account sets.
  pub query_timeout-bounds :
      (a : Account R) → (30 * second ≤ query_timeout a) × (query_timeout a ≤ 300 * second)
  unfolding query_timeout
  query_timeout-bounds a = ground arith

  pub refresh_interval-bounds :
      (a : Account R)
      → (second ≤ request_refresh_interval a) × (request_refresh_interval a ≤ 3600 * second)
  unfolding request_refresh_interval
  refresh_interval-bounds a = ground arith

  -- On an enabled account with a balance query that refreshes on requests, a balance that was
  -- checked less than a second ago is not queried again for a request, and one that was checked
  -- an hour ago or more is, whatever interval is set.
  pub needs_request_refresh-window :
      (a : Account R) (t early late : Time)
      → a.checked_at ≡ some t
      → a.refresh_on_request ≡ true
      → a.enabled ≡ true
      → has_balance_query a ≡ true
      → early < t + second
      → t + 3600 * second ≤ late
      → (needs_request_refresh a early ≡ false) × (needs_request_refresh a late ≡ true)
  unfolding needs_request_refresh elapsed
  needs_request_refresh-window a t early late c r e q h k =
      ground (arith, refresh_interval-bounds a, c, r, e, q)
