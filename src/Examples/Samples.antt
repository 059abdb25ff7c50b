-- ===== src/Examples/Samples.antt =====
-- Amounts in thousandths, and the upstream APIs, keys and accounts that the examples use.
use laskah.Prelude.{
  ℕ, ◌+◌, ◌-◌, ◌*◌, ◌/◌, true, false, none, some, [], ◌∷◌, arith, ◌==◌, nat_eq, ltb, leb,
}
use laskah.Prelude.Float.{Float, IsOrdered}
use laskah.Prelude.Int.{pos}
use laskah.Prelude.Text.{Text, codes}
use laskah.Store.Model.{Provider, ProviderStats, openai, ApiKey, KeyStats}
use laskah.Store.Account.{Account, billing_per_call}
use laskah.Store.Data.{Data}

-- Fixed-point numbers for the Go type: one is 1000.
abbrev pub thousandths : Float ℕ
thousandths = record {
  of_ℕ = λ n. n * 1000;
  half = 500;
  milli = 1;
  plus = λ x y. x + y;
  minus = λ x y. x - y;
  times = λ x y. x * y / 1000;
  over = λ x y. x * 1000 / y;
  trunc = λ x. x / 1000 * 1000;
  lt = ltb;
  le = leb;
  eq = λ x y. x == y;
}

pub thousandths-IsOrdered : IsOrdered thousandths
thousandths-IsOrdered = record {
  lt_irrefl = λ x. ground arith;
  lt_trans = λ x y z h k. ground arith;
  le_lem = λ x y. ground arith;
  lt_of_ne = λ x y h k. ground arith;
  eq-lt = λ x y z h. ground arith;
  lt-eq = λ x y z h. ground arith;
}

abbrev pub no_stats : ProviderStats
no_stats = record {
  requests = 0;
  success = 0;
  failure = 0;
  prompt_tokens = 0;
  completion_tokens = 0;
  total_tokens = 0;
  upstream_tokens = 0;
  avg_latency_ms = 0;
  last_error = none;
  last_used_at = none;
}

-- An enabled API of an account that takes every model.
abbrev pub api : Text → Text → Provider ℕ
api id account_id = record {
  id = id;
  account_id = account_id;
  name = id;
  type = openai;
  base_url = codes "https://api.example";
  api_key = codes "sk";
  models = [];
  model_map = [];
  weight = 1000;
  priority = pos 0;
  timeout_ms = 60_000;
  enabled = true;
  stats = no_stats;
  cooldown_until = 0;
  inflight = 0;
  consecutive_failures = 0;
}

abbrev pub no_key_stats : KeyStats ℕ
no_key_stats = record {
  requests = 0;
  success = 0;
  failure = 0;
  prompt_tokens = 0;
  completion_tokens = 0;
  total_tokens = 0;
  upstream_tokens = 0;
  cost = 0;
  last_used_at = none;
}

-- A key, and the account that it is bound to.
abbrev pub bound_key : Text → Text → ApiKey ℕ
bound_key id account_id = record {
  name = id;
  id = id;
  account_id = account_id;
  group_id = codes "";
  key = codes "sk-k";
  key_hash = codes "h";
  enabled = true;
  allowed_models = [];
  provider_ids = [];
  quota_tokens = none;
  rate_limit_per_min = none;
  expires_at = none;
  created_at = 1;
  updated_at = 1;
  stats = no_key_stats;
}

-- An account billed 0.002 for each call, with a balance that is kept here.
abbrev pub paid : Text → ℕ → Account ℕ
paid id balance = record {
  id = id;
  group_id = codes "";
  name = id;
  site_url = codes "https://site.example";
  base_url = codes "https://api.example";
  program = none;
  user_id = codes "";
  access_token = codes "";
  timeout_seconds = pos 10;
  query_interval_min = pos 0;
  refresh_on_request = true;
  request_refresh_sec = pos 30;
  billing_mode = billing_per_call;
  price_per_mtoken = 0;
  price_per_call = 2;
  manual_balance = true;
  initial_balance = 0;
  enabled = true;
  min_balance = 0;
  auto_suspend = false;
  suspended = false;
  suspend_reason = codes "";
  suspended_at = none;
  rate_limit_per_min = none;
  balance = balance;
  used_amount = 0;
  total_amount = 0;
  balance_from = codes "";
  checked_at = none;
  check_error = codes "";
  created_at = 1;
  updated_at = 1;
  stats = record {
    requests = 0;
    success = 0;
    failure = 0;
    prompt_tokens = 0;
    completion_tokens = 0;
    total_tokens = 0;
    upstream_tokens = 0;
    cost = 0;
    last_used_at = none;
  };
}

-- The same account with a balance that was queried upstream, at the time 5.
abbrev pub queried : Text → ℕ → Account ℕ
queried id balance = record (paid id balance) {
  user_id = codes "u";
  access_token = codes "t";
  manual_balance = false;
  checked_at = some 5;
}

-- Two accounts with an API each; the key is bound to neither.
abbrev pub two_accounts : Data ℕ
two_accounts = record {
  groups = [];
  accounts = paid (codes "a") 1000 ∷ paid (codes "b") 9000 ∷ [];
  providers = api (codes "p") (codes "a") ∷ api (codes "q") (codes "b") ∷ [];
  keys = bound_key (codes "k") (codes "") ∷ bound_key (codes "l") (codes "a") ∷ [];
  removed_accounts = [];
  index = none;
}
