-- ===== src/Examples/Assignments.antt =====
-- Examples for the searches of the data and for the assignment of keys.
use laskah.Prelude.{
  ℕ, ◌≡◌, refl, true, false, none, some, List, [], ◌∷◌, arith, inl, inr, keep, count, find, In,
  ◌==◌, nat_eq, any,
}
use laskah.Prelude.Sorts.{sort_stable, place}
use laskah.Prelude.Text.{codes, text_eq, text_beq, trim_space, trim_left, is_space}
use laskah.Prelude.Maps.{lookup}
use laskah.Store.Model.{
  ApiKey, explicitly_supports_model, supports_model, has_key, pattern_matches, normalize_model_id,
  after_slash,
}
use laskah.Store.Account.{
  Account, usable, unlimited, is_local, is_checked, estimated_call_cost, has_manual_balance,
  has_balance_query, has_query_script, has_builtin_query, balance_floor,
}
use laskah.Store.Data.{
  Data, reindex, find_account, find_group, find_provider, keys_using_account, account_providers,
  group_enabled,
}
use laskah.Store.Data.Search.{reindex-scans}
use laskah.Store.Allocate.{
  Gate, passes, is_admitted, account_pool_gated, usable_accounts_gated, assign_account_gated,
  assign_anew, assign_new, pick_from_pool, sort_account_pool, less_account, account_declares_model,
  explicit_providers_for_model, account_key_pressure_for_model, healthy_providers_for_model,
  provider_counts_for_model, provider_counts, is_ready, same_group,
}
use laskah.Store.Allocate.Pool.{IsEligible}
use laskah.Store.Allocate.Promise.{assign-IsEligible, assign-keeps_binding}
use laskah.Store.Allocate.Choice.{Preferred, pick_from_pool-Preferred}
use laskah.Store.Allocate.Loads.{assign-LoadsExact, reindex-LoadsExact, LoadsExact, Stands}
use laskah.Examples.Samples.{thousandths, thousandths-IsOrdered, paid, bound_key, two_accounts}

abbrev free_key : ApiKey ℕ
free_key = bound_key (codes "k") (codes "")

abbrev one_account : Data ℕ
one_account = record two_accounts { accounts = paid (codes "a") 1000 ∷ [] }

assigned :
    (assign_account_gated ⦃f = thousandths⦄ one_account (some free_key) (codes "") none 5).1
    ≡ some (paid (codes "a") 1000)
unfolding assign_account_gated assign_anew assign_new pick_from_pool sort_account_pool sort_stable
    account_pool_gated usable_accounts_gated is_admitted passes keep group_enabled
    healthy_providers_for_model provider_counts_for_model provider_counts is_ready account_providers
    usable unlimited is_local is_checked balance_floor estimated_call_cost has_manual_balance
    has_balance_query has_query_script has_builtin_query trim_space trim_left is_space text_beq
assigned = refl

assign-IsEligible_example :
    (b : Account ℕ) × IsEligible ⦃f = thousandths⦄ one_account (codes "") (codes "") none 5 b
    × ((b.id == codes "a") ≡ true)
assign-IsEligible_example =
    assign-IsEligible ⦃f = thousandths⦄ one_account free_key (codes "") none 5
      (paid (codes "a") 1000) assigned

-- The other key is bound to the first account, which the gate refuses for now.
abbrev held_key : ApiKey ℕ
held_key = bound_key (codes "l") (codes "a")

abbrev refuse : Gate ℕ
refuse = some (λ a. false)

held : find_account two_accounts (codes "a") ≡ some (paid (codes "a") 1000)
unfolding find_account find text_beq
held = refl

no_group : same_group held_key (paid (codes "a") 1000) ≡ true
unfolding same_group text_beq
no_group = refl

no_group_on : group_enabled two_accounts (codes "") ≡ true
unfolding group_enabled text_beq
no_group_on = refl

can_pay : usable ⦃f = thousandths⦄ (paid (codes "a") 1000) ≡ true
unfolding usable unlimited is_local is_checked balance_floor estimated_call_cost has_manual_balance
    has_balance_query has_query_script has_builtin_query trim_space trim_left is_space text_beq
can_pay = refl

has_provider : healthy_providers_for_model two_accounts (codes "a") (codes "") 5 ≡ 1
unfolding healthy_providers_for_model provider_counts_for_model provider_counts is_ready
    account_providers keep text_beq
has_provider = refl

assign-keeps_binding_example :
    (assign_account_gated ⦃f = thousandths⦄ two_accounts (some held_key) (codes "m") refuse 5).0
    ≡ two_accounts
assign-keeps_binding_example =
    assign-keeps_binding ⦃f = thousandths⦄ two_accounts held_key (codes "m") refuse 5
      (paid (codes "a") 1000) held no_group no_group_on can_pay (omega (arith, has_provider))

unlike : (codes "k" == codes "l") ≡ false
unfolding text_beq
unlike = refl

abbrev reindexed : Data ℕ
reindexed = reindex two_accounts

held-Stands : Stands held_key reindexed.keys
unfolding reindex
held-Stands = inr (unlike, inl refl)

assign-LoadsExact_example :
    LoadsExact
      (assign_account_gated ⦃f = thousandths⦄ reindexed (some held_key) (codes "m") refuse 5).0
assign-LoadsExact_example =
    assign-LoadsExact ⦃f = thousandths⦄ reindexed held_key (codes "m") refuse 5 held-Stands
      (reindex-LoadsExact two_accounts)

-- The second account has no keys yet.
abbrev pool_of_two : List (Account ℕ)
pool_of_two = paid (codes "a") 1000 ∷ paid (codes "b") 9000 ∷ []

picked_second :
    pick_from_pool ⦃f = thousandths⦄ two_accounts pool_of_two (codes "") 5
    ≡ some (paid (codes "b") 9000)
unfolding pick_from_pool sort_account_pool sort_stable place less_account
    account_key_pressure_for_model healthy_providers_for_model provider_counts_for_model
    provider_counts is_ready account_providers keep keys_using_account count unlimited
    has_manual_balance has_balance_query has_query_script has_builtin_query trim_space trim_left
    is_space text_beq
picked_second = refl

pick_from_pool-Preferred_example :
    Preferred ⦃f = thousandths⦄ two_accounts
      (codes "")
      5
      (paid (codes "b") 9000)
      (paid (codes "a") 1000)
pick_from_pool-Preferred_example =
    pick_from_pool-Preferred ⦃f = thousandths⦄ thousandths-IsOrdered two_accounts pool_of_two
      (codes "") 5 (paid (codes "b") 9000) (paid (codes "a") 1000) picked_second (inl refl)

some_id : (codes "a" == codes "") ≡ false
unfolding text_beq
some_id = refl

reindex-scans_example :
    (find_account reindexed (codes "a") ≡ find (λ a. a.id == codes "a") two_accounts.accounts)
    × (find_group reindexed (codes "a") ≡ find (λ g. g.id == codes "a") two_accounts.groups)
    × (find_provider reindexed (codes "a") ≡ find (λ p. p.id == codes "a") two_accounts.providers)
    × (keys_using_account reindexed (codes "a")
        ≡ count (λ k. k.account_id == codes "a") two_accounts.keys)
    × (account_providers reindexed (codes "a")
        ≡ keep (λ p. p.account_id == codes "a") two_accounts.providers)
unfolding text_beq
reindex-scans_example =
    reindex-scans two_accounts (codes "a") some_id ((refl, tt), (tt, tt)) tt ((refl, tt), (tt, tt))

-- For the model "m" both accounts are in the pool, each by an API without a list of models.
first_account-In :
    In
      (paid (codes "a") 1000)
      (account_pool_gated ⦃f = thousandths⦄ two_accounts (codes "") (codes "m") none 5)
unfolding account_pool_gated usable_accounts_gated is_admitted passes group_enabled
    healthy_providers_for_model usable unlimited is_local is_checked balance_floor
    estimated_call_cost has_manual_balance has_balance_query has_query_script has_builtin_query
    trim_space trim_left is_space explicitly_supports_model supports_model has_key pattern_matches
    any lookup normalize_model_id after_slash account_declares_model explicit_providers_for_model
    provider_counts_for_model provider_counts is_ready account_providers keep text_beq
first_account-In = inl refl

second_account-In :
    In
      (paid (codes "b") 9000)
      (account_pool_gated ⦃f = thousandths⦄ two_accounts (codes "") (codes "m") none 5)
unfolding account_pool_gated usable_accounts_gated is_admitted passes group_enabled
    healthy_providers_for_model usable unlimited is_local is_checked balance_floor
    estimated_call_cost has_manual_balance has_balance_query has_query_script has_builtin_query
    trim_space trim_left is_space explicitly_supports_model supports_model has_key pattern_matches
    any lookup normalize_model_id after_slash account_declares_model explicit_providers_for_model
    provider_counts_for_model provider_counts is_ready account_providers keep text_beq
second_account-In = inr (inl refl)

no_model : (codes "m" == codes "") ≡ false
unfolding text_beq
no_model = refl

first_loose : account_declares_model two_accounts (codes "a") (codes "m") 5 ≡ false
unfolding explicitly_supports_model supports_model has_key pattern_matches any lookup
    normalize_model_id after_slash account_declares_model explicit_providers_for_model
    provider_counts_for_model provider_counts is_ready account_providers keep text_beq trim_space
    trim_left is_space
first_loose = refl
