-- ===== src/Examples/Accounts.antt =====
-- Examples for the accounts, their funds and the assignment of keys.
use laskah.Prelude.{◌≡◌, refl, true, false, not, ◌&&◌, ◌||◌, nat_eq, ltb, if◌then◌else◌}
use laskah.Prelude.Int.{pos}
use laskah.Prelude.Text.{codes, text_eq, text_beq, trim_space, trim_left, is_space}
use laskah.Store.Account.{
  usable, exhausted, unlimited, is_local, is_checked, estimated_call_cost, charge, zero_amount,
  has_manual_balance, has_balance_query, has_query_script, has_builtin_query, balance_floor,
}
use laskah.Store.Account.Funds.{usable_iff, usable-funded, charge-nonnegative}
use laskah.Examples.Samples.{thousandths, thousandths-IsOrdered, paid, queried}

usable_iff_example : usable ⦃f = thousandths⦄ (paid (codes "a") 1) ≡ (
    (paid (codes "a") 1).enabled
    && not (paid (codes "a") 1).suspended
    && not (exhausted ⦃f = thousandths⦄ (paid (codes "a") 1)))
usable_iff_example = usable_iff ⦃f = thousandths⦄ thousandths-IsOrdered (paid (codes "a") 1)

rich : usable ⦃f = thousandths⦄ (paid (codes "a") 1000) ≡ true
unfolding usable unlimited is_local is_checked balance_floor estimated_call_cost has_manual_balance
    has_balance_query has_query_script has_builtin_query trim_space trim_left is_space text_beq
rich = refl

limited : unlimited (paid (codes "a") 1000) ≡ false
unfolding unlimited has_manual_balance has_balance_query has_query_script has_builtin_query
    trim_space trim_left is_space text_beq
limited = refl

kept_here :
    (is_local ⦃f = thousandths⦄ (paid (codes "a") 1000)
      || is_checked ⦃f = thousandths⦄ (paid (codes "a") 1000))
    ≡ true
unfolding is_local has_manual_balance has_balance_query has_query_script has_builtin_query
    trim_space trim_left is_space text_beq
kept_here = refl

usable-funded_example :
    (ltb 0 1000 ≡ true)
    × (ltb
          (if is_local ⦃f = thousandths⦄ (paid (codes "a") 1000)
            then estimated_call_cost ⦃f = thousandths⦄ (paid (codes "a") 1000)
            else 500)
          1000
        ≡ true)
usable-funded_example =
    usable-funded ⦃f = thousandths⦄ thousandths-IsOrdered (paid (codes "a") 1000) rich limited
      kept_here

charge-nonnegative_example :
    (ltb
        (charge ⦃f = thousandths⦄ (paid (codes "a") 1) (pos 50) (pos 1) 7).0.balance
        (zero_amount ⦃f = thousandths⦄)
      ≡ false)
    × (ltb
          (charge ⦃f = thousandths⦄ (paid (codes "a") 1) (pos 50) (pos 1) 7).1
          (zero_amount ⦃f = thousandths⦄)
        ≡ false)
unfolding zero_amount
charge-nonnegative_example =
    charge-nonnegative ⦃f = thousandths⦄ thousandths-IsOrdered (paid (codes "a") 1) (pos 50) (pos 1)
      7 refl

has_query : has_balance_query (queried (codes "a") 900) ≡ true
unfolding has_balance_query has_query_script has_builtin_query trim_space trim_left is_space
    text_beq
has_query = refl
