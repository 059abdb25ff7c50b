-- ===== src/Store/Account/Funds.antt =====
-- Which accounts may take calls, and what a charge and a suspension change of that.
use laskah.Prelude.{
  ◌≡◌, refl, ◌∙◌, ap, true, false, not, ◌&&◌, ◌||◌, arith, inl, inr, Bool-cases, nat_eq,
  if◌then◌else◌,
}
use laskah.Prelude.Float.{Float, IsOrdered}
use laskah.Prelude.Int.{ℤ}
use laskah.Prelude.Text.{Text}
use laskah.Store.Model.{Time}
use laskah.Store.Account.{
  Account, has_manual_balance, has_balance_query, unlimited, estimated_call_cost, cost_for, charge,
  add_cost, lower, is_local, is_checked, balance_floor, usable, exhausted, suspend, resume,
  zero_amount, round6, has_query_script, has_builtin_query,
}

module _ {R : Type 0} ⦃f : Float R⦄ (o : IsOrdered f) where
  -- For amounts that are ordered, an account is usable exactly if it is enabled, not suspended
  -- and not exhausted: `Usable` and `Exhausted` never disagree.
  pub usable_iff : (a : Account R) → usable a ≡ (a.enabled && not a.suspended && not (exhausted a))
  unfolding usable exhausted
  usable_iff a = ground (arith, o.le_lem a.balance (balance_floor a))

  -- `x ≤ y < z` as the code's tests give it.
  le_lt : (x y z : R) → f.lt y x ≡ false → f.lt y z ≡ true → f.lt x z ≡ true
  le_lt x y z h k = elim (Bool-cases (f.eq y x)) [
    | inl e ↦ rw (← o.eq-lt y x z e) k
    | inr e ↦ o.lt_trans x y z (o.lt_of_ne y x e h) k
  ]

  above_floor :
      (a : Account R)
      → f.lt (balance_floor a) a.balance ≡ true
      → (f.lt a.min_balance a.balance ≡ true)
        × (f.lt (if is_local a then estimated_call_cost a else f.half) a.balance ≡ true)
  unfolding balance_floor
  above_floor a h =
      let floor = if is_local a then estimated_call_cost a else f.half in
      elim (Bool-cases (f.lt floor a.min_balance)) [
        | inl e ↦
            let k : f.lt a.min_balance a.balance ≡ true = rw e at h in
            (k, o.lt_trans floor a.min_balance a.balance e k)
        | inr e ↦
            let k : f.lt floor a.balance ≡ true = rw e at h in
            (le_lt a.min_balance floor a.balance e k, k)
      ]

  -- For amounts that are ordered, a usable account that is not unlimited and whose balance is
  -- kept here or was queried without an error has a balance above its own minimum and above the
  -- safety line: the cost of one more call where the balance is kept here only, 0.5 otherwise.
  pub usable-funded :
      (a : Account R)
      → usable a ≡ true
      → unlimited a ≡ false
      → (is_local a || is_checked a) ≡ true
      → (f.lt a.min_balance a.balance ≡ true)
        × (f.lt (if is_local a then estimated_call_cost a else f.half) a.balance ≡ true)
  unfolding usable
  usable-funded a u l k = above_floor a (ground (arith, u, l, k))

  zero_le : f.le zero_amount zero_amount ≡ true
  zero_le = rw (o.le_lem zero_amount zero_amount, o.lt_irrefl zero_amount) refl

  lower-nonnegative : (b cost : R) → f.lt (lower b cost) zero_amount ≡ false
  unfolding lower
  lower-nonnegative b cost = elim (Bool-cases (f.lt (round6 (f.minus b cost)) zero_amount)) [
    | inl e ↦ rw e (o.lt_irrefl zero_amount)
    | inr e ↦ rw e e
  ]

  -- A cost that passed the test `cost <= 0`.
  above : (cost : R) → f.le cost zero_amount ≡ false → f.lt cost zero_amount ≡ false
  above cost e =
      let k : f.lt zero_amount cost ≡ true = ground (arith, o.le_lem cost zero_amount, e) in
      elim (Bool-cases (f.lt cost zero_amount)) [
        | inr q ↦ q
        | inl q ↦
            absurd
              (ground (arith, o.lt_trans zero_amount cost zero_amount k q, o.lt_irrefl zero_amount))
      ]

  -- For amounts that are ordered, a charge to an account whose balance is not negative leaves a
  -- balance that is not negative and gives a cost that is not negative, whatever the tokens,
  -- the calls and the prices.
  pub charge-nonnegative :
      (a : Account R) (tokens calls : ℤ) (now : Time)
      → f.lt a.balance zero_amount ≡ false
      → (f.lt (charge a tokens calls now).0.balance zero_amount ≡ false)
        × (f.lt (charge a tokens calls now).1 zero_amount ≡ false)
  unfolding charge add_cost
  charge-nonnegative a tokens calls now h =
      elim (Bool-cases (f.le (cost_for a tokens calls) zero_amount)) [
        | inl e ↦ rw e (h, o.lt_irrefl zero_amount)
        | inr e ↦
            let paid : f.lt (cost_for a tokens calls) zero_amount ≡ false =
              above (cost_for a tokens calls) e in
            elim (Bool-cases (has_manual_balance a)) [
              | inl m ↦ rw (e, m) (lower-nonnegative a.balance (cost_for a tokens calls), paid)
              | inr m ↦ rw (e, m) (h, paid)
            ]
      ]

  usable-add_cost : (a : Account R) (cost : R) → usable (add_cost a cost) ≡ usable a
  unfolding usable add_cost unlimited is_local is_checked balance_floor has_balance_query
      has_manual_balance has_query_script has_builtin_query estimated_call_cost
  usable-add_cost a cost = refl

  exhausted-resume : (a : Account R) (later : Time) → exhausted (resume a later) ≡ exhausted a
  unfolding exhausted resume unlimited is_local is_checked balance_floor has_balance_query
      has_manual_balance has_query_script has_builtin_query estimated_call_cost
  exhausted-resume a later = refl

  exhausted-suspend :
      (a : Account R) (reason : Text) (now : Time)
      → exhausted (suspend a reason now).0 ≡ exhausted a
  unfolding exhausted suspend unlimited is_local is_checked balance_floor has_balance_query
      has_manual_balance has_query_script has_builtin_query estimated_call_cost
  exhausted-suspend a reason now = elim (Bool-cases a.suspended) [
    | inl e ↦ rw e refl
    | inr e ↦ rw e refl
  ]

  -- If the balance of an account is not kept here, a charge changes neither the balance nor
  -- whether the account is usable.
  pub charge-usable :
      (a : Account R) (tokens calls : ℤ) (now : Time)
      → has_manual_balance a ≡ false
      → (usable (charge a tokens calls now).0 ≡ usable a)
        × ((charge a tokens calls now).0.balance ≡ a.balance)
  unfolding charge add_cost
  charge-usable a tokens calls now h =
      elim (Bool-cases (f.le (cost_for a tokens calls) zero_amount)) [
        | inl e ↦ rw e (refl, refl)
        | inr e ↦ rw (e, h) (usable-add_cost a (cost_for a tokens calls), refl)
      ]

  suspend-unusable :
      (a : Account R) (reason : Text) (now : Time) → usable (suspend a reason now).0 ≡ false
  unfolding suspend usable
  suspend-unusable a reason now = ground arith

  -- For amounts that are ordered, an account is not usable after `Suspend`, whatever it was
  -- before, and after `Resume` it is usable exactly if it was not exhausted.
  pub usable-resume :
      (a : Account R) (reason : Text) (now later : Time)
      → (usable (suspend a reason now).0 ≡ false)
        × (usable (resume (suspend a reason now).0 later) ≡ not (exhausted a))
  unfolding resume
  usable-resume a reason now later = (
    suspend-unusable a reason now,
    usable_iff (resume (suspend a reason now).0 later)
        ∙ ap not (exhausted-resume (suspend a reason now).0 later ∙ exhausted-suspend a reason now),
  )
