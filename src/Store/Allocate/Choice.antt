-- ===== src/Store/Allocate/Choice.antt =====
-- The account of a pool that `pickFromPool` gives, and what makes it the better one.
use laskah.Prelude.{
  none-some, ℕ, ◌≡◌, ◌<◌, ◌≤◌, true, false, not, some, List, arith, inl, inr, Bool-cases,
  if◌then◌else◌, ◌==◌, nat_eq, ltb, length, In,
}
use laskah.Prelude.Float.{Float, IsOrdered}
use laskah.Prelude.Text.{Text, text_eq}
use laskah.Prelude.Sorts.{head-sort_stable}
use laskah.Store.Model.{Time}
use laskah.Store.Account.{Account, unlimited}
use laskah.Store.Data.{Data, keys_using_account}
use laskah.Store.Allocate.{
  account_key_pressure_for_model, less_account, sort_account_pool, pick_from_pool,
}
use laskah.Store.Allocate.Preference.{eq_lem, less_account-IsWeakOrder}

module _ {R : Type 0} ⦃f : Float R⦄ (d : Data R) (model : Text) (now : Time) where
  -- Why the first of two accounts is preferred: the criteria, each of which decides where those
  -- before it do not.
  pub data Preferred (a b : Account R) : Type 0 where
    by_pressure :
        f.lt
            (account_key_pressure_for_model d a.id model now)
            (account_key_pressure_for_model d b.id model now)
          ≡ true
        → Preferred a b
    by_keys :
        f.eq
            (account_key_pressure_for_model d a.id model now)
            (account_key_pressure_for_model d b.id model now)
          ≡ true
        → keys_using_account d a.id < keys_using_account d b.id
        → Preferred a b
    by_limit :
        f.eq
            (account_key_pressure_for_model d a.id model now)
            (account_key_pressure_for_model d b.id model now)
          ≡ true
        → keys_using_account d a.id ≡ keys_using_account d b.id
        → unlimited a ≡ true
        → unlimited b ≡ false
        → Preferred a b
    by_balance :
        f.eq
            (account_key_pressure_for_model d a.id model now)
            (account_key_pressure_for_model d b.id model now)
          ≡ true
        → keys_using_account d a.id ≡ keys_using_account d b.id
        → unlimited a ≡ unlimited b
        → f.lt b.balance a.balance ≡ true
        → Preferred a b
    by_age :
        f.eq
            (account_key_pressure_for_model d a.id model now)
            (account_key_pressure_for_model d b.id model now)
          ≡ true
        → keys_using_account d a.id ≡ keys_using_account d b.id
        → unlimited a ≡ unlimited b
        → f.eq a.balance b.balance ≡ true
        → a.created_at ≤ b.created_at
        → Preferred a b

module _ {R : Type 0} ⦃f : Float R⦄ (o : IsOrdered f) where
  eq_sym : (x y : R) → f.eq x y ≡ true → f.eq y x ≡ true
  eq_sym x y e = ground (arith, e, eq_lem o x y, eq_lem o y x)

  -- An account that does not come behind another is preferred to it.
  not_behind :
      (d : Data R) (model : Text) (now : Time) (a b : Account R)
      → less_account d model now b a ≡ false
      → Preferred d model now a b
  unfolding less_account
  not_behind d model now a b h = elim (Bool-cases (f.eq (share b) (share a))) [
    | inr e ↦ by_pressure (o.lt_of_ne (share b) (share a) e (rw e at h))
    | inl e ↦
        let p = eq_sym (share b) (share a) e in
        elim (Bool-cases (keys b == keys a)) [
          | inr k ↦ by_keys p (ground (arith, e, k, h))
          | inl k ↦ elim (Bool-cases (unlimited a)) [
            | inl u ↦ elim (Bool-cases (unlimited b)) [
              | inr v ↦ by_limit p (ground (arith, k)) u v
              | inl v ↦
                  funds p (ground (arith, k)) (ground (arith, u, v)) (ground (arith, e, k, u, v, h))
            ]
            | inr u ↦ elim (Bool-cases (unlimited b)) [
              | inl v ↦ absurd (ground (arith, e, k, u, v, h))
              | inr v ↦
                  funds p (ground (arith, k)) (ground (arith, u, v)) (ground (arith, e, k, u, v, h))
            ]
          ]
        ]
  ]
    where
      share : Account R → R
      share x = account_key_pressure_for_model d x.id model now

      keys : Account R → ℕ
      keys x = keys_using_account d x.id

      funds :
          f.eq (share a) (share b) ≡ true
          → keys a ≡ keys b
          → unlimited a ≡ unlimited b
          → (if not (f.eq b.balance a.balance)
              then f.lt a.balance b.balance
              else ltb b.created_at a.created_at)
            ≡ false
          → Preferred d model now a b
      funds p k u h = elim (Bool-cases (f.eq b.balance a.balance)) [
        | inr m ↦ by_balance p k u (ground (arith, m, h, eq_lem o b.balance a.balance))
        | inl m ↦ by_age p k u (eq_sym b.balance a.balance m) (ground (arith, m, h))
      ]

  -- For amounts that are ordered, the account that is picked has fewer keys on each ready
  -- provider than any other of the pool; or as many, and fewer keys in all; or as many, and is
  -- unlimited where the other is not; or is so exactly if the other is, and has a higher
  -- balance; or an equal one, and is not younger.
  pub pick_from_pool-Preferred :
      (d : Data R) (pool : List (Account R)) (model : Text) (now : Time) (a b : Account R)
      → pick_from_pool d pool model now ≡ some a
      → In b pool
      → Preferred d model now a b
  unfolding pick_from_pool sort_account_pool
  pick_from_pool-Preferred d pool model now a b h i = elim (Bool-cases (length pool == 0)) [
    | inl e ↦ absurd (none-some (rw e at h))
    | inr e ↦ not_behind d model now a b (
        head-sort_stable (less_account d model now) a pool (less_account-IsWeakOrder o d model now)
          (rw e at h) b i)
  ]
