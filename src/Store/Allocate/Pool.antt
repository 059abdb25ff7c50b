-- ===== src/Store/Allocate/Pool.antt =====
-- The accounts that a call is chosen from.
use mathlib.Core.Option.{some-injective}
use laskah.Prelude.{
  In-positive, none-some, true-false, ◌<◌, ◌≡◌, refl, sym, ◌∙◌, subst, Bool, true, false, ◌||◌,
  some, List, [], ◌∷◌, arith, inl, inr, ◌⊎◌, Bool-cases, ◌==◌, nat_eq, ltb, length, keep, In,
  In-keep, keep-In, head?,
}
use laskah.Prelude.Float.{Float}
use laskah.Prelude.Text.{Text, codes, text_eq}
use laskah.Prelude.Sorts.{sort_stable, sort_stable-In, In-sort_stable}
use laskah.Store.Model.{Time}
use laskah.Store.Account.{Account, usable}
use laskah.Store.Data.{Data, group_enabled}
use laskah.Store.Allocate.{
  Gate, passes, is_admitted, usable_accounts_gated, account_pool_gated, healthy_providers_for_model,
  account_declares_model, less_account, sort_account_pool, pick_from_pool,
}

head-In : {A : Type 0} (a : A) (xs : List A) → head? xs ≡ some a → In a xs
head-In a [] h = absurd (ground (arith, h))
head-In a (x ∷ xs) h = inl (sym (some-injective x a h))

module _ {R : Type 0} ⦃f : Float R⦄ where
  -- An account that may take the call.
  pub record IsEligible (d : Data R) (group_id model : Text) (gate : Gate R) (now : Time)
      (a : Account R) : Type 0 where
    pub known : In a d.accounts
    pub group : (group_id == codes "" || a.group_id == group_id) ≡ true
    pub group_on : group_enabled d a.group_id ≡ true
    pub usable_now : usable a ≡ true
    pub served : 0 < healthy_providers_for_model d a.id model now
    pub let_in : passes gate a ≡ true

  admitted-IsEligible :
      (d : Data R) (group_id model : Text) (gate : Gate R) (now : Time) (a : Account R)
      → In a d.accounts
      → is_admitted d group_id model gate now a ≡ true
      → IsEligible d group_id model gate now a
  unfolding is_admitted
  admitted-IsEligible d group_id model gate now a i h = record {
    known = i;
    group = ground (arith, h);
    group_on = ground (arith, h);
    usable_now = ground (arith, h);
    served = ground (arith, h);
    let_in = ground (arith, h);
  }

  eligible-admitted :
      (d : Data R) (group_id model : Text) (gate : Gate R) (now : Time) (a : Account R)
      → IsEligible d group_id model gate now a
      → is_admitted d group_id model gate now a ≡ true
  unfolding is_admitted
  eligible-admitted d group_id model gate now a v =
      ground (arith, v.group, v.group_on, v.usable_now, v.served, v.let_in)

  -- Which of the eligible accounts are in the pool.
  pool_cases :
      (d : Data R) (group_id model : Text) (gate : Gate R) (now : Time)
      → (account_pool_gated d group_id model gate now
          ≡ usable_accounts_gated d group_id model gate now)
        ⊎ (account_pool_gated d group_id model gate now
            ≡ keep
                (λ a. account_declares_model d a.id model now)
                (usable_accounts_gated d group_id model gate now))
  unfolding account_pool_gated
  pool_cases d group_id model gate now =
      let pool = usable_accounts_gated d group_id model gate now in
      let explicit = keep (λ (a : Account R). account_declares_model d a.id model now) pool in
      elim (Bool-cases (model == codes "" || length pool == 0)) [
        | inl e ↦ inl (rw e refl)
        | inr e ↦ elim (Bool-cases (ltb 0 (length explicit))) [
          | inl k ↦ inr (rw (e, k) refl)
          | inr k ↦ inl (rw (e, k) refl)
        ]
      ]

  pub pool-IsEligible :
      (d : Data R) (group_id model : Text) (gate : Gate R) (now : Time) (a : Account R)
      → In a (account_pool_gated d group_id model gate now)
      → IsEligible d group_id model gate now a
  unfolding usable_accounts_gated
  pool-IsEligible d group_id model gate now a i =
      let all = usable_accounts_gated d group_id model gate now in
      let j : In a all = elim (pool_cases d group_id model gate now) [
        | inl e ↦ subst (In a) e i
        | inr e ↦
            (In-keep (λ (b : Account R). account_declares_model d b.id model now) all
              (subst (In a) e i)).0
      ] in
      let (k, h) = In-keep (is_admitted d group_id model gate now) d.accounts j in
      admitted-IsEligible d group_id model gate now a k h

  -- Without a model every eligible account is in the pool.
  pub eligible-pool :
      (d : Data R) (group_id model : Text) (gate : Gate R) (now : Time) (a : Account R)
      → (model == codes "") ≡ true
      → IsEligible d group_id model gate now a
      → In a (account_pool_gated d group_id model gate now)
  unfolding account_pool_gated usable_accounts_gated
  eligible-pool d group_id model gate now a m v = rw m (
      keep-In (is_admitted d group_id model gate now) d.accounts v.known
        (eligible-admitted d group_id model gate now a v))

  -- If a model is named and the pool has an account that does not declare it, then no eligible
  -- account declares it: accounts that take any model are a last resort.
  pub pool-prefers :
      (d : Data R) (group_id model : Text) (gate : Gate R) (now : Time) (a b : Account R)
      → (model == codes "") ≡ false
      → In a (account_pool_gated d group_id model gate now)
      → account_declares_model d a.id model now ≡ false
      → IsEligible d group_id model gate now b
      → account_declares_model d b.id model now ≡ false
  unfolding account_pool_gated usable_accounts_gated
  pool-prefers d group_id model gate now a b m i n v =
      let declares : Account R → Bool = λ c. account_declares_model d c.id model now in
      let pool = keep (is_admitted d group_id model gate now) d.accounts in
      let b_in : In b pool =
        keep-In (is_admitted d group_id model gate now) d.accounts v.known
          (eligible-admitted d group_id model gate now b v) in
      elim (Bool-cases (account_declares_model d b.id model now)) [
        | inr e ↦ e
        | inl e ↦
            let named = keep-In declares pool b_in e in
            let some_named : ltb 0 (length (keep declares pool)) ≡ true =
              ground (arith, In-positive b (keep declares pool) named) in
            let some_known : (length pool == 0) ≡ false = ground (arith, In-positive b pool b_in) in
            let j : In a (keep declares pool) = rw (m, some_known, some_named) at i in
            absurd (true-false (sym (In-keep declares pool j).1 ∙ n))
      ]

  -- The account that is picked is in the pool, and the pool is empty if none is.
  pub pick_from_pool-In :
      (d : Data R) (pool : List (Account R)) (model : Text) (now : Time) (a : Account R)
      → pick_from_pool d pool model now ≡ some a
      → In a pool
  unfolding pick_from_pool sort_account_pool
  pick_from_pool-In d pool model now a h = elim (Bool-cases (length pool == 0)) [
    | inl e ↦ absurd (none-some (rw e at h))
    | inr e ↦
        In-sort_stable (less_account d model now) a pool
          (head-In a (sort_stable (less_account d model now) pool) (rw e at h))
  ]

  pub pick_from_pool-some :
      (d : Data R) (x : Account R) (pool : List (Account R)) (model : Text) (now : Time)
      → (a : Account R) × (pick_from_pool d (x ∷ pool) model now ≡ some a)
  unfolding pick_from_pool sort_account_pool
  pick_from_pool-some d x pool model now =
      rw (let e : (length (x ∷ pool) == 0) ≡ false = ground arith in e) (
        head_of (sort_stable (less_account d model now) (x ∷ pool))
          (sort_stable-In (less_account d model now) x (x ∷ pool) (inl refl)))
    where
      head_of : (xs : List (Account R)) → In x xs → (a : Account R) × (head? xs ≡ some a)
      head_of [] i = absurd i
      head_of (y ∷ ys) i = (y, refl)
