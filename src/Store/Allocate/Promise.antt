-- ===== src/Store/Allocate/Promise.antt =====
-- What `AssignAccountGated` promises to the gateway.
use mathlib.Core.Logic.{◌↔◌}
use mathlib.Core.Option.{some-injective}
use laskah.Prelude.{
  none-some, true-false, ◌<◌, ◌≡◌, refl, sym, ◌∙◌, ap, subst, true, not, ◌||◌, Option, none, some,
  List, [], ◌∷◌, arith, inl, inr, ◌⊎◌, Bool-cases, Option-cases, ◌==◌, nat_eq, In, any→In, In→any,
  beq_refl, eq_of_beq,
}
use laskah.Prelude.Float.{Float}
use laskah.Prelude.Text.{Text, codes, text_eq}
use laskah.Store.Model.{Time, ApiKey}
use laskah.Store.Account.{Account, usable}
use laskah.Store.Data.{Data, group_enabled, find_account}
use laskah.Store.Allocate.{
  Gate, passes, account_pool_gated, healthy_providers_for_model, healthy_account_providers,
  contains_account, same_group, keeps_binding, assign_anew, assign_bound, assign_account_gated,
  pick_from_pool, detach_key_account,
}
use laskah.Store.Allocate.Pool.{
  IsEligible, pool-IsEligible, eligible-pool, pick_from_pool-In, pick_from_pool-some,
}
use laskah.Store.Allocate.Assign.{
  Outcome, kept, borrowed, anew, assign-Outcome, find_account-In, assign_new-pick,
}

module _ {R : Type 0} ⦃f : Float R⦄ (d : Data R) (key : ApiKey R) (model : Text) (gate : Gate R)
    (now : Time) where
  -- The accounts that the call is chosen from.
  abbrev pub pool : List (Account R)
  pool = account_pool_gated d key.group_id model gate now

  anew-pick :
      (assign_anew d key model pool now).1
      ≡ pick_from_pool (detach_key_account d key) pool model now
  unfolding assign_anew
  anew-pick =
      assign_new-pick (detach_key_account d key) (record key { account_id = codes "" })
        (pick_from_pool (detach_key_account d key) pool model now) now

  pool-same :
      (a : Account R)
      → contains_account pool a.id ≡ true
      → (b : Account R) × In b pool × ((b.id == a.id) ≡ true)
  unfolding contains_account
  pool-same a h = let (b, i, e) = any→In (λ b. b.id == a.id) pool h in (b, i, e)

  picked :
      (d' : Data R) (a : Account R)
      → pick_from_pool d' pool model now ≡ some a
      → (b : Account R) × In b pool × ((b.id == a.id) ≡ true)
  picked d' a h = (a, pick_from_pool-In d' pool model now a h, beq_refl a.id)

  filled :
      (d' : Data R) (x : Account R) (xs : List (Account R))
      → pool ≡ x ∷ xs
      → (a : Account R) × (pick_from_pool d' pool model now ≡ some a)
  filled d' x xs e =
      subst (λ p. (a : Account R) × (pick_from_pool d' p model now ≡ some a)) (sym e)
        (pick_from_pool-some d' x xs model now)

  Outcome-pool :
      (r : Data R × Option (Account R)) (a : Account R)
      → Outcome d key model gate now r
      → r.1 ≡ some a
      → (b : Account R) × In b pool × ((b.id == a.id) ≡ true)
  Outcome-pool r a (kept current e c) h =
      pool-same a (rw (ap (λ (x : Account R). x.id) (sym (some-injective current a h))) c)
  Outcome-pool r a (borrowed current e c) h = picked d a h
  Outcome-pool r a anew h = picked (detach_key_account d key) a (sym anew-pick ∙ h)

  -- If a call for a key gets an account, an account of the same id is known, in the key's group
  -- (any if the key has none), in a group that is on, usable, let in by the gate, and has a
  -- provider that is ready for the model.
  pub assign-IsEligible :
      (a : Account R)
      → (assign_account_gated d (some key) model gate now).1 ≡ some a
      → (b : Account R) × IsEligible d key.group_id model gate now b × ((b.id == a.id) ≡ true)
  assign-IsEligible a h =
      let (b, i, e) =
        Outcome-pool (assign_account_gated d (some key) model gate now) a
          (assign-Outcome d key model gate now) h in
      (b, pool-IsEligible d key.group_id model gate now b i, e)

  Outcome-some :
      (r : Data R × Option (Account R)) (x : Account R) (xs : List (Account R))
      → pool ≡ x ∷ xs
      → Outcome d key model gate now r
      → (a : Account R) × (r.1 ≡ some a)
  Outcome-some r x xs e (kept current _ c) = (current, refl)
  Outcome-some r x xs e (borrowed current _ c) = filled d x xs e
  Outcome-some r x xs e anew =
      let (a, h) = filled (detach_key_account d key) x xs e in (a, anew-pick ∙ h)

  emptied :
      (xs : List (Account R))
      → pool ≡ xs
      → (assign_account_gated d (some key) model gate now).1 ≡ none
      → pool ≡ []
  emptied [] e h = e
  emptied (x ∷ xs) e h =
      let (a, k) =
        Outcome-some (assign_account_gated d (some key) model gate now) x xs e
          (assign-Outcome d key model gate now) in
      absurd (none-some (sym h ∙ k))

  -- A call for a key gets no account exactly if the pool of accounts for it is empty.
  pub assign-none_iff : ((assign_account_gated d (some key) model gate now).1 ≡ none) ↔ (pool ≡ [])
  assign-none_iff = (
    λ h. emptied pool refl h,
    λ e. elim (Option-cases (assign_account_gated d (some key) model gate now).1) [
      | inl h ↦ h
      | inr (a, h) ↦
          let (b, i, q) =
            Outcome-pool (assign_account_gated d (some key) model gate now) a
              (assign-Outcome d key model gate now) h in
          absurd (subst (In b) e i)
    ],
  )

  bound_keeps :
      (current : Account R)
      → (contains_account pool current.id ≡ true) ⊎ (keeps_binding d model gate now current ≡ true)
      → same_group key current ≡ true
      → (assign_bound d key model gate pool now (some current)).0 ≡ d
  unfolding assign_bound
  bound_keeps current c s = elim (Bool-cases (contains_account pool current.id)) [
    | inl e ↦ rw (s, e) refl
    | inr e ↦ elim c [ inl k ↦ absurd (true-false (sym k ∙ e)) | inr k ↦ rw (s, e, k) refl ]
  ]

  found_none : (key.account_id == codes "") ≡ true → find_account d key.account_id ≡ none
  unfolding find_account
  found_none b = rw b refl

  found_bound :
      (current : Account R)
      → find_account d key.account_id ≡ some current
      → assign_account_gated d (some key) model gate now
        ≡ assign_bound d key model gate pool now (some current)
  unfolding assign_account_gated
  found_bound current e = elim (Bool-cases (key.account_id == codes "")) [
    | inl b ↦ absurd (none-some (sym (found_none b) ∙ e))
    | inr b ↦ rw b (ap (assign_bound d key model gate pool now) e)
  ]

  -- A healthy account is in the pool, or its binding is kept.
  healthy_stays :
      (current : Account R)
      → find_account d key.account_id ≡ some current
      → same_group key current ≡ true
      → group_enabled d current.group_id ≡ true
      → usable current ≡ true
      → 0 < healthy_providers_for_model d current.id (codes "") now
      → (contains_account pool current.id ≡ true) ⊎ (keeps_binding d model gate now current ≡ true)
  unfolding keeps_binding contains_account same_group healthy_account_providers
  healthy_stays current e s g u h =
      elim (Bool-cases (not (model == codes "") || not (passes gate current))) [
        | inl b ↦ inr (ground (arith, b, g, u, h))
        | inr b ↦
            let m : (model == codes "") ≡ true = ground (arith, b) in
            let p : passes gate current ≡ true = ground (arith, b) in
            inl (
              In→any (λ a. a.id == current.id) pool
                (eligible-pool d key.group_id model gate now current m (record {
                  known = find_account-In d key.account_id current e;
                  group = same s;
                  group_on = g;
                  usable_now = u;
                  served = rw (eq_of_beq model (codes "") m) h;
                  let_in = p;
                }))
                (beq_refl current.id))
      ]
    where
      same :
          same_group key current ≡ true
          → (key.group_id == codes "" || current.group_id == key.group_id) ≡ true
      same h = h

  -- If a key is bound to an account that is known, of the key's group, in a group that is on,
  -- usable, and has a provider that is ready, then a call for the key leaves the data as it
  -- was, whatever the model and the gate: a refused or unserved call never moves the binding.
  pub assign-keeps_binding :
      (current : Account R)
      → find_account d key.account_id ≡ some current
      → same_group key current ≡ true
      → group_enabled d current.group_id ≡ true
      → usable current ≡ true
      → 0 < healthy_providers_for_model d current.id (codes "") now
      → (assign_account_gated d (some key) model gate now).0 ≡ d
  assign-keeps_binding current e s g u h =
      ap (λ (r : Data R × Option (Account R)). r.0) (found_bound current e)
      ∙ bound_keeps current (healthy_stays current e s g u h) s
