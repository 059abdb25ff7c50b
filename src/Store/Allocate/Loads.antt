-- ===== src/Store/Allocate/Loads.antt =====
-- The index of the keys bound to each account stays exact while keys are assigned.
use mathlib.Core.Option.{some-injective}
use laskah.Prelude.{
  none-some, ℕ, suc, ◌+◌, ◌-◌, ◌<◌, ◌≡◌, refl, sym, ◌∙◌, ap, subst, Bool, true, false, Option, none,
  some, List, [], ◌∷◌, arith, inl, inr, ◌⊎◌, Bool-cases, ◌==◌, nat_eq, ltb, if◌then◌else◌, count,
  beq_refl, beq_cases, eq_of_beq,
}
use laskah.Prelude.Float.{Float}
use laskah.Prelude.Text.{Text, codes, text_eq}
use laskah.Prelude.Maps.{lookup, beq_swap}
use laskah.Store.Model.{Time, ApiKey}
use laskah.Store.Account.{Account}
use laskah.Store.Data.{Data, Indexes, number_at, reindex}
use laskah.Store.Data.Search.{number_at-insert, number_at-key_loads, loads_from_none}
use laskah.Store.Allocate.{
  Gate, raise_load, lower_load, put_key, with_load, change_load, bind_key, detach_key_account,
  assign_new, assign_anew, assign_account_gated,
}
use laskah.Store.Allocate.Assign.{Outcome, kept, borrowed, anew, assign-Outcome}

-- 1 for a key that is bound to the account.
abbrev owns : Text → Text → ℕ
owns own id = if own == id then 1 else 0

owns_none : (id : Text) → (id == codes "") ≡ false → owns (codes "") id ≡ 0
owns_none id n = rw (beq_swap (codes "") id, n) refl

number_at-raise :
    (own id : Text) (m : List (Text × ℕ))
    → number_at id (raise_load own m) ≡ number_at id m + owns own id
unfolding raise_load
number_at-raise own id m =
    number_at-insert own id (suc (number_at own m)) m ∙ counted (beq_cases own id)
  where
    counted :
        ((own == id) ≡ true) × (own ≡ id) ⊎ ((own == id) ≡ false) × (¬ (own ≡ id))
        → (if own == id then suc (number_at own m) else number_at id m)
          ≡ number_at id m + owns own id
    counted (inl (b, q)) = rw b (rw q (omega arith))
    counted (inr (b, q)) = rw b (omega arith)

number_at-lower :
    (own id : Text) (m : List (Text × ℕ))
    → 0 < number_at own m
    → number_at id (lower_load own m) + owns own id ≡ number_at id m
unfolding lower_load
number_at-lower own id m h =
    rw
      (
        let e : ltb 0 (number_at own m) ≡ true = ground arith in e,
        number_at-insert own id (number_at own m - 1) m,
      )
      (counted (beq_cases own id))
  where
    counted :
        ((own == id) ≡ true) × (own ≡ id) ⊎ ((own == id) ≡ false) × (¬ (own ≡ id))
        → (if own == id then number_at own m - 1 else number_at id m) + owns own id ≡ number_at id m
    counted (inl (b, q)) = rw b (rw (← q) (omega (arith, h)))
    counted (inr (b, q)) = rw b (omega arith)

module _ {R : Type 0} where
  abbrev pub bound : Text → List (ApiKey R) → ℕ
  bound id ks = count (λ k. k.account_id == id) ks

  -- Each account's load is the number of the keys that are bound to it.
  abbrev pub IsExact : List (Text × ℕ) → List (ApiKey R) → Type 0
  IsExact m ks = (id : Text) → (id == codes "") ≡ false → number_at id m ≡ bound id ks

  -- The key stands in the list: the first with its id.
  abbrev pub Stands : ApiKey R → List (ApiKey R) → Type 0
  Stands key [] = ⊥
  Stands key (k ∷ ks) = (key ≡ k) ⊎ (((k.id == key.id) ≡ false) × Stands key ks)

  -- A write that keeps the key's id moves the key from one account to the other.
  bound-put_key :
      (id : Text) (key new : ApiKey R) (ks : List (ApiKey R))
      → new.id ≡ key.id
      → Stands key ks
      → bound id (put_key new ks) + owns key.account_id id ≡ bound id ks + owns new.account_id id
  unfolding put_key count
  bound-put_key id key new [] e s = absurd s
  bound-put_key id key new (k ∷ ks) e (inl q) =
      let here : (k.id == new.id) ≡ true = rw (e, q) (beq_refl k.id) in
      rw here (rw q (counted (k.account_id == id) (new.account_id == id)))
    where
      counted :
          (b c : Bool)
          → (if c then suc (bound id ks) else bound id ks) + (if b then 1 else 0)
            ≡ (if b then suc (bound id ks) else bound id ks) + (if c then 1 else 0)
      counted b c = ground arith
  bound-put_key id key new (k ∷ ks) e (inr (ne, s)) =
      let there : (k.id == new.id) ≡ false = rw e ne in
      let rest = bound-put_key id key new ks e s in
      elim (Bool-cases (k.account_id == id)) [
        | inl b ↦ rw (there, b) (omega (arith, rest))
        | inr b ↦ rw (there, b) rest
      ]

  Stands-put_key :
      (key new : ApiKey R) (ks : List (ApiKey R))
      → new.id ≡ key.id
      → Stands key ks
      → Stands new (put_key new ks)
  unfolding put_key
  Stands-put_key key new [] e s = absurd s
  Stands-put_key key new (k ∷ ks) e (inl q) =
      let here : (k.id == new.id) ≡ true = rw (e, q) (beq_refl k.id) in rw here (inl refl)
  Stands-put_key key new (k ∷ ks) e (inr (ne, s)) =
      let there : (k.id == new.id) ≡ false = rw e ne in
      rw there (inr (there, Stands-put_key key new ks e s))

  lowered :
      (key new : ApiKey R) (ks : List (ApiKey R)) (m : List (Text × ℕ))
      → new.id ≡ key.id
      → new.account_id ≡ codes ""
      → Stands key ks
      → (key.account_id == codes "") ≡ false
      → IsExact m ks
      → IsExact (lower_load key.account_id m) (put_key new ks)
  lowered key new ks m e a s n x id ni =
      let own = key.account_id in
      let held = x own n in
      let moved_own = bound-put_key own key new ks e s in
      let moved = bound-put_key id key new ks e s in
      let self : owns own own ≡ 1 = rw (beq_refl own) refl in
      let gone_own : owns new.account_id own ≡ 0 = rw a (owns_none own n) in
      let gone : owns new.account_id id ≡ 0 = rw a (owns_none id ni) in
      let some_key : 0 < number_at own m = omega (arith, held, moved_own, self, gone_own) in
      let low = number_at-lower own id m some_key in
      let all = x id ni in omega (arith, low, all, moved, gone)

  raised :
      (key new : ApiKey R) (ks : List (ApiKey R)) (m : List (Text × ℕ))
      → new.id ≡ key.id
      → key.account_id ≡ codes ""
      → Stands key ks
      → IsExact m ks
      → IsExact (raise_load new.account_id m) (put_key new ks)
  raised key new ks m e a s x id ni =
      let own = new.account_id in
      let moved = bound-put_key id key new ks e s in
      let none_before : owns key.account_id id ≡ 0 = rw a (owns_none id ni) in
      let high = number_at-raise own id m in
      let all = x id ni in omega (arith, moved, none_before, high, all)

  -- The load index of the data, if it has been made, is exact.
  abbrev pub LoadsExact : Data R → Type 0
  LoadsExact d = (ix : Indexes) → d.index ≡ some ix → IsExact ix.account_key_load d.keys

  -- A changed load with the keys that go with it.
  changed-IsExact :
      (change : List (Text × ℕ) → List (Text × ℕ)) (o : Option Indexes) (ks ks' : List (ApiKey R))
      → ((m : List (Text × ℕ)) → IsExact m ks → IsExact (change m) ks')
      → ((ix : Indexes) → o ≡ some ix → IsExact ix.account_key_load ks)
      → (ix : Indexes) → change_load change o ≡ some ix
      → IsExact ix.account_key_load ks'
  unfolding change_load
  changed-IsExact change none ks ks' step x ix h = absurd (none-some h)
  changed-IsExact change (some i) ks ks' step x ix h =
      subst (λ (j : Indexes). IsExact j.account_key_load ks') (some-injective _ ix h)
        (step i.account_key_load (x i refl))

  detach-exact :
      (d : Data R) (key : ApiKey R)
      → Stands key d.keys
      → LoadsExact d
      → LoadsExact (detach_key_account d key)
        × Stands (record key { account_id = codes "" }) (detach_key_account d key).keys
  unfolding detach_key_account bind_key with_load
  detach-exact d key s x = elim (Bool-cases (key.account_id == codes "")) [
    | inl e ↦ rw e (
      x,
      subst (λ (own : Text). Stands (record key { account_id = own }) d.keys)
          (eq_of_beq key.account_id (codes "") e) s,
    )
    | inr e ↦
        let new = record key { account_id = codes "" } in
        rw e (
          changed-IsExact (lower_load key.account_id) d.index d.keys (put_key new d.keys)
              (λ m y. lowered key new d.keys m refl refl s e y) x,
          Stands-put_key key new d.keys refl s,
        )
  ]

  assign_new-exact :
      (d : Data R) (key : ApiKey R) (o : Option (Account R)) (now : Time)
      → key.account_id ≡ codes ""
      → Stands key d.keys
      → LoadsExact d
      → LoadsExact (assign_new d key o now).0
  unfolding assign_new bind_key with_load
  assign_new-exact d key none now e s x = x
  assign_new-exact d key (some a) now e s x =
      let new = record key { account_id = a.id; updated_at = now } in
      changed-IsExact (raise_load a.id) d.index d.keys (put_key new d.keys)
        (λ m y. raised key new d.keys m refl e s y) x

  -- After `reindex` the load index counts for every account the keys that are bound to it,
  -- whatever the data held before.
  pub reindex-LoadsExact : (d : Data R) → LoadsExact (reindex d)
  unfolding reindex lookup number_at
  reindex-LoadsExact d ix e id n =
      ap (λ (i : Indexes). number_at id i.account_key_load) (sym (some-injective _ ix e))
      ∙ loads_from_none (number_at-key_loads id d.keys [] n)

module _ {R : Type 0} ⦃f : Float R⦄ where
  -- If the key stands in the data and the load index, where it has been made, counts for every
  -- account the keys bound to it, then it still does after an account is assigned to the key,
  -- whether the key keeps, borrows, changes or gets its account.
  pub assign-LoadsExact :
      (d : Data R) (key : ApiKey R) (model : Text) (gate : Gate R) (now : Time)
      → Stands key d.keys
      → LoadsExact d
      → LoadsExact (assign_account_gated d (some key) model gate now).0
  unfolding assign_anew
  assign-LoadsExact d key model gate now s x =
      outcome (assign_account_gated d (some key) model gate now)
        (assign-Outcome d key model gate now)
    where
      outcome : (r : Data R × Option (Account R)) → Outcome d key model gate now r → LoadsExact r.0
      outcome r (kept current e c) = x
      outcome r (borrowed current e c) = x
      outcome r anew =
          let (y, t) = detach-exact d key s x in
          assign_new-exact (detach_key_account d key) (record key { account_id = codes "" }) _ now
            refl t y
