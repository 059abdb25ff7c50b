-- ===== src/Store/Allocate/Assign.antt =====
-- `AssignAccountGated`: what it gives, and what it does to the binding of the key.
use mathlib.Core.Option.{some-injective}
use laskah.Prelude.{
  none-some, ℕ, zero, suc, ◌≡◌, refl, sym, true, ◌&&◌, Option, none, some, List, [], ◌∷◌, arith,
  inl, inr, Bool-cases, Option-cases, ◌==◌, nat_eq, In, find, find→In, get_elem?,
}
use laskah.Prelude.Float.{Float}
use laskah.Prelude.Text.{Text, codes, text_eq}
use laskah.Prelude.Maps.{lookup}
use laskah.Store.Model.{Time, ApiKey}
use laskah.Store.Account.{Account}
use laskah.Store.Data.{Data, find_account, at_index}
use laskah.Store.Allocate.{
  Gate, account_pool_gated, contains_account, same_group, keeps_binding, assign_new, assign_anew,
  assign_bound, assign_account_gated, pick_from_pool,
}

module _ {R : Type 0} ⦃f : Float R⦄ where
  -- The account that an id finds is one of the data's.
  get_elem-In : (xs : List (Account R)) (i : ℕ) (a : Account R) → get_elem? xs i ≡ some a → In a xs
  get_elem-In [] i a h = absurd (none-some h)
  get_elem-In (x ∷ xs) zero a h = inl (sym (some-injective x a h))
  get_elem-In (x ∷ xs) (suc i) a h = inr (get_elem-In xs i a h)

  at_index-In :
      (xs : List (Account R)) (id : Text) (m : List (Text × ℕ)) (a : Account R)
      → at_index xs id m ≡ some a
      → In a xs
  unfolding at_index
  at_index-In xs id m a h = found (lookup id m) h
    where
      found : (o : Option ℕ) → elim o [ none ↦ none | some i ↦ get_elem? xs i ] ≡ some a → In a xs
      found none k = absurd (none-some k)
      found (some i) k = get_elem-In xs i a k

  pub find_account-In :
      (d : Data R) (id : Text) (a : Account R) → find_account d id ≡ some a → In a d.accounts
  unfolding find_account
  find_account-In d id a h = elim (Bool-cases (id == codes "")) [
    | inl e ↦ absurd (none-some (rw e at h))
    | inr e ↦ searched (rw e at h)
  ]
    where
      searched :
          elim d.index [
            | some ix ↦ at_index d.accounts id ix.account_by_id
            | none ↦ find (λ (b : Account R). b.id == id) d.accounts
          ]
            ≡ some a
          → In a d.accounts
      searched k = elim (Option-cases d.index) [
        | inl e ↦ (find→In (λ (b : Account R). b.id == id) d.accounts (rw e at k)).0
        | inr (ix, e) ↦ at_index-In d.accounts id ix.account_by_id a (rw e at k)
      ]

  pub assign_new-pick :
      (d : Data R) (key : ApiKey R) (o : Option (Account R)) (now : Time)
      → (assign_new d key o now).1 ≡ o
  unfolding assign_new
  assign_new-pick d key none now = refl
  assign_new-pick d key (some a) now = refl

  -- The three outcomes of a call for a key.
  pub data Outcome (d : Data R) (key : ApiKey R) (model : Text) (gate : Gate R) (now : Time)
      : Data R × Option (Account R) → Type 0 where
    kept :
        (current : Account R)
        → find_account d key.account_id ≡ some current
        → contains_account (account_pool_gated d key.group_id model gate now) current.id ≡ true
        → Outcome d key model gate now (d, some current)
    borrowed :
        (current : Account R)
        → find_account d key.account_id ≡ some current
        → keeps_binding d model gate now current ≡ true
        → Outcome d key model gate now
            (d, pick_from_pool d (account_pool_gated d key.group_id model gate now) model now)
    anew :
        Outcome d key model gate now
          (assign_anew d key model (account_pool_gated d key.group_id model gate now) now)

  bound-Outcome :
      (d : Data R) (key : ApiKey R) (model : Text) (gate : Gate R) (now : Time)
      (o : Option (Account R))
      → find_account d key.account_id ≡ o
      → Outcome d key model gate now
          (assign_bound d key model gate (account_pool_gated d key.group_id model gate now) now o)
  unfolding assign_bound
  bound-Outcome d key model gate now none e = anew
  bound-Outcome d key model gate now (some current) e =
      let pool = account_pool_gated d key.group_id model gate now in
      elim (Bool-cases (same_group key current && contains_account pool current.id)) [
        | inl b ↦ rw b (kept current e (ground (arith, b)))
        | inr b ↦
            elim (Bool-cases (same_group key current && keeps_binding d model gate now current)) [
              | inl c ↦ rw (b, c) (borrowed current e (ground (arith, c)))
              | inr c ↦ rw (b, c) anew
            ]
      ]

  pub assign-Outcome :
      (d : Data R) (key : ApiKey R) (model : Text) (gate : Gate R) (now : Time)
      → Outcome d key model gate now (assign_account_gated d (some key) model gate now)
  unfolding assign_account_gated
  assign-Outcome d key model gate now = elim (Bool-cases (key.account_id == codes "")) [
    | inl e ↦ rw e anew
    | inr e ↦ rw e (bound-Outcome d key model gate now (find_account d key.account_id) refl)
  ]
