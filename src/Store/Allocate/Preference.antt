-- ===== src/Store/Allocate/Preference.antt =====
-- The comparison of `sortAccountPool` is a strict weak order.
use laskah.Prelude.{◌≡◌, sym, ◌∙◌, Bool, not, ◌&&◌, ◌||◌, arith, nat_eq, ltb}
use laskah.Prelude.Float.{Float, IsOrdered}
use laskah.Prelude.Text.{Text, text_eq}
use laskah.Prelude.Sorts.{IsWeakOrder}
use laskah.Store.Model.{Time}
use laskah.Store.Account.{Account, unlimited}
use laskah.Store.Data.{Data, keys_using_account}
use laskah.Store.Allocate.{account_key_pressure_for_model, less_account}

-- First by `major`, and by `minor` where `major` does not decide.
abbrev by : {A : Type 0} → (A → A → Bool) → (A → A → Bool) → A → A → Bool
by major minor a b = major a b || (not (major b a) && minor a b)

by-IsWeakOrder :
    {A : Type 0} (major minor : A → A → Bool)
    → IsWeakOrder major
    → IsWeakOrder minor
    → IsWeakOrder (by major minor)
by-IsWeakOrder major minor p q = record {
  irrefl = λ a. ground (arith, p.irrefl a, q.irrefl a);
  asym = λ a b h. ground (arith, p.asym a b, p.asym b a, q.asym a b);
  split = λ a b c h k. ground (
    arith,
    p.split a b c,
    p.split b c a,
    p.split c a b,
    p.split c b a,
    p.split b a c,
    p.split a c b,
    p.asym a b,
    p.asym b c,
    p.asym a c,
    q.split a b c,
  );
}

-- An order of a key of the elements.
on-IsWeakOrder :
    {A B : Type 0} (less : B → B → Bool) (key : A → B)
    → IsWeakOrder less
    → IsWeakOrder (λ a b. less (key a) (key b))
on-IsWeakOrder less key o = record {
  irrefl = λ a. o.irrefl (key a);
  asym = λ a b. o.asym (key a) (key b);
  split = λ a b c. o.split (key a) (key b) (key c);
}

ltb-IsWeakOrder : IsWeakOrder ltb
ltb-IsWeakOrder = record {
  irrefl = λ a. ground arith;
  asym = λ a b h. ground arith;
  split = λ a b c h k. ground arith;
}

first_true-IsWeakOrder : IsWeakOrder (λ a b. a && not b)
first_true-IsWeakOrder = record {
  irrefl = λ a. ground arith;
  asym = λ a b h. ground arith;
  split = λ a b c h k. ground arith;
}

module _ {R : Type 0} ⦃f : Float R⦄ (o : IsOrdered f) where
  lt-IsWeakOrder : IsWeakOrder f.lt
  lt-IsWeakOrder = record {
    irrefl = o.lt_irrefl;
    asym = λ a b h. ground (arith, o.lt_trans a b a h, o.lt_irrefl a);
    split = λ a b c h k. ground (arith, h, k, o.lt_of_ne a b, o.lt_trans b a c, o.eq-lt a b c);
  }

  gt-IsWeakOrder : IsWeakOrder (λ a b. f.lt b a)
  gt-IsWeakOrder = record {
    irrefl = o.lt_irrefl;
    asym = λ a b h. lt-IsWeakOrder.asym b a h;
    split = λ a b c h k. lt-IsWeakOrder.split c b a k h;
  }

  -- Equality is what the order does not decide.
  pub eq_lem : (a b : R) → f.eq a b ≡ (not (f.lt a b) && not (f.lt b a))
  eq_lem a b = ground (arith, o.lt_of_ne a b, o.eq-lt a b b, o.lt-eq a b b, o.lt_irrefl b)

  -- The five criteria, one after the other.
  abbrev criteria : Data R → Text → Time → Account R → Account R → Bool
  criteria d model now =
      by
        (λ a b.
          f.lt (account_key_pressure_for_model d a.id model now)
            (account_key_pressure_for_model d b.id model now))
        (by (λ a b. ltb (keys_using_account d a.id) (keys_using_account d b.id))
          (by (λ a b. unlimited a && not (unlimited b))
            (by (λ a b. f.lt b.balance a.balance) (λ a b. ltb a.created_at b.created_at))))

  criteria_lem :
      (d : Data R) (model : Text) (now : Time) (a b : Account R)
      → less_account d model now a b ≡ criteria d model now a b
  unfolding less_account
  criteria_lem d model now a b =
      let p = account_key_pressure_for_model d a.id model now in
      let q = account_key_pressure_for_model d b.id model now in
      ground (arith, eq_lem p q, eq_lem a.balance b.balance)

  criteria-IsWeakOrder :
      (d : Data R) (model : Text) (now : Time) → IsWeakOrder (criteria d model now)
  criteria-IsWeakOrder d model now =
      by-IsWeakOrder _ _
        (on-IsWeakOrder f.lt (λ (a : Account R). account_key_pressure_for_model d a.id model now)
          lt-IsWeakOrder)
        (by-IsWeakOrder _ _
          (on-IsWeakOrder ltb (λ (a : Account R). keys_using_account d a.id) ltb-IsWeakOrder)
          (by-IsWeakOrder _ _ (on-IsWeakOrder _ unlimited first_true-IsWeakOrder) (
            by-IsWeakOrder _ _ (on-IsWeakOrder _ (λ (a : Account R). a.balance) gt-IsWeakOrder)
              (on-IsWeakOrder ltb (λ (a : Account R). a.created_at) ltb-IsWeakOrder))))

  pub less_account-IsWeakOrder :
      (d : Data R) (model : Text) (now : Time) → IsWeakOrder (less_account d model now)
  less_account-IsWeakOrder d model now =
      let c = criteria-IsWeakOrder d model now in
      record {
        irrefl = λ a. criteria_lem d model now a a ∙ c.irrefl a;
        asym = λ a b h.
            criteria_lem d model now b a ∙ c.asym a b (sym (criteria_lem d model now a b) ∙ h);
        split = λ a b e h k.
            criteria_lem d model now a e
            ∙ c.split a b e (sym (criteria_lem d model now a b) ∙ h)
                (sym (criteria_lem d model now b e) ∙ k);
      }
