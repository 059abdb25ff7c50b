-- ===== src/Balancer/Pick.antt =====
-- `Pick`: the best candidate, or none only if there is none.
use mathlib.Core.Bool.{Bool-set}
use mathlib.Core.List.{Mem, mem-cons_self}
use mathlib.Core.List.Perm
use laskah.Prelude.Float.{Float}
use laskah.Prelude.Int.{ltb_ℤ}
use laskah.Prelude.{
  ℕ, ◌≡◌, refl, subst, Bool, true, false, none, some, List, [], ◌∷◌, Perm, arith, All, All-mem,
  All-keep, mem-keep, keep-mem, keep, head?, ◌↔◌,
}
use laskah.Prelude.Sorts.{IsSorted}
use laskah.Store.Model.{Provider, Time}
use laskah.Balancer.{Balancer, Criteria, is_candidate, decision_time, candidates, order, pick}
use laskah.Balancer.Order.{later_first}
use laskah.Balancer.Promise.{order-perm, order-IsSorted}

module _ {R : Type 0} where
  head-mem : (p : Provider R) (xs : List (Provider R)) → head? xs ≡ some p → Mem p xs
  head-mem p [] h = absurd (ground arith)
  head-mem p (x ∷ xs) h =
      let e : x ≡ p = ground arith in subst (λ y. Mem y (x ∷ xs)) e mem-cons_self

  ltb_irrefl : (p : Provider R) → later_first p p ≡ false
  ltb_irrefl p = ground arith

  head_best :
      (p : Provider R) (xs : List (Provider R))
      → head? xs ≡ some p
      → IsSorted later_first xs
      → All (λ y. later_first y p ≡ false) xs
  head_best p [] h s = tt
  head_best p (x ∷ xs) h s =
      let e : x ≡ p = ground arith in
      subst (λ y. All (λ z. later_first z y ≡ false) (x ∷ xs)) e (ltb_irrefl x, s.0)

  head_nil : (xs : List (Provider R)) → head? xs ≡ none → xs ≡ []
  head_nil [] h = refl
  head_nil (x ∷ xs) h = absurd (ground arith)

module _ {R : Type 0} ⦃f : Float R⦄ (rng : ℕ → R) (clock : Time) (b : Balancer)
    (providers : List (Provider R)) (criteria : Criteria) where
  -- `Pick` gives no provider exactly if no provider is a candidate.
  pub pick-none_iff :
      ((pick rng clock b providers criteria).1 ≡ none) ↔ (candidates clock providers criteria ≡ [])
  unfolding pick
  pick-none_iff = (
    λ h. Perm.eq-nil (subst (Perm (candidates clock providers criteria)) (head_nil _ h) ordered),
    λ h.
        rw
          (Perm.eq-nil
            (subst (λ l. Perm (order rng clock b providers criteria).1 l) h (Perm.symm ordered)))
          refl,
  )
    where
      ordered : Perm (candidates clock providers criteria) (order rng clock b providers criteria).1
      ordered = order-perm rng clock b providers criteria

  -- If `Pick` gives a provider and another of the providers is a candidate, then the one given
  -- is one of the providers, is a candidate, and does not have a lower priority than the other.
  pub pick_best :
      (p q : Provider R)
      → (pick rng clock b providers criteria).1 ≡ some p
      → Mem q providers
      → is_candidate criteria (decision_time clock criteria) q ≡ true
      → Mem p providers
        × (is_candidate criteria (decision_time clock criteria) p ≡ true)
        × (ltb_ℤ p.priority q.priority ≡ false)
  unfolding pick candidates
  pick_best p q h m c = (
    mem-keep test providers here,
    All-mem pool (λ x. Bool-set _ _) (All-keep test providers) here,
    All-mem sorted (λ x. Bool-set _ _)
        (head_best p sorted h (order-IsSorted rng clock b providers criteria))
        (Perm.subset (order-perm rng clock b providers criteria) q (keep-mem test providers m c)),
  )
    where
      test : Provider R → Bool
      test = is_candidate criteria (decision_time clock criteria)

      pool : List (Provider R)
      pool = keep test providers

      sorted : List (Provider R)
      sorted = (order rng clock b providers criteria).1

      here : Mem p pool
      here =
          Perm.subset (Perm.symm (order-perm rng clock b providers criteria)) p
            (head-mem p sorted h)
