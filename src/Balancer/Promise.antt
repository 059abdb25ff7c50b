-- ===== src/Balancer/Promise.antt =====
-- `Order` and `Pick`, for every strategy, every draw and every state of the balancer.
use mathlib.Core.List.Perm
use laskah.Prelude.Float.{Float}
use laskah.Prelude.Int.{ℤ, int_eq}
use laskah.Prelude.Parts.{Unique, Covers, parts, parts-perm}
use laskah.Prelude.Sorts.{sort_stable, IsSorted, sort_stable-IsSorted}
use laskah.Prelude.{ℕ, List, [], Perm, inl, inr, Bool-cases, length, leb, if◌then◌else◌}
use laskah.Store.Model.{Provider, Time}
use laskah.Balancer.{
  Balancer, Strategy, Criteria, candidates, group, sort_groups, order, valid_strategy,
}
use laskah.Balancer.Groups.{priority_of, IsGrouping, group_all-IsGrouping}
use laskah.Balancer.Order.{
  desc, desc-IsWeakOrder, later_first, sort_stable-Unique, sort_stable-Covers, sort_groups-perm,
  sort_groups-IsSorted, short-IsSorted,
}

module _ {R : Type 0} ⦃f : Float R⦄ (rng : ℕ → R) (clock : Time) (b : Balancer)
    (providers : List (Provider R)) (criteria : Criteria) where
  -- For every strategy, draw, cursor and clock, the order that `Order` gives is a permutation
  -- of the candidates: each candidate is in it exactly once, and nothing else is.
  pub order-perm :
      Perm (candidates clock providers criteria) (order rng clock b providers criteria).1
  unfolding order
  order-perm = elim (Bool-cases (leb (length pool) 1)) [
    | inl e ↦ rw e Perm.rfl
    | inr e ↦ rw e (Perm.trans (parts-perm priority_of ks pool unique covers) sorted)
  ]
    where
      pool : List (Provider R)
      pool = candidates clock providers criteria

      made : IsGrouping (group [] [] pool).0 (group [] [] pool).1 pool
      made = group_all-IsGrouping pool

      ks : List ℤ
      ks = sort_stable desc (group [] [] pool).1

      unique : Unique ks
      unique = sort_stable-Unique (group [] [] pool).1 made.unique

      covers : Covers priority_of ks pool
      covers = sort_stable-Covers (group [] [] pool).1 pool made.covers

      strategy : Strategy
      strategy = if valid_strategy criteria.strategy then criteria.strategy else b.default_strategy

      sorted :
          Perm (parts priority_of ks pool) (sort_groups rng b ks (group [] [] pool).0 strategy).1
      sorted = sort_groups-perm rng b ks (group [] [] pool).0 pool strategy made.kept

  -- For every strategy, draw, cursor and clock, no provider stands in the order before one of a
  -- higher priority.
  pub order-IsSorted : IsSorted later_first (order rng clock b providers criteria).1
  unfolding order
  order-IsSorted = elim (Bool-cases (leb (length pool) 1)) [
    | inl e ↦ rw e (short-IsSorted pool e)
    | inr e ↦ rw e (
        sort_groups-IsSorted rng b (sort_stable desc (group [] [] pool).1) (group [] [] pool).0 pool
          (if valid_strategy criteria.strategy then criteria.strategy else b.default_strategy)
          (group_all-IsGrouping pool).kept
          (sort_stable-IsSorted desc desc-IsWeakOrder (group [] [] pool).1))
  ]
    where
      pool : List (Provider R)
      pool = candidates clock providers criteria
