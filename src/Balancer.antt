-- ===== src/Balancer.antt =====
-- internal/balancer/balancer.go: the choice and the order of upstream APIs, and their health.
-- The cursor wraps as a uint64; the draws of `rand.Rand` are a stream `rng` of numbers, of which the
-- state counts those used. `clock` is `time.Now()`.
pub mod Report
pub mod Health
pub mod Groups
pub mod Permute
pub mod Order
pub mod Promise
pub mod Pick
pub mod RoundRobin
use laskah.Prelude.{
  ℕ, zero, suc, ◌+◌, ◌-◌, ◌*◌, ◌/◌, ◌%◌, ◌^◌, Bool, true, false, not, ◌&&◌, ◌||◌, Option, none,
  some, List, [], ◌∷◌, ◌++◌, ◌==◌, nat_eq, ltb, leb, if◌then◌else◌, any, keep, length, take, drop,
  head?,
}
use laskah.Prelude.Text.{Text, codes, text_eq}
use laskah.Prelude.Maps.{lookup, insert}
use laskah.Prelude.Int.{ℤ, ltb_ℤ, int_eq}
use laskah.Prelude.Float.{Float}
use laskah.Prelude.Sorts.{sort_stable}
use laskah.Store.Model.{Time, second, Provider, ProviderStats, supports_model}

pub data Strategy : Type 0 where
  weighted_random round_robin least_latency least_inflight by_priority : Strategy
  other : Text → Strategy

abbrev pub valid_strategy : Strategy → Bool
valid_strategy (other name) = false
valid_strategy _ = true

pub record Criteria : Type 0 where
  pub model : Text
  pub provider_ids : List Text
  pub strategy : Strategy
  pub now : Time

pub record Balancer : Type 0 where
  pub default_strategy : Strategy
  pub cooldown : ℕ
  pub failure_threshold : ℕ
  pub cursor : ℕ
  pub draws : ℕ

unfoldable pub new : Strategy → ℕ → ℕ → Balancer
new strategy cooldown failure_threshold = record {
  default_strategy = if valid_strategy strategy then strategy else weighted_random;
  cooldown = if cooldown == 0 then 30 * second else cooldown;
  failure_threshold = if failure_threshold == 0 then 3 else failure_threshold;
  cursor = 0;
  draws = 0;
}

unfoldable pub set_strategy : Balancer → Strategy → Balancer
set_strategy b strategy =
    if valid_strategy strategy then record b { default_strategy = strategy } else b

-- The caller's time, or the clock's if it gives none.
unfoldable pub decision_time : Time → Criteria → Time
decision_time clock criteria = if criteria.now == 0 then clock else criteria.now

module _ {R : Type 0} where
  unfoldable pub is_candidate : Criteria → Time → Provider R → Bool
  is_candidate criteria now p =
      p.enabled
      && not (ltb now p.cooldown_until)
      && (length criteria.provider_ids == 0 || any (λ id. id == p.id) criteria.provider_ids)
      && supports_model p criteria.model

  unfoldable pub candidates : Time → List (Provider R) → Criteria → List (Provider R)
  candidates clock providers criteria =
      keep (is_candidate criteria (decision_time clock criteria)) providers

  -- The groups by priority, and the priorities in the order of their first provider.
  unfoldable pub group :
      List (ℤ × List (Provider R))
      → List ℤ
      → List (Provider R)
      → List (ℤ × List (Provider R)) × List ℤ
  group groups priorities [] = (groups, priorities)
  group groups priorities (p ∷ ps) = elim (lookup p.priority groups) [
    | none ↦ group (insert p.priority (p ∷ []) groups) (priorities ++ p.priority ∷ []) ps
    | some g ↦ group (insert p.priority (g ++ p ∷ []) groups) priorities ps
  ]

  -- `groups[priority]`; a missing key reads as the empty slice.
  unfoldable pub members : ℤ → List (ℤ × List (Provider R)) → List (Provider R)
  members k groups = elim (lookup k groups) [ none ↦ [] | some g ↦ g ]

  -- `list[i]`, and the list without it.
  unfoldable pub take_out : ℕ → List (Provider R) → Option (Provider R × List (Provider R))
  take_out i [] = none
  take_out zero (p ∷ ps) = some (p, ps)
  take_out (suc i) (p ∷ ps) = elim (take_out i ps) [
    | none ↦ none
    | some (q, rest) ↦ some (q, p ∷ rest)
  ]

module _ {R : Type 0} ⦃f : Float R⦄ where
  unfoldable pub latency_score : Provider R → R
  latency_score p =
      let weight = if f.le p.weight (f.of_ℕ 0) then f.milli else p.weight in
      if p.stats.success == 0 then f.of_ℕ 0 else f.over (f.of_ℕ p.stats.avg_latency_ms) weight

  unfoldable pub less_inflight : Provider R → Provider R → Bool
  less_inflight p q =
      if p.inflight == q.inflight then f.lt q.weight p.weight else ltb p.inflight q.inflight

  unfoldable pub less_latency : Provider R → Provider R → Bool
  less_latency p q = f.lt (latency_score p) (latency_score q)

  unfoldable pub more_weight : Provider R → Provider R → Bool
  more_weight p q = f.lt q.weight p.weight

  unfoldable pub sum_weights : R → List (Provider R) → R
  sum_weights total [] = total
  sum_weights total (p ∷ ps) = sum_weights (f.plus total p.weight) ps

  -- The first index at which the target is used up; `chosen` if it never is.
  unfoldable pub choose : ℕ → R → ℕ → List (Provider R) → ℕ
  choose chosen target index [] = chosen
  choose chosen target index (p ∷ ps) =
      let left = f.minus target p.weight in
      if f.le left (f.of_ℕ 0) then index else choose chosen left (index + 1) ps

  -- One round for each provider: the fuel is the length of the pool.
  unfoldable pub shuffle : (ℕ → R) → ℕ → ℕ → List (Provider R) → List (Provider R)
  shuffle rng draws zero pool = []
  shuffle rng draws (suc rounds) pool =
      let target = f.times (rng draws) (sum_weights (f.of_ℕ 0) pool) in
      elim (take_out (choose (length pool - 1) target 0 pool) pool) [
        | none ↦ []
        | some (p, rest) ↦ p ∷ shuffle rng (draws + 1) rounds rest
      ]

  unfoldable pub sort_group :
      (ℕ → R) → Balancer → List (Provider R) → Strategy → Balancer × List (Provider R)
  sort_group rng b list round_robin =
      let offset = b.cursor % length list in
      (record b { cursor = (b.cursor + 1) % 2 ^ 64 }, drop offset list ++ take offset list)
  sort_group rng b list least_inflight = (b, sort_stable less_inflight list)
  sort_group rng b list least_latency = (b, sort_stable less_latency list)
  sort_group rng b list by_priority = (b, sort_stable more_weight list)
  sort_group rng b list weighted_random =
      (record b { draws = b.draws + length list }, shuffle rng b.draws (length list) list)
  sort_group rng b list (other name) =
      (record b { draws = b.draws + length list }, shuffle rng b.draws (length list) list)

  unfoldable pub sort_groups :
      (ℕ → R)
      → Balancer
      → List ℤ
      → List (ℤ × List (Provider R))
      → Strategy
      → Balancer × List (Provider R)
  sort_groups rng b [] groups strategy = (b, [])
  sort_groups rng b (k ∷ ks) groups strategy =
      let (b', sorted) = sort_group rng b (members k groups) strategy in
      let (b'', ordered) = sort_groups rng b' ks groups strategy in (b'', sorted ++ ordered)

  unfoldable pub order :
      (ℕ → R) → Time → Balancer → List (Provider R) → Criteria → Balancer × List (Provider R)
  order rng clock b providers criteria =
      let pool = candidates clock providers criteria in
      let strategy =
        if valid_strategy criteria.strategy then criteria.strategy else b.default_strategy in
      let (groups, priorities) = group [] [] pool in
      if leb (length pool) 1
      then (b, pool)
      else sort_groups rng b (sort_stable (λ j k. ltb_ℤ k j) priorities) groups strategy

  unfoldable pub pick :
      (ℕ → R) → Time → Balancer → List (Provider R) → Criteria → Balancer × Option (Provider R)
  pick rng clock b providers criteria =
      let (b', ordered) = order rng clock b providers criteria in (b', head? ordered)
