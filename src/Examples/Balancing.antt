-- ===== src/Examples/Balancing.antt =====
-- Examples for the choice of an upstream API and for its health.
use mathlib.Core.List.{Mem}
use laskah.Prelude.{
  ℕ, ◌<◌, ◌≡◌, refl, true, false, none, some, List, [], ◌∷◌, arith, inl, length, Perm, get_elem?,
  keep, any, nat_eq, In→mem,
}
use laskah.Prelude.Int.{ltb_ℤ}
use laskah.Prelude.Sorts.{IsSorted}
use laskah.Prelude.Text.{codes, text_eq, text_beq}
use laskah.Store.Model.{Time, Provider, supports_model}
use laskah.Balancer.{
  Balancer, Criteria, round_robin, new, candidates, is_candidate, order, pick, decision_time,
}
use laskah.Balancer.Report.{Usage, Report, succeeded, failed, after_reports}
use laskah.Balancer.Health.{MeanIn, unused, after_reports-MeanIn}
use laskah.Balancer.Order.{later_first}
use laskah.Balancer.Promise.{order-perm, order-IsSorted}
use laskah.Balancer.Pick.{pick_best}
use laskah.Balancer.RoundRobin.{after_picks, pick-every_one}
use laskah.Examples.Samples.{thousandths, api}

abbrev draws : ℕ → ℕ
draws i = 400

abbrev p : Provider ℕ
p = api (codes "p") (codes "a")

abbrev q : Provider ℕ
q = api (codes "q") (codes "a")

abbrev balancer : Balancer
balancer = new round_robin 0 0

abbrev turns : Criteria
turns = record { model = codes ""; provider_ids = []; strategy = round_robin; now = 5 }

order-perm_example :
    Perm
      (candidates 5 (p ∷ q ∷ []) turns)
      (order ⦃f = thousandths⦄ draws 5 balancer (p ∷ q ∷ []) turns).1
order-perm_example = order-perm ⦃f = thousandths⦄ draws 5 balancer (p ∷ q ∷ []) turns

order-IsSorted_example :
    IsSorted later_first (order ⦃f = thousandths⦄ draws 5 balancer (p ∷ q ∷ []) turns).1
order-IsSorted_example = order-IsSorted ⦃f = thousandths⦄ draws 5 balancer (p ∷ q ∷ []) turns

one_pick : (pick ⦃f = thousandths⦄ draws 5 balancer (p ∷ []) turns).1 ≡ some p
unfolding pick order candidates keep is_candidate decision_time supports_model any new text_beq
one_pick = refl

a_candidate : is_candidate turns (decision_time 5 turns) p ≡ true
unfolding is_candidate decision_time supports_model any text_beq
a_candidate = refl

pick_best_example :
    Mem p (p ∷ [])
    × (is_candidate turns (decision_time 5 turns) p ≡ true)
    × (ltb_ℤ p.priority p.priority ≡ false)
pick_best_example =
    pick_best ⦃f = thousandths⦄ draws 5 balancer (p ∷ []) turns p p one_pick
      (In→mem p (p ∷ []) (inl refl)) a_candidate

both : candidates 5 (p ∷ q ∷ []) turns ≡ p ∷ q ∷ []
unfolding candidates keep is_candidate decision_time supports_model any text_beq
both = refl

pick-every_one_example :
    (n : ℕ) × (n < length (p ∷ q ∷ []))
    × ((pick ⦃f = thousandths⦄ draws 5
          (after_picks ⦃f = thousandths⦄ draws 5 (p ∷ q ∷ []) turns n balancer)
          (p ∷ q ∷ [])
          turns).1
        ≡ get_elem? (p ∷ q ∷ []) 1)
unfolding new
pick-every_one_example =
    pick-every_one ⦃f = thousandths⦄ draws 5 (p ∷ q ∷ []) turns balancer p (q ∷ []) both
      (omega arith) (refl, tt) refl 1 (omega arith) (omega arith)

abbrev few_tokens : Usage
few_tokens = record {
  prompt_tokens = 3;
  completion_tokens = 4;
  total_tokens = 7;
  upstream_tokens = 7;
}

abbrev reports : List (Time × Report)
reports = (1, succeeded 80 few_tokens) ∷ (2, failed none) ∷ (3, succeeded 120 few_tokens) ∷ []

after_reports-MeanIn_example : MeanIn 80 120 (after_reports balancer p reports)
after_reports-MeanIn_example =
    after_reports-MeanIn 80 120 balancer p reports
      ((omega arith, omega arith), (tt, ((omega arith, omega arith), tt))) (unused refl)
