-- ===== src/Balancer/Permute.antt =====
-- Every strategy puts a group in another order: it loses no provider and makes none up.
use mathlib.Core.List.{perm_append_comm}
use mathlib.Core.List.Perm
use laskah.Prelude.Float.{Float}
use laskah.Prelude.Sorts.{sort_stable-perm, All-sort_stable}
use laskah.Prelude.{
  ℕ, zero, suc, ◌+◌, ◌-◌, ◌%◌, ◌≤◌, ◌<◌, ◌≡◌, refl, Option, none, some, List, [], ◌∷◌, ◌++◌, Perm,
  arith, length, take, drop, take-append-drop, All, All-append, All-take, All-drop, subst,
}
use laskah.Store.Model.{Provider}
use laskah.Balancer.{
  Balancer, Strategy, weighted_random, round_robin, least_latency, least_inflight, by_priority,
  other, take_out, choose, shuffle, sort_group, sum_weights, less_inflight, less_latency,
  more_weight,
}

module _ {R : Type 0} where
  -- An index in range is found, and the rest is one shorter.
  pub data Taken (pool : List (Provider R)) : Option (Provider R × List (Provider R)) → Type 1 where
    taken :
        (p : Provider R) (rest : List (Provider R))
        → Perm pool (p ∷ rest)
        → length pool ≡ suc (length rest)
        → ((P : Provider R → Type 0) → All P pool → All P (p ∷ rest))
        → Taken pool (some (p, rest))

  later_Taken :
      (q : Provider R) (ps : List (Provider R)) (o : Option (Provider R × List (Provider R)))
      → Taken ps o
      → Taken (q ∷ ps) (elim o [ none ↦ none | some (p, rest) ↦ some (p, q ∷ rest) ])
  later_Taken q ps none t = elim t [ ]
  later_Taken q ps (some (p, rest)) (taken _ _ m l a) =
      taken p (q ∷ rest) (Perm.trans (Perm.cons q m) (Perm.swap p q rest)) (omega arith)
        (λ P h. let t = a P h.1 in (t.0, (h.0, t.1)))

  pub take_out-Taken :
      (i : ℕ) (pool : List (Provider R)) → i < length pool → Taken pool (take_out i pool)
  unfolding take_out
  take_out-Taken i [] h = absurd (omega arith)
  take_out-Taken zero (p ∷ ps) h = taken p ps Perm.rfl refl (λ P a. a)
  take_out-Taken (suc i) (p ∷ ps) h =
      later_Taken p ps (take_out i ps) (take_out-Taken i ps (omega arith))

module _ {R : Type 0} ⦃f : Float R⦄ where
  choose-lt :
      (chosen : ℕ) (target : R) (index n : ℕ) (ps : List (Provider R))
      → chosen < n
      → index + length ps ≤ n
      → choose chosen target index ps < n
  unfolding choose
  choose-lt chosen target index n [] h k = h
  choose-lt chosen target index n (p ∷ ps) h k =
      ground (arith, choose-lt chosen (f.minus target p.weight) (index + 1) n ps h (omega arith))

  abbrev Shuffled : List (Provider R) → List (Provider R) → Type 1
  Shuffled pool out = Perm pool out × ((P : Provider R → Type 0) → All P pool → All P out)

  shuffle-step :
      (pool : List (Provider R)) (o : Option (Provider R × List (Provider R)))
      → Taken pool o
      → (k : List (Provider R) → List (Provider R))
      → ((rest : List (Provider R)) → length pool ≡ suc (length rest) → Shuffled rest (k rest))
      → Shuffled pool (elim o [ none ↦ [] | some (p, rest) ↦ p ∷ k rest ])
  shuffle-step pool none t k ih = elim t [ ]
  shuffle-step pool (some (p, rest)) (taken _ _ m l a) k ih =
      (Perm.trans m (Perm.cons p (ih rest l).0), λ P h. let t = a P h in (t.0, (ih rest l).1 P t.1))

  shuffle-Shuffled :
      (rng : ℕ → R) (draws rounds : ℕ) (pool : List (Provider R))
      → length pool ≡ rounds
      → Shuffled pool (shuffle rng draws rounds pool)
  unfolding shuffle
  shuffle-Shuffled rng draws zero [] e = (Perm.nil, λ P h. tt)
  shuffle-Shuffled rng draws zero (p ∷ ps) e = absurd (omega arith)
  shuffle-Shuffled rng draws (suc rounds) [] e = absurd (omega arith)
  shuffle-Shuffled rng draws (suc rounds) (p ∷ ps) e =
      shuffle-step (p ∷ ps) (take_out index (p ∷ ps)) (take_out-Taken index (p ∷ ps) bound)
        (shuffle rng (draws + 1) rounds)
        (λ rest l. shuffle-Shuffled rng (draws + 1) rounds rest (omega arith))
    where
      target : R
      target = f.times (rng draws) (sum_weights (f.of_ℕ 0) (p ∷ ps))

      index : ℕ
      index = choose (length (p ∷ ps) - 1) target 0 (p ∷ ps)

      bound : index < length (p ∷ ps)
      bound =
          choose-lt (length (p ∷ ps) - 1) target 0 (length (p ∷ ps)) (p ∷ ps) (omega arith)
            (omega arith)

  rotate-perm : (n : ℕ) (xs : List (Provider R)) → Perm xs (drop n xs ++ take n xs)
  rotate-perm n xs =
      subst (λ l. Perm l (drop n xs ++ take n xs)) (take-append-drop n xs)
        (perm_append_comm (take n xs) (drop n xs))

  pub sort_group-perm :
      (rng : ℕ → R) (b : Balancer) (xs : List (Provider R)) (s : Strategy)
      → Perm xs (sort_group rng b xs s).1
  unfolding sort_group
  sort_group-perm rng b xs round_robin = rotate-perm (b.cursor % length xs) xs
  sort_group-perm rng b xs least_inflight = sort_stable-perm less_inflight xs
  sort_group-perm rng b xs least_latency = sort_stable-perm less_latency xs
  sort_group-perm rng b xs by_priority = sort_stable-perm more_weight xs
  sort_group-perm rng b xs weighted_random = (shuffle-Shuffled rng b.draws (length xs) xs refl).0
  sort_group-perm rng b xs (other name) = (shuffle-Shuffled rng b.draws (length xs) xs refl).0

  pub sort_group-All :
      (rng : ℕ → R) (b : Balancer) (P : Provider R → Type 0) (xs : List (Provider R)) (s : Strategy)
      → All P xs
      → All P (sort_group rng b xs s).1
  unfolding sort_group
  sort_group-All rng b P xs round_robin h =
      let n = b.cursor % length xs in
      All-append P (drop n xs) (take n xs) (All-drop P n xs h) (All-take P n xs h)
  sort_group-All rng b P xs least_inflight h = All-sort_stable less_inflight P xs h
  sort_group-All rng b P xs least_latency h = All-sort_stable less_latency P xs h
  sort_group-All rng b P xs by_priority h = All-sort_stable more_weight P xs h
  sort_group-All rng b P xs weighted_random h =
      (shuffle-Shuffled rng b.draws (length xs) xs refl).1 P h
  sort_group-All rng b P xs (other name) h =
      (shuffle-Shuffled rng b.draws (length xs) xs refl).1 P h
