-- ===== src/Balancer/Order.antt =====
-- What `Order` and `Pick` promise, for every strategy, every draw and every state of the balancer.
use mathlib.Core.List.Perm
use laskah.Prelude.Float.{Float}
use laskah.Prelude.Int.{ℤ, ltb_ℤ, int_eq, beq_ℤ_iff}
use laskah.Prelude.Parts.{has, Unique, Covers, parts}
use laskah.Prelude.Sorts.{
  place, sort_stable, All-place, All-sort_stable, sort_stable-In, IsSorted, IsWeakOrder,
  IsSorted-append,
}
use laskah.Prelude.{
  ℕ, ◌≡◌, Bool, true, false, List, [], ◌∷◌, Perm, arith, inl, inr, Bool-cases, length, All,
  All-append, All-map, All-keep, In→any, any→In, keep, leb, subst, ◌==◌,
}
use laskah.Store.Model.{Provider}
use laskah.Balancer.{Balancer, Strategy, members, sort_group, sort_groups}
use laskah.Balancer.Groups.{priority_of}
use laskah.Balancer.Permute.{sort_group-perm, sort_group-All}

abbrev pub desc : ℤ → ℤ → Bool
desc j k = ltb_ℤ k j

pub desc-IsWeakOrder : IsWeakOrder desc
desc-IsWeakOrder = record {
  irrefl = λ a. ground arith;
  split = λ a b c h k. ground arith;
  asym = λ a b h. ground arith;
}

place-Unique :
    (k : ℤ) (ks : List ℤ) → All (λ j. (k == j) ≡ false) ks → Unique ks → Unique (place desc k ks)
unfolding place
place-Unique k [] h u = (tt, tt)
place-Unique k (j ∷ ks) h u = elim (Bool-cases (desc j k)) [
  | inl e ↦ rw e (
    All-place desc (λ i. (j == i) ≡ false) k ks (ground (arith, beq_ℤ_iff j k, beq_ℤ_iff k j)) u.0,
    place-Unique k ks h.1 u.1,
  )
  | inr e ↦ rw e (h, u)
]

pub sort_stable-Unique : (ks : List ℤ) → Unique ks → Unique (sort_stable desc ks)
unfolding sort_stable
sort_stable-Unique [] u = tt
sort_stable-Unique (k ∷ ks) u =
    place-Unique k (sort_stable desc ks) (All-sort_stable desc (λ j. (k == j) ≡ false) ks u.0)
      (sort_stable-Unique ks u.1)

module _ {R : Type 0} where
  pub sort_stable-Covers :
      (ks : List ℤ) (xs : List (Provider R))
      → Covers priority_of ks xs
      → Covers priority_of (sort_stable desc ks) xs
  sort_stable-Covers ks xs c =
      All-map _ _ xs
        (λ a h.
          let (k, m, e) = any→In (λ k. has priority_of k a) ks h in
          In→any (λ k. has priority_of k a) (sort_stable desc ks) (sort_stable-In desc k ks m) e)
        c

  -- No provider of a higher priority comes later.
  abbrev pub later_first : Provider R → Provider R → Bool
  later_first q p = ltb_ℤ p.priority q.priority

module _ {R : Type 0} ⦃f : Float R⦄ where
  pub sort_groups-perm :
      (rng : ℕ → R) (b : Balancer) (ks : List ℤ) (gs : List (ℤ × List (Provider R)))
      → (pool : List (Provider R)) (s : Strategy)
      → ((k : ℤ) → members k gs ≡ keep (has priority_of k) pool)
      → Perm (parts priority_of ks pool) (sort_groups rng b ks gs s).1
  unfolding sort_groups parts
  sort_groups-perm rng b [] gs pool s h = Perm.nil
  sort_groups-perm rng b (k ∷ ks) gs pool s h =
      Perm.append
        (subst (λ g. Perm g (sort_group rng b (members k gs) s).1) (h k)
          (sort_group-perm rng b (members k gs) s))
        (sort_groups-perm rng (sort_group rng b (members k gs) s).0 ks gs pool s h)

  sort_groups-All :
      (rng : ℕ → R) (b : Balancer) (P : Provider R → Type 0) (ks : List ℤ)
      → (gs : List (ℤ × List (Provider R))) (s : Strategy) → All (λ k. All P (members k gs)) ks
      → All P (sort_groups rng b ks gs s).1
  unfolding sort_groups
  sort_groups-All rng b P [] gs s h = tt
  sort_groups-All rng b P (k ∷ ks) gs s h =
      All-append P (sort_group rng b (members k gs) s).1 _
        (sort_group-All rng b P (members k gs) s h.0)
        (sort_groups-All rng (sort_group rng b (members k gs) s).0 P ks gs s h.1)

  -- The members of a group have its priority.
  members-All :
      (P : Provider R → Type 0) (k : ℤ) (gs : List (ℤ × List (Provider R)))
      → (pool : List (Provider R)) → ((j : ℤ) → members j gs ≡ keep (has priority_of j) pool)
      → ((p : Provider R) → p.priority ≡ k → P p)
      → All P (members k gs)
  members-All P k gs pool h g = rw (h k) (
      All-map _ P (keep (has priority_of k) pool) (λ p e. g p ((beq_ℤ_iff p.priority k).0 e))
        (All-keep (has priority_of k) pool))

  same_level :
      (k : ℤ) (x y : Provider R) → x.priority ≡ k → y.priority ≡ k → later_first y x ≡ false
  same_level k x y e h = rw (e, h) (ground arith)

  same-IsSorted :
      (k : ℤ) (xs : List (Provider R)) → All (λ p. p.priority ≡ k) xs → IsSorted later_first xs
  same-IsSorted k [] h = tt
  same-IsSorted k (x ∷ xs) h = (
    All-map (λ p. p.priority ≡ k) _ xs (λ y e. same_level k x y h.0 e) h.1,
    same-IsSorted k xs h.1,
  )

  not_above :
      (k j : ℤ) (p : Provider R) → desc j k ≡ false → p.priority ≡ j → ltb_ℤ k p.priority ≡ false
  not_above k j p h e = rw e h

  pub sort_groups-IsSorted :
      (rng : ℕ → R) (b : Balancer) (ks : List ℤ) (gs : List (ℤ × List (Provider R)))
      → (pool : List (Provider R)) (s : Strategy)
      → ((k : ℤ) → members k gs ≡ keep (has priority_of k) pool)
      → IsSorted desc ks
      → IsSorted later_first (sort_groups rng b ks gs s).1
  unfolding sort_groups
  sort_groups-IsSorted rng b [] gs pool s h o = tt
  sort_groups-IsSorted rng b (k ∷ ks) gs pool s h o =
      IsSorted-append later_first sorted rest (same-IsSorted k sorted level)
        (sort_groups-IsSorted rng (sort_group rng b (members k gs) s).0 ks gs pool s h o.1)
        (All-map (λ p. p.priority ≡ k) _ sorted (λ x e. rw e below) level)
    where
      sorted : List (Provider R)
      sorted = (sort_group rng b (members k gs) s).1

      rest : List (Provider R)
      rest = (sort_groups rng (sort_group rng b (members k gs) s).0 ks gs s).1

      level : All (λ p. p.priority ≡ k) sorted
      level =
          sort_group-All rng b (λ p. p.priority ≡ k) (members k gs) s
            (members-All (λ p. p.priority ≡ k) k gs pool h (λ p e. e))

      below : All (λ y. ltb_ℤ k y.priority ≡ false) rest
      below =
          sort_groups-All rng (sort_group rng b (members k gs) s).0
            (λ y. ltb_ℤ k y.priority ≡ false) ks gs s
            (All-map _ _ ks
              (λ j e.
                members-All (λ y. ltb_ℤ k y.priority ≡ false) j gs pool h
                  (λ p q. not_above k j p e q))
              o.0)

  pub short-IsSorted : (xs : List (Provider R)) → leb (length xs) 1 ≡ true → IsSorted later_first xs
  short-IsSorted [] h = tt
  short-IsSorted (x ∷ []) h = (tt, tt)
  short-IsSorted (x ∷ y ∷ xs) h = absurd (ground arith)
