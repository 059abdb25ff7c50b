-- ===== src/Balancer/RoundRobin.antt =====
-- The turns of the round robin, while the cursor does not wrap.
use mathlib.Core.List.{append-nil}
use native.Mathlib.Nat.{mod-lt, mod-add-mod, mod-eq_of_lt, add-mod_right}
use laskah.Prelude.Float.{Float}
use laskah.Prelude.Int.{ℤ, int_eq, beq_ℤ_iff}
use laskah.Prelude.Maps.{lookup, insert, lookup-insert_self}
use laskah.Prelude.Parts.{has}
use laskah.Prelude.Sorts.{sort_stable}
use laskah.Prelude.{
  ℕ, zero, suc, ◌+◌, ◌-◌, ◌%◌, ◌^◌, ◌≤◌, ◌<◌, ◌≡◌, ◌∙◌, refl, sym, ap, subst, false, some, List, [],
  ◌∷◌, ◌++◌, arith, length, take, drop, get_elem?, head?, keep-All, All, All-map, leb, leb→le,
  Bool-cases, inl, inr, if◌then◌else◌,
}
use laskah.Store.Model.{Provider, Time}
use laskah.Balancer.{
  Balancer, Criteria, round_robin, candidates, group, members, sort_group, sort_groups, order, pick,
}
use laskah.Balancer.Groups.{priority_of, group_all-IsGrouping}

module _ {R : Type 0} where
  abbrev pub SamePriority : ℤ → List (Provider R) → Type 0
  SamePriority k pool = All (λ p. p.priority ≡ k) pool

  -- Providers of one priority make one group.
  group_same :
      (k : ℤ) (gs : List (ℤ × List (Provider R))) (ks : List ℤ) (g todo : List (Provider R))
      → lookup k gs ≡ some g
      → SamePriority k todo
      → (group gs ks todo).1 ≡ ks
  unfolding group
  group_same k gs ks g [] h s = refl
  group_same k gs ks g (p ∷ ps) h s =
      rw (subst (λ j. lookup j gs ≡ some g) (sym s.0) h, group)
        (group_same p.priority (insert p.priority (g ++ p ∷ []) gs) ks (g ++ p ∷ []) ps
          (lookup-insert_self p.priority (g ++ p ∷ []) gs)
          (All-map (λ q. q.priority ≡ k) (λ q. q.priority ≡ p.priority) ps (λ q e. e ∙ sym s.0)
            s.1))

  one_priority :
      (p : Provider R) (ps : List (Provider R))
      → SamePriority p.priority ps
      → (group [] [] (p ∷ ps)).1 ≡ p.priority ∷ []
  unfolding group lookup
  one_priority p ps s =
      group_same p.priority (insert p.priority (p ∷ []) []) (p.priority ∷ []) (p ∷ []) ps
        (lookup-insert_self p.priority (p ∷ []) []) s

  one_group :
      (k : ℤ) (pool : List (Provider R))
      → SamePriority k pool
      → members k (group [] [] pool).0 ≡ pool
  one_group k pool s =
      (group_all-IsGrouping pool).kept k
      ∙ keep-All (has priority_of k) pool
          (All-map (λ p. p.priority ≡ k) _ pool (λ p e. (beq_ℤ_iff p.priority k).1 e) s)

  head-drop :
      (n : ℕ) (xs ys : List (Provider R)) → n < length xs → head? (drop n xs ++ ys) ≡ get_elem? xs n
  head-drop n [] ys h = absurd (omega arith)
  head-drop zero (x ∷ xs) ys h = refl
  head-drop (suc n) (x ∷ xs) ys h = head-drop n xs ys (omega arith)

-- How far ahead of the cursor `c` the index `i` is, around `m` places.
turn : ℕ → ℕ → ℕ → ℕ
turn c i m = if leb (c % m) i then i - c % m else i + m - c % m

turn_lem : (c i m : ℕ) → i < m → (turn c i m < m) × ((c + turn c i m) % m ≡ i)
unfolding turn
turn_lem c i m h = elim (Bool-cases (leb (c % m) i)) [
  | inl e ↦
      let near : c % m ≤ i = leb→le (c % m) i e in
      rw e (
        omega arith,
        sym (mod-add-mod c m (i - c % m)) ∙ ap (λ x. x % m) (omega arith) ∙ mod-eq_of_lt h,
      )
  | inr e ↦
      let far : i < c % m = ground arith in
      let below : c % m < m = mod-lt c (omega arith) in
      rw e (
        omega arith,
        sym (mod-add-mod c m (i + m - c % m))
            ∙ ap (λ x. x % m) (far_sum far below)
            ∙ add-mod_right i m
            ∙ mod-eq_of_lt h,
      )
]
  where
    far_sum : i < c % m → c % m < m → c % m + (i + m - c % m) ≡ i + m
    far_sum a b = omega arith

module _ {R : Type 0} ⦃f : Float R⦄ (rng : ℕ → R) (clock : Time) (providers : List (Provider R))
    (criteria : Criteria) where
  -- The balancer after some picks for the same criteria.
  unfoldable pub after_picks : ℕ → Balancer → Balancer
  after_picks zero b = b
  after_picks (suc n) b = (pick rng clock (after_picks n b) providers criteria).0

  -- A pick in a group of one priority: the provider under the cursor, and the cursor moves on.
  pick_turn :
      (b : Balancer) (p : Provider R) (ps : List (Provider R))
      → candidates clock providers criteria ≡ p ∷ ps
      → leb (length (p ∷ ps)) 1 ≡ false
      → SamePriority p.priority ps
      → criteria.strategy ≡ round_robin
      → pick rng clock b providers criteria ≡ (
        record b { cursor = (b.cursor + 1) % 2 ^ 64 },
        get_elem? (p ∷ ps) (b.cursor % length (p ∷ ps)),
      )
  unfolding pick order sort_groups sort_group sort_stable
  pick_turn b p ps e l s r =
      rw
        (
          e,
          l,
          one_priority p ps s,
          r,
          sort_groups,
          sort_group,
          one_group p.priority (p ∷ ps) (refl, s),
          append-nil,
        )
        (rw (
          head-drop (b.cursor % suc (length ps)) (p ∷ ps)
            (take (b.cursor % suc (length ps)) (p ∷ ps)) (mod-lt b.cursor (omega arith))))

  module _ (b : Balancer) (p : Provider R) (ps : List (Provider R))
      (pool : candidates clock providers criteria ≡ p ∷ ps) (several : 0 < length ps)
      (level : SamePriority p.priority ps) (strategy : criteria.strategy ≡ round_robin) where
    after_picks-turn :
        (n : ℕ)
        → pick rng clock (after_picks n b) providers criteria ≡ (
          record (after_picks n b) { cursor = ((after_picks n b).cursor + 1) % 2 ^ 64 },
          get_elem? (p ∷ ps) ((after_picks n b).cursor % length (p ∷ ps)),
        )
    after_picks-turn n = pick_turn (after_picks n b) p ps pool (ground arith) level strategy

    cursor-after_picks : (n : ℕ) → b.cursor + n < 2 ^ 64 → (after_picks n b).cursor ≡ b.cursor + n
    unfolding after_picks
    cursor-after_picks zero h = omega arith
    cursor-after_picks (suc n) h =
        rw (ap (λ r. r.0.cursor) (after_picks-turn n))
          (rw (cursor-after_picks n (omega arith)) (omega arith))

    -- Under round robin with at least two candidates, all of one priority, and a cursor that
    -- does not wrap on the way, the pick after n others is the candidate n places behind the
    -- cursor, counted around the pool.
    pub pick-turn :
        (n : ℕ)
        → b.cursor + n < 2 ^ 64
        → (pick rng clock (after_picks n b) providers criteria).1
          ≡ get_elem? (p ∷ ps) ((b.cursor + n) % length (p ∷ ps))
    pick-turn n h = rw (after_picks-turn n, cursor-after_picks n h)

    -- Under round robin with at least two candidates, all of one priority, and a cursor that
    -- does not wrap on the way, each candidate is picked within as many picks as there are
    -- candidates.
    pub pick-every_one :
        (i : ℕ)
        → i < length (p ∷ ps)
        → b.cursor + length (p ∷ ps) < 2 ^ 64
        → (n : ℕ) × (n < length (p ∷ ps))
          × ((pick rng clock (after_picks n b) providers criteria).1 ≡ get_elem? (p ∷ ps) i)
    pick-every_one i h k =
        let t = turn_lem b.cursor i (length (p ∷ ps)) h in
        (
          turn b.cursor i (length (p ∷ ps)),
          t.0,
          pick-turn (turn b.cursor i (length (p ∷ ps))) (omega arith) ∙ ap (get_elem? (p ∷ ps)) t.1,
        )
