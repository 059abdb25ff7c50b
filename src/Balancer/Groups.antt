-- ===== src/Balancer/Groups.antt =====
-- The grouping by priority: each group holds its providers in their order, and every provider is in
-- a group.
use mathlib.Core.List.{append-nil, append_assoc}
use laskah.Prelude.Int.{ℤ, int_eq}
use laskah.Prelude.Maps.{lookup, insert, lookup-insert, beq_swap}
use laskah.Prelude.Parts.{has, Unique, Covers}
use laskah.Prelude.{
  ◌≡◌, refl, Bool, true, false, none, some, List, [], ◌∷◌, ◌++◌, arith, ◌==◌, if◌then◌else◌,
  Bool-cases, inl, inr, keep, keep-append, any, All-append, All-map, Option-cases, subst, sym, ◌∙◌,
  eq_of_beq, beq_refl,
}
use laskah.Store.Model.{Provider}
use laskah.Balancer.{group, members}

any-append :
    (p : ℤ → Bool) (xs ys : List ℤ) → any p (xs ++ ys) ≡ (if any p xs then true else any p ys)
unfolding any
any-append p [] ys = refl
any-append p (x ∷ xs) ys = ground (arith, any-append p xs ys)

any-append_left : (p : ℤ → Bool) (xs ys : List ℤ) → any p xs ≡ true → any p (xs ++ ys) ≡ true
any-append_left p xs ys h = rw (any-append p xs ys, h)

any-swap : (k : ℤ) (ks : List ℤ) → any (λ j. k == j) ks ≡ any (λ j. j == k) ks
unfolding any
any-swap k [] = refl
any-swap k (j ∷ ks) = rw (beq_swap k j, any-swap k ks)

Unique-snoc :
    (k : ℤ) (ks : List ℤ) → any (λ j. j == k) ks ≡ false → Unique ks → Unique (ks ++ k ∷ [])
unfolding any
Unique-snoc k [] h u = (tt, tt)
Unique-snoc k (j ∷ ks) h u =
    (All-append _ ks (k ∷ []) u.0 (ground arith, tt), Unique-snoc k ks (ground arith) u.1)

module _ {R : Type 0} where
  abbrev pub priority_of : Provider R → ℤ
  priority_of p = p.priority

  -- Whether there is a group of a priority.
  pub bound : ℤ → List (ℤ × List (Provider R)) → Bool
  bound k gs = elim (lookup k gs) [ none ↦ false | some g ↦ true ]

  -- What the loop has built from the providers seen so far.
  pub record IsGrouping (gs : List (ℤ × List (Provider R))) (ks : List ℤ) (seen : List (Provider R))
      : Type 0 where
    pub kept : (k : ℤ) → members k gs ≡ keep (has priority_of k) seen
    pub listed : (k : ℤ) → any (λ j. j == k) ks ≡ bound k gs
    pub unique : Unique ks
    pub covers : Covers priority_of ks seen

  members-insert :
      (k j : ℤ) (g : List (Provider R)) (gs : List (ℤ × List (Provider R)))
      → members j (insert k g gs) ≡ (if k == j then g else members j gs)
  unfolding members
  members-insert k j g gs = ground (arith, lookup-insert k j g gs)

  Covers-more :
      (ks : List ℤ) (k : ℤ) (seen : List (Provider R))
      → Covers priority_of ks seen
      → Covers priority_of (ks ++ k ∷ []) seen
  Covers-more ks k seen c =
      All-map _ _ seen (λ a h. any-append_left (λ j. has priority_of j a) ks (k ∷ []) h) c

  members-step :
      (gs : List (ℤ × List (Provider R))) (seen : List (Provider R)) (p : Provider R)
      → ((k : ℤ) → members k gs ≡ keep (has priority_of k) seen)
      → (k : ℤ)
      → members k (insert p.priority (members p.priority gs ++ p ∷ []) gs)
        ≡ keep (has priority_of k) (seen ++ p ∷ [])
  unfolding keep
  members-step gs seen p h k = elim (Bool-cases (p.priority == k)) [
    | inl e ↦
        let q : p.priority ≡ k = eq_of_beq p.priority k e in
        rw (
          keep-append (has priority_of k) seen (p ∷ []),
          ← h k,
          members-insert p.priority k,
          e,
          ← q,
        )
    | inr e ↦
        rw (keep-append (has priority_of k) seen (p ∷ []), ← h k, members-insert p.priority k, e)
          (sym (append-nil (members k gs)))
  ]

  bound-insert :
      (k j : ℤ) (g : List (Provider R)) (gs : List (ℤ × List (Provider R)))
      → bound j (insert k g gs) ≡ (if k == j then true else bound j gs)
  unfolding bound
  bound-insert k j g gs = ground (arith, lookup-insert k j g gs)

  bound-some :
      (k : ℤ) (g : List (Provider R)) (gs : List (ℤ × List (Provider R)))
      → lookup k gs ≡ some g
      → bound k gs ≡ true
  unfolding bound
  bound-some k g gs h = ground arith

  bound-none : (k : ℤ) (gs : List (ℤ × List (Provider R))) → lookup k gs ≡ none → bound k gs ≡ false
  unfolding bound
  bound-none k gs h = ground arith

  listed-join :
      (gs : List (ℤ × List (Provider R))) (ks : List ℤ) (j : ℤ) (g : List (Provider R))
      → bound j gs ≡ true
      → ((k : ℤ) → any (λ i. i == k) ks ≡ bound k gs)
      → (k : ℤ) → any (λ i. i == k) ks ≡ bound k (insert j g gs)
  listed-join gs ks j g b h k = rw (h k, bound-insert j k g gs) (ground (arith, int_eq.beq_iff j k))

  listed-begin :
      (gs : List (ℤ × List (Provider R))) (ks : List ℤ) (j : ℤ) (g : List (Provider R))
      → ((k : ℤ) → any (λ i. i == k) ks ≡ bound k gs)
      → (k : ℤ) → any (λ i. i == k) (ks ++ j ∷ []) ≡ bound k (insert j g gs)
  unfolding any
  listed-begin gs ks j g h k =
      rw (any-append (λ i. i == k) ks (j ∷ []), h k, bound-insert j k g gs) (ground arith)

  is_group :
      (k : ℤ) (g : List (Provider R)) (gs : List (ℤ × List (Provider R)))
      → lookup k gs ≡ some g
      → members k gs ≡ g
  unfolding members
  is_group k g gs h = ground arith

  no_group : (k : ℤ) (gs : List (ℤ × List (Provider R))) → lookup k gs ≡ none → members k gs ≡ []
  unfolding members
  no_group k gs h = ground arith

  start-IsGrouping : IsGrouping [] [] []
  unfolding bound members lookup keep any
  start-IsGrouping = record { kept = λ k. refl; listed = λ k. refl; unique = tt; covers = tt }

  -- A provider of a known priority joins its group.
  join-IsGrouping :
      (gs : List (ℤ × List (Provider R))) (ks : List ℤ) (seen : List (Provider R)) (p : Provider R)
      → (g : List (Provider R)) → lookup p.priority gs ≡ some g
      → IsGrouping gs ks seen
      → IsGrouping (insert p.priority (g ++ p ∷ []) gs) ks (seen ++ p ∷ [])
  join-IsGrouping gs ks seen p g found v = record {
    kept =
        subst
          (λ l.
            (k : ℤ)
            → members k (insert p.priority (l ++ p ∷ []) gs)
              ≡ keep (has priority_of k) (seen ++ p ∷ []))
          (is_group p.priority g gs found) (members-step gs seen p v.kept);
    listed = listed-join gs ks p.priority (g ++ p ∷ []) (bound-some p.priority g gs found) v.listed;
    unique = v.unique;
    covers = All-append _ seen (p ∷ []) v.covers (known, tt);
  }
    where
      known : any (λ k. p.priority == k) ks ≡ true
      known = rw (any-swap p.priority ks, v.listed p.priority) (bound-some p.priority g gs found)

  -- A provider of a new priority begins a group.
  begin-IsGrouping :
      (gs : List (ℤ × List (Provider R))) (ks : List ℤ) (seen : List (Provider R)) (p : Provider R)
      → lookup p.priority gs ≡ none
      → IsGrouping gs ks seen
      → IsGrouping (insert p.priority (p ∷ []) gs) (ks ++ p.priority ∷ []) (seen ++ p ∷ [])
  unfolding any
  begin-IsGrouping gs ks seen p missing v = record {
    kept =
        subst
          (λ l.
            (k : ℤ)
            → members k (insert p.priority (l ++ p ∷ []) gs)
              ≡ keep (has priority_of k) (seen ++ p ∷ []))
          (no_group p.priority gs missing) (members-step gs seen p v.kept);
    listed = listed-begin gs ks p.priority (p ∷ []) v.listed;
    unique =
        Unique-snoc p.priority ks (v.listed p.priority ∙ bound-none p.priority gs missing) v.unique;
    covers = All-append _ seen (p ∷ []) (Covers-more ks p.priority seen v.covers) (own, tt);
  }
    where
      own : any (λ k. p.priority == k) (ks ++ p.priority ∷ []) ≡ true
      own =
          any-append (λ k. p.priority == k) ks (p.priority ∷ [])
          ∙ ground (arith, beq_refl p.priority)

  pub group-IsGrouping :
      (gs : List (ℤ × List (Provider R))) (ks : List ℤ) (seen todo : List (Provider R))
      → IsGrouping gs ks seen
      → IsGrouping (group gs ks todo).0 (group gs ks todo).1 (seen ++ todo)
  unfolding group
  group-IsGrouping gs ks seen [] v = rw (append-nil seen) v
  group-IsGrouping gs ks seen (p ∷ ps) v = elim (Option-cases (lookup p.priority gs)) [
    | inl missing ↦
        rw (missing, group, ← append_assoc seen (p ∷ []) ps)
          (group-IsGrouping (insert p.priority (p ∷ []) gs) (ks ++ p.priority ∷ []) (seen ++ p ∷ [])
            ps (begin-IsGrouping gs ks seen p missing v))
    | inr (g, found) ↦
        rw (found, group, ← append_assoc seen (p ∷ []) ps)
          (group-IsGrouping (insert p.priority (g ++ p ∷ []) gs) ks (seen ++ p ∷ []) ps
            (join-IsGrouping gs ks seen p g found v))
  ]

  -- The loop over a whole pool.
  pub group_all-IsGrouping :
      (pool : List (Provider R)) → IsGrouping (group [] [] pool).0 (group [] [] pool).1 pool
  group_all-IsGrouping pool = group-IsGrouping [] [] [] pool start-IsGrouping
