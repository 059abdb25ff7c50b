-- ===== src/Prelude/Parts.antt =====
-- A list taken apart by a key: the parts together are a permutation of the list.
use mathlib.Core.List.{perm_middle}
use mathlib.Core.List.Perm
use laskah.Prelude.{
  ◌≡◌, refl, Bool, true, false, not, List, [], ◌∷◌, ◌++◌, Perm, arith, Eq, ◌==◌, Bool-cases, inl,
  inr, keep, All, any, subst,
}

module _ {A : Type 0} where
  pub partition-perm :
      (p : A → Bool) (xs : List A) → Perm xs (keep p xs ++ keep (λ x. not (p x)) xs)
  unfolding keep
  partition-perm p [] = Perm.nil
  partition-perm p (x ∷ xs) = elim (Bool-cases (p x)) [
    | inl e ↦ rw e (Perm.cons x (partition-perm p xs))
    | inr e ↦ rw e (
        Perm.trans (Perm.cons x (partition-perm p xs))
          (Perm.symm (perm_middle (keep p xs) (keep (λ y. not (p y)) xs))))
  ]

module _ {K : Type 0} ⦃e : Eq K⦄ where
  abbrev pub Unique : List K → Type 0
  Unique [] = Unit
  Unique (k ∷ ks) = All (λ j. (k == j) ≡ false) ks × Unique ks

module _ {A K : Type 0} ⦃e : Eq K⦄ (key : A → K) where
  abbrev pub has : K → A → Bool
  has k a = key a == k

  unfoldable pub parts : List K → List A → List A
  parts [] xs = []
  parts (k ∷ ks) xs = keep (has k) xs ++ parts ks xs

  abbrev pub Covers : List K → List A → Type 0
  Covers ks xs = All (λ a. any (λ k. has k a) ks ≡ true) xs

  keep-rest :
      (j k : K) (xs : List A)
      → (j == k) ≡ false
      → keep (has k) (keep (λ a. not (has j a)) xs) ≡ keep (has k) xs
  unfolding keep
  keep-rest j k [] n = refl
  keep-rest j k (x ∷ xs) n =
      ground (arith, keep-rest j k xs n, e.beq_iff (key x) j, e.beq_iff (key x) k, e.beq_iff j k)

  parts-rest :
      (j : K) (ks : List K) (xs : List A)
      → All (λ k. (j == k) ≡ false) ks
      → parts ks (keep (λ a. not (has j a)) xs) ≡ parts ks xs
  unfolding parts
  parts-rest j [] xs h = refl
  parts-rest j (k ∷ ks) xs h = rw (keep-rest j k xs h.0, parts-rest j ks xs h.1)

  Covers-rest :
      (k : K) (ks : List K) (xs : List A)
      → Covers (k ∷ ks) xs
      → Covers ks (keep (λ a. not (has k a)) xs)
  unfolding keep any
  Covers-rest k ks [] c = tt
  Covers-rest k ks (x ∷ xs) c = elim (Bool-cases (has k x)) [
    | inl h ↦ rw h (Covers-rest k ks xs c.1)
    | inr h ↦ rw h (rw h at (c.0), Covers-rest k ks xs c.1)
  ]

  covered_by_none : (xs : List A) → Covers [] xs → xs ≡ []
  unfolding any
  covered_by_none [] c = refl
  covered_by_none (x ∷ xs) c = absurd (ground arith)

  pub parts-perm : (ks : List K) (xs : List A) → Unique ks → Covers ks xs → Perm xs (parts ks xs)
  unfolding parts
  parts-perm [] xs u c = rw (covered_by_none xs c) Perm.nil
  parts-perm (k ∷ ks) xs u c = Perm.trans (partition-perm (has k) xs) (
      Perm.append (Perm.refl (keep (has k) xs)) (
        subst (Perm (keep (λ a. not (has k a)) xs)) (parts-rest k ks xs u.0)
          (parts-perm ks (keep (λ a. not (has k a)) xs) u.1 (Covers-rest k ks xs c))))
