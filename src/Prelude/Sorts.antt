-- ===== src/Prelude/Sorts.antt =====
-- `sort.SliceStable` as stable insertion: for a strict weak order every stable sort gives this list.
use mathlib.Core.Bool.{Bool, true, false}
use mathlib.Core.List.{List, [], ◌∷◌, ◌++◌, Perm}
use mathlib.Core.List.Perm
use mathlib.Core.Logic.{inl, inr, ◌⊎◌}
use mathlib.Core.Option.{some}
use mathlib.Core.Path.{◌≡◌}
use native.Mathlib.Omega.{arith}
use laskah.Prelude.Tests.{if◌then◌else◌, Bool-cases}
use laskah.Prelude.Lists.{In, All, All-intro, All-In, All-append, head?}

module _ {A : Type 0} (less : A → A → Bool) where
  -- Behind the elements that `x` is not less than: an element that stood before `x` stays there.
  unfoldable pub place : A → List A → List A
  place x [] = x ∷ []
  place x (y ∷ ys) = if less y x then y ∷ place x ys else x ∷ y ∷ ys

  unfoldable pub sort_stable : List A → List A
  unfolding place
  sort_stable [] = []
  sort_stable (x ∷ xs) = place x (sort_stable xs)

  pub place-perm : (x : A) (ys : List A) → Perm (x ∷ ys) (place x ys)
  unfolding place
  place-perm x [] = Perm.rfl
  place-perm x (y ∷ ys) = elim (Bool-cases (less y x)) [
    | inl e ↦ rw e (Perm.trans (Perm.swap y x ys) (Perm.cons y (place-perm x ys)))
    | inr e ↦ rw e Perm.rfl
  ]

  pub sort_stable-perm : (xs : List A) → Perm xs (sort_stable xs)
  unfolding sort_stable
  sort_stable-perm [] = Perm.nil
  sort_stable-perm (x ∷ xs) =
      Perm.trans (Perm.cons x (sort_stable-perm xs)) (place-perm x (sort_stable xs))

  pub In-place : (a x : A) (ys : List A) → In a (place x ys) → (a ≡ x) ⊎ In a ys
  unfolding place
  In-place a x [] m = m
  In-place a x (y ∷ ys) m = elim (Bool-cases (less y x)) [
    | inl e ↦ behind (rw e at m) (In-place a x ys)
    | inr e ↦ rw e at m
  ]
    where
      behind :
          (a ≡ y) ⊎ In a (place x ys)
          → (In a (place x ys) → (a ≡ x) ⊎ In a ys)
          → (a ≡ x) ⊎ In a (y ∷ ys)
      behind (inl q) ih = inr (inl q)
      behind (inr q) ih = elim (ih q) [ inl r ↦ inl r | inr r ↦ inr (inr r) ]

  pub In-sort_stable : (a : A) (xs : List A) → In a (sort_stable xs) → In a xs
  unfolding sort_stable
  In-sort_stable a [] m = m
  In-sort_stable a (x ∷ xs) m = elim (In-place a x (sort_stable xs) m) [
    | inl q ↦ inl q
    | inr q ↦ inr (In-sort_stable a xs q)
  ]

  pub place-In : (a x : A) (ys : List A) → (a ≡ x) ⊎ In a ys → In a (place x ys)
  unfolding place
  place-In a x [] m = m
  place-In a x (y ∷ ys) m = elim (Bool-cases (less y x)) [
    | inl e ↦ rw e (behind m (place-In a x ys))
    | inr e ↦ rw e m
  ]
    where
      behind :
          (a ≡ x) ⊎ In a (y ∷ ys) → ((a ≡ x) ⊎ In a ys → In a (place x ys)) → In a (y ∷ place x ys)
      behind (inl q) ih = inr (ih (inl q))
      behind (inr (inl q)) ih = inl q
      behind (inr (inr q)) ih = inr (ih (inr q))

  pub sort_stable-In : (a : A) (xs : List A) → In a xs → In a (sort_stable xs)
  unfolding sort_stable
  sort_stable-In a [] m = m
  sort_stable-In a (x ∷ xs) (inl q) = place-In a x (sort_stable xs) (inl q)
  sort_stable-In a (x ∷ xs) (inr q) = place-In a x (sort_stable xs) (inr (sort_stable-In a xs q))

  -- A strict weak order: nothing is less than itself, and if `a < c`, every `b` is on one side.
  pub record IsWeakOrder : Type 0 where
    pub irrefl : (a : A) → less a a ≡ false
    pub split : (a b c : A) → less a b ≡ false → less b c ≡ false → less a c ≡ false
    pub asym : (a b : A) → less a b ≡ true → less b a ≡ false

  -- No element is less than one before it.
  abbrev pub IsSorted : List A → Type 0
  IsSorted [] = Unit
  IsSorted (x ∷ xs) = All (λ y. less y x ≡ false) xs × IsSorted xs

  pub All-place {κ} : (P : A → Type κ) (x : A) (ys : List A) → P x → All P ys → All P (place x ys)
  unfolding place
  All-place P x [] h a = (h, tt)
  All-place P x (y ∷ ys) h a = elim (Bool-cases (less y x)) [
    | inl e ↦ rw e (a.0, All-place P x ys h a.1)
    | inr e ↦ rw e (h, a)
  ]

  pub All-sort_stable {κ} : (P : A → Type κ) (xs : List A) → All P xs → All P (sort_stable xs)
  unfolding sort_stable
  All-sort_stable P [] a = tt
  All-sort_stable P (x ∷ xs) a = All-place P x (sort_stable xs) a.0 (All-sort_stable P xs a.1)

  place-IsSorted : IsWeakOrder → (x : A) (ys : List A) → IsSorted ys → IsSorted (place x ys)
  unfolding place
  place-IsSorted o x [] s = (tt, tt)
  place-IsSorted o x (y ∷ ys) s = elim (Bool-cases (less y x)) [
    | inl e ↦
        rw e (All-place (λ z. less z y ≡ false) x ys (o.asym y x e) s.0, place-IsSorted o x ys s.1)
    | inr e ↦ rw e (front e, s)
  ]
    where
      front : less y x ≡ false → All (λ z. less z x ≡ false) (y ∷ ys)
      front e =
          (e, All-intro _ ys (λ z m. o.split z y x (All-In (λ w. less w y ≡ false) ys s.0 m) e))

  pub sort_stable-IsSorted : IsWeakOrder → (xs : List A) → IsSorted (sort_stable xs)
  unfolding sort_stable
  sort_stable-IsSorted o [] = tt
  sort_stable-IsSorted o (x ∷ xs) = place-IsSorted o x (sort_stable xs) (sort_stable-IsSorted o xs)

  head_of_sorted :
      (a b : A) (xs : List A)
      → IsWeakOrder
      → IsSorted xs
      → head? xs ≡ some a
      → In b xs
      → less b a ≡ false
  head_of_sorted a b [] o s h m = absurd m
  head_of_sorted a b (x ∷ xs) o s h (inl q) = let e : x ≡ a = ground arith in rw (q, e) (o.irrefl a)
  head_of_sorted a b (x ∷ xs) o s h (inr q) =
      let e : x ≡ a = ground arith in rw (← e) (All-In (λ y. less y x ≡ false) xs s.0 q)

  -- The head of the sorted list is in the list, and no element is less than it.
  pub head-sort_stable :
      (a : A) (xs : List A)
      → IsWeakOrder
      → head? (sort_stable xs) ≡ some a
      → (b : A) → In b xs
      → less b a ≡ false
  head-sort_stable a xs o h b m =
      head_of_sorted a b (sort_stable xs) o (sort_stable-IsSorted o xs) h (sort_stable-In b xs m)

  pub IsSorted-append :
      (xs ys : List A)
      → IsSorted xs
      → IsSorted ys
      → All (λ x. All (λ y. less y x ≡ false) ys) xs
      → IsSorted (xs ++ ys)
  IsSorted-append [] ys s t h = t
  IsSorted-append (x ∷ xs) ys s t h = (All-append _ xs ys s.0 h.0, IsSorted-append xs ys s.1 t h.1)
