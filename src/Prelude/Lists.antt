-- ===== src/Prelude/Lists.antt =====
-- Lists measured by native numbers, the loops over lists that the program writes, and predicates
-- on lists by recursion.
use Prim.Native.Nat.{◌<◌, ℕ, zero, suc, ◌+◌, ◌-◌, ◌≤◌}
use mathlib.Core.Path.{◌≡◌, refl, subst, sym}
use mathlib.Core.Logic.Or
use mathlib.Core.Logic.{◌⊎◌, inl, inr, ∥∥₁_prop}
use mathlib.Core.Bool.{Bool, true, false, ◌||◌}
use mathlib.Core.List.{List, [], ◌∷◌, ◌++◌, Mem, mem-cons, not-mem-nil}
use mathlib.Core.Option.{Option, none, some}
use native.Mathlib.Omega.{arith}
use laskah.Prelude.Tests.{if◌then◌else◌, Bool-cases}

module _ {ℓ} {A : Type ℓ} where
  abbrev pub length : List A → ℕ
  length [] = 0
  length (x ∷ xs) = suc (length xs)

  abbrev pub get_elem? : List A → ℕ → Option A
  get_elem? [] i = none
  get_elem? (x ∷ xs) zero = some x
  get_elem? (x ∷ xs) (suc i) = get_elem? xs i

  -- A write out of bounds changes nothing.
  abbrev pub set : List A → ℕ → A → List A
  set [] i v = []
  set (x ∷ xs) zero v = v ∷ xs
  set (x ∷ xs) (suc i) v = x ∷ set xs i v

  abbrev pub take : ℕ → List A → List A
  take zero xs = []
  take (suc n) [] = []
  take (suc n) (x ∷ xs) = x ∷ take n xs

  abbrev pub drop : ℕ → List A → List A
  drop zero xs = xs
  drop (suc n) [] = []
  drop (suc n) (x ∷ xs) = drop n xs

  abbrev pub head? : List A → Option A
  head? [] = none
  head? (x ∷ xs) = some x

  pub length-append : (xs ys : List A) → length (xs ++ ys) ≡ length xs + length ys
  length-append [] ys = omega arith
  length-append (x ∷ xs) ys = omega (arith, length-append xs ys)

  pub length-drop : (n : ℕ) (xs : List A) → length (drop n xs) ≡ length xs - n
  length-drop zero xs = omega arith
  length-drop (suc n) [] = omega arith
  length-drop (suc n) (x ∷ xs) = omega (arith, length-drop n xs)

  pub length-take-le : (n : ℕ) (xs : List A) → length (take n xs) ≤ n
  length-take-le zero xs = omega arith
  length-take-le (suc n) [] = omega arith
  length-take-le (suc n) (x ∷ xs) = omega (arith, length-take-le n xs)

  pub take-append-drop : (n : ℕ) (xs : List A) → take n xs ++ drop n xs ≡ xs
  take-append-drop zero xs = refl
  take-append-drop (suc n) [] = refl
  take-append-drop (suc n) (x ∷ xs) = rw (take-append-drop n xs)

  -- `for … { if !test { continue }; kept = append(kept, item) }`
  unfoldable pub keep : (A → Bool) → List A → List A
  keep p [] = []
  keep p (x ∷ xs) = if p x then x ∷ keep p xs else keep p xs

  -- `for … { if test { return item } }; return nil`
  unfoldable pub find : (A → Bool) → List A → Option A
  find p [] = none
  find p (x ∷ xs) = if p x then some x else find p xs

  -- `for … { if test { n++ } }`
  unfoldable pub count : (A → Bool) → List A → ℕ
  count p [] = 0
  count p (x ∷ xs) = if p x then suc (count p xs) else count p xs

  -- `for … { if test { return true } }; return false`
  unfoldable pub any : (A → Bool) → List A → Bool
  any p [] = false
  any p (x ∷ xs) = p x || any p xs

  pub length-keep-le : (p : A → Bool) (xs : List A) → length (keep p xs) ≤ length xs
  unfolding keep
  length-keep-le p [] = omega arith
  length-keep-le p (x ∷ xs) = ground (arith, length-keep-le p xs)

-- Membership and truth of all elements, by recursion.
module _ {A : Type 0} where
  abbrev pub In : A → List A → Type 0
  In a [] = ⊥
  In a (x ∷ xs) = (a ≡ x) ⊎ In a xs

  abbrev pub All {κ} : (A → Type κ) → List A → Type κ
  All P [] = Unit
  All P (x ∷ xs) = P x × All P xs

  -- An element that is kept was there, and passes the test.
  pub In-keep : (p : A → Bool) {a : A} (xs : List A) → In a (keep p xs) → In a xs × (p a ≡ true)
  unfolding keep
  In-keep p [] h = absurd h
  In-keep p {a} (x ∷ xs) h = elim (Bool-cases (p x)) [
    | inl e ↦ first e (In-keep p xs) (rw e at h)
    | inr e ↦ let r = In-keep p xs (rw e at h) in (inr r.0, r.1)
  ]
    where
      first :
          p x ≡ true
          → (In a (keep p xs) → In a xs × (p a ≡ true))
          → (a ≡ x) ⊎ In a (keep p xs)
          → In a (x ∷ xs) × (p a ≡ true)
      first e ih (inl q) = (inl q, rw q e)
      first e ih (inr q) = let r = ih q in (inr r.0, r.1)

  -- An element that passes the test is kept.
  pub keep-In : (p : A → Bool) {a : A} (xs : List A) → In a xs → p a ≡ true → In a (keep p xs)
  unfolding keep
  keep-In p [] h e = absurd h
  keep-In p (x ∷ xs) (inl q) e = let e' : p x ≡ true = rw (← q) e in rw e' (inl q)
  keep-In p (x ∷ xs) (inr q) e = elim (Bool-cases (p x)) [
    | inl e' ↦ rw e' (inr (keep-In p xs q e))
    | inr e' ↦ rw e' (keep-In p xs q e)
  ]

  pub keep-All : (p : A → Bool) (xs : List A) → All (λ x. p x ≡ true) xs → keep p xs ≡ xs
  unfolding keep
  keep-All p [] h = refl
  keep-All p (x ∷ xs) h = rw (h.0, keep-All p xs h.1)

  pub All-In {κ} : (P : A → Type κ) {a : A} (xs : List A) → All P xs → In a xs → P a
  All-In P [] h m = absurd m
  All-In P (x ∷ xs) h (inl q) = rw q h.0
  All-In P (x ∷ xs) h (inr q) = All-In P xs h.1 q

  pub All-intro {κ} : (P : A → Type κ) (xs : List A) → ((a : A) → In a xs → P a) → All P xs
  All-intro P [] h = tt
  All-intro P (x ∷ xs) h = (h x (inl refl), All-intro P xs (λ a m. h a (inr m)))

  -- `any` finds an element that passes exactly if there is one.
  pub any→In : (p : A → Bool) (xs : List A) → any p xs ≡ true → (a : A) × In a xs × (p a ≡ true)
  unfolding any
  any→In p [] h = absurd (ground arith)
  any→In p (x ∷ xs) h = elim (Bool-cases (p x)) [
    | inl e ↦ (x, inl refl, e)
    | inr e ↦ let (a, m, q) = any→In p xs (rw e at h) in (a, inr m, q)
  ]

  pub In→any : (p : A → Bool) {a : A} (xs : List A) → In a xs → p a ≡ true → any p xs ≡ true
  unfolding any
  In→any p [] m e = absurd m
  In→any p (x ∷ xs) (inl q) e = let e' : p x ≡ true = rw (← q) e in rw e'
  In→any p (x ∷ xs) (inr q) e = ground (arith, In→any p xs q e)

  pub find→In : (p : A → Bool) {a : A} (xs : List A) → find p xs ≡ some a → In a xs × (p a ≡ true)
  unfolding find
  find→In p [] h = absurd (ground arith)
  find→In p {a} (x ∷ xs) h = elim (Bool-cases (p x)) [
    | inl e ↦ let q : x ≡ a = ground arith in (inl (sym q), rw (← q) e)
    | inr e ↦ let r = find→In p xs (rw e at h) in (inr r.0, r.1)
  ]

  pub In-append_left : (a : A) (xs ys : List A) → In a xs → In a (xs ++ ys)
  In-append_left a [] ys m = absurd m
  In-append_left a (x ∷ xs) ys (inl q) = inl q
  In-append_left a (x ∷ xs) ys (inr q) = inr (In-append_left a xs ys q)

  pub In-append_right : (a : A) (xs ys : List A) → In a ys → In a (xs ++ ys)
  In-append_right a [] ys m = m
  In-append_right a (x ∷ xs) ys m = inr (In-append_right a xs ys m)

  pub In-append : (a : A) (xs ys : List A) → In a (xs ++ ys) → In a xs ⊎ In a ys
  In-append a [] ys m = inr m
  In-append a (x ∷ xs) ys (inl q) = inl (inl q)
  In-append a (x ∷ xs) ys (inr q) = shift (In-append a xs ys q)
    where
      shift : In a xs ⊎ In a ys → In a (x ∷ xs) ⊎ In a ys
      shift (inl m) = inl (inr m)
      shift (inr m) = inr m

  pub All-append {κ} : (P : A → Type κ) (xs ys : List A) → All P xs → All P ys → All P (xs ++ ys)
  All-append P [] ys h k = k
  All-append P (x ∷ xs) ys h k = (h.0, All-append P xs ys h.1 k)

  pub All-take {κ} : (P : A → Type κ) (n : ℕ) (xs : List A) → All P xs → All P (take n xs)
  All-take P zero xs h = tt
  All-take P (suc n) [] h = tt
  All-take P (suc n) (x ∷ xs) h = (h.0, All-take P n xs h.1)

  pub All-drop {κ} : (P : A → Type κ) (n : ℕ) (xs : List A) → All P xs → All P (drop n xs)
  All-drop P zero xs h = h
  All-drop P (suc n) [] h = tt
  All-drop P (suc n) (x ∷ xs) h = All-drop P n xs h.1

  pub All-map {κ ν} :
      (P : A → Type κ) (Q : A → Type ν) (xs : List A) → ((a : A) → P a → Q a) → All P xs → All Q xs
  All-map P Q [] f h = tt
  All-map P Q (x ∷ xs) f h = (f x h.0, All-map P Q xs f h.1)

  pub keep-append : (p : A → Bool) (xs ys : List A) → keep p (xs ++ ys) ≡ keep p xs ++ keep p ys
  unfolding keep
  keep-append p [] ys = refl
  keep-append p (x ∷ xs) ys = ground (arith, keep-append p xs ys)

  pub All-keep : (p : A → Bool) (xs : List A) → All (λ x. p x ≡ true) (keep p xs)
  unfolding keep
  All-keep p [] = tt
  All-keep p (x ∷ xs) = elim (Bool-cases (p x)) [
    | inl e ↦ rw e (e, All-keep p xs)
    | inr e ↦ rw e (All-keep p xs)
  ]

  pub All-mem :
      {P : A → Type 0} {a : A} (xs : List A) → ((x : A) → IsProp (P x)) → All P xs → Mem a xs → P a
  All-mem [] pr h m = absurd (not-mem-nil m)
  All-mem {P} {a} (x ∷ xs) pr h m =
      Or.elim (pr a) (mem-cons.0 m) (λ e. subst P (sym e) h.0) (All-mem xs pr h.1)

  pub mem-keep : (p : A → Bool) {a : A} (xs : List A) → Mem a (keep p xs) → Mem a xs
  unfolding keep
  mem-keep p [] m = m
  mem-keep p {a} (x ∷ xs) m = elim (Bool-cases (p x)) [
    | inl e ↦
        let m' : Mem a (x ∷ keep p xs) = rw e at m in
        Or.elim ∥∥₁_prop (mem-cons.0 m') (λ q. mem-cons.1 (Or.inl q))
          (λ q. mem-cons.1 (Or.inr (mem-keep p xs q)))
    | inr e ↦ mem-cons.1 (Or.inr (mem-keep p xs (rw e at m)))
  ]

  pub keep-mem : (p : A → Bool) {a : A} (xs : List A) → Mem a xs → p a ≡ true → Mem a (keep p xs)
  unfolding keep
  keep-mem p [] m h = m
  keep-mem p {a} (x ∷ xs) m h = elim (Bool-cases (p x)) [
    | inl e ↦ rw e (
        Or.elim ∥∥₁_prop (mem-cons.0 m) (λ q. mem-cons.1 (Or.inl q))
          (λ q. mem-cons.1 (Or.inr (keep-mem p xs q h))))
    | inr e ↦ rw e (
        Or.elim ∥∥₁_prop (mem-cons.0 m)
          (λ q. absurd (let h' : p x ≡ true = rw (← q) h in ground arith)) (λ q. keep-mem p xs q h))
  ]

  pub In→mem : (a : A) (xs : List A) → In a xs → Mem a xs
  In→mem a [] m = absurd m
  In→mem a (x ∷ xs) (inl q) = mem-cons.1 (Or.inl q)
  In→mem a (x ∷ xs) (inr q) = mem-cons.1 (Or.inr (In→mem a xs q))

pub In-positive : {A : Type 0} (a : A) (xs : List A) → In a xs → 0 < length xs
In-positive a [] i = absurd i
In-positive a (x ∷ xs) i = omega arith
