-- ===== src/Prelude/Maps.antt =====
-- Go maps as association lists; the laws are stated in `if` form.
use Prim.Native.Nat.{suc, ◌≤◌, ◌<◌}
use mathlib.Core.Bool.{Bool, false}
use mathlib.Core.List.{List, [], ◌∷◌}
use mathlib.Core.Logic.{inl, inr}
use mathlib.Core.Option.{Option, none, some}
use mathlib.Core.Path.{◌≡◌, refl, sym, ap}
use native.Mathlib.Omega.{arith}
use laskah.Prelude.Tests.{Eq, ◌==◌, if◌then◌else◌, Bool-cases, eq_of_beq, beq_refl}
use laskah.Prelude.Lists.{length, In, All, All-In}

module _ {K V : Type 0} ⦃e : Eq K⦄ where
  -- `v, ok := m[k]`
  unfoldable pub lookup : K → List (K × V) → Option V
  lookup k [] = none
  lookup k ((i, x) ∷ rest) = if i == k then some x else lookup k rest

  -- `m[k] = v`
  unfoldable pub insert : K → V → List (K × V) → List (K × V)
  insert k v [] = (k, v) ∷ []
  insert k v ((i, x) ∷ rest) = if i == k then (k, v) ∷ rest else (i, x) ∷ insert k v rest

  -- `delete(m, k)`
  unfoldable pub delete : K → List (K × V) → List (K × V)
  delete k [] = []
  delete k ((j, w) ∷ m) = if j == k then delete k m else (j, w) ∷ delete k m

  -- `for k, v := range m { if test(v) { delete(m, k) } }`
  unfoldable pub delete_if : (V → Bool) → List (K × V) → List (K × V)
  delete_if p [] = []
  delete_if p ((j, w) ∷ m) = if p w then delete_if p m else (j, w) ∷ delete_if p m

  abbrev pub Fresh : K → List (K × V) → Type 0
  Fresh k m = All (λ (x : K × V). (x.0 == k) ≡ false) m

  -- A Go map has a key once.
  abbrev pub Distinct : List (K × V) → Type 0
  Distinct [] = Unit
  Distinct (x ∷ m) = Fresh x.0 m × Distinct m

pub beq_swap : {K : Type 0} ⦃e : Eq K⦄ → (j k : K) → (j == k) ≡ (k == j)
beq_swap ⦃e⦄ j k = ground (arith, e.beq_iff j k, e.beq_iff k j)

module _ {K V : Type 0} ⦃e : Eq K⦄ where
  pub lookup-insert :
      (new k : K) (x : V) (m : List (K × V))
      → lookup k (insert new x m) ≡ (if new == k then some x else lookup k m)
  unfolding insert lookup
  lookup-insert new k x [] = refl
  lookup-insert new k x ((old, y) ∷ rest) =
      ground
        (arith, lookup-insert new k x rest, e.beq_iff old new, e.beq_iff old k, e.beq_iff new k)

  pub lookup-insert_self : (k : K) (v : V) (m : List (K × V)) → lookup k (insert k v m) ≡ some v
  lookup-insert_self k v m = rw (lookup-insert k k v m, beq_refl k)

  pub lookup-delete :
      (k j : K) (m : List (K × V)) → lookup j (delete k m) ≡ (if k == j then none else lookup j m)
  unfolding lookup delete
  lookup-delete k j [] = ground arith
  lookup-delete k j ((i, w) ∷ m) =
      ground (arith, e.beq_iff k j, e.beq_iff i k, e.beq_iff i j, lookup-delete k j m)

  pub Fresh→none : (k : K) (m : List (K × V)) → Fresh k m → lookup k m ≡ none
  unfolding lookup
  Fresh→none k [] h = refl
  Fresh→none k ((i, w) ∷ m) h = rw (h.0, Fresh→none k m h.1)

  pub Fresh-insert :
      (i k : K) (v : V) (m : List (K × V)) → (k == i) ≡ false → Fresh i m → Fresh i (insert k v m)
  unfolding insert
  Fresh-insert i k v [] n h = (n, tt)
  Fresh-insert i k v ((j, w) ∷ m) n h = ground (arith, Fresh-insert i k v m n h.1)

  pub insert-Distinct : (k : K) (v : V) (m : List (K × V)) → Distinct m → Distinct (insert k v m)
  unfolding insert
  insert-Distinct k v [] h = (tt, tt)
  insert-Distinct k v ((j, w) ∷ m) h = elim (Bool-cases (j == k)) [
    | inl q ↦ rw q (let q' : j ≡ k = eq_of_beq j k q in rw (← q') h)
    | inr q ↦ rw q (Fresh-insert j k v m (rw (beq_swap k j) q) h.0, insert-Distinct k v m h.1)
  ]

  pub Fresh-delete : (i k : K) (m : List (K × V)) → Fresh i m → Fresh i (delete k m)
  unfolding delete
  Fresh-delete i k [] h = tt
  Fresh-delete i k ((j, w) ∷ m) h = ground (arith, Fresh-delete i k m h.1)

  pub delete-Distinct : (k : K) (m : List (K × V)) → Distinct m → Distinct (delete k m)
  unfolding delete
  delete-Distinct k [] h = tt
  delete-Distinct k ((j, w) ∷ m) h = ground (arith, Fresh-delete j k m h.0, delete-Distinct k m h.1)

  pub Fresh-delete_if :
      (i : K) (p : V → Bool) (m : List (K × V)) → Fresh i m → Fresh i (delete_if p m)
  unfolding delete_if
  Fresh-delete_if i p [] h = tt
  Fresh-delete_if i p ((j, w) ∷ m) h = ground (arith, Fresh-delete_if i p m h.1)

  pub delete_if-Distinct : (p : V → Bool) (m : List (K × V)) → Distinct m → Distinct (delete_if p m)
  unfolding delete_if
  delete_if-Distinct p [] h = tt
  delete_if-Distinct p ((j, w) ∷ m) h =
      ground (arith, Fresh-delete_if j p m h.0, delete_if-Distinct p m h.1)

  -- An entry survives exactly if it fails the test.
  pub lookup-delete_if :
      (k : K) (p : V → Bool) (m : List (K × V))
      → Distinct m
      → lookup k (delete_if p m)
        ≡ elim (lookup k m) [ none ↦ none | some v ↦ if p v then none else some v ]
  unfolding lookup delete_if
  lookup-delete_if k p [] h = refl
  lookup-delete_if k p ((j, w) ∷ m) h = ground (
    arith,
    e.beq_iff j k,
    lookup-delete_if k p m h.1,
    Fresh→none j m h.0,
    Fresh→none j (delete_if p m) (Fresh-delete_if j p m h.0),
  )

  pub length-insert-le : (k : K) (v : V) (m : List (K × V)) → length (insert k v m) ≤ suc (length m)
  unfolding insert
  length-insert-le k v [] = omega arith
  length-insert-le k v ((j, w) ∷ m) = ground (arith, length-insert-le k v m)

  pub length-delete-le : (k : K) (m : List (K × V)) → length (delete k m) ≤ length m
  unfolding delete
  length-delete-le k [] = omega arith
  length-delete-le k ((j, w) ∷ m) = ground (arith, length-delete-le k m)

  pub length-delete_if-le : (p : V → Bool) (m : List (K × V)) → length (delete_if p m) ≤ length m
  unfolding delete_if
  length-delete_if-le p [] = omega arith
  length-delete_if-le p ((j, w) ∷ m) = ground (arith, length-delete_if-le p m)

  -- Deleting a key that is there makes the map smaller.
  pub length-delete-lt :
      (k : K) (v : V) (m : List (K × V)) → lookup k m ≡ some v → length (delete k m) < length m
  unfolding lookup delete
  length-delete-lt k v [] h = absurd (ground arith)
  length-delete-lt k v ((j, w) ∷ m) h = ground (arith, length-delete-le k m, length-delete-lt k v m)

  pub In→lookup :
      (k : K) (v : V) (m : List (K × V)) → Distinct m → In (k, v) m → lookup k m ≡ some v
  unfolding lookup
  In→lookup k v [] d i = absurd i
  In→lookup k v ((j, w) ∷ m) d (inl q) =
      let a : j ≡ k = ap (λ x. x.0) (sym q) in
      let b : w ≡ v = ap (λ x. x.1) (sym q) in rw (a, beq_refl k, b)
  In→lookup k v ((j, w) ∷ m) d (inr i) =
      rw (beq_swap j k, All-In (λ (x : K × V). (x.0 == j) ≡ false) m d.0 i) (In→lookup k v m d.1 i)

  pub All-delete {κ} :
      (P : K × V → Type κ) (k : K) (m : List (K × V)) → All P m → All P (delete k m)
  unfolding delete
  All-delete P k [] h = tt
  All-delete P k ((j, w) ∷ m) h = elim (Bool-cases (j == k)) [
    | inl e ↦ rw e (All-delete P k m h.1)
    | inr e ↦ rw e (h.0, All-delete P k m h.1)
  ]

  pub All-delete_if {κ} :
      (P : K × V → Type κ) (p : V → Bool) (m : List (K × V)) → All P m → All P (delete_if p m)
  unfolding delete_if
  All-delete_if P p [] h = tt
  All-delete_if P p ((j, w) ∷ m) h = elim (Bool-cases (p w)) [
    | inl e ↦ rw e (All-delete_if P p m h.1)
    | inr e ↦ rw e (h.0, All-delete_if P p m h.1)
  ]

  pub All-insert {κ} :
      (P : K × V → Type κ) (k : K) (v : V) (m : List (K × V))
      → P (k, v)
      → All P m
      → All P (insert k v m)
  unfolding insert
  All-insert P k v [] a h = (a, tt)
  All-insert P k v ((j, w) ∷ m) a h = elim (Bool-cases (j == k)) [
    | inl e ↦ rw e (a, h.1)
    | inr e ↦ rw e (h.0, All-insert P k v m a h.1)
  ]

  -- A key that is there is overwritten, so the map does not grow.
  pub length-insert_there :
      (k : K) (v w : V) (m : List (K × V)) → lookup k m ≡ some w → length (insert k v m) ≡ length m
  unfolding lookup insert
  length-insert_there k v w [] h = absurd (ground arith)
  length-insert_there k v w ((j, u) ∷ m) h = ground (arith, length-insert_there k v w m)
