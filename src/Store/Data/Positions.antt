-- ===== src/Store/Data/Positions.antt =====
-- An index of positions finds, under distinct keys, the element that a scan finds.
use laskah.Prelude.{
  ℕ, suc, ◌+◌, ◌≡◌, refl, ◌∙◌, ap, subst, true, false, Option, none, some, List, [], ◌∷◌, arith,
  inl, inr, Bool-cases, ◌==◌, get_elem?, find, All, eq_of_beq,
}
use laskah.Prelude.Text.{Text, text_eq}
use laskah.Prelude.Maps.{lookup, insert, lookup-insert}
use laskah.Store.Data.{positions, at_index}

-- No two elements have the same key.
abbrev pub OneEach : {A : Type 0} → (A → Text) → List A → Type 0
OneEach key [] = Unit
OneEach key (x ∷ xs) = All (λ y. (key y == key x) ≡ false) xs × OneEach key xs

at_index-none :
    {A : Type 0} (ys : List A) (k : Text) (m : List (Text × ℕ))
    → lookup k m ≡ none
    → at_index ys k m ≡ none
unfolding at_index
at_index-none ys k m e = ap (λ (o : Option ℕ). elim o [ none ↦ none | some i ↦ get_elem? ys i ]) e

at_index-some :
    {A : Type 0} (ys : List A) (k : Text) (m : List (Text × ℕ)) (i : ℕ)
    → lookup k m ≡ some i
    → at_index ys k m ≡ get_elem? ys i
unfolding at_index
at_index-some ys k m i e = ap (λ (o : Option ℕ). elim o [ none ↦ none | some i ↦ get_elem? ys i ]) e

-- A suffix of the list, from position `i` on.
abbrev pub StandsAt : {A : Type 0} → List A → ℕ → List A → Type 0
StandsAt ys i xs = (j : ℕ) → get_elem? ys (i + j) ≡ get_elem? xs j

pub StandsAt-self : {A : Type 0} (xs : List A) → StandsAt xs 0 xs
StandsAt-self xs j = ap (get_elem? xs) (let z : 0 + j ≡ j = omega arith in z)

pub StandsAt-head :
    {A : Type 0} (ys : List A) (i : ℕ) (x : A) (xs : List A)
    → StandsAt ys i (x ∷ xs)
    → get_elem? ys i ≡ some x
StandsAt-head ys i x xs h =
    subst (λ n. get_elem? ys n ≡ some x) (let z : i + 0 ≡ i = omega arith in z) (h 0)

pub StandsAt-tail :
    {A : Type 0} (ys : List A) (i : ℕ) (x : A) (xs : List A)
    → StandsAt ys i (x ∷ xs)
    → StandsAt ys (suc i) xs
StandsAt-tail ys i x xs h j =
    subst (λ n. get_elem? ys n ≡ get_elem? xs j) (let z : i + suc j ≡ suc i + j = omega arith in z)
      (h (suc j))

module _ {A : Type 0} (key : A → Text) where
  positions_absent :
      (k : Text) (i : ℕ) (xs : List A) (m : List (Text × ℕ))
      → All (λ y. (key y == k) ≡ false) xs
      → lookup k (positions key i xs m) ≡ lookup k m
  unfolding positions
  positions_absent k i [] m h = refl
  positions_absent k i (x ∷ xs) m h =
      positions_absent k (suc i) xs (insert (key x) i m) h.1
      ∙ lookup-insert (key x) k i m
      ∙ rw (h.0) refl

  pub positions_found :
      (k : Text) (i : ℕ) (ys xs : List A) (m : List (Text × ℕ))
      → OneEach key xs
      → lookup k m ≡ none
      → StandsAt ys i xs
      → at_index ys k (positions key i xs m) ≡ find (λ x. key x == k) xs
  unfolding positions find
  positions_found k i ys [] m u e h = at_index-none ys k m e
  positions_found k i ys (x ∷ xs) m u e h = elim (Bool-cases (key x == k)) [
    | inl q ↦ rw q (
        at_index-some ys k (positions key (suc i) xs (insert (key x) i m)) i (
          positions_absent k (suc i) xs (insert (key x) i m) (absent q)
          ∙ lookup-insert (key x) k i m
          ∙ rw q refl)
        ∙ StandsAt-head ys i x xs h)
    | inr q ↦ rw q (
        positions_found k (suc i) ys xs (insert (key x) i m) u.1
          (lookup-insert (key x) k i m ∙ rw (q, e) refl) (StandsAt-tail ys i x xs h))
  ]
    where
      absent : (key x == k) ≡ true → All (λ y. (key y == k) ≡ false) xs
      absent q = subst (λ k. All (λ y. (key y == k) ≡ false) xs) (eq_of_beq (key x) k q) u.0
