-- ===== src/Script/Values/Cycles.antt =====
-- internal/script/eval.go: `toString` on arrays that hold themselves, and on arrays that do not.
use laskah.Prelude.{
  ℕ, zero, suc, ◌≤◌, ◌<◌, ◌≡◌, refl, Bool, true, false, List, [], ◌∷◌, length, In, ◌⊎◌, inl, inr,
  arith,
}
use laskah.Prelude.Text.{Text, codes}
use laskah.Script.Outcome.{Outcome, ok, failed, then_do, stack_overflow}
use laskah.Script.Values.{
  Host, Value, null, undefined, bool, num, str, object, array, callable, builtin, Cell, items_at,
}
use laskah.Script.Values.Convert.{
  is_nullish, join_texts, format_number, texts_of, text_within, to_string,
}

-- A text, or the overflow of the stack.
abbrev IsSure : {A : Type 0} → Outcome A → Type 0
IsSure {A} o = ((v : A) × (o ≡ ok v)) ⊎ (o ≡ failed stack_overflow)

module _ {R : Type 0} where
  -- The arrays can be put in an order in which each comes behind those that it holds.
  abbrev pub IsRanked : List (Cell R) → (ℕ → ℕ) → Type 0
  IsRanked cells rank =
      (r : ℕ)
      → (rank r ≤ length cells) × ((q : ℕ) → In (array q) (items_at cells r) → rank q < rank r)

module _ {R : Type 0} (h : Host R) where
  texts_of-IsSure :
      (text : Value R → Outcome Text) (items : List (Value R))
      → ((v : Value R) → IsSure (text v))
      → IsSure (texts_of h text items)
  unfolding texts_of
  texts_of-IsSure text [] k = inl ([], refl)
  texts_of-IsSure text (item ∷ items) k =
      from (is_nullish item) (k item) (texts_of-IsSure text items k)
    where
      more :
          (t : Text) (ts : Outcome (List Text))
          → IsSure ts
          → IsSure (then_do ts λ texts. ok (t ∷ texts))
      more t ts (inl (rest, e)) = inl (t ∷ rest, rw e)
      more t ts (inr e) = inr (rw e)

      from :
          (b : Bool)
          → IsSure (text item)
          → IsSure (texts_of h text items)
          → IsSure (
              then_do
                (elim b as (λ _. Outcome Text) [ true ↦ ok [] | false ↦ text item ])
                λ t. then_do (texts_of h text items) λ texts. ok (t ∷ texts))
      from true s later = more [] (texts_of h text items) later
      from false (inl (t, e)) later = rw e (more t (texts_of h text items) later)
      from false (inr e) later = inr (rw e)

  text_within-IsSure :
      (n : ℕ) (cells : List (Cell R)) (v : Value R) → IsSure (text_within h n cells v)
  unfolding text_within
  text_within-IsSure n cells null = inl (codes "null", refl)
  text_within-IsSure n cells undefined = inl (codes "undefined", refl)
  text_within-IsSure n cells (bool true) = inl (codes "true", refl)
  text_within-IsSure n cells (bool false) = inl (codes "false", refl)
  text_within-IsSure n cells (num v) = inl (format_number h v, refl)
  text_within-IsSure n cells (str text) = inl (text, refl)
  text_within-IsSure n cells (callable i params body scope) = inl (codes "function", refl)
  text_within-IsSure n cells (builtin i b) = inl (codes "function", refl)
  text_within-IsSure n cells (object r) = inl (codes "[object Object]", refl)
  text_within-IsSure zero cells (array r) = inr refl
  text_within-IsSure (suc n) cells (array r) =
      from (texts_of h (text_within h n cells) (items_at cells r))
        (texts_of-IsSure (text_within h n cells) (items_at cells r) (text_within-IsSure n cells))
    where
      from :
          (o : Outcome (List Text))
          → IsSure o
          → IsSure (then_do o λ texts. ok (join_texts (codes ",") texts))
      from o (inl (ts, e)) = inl (join_texts (codes ",") ts, rw e)
      from o (inr e) = inr (rw e)

  -- One item that overflows makes the whole overflow.
  texts_of-overflow :
      (text : Value R → Outcome Text) (v : Value R) (items : List (Value R))
      → ((x : Value R) → IsSure (text x))
      → is_nullish v ≡ false
      → text v ≡ failed stack_overflow
      → In v items
      → texts_of h text items ≡ failed stack_overflow
  unfolding texts_of
  texts_of-overflow text v [] k e o m = absurd m
  texts_of-overflow text v (item ∷ items) k e o (inl q) =
      let e' : is_nullish item ≡ false = rw (← q) e in
      let o' : text item ≡ failed stack_overflow = rw (← q) o in found (is_nullish item) e' o'
    where
      found :
          (b : Bool)
          → b ≡ false
          → text item ≡ failed stack_overflow
          → (then_do
              (elim b as (λ _. Outcome Text) [ true ↦ ok [] | false ↦ text item ])
              λ t. then_do (texts_of h text items) λ texts. ok (t ∷ texts))
            ≡ failed stack_overflow
      found true w u = cc
      found false w u = rw u
  texts_of-overflow text v (item ∷ items) k e o (inr q) =
      later (is_nullish item) (k item) (texts_of-overflow text v items k e o q)
    where
      later :
          (b : Bool)
          → IsSure (text item)
          → texts_of h text items ≡ failed stack_overflow
          → (then_do
              (elim b as (λ _. Outcome Text) [ true ↦ ok [] | false ↦ text item ])
              λ t. then_do (texts_of h text items) λ texts. ok (t ∷ texts))
            ≡ failed stack_overflow
      later true s u = rw u
      later false (inl (t, w)) u = rw (w, u)
      later false (inr w) u = rw w

  -- If an array is among its own items, its conversion to text overflows the stack, whatever
  -- room the stack has.
  pub text_within-cycle :
      (n : ℕ) (cells : List (Cell R)) (r : ℕ)
      → In (array r) (items_at cells r)
      → text_within h n cells (array r) ≡ failed stack_overflow
  unfolding text_within is_nullish
  text_within-cycle zero cells r m = refl
  text_within-cycle (suc n) cells r m = rw (
      texts_of-overflow (text_within h n cells) (array r) (items_at cells r)
        (text_within-IsSure n cells) refl (text_within-cycle n cells r m) m)

  abbrev Gives : Outcome Text → Type 0
  Gives o = (t : Text) × (o ≡ ok t)

  texts_of-Gives :
      (text : Value R → Outcome Text) (items : List (Value R))
      → ((v : Value R) → In v items → Gives (text v))
      → (ts : List Text) × (texts_of h text items ≡ ok ts)
  unfolding texts_of
  texts_of-Gives text [] k = ([], refl)
  texts_of-Gives text (item ∷ items) k =
      from (is_nullish item) (k item (inl refl)) (texts_of-Gives text items (λ v m. k v (inr m)))
    where
      from :
          (b : Bool)
          → Gives (text item)
          → (ts : List Text) × (texts_of h text items ≡ ok ts)
          → (ts : List Text) × ((then_do
                (elim b as (λ _. Outcome Text) [ true ↦ ok [] | false ↦ text item ])
                λ t. then_do (texts_of h text items) λ texts. ok (t ∷ texts))
              ≡ ok ts)
      from true (t, e) (ts, w) = ([] ∷ ts, rw w)
      from false (t, e) (ts, w) = (t ∷ ts, rw (e, w))

  -- How deep the conversion of a value goes.
  abbrev IsWithin : ℕ → (ℕ → ℕ) → Value R → Type 0
  IsWithin n rank (array r) = rank r < n
  IsWithin n rank _ = Unit

  item-IsWithin :
      (n : ℕ) (cells : List (Cell R)) (rank : ℕ → ℕ) (r : ℕ)
      → IsRanked cells rank
      → rank r ≤ n
      → (v : Value R) → In v (items_at cells r)
      → IsWithin n rank v
  item-IsWithin n cells rank r k w (array q) m = omega (arith, (k r).1 q m)
  item-IsWithin n cells rank r k w null m = tt
  item-IsWithin n cells rank r k w undefined m = tt
  item-IsWithin n cells rank r k w (bool b) m = tt
  item-IsWithin n cells rank r k w (num v) m = tt
  item-IsWithin n cells rank r k w (str t) m = tt
  item-IsWithin n cells rank r k w (object q) m = tt
  item-IsWithin n cells rank r k w (callable i params body scope) m = tt
  item-IsWithin n cells rank r k w (builtin i b) m = tt

  text_within-Gives :
      (n : ℕ) (cells : List (Cell R)) (rank : ℕ → ℕ) (v : Value R)
      → IsRanked cells rank
      → IsWithin n rank v
      → Gives (text_within h n cells v)
  unfolding text_within
  text_within-Gives n cells rank null k w = (codes "null", refl)
  text_within-Gives n cells rank undefined k w = (codes "undefined", refl)
  text_within-Gives n cells rank (bool true) k w = (codes "true", refl)
  text_within-Gives n cells rank (bool false) k w = (codes "false", refl)
  text_within-Gives n cells rank (num v) k w = (format_number h v, refl)
  text_within-Gives n cells rank (str text) k w = (text, refl)
  text_within-Gives n cells rank (callable i params body scope) k w = (codes "function", refl)
  text_within-Gives n cells rank (builtin i b) k w = (codes "function", refl)
  text_within-Gives n cells rank (object r) k w = (codes "[object Object]", refl)
  text_within-Gives zero cells rank (array r) k w = absurd (omega (arith, w))
  text_within-Gives (suc n) cells rank (array r) k w =
      let (ts, e) = texts_of-Gives (text_within h n cells) (items_at cells r) (λ v m.
        text_within-Gives n cells rank v k
          (item-IsWithin n cells rank r k (omega (arith, w)) v m)) in
      (join_texts (codes ",") ts, rw e)

  -- If the references can be numbered, from zero to the number of cells, so that an array has a
  -- higher number than each array among its items, every value is converted to a text.
  pub to_string-ranked :
      (cells : List (Cell R)) (rank : ℕ → ℕ) (v : Value R)
      → IsRanked cells rank
      → (t : Text) × (to_string h cells v ≡ ok t)
  unfolding to_string
  to_string-ranked cells rank v k = text_within-Gives (suc (length cells)) cells rank v k (within v)
    where
      within : (x : Value R) → IsWithin (suc (length cells)) rank x
      within (array r) = omega (arith, (k r).0)
      within null = tt
      within undefined = tt
      within (bool b) = tt
      within (num y) = tt
      within (str t) = tt
      within (object q) = tt
      within (callable i params body scope) = tt
      within (builtin i b) = tt
