-- ===== src/Prelude/Float.antt =====
-- Go's `float64` as a parameter: the operations that the program uses, and the facts of IEEE 754
-- about the numbers other than NaN (the program's amounts come from JSON, which has no NaN).
use Prim.Native.Nat.{ℕ}
use mathlib.Core.Bool.{Bool, true, false, not}
use mathlib.Core.Path.{◌≡◌}

pub record Float (R : Type 0) : Type 0 where
  -- `float64(n)` of an integer, and the constants 0.5 and 0.001.
  pub of_ℕ : ℕ → R
  pub half : R
  pub milli : R
  pub plus : R → R → R
  pub minus : R → R → R
  pub times : R → R → R
  pub over : R → R → R
  -- `float64(int64(x))`: rounding towards zero.
  pub trunc : R → R
  pub lt : R → R → Bool
  pub le : R → R → Bool
  pub eq : R → R → Bool

-- The order of the numbers other than NaN.
pub record IsOrdered {R : Type 0} (f : Float R) : Type 0 where
  pub lt_irrefl : (x : R) → f.lt x x ≡ false
  pub lt_trans : (x y z : R) → f.lt x y ≡ true → f.lt y z ≡ true → f.lt x z ≡ true
  -- `x <= y` is the negation of `y < x`.
  pub le_lem : (x y : R) → f.le x y ≡ not (f.lt y x)
  -- Two numbers that are not equal are ordered, and equal ones are not.
  pub lt_of_ne : (x y : R) → f.eq x y ≡ false → f.lt x y ≡ false → f.lt y x ≡ true
  pub eq-lt : (x y z : R) → f.eq x y ≡ true → f.lt x z ≡ f.lt y z
  pub lt-eq : (x y z : R) → f.eq x y ≡ true → f.lt z x ≡ f.lt z y
