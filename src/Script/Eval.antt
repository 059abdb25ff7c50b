-- ===== src/Script/Eval.antt =====
-- internal/script/eval.go: what the functions of the evaluator share.
pub mod Operators
pub mod Arrays
pub mod Nodes
pub mod Statements
pub mod Interpreter
pub mod Pace
pub mod Loops
pub mod Paces
pub mod Targets
pub mod Flows
pub mod Total
use laskah.Prelude.{ℕ, List}
use laskah.Script.Syntax.{Node, Stmt}
use laskah.Script.Values.{Value, Run}

-- How a statement ends: it falls through to the next one, or it returns, which `returnSignal` carries.
pub data Flow (R : Type 0) : Type 0 where
  falls : Flow R
  returns : Value R → Flow R

-- The functions that call each other, of which each counts a step first.
pub record Calls (R : Type 0) : Type 0 where
  pub eval : Node R → List ℕ → Run R (Value R)
  pub exec : Stmt R → List ℕ → Run R (Flow R)
  pub invoke : Value R → List (Value R) → Run R (Value R)
