-- ===== src/Script/Eval/Total.antt =====
-- internal/script/eval.go: the limit on steps makes every execution end.
use laskah.Prelude.{ℕ, zero, suc, ◌+◌, ◌≤◌, ◌≡◌, ◌≢◌, List, arith}
use laskah.Script.Outcome.{ok, out_of_fuel, Yields-fuel, Yields-ok}
use laskah.Script.Syntax.{Node}
use laskah.Script.Values.{Host, Value, Interp, max_steps}
use laskah.Script.Eval.Interpreter.{calls, interpreter}
use laskah.Script.Eval.Pace.{IsPaced}
use laskah.Script.Eval.Targets.{eval_with-Paced}
use laskah.Script.Eval.Flows.{exec_with-Paced, invoke_with-Paced}

module _ {R : Type 0} (h : Host R) where
  calls-IsPaced : (f : ℕ) → IsPaced f (calls h f)
  unfolding calls
  calls-IsPaced zero = record {
    eval_lem = λ node scope s b w. absurd (omega arith);
    exec_lem = λ stmt scope s b w. absurd (omega arith);
    invoke_lem = λ callee args s b w. absurd (omega arith);
  }
  calls-IsPaced (suc f) = record {
    eval_lem = eval_with-Paced h f (calls h f) (calls-IsPaced f);
    exec_lem = exec_with-Paced h f (calls h f) (calls-IsPaced f);
    invoke_lem = invoke_with-Paced h f (calls h f) (calls-IsPaced f);
  }

  pub interpreter-IsPaced : IsPaced (max_steps + 1) (interpreter h)
  unfolding interpreter
  interpreter-IsPaced = calls-IsPaced (max_steps + 1)

  pub eval-total :
      (node : Node R) (scope : List ℕ) (s : Interp R)
      → s.steps ≤ max_steps
      → (interpreter h).eval node scope s ≢ out_of_fuel
  eval-total node scope s b =
      Yields-fuel (interpreter-IsPaced.eval_lem node scope s b (omega arith))

  -- A call of any value on any arguments, in a state in which no more than `max_steps` steps
  -- were taken, ends in a value or a failure: the fuel of the model, one more than `max_steps`,
  -- does not run out, whatever the functions, loops and callbacks of arrays do.
  pub invoke-total :
      (callee : Value R) (args : List (Value R)) (s : Interp R)
      → s.steps ≤ max_steps
      → (interpreter h).invoke callee args s ≢ out_of_fuel
  invoke-total callee args s b =
      Yields-fuel (interpreter-IsPaced.invoke_lem callee args s b (omega arith))

  -- If such a call gives a value, the steps that are counted did not fall, and they are at most
  -- `max_steps`.
  pub invoke-steps :
      (callee : Value R) (args : List (Value R)) (s s' : Interp R) (v : Value R)
      → s.steps ≤ max_steps
      → (interpreter h).invoke callee args s ≡ ok (v, s')
      → (s.steps ≤ s'.steps) × (s'.steps ≤ max_steps)
  invoke-steps callee args s s' v b e =
      Yields-ok (interpreter-IsPaced.invoke_lem callee args s b (omega arith)) e
