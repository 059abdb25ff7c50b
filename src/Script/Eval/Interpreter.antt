-- ===== src/Script/Eval/Interpreter.antt =====
-- internal/script/eval.go: the interpreter. Each call of `eval`, `exec` and `invoke` spends a unit of the
-- model's fuel, and counts a step in the program.
use laskah.Prelude.{ℕ, zero, suc, ◌+◌, []}
use laskah.Script.Outcome.{out_of_fuel}
use laskah.Script.Values.{Host, Interp, max_steps}
use laskah.Script.Eval.{Calls}
use laskah.Script.Eval.Nodes.{eval_with}
use laskah.Script.Eval.Statements.{exec_with, invoke_with}

module _ {R : Type 0} where
  -- `&interp{}`
  abbrev pub new_interp : Interp R
  new_interp = record { steps = 0; cells = []; frames = []; functions = 0 }

module _ {R : Type 0} (h : Host R) where
  unfoldable pub calls : ℕ → Calls R
  unfolding eval_with exec_with invoke_with
  calls zero = record {
    eval = λ node scope s. out_of_fuel;
    exec = λ stmt scope s. out_of_fuel;
    invoke = λ callee args s. out_of_fuel;
  }
  calls (suc f) = record {
    eval = eval_with h (calls f);
    exec = exec_with h (calls f);
    invoke = invoke_with h (calls f);
  }

  -- The functions at the fuel that the limit on steps makes enough.
  unfoldable pub interpreter : Calls R
  unfolding calls
  interpreter = calls (max_steps + 1)
