-- ===== src/Script/Eval/Flows.antt =====
-- internal/script/eval.go: statements and `invoke` keep the pace.
use laskah.Prelude.{ℕ, zero, suc, ◌+◌, ◌≤◌, refl, Option, none, some, List, [], ◌∷◌, length, arith}
use laskah.Prelude.Text.{Text}
use laskah.Script.Outcome.{Outcome, ok, Yields, value, refused, Yields-then, Yields-if, Yields-map}
use laskah.Script.Syntax.{
  Node, Body, Stmt, Stmts, Decls, block_body, expr_body, var_decl, ret_nothing, ret_stmt, if_stmt,
  if_else, block_stmt, expr_stmt, for_of, no_stmts, stmt_then, no_decls, declare_bare, declare,
}
use laskah.Script.Values.{
  Host, Value, null, undefined, bool, num, str, object, array, callable, builtin, Interp,
  declare_var, set_var, max_steps,
}
use laskah.Script.Values.Convert.{truthy}
use laskah.Script.Values.Settled.{Settles, Still}
use laskah.Script.Values.Apply.{apply_builtin}
use laskah.Script.Values.Applied.{apply_builtin-Still}
use laskah.Script.Eval.{Flow, falls, returns, Calls}
use laskah.Script.Eval.Statements.{
  Iterable, over_array, over_characters, exec_stmts, exec_block, exec_decls, exec_branch,
  to_iterable, items_of, for_round, for_rounds, exec_for_of, exec_if, exec_expr, exec_return,
  exec_at, exec_with, run_body, call_function, invoke_with,
}
use laskah.Script.Eval.Pace.{On, Paced, IsPaced, Still-Paced, settled-Paced, ahead, tick-On}

module _ {R : Type 0} where
  declare_var-Still :
      (scope : List ℕ) (name : Text) (v : Value R) → Still (declare_var scope name v)
  unfolding declare_var set_var
  declare_var-Still [] name v s = value refl
  declare_var-Still (r ∷ scope) name v s = value refl

module _ {R : Type 0} (h : Host R) (f : ℕ) (c : Calls R) (p : IsPaced f c) where
  -- Statements go on behind one that falls through.
  later_flow :
      (s s₁ : Interp R) (flow : Flow R) (rest : Outcome (Flow R × Interp R))
      → On s (flow, s₁)
      → Yields (On s₁) rest
      → Yields (On s) (elim flow as (λ _. Outcome (Flow R × Interp R)) [
        | falls ↦ rest
        | returns v ↦ ok (returns v, s₁)
      ])
  later_flow s s₁ falls rest q y = ahead s s₁ q.0 y
  later_flow s s₁ (returns v) rest q y = value q

  exec_stmts-Paced : (stmts : Stmts R) (scope : List ℕ) → Paced f (exec_stmts h c stmts scope)
  unfolding exec_stmts
  exec_stmts-Paced no_stmts scope s b w = value (omega arith, b)
  exec_stmts-Paced (stmt_then item stmts) scope s b w =
      Yields-then (p.exec_lem item scope s b w) λ (flow, s₁) q₁.
        later_flow s s₁ flow (exec_stmts h c stmts scope s₁) q₁
          (exec_stmts-Paced stmts scope s₁ q₁.1 (omega arith))

  exec_decls-Paced : (decls : Decls R) (scope : List ℕ) → Paced f (exec_decls h c decls scope)
  unfolding exec_decls
  exec_decls-Paced no_decls scope s b w = value (omega arith, b)
  exec_decls-Paced (declare_bare name decls) scope s b w =
      Yields-then
        (Still-Paced f (declare_var scope name undefined) (declare_var-Still scope name undefined) s
          b w)
        λ (_, s₁) q₁. ahead s s₁ q₁.0 (exec_decls-Paced decls scope s₁ q₁.1 (omega arith))
  exec_decls-Paced (declare name init decls) scope s b w =
      Yields-then (p.eval_lem init scope s b w) λ (v, s₁) q₁.
        Yields-then
          (Still-Paced f (declare_var scope name v) (declare_var-Still scope name v) s₁ q₁.1
            (omega arith))
          λ (_, s₂) q₂.
            ahead s s₂ (omega arith) (exec_decls-Paced decls scope s₂ q₂.1 (omega arith))

  exec_branch-Paced : (stmt : Stmt R) (scope : List ℕ) → Paced f (exec_branch h c stmt scope)
  unfolding exec_branch
  exec_branch-Paced stmt scope s b w = p.exec_lem stmt _ _ b w

  to_iterable-Settles : (v : Value R) → Settles (to_iterable h c v)
  unfolding to_iterable
  to_iterable-Settles (array r) = value tt
  to_iterable-Settles (str text) = value tt
  to_iterable-Settles null = refused
  to_iterable-Settles undefined = refused
  to_iterable-Settles (bool v) = refused
  to_iterable-Settles (num v) = refused
  to_iterable-Settles (object r) = refused
  to_iterable-Settles (callable i params body scope) = refused
  to_iterable-Settles (builtin i v) = refused

  items_of-Still : (items : Iterable R) → Still (items_of h c items)
  items_of-Still (over_array r) s = value refl
  items_of-Still (over_characters items) s = value refl

  for_round-Paced :
      (name : Text) (items : Iterable R) (body : Stmt R) (scope : List ℕ) (i : ℕ)
      → Paced f (for_round h c name items body scope i)
  unfolding for_round
  for_round-Paced name items body scope i s b w = Yields-then (tick-On s) λ (_, s₁) q₁.
      Yields-then (items_of-Still items s₁) λ (now, s₂) q₂.
        Yields-map (λ x q. (omega (arith, q₁.0, q₂, q.0), q.1))
          (p.exec_lem body _ _ (omega (arith, q₁.1, q₂)) (omega (arith, q₁.0, q₂)))

  for_rounds-Paced :
      (name : Text) (items : Iterable R) (body : Stmt R) (scope : List ℕ) (n i : ℕ)
      → Paced f (for_rounds h c name items body scope n i)
  unfolding for_rounds
  for_rounds-Paced name items body scope zero i s b w = value (omega arith, b)
  for_rounds-Paced name items body scope (suc n) i s b w =
      Yields-then (for_round-Paced name items body scope i s b w) λ (flow, s₁) q₁.
        later_flow s s₁ flow (for_rounds h c name items body scope n (i + 1) s₁) q₁
          (for_rounds-Paced name items body scope n (i + 1) s₁ q₁.1 (omega arith))

  exec_for_of-Paced :
      (name : Text) (iter : Node R) (body : Stmt R) (scope : List ℕ)
      → Paced f (exec_for_of h c name iter body scope)
  unfolding exec_for_of
  exec_for_of-Paced name iter body scope s b w =
      Yields-then (p.eval_lem iter scope s b w) λ (v, s₁) q₁.
        Yields-then (settled-Paced s₁ (to_iterable h c v) q₁.1 (to_iterable-Settles v))
          λ (items, s₂) q₂. Yields-then (items_of-Still items s₂) λ (all, s₃) q₃.
            ahead s s₃ (omega (arith, q₃)) (
              for_rounds-Paced name items body scope (length all) 0 s₃ (omega (arith, q₃))
                (omega (arith, q₃)))

  exec_if-Paced :
      (test : Node R) (cons : Stmt R) (alt : Option (Stmt R)) (scope : List ℕ)
      → Paced f (exec_if h c test cons alt scope)
  unfolding exec_if
  exec_if-Paced test cons alt scope s b w = Yields-then (p.eval_lem test scope s b w) λ (v, s₁) q₁.
      Yields-if (truthy h v)
        (λ _. ahead s s₁ q₁.0 (exec_branch-Paced cons scope s₁ q₁.1 (omega arith)))
        (λ _. ahead s s₁ q₁.0 (from s₁ q₁.1 (omega arith) alt))
    where
      from :
          (s₁ : Interp R)
          → s₁.steps ≤ max_steps
          → suc max_steps ≤ f + s₁.steps
          → (alt : Option (Stmt R))
          → Yields (On s₁) (elim alt as (λ _. Outcome (Flow R × Interp R)) [
            | none ↦ ok (falls, s₁)
            | some stmt ↦ exec_branch h c stmt scope s₁
          ])
      from s₁ b₁ w₁ none = value (omega arith, b₁)
      from s₁ b₁ w₁ (some stmt) = exec_branch-Paced stmt scope s₁ b₁ w₁

  exec_at-Paced : (stmt : Stmt R) (scope : List ℕ) → Paced f (exec_at h c stmt scope)
  unfolding exec_at exec_block exec_expr exec_return
  exec_at-Paced (block_stmt stmts) scope s b w = exec_stmts-Paced stmts _ _ b w
  exec_at-Paced (expr_stmt expr) scope s b w =
      Yields-then (p.eval_lem expr scope s b w) λ _ q. value q
  exec_at-Paced (var_decl decls) scope s b w = exec_decls-Paced decls scope s b w
  exec_at-Paced ret_nothing scope s b w = value (omega arith, b)
  exec_at-Paced (ret_stmt arg) scope s b w = Yields-then (p.eval_lem arg scope s b w) λ _ q. value q
  exec_at-Paced (if_stmt test cons) scope s b w = exec_if-Paced test cons none scope s b w
  exec_at-Paced (if_else test cons alt) scope s b w = exec_if-Paced test cons (some alt) scope s b w
  exec_at-Paced (for_of name iter body) scope s b w = exec_for_of-Paced name iter body scope s b w

  pub exec_with-Paced : (stmt : Stmt R) (scope : List ℕ) → Paced (suc f) (exec_with h c stmt scope)
  unfolding exec_with
  exec_with-Paced stmt scope s b w = Yields-then (tick-On s) λ (_, s₁) q₁.
      ahead s s₁ (omega (arith, q₁.0)) (exec_at-Paced stmt scope s₁ q₁.1 (omega (arith, q₁.0)))

  run_body-Paced : (body : Body R) (scope : List ℕ) → Paced f (run_body h c body scope)
  unfolding run_body
  run_body-Paced (expr_body expr) scope s b w = p.eval_lem expr scope s b w
  run_body-Paced (block_body stmts) scope s b w =
      Yields-then (exec_stmts-Paced stmts scope s b w) λ _ q. value q

  call_function-Paced :
      (callee : Value R) (args : List (Value R)) → Paced f (call_function h c callee args)
  unfolding call_function
  call_function-Paced (builtin i v) args s b w =
      Still-Paced f (λ s'. apply_builtin h v args s') (apply_builtin-Still h v args) s b w
  call_function-Paced (callable i params body scope) args s b w = run_body-Paced body _ _ b w
  call_function-Paced null args s b w = refused
  call_function-Paced undefined args s b w = refused
  call_function-Paced (bool v) args s b w = refused
  call_function-Paced (num v) args s b w = refused
  call_function-Paced (str v) args s b w = refused
  call_function-Paced (object r) args s b w = refused
  call_function-Paced (array r) args s b w = refused

  pub invoke_with-Paced :
      (callee : Value R) (args : List (Value R)) → Paced (suc f) (invoke_with h c callee args)
  unfolding invoke_with
  invoke_with-Paced callee args s b w = Yields-then (tick-On s) λ (_, s₁) q₁.
      ahead s s₁ (omega (arith, q₁.0))
        (call_function-Paced callee args s₁ q₁.1 (omega (arith, q₁.0)))
