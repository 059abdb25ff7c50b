-- ===== src/Script/Eval/Statements.antt =====
-- internal/script/eval.go: the execution of statements, and `invoke`.
use laskah.Prelude.{ℕ, zero, suc, ◌+◌, Option, none, some, List, [], ◌∷◌, if◌then◌else◌, length}
use laskah.Prelude.Text.{Text, text_eq}
use laskah.Prelude.Maps.{insert}
use laskah.Script.Outcome.{Outcome, ok, failed, then_do, not_iterable, not_callable}
use laskah.Script.Syntax.{
  Node, Body, Stmt, Stmts, Decls, block_body, expr_body, var_decl, ret_nothing, ret_stmt, if_stmt,
  if_else, block_stmt, expr_stmt, for_of, no_stmts, stmt_then, no_decls, declare_bare, declare,
}
use laskah.Script.Values.{
  Host, Value, undefined, str, array, callable, builtin, Interp, items_at, declare_var, new_scope,
  tick, Run, done, stop_with, ◌>>=◌, ◌>>◌,
}
use laskah.Script.Values.Convert.{truthy, characters}
use laskah.Script.Values.Methods.{arg_at}
use laskah.Script.Values.Apply.{apply_builtin}
use laskah.Script.Eval.{Flow, falls, returns, Calls}

-- What `toIterable` gives: the slice of an array, or the characters of a string in a slice of their own.
pub data Iterable (R : Type 0) : Type 0 where
  over_array : ℕ → Iterable R
  over_characters : List (Value R) → Iterable R

module _ {R : Type 0} (h : Host R) (c : Calls R) where
  -- `execBlock`
  unfoldable pub exec_stmts : Stmts R → List ℕ → Run R (Flow R)
  exec_stmts no_stmts scope s = ok (falls, s)
  exec_stmts (stmt_then item stmts) scope s =
      then_do (c.exec item scope s) λ (flow, s'). elim flow [
        | falls ↦ exec_stmts stmts scope s'
        | returns v ↦ ok (returns v, s')
      ]

  unfoldable pub exec_block : Stmts R → List ℕ → Run R (Flow R)
  unfolding exec_stmts
  exec_block stmts scope = do inner ← new_scope [] scope; exec_stmts stmts inner

  unfoldable pub exec_decls : Decls R → List ℕ → Run R (Flow R)
  unfolding declare_var
  exec_decls no_decls scope = done falls
  exec_decls (declare_bare name decls) scope = do
    declare_var scope name undefined
    exec_decls decls scope
  exec_decls (declare name init decls) scope = do
    value ← c.eval init scope
    declare_var scope name value
    exec_decls decls scope

  -- A branch runs in a scope of its own.
  unfoldable pub exec_branch : Stmt R → List ℕ → Run R (Flow R)
  exec_branch stmt scope = do inner ← new_scope [] scope; c.exec stmt inner

  unfoldable pub to_iterable : Value R → Outcome (Iterable R)
  unfolding characters
  to_iterable (array r) = ok (over_array r)
  to_iterable (str text) = ok (over_characters (characters h text))
  to_iterable _ = failed not_iterable

  abbrev pub items_of : Iterable R → Run R (List (Value R))
  items_of (over_array r) s = ok (items_at s.cells r, s)
  items_of (over_characters items) s = ok (items, s)

  -- The body for the item at the index, as it is now.
  unfoldable pub for_round : Text → Iterable R → Stmt R → List ℕ → ℕ → Run R (Flow R)
  unfolding tick items_at
  for_round name items body scope i = do
    tick
    now ← items_of items
    inner ← new_scope ((name, arg_at now i) ∷ []) scope
    c.exec body inner

  unfoldable pub for_rounds : Text → Iterable R → Stmt R → List ℕ → ℕ → ℕ → Run R (Flow R)
  unfolding for_round
  for_rounds name items body scope zero i s = ok (falls, s)
  for_rounds name items body scope (suc n) i s =
      then_do (for_round name items body scope i s) λ (flow, s'). elim flow [
        | falls ↦ for_rounds name items body scope n (i + 1) s'
        | returns v ↦ ok (returns v, s')
      ]

  -- `execForOf`
  unfoldable pub exec_for_of : Text → Node R → Stmt R → List ℕ → Run R (Flow R)
  unfolding to_iterable for_rounds items_at
  exec_for_of name iter body scope = do
    value ← c.eval iter scope
    items ← (λ s. then_do (to_iterable value) λ x. ok (x, s))
    all ← items_of items
    for_rounds name items body scope (length all) 0

  unfoldable pub exec_if : Node R → Stmt R → Option (Stmt R) → List ℕ → Run R (Flow R)
  unfolding truthy exec_branch
  exec_if test cons alt scope = do
    value ← c.eval test scope
    (λ s.
        let otherwise : Outcome (Flow R × Interp R) = elim alt [
          | none ↦ ok (falls, s)
          | some stmt ↦ exec_branch stmt scope s
        ] in
        if truthy h value then exec_branch cons scope s else otherwise)

  unfoldable pub exec_expr : Node R → List ℕ → Run R (Flow R)
  exec_expr expr scope = do value ← c.eval expr scope; done falls

  unfoldable pub exec_return : Node R → List ℕ → Run R (Flow R)
  exec_return arg scope = do value ← c.eval arg scope; done (returns value)

  -- `exec` behind its step.
  unfoldable pub exec_at : Stmt R → List ℕ → Run R (Flow R)
  unfolding exec_block exec_decls exec_if exec_for_of exec_expr exec_return
  exec_at (block_stmt stmts) scope = exec_block stmts scope
  exec_at (expr_stmt expr) scope = exec_expr expr scope
  exec_at (var_decl decls) scope = exec_decls decls scope
  exec_at ret_nothing scope = done (returns undefined)
  exec_at (ret_stmt arg) scope = exec_return arg scope
  exec_at (if_stmt test cons) scope = exec_if test cons none scope
  exec_at (if_else test cons alt) scope = exec_if test cons (some alt) scope
  exec_at (for_of name iter body) scope = exec_for_of name iter body scope

  unfoldable pub exec_with : Stmt R → List ℕ → Run R (Flow R)
  unfolding tick exec_at
  exec_with stmt scope = do tick; exec_at stmt scope

  -- The variables of a call: an argument for each parameter, or `undefined`.
  unfoldable pub bind_params :
      List Text → List (Value R) → List (Text × Value R) → List (Text × Value R)
  unfolding insert
  bind_params [] args vars = vars
  bind_params (name ∷ params) [] vars = bind_params params [] (insert name undefined vars)
  bind_params (name ∷ params) (v ∷ args) vars = bind_params params args (insert name v vars)

  -- The value that a body of statements returns.
  unfoldable pub run_body : Body R → List ℕ → Run R (Value R)
  unfolding exec_stmts
  run_body (expr_body expr) scope = c.eval expr scope
  run_body (block_body stmts) scope = do
    flow ← exec_stmts stmts scope
    done (elim flow [ falls ↦ undefined | returns v ↦ v ])

  unfoldable pub call_function : Value R → List (Value R) → Run R (Value R)
  unfolding apply_builtin bind_params run_body
  call_function (builtin i b) args = apply_builtin h b args
  call_function (callable i params body scope) args = do
    inner ← new_scope (bind_params params args []) scope
    run_body body inner
  call_function _ args = stop_with not_callable

  unfoldable pub invoke_with : Value R → List (Value R) → Run R (Value R)
  unfolding tick call_function
  invoke_with callee args = do tick; call_function callee args
