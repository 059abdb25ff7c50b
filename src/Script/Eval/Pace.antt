-- ===== src/Script/Eval/Pace.antt =====
-- internal/script/eval.go: the count of steps only grows and stays within the limit, so that the fuel that
-- is left is always enough for the steps that are left.
use laskah.Prelude.{ℕ, suc, ◌+◌, ◌≤◌, ◌≡◌, ◌||◌, List, [], ◌∷◌, ◌++◌, ◌==◌, leb, leb→le, arith}
use laskah.Prelude.Text.{Text, codes, text_eq}
use laskah.Script.Outcome.{
  Outcome, ok, then_do, Yields, value, refused, Yields-then, Yields-if, Yields-map,
}
use laskah.Script.Lexer.Literals.{byte_length}
use laskah.Script.Syntax.{Node, Stmt}
use laskah.Script.Values.{Host, Value, Cell, Interp, Run, tick, max_steps, max_string_len}
use laskah.Script.Values.Settled.{Settles, Still, to_string-Settles}
use laskah.Script.Eval.{Calls}
use laskah.Script.Eval.Operators.{
  is_string, limited, plus_values, arithmetic, combine, one_of, binary_values, unary_value,
}

module _ {R : Type 0} where
  -- What holds of the state after a run from `s`.
  abbrev pub On : {A : Type 0} → Interp R → A × Interp R → Type 0
  On s (v, s') = (s.steps ≤ s'.steps) × (s'.steps ≤ max_steps)

  -- From a state within the limit, with fuel for the steps that are left, the run ends so.
  abbrev pub Paced : {A : Type 0} → ℕ → Run R A → Type 0
  Paced f m =
      (s : Interp R) → s.steps ≤ max_steps → suc max_steps ≤ f + s.steps → Yields (On s) (m s)

  pub record IsPaced (f : ℕ) (c : Calls R) : Type 0 where
    pub eval_lem : (node : Node R) (scope : List ℕ) → Paced f (c.eval node scope)
    pub exec_lem : (stmt : Stmt R) (scope : List ℕ) → Paced f (c.exec stmt scope)
    pub invoke_lem : (callee : Value R) (args : List (Value R)) → Paced f (c.invoke callee args)

  -- A run that counts no step.
  pub Still-Paced : {A : Type 0} (f : ℕ) (m : Run R A) → Still m → Paced f m
  Still-Paced f m st s b w = Yields-map (λ x q. (omega (arith, q), omega (arith, q))) (st s)

  pub settled-Paced :
      {A : Type 0} (s : Interp R) (o : Outcome A)
      → s.steps ≤ max_steps
      → Settles o
      → Yields (On s) (then_do o λ v. ok (v, s))
  settled-Paced s o b st = Yields-then st λ v _. value (omega arith, b)

  -- The state may have run ahead before.
  pub ahead :
      {A : Type 0} (s₀ s : Interp R) {o : Outcome (A × Interp R)}
      → s₀.steps ≤ s.steps
      → Yields (On s) o
      → Yields (On s₀) o
  ahead s₀ s h y = Yields-map (λ x q. (omega arith, q.1)) y

  pub tick-On :
      (s : Interp R)
      → Yields
          (λ (x : Unit × Interp R). (x.1.steps ≡ suc s.steps) × (x.1.steps ≤ max_steps))
          (tick s)
  unfolding tick
  tick-On s =
      Yields-if (leb (s.steps + 1) max_steps)
        (λ e. value (omega arith, leb→le (s.steps + 1) max_steps e)) (λ _. refused)

module _ {R : Type 0} (h : Host R) where
  pub limited-Settles : (text : Text) → Settles (limited h text)
  unfolding limited
  limited-Settles text =
      Yields-if (leb (byte_length text) max_string_len) (λ _. value tt) (λ _. refused)

  plus_values-Settles :
      (cells : List (Cell R)) (left right : Value R) → Settles (plus_values h cells left right)
  unfolding plus_values
  plus_values-Settles cells left right =
      Yields-if (is_string left || is_string right)
        (λ _. Yields-then (to_string-Settles h cells left) λ a _.
          Yields-then (to_string-Settles h cells right)
            λ b _. Yields-then (limited-Settles (a ++ b)) λ _ _. value tt)
        (λ _. value tt)

  arithmetic-Settles : (op : Text) (left right : Value R) → Settles (arithmetic h op left right)
  unfolding arithmetic
  arithmetic-Settles op left right =
      Yields-if (op == codes "-") (λ _. value tt)
        (λ _.
          Yields-if (op == codes "*") (λ _. value tt)
            (λ _.
              Yields-if (op == codes "/") (λ _. value tt)
                (λ _. Yields-if (op == codes "%") (λ _. value tt) (λ _. refused))))

  pub combine-Settles :
      (cells : List (Cell R)) (op : Text) (left right : Value R)
      → Settles (combine h cells op left right)
  unfolding combine
  combine-Settles cells op left right =
      Yields-if (op == codes "+") (λ _. plus_values-Settles cells left right)
        (λ _. arithmetic-Settles op left right)

  pub binary_values-Settles :
      (cells : List (Cell R)) (op : Text) (left right : Value R)
      → Settles (binary_values h cells op left right)
  unfolding binary_values
  binary_values-Settles cells op left right =
      Yields-if (one_of h (codes "===" ∷ codes "==" ∷ []) op) (λ _. value tt)
        (λ _.
          Yields-if (one_of h (codes "!==" ∷ codes "!=" ∷ []) op) (λ _. value tt)
            (λ _.
              Yields-if (one_of h (codes "<" ∷ codes "<=" ∷ codes ">" ∷ codes ">=" ∷ []) op)
                (λ _. value tt) (λ _. combine-Settles cells op left right)))

  pub unary_value-Settles : (op : Text) (arg : Value R) → Settles (unary_value h op arg)
  unfolding unary_value
  unary_value-Settles op arg =
      Yields-if (op == codes "!") (λ _. value tt)
        (λ _.
          Yields-if (op == codes "-") (λ _. value tt)
            (λ _.
              Yields-if (op == codes "+") (λ _. value tt)
                (λ _. Yields-if (op == codes "typeof") (λ _. value tt) (λ _. refused))))
