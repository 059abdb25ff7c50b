-- ===== src/Script/Eval/Paces.antt =====
-- internal/script/eval.go: the evaluation of nodes keeps the pace.
use laskah.Prelude.{ℕ, Bool, Option, none, some, List, [], ◌∷◌, ◌++◌, arith}
use laskah.Prelude.Text.{Text, text_eq}
use laskah.Prelude.Maps.{insert}
use laskah.Script.Outcome.{
  Outcome, ok, failed, undefined_variable, Yields, value, refused, Yields-then, Yields-if,
}
use laskah.Script.Syntax.{Node, Nodes, Entries, no_nodes, node_then, no_entries, entry_then}
use laskah.Script.Values.{Host, Value, Interp, lookup_var, Run, done}
use laskah.Script.Values.Convert.{is_nullish, truthy, to_string}
use laskah.Script.Values.Global.{global_value}
use laskah.Script.Values.Settled.{to_string-Settles, Yields-choose, StillOption, present}
use laskah.Script.Values.Found.{global_value-Still, get_property-Still}
use laskah.Script.Eval.{Calls}
use laskah.Script.Eval.Operators.{limited, binary_values, unary_value, stops_at}
use laskah.Script.Eval.Nodes.{
  eval_nodes, eval_entries, eval_template, eval_ident, eval_unary, eval_binary, eval_logical,
  eval_cond, read_member, computed_key, eval_member, eval_index,
}
use laskah.Script.Eval.Pace.{
  On, Paced, IsPaced, Still-Paced, settled-Paced, ahead, limited-Settles, binary_values-Settles,
  unary_value-Settles,
}

module _ {R : Type 0} (h : Host R) (f : ℕ) (c : Calls R) (p : IsPaced f c) where
  pub eval_nodes-Paced : (items : Nodes R) (scope : List ℕ) → Paced f (eval_nodes h c items scope)
  unfolding eval_nodes
  eval_nodes-Paced no_nodes scope s b w = value (omega arith, b)
  eval_nodes-Paced (node_then item items) scope s b w =
      Yields-then (p.eval_lem item scope s b w) λ (_, s₁) q₁.
        Yields-then (eval_nodes-Paced items scope s₁ q₁.1 (omega arith))
          λ _ q₂. value (omega arith, q₂.1)

  pub eval_entries-Paced :
      (entries : Entries R) (scope : List ℕ) (fields : List (Text × Value R))
      → Paced f (eval_entries h c entries scope fields)
  unfolding eval_entries
  eval_entries-Paced no_entries scope fields s b w = value (omega arith, b)
  eval_entries-Paced (entry_then key item entries) scope fields s b w =
      Yields-then (p.eval_lem item scope s b w) λ (v, s₁) q₁.
        ahead s s₁ q₁.0
          (eval_entries-Paced entries scope (insert key v fields) s₁ q₁.1 (omega arith))

  pub eval_template-Paced :
      (chunks : List Text) (exprs : Nodes R) (scope : List ℕ) (out : Text)
      → Paced f (eval_template h c chunks exprs scope out)
  unfolding eval_template
  eval_template-Paced [] exprs scope out s b w = value (omega arith, b)
  eval_template-Paced (chunk ∷ chunks) no_nodes scope out s b w =
      Yields-then (settled-Paced s (limited h (out ++ chunk)) b (limited-Settles h (out ++ chunk)))
        λ (text, s₁) q₁.
          ahead s s₁ q₁.0 (eval_template-Paced chunks no_nodes scope text s₁ q₁.1 (omega arith))
  eval_template-Paced (chunk ∷ chunks) (node_then expr exprs) scope out s b w =
      Yields-then (p.eval_lem expr scope s b w) λ (v, s₁) q₁.
        Yields-then
          (settled-Paced s₁ (to_string h s₁.cells v) q₁.1 (to_string-Settles h s₁.cells v))
          λ (part, s₂) q₂.
            Yields-then
              (settled-Paced s₂ (limited h (out ++ (chunk ++ part))) q₂.1
                (limited-Settles h (out ++ (chunk ++ part))))
              λ (text, s₃) q₃.
                ahead s s₃ (omega arith)
                  (eval_template-Paced chunks exprs scope text s₃ q₃.1 (omega arith))

  pub eval_ident-Paced : (name : Text) (scope : List ℕ) → Paced f (eval_ident h c name scope)
  unfolding eval_ident
  eval_ident-Paced name scope s b w =
      from (lookup_var s.frames scope name) (global_value h name) (global_value-Still h name)
    where
      global :
          (m : Option (Run R (Value R)))
          → StillOption m
          → Yields (On s) (elim m as (λ _. Outcome (Value R × Interp R)) [
            | some k ↦ k s
            | none ↦ failed (undefined_variable name)
          ])
      global none st = refused
      global (some k) (present st) = Still-Paced f k st s b w

      from :
          (o : Option (Value R)) (m : Option (Run R (Value R)))
          → StillOption m
          → Yields (On s) (elim o as (λ _. Outcome (Value R × Interp R)) [
            | some v ↦ ok (v, s)
            | none ↦ elim m [ some k ↦ k s | none ↦ failed (undefined_variable name) ]
          ])
      from (some v) m st = value (omega arith, b)
      from none m st = global m st

  pub eval_unary-Paced :
      (op : Text) (arg : Node R) (scope : List ℕ) → Paced f (eval_unary h c op arg scope)
  unfolding eval_unary
  eval_unary-Paced op arg scope s b w = Yields-then (p.eval_lem arg scope s b w) λ (v, s₁) q₁.
      ahead s s₁ q₁.0 (settled-Paced s₁ (unary_value h op v) q₁.1 (unary_value-Settles h op v))

  pub eval_binary-Paced :
      (op : Text) (left right : Node R) (scope : List ℕ)
      → Paced f (eval_binary h c op left right scope)
  unfolding eval_binary
  eval_binary-Paced op left right scope s b w =
      Yields-then (p.eval_lem left scope s b w) λ (l, s₁) q₁.
        Yields-then (p.eval_lem right scope s₁ q₁.1 (omega arith)) λ (r, s₂) q₂.
          ahead s s₂ (omega arith) (
            settled-Paced s₂ (binary_values h s₂.cells op l r) q₂.1
              (binary_values-Settles h s₂.cells op l r))

  pub eval_logical-Paced :
      (op : Text) (left right : Node R) (scope : List ℕ)
      → Paced f (eval_logical h c op left right scope)
  unfolding eval_logical
  eval_logical-Paced op left right scope s b w =
      Yields-then (p.eval_lem left scope s b w) λ (l, s₁) q₁.
        Yields-if (stops_at h op l) (λ _. value q₁)
          (λ _. ahead s s₁ q₁.0 (p.eval_lem right scope s₁ q₁.1 (omega arith)))

  pub eval_cond-Paced :
      (test cons alt : Node R) (scope : List ℕ) → Paced f (eval_cond h c test cons alt scope)
  unfolding eval_cond
  eval_cond-Paced test cons alt scope s b w =
      Yields-then (p.eval_lem test scope s b w) λ (v, s₁) q₁.
        Yields-if (truthy h v) (λ _. ahead s s₁ q₁.0 (p.eval_lem cons scope s₁ q₁.1 (omega arith)))
          (λ _. ahead s s₁ q₁.0 (p.eval_lem alt scope s₁ q₁.1 (omega arith)))

  read_member-Paced :
      (optional : Bool) (v : Value R) (key : Run R Text)
      → Paced f key
      → Paced f (read_member h c optional v key)
  unfolding read_member
  read_member-Paced optional v key k s b w =
      Yields-choose (is_nullish v) _ _ s
        (λ _. Yields-choose optional _ _ s (λ _. value (omega arith, b)) (λ _. refused))
        (λ _. Yields-then (k s b w) λ (name, s₁) q₁.
          Yields-then (get_property-Still h v name s₁)
            λ _ q₂. value (omega (arith, q₂), omega (arith, q₂)))

  pub computed_key-Paced : (prop : Node R) (scope : List ℕ) → Paced f (computed_key h c prop scope)
  unfolding computed_key
  computed_key-Paced prop scope s b w = Yields-then (p.eval_lem prop scope s b w) λ (v, s₁) q₁.
      ahead s s₁ q₁.0
        (settled-Paced s₁ (to_string h s₁.cells v) q₁.1 (to_string-Settles h s₁.cells v))

  pub eval_member-Paced :
      (target : Node R) (name : Text) (optional : Bool) (scope : List ℕ)
      → Paced f (eval_member h c target name optional scope)
  unfolding eval_member
  eval_member-Paced target name optional scope s b w =
      Yields-then (p.eval_lem target scope s b w) λ (v, s₁) q₁. ahead s s₁ q₁.0 (
        read_member-Paced optional v (done name) (λ s₂ b₂ w₂. value (omega arith, b₂)) s₁ q₁.1
          (omega arith))

  pub eval_index-Paced :
      (target prop : Node R) (optional : Bool) (scope : List ℕ)
      → Paced f (eval_index h c target prop optional scope)
  unfolding eval_index
  eval_index-Paced target prop optional scope s b w =
      Yields-then (p.eval_lem target scope s b w) λ (v, s₁) q₁. ahead s s₁ q₁.0 (
        read_member-Paced optional v (computed_key h c prop scope) (computed_key-Paced prop scope)
          s₁ q₁.1 (omega arith))
