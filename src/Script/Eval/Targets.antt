-- ===== src/Script/Eval/Targets.antt =====
-- internal/script/eval.go: calls and assignments keep the pace, and so does every node.
use laskah.Prelude.{
  ℕ, suc, ◌-◌, ◌≡◌, refl, Bool, true, Option, none, some, List, [], ◌∷◌, ◌==◌, ltb, length, take,
  arith,
}
use laskah.Prelude.Text.{Text, codes, text_eq}
use laskah.Prelude.Int.{ℤ, pos, negsuc}
use laskah.Script.Outcome.{Outcome, ok, Yields, value, refused, Yields-then, Yields-if}
use laskah.Script.Syntax.{
  Node, Nodes, num_lit, str_lit, bool_lit, null_lit, undef_lit, tmpl_lit, ident, obj_lit, arr_lit,
  member, index, call, unary, binary, logical, cond, assign, fn_lit,
}
use laskah.Script.Values.{
  Host, Value, null, undefined, bool, num, str, object, array, callable, builtin, Interp, items_at,
  assign_var, vars_at, set_var,
}
use laskah.Prelude.Maps.{lookup}
use laskah.Script.Values.Convert.{is_nullish}
use laskah.Script.Values.Texts.{atoi}
use laskah.Script.Values.Settled.{Still, Yields-choose}
use laskah.Script.Eval.{Calls}
use laskah.Script.Eval.Operators.{combine}
use laskah.Script.Eval.Arrays.{array_method}
use laskah.Script.Eval.Nodes.{
  eval_callee, handled_by, call_value, eval_call, put_item, put_property, store_at, assigned,
  eval_assign, eval_object, eval_array, eval_at, eval_with,
}
use laskah.Script.Eval.Pace.{
  On, Paced, IsPaced, Still-Paced, settled-Paced, ahead, tick-On, combine-Settles,
}
use laskah.Script.Eval.Loops.{array_method-Paced}
use laskah.Script.Eval.Paces.{
  eval_nodes-Paced, eval_entries-Paced, eval_template-Paced, eval_ident-Paced, eval_unary-Paced,
  eval_binary-Paced, eval_logical-Paced, eval_cond-Paced, computed_key-Paced, eval_member-Paced,
  eval_index-Paced,
}

module _ {R : Type 0} where
  assign_var-Still : (scope : List ℕ) (name : Text) (v : Value R) → Still (assign_var scope name v)
  unfolding assign_var set_var
  assign_var-Still [] name v s = value refl
  assign_var-Still (r ∷ scope) name v s =
      from (lookup name (vars_at s.frames r)) (assign_var-Still scope name v s)
    where
      from :
          (o : Option (Value R))
          → Yields (λ x. x.1.steps ≡ s.steps) (assign_var scope name v s)
          → Yields
              (λ x. x.1.steps ≡ s.steps)
              (elim o as (λ _. Outcome (Bool × Interp R)) [
                | some _ ↦ ok (true, set_var r name v s)
                | none ↦ assign_var scope name v s
              ])
      from (some _) y = value refl
      from none y = y

module _ {R : Type 0} (h : Host R) (f : ℕ) (c : Calls R) (p : IsPaced f c) where
  eval_callee-Paced : (callee : Node R) (scope : List ℕ) → Paced f (eval_callee h c callee scope)
  unfolding eval_callee
  eval_callee-Paced (member target name optional) scope s b w =
      eval_member-Paced h f c p target name optional scope s b w
  eval_callee-Paced (index target prop optional) scope s b w =
      eval_index-Paced h f c p target prop optional scope s b w
  eval_callee-Paced (num_lit v) scope s b w = Yields-then (p.eval_lem _ scope s b w) λ _ q. value q
  eval_callee-Paced (str_lit v) scope s b w = Yields-then (p.eval_lem _ scope s b w) λ _ q. value q
  eval_callee-Paced (bool_lit v) scope s b w = Yields-then (p.eval_lem _ scope s b w) λ _ q. value q
  eval_callee-Paced null_lit scope s b w = Yields-then (p.eval_lem _ scope s b w) λ _ q. value q
  eval_callee-Paced undef_lit scope s b w = Yields-then (p.eval_lem _ scope s b w) λ _ q. value q
  eval_callee-Paced (tmpl_lit v es) scope s b w =
      Yields-then (p.eval_lem _ scope s b w) λ _ q. value q
  eval_callee-Paced (ident v) scope s b w = Yields-then (p.eval_lem _ scope s b w) λ _ q. value q
  eval_callee-Paced (obj_lit v) scope s b w = Yields-then (p.eval_lem _ scope s b w) λ _ q. value q
  eval_callee-Paced (arr_lit v) scope s b w = Yields-then (p.eval_lem _ scope s b w) λ _ q. value q
  eval_callee-Paced (call g v o) scope s b w = Yields-then (p.eval_lem _ scope s b w) λ _ q. value q
  eval_callee-Paced (unary o v) scope s b w = Yields-then (p.eval_lem _ scope s b w) λ _ q. value q
  eval_callee-Paced (binary o l r) scope s b w =
      Yields-then (p.eval_lem _ scope s b w) λ _ q. value q
  eval_callee-Paced (logical o l r) scope s b w =
      Yields-then (p.eval_lem _ scope s b w) λ _ q. value q
  eval_callee-Paced (cond t l r) scope s b w = Yields-then (p.eval_lem _ scope s b w) λ _ q. value q
  eval_callee-Paced (assign t o v) scope s b w =
      Yields-then (p.eval_lem _ scope s b w) λ _ q. value q
  eval_callee-Paced (fn_lit ps v) scope s b w =
      Yields-then (p.eval_lem _ scope s b w) λ _ q. value q

  call_value-Paced :
      (callee : Value R) (receiver : Option (Value R)) (args : List (Value R))
      → Paced f (call_value h c (callee, receiver) args)
  unfolding call_value
  call_value-Paced callee receiver args s b w = from (handled_by h c callee receiver)
    where
      from :
          (o : Option (ℕ × Text))
          → Yields (On s) (elim o as (λ _. Outcome (Value R × Interp R)) [
            | some (r, name) ↦ array_method h c name r args s
            | none ↦ c.invoke callee args s
          ])
      from none = p.invoke_lem callee args s b w
      from (some (r, name)) = array_method-Paced h f c p name r args s b w

  eval_call-Paced :
      (callee : Node R) (args : Nodes R) (optional : Bool) (scope : List ℕ)
      → Paced f (eval_call h c callee args optional scope)
  unfolding eval_call
  eval_call-Paced callee args optional scope s b w =
      Yields-then (eval_callee-Paced callee scope s b w) λ (target, s₁) q₁.
        Yields-if (is_nullish target.0) (λ _. Yields-if optional (λ _. value q₁) (λ _. refused))
          (λ _.
            Yields-then (eval_nodes-Paced h f c p args scope s₁ q₁.1 (omega arith))
              λ (values, s₂) q₂.
                ahead s s₂ (omega arith)
                  (call_value-Paced target.0 target.1 values s₂ q₂.1 (omega arith)))

  put_item-Paced : (r : ℕ) (i : Option ℤ) (v : Value R) → Paced f (put_item h c r i v)
  unfolding put_item
  put_item-Paced r (some (pos n)) v s b w =
      Yields-if (ltb n (length (items_at s.cells r))) (λ _. value (omega arith, b)) (λ _. refused)
  put_item-Paced r (some (negsuc n)) v s b w = refused
  put_item-Paced r none v s b w = refused

  put_property-Paced : (v : Value R) (key : Text) (x : Value R) → Paced f (put_property h c v key x)
  unfolding put_property
  put_property-Paced (object r) key x s b w = value (omega arith, b)
  put_property-Paced (array r) key x s b w = put_item-Paced r (atoi key) x s b w
  put_property-Paced null key x s b w = refused
  put_property-Paced undefined key x s b w = refused
  put_property-Paced (bool v) key x s b w = refused
  put_property-Paced (num v) key x s b w = refused
  put_property-Paced (str v) key x s b w = refused
  put_property-Paced (callable i params body scope) key x s b w = refused
  put_property-Paced (builtin i v) key x s b w = refused

  store_at-Paced :
      (target : Node R) (v : Value R) (scope : List ℕ) → Paced f (store_at h c target v scope)
  unfolding store_at
  store_at-Paced (ident name) v scope s b w =
      Yields-then (Still-Paced f (assign_var scope name v) (assign_var-Still scope name v) s b w)
        λ (found, s₁) q₁. Yields-if found (λ _. value q₁) (λ _. refused)
  store_at-Paced (member target name optional) v scope s b w =
      Yields-then (p.eval_lem target scope s b w)
        λ (holder, s₁) q₁. ahead s s₁ q₁.0 (put_property-Paced holder name v s₁ q₁.1 (omega arith))
  store_at-Paced (index target prop optional) v scope s b w =
      Yields-then (p.eval_lem target scope s b w) λ (holder, s₁) q₁.
        Yields-then (computed_key-Paced h f c p prop scope s₁ q₁.1 (omega arith)) λ (key, s₂) q₂.
          ahead s s₂ (omega arith) (put_property-Paced holder key v s₂ q₂.1 (omega arith))
  store_at-Paced (num_lit _) v scope s b w = refused
  store_at-Paced (str_lit _) v scope s b w = refused
  store_at-Paced (bool_lit _) v scope s b w = refused
  store_at-Paced null_lit v scope s b w = refused
  store_at-Paced undef_lit v scope s b w = refused
  store_at-Paced (tmpl_lit _ _) v scope s b w = refused
  store_at-Paced (obj_lit _) v scope s b w = refused
  store_at-Paced (arr_lit _) v scope s b w = refused
  store_at-Paced (call _ _ _) v scope s b w = refused
  store_at-Paced (unary _ _) v scope s b w = refused
  store_at-Paced (binary _ _ _) v scope s b w = refused
  store_at-Paced (logical _ _ _) v scope s b w = refused
  store_at-Paced (cond _ _ _) v scope s b w = refused
  store_at-Paced (assign _ _ _) v scope s b w = refused
  store_at-Paced (fn_lit _ _) v scope s b w = refused

  assigned-Paced :
      (target : Node R) (op : Text) (v : Value R) (scope : List ℕ)
      → Paced f (assigned h c target op v scope)
  unfolding assigned
  assigned-Paced target op v scope s b w =
      Yields-choose (op == codes "=") _ _ s (λ _. value (omega arith, b))
        (λ _. Yields-then (p.eval_lem target scope s b w) λ (current, s₁) q₁.
          let trimmed = take (length op - 1) op in
          ahead s s₁ q₁.0 (
            settled-Paced s₁ (combine h s₁.cells trimmed current v) q₁.1
              (combine-Settles h s₁.cells trimmed current v)))

  eval_assign-Paced :
      (target : Node R) (op : Text) (node : Node R) (scope : List ℕ)
      → Paced f (eval_assign h c target op node scope)
  unfolding eval_assign
  eval_assign-Paced target op node scope s b w =
      Yields-then (p.eval_lem node scope s b w) λ (v, s₁) q₁.
        Yields-then (assigned-Paced target op v scope s₁ q₁.1 (omega arith)) λ (v', s₂) q₂.
          ahead s s₂ (omega arith) (store_at-Paced target v' scope s₂ q₂.1 (omega arith))

  eval_at-Paced : (node : Node R) (scope : List ℕ) → Paced f (eval_at h c node scope)
  unfolding eval_at eval_object eval_array
  eval_at-Paced (num_lit v) scope s b w = value (omega arith, b)
  eval_at-Paced (str_lit v) scope s b w = value (omega arith, b)
  eval_at-Paced (bool_lit v) scope s b w = value (omega arith, b)
  eval_at-Paced null_lit scope s b w = value (omega arith, b)
  eval_at-Paced undef_lit scope s b w = value (omega arith, b)
  eval_at-Paced (tmpl_lit chunks exprs) scope s b w =
      eval_template-Paced h f c p chunks exprs scope [] s b w
  eval_at-Paced (ident name) scope s b w = eval_ident-Paced h f c p name scope s b w
  eval_at-Paced (obj_lit entries) scope s b w =
      Yields-then (eval_entries-Paced h f c p entries scope [] s b w) λ _ q. value q
  eval_at-Paced (arr_lit items) scope s b w =
      Yields-then (eval_nodes-Paced h f c p items scope s b w) λ _ q. value q
  eval_at-Paced (fn_lit params body) scope s b w = value (omega arith, b)
  eval_at-Paced (unary op arg) scope s b w = eval_unary-Paced h f c p op arg scope s b w
  eval_at-Paced (binary op left right) scope s b w =
      eval_binary-Paced h f c p op left right scope s b w
  eval_at-Paced (logical op left right) scope s b w =
      eval_logical-Paced h f c p op left right scope s b w
  eval_at-Paced (cond test cons alt) scope s b w = eval_cond-Paced h f c p test cons alt scope s b w
  eval_at-Paced (member target name optional) scope s b w =
      Yields-then (eval_member-Paced h f c p target name optional scope s b w) λ _ q. value q
  eval_at-Paced (index target prop optional) scope s b w =
      Yields-then (eval_index-Paced h f c p target prop optional scope s b w) λ _ q. value q
  eval_at-Paced (call callee args optional) scope s b w =
      eval_call-Paced callee args optional scope s b w
  eval_at-Paced (assign target op node) scope s b w = eval_assign-Paced target op node scope s b w

  -- The step that is counted first pays for the fuel.
  pub eval_with-Paced : (node : Node R) (scope : List ℕ) → Paced (suc f) (eval_with h c node scope)
  unfolding eval_with
  eval_with-Paced node scope s b w = Yields-then (tick-On s) λ (_, s₁) q₁.
      ahead s s₁ (omega (arith, q₁.0)) (eval_at-Paced node scope s₁ q₁.1 (omega (arith, q₁.0)))
