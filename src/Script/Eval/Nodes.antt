-- ===== src/Script/Eval/Nodes.antt =====
-- internal/script/eval.go: the evaluation of nodes. Each function takes the functions that it calls again.
use laskah.Prelude.{
  ℕ, ◌-◌, Bool, Option, none, some, List, [], ◌∷◌, ◌++◌, ◌==◌, ltb, if◌then◌else◌, length, take,
  set, any,
}
use laskah.Prelude.Text.{Text, codes, text_eq}
use laskah.Prelude.Maps.{insert}
use laskah.Prelude.Int.{ℤ, pos, negsuc}
use laskah.Script.Outcome.{
  Outcome, ok, failed, then_do, undefined_variable, undeclared, property_of_nothing, no_function,
  bad_assignment, index_out_of_range,
}
use laskah.Script.Syntax.{
  Node, Nodes, Entries, num_lit, str_lit, bool_lit, null_lit, undef_lit, tmpl_lit, ident, obj_lit,
  arr_lit, member, index, call, unary, binary, logical, cond, assign, fn_lit, no_nodes, node_then,
  no_entries, entry_then,
}
use laskah.Script.Values.{
  Host, Value, null, undefined, bool, num, str, object, array, builtin, map_cell, slice_cell,
  items_at, fields_at, lookup_var, assign_var, new_array, new_object, new_callable, put_cell, tick,
  Run, done, stop_with, ◌>>=◌, ◌>>◌,
}
use laskah.Script.Values.Convert.{is_nullish, truthy, to_string}
use laskah.Script.Values.Texts.{atoi}
use laskah.Script.Values.Global.{global_value}
use laskah.Script.Values.Methods.{callback_names, builtin_name, get_property}
use laskah.Script.Eval.{Calls}
use laskah.Script.Eval.Operators.{limited, combine, binary_values, unary_value, stops_at}
use laskah.Script.Eval.Arrays.{array_method}

module _ {R : Type 0} (h : Host R) (c : Calls R) where
  -- An outcome that leaves the state as it is.
  abbrev pub lift : {A : Type 0} → Outcome A → Run R A
  lift o s = then_do o λ v. ok (v, s)

  abbrev pub text_of : Value R → Run R Text
  text_of v s = lift (to_string h s.cells v) s

  -- The values of nodes, from the left.
  unfoldable pub eval_nodes : Nodes R → List ℕ → Run R (List (Value R))
  eval_nodes no_nodes scope = done []
  eval_nodes (node_then item items) scope = do
    value ← c.eval item scope
    values ← eval_nodes items scope
    done (value ∷ values)

  unfoldable pub eval_entries :
      Entries R → List ℕ → List (Text × Value R) → Run R (List (Text × Value R))
  unfolding insert
  eval_entries no_entries scope fields = done fields
  eval_entries (entry_then key item entries) scope fields = do
    value ← c.eval item scope
    eval_entries entries scope (insert key value fields)

  -- The chunks of a template and its expressions in turn; `out` is the text so far.
  unfoldable pub eval_template : List Text → Nodes R → List ℕ → Text → Run R (Value R)
  unfolding limited to_string
  eval_template [] exprs scope out = done (str out)
  eval_template (chunk ∷ chunks) no_nodes scope out = do
    text ← lift (limited h (out ++ chunk))
    eval_template chunks no_nodes scope text
  eval_template (chunk ∷ chunks) (node_then expr exprs) scope out = do
    value ← c.eval expr scope
    part ← text_of value
    text ← lift (limited h (out ++ (chunk ++ part)))
    eval_template chunks exprs scope text

  unfoldable pub eval_ident : Text → List ℕ → Run R (Value R)
  unfolding lookup_var global_value
  eval_ident name scope s = elim (lookup_var s.frames scope name) [
    | some v ↦ ok (v, s)
    | none ↦ elim (global_value h name) [ some m ↦ m s | none ↦ failed (undefined_variable name) ]
  ]

  unfoldable pub eval_unary : Text → Node R → List ℕ → Run R (Value R)
  unfolding unary_value
  eval_unary op arg scope = do value ← c.eval arg scope; lift (unary_value h op value)

  unfoldable pub eval_binary : Text → Node R → Node R → List ℕ → Run R (Value R)
  unfolding binary_values
  eval_binary op left right scope = do
    l ← c.eval left scope
    r ← c.eval right scope
    (λ s. lift (binary_values h s.cells op l r) s)

  unfoldable pub eval_logical : Text → Node R → Node R → List ℕ → Run R (Value R)
  unfolding stops_at
  eval_logical op left right scope = do
    l ← c.eval left scope
    (λ s. if stops_at h op l then ok (l, s) else c.eval right scope s)

  unfoldable pub eval_cond : Node R → Node R → Node R → List ℕ → Run R (Value R)
  unfolding truthy
  eval_cond test cons alt scope = do
    value ← c.eval test scope
    (λ s. if truthy h value then c.eval cons scope s else c.eval alt scope s)

  -- A value and the one that it was read from, if there is one.
  abbrev pub Member : Type 0
  Member = Value R × Option (Value R)

  -- The property of an object that was evaluated; `key` gives its name.
  unfoldable pub read_member : Bool → Value R → Run R Text → Run R Member
  unfolding is_nullish get_property
  read_member optional value key =
      let found : Run R Member = (do
        name ← key
        v ← get_property h value name
        done (v, some value)) in
      if is_nullish value
      then (if optional then done (undefined, none) else stop_with property_of_nothing)
      else found

  -- The key between the brackets of a computed access.
  unfoldable pub computed_key : Node R → List ℕ → Run R Text
  computed_key prop scope = do value ← c.eval prop scope; text_of value

  -- `evalMember`
  unfoldable pub eval_member : Node R → Text → Bool → List ℕ → Run R Member
  unfolding read_member
  eval_member target name optional scope = do
    value ← c.eval target scope
    read_member optional value (done name)

  unfoldable pub eval_index : Node R → Node R → Bool → List ℕ → Run R Member
  unfolding read_member computed_key
  eval_index target prop optional scope = do
    value ← c.eval target scope
    read_member optional value (computed_key prop scope)

  unfoldable pub eval_callee : Node R → List ℕ → Run R Member
  unfolding eval_member eval_index
  eval_callee (member target name optional) scope = eval_member target name optional scope
  eval_callee (index target prop optional) scope = eval_index target prop optional scope
  eval_callee callee scope = do value ← c.eval callee scope; done (value, none)

  -- The array of a method call that `arrayMethod` handles.
  unfoldable pub handled_by : Value R → Option (Value R) → Option (ℕ × Text)
  unfolding any
  handled_by (builtin i b) (some (array r)) =
      if any (λ n. n == builtin_name b) callback_names then some (r, builtin_name b) else none
  handled_by callee receiver = none

  unfoldable pub call_value : Member → List (Value R) → Run R (Value R)
  unfolding handled_by array_method
  call_value (callee, receiver) args s = elim (handled_by callee receiver) [
    | some (r, name) ↦ array_method h c name r args s
    | none ↦ c.invoke callee args s
  ]

  unfoldable pub eval_call : Node R → Nodes R → Bool → List ℕ → Run R (Value R)
  unfolding eval_callee is_nullish eval_nodes call_value
  eval_call callee args optional scope = do
    target ← eval_callee callee scope
    (λ s.
        let called = (do values ← eval_nodes args scope; call_value target values) s in
        if is_nullish target.0
        then (if optional then ok (undefined, s) else failed no_function)
        else called)

  -- `holder[key] = value`
  unfoldable pub put_item : ℕ → Option ℤ → Value R → Run R (Value R)
  unfolding items_at
  put_item r (some (pos n)) value s =
      if ltb n (length (items_at s.cells r))
      then then_do (put_cell r (slice_cell (set (items_at s.cells r) n value)) s)
          (λ (_, s'). ok (value, s'))
      else failed index_out_of_range
  put_item r (some (negsuc n)) value s = failed index_out_of_range
  put_item r none value s = failed index_out_of_range

  unfoldable pub put_property : Value R → Text → Value R → Run R (Value R)
  unfolding put_item atoi insert fields_at
  put_property (object r) key value s =
      then_do (put_cell r (map_cell (insert key value (fields_at s.cells r))) s)
        λ (_, s'). ok (value, s')
  put_property (array r) key value s = put_item r (atoi key) value s
  put_property _ key value s = failed bad_assignment

  unfoldable pub store_at : Node R → Value R → List ℕ → Run R (Value R)
  unfolding assign_var put_property computed_key
  store_at (ident name) value scope = do
    found ← assign_var scope name value
    (λ s. if found then ok (value, s) else failed (undeclared name))
  store_at (member target name optional) value scope = do
    holder ← c.eval target scope
    put_property holder name value
  store_at (index target prop optional) value scope = do
    holder ← c.eval target scope
    key ← computed_key prop scope
    put_property holder key value
  store_at _ value scope = stop_with bad_assignment

  -- The value that a compound assignment stores.
  unfoldable pub assigned : Node R → Text → Value R → List ℕ → Run R (Value R)
  unfolding combine
  assigned target op value scope =
      let combined : Run R (Value R) = do
        current ← c.eval target scope
        (λ s. lift (combine h s.cells (take (length op - 1) op) current value) s)
      in if op == codes "=" then done value else combined

  unfoldable pub eval_assign : Node R → Text → Node R → List ℕ → Run R (Value R)
  unfolding assigned store_at
  eval_assign target op value scope = do
    v ← c.eval value scope
    v' ← assigned target op v scope
    store_at target v' scope

  unfoldable pub eval_object : Entries R → List ℕ → Run R (Value R)
  unfolding eval_entries
  eval_object entries scope = do fields ← eval_entries entries scope []; new_object fields

  unfoldable pub eval_array : Nodes R → List ℕ → Run R (Value R)
  unfolding eval_nodes
  eval_array items scope = do values ← eval_nodes items scope; new_array values

  -- The value of a member, without the one it was read from.
  abbrev pub value_only : Run R Member → Run R (Value R)
  value_only m = do found ← m; done found.0

  -- `eval` behind its step.
  unfoldable pub eval_at : Node R → List ℕ → Run R (Value R)
  unfolding eval_template eval_ident eval_object eval_array eval_unary eval_binary eval_logical
      eval_cond eval_member eval_index eval_call eval_assign
  eval_at (num_lit v) scope = done (num v)
  eval_at (str_lit text) scope = done (str text)
  eval_at (bool_lit b) scope = done (bool b)
  eval_at null_lit scope = done null
  eval_at undef_lit scope = done undefined
  eval_at (tmpl_lit chunks exprs) scope = eval_template chunks exprs scope []
  eval_at (ident name) scope = eval_ident name scope
  eval_at (obj_lit entries) scope = eval_object entries scope
  eval_at (arr_lit items) scope = eval_array items scope
  eval_at (fn_lit params body) scope = new_callable params body scope
  eval_at (unary op arg) scope = eval_unary op arg scope
  eval_at (binary op left right) scope = eval_binary op left right scope
  eval_at (logical op left right) scope = eval_logical op left right scope
  eval_at (cond test cons alt) scope = eval_cond test cons alt scope
  eval_at (member target name optional) scope = value_only (eval_member target name optional scope)
  eval_at (index target prop optional) scope = value_only (eval_index target prop optional scope)
  eval_at (call callee args optional) scope = eval_call callee args optional scope
  eval_at (assign target op value) scope = eval_assign target op value scope

  unfoldable pub eval_with : Node R → List ℕ → Run R (Value R)
  unfolding tick eval_at
  eval_with node scope = do tick; eval_at node scope
