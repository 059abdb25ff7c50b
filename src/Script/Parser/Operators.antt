-- ===== src/Script/Parser/Operators.antt =====
-- internal/script/parser.go: from `parseAssign` down to `parsePostfix`.
use laskah.Prelude.{
  ℕ, zero, suc, Bool, true, false, ◌||◌, Option, none, some, List, [], ◌∷◌, if◌then◌else◌, find,
}
use laskah.Prelude.Text.{Text, codes, text_eq}
use laskah.Script.Outcome.{bad_target, name_needed, Outcome, ok, out_of_fuel, then_do}
use laskah.Script.Lexer.{Reader, Kind, ident, punct, weight}
use laskah.Script.Syntax.{Node, member, index, call, unary, binary, logical, cond, assign}
use laskah.Script.Syntax
use laskah.Script.Parser.{
  Parser, Parse, pure, ◌>>=◌, ◌>>◌, Again, cur_kind, count_node, is_punct, is_keyword, moved,
  advance, fail, expect_punct, take_name, parse_expression,
}
use laskah.Script.Parser.Collections.{parse_args}
use laskah.Script.Parser.Primary.{parse_primary}

module _ {R : Type 0} (u : Reader R) where
  -- `[prop]` behind an expression.
  unfoldable pub parse_index : Node R → Bool → Again R → Parse R (Node R)
  unfolding parse_expression expect_punct
  parse_index object optional r = do
    advance
    prop ← parse_expression r.assign
    expect_punct (codes "]")
    pure (index object prop optional)

  unfoldable pub parse_call : Node R → Bool → Again R → Parse R (Node R)
  unfolding parse_args
  parse_call callee optional r = do args ← parse_args r; pure (call callee args optional)

  unfoldable pub parse_member : Node R → Bool → Parse R (Node R)
  unfolding take_name
  parse_member object optional = do name ← take_name name_needed; pure (member object name optional)

  -- What follows `?.`.
  unfoldable pub parse_optional : Node R → Again R → Parse R (Node R)
  unfolding parse_index parse_call parse_member
  parse_optional expr r p =
      if is_punct (codes "(") p
      then parse_call expr true r p
      else (if is_punct (codes "[") p then parse_index expr true r p else parse_member expr true p)

  -- One access or call behind an expression; `none` where the loop of `parsePostfix` returns.
  unfoldable pub postfix_round : Node R → Again R → Parser R → Option (Outcome (Node R × Parser R))
  unfolding parse_member parse_optional parse_index parse_call
  postfix_round expr r p =
      if is_punct (codes ".") p
      then some (parse_member expr false (moved p))
      else (if is_punct (codes "?.") p
          then some (parse_optional expr r (moved p))
          else (if is_punct (codes "[") p
              then some (parse_index expr false r p)
              else (if is_punct (codes "(") p then some (parse_call expr false r p) else none)))

  unfoldable pub postfix_loop : ℕ → Node R → Again R → Parse R (Node R)
  unfolding count_node postfix_round
  postfix_loop zero expr r p = out_of_fuel
  postfix_loop (suc n) expr r p = then_do (count_node p) λ (_, p'). elim (postfix_round expr r p') [
    | none ↦ ok (expr, p')
    | some o ↦ then_do o λ (expr', p''). postfix_loop n expr' r p''
  ]

  unfoldable pub parse_postfix : Again R → Parse R (Node R)
  unfolding parse_primary postfix_loop
  parse_postfix r = do
    expr ← parse_primary u r
    (λ p. postfix_loop (suc (weight p.tokens)) expr r p)

  abbrev pub is_unary : Parser R → Bool
  is_unary p =
      is_punct (codes "!") p
      || is_punct (codes "-") p
      || is_punct (codes "+") p
      || is_keyword (codes "typeof") p

  -- The text of a punctuator or identifier.
  abbrev pub kind_text : Kind R → Text
  kind_text (ident text) = text
  kind_text (punct text) = text
  kind_text _ = []

  -- An operator before its operand.
  unfoldable pub parse_prefix : Text → Again R → Parse R (Node R)
  unfolding count_node
  parse_prefix op r = do advance; arg ← r.unary; count_node; pure (unary op arg)

  unfoldable pub parse_unary : Again R → Parse R (Node R)
  unfolding parse_prefix parse_postfix
  parse_unary r p =
      if is_unary p then parse_prefix (kind_text (cur_kind p)) r p else parse_postfix r p

  -- The loop of `parseBinaryLevel`, and of the two levels of logical operators, which build another
  -- node.
  unfoldable pub level_loop :
      ℕ
      → (Text → Node R → Node R → Node R)
      → List Text
      → Parse R (Node R)
      → Node R
      → Parse R (Node R)
  unfolding count_node
  level_loop zero make ops next left p = out_of_fuel
  level_loop (suc n) make ops next left p = elim (find (λ op. is_punct op p) ops) [
    | none ↦ ok (left, p)
    | some op ↦ then_do (next (moved p)) λ (right, p').
        then_do (count_node p') λ (_, p''). level_loop n make ops next (make op left right) p''
  ]

  unfoldable pub parse_level :
      (Text → Node R → Node R → Node R) → List Text → Parse R (Node R) → Parse R (Node R)
  unfolding level_loop
  parse_level make ops next = do
    left ← next
    (λ p. level_loop (suc (weight p.tokens)) make ops next left p)

  unfoldable pub parse_multiplicative : Again R → Parse R (Node R)
  unfolding parse_level parse_unary
  parse_multiplicative r =
      parse_level binary (codes "*" ∷ codes "/" ∷ codes "%" ∷ []) (parse_unary r)

  unfoldable pub parse_additive : Again R → Parse R (Node R)
  unfolding parse_level parse_multiplicative
  parse_additive r = parse_level binary (codes "+" ∷ codes "-" ∷ []) (parse_multiplicative r)

  unfoldable pub parse_relational : Again R → Parse R (Node R)
  unfolding parse_level parse_additive
  parse_relational r =
      parse_level binary (codes "<=" ∷ codes ">=" ∷ codes "<" ∷ codes ">" ∷ []) (parse_additive r)

  unfoldable pub parse_equality : Again R → Parse R (Node R)
  unfolding parse_level parse_relational
  parse_equality r =
      parse_level binary (codes "===" ∷ codes "!==" ∷ codes "==" ∷ codes "!=" ∷ [])
        (parse_relational r)

  unfoldable pub parse_logical_and : Again R → Parse R (Node R)
  unfolding parse_level parse_equality
  parse_logical_and r = parse_level logical (codes "&&" ∷ []) (parse_equality r)

  unfoldable pub parse_logical_or : Again R → Parse R (Node R)
  unfolding parse_level parse_logical_and
  parse_logical_or r = parse_level logical (codes "||" ∷ codes "??" ∷ []) (parse_logical_and r)

  -- The two branches behind `?`.
  unfoldable pub parse_branches : Node R → Again R → Parse R (Node R)
  unfolding expect_punct
  parse_branches test r = do
    advance
    cons ← r.assign
    expect_punct (codes ":")
    alt ← r.assign
    pure (cond test cons alt)

  unfoldable pub parse_conditional : Again R → Parse R (Node R)
  unfolding parse_logical_or parse_branches
  parse_conditional r = do
    test ← parse_logical_or r
    (λ p. if is_punct (codes "?") p then parse_branches test r p else ok (test, p))

  abbrev pub assign_ops : List Text
  assign_ops = codes "=" ∷ codes "+=" ∷ codes "-=" ∷ codes "*=" ∷ codes "/=" ∷ codes "%=" ∷ []

  abbrev pub is_target : Node R → Bool
  is_target (Syntax.Node.ident name) = true
  is_target (member object name optional) = true
  is_target (index object prop optional) = true
  is_target _ = false

  -- The operator and the value behind a target.
  unfoldable pub parse_value : Node R → Text → Again R → Parse R (Node R)
  parse_value target op r = do advance; value ← r.assign; pure (assign target op value)

  unfoldable pub parse_assign : Again R → Parse R (Node R)
  unfolding parse_conditional parse_value
  parse_assign r = do
    left ← parse_conditional r
    (λ p. elim (find (λ op. is_punct op p) assign_ops) [
      | none ↦ ok (left, p)
      | some op ↦ if is_target left then parse_value left op r p else fail bad_target p
    ])
