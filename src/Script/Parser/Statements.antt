-- ===== src/Script/Parser/Statements.antt =====
-- internal/script/parser.go: `parseStatement` and what it calls.
use laskah.Prelude.{ℕ, zero, suc, Bool, true, false, ◌||◌, ◌&&◌, Option, none, some, if◌then◌else◌}
use laskah.Prelude.Text.{Text, codes}
use laskah.Script.Outcome.{bad_variable, only_for_of, banned, ok, out_of_fuel, then_do}
use laskah.Script.Lexer.{Reader, weight}
use laskah.Script.Syntax.{
  Node, Stmt, Decls, var_decl, ret_nothing, ret_stmt, if_stmt, if_else, block_stmt, expr_stmt,
  for_of, no_stmts, no_decls, declare_bare, declare,
}
use laskah.Script.Parser.{
  Parser, Parse, pure, ◌>>=◌, ◌>>◌, Again, cur_kind, count_node, is_ident, ident_text, is_punct,
  is_keyword, moved, advance, fail, skip_punct, expect_punct, take_name, parse_expression,
}
use laskah.Script.Parser.Collections.{parse_block}
use laskah.Script.Parser.Primary.{is_banned}
use laskah.Script.Parser.Operators.{parse_assign}

module _ {R : Type 0} where
  abbrev pub is_declaration : Parser R → Bool
  is_declaration p =
      is_keyword (codes "var") p || is_keyword (codes "let") p || is_keyword (codes "const") p

  -- The value of a declared name, if there is one.
  unfoldable pub parse_init : Again R → Parse R (Option (Node R))
  unfolding skip_punct
  parse_init r = do
    has_value ← skip_punct (codes "=")
    (λ p. elim has_value [
      | true ↦ then_do (r.assign p) λ (value, p'). ok (some value, p')
      | false ↦ ok (none, p)
    ])

  abbrev pub put_decl : Text → Option (Node R) → Decls R → Decls R
  put_decl name none decls = declare_bare name decls
  put_decl name (some value) decls = declare name value decls

  unfoldable pub decls_loop : ℕ → Again R → Parse R (Decls R)
  unfolding take_name parse_init skip_punct
  decls_loop zero r p = out_of_fuel
  decls_loop (suc n) r p =
      (do
        name ← take_name bad_variable
        init ← parse_init r
        comma ← skip_punct (codes ",")
        more ← (λ p'. elim comma [ true ↦ decls_loop n r p' | false ↦ ok (no_decls, p') ])
        pure (put_decl name init more))
        p

  unfoldable pub parse_var_decl : Again R → Parse R (Stmt R)
  unfolding decls_loop skip_punct
  parse_var_decl r = do
    advance
    decls ← (λ p. decls_loop (suc (weight p.tokens)) r p)
    ended ← skip_punct (codes ";")
    pure (var_decl decls)

  -- The returned value behind `return`.
  unfoldable pub parse_return_value : Again R → Parse R (Stmt R)
  unfolding parse_expression skip_punct
  parse_return_value r = do
    arg ← parse_expression r.assign
    ended ← skip_punct (codes ";")
    pure (ret_stmt arg)

  unfoldable pub return_at : Again R → Parse R (Stmt R)
  unfolding parse_return_value skip_punct
  return_at r p =
      if is_punct (codes ";") p || is_punct (codes "}") p
      then then_do (skip_punct (codes ";") p) (λ (ended, p'). ok (ret_nothing, p'))
      else parse_return_value r p

  unfoldable pub parse_return : Again R → Parse R (Stmt R)
  unfolding return_at
  parse_return r = do advance; return_at r

  -- The other branch, if `else` follows.
  unfoldable pub parse_else : Node R → Stmt R → Again R → Parse R (Stmt R)
  parse_else test cons r p =
      let branches = (do advance; alt ← r.statement; pure (if_else test cons alt)) p in
      if is_keyword (codes "else") p then branches else ok (if_stmt test cons, p)

  unfoldable pub parse_if : Again R → Parse R (Stmt R)
  unfolding expect_punct parse_expression parse_else
  parse_if r = do
    advance
    expect_punct (codes "(")
    test ← parse_expression r.assign
    expect_punct (codes ")")
    cons ← r.statement
    parse_else test cons r

  -- `var`, `let` or `const` before the variable of a loop.
  unfoldable pub skip_declaration : Parse R (Unit {0})
  skip_declaration p = if is_declaration p then advance p else ok (tt, p)

  unfoldable pub expect_of : Parse R (Unit {0})
  expect_of p = if is_keyword (codes "of") p then advance p else fail only_for_of p

  unfoldable pub parse_for_of : Again R → Parse R (Stmt R)
  unfolding expect_punct skip_declaration take_name expect_of parse_expression
  parse_for_of r = do
    advance
    expect_punct (codes "(")
    skip_declaration
    name ← take_name bad_variable
    expect_of
    iter ← parse_expression r.assign
    expect_punct (codes ")")
    body ← r.statement
    pure (for_of name iter body)

  unfoldable pub parse_block_stmt : Again R → Parse R (Stmt R)
  unfolding parse_block
  parse_block_stmt r = do body ← parse_block r; pure (block_stmt body)

  unfoldable pub parse_expr_stmt : Reader R → Again R → Parse R (Stmt R)
  unfolding parse_expression parse_assign skip_punct
  parse_expr_stmt u r = do
    expr ← parse_expression (parse_assign u r)
    ended ← skip_punct (codes ";")
    pure (expr_stmt expr)

  -- A statement that no keyword starts.
  unfoldable pub parse_plain : Reader R → Again R → Parse R (Stmt R)
  unfolding is_banned parse_expr_stmt
  parse_plain u r p =
      if is_ident (cur_kind p) && is_banned (ident_text (cur_kind p))
      then fail (banned (ident_text (cur_kind p))) p
      else parse_expr_stmt u r p

  unfoldable pub parse_keyword : Reader R → Again R → Parse R (Stmt R)
  unfolding parse_var_decl parse_return parse_if parse_for_of parse_plain
  parse_keyword u r p =
      if is_declaration p
      then parse_var_decl r p
      else (if is_keyword (codes "return") p
          then parse_return r p
          else (if is_keyword (codes "if") p
              then parse_if r p
              else (if is_keyword (codes "for") p then parse_for_of r p else parse_plain u r p)))

  unfoldable pub statement_at : Reader R → Again R → Parse R (Stmt R)
  unfolding parse_block_stmt parse_keyword
  statement_at u r p =
      if is_punct (codes "{") p
      then parse_block_stmt r p
      else (if is_punct (codes ";") p
          then ok (block_stmt no_stmts, moved p)
          else parse_keyword u r p)

  unfoldable pub parse_statement : Reader R → Again R → Parse R (Stmt R)
  unfolding count_node statement_at
  parse_statement u r = do count_node; statement_at u r
