-- ===== src/Script/Parser/Total.antt =====
-- internal/script/parser.go: every function of the parser keeps the promise, on any fuel that is enough
-- for what is left to read.
use laskah.Prelude.{◌<◌, ◌≢◌, length, ℕ, zero, suc, ◌+◌, ◌≤◌, ◌≡◌, ◌&&◌, arith}
use laskah.Prelude.Text.{Text, codes}
use laskah.Script.Outcome.{
  Yields-fuel, Yields-ok, out_of_fuel, ok, Yields, value, refused, Yields-then, Yields-if,
  Yields-map,
}
use laskah.Script.Lexer.{Reader, is_eof_kind, weight}
use laskah.Script.Syntax.{Node}
use laskah.Script.Parser.{
  max_nodes, Parser, Again, cur_kind, is_ident, ident_text, is_punct, is_keyword,
}
use laskah.Script.Parser.Primary.{is_banned}
use laskah.Script.Parser.Statements.{
  is_declaration, parse_block_stmt, parse_expr_stmt, parse_plain, parse_keyword, statement_at,
  parse_statement,
}
use laskah.Script.Parser.Sizes.{
  node_size, stmt_size, stmts_size, NodeIsClean, StmtIsClean, StmtsAreClean,
}
use laskah.Script.Parser.Reads.{
  Good, moved-Reads, weight-positive, count_node-Reads, skip_punct-Reads, punct_is→token,
  word_is→token, ReadsStmt, IsSound,
}
use laskah.Script.Parser.Items.{parse_block-Reads}
use laskah.Script.Parser.Primaries.{parse_expression-Reads}
use laskah.Script.Parser.Assigns.{parse_assign-Reads}
use laskah.Script.Lexer.Enough.{tokenize-Tokens}
use laskah.Script.Parser.Operators.{parse_assign}
use laskah.Script.Parser.Operands.{parse_unary-Reads}
use laskah.Script.Parser.Steps.{
  is_declaration→token, ReadsRest, parse_var_decl-Reads, parse_return-Reads, parse_if-Reads,
  parse_for_of-Reads,
}
use laskah.Script.Parser.Run.{whole, program_with, again, parse_program}

module _ {R : Type 0} (u : Reader R) (f : ℕ) (r : Again R) (s : IsSound f r) where
  parse_block_stmt-Reads :
      (p : Parser R)
      → Good p
      → weight p.tokens ≤ suc f
      → Yields (ReadsRest f r s p) (parse_block_stmt r p)
  unfolding parse_block_stmt stmt_size StmtIsClean
  parse_block_stmt-Reads p g b = Yields-then (parse_block-Reads f r s p g b) λ (body, p₁) h₁.
      value (record { good = h₁.0.good; shorter = omega arith; counted = omega arith }, h₁.1)

  parse_plain-Reads :
      (p : Parser R)
      → Good p
      → weight p.tokens ≤ suc f
      → Yields (ReadsRest f r s p) (parse_plain u r p)
  unfolding parse_plain parse_expr_stmt stmt_size StmtIsClean
  parse_plain-Reads p g b =
      Yields-if (is_ident (cur_kind p) && is_banned (ident_text (cur_kind p))) (λ _. refused)
        (λ _.
          Yields-then
            (parse_expression-Reads (parse_assign u r) (suc f) (parse_assign-Reads u f r s) p g b)
            λ (expr, p₁) h₁. Yields-then (skip_punct-Reads (codes ";") p₁ h₁.0.good) λ (_, p₂) h₂.
              value (record { good = h₂.good; shorter = omega arith; counted = omega arith }, h₁.1))

  parse_keyword-Reads :
      (p : Parser R)
      → Good p
      → weight p.tokens ≤ suc f
      → Yields (ReadsRest f r s p) (parse_keyword u r p)
  unfolding parse_keyword
  parse_keyword-Reads p g b =
      Yields-if (is_declaration p)
        (λ e. parse_var_decl-Reads f r s p g (is_declaration→token p e) b)
        (λ _.
          Yields-if (is_keyword (codes "return") p)
            (λ e. parse_return-Reads f r s p g (word_is→token (codes "return") (cur_kind p) e) b)
            (λ _.
              Yields-if (is_keyword (codes "if") p)
                (λ e. parse_if-Reads f r s p g (word_is→token (codes "if") (cur_kind p) e) b)
                (λ _.
                  Yields-if (is_keyword (codes "for") p)
                    (λ e.
                      parse_for_of-Reads f r s p g (word_is→token (codes "for") (cur_kind p) e) b)
                    (λ _. parse_plain-Reads p g b))))

  statement_at-Reads :
      (p : Parser R)
      → Good p
      → weight p.tokens ≤ suc f
      → Yields (ReadsRest f r s p) (statement_at u r p)
  unfolding statement_at stmt_size StmtIsClean stmts_size StmtsAreClean
  statement_at-Reads p g b =
      Yields-if (is_punct (codes "{") p) (λ _. parse_block_stmt-Reads p g b)
        (λ _.
          Yields-if (is_punct (codes ";") p)
            (λ e.
              let h = moved-Reads p g (punct_is→token (codes ";") (cur_kind p) e) in
              value (record { good = h.good; shorter = omega arith; counted = omega arith }, tt))
            (λ _. parse_keyword-Reads p g b))

  parse_statement-Reads :
      (p : Parser R)
      → Good p
      → weight p.tokens ≤ suc f
      → Yields (ReadsStmt p) (parse_statement u r p)
  unfolding parse_statement
  parse_statement-Reads p g b = Yields-then (count_node-Reads p g) λ (_, p₁) h₁.
      Yields-map
        (λ x q. (record { good = q.0.good; shorter = omega arith; counted = omega arith }, q.1))
        (statement_at-Reads p₁ h₁.good (omega arith))

  -- A program that is accepted is clean and within the limit.
  abbrev pub Accepted : Node R → Type 0
  Accepted v = NodeIsClean v × (node_size v + 1 ≤ max_nodes)

  program_with-Accepted :
      (source : Text) → length source ≤ f → Yields Accepted (program_with u r source)
  unfolding program_with whole
  program_with-Accepted source b = Yields-then (tokenize-Tokens u source) λ tokens t.
      Yields-then
        (parse_expression-Reads (parse_assign u r) (suc f) (parse_assign-Reads u f r s)
          (record { tokens = tokens; nodes = 0 }) (record { ended = t.0; bounded = omega arith })
          (omega (arith, t.1)))
        λ (expr, p₁) h₁. Yields-then (skip_punct-Reads (codes ";") p₁ h₁.0.good) λ (_, p₂) h₂.
          Yields-if (is_eof_kind (cur_kind p₂))
            (λ _. value (h₁.1, omega (arith, h₁.0.counted, h₁.0.good.bounded))) (λ _. refused)

module _ {R : Type 0} (u : Reader R) where
  again-IsSound : (f : ℕ) → IsSound f (again u f)
  unfolding again
  again-IsSound zero = record {
    assign_lem = λ p g w. absurd (omega (arith, weight-positive p g));
    unary_lem = λ p g w. absurd (omega (arith, weight-positive p g));
    statement_lem = λ p g w. absurd (omega (arith, weight-positive p g));
    program_lem = λ source w. absurd (omega arith);
  }
  again-IsSound (suc f) = record {
    assign_lem = parse_assign-Reads u f (again u f) (again-IsSound f);
    unary_lem = parse_unary-Reads u f (again u f) (again-IsSound f);
    statement_lem = parse_statement-Reads u f (again u f) (again-IsSound f);
    program_lem = λ source w.
        Yields-map (λ v a. a.0)
          (program_with-Accepted u f (again u f) (again-IsSound f) source (omega arith));
  }

  parse_program-Accepted :
      (source : Text)
      → Yields (λ v. NodeIsClean v × (node_size v + 1 ≤ max_nodes)) (parse_program u source)
  unfolding parse_program
  parse_program-Accepted source =
      program_with-Accepted u (length source) (again u (length source))
        (again-IsSound (length source)) source (omega arith)

  pub parse_program-Settles : (source : Text) → Yields (λ _. Unit {0}) (parse_program u source)
  parse_program-Settles source = Yields-map (λ v a. tt) (parse_program-Accepted source)

  -- For every source the parser of the scripts stops, templates and their nested expressions
  -- included: it gives a tree or an error, and the fuel of the model, the length of the source,
  -- does not run out.
  pub parse_program-total : (source : Text) → parse_program u source ≢ out_of_fuel
  parse_program-total source = Yields-fuel (parse_program-Accepted source)

  -- In a tree that the parser accepts no variable that an expression reads, calls or assigns to
  -- has a banned name, in a function or a template either. What parameters, declarations, keys
  -- and properties are called is not part of this.
  pub parse_program-NodeIsClean :
      (source : Text) (v : Node R) → parse_program u source ≡ ok v → NodeIsClean v
  parse_program-NodeIsClean source v e = (Yields-ok (parse_program-Accepted source) e).0

  -- A tree that the parser accepts has fewer than `max_nodes` nodes and statements, the
  -- expressions of templates not counted.
  pub parse_program-size :
      (source : Text) (v : Node R) → parse_program u source ≡ ok v → node_size v < max_nodes
  parse_program-size source v e = omega (arith, (Yields-ok (parse_program-Accepted source) e).1)
