-- ===== src/Script/Parser/Run.antt =====
-- internal/script/parser.go: `parseProgram`. The functions that call each other further on in the input
-- are tied together on fuel.
use laskah.Prelude.{ℕ, zero, suc, if◌then◌else◌, length}
use laskah.Prelude.Text.{Text, codes}
use laskah.Script.Outcome.{not_one_expression, Outcome, ok, failed, out_of_fuel, then_do}
use laskah.Script.Lexer.{Reader, is_eof_kind}
use laskah.Script.Lexer.Scan.{tokenize}
use laskah.Script.Syntax.{Node}
use laskah.Script.Parser.{Parser, Again, cur_kind, cur_line, skip_punct, parse_expression}
use laskah.Script.Parser.Operators.{parse_assign, parse_unary}
use laskah.Script.Parser.Statements.{parse_statement}

module _ {R : Type 0} (u : Reader R) where
  -- Nothing but the expression may stand in the source.
  unfoldable pub whole : Node R → Parser R → Outcome (Node R)
  whole expr p =
      if is_eof_kind (cur_kind p) then ok expr else failed (not_one_expression (cur_line p))

  unfoldable pub program_with : Again R → Text → Outcome (Node R)
  unfolding tokenize parse_expression parse_assign skip_punct whole
  program_with r source = then_do (tokenize u source) λ tokens.
      then_do (parse_expression (parse_assign u r) (record { tokens = tokens; nodes = 0 }))
        λ (expr, p). then_do (skip_punct (codes ";") p) λ (ended, p'). whole expr p'

  unfoldable pub again : ℕ → Again R
  unfolding parse_assign parse_unary parse_statement program_with
  again zero = record {
    assign = λ p. out_of_fuel;
    unary = λ p. out_of_fuel;
    statement = λ p. out_of_fuel;
    program = λ source. out_of_fuel;
  }
  again (suc f) = record {
    assign = parse_assign u (again f);
    unary = parse_unary u (again f);
    statement = parse_statement u (again f);
    program = program_with (again f);
  }

  unfoldable pub parse_program : Text → Outcome (Node R)
  unfolding program_with again
  parse_program source = program_with (again (length source)) source
