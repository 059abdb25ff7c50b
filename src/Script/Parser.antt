-- ===== src/Script/Parser.antt =====
-- internal/script/parser.go: the state of the parser and what its functions share. `p.tokens` here are
-- the tokens from the position on, of which the end token is the last.
pub mod Collections
pub mod Primary
pub mod Operators
pub mod Statements
pub mod Run
pub mod Sizes
pub mod Reads
pub mod Items
pub mod Levels
pub mod Operands
pub mod Assigns
pub mod Steps
pub mod Bodies
pub mod Primaries
pub mod Total
use laskah.Prelude.{
  ℕ, suc, ◌+◌, Bool, true, false, ◌||◌, Option, none, some, List, [], ◌∷◌, ◌==◌, nat_eq, leb,
  if◌then◌else◌, drop, any,
}
use laskah.Prelude.Text.{Text, codes, text_eq}
use laskah.Script.Outcome.{Fault, too_complex, expected, Outcome, ok, failed, out_of_fuel, then_do}
use laskah.Script.Lexer.{Kind, eof, ident, number, string, template, punct, Token, is_eof}
use laskah.Script.Syntax.{Node, Nodes, Stmt}

abbrev pub max_nodes : ℕ
max_nodes = 4000

pub record Parser (R : Type 0) : Type 0 where
  pub tokens : List (Token R)
  pub nodes : ℕ

-- A function of the parser moves its state on, unless it reports an error.
abbrev pub Parse : Type 0 → Type 0 → Type 0
Parse R A = Parser R → Outcome (A × Parser R)

-- The functions that the parser calls again further on in the input.
pub record Again (R : Type 0) : Type 0 where
  pub assign : Parse R (Node R)
  pub unary : Parse R (Node R)
  pub statement : Parse R (Stmt R)
  pub program : Text → Outcome (Node R)

module _ {R : Type 0} where
  abbrev pub pure {ℓ} : {A : Type ℓ} → A → Parser R → Outcome (A × Parser R)
  pure v p = ok (v, p)

  infixl 1 ◌>>=◌ ◌>>◌
  abbrev pub ◌>>=◌ : {A B : Type 0} → Parse R A → (A → Parse R B) → Parse R B
  m >>= k = λ p. then_do (m p) λ (v, p'). k v p'

  abbrev pub ◌>>◌ : {B : Type 0} → Parse R (Unit {0}) → Parse R B → Parse R B
  m >> k = m >>= λ _. k

  -- `cur` and `peek`; the last token stands for what follows it.
  abbrev pub kind_of : List (Token R) → Kind R
  kind_of [] = eof
  kind_of (t ∷ ts) = t.kind

  abbrev pub line_of : List (Token R) → ℕ
  line_of [] = 0
  line_of (t ∷ ts) = t.line

  abbrev pub cur_kind : Parser R → Kind R
  cur_kind p = kind_of p.tokens

  abbrev pub cur_line : Parser R → ℕ
  cur_line p = line_of p.tokens

  abbrev pub peek_kind : Parser R → Kind R
  peek_kind p = kind_of (drop 1 p.tokens)

  unfoldable pub count_node : Parse R (Unit {0})
  count_node p =
      if leb (p.nodes + 1) max_nodes
      then ok (tt, record p { nodes = p.nodes + 1 })
      else failed too_complex

  unfoldable pub punct_is : Text → Kind R → Bool
  punct_is text (punct t) = t == text
  punct_is text _ = false

  unfoldable pub word_is : Text → Kind R → Bool
  word_is word (ident t) = t == word
  word_is word _ = false

  abbrev pub is_ident : Kind R → Bool
  is_ident (ident t) = true
  is_ident _ = false

  abbrev pub ident_text : Kind R → Text
  ident_text (ident t) = t
  ident_text _ = []

  abbrev pub is_punct : Text → Parser R → Bool
  is_punct text p = punct_is text (cur_kind p)

  abbrev pub is_keyword : Text → Parser R → Bool
  is_keyword word p = word_is word (cur_kind p)

  -- `p.pos++`
  abbrev pub moved : Parser R → Parser R
  moved p = record p { tokens = drop 1 p.tokens }

  abbrev pub advance : Parse R (Unit {0})
  advance p = ok (tt, moved p)

  abbrev pub fail {ℓ} : {A : Type ℓ} → (ℕ → Fault) → Parser R → Outcome (A × Parser R)
  fail w p = failed (w (cur_line p))

  unfoldable pub skip_punct : Text → Parse R Bool
  skip_punct text p = if is_punct text p then ok (true, moved p) else ok (false, p)

  unfoldable pub expect_punct : Text → Parse R (Unit {0})
  expect_punct text p = if is_punct text p then ok (tt, moved p) else fail (expected text) p

  -- An identifier, whatever it is; the error names the line.
  unfoldable pub take_name : (ℕ → Fault) → Parse R Text
  take_name w p = if is_ident (cur_kind p) then ok (ident_text (cur_kind p), moved p) else fail w p

  -- `parseExpression`; `assign` is `parseAssign`.
  unfoldable pub parse_expression : Parse R (Node R) → Parse R (Node R)
  unfolding count_node
  parse_expression assign = do count_node; assign
