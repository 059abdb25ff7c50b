-- ===== src/Examples/Scripts.antt =====
-- internal/script: a reader over the natural numbers, and small sources.
use laskah.Prelude.{
  ℕ, ◌+◌, ◌-◌, ◌*◌, ◌≡◌, ◌≤◌, ◌<◌, ◌≢◌, refl, true, false, ◌&&◌, ◌||◌, Option, none, some, [], ◌∷◌,
  ◌++◌, any, leb, inl, inr, length, drop, In,
}
use laskah.Prelude.Text.{Text, codes, text_eq, text_beq}
use laskah.Script.Outcome.{ok, failed, out_of_fuel, string_not_closed, string_over_lines}
use laskah.Script.Lexer.{Reader, punct, string, punctuators, has_prefix}
use laskah.Script.Lexer.Literals.{is_decimal}
use laskah.Script.Lexer.Scan.{next, read_punct}
use laskah.Script.Lexer.Strings.{escape_text, next-escape_text, next-unclosed}
use laskah.Script.Lexer.Longest.{read_punct-longest}
use laskah.Script.Syntax.{
  Node, num_lit, ident, cond, call, member, no_nodes, node_then, fn_lit, expr_body, block_body,
  no_stmts,
}
use laskah.Script.Parser.{max_nodes, word_is}
use laskah.Script.Parser.Run.{parse_program}
use laskah.Script.Parser.Sizes.{node_size, NodeIsClean}
use laskah.Script.Parser.Total.{parse_program-total, parse_program-NodeIsClean, parse_program-size}

-- Digits only.
abbrev decimal : ℕ → Text → Option ℕ
decimal before [] = some before
decimal before (c ∷ text) =
    let later = decimal (before * 10 + (c - 48)) text in
    elim (is_decimal c) [ true ↦ later | false ↦ none ]

abbrev pub reader : Reader ℕ
reader = record {
  is_letter = λ c. leb 97 c && leb c 122 || leb 65 c && leb c 90;
  is_digit = is_decimal;
  parse_float = decimal 0;
  of_uint = λ n. n;
  format_float = λ n. (48 + n) ∷ [];
}

abbrev source : Text
source = codes "a ? b.c(1) : x => 2"

abbrev tree : Node ℕ
tree =
    cond (ident (codes "a"))
      (call (member (ident (codes "b")) (codes "c") false) (node_then (num_lit 1) no_nodes) false)
      (fn_lit (codes "x" ∷ []) (expr_body (num_lit 2)))

source-tree : parse_program reader source ≡ ok tree
unfolding parse_program word_is text_beq any
source-tree = refl

parse_program-total_example : parse_program reader source ≢ out_of_fuel
parse_program-total_example = parse_program-total reader source

parse_program-NodeIsClean_example : NodeIsClean tree
parse_program-NodeIsClean_example = parse_program-NodeIsClean reader source tree source-tree

-- A parameter may have a banned name.
banned_parameter :
    parse_program reader (codes "function (eval) {}")
    ≡ ok (fn_lit (codes "eval" ∷ []) (block_body no_stmts))
unfolding parse_program word_is text_beq any
banned_parameter = refl

parse_program-size_example : node_size tree < max_nodes
parse_program-size_example = parse_program-size reader source tree source-tree

-- `it's` between single quotes.
abbrev quoted_text : Text
quoted_text = codes "it's"

next-escape_text_example :
    next reader 39 (escape_text 39 quoted_text ++ 39 ∷ codes " + 1") 1
    ≡ ok (record { kind = string quoted_text; line = 1 }, record { rest = codes " + 1"; line = 1 })
next-escape_text_example = next-escape_text reader 39 1 quoted_text (codes " + 1") (inl refl)

next-unclosed_example :
    (next reader 39 (escape_text 39 quoted_text ++ 10 ∷ codes "x") 3 ≡ failed (string_over_lines 3))
    × (next reader 39 (escape_text 39 quoted_text) 3 ≡ failed (string_not_closed 3))
next-unclosed_example = next-unclosed reader 39 3 quoted_text (codes "x") (inl refl)

read_punct-longest_example :
    (p : Text) × In p punctuators
    × (length (codes "==") ≤ length p)
    × (codes "===b" ≡ p ++ drop (length p) (codes "===b"))
    × (read_punct reader (record { rest = codes "===b"; line = 1 })
        ≡ ok (
          record { kind = punct p; line = 1 },
          record { rest = drop (length p) (codes "===b"); line = 1 },
        ))
unfolding has_prefix
read_punct-longest_example =
    read_punct-longest reader (codes "===b") (codes "==") 1 (inr (inr (inr (inr (inr (inl refl))))))
      refl
