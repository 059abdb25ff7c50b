-- ===== src/Script/Lexer/Literals.antt =====
-- internal/script/lexer.go: `decodeEscape`, `readString`, `readTemplate` and `readTemplateExpr`.
use laskah.Prelude.{
  ℕ, zero, suc, ◌+◌, ◌-◌, ◌*◌, ◌^◌, Bool, false, ◌&&◌, ◌||◌, Option, none, some, List, [], ◌∷◌,
  ◌==◌, nat_eq, ltb, leb, if◌then◌else◌, length, drop, take,
}
use laskah.Prelude.Text.{Text, codes}
use laskah.Script.Outcome.{
  Fault, string_not_closed, string_over_lines, template_not_closed, expression_not_closed,
  escape_cut, unicode_escape_cut, hex_escape_cut, bad_unicode_escape, bad_hex_escape, Outcome, ok,
  failed, then_do,
}
use laskah.Script.Lexer.{Lexer, has_prefix}

abbrev pub is_decimal : ℕ → Bool
is_decimal c = leb 48 c && leb c 57

unfoldable pub is_hex_digit : ℕ → Bool
is_hex_digit c = is_decimal c || leb 97 c && leb c 102 || leb 65 c && leb c 70

unfoldable pub hex_value : ℕ → ℕ
hex_value c = if leb 97 c then c - 87 else (if leb 65 c then c - 55 else c - 48)

-- The digits read from the left, with what was read before.
unfoldable pub hex_digits : ℕ → Text → Option ℕ
unfolding is_hex_digit hex_value
hex_digits before [] = some before
hex_digits before (c ∷ text) =
    let later = hex_digits (before * 16 + hex_value c) text in
    if is_hex_digit c then later else none

-- `strconv.ParseUint(text, 16, bits)`.
unfoldable pub parse_uint : ℕ → Text → Option ℕ
unfolding hex_digits
parse_uint bits [] = none
parse_uint bits (c ∷ text) = elim (hex_digits 0 (c ∷ text)) [
  | none ↦ none
  | some value ↦ if ltb value (2 ^ bits) then some value else none
]

-- `string(rune(code))`: half of a surrogate pair is no character.
unfoldable pub rune : ℕ → ℕ
rune code = if leb 0xd800 code && leb code 0xdfff then 0xfffd else code

-- The number of bytes of a text in UTF-8.
unfoldable pub byte_length : Text → ℕ
byte_length [] = 0
byte_length (c ∷ text) =
    (if ltb c 0x80 then 1 else (if ltb c 0x800 then 2 else (if ltb c 0x10000 then 3 else 4)))
    + byte_length text

-- The character that a letter after the backslash stands for.
unfoldable pub short_escape : ℕ → Option ℕ
short_escape c =
    if c == 110
    then some 10
    else (if c == 116
        then some 9
        else (if c == 114
            then some 13
            else (if c == 98
                then some 8
                else (if c == 102 then some 12 else (if c == 48 then some 0 else none)))))

-- A character and the number of characters that its escape takes.
pub data Escape : Type 0 where
  decoded : ℕ → ℕ → Escape
  refused : Fault → Escape

-- `\uXXXX` and `\xXX`: the digits follow the backslash and the letter.
unfoldable pub code_escape : ℕ → Fault → Fault → Text → Escape
unfolding parse_uint rune byte_length
code_escape digits cut bad rest =
    if ltb (byte_length rest) (digits + 2)
    then refused cut
    else elim (parse_uint 32 (take digits (drop 2 rest))) [
      | none ↦ refused bad
      | some code ↦ decoded (rune code) (digits + 2)
    ]

-- The escape at the start of `rest`, where a backslash stands.
unfoldable pub decode_escape : Text → ℕ → Escape
unfolding short_escape code_escape
decode_escape [] n = refused (escape_cut n)
decode_escape (b ∷ []) n = refused (escape_cut n)
decode_escape (b ∷ c ∷ text) n = elim (short_escape c) [
  | some d ↦ decoded d 2
  | none ↦
      if c == 117
      then code_escape 4 (unicode_escape_cut n) (bad_unicode_escape n) (b ∷ c ∷ text)
      else (if c == 120
          then code_escape 2 (hex_escape_cut n) (bad_hex_escape n) (b ∷ c ∷ text)
          else decoded c 2)
]

-- One round of the loop over the characters of a string: it ends, an escape or a character is
-- written, or it is refused.
pub data StringRound : Type 0 where
  ends : StringRound
  writes : Escape → StringRound
  newline : StringRound

unfoldable pub string_round : ℕ → ℕ → ℕ → Text → StringRound
unfolding decode_escape
string_round quote n c text =
    if c == quote
    then ends
    else (if c == 92
        then writes (decode_escape (c ∷ text) n)
        else (if c == 10 then newline else writes (decoded c 1)))

-- The string and what follows it. `skip` counts the characters that are left of the escape decoded
-- last.
unfoldable pub read_string : ℕ → ℕ → ℕ → Text → Outcome (Text × Text)
unfolding string_round
read_string quote n skip [] = failed (string_not_closed n)
read_string quote n (suc skip) (c ∷ text) = read_string quote n skip text
read_string quote n zero (c ∷ text) = elim (string_round quote n c text) [
  | ends ↦ ok ([], text)
  | writes (decoded d size) ↦
      then_do (read_string quote n (size - 1) text) λ (later, left). ok (d ∷ later, left)
  | writes (refused w) ↦ failed w
  | newline ↦ failed (string_over_lines n)
]

-- Where the loop of `readTemplateExpr` stands: in the expression, in a string of it that a quote
-- opened, or behind a backslash in one.
pub data Inside : Type 0 where
  code : Inside
  quoted escaped : ℕ → Inside

unfoldable pub next_depth : ℕ → ℕ → ℕ
next_depth c depth = if c == 123 then depth + 1 else (if c == 125 then depth - 1 else depth)

unfoldable pub next_inside : ℕ → Inside → Inside
next_inside c code = if c == 39 || c == 34 then quoted c else code
next_inside c (quoted quote) =
    if c == quote then code else (if c == 92 then escaped quote else quoted quote)
next_inside c (escaped quote) = quoted quote

-- Whether the character is the brace that closes the expression.
unfoldable pub closes : ℕ → ℕ → Inside → Bool
closes c depth code = c == 125 && depth == 1
closes c depth (quoted quote) = false
closes c depth (escaped quote) = false

unfoldable pub depth_after : ℕ → ℕ → Inside → ℕ
unfolding next_depth
depth_after c depth code = next_depth c depth
depth_after c depth (quoted quote) = depth
depth_after c depth (escaped quote) = depth

-- The source up to the brace that closes the expression; the loop starts behind `${`, at depth one.
unfoldable pub template_expr : ℕ → Inside → Text → Option Text
unfolding closes depth_after next_inside
template_expr depth inside [] = none
template_expr depth inside (c ∷ text) =
    let later = template_expr (depth_after c depth inside) (next_inside c inside) text in
    if closes c depth inside
    then some []
    else elim later [ none ↦ none | some source ↦ some (c ∷ source) ]

-- One round of the loop over the characters of a template.
pub data TemplateRound : Type 0 where
  closing : TemplateRound
  text_part : Escape → TemplateRound
  expression : Option Text → TemplateRound

unfoldable pub template_round : ℕ → ℕ → Text → TemplateRound
unfolding decode_escape template_expr
template_round n c text =
    if c == 96
    then closing
    else (if c == 92
        then text_part (decode_escape (c ∷ text) n)
        else (if has_prefix (c ∷ text) (codes "${")
            then expression (template_expr 1 code (drop 1 text))
            else text_part (decoded c 1)))

-- A template that was read: its text between the expressions, the sources of the expressions, and
-- what follows it with the line there.
pub record Template : Type 0 where
  pub chunks : List Text
  pub exprs : List Text
  pub after : Lexer

unfoldable pub push_char : ℕ → List Text → List Text
push_char c [] = (c ∷ []) ∷ []
push_char c (chunk ∷ chunks) = (c ∷ chunk) ∷ chunks

-- The line grows at a newline that is not escaped.
unfoldable pub line_after : ℕ → ℕ → ℕ
line_after c line = if c == 10 then line + 1 else line

unfoldable pub read_template : ℕ → ℕ → ℕ → Text → Outcome Template
unfolding template_round push_char line_after
read_template start line skip [] = failed (template_not_closed start)
read_template start line (suc skip) (c ∷ text) = read_template start line skip text
read_template start line zero (c ∷ text) = elim (template_round start c text) [
  | closing ↦
      ok (record { chunks = [] ∷ []; exprs = []; after = record { rest = text; line = line } })
  | text_part (decoded d size) ↦
      then_do (read_template start (line_after c line) (size - 1) text)
        λ t. ok (record t { chunks = push_char d t.chunks })
  | text_part (refused w) ↦ failed w
  | expression none ↦ failed (expression_not_closed start)
  | expression (some source) ↦
      then_do (read_template start line (length source + 2) text)
        λ t. ok (record t { chunks = [] ∷ t.chunks; exprs = source ∷ t.exprs })
]
