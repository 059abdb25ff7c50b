-- ===== src/Script/Lexer/Scan.antt =====
-- internal/script/lexer.go: `readIdent`, `readNumber`, `next` and `tokenize`.
use laskah.Prelude.{
  ℕ, zero, suc, Bool, false, ◌&&◌, ◌||◌, none, some, List, [], ◌∷◌, ◌++◌, ◌==◌, nat_eq,
  if◌then◌else◌, length, drop, take, find,
}
use laskah.Prelude.Text.{Text, codes}
use laskah.Script.Outcome.{
  bad_hex_number, bad_number, bad_character, Outcome, ok, failed, out_of_fuel, then_do,
}
use laskah.Script.Lexer.{
  Reader, eof, ident, number, string, template, punct, Token, Lexer, punctuators, has_prefix,
}
use laskah.Script.Lexer.Space.{skip_space}
use laskah.Script.Lexer.Literals.{
  is_decimal, is_hex_digit, parse_uint, read_string, Template, read_template,
}

-- The characters up to the first that fails the test, and the rest.
unfoldable pub while_true : (ℕ → Bool) → Text → Text × Text
while_true test [] = ([], [])
while_true test (c ∷ text) =
    let later = while_true test text in if test c then (c ∷ later.0, later.1) else ([], c ∷ text)

abbrev starts_sign : Text → Bool
starts_sign [] = false
starts_sign (c ∷ text) = c == 43 || c == 45

-- The exponent, if one follows the digits: `e`, a sign and digits.
unfoldable pub exponent : Text → Text × Text
unfolding while_true
exponent [] = ([], [])
exponent (e ∷ text) =
    let digits = while_true is_decimal text in
    let signed_digits = while_true is_decimal (drop 1 text) in
    if e == 101 || e == 69
    then (if starts_sign text
        then (e ∷ take 1 text ++ signed_digits.0, signed_digits.1)
        else (e ∷ digits.0, digits.1))
    else ([], e ∷ text)

-- A digit stands at the start.
abbrev pub starts_decimal : Text → Bool
starts_decimal [] = false
starts_decimal (c ∷ text) = is_decimal c

module _ {R : Type 0} (u : Reader R) where
  unfoldable pub is_ident_start : ℕ → Bool
  is_ident_start c = c == 95 || c == 36 || u.is_letter c

  unfoldable pub is_ident_part : ℕ → Bool
  is_ident_part c = c == 95 || c == 36 || u.is_letter c || u.is_digit c

  -- `0x` and digits.
  unfoldable pub read_hex : Lexer → Outcome (Token R × Lexer)
  unfolding parse_uint while_true is_hex_digit
  read_hex l =
      let digits = while_true is_hex_digit (drop 2 l.rest) in
      elim (parse_uint 64 digits.0) [
        | none ↦ failed (bad_hex_number l.line)
        | some value ↦ ok (
          record { kind = number (u.of_uint value); line = l.line },
          record { rest = digits.1; line = l.line },
        )
      ]

  unfoldable pub read_decimal : Lexer → Outcome (Token R × Lexer)
  unfolding while_true exponent
  read_decimal l =
      let digits = while_true (λ c. is_decimal c || c == 46) l.rest in
      let tail = exponent digits.1 in
      elim (u.parse_float (digits.0 ++ tail.0)) [
        | none ↦ failed (bad_number l.line)
        | some value ↦
            ok (
              record { kind = number value; line = l.line },
              record { rest = tail.1; line = l.line },
            )
      ]

  unfoldable pub read_number : Lexer → Outcome (Token R × Lexer)
  unfolding read_hex read_decimal
  read_number l =
      if has_prefix l.rest (codes "0x") || has_prefix l.rest (codes "0X")
      then read_hex l
      else read_decimal l

  unfoldable pub read_ident : Lexer → Token R × Lexer
  unfolding is_ident_part while_true
  read_ident l =
      let word = while_true is_ident_part l.rest in
      (record { kind = ident word.0; line = l.line }, record { rest = word.1; line = l.line })

  unfoldable pub read_punct : Lexer → Outcome (Token R × Lexer)
  unfolding has_prefix find
  read_punct l = elim (find (has_prefix l.rest) punctuators) [
    | some symbol ↦ ok (
      record { kind = punct symbol; line = l.line },
      record { rest = drop (length symbol) l.rest; line = l.line },
    )
    | none ↦ failed (bad_character l.line)
  ]

  -- The token of a string or a template that was read.
  abbrev pub string_token : ℕ → Text × Text → Token R × Lexer
  string_token line (text, left) =
      (record { kind = string text; line = line }, record { rest = left; line = line })

  abbrev pub template_token : ℕ → Template → Token R × Lexer
  template_token line t = (record { kind = template t.chunks t.exprs; line = line }, t.after)

  -- The token at the position, where a character is left.
  unfoldable pub next : ℕ → Text → ℕ → Outcome (Token R × Lexer)
  unfolding read_string read_template read_number is_ident_start read_ident read_punct
  next c text line =
      let l : Lexer = record { rest = c ∷ text; line = line } in
      if c == 39 || c == 34
      then (then_do (read_string c line 0 text) λ r. ok (string_token line r))
      else (if c == 96
          then (then_do (read_template line line 0 text) λ t. ok (template_token line t))
          else (if is_decimal c || c == 46 && starts_decimal text
              then read_number l
              else (if is_ident_start c then ok (read_ident l) else read_punct l)))

  -- What the loop of `tokenize` does behind the white space; `later` reads the tokens that follow.
  unfoldable pub tokenize_from :
      (Lexer → Outcome (List (Token R))) → Text → ℕ → Outcome (List (Token R))
  unfolding next
  tokenize_from later [] line = ok (record { kind = eof; line = line } ∷ [])
  tokenize_from later (c ∷ text) line =
      then_do (next c text line) λ (token, l). then_do (later l) λ tokens. ok (token ∷ tokens)

  unfoldable pub tokenize_within : ℕ → Lexer → Outcome (List (Token R))
  unfolding skip_space tokenize_from
  tokenize_within zero l = out_of_fuel
  tokenize_within (suc f) l =
      then_do (skip_space (suc (length l.rest)) l)
        λ at. tokenize_from (tokenize_within f) at.rest at.line

  unfoldable pub tokenize : Text → Outcome (List (Token R))
  unfolding tokenize_within
  tokenize source = tokenize_within (suc (length source)) (record { rest = source; line = 1 })
