-- ===== src/Script/Lexer.antt =====
-- internal/script/lexer.go: the tokens, the punctuators and the state of the lexer.
pub mod Space
pub mod Literals
pub mod Scan
pub mod Progress
pub mod Enough
pub mod Strings
pub mod Longest
use laskah.Prelude.{ℕ, ◌+◌, Bool, true, false, ◌&&◌, Option, List, [], ◌∷◌, ◌==◌, nat_eq, length}
use laskah.Prelude.Text.{Text, codes}

-- `unicode.IsLetter` and `unicode.IsDigit`, `strconv.ParseFloat` and the conversion of an integer.
pub record Reader (R : Type 0) : Type 0 where
  pub is_letter : ℕ → Bool
  pub is_digit : ℕ → Bool
  pub parse_float : Text → Option R
  pub of_uint : ℕ → R
  -- `strconv.FormatFloat(value, 'g', -1, 64)`.
  pub format_float : R → Text

pub data Kind (R : Type 0) : Type 0 where
  eof : Kind R
  ident : Text → Kind R
  number : R → Kind R
  string : Text → Kind R
  template : List Text → List Text → Kind R
  punct : Text → Kind R

pub record Token (R : Type 0) : Type 0 where
  pub kind : Kind R
  pub line : ℕ

-- The source from the position on, and the line.
pub record Lexer : Type 0 where
  pub rest : Text
  pub line : ℕ

abbrev pub punctuators : List Text
punctuators =
    codes "==="
    ∷ codes "!=="
    ∷ codes "?."
    ∷ codes "??"
    ∷ codes "=>"
    ∷ codes "=="
    ∷ codes "!="
    ∷ codes "<="
    ∷ codes ">="
    ∷ codes "&&"
    ∷ codes "||"
    ∷ codes "+="
    ∷ codes "-="
    ∷ codes "*="
    ∷ codes "/="
    ∷ codes "%="
    ∷ codes "{"
    ∷ codes "}"
    ∷ codes "("
    ∷ codes ")"
    ∷ codes "["
    ∷ codes "]"
    ∷ codes ","
    ∷ codes ";"
    ∷ codes ":"
    ∷ codes "."
    ∷ codes "?"
    ∷ codes "="
    ∷ codes "!"
    ∷ codes "<"
    ∷ codes ">"
    ∷ codes "+"
    ∷ codes "-"
    ∷ codes "*"
    ∷ codes "/"
    ∷ codes "%"
    ∷ []

-- `strings.HasPrefix(text, prefix)`.
unfoldable pub has_prefix : Text → Text → Bool
has_prefix text [] = true
has_prefix [] (c ∷ prefix) = false
has_prefix (d ∷ text) (c ∷ prefix) = d == c && has_prefix text prefix

-- What the sources of expressions weigh: the fuel with which the parser reads them.
abbrev pub source_weight : List Text → ℕ
source_weight [] = 0
source_weight (source ∷ sources) = length source + 2 + source_weight sources

abbrev pub is_eof_kind : {R : Type 0} → Kind R → Bool
is_eof_kind eof = true
is_eof_kind _ = false

abbrev pub is_eof : {R : Type 0} → Token R → Bool
is_eof t = is_eof_kind t.kind

-- The fuel that the parser needs for a token.
abbrev pub kind_weight : {R : Type 0} → Kind R → ℕ
kind_weight (template chunks exprs) = 1 + source_weight exprs
kind_weight _ = 1

abbrev pub token_weight : {R : Type 0} → Token R → ℕ
token_weight t = kind_weight t.kind

abbrev pub weight : {R : Type 0} → List (Token R) → ℕ
weight [] = 0
weight (t ∷ ts) = token_weight t + weight ts
