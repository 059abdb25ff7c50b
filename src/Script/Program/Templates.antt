-- ===== src/Script/Program/Templates.antt =====
-- internal/script/script.go: the template variables, `\{\{\s*([A-Za-z0-9_]+)\s*\}\}`.
use laskah.Prelude.{
  ℕ, zero, suc, ◌-◌, Bool, ◌||◌, ◌&&◌, Option, none, some, List, [], ◌∷◌, ◌++◌, ◌==◌, nat_eq, leb,
  if◌then◌else◌, length, drop, not,
}
use laskah.Prelude.Text.{Text, codes, text_eq}
use laskah.Prelude.Maps.{lookup}
use laskah.Script.Lexer.{has_prefix}
use laskah.Script.Values.Texts.{contains}

abbrev pub known_placeholders : List Text
known_placeholders = codes "baseUrl" ∷ codes "apiKey" ∷ codes "accessToken" ∷ codes "userId" ∷ []

-- `\s` and `[A-Za-z0-9_]`
abbrev pub is_blank : ℕ → Bool
is_blank c = c == 9 || c == 10 || c == 12 || c == 13 || c == 32

abbrev pub is_name_char : ℕ → Bool
is_name_char c =
    (leb 65 c && leb c 90) || (leb 97 c && leb c 122) || (leb 48 c && leb c 57) || c == 95

unfoldable pub skip_blank : Text → Text
skip_blank [] = []
skip_blank (c ∷ text) = if is_blank c then skip_blank text else c ∷ text

-- The name at the start, and what stands behind it.
unfoldable pub name_at : Text → Text × Text
name_at [] = ([], [])
name_at (c ∷ text) =
    let (name, rest) = name_at text in if is_name_char c then (c ∷ name, rest) else ([], c ∷ text)

-- What stands behind `}}`.
unfoldable pub after_close : Text → Option Text
unfolding has_prefix
after_close text = if has_prefix text (codes "}}") then some (drop 2 text) else none

-- The variable at the start, and what stands behind it.
unfoldable pub match_at : Text → Option (Text × Text)
unfolding skip_blank name_at after_close has_prefix
match_at text =
    let (name, rest) = name_at (skip_blank (drop 2 text)) in
    let behind = after_close (skip_blank rest) in
    if not (has_prefix text (codes "{{")) || name == codes ""
    then none
    else elim behind [ none ↦ none | some t ↦ some (name, t) ]

pub data Piece : Type 0 where
  letter : ℕ → Piece
  hole : Text → Piece

-- The matches from the left, none of which overlap; the number is what is left of the last match.
unfoldable pub pieces : ℕ → Text → List Piece
unfolding match_at
pieces skip [] = []
pieces (suc skip) (c ∷ text) = pieces skip text
pieces zero (c ∷ text) = elim (match_at (c ∷ text)) [
  | none ↦ letter c ∷ pieces 0 text
  | some (name, rest) ↦ hole name ∷ pieces (length text - length rest) text
]

abbrev pub names_of : List Piece → List Text
names_of [] = []
names_of (letter c ∷ ps) = names_of ps
names_of (hole name ∷ ps) = name ∷ names_of ps

-- `FindAllStringSubmatch`
unfoldable pub placeholders : Text → List Text
unfolding pieces
placeholders text = names_of (pieces 0 text)

unfoldable pub fill : List (Text × Text) → List Piece → Text
unfolding lookup
fill vars [] = []
fill vars (letter c ∷ ps) = c ∷ fill vars ps
fill vars (hole name ∷ ps) =
    elim (lookup name vars) [ none ↦ [] | some text ↦ text ] ++ fill vars ps

unfoldable pub substitute : Text → List (Text × Text) → Text
unfolding contains pieces fill
substitute text vars =
    if text == codes ""
    then text
    else (if contains text (codes "{{") then fill vars (pieces 0 text) else text)
