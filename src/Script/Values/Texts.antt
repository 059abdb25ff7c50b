-- ===== src/Script/Values/Texts.antt =====
-- The functions of Go's packages strings and strconv that internal/script/builtins.go uses.
use laskah.Prelude.{
  ℕ, zero, suc, ◌+◌, ◌-◌, ◌*◌, ◌^◌, Bool, true, false, not, ◌&&◌, ◌||◌, Option, none, some, List,
  [], ◌∷◌, ◌++◌, ◌==◌, nat_eq, ltb, leb, if◌then◌else◌, length, drop,
}
use laskah.Prelude.Text.{Text, codes, text_eq}
use laskah.Prelude.Int.{ℤ, pos, negsuc}
use laskah.Script.Lexer.{has_prefix}
use laskah.Script.Lexer.Literals.{is_decimal}

-- What stands before and behind the first occurrence: `strings.Index`.
unfoldable pub find_text : Text → Text → Option (Text × Text)
unfolding has_prefix
find_text sub [] = if sub == codes "" then some ([], []) else none
find_text sub (c ∷ text) =
    let later = find_text sub text in
    if has_prefix (c ∷ text) sub
    then some ([], drop (length sub) (c ∷ text))
    else elim later [ none ↦ none | some (before, behind) ↦ some (c ∷ before, behind) ]

unfoldable pub contains : Text → Text → Bool
unfolding find_text
contains text sub = elim (find_text sub text) [ none ↦ false | some _ ↦ true ]

-- `strings.HasSuffix`.
unfoldable pub has_suffix : Text → Text → Bool
has_suffix [] suffix = suffix == codes ""
has_suffix (c ∷ text) suffix = let later = has_suffix text suffix in (c ∷ text) == suffix || later

unfoldable pub push_first : ℕ → List Text → List Text
push_first c [] = (c ∷ []) ∷ []
push_first c (part ∷ parts) = (c ∷ part) ∷ parts

-- `strings.Split` by a separator that is not empty; `skip` characters of one are left to pass over.
unfoldable pub split_text : Text → ℕ → Text → List Text
unfolding has_prefix push_first
split_text sep skip [] = [] ∷ []
split_text sep (suc skip) (c ∷ text) = split_text sep skip text
split_text sep zero (c ∷ text) = elim (has_prefix (c ∷ text) sep) [
  | true ↦ [] ∷ split_text sep (length sep - 1) text
  | false ↦ push_first c (split_text sep 0 text)
]

unfoldable pub single_texts : Text → List Text
single_texts [] = []
single_texts (c ∷ text) = (c ∷ []) ∷ single_texts text

-- `strings.Replace(text, old, new, 1)`.
unfoldable pub replace_first : Text → Text → Text → Text
unfolding find_text
replace_first text old new = elim (find_text old text) [
  | none ↦ text
  | some (before, behind) ↦ before ++ (new ++ behind)
]

-- The parts with the new text between them.
unfoldable pub put_between : Text → List Text → Text
put_between new [] = []
put_between new (part ∷ []) = part
put_between new (part ∷ next ∷ parts) = part ++ (new ++ put_between new (next ∷ parts))

-- The new text before each character and at the end.
unfoldable pub put_around : Text → Text → Text
put_around new [] = new
put_around new (c ∷ text) = new ++ c ∷ put_around new text

-- `strings.ReplaceAll`.
unfoldable pub replace_all : Text → Text → Text → Text
unfolding split_text put_between put_around
replace_all text old new =
    if old == codes "" then put_around new text else put_between new (split_text old 0 text)

unfoldable pub decimal_digits : ℕ → Text → Option ℕ
decimal_digits before [] = some before
decimal_digits before (c ∷ text) =
    let later = decimal_digits (before * 10 + (c - 48)) text in if is_decimal c then later else none

unfoldable pub decimal_number : Text → Option ℕ
unfolding decimal_digits
decimal_number [] = none
decimal_number (c ∷ text) = decimal_digits 0 (c ∷ text)

unfoldable pub negative : ℕ → ℤ
negative zero = pos 0
negative (suc n) = negsuc n

-- `strconv.Atoi`: a sign and digits, within 64 bits.
unfoldable pub atoi : Text → Option ℤ
unfolding decimal_number negative
atoi [] = none
atoi (c ∷ text) =
    let below = λ (n : ℕ). if ltb n (2 ^ 63) then some (pos n) else none in
    let minus : Option ℤ = elim (decimal_number text) [
      | none ↦ none
      | some n ↦ if leb n (2 ^ 63) then some (negative n) else none
    ] in
    let plus : Option ℤ = elim (decimal_number text) [ none ↦ none | some n ↦ below n ] in
    let plain : Option ℤ = elim (decimal_number (c ∷ text)) [ none ↦ none | some n ↦ below n ] in
    if c == 45 then minus else (if c == 43 then plus else plain)

-- The characters that the loop of `parseLeadingNumber` passes: a sign at the start, digits, and one dot.
unfoldable pub leading_part : Bool → Bool → Bool → Text → Text
leading_part integer_only first seen_dot [] = []
leading_part integer_only first seen_dot (c ∷ text) =
    let later = leading_part integer_only false (seen_dot || c == 46) text in
    if (c == 43 || c == 45) && first || is_decimal c || c == 46 && not integer_only && not seen_dot
    then c ∷ later
    else []

-- `strings.TrimSuffix(text, ".")`.
unfoldable pub trim_dot : Text → Text
trim_dot [] = []
trim_dot (c ∷ []) = if c == 46 then [] else c ∷ []
trim_dot (c ∷ d ∷ text) = c ∷ trim_dot (d ∷ text)

-- `clampIndex`
unfoldable pub clamp_index : ℤ → ℕ → ℕ
clamp_index (pos n) len = if ltb len n then len else n
clamp_index (negsuc n) len = len - suc n
