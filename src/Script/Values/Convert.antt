-- ===== src/Script/Values/Convert.antt =====
-- internal/script/eval.go: the conversions and comparisons of values.
use laskah.Prelude.{
  ℕ, zero, suc, Bool, true, false, not, ◌&&◌, ◌||◌, none, some, List, [], ◌∷◌, ◌++◌, ◌==◌, nat_eq,
  ltb, if◌then◌else◌, length,
}
use laskah.Prelude.Text.{Text, codes, text_eq, trim_space}
use laskah.Script.Outcome.{Outcome, ok, failed, stack_overflow, then_do}
use laskah.Script.Values.{
  Host, Value, null, undefined, bool, num, str, object, array, callable, builtin, Cell, items_at,
  fields_at,
}

-- Whether the first text comes before the second in the order of their bytes, which in UTF-8 is that
-- of their code points.
unfoldable pub text_before : Text → Text → Bool
text_before s [] = false
text_before [] (d ∷ t) = true
text_before (c ∷ s) (d ∷ t) = ltb c d || c == d && text_before s t

unfoldable pub join_texts : Text → List Text → Text
join_texts sep [] = []
join_texts sep (text ∷ []) = text
join_texts sep (text ∷ next ∷ texts) = text ++ (sep ++ join_texts sep (next ∷ texts))

module _ {R : Type 0} where
  unfoldable pub is_nullish : Value R → Bool
  is_nullish null = true
  is_nullish undefined = true
  is_nullish _ = false

  unfoldable pub is_undefined : Value R → Bool
  is_undefined undefined = true
  is_undefined _ = false

  unfoldable pub type_of : Value R → Text
  type_of null = codes "object"
  type_of undefined = codes "undefined"
  type_of (bool b) = codes "boolean"
  type_of (num v) = codes "number"
  type_of (str text) = codes "string"
  type_of (callable n params body scope) = codes "function"
  type_of (builtin n b) = codes "function"
  type_of (object r) = codes "object"
  type_of (array r) = codes "object"

module _ {R : Type 0} (h : Host R) where
  abbrev pub zero_of : R
  zero_of = h.float.of_ℕ 0

  unfoldable pub truthy : Value R → Bool
  truthy null = false
  truthy undefined = false
  truthy (bool b) = b
  truthy (num v) = not (h.float.eq v zero_of) && not (h.is_nan v)
  truthy (str text) = not (text == codes "")
  truthy _ = true

  unfoldable pub number_of_text : Text → R
  number_of_text text =
      if text == codes ""
      then zero_of
      else elim (h.reader.parse_float text) [ none ↦ h.nan | some v ↦ v ]

  unfoldable pub to_number : Value R → R
  unfolding number_of_text trim_space
  to_number (num v) = v
  to_number (bool b) = if b then h.float.of_ℕ 1 else zero_of
  to_number null = zero_of
  to_number (str text) = number_of_text (trim_space text)
  to_number _ = h.nan

  -- `math.IsInf(value, 1)` and `math.IsInf(value, -1)`.
  abbrev pub is_infinite : R → Bool
  is_infinite v = h.float.eq v h.infinity || h.float.eq v (h.negate h.infinity)

  unfoldable pub format_number : R → Text
  format_number v =
      if h.is_nan v
      then codes "NaN"
      else (if h.float.eq v h.infinity
          then codes "Infinity"
          else (if h.float.eq v (h.negate h.infinity)
              then codes "-Infinity"
              else (if h.float.eq v (h.truncate v)
                    && h.float.lt (h.abs v) (h.float.of_ℕ 1000000000000000000000)
                  then h.format_plain v
                  else h.reader.format_float v)))

  -- One after the other, with nothing for `null` and `undefined`; `text_of` is the conversion.
  unfoldable pub texts_of : (Value R → Outcome Text) → List (Value R) → Outcome (List Text)
  unfolding is_nullish
  texts_of text_of [] = ok []
  texts_of text_of (item ∷ items) =
      then_do (elim (is_nullish item) [ true ↦ ok [] | false ↦ text_of item ])
        λ text. then_do (texts_of text_of items) λ texts. ok (text ∷ texts)

  -- `toString` to a depth: it goes into an array that stands in an array.
  unfoldable pub text_within : ℕ → List (Cell R) → Value R → Outcome Text
  unfolding texts_of join_texts items_at format_number
  text_within n cells null = ok (codes "null")
  text_within n cells undefined = ok (codes "undefined")
  text_within n cells (bool b) = ok (if b then codes "true" else codes "false")
  text_within n cells (num v) = ok (format_number v)
  text_within n cells (str text) = ok text
  text_within zero cells (array r) = failed stack_overflow
  text_within (suc n) cells (array r) =
      then_do (texts_of (text_within n cells) (items_at cells r))
        λ texts. ok (join_texts (codes ",") texts)
  text_within n cells (callable i params body scope) = ok (codes "function")
  text_within n cells (builtin i b) = ok (codes "function")
  text_within n cells (object r) = ok (codes "[object Object]")

  -- `toString`. A chain of arrays longer than there are cells goes round in a circle, and the recursion
  -- of the program has no end: its stack overflows.
  unfoldable pub to_string : List (Cell R) → Value R → Outcome Text
  unfolding text_within
  to_string cells v = text_within (suc (length cells)) cells v

  -- Maps and slices are compared by their pointers, which empty ones have not; functions too.
  unfoldable pub same_reference : List (Cell R) → Value R → Value R → Bool
  unfolding fields_at items_at
  same_reference cells (object q) (object r) = q == r && not (length (fields_at cells q) == 0)
  same_reference cells (array q) (array r) = q == r && not (length (items_at cells q) == 0)
  same_reference cells (callable i params body scope) (callable j params' body' scope') = i == j
  same_reference cells (builtin i b) (builtin j b') = i == j
  same_reference cells left right = false

  -- Neither is `null` or `undefined`, and for a strict comparison they have one type.
  unfoldable pub equal_values : List (Cell R) → Value R → Value R → Bool → Bool
  unfolding to_number same_reference
  equal_values cells (str text) (str text') strict = text == text'
  equal_values cells (str text) right strict =
      not strict && h.float.eq (to_number (str text)) (to_number right)
  equal_values cells (num v) right strict = h.float.eq v (to_number right)
  equal_values cells (bool b) (bool b') strict = if b then b' else not b'
  equal_values cells (bool b) right strict =
      not strict && h.float.eq (to_number (bool b)) (to_number right)
  equal_values cells left right strict = same_reference cells left right

  unfoldable pub loose_equal : List (Cell R) → Value R → Value R → Bool → Bool
  unfolding is_nullish is_undefined type_of equal_values
  loose_equal cells left right strict =
      if is_nullish left || is_nullish right
      then is_nullish left
        && is_nullish right
        && (not strict
            || (if is_undefined left then is_undefined right else not (is_undefined right)))
      else (if strict && not (type_of left == type_of right)
          then false
          else equal_values cells left right strict)

  -- The four orders from `<`, on texts and on numbers.
  unfoldable pub ordered : {A : Type 0} → (A → A → Bool) → (A → A → Bool) → A → A → Text → Bool
  ordered lt le left right op =
      if op == codes "<"
      then lt left right
      else (if op == codes "<="
          then le left right
          else (if op == codes ">" then lt right left else le right left))

  unfoldable pub compare_numbers : R → R → Text → Bool
  unfolding ordered
  compare_numbers left right op =
      if h.is_nan left || h.is_nan right then false else ordered h.float.lt h.float.le left right op

  unfoldable pub compare : Value R → Value R → Text → Bool
  unfolding text_before ordered compare_numbers to_number
  compare (str left) (str right) op =
      ordered text_before (λ s t. not (text_before t s)) left right op
  compare left right op = compare_numbers (to_number left) (to_number right) op

  -- `toIterable`: a string gives its characters, in a slice of its own.
  unfoldable pub characters : Text → List (Value R)
  characters [] = []
  characters (c ∷ text) = str (c ∷ []) ∷ characters text
