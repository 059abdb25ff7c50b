-- ===== src/Script/Eval/Operators.antt =====
-- internal/script/eval.go: operators on values.
use laskah.Prelude.{
  Bool, true, false, not, ◌||◌, ◌&&◌, List, [], ◌∷◌, ◌++◌, ◌==◌, leb, if◌then◌else◌, any,
}
use laskah.Prelude.Text.{Text, codes, text_eq}
use laskah.Script.Outcome.{Outcome, ok, failed, then_do, text_too_long, bad_operator}
use laskah.Script.Lexer.Literals.{byte_length}
use laskah.Script.Values.{Host, Value, bool, num, str, Cell, max_string_len}
use laskah.Script.Values.Convert.{
  is_nullish, type_of, truthy, to_number, to_string, loose_equal, compare,
}

abbrev pub is_string : {R : Type 0} → Value R → Bool
is_string (str text) = true
is_string _ = false

module _ {R : Type 0} (h : Host R) where
  -- A text within the limit.
  unfoldable pub limited : Text → Outcome Text
  unfolding byte_length
  limited text = if leb (byte_length text) max_string_len then ok text else failed text_too_long

  -- `+`: texts are joined, other values are added as numbers.
  unfoldable pub plus_values : List (Cell R) → Value R → Value R → Outcome (Value R)
  unfolding to_string to_number limited
  plus_values cells left right =
      let joined = then_do (to_string h cells left) λ s.
        then_do (to_string h cells right) λ t. then_do (limited (s ++ t)) λ text. ok (str text) in
      if is_string left || is_string right
      then joined
      else ok (num (h.float.plus (to_number h left) (to_number h right)))

  -- `-`, `*`, `/` and `%`.
  unfoldable pub arithmetic : Text → Value R → Value R → Outcome (Value R)
  unfolding to_number
  arithmetic op left right =
      let l = to_number h left in
      let r = to_number h right in
      if op == codes "-"
      then ok (num (h.float.minus l r))
      else (if op == codes "*"
          then ok (num (h.float.times l r))
          else (if op == codes "/"
              then ok (num (h.float.over l r))
              else (if op == codes "%" then ok (num (h.mod_of l r)) else failed (bad_operator op))))

  -- `evalBinaryValues`
  unfoldable pub combine : List (Cell R) → Text → Value R → Value R → Outcome (Value R)
  unfolding plus_values arithmetic
  combine cells op left right =
      if op == codes "+" then plus_values cells left right else arithmetic op left right

  abbrev pub one_of : List Text → Text → Bool
  one_of texts op = any (λ t. t == op) texts

  -- The operator of `evalBinary` on the values of its operands.
  unfoldable pub binary_values : List (Cell R) → Text → Value R → Value R → Outcome (Value R)
  unfolding combine loose_equal compare any
  binary_values cells op left right =
      if one_of (codes "===" ∷ codes "==" ∷ []) op
      then ok (bool (loose_equal h cells left right (op == codes "===")))
      else (if one_of (codes "!==" ∷ codes "!=" ∷ []) op
          then ok (bool (not (loose_equal h cells left right (op == codes "!=="))))
          else (if one_of (codes "<" ∷ codes "<=" ∷ codes ">" ∷ codes ">=" ∷ []) op
              then ok (bool (compare h left right op))
              else combine cells op left right))

  -- The operator of `evalUnary`.
  unfoldable pub unary_value : Text → Value R → Outcome (Value R)
  unfolding truthy to_number type_of
  unary_value op arg =
      if op == codes "!"
      then ok (bool (not (truthy h arg)))
      else (if op == codes "-"
          then ok (num (h.negate (to_number h arg)))
          else (if op == codes "+"
              then ok (num (to_number h arg))
              else (if op == codes "typeof"
                  then ok (str (type_of arg))
                  else failed (bad_operator op))))

  -- Whether `evalLogical` stops at its left value.
  unfoldable pub stops_at : Text → Value R → Bool
  unfolding truthy is_nullish
  stops_at op left =
      op == codes "&&" && not (truthy h left)
      || op == codes "||" && truthy h left
      || op == codes "??" && not (is_nullish left)
