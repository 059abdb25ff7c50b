-- ===== src/Script/Values/Apply.antt =====
-- internal/script/builtins.go: the functions of the host, applied to arguments.
use laskah.Prelude.{
  ℕ, ◌+◌, ◌-◌, Bool, true, false, not, ◌&&◌, Option, none, some, List, [], ◌∷◌, ◌==◌, nat_eq, leb,
  if◌then◌else◌, length, take, drop, map,
}
use laskah.Prelude.Text.{Text, codes, text_eq, trim_space}
use laskah.Prelude.Maps.{lookup}
use mathlib.Core.Option
use laskah.Prelude.Int.{pos, negsuc}
use laskah.Script.Outcome.{
  Outcome, ok, failed, then_do, json_too_long, bad_json, bad_digits, detached_method,
}
use laskah.Script.Lexer.{has_prefix}
use laskah.Script.Lexer.Literals.{byte_length}
use laskah.Script.Values.{
  Host, Builtin, string_fn, boolean_fn, parse_float_fn, parse_int_fn, is_nan_fn, math_unary,
  math_pow, math_max, math_min, json_parse, json_stringify, object_keys, object_values,
  object_entries, array_is_array, number_is_finite, number_is_nan, number_parse_float, array_join,
  array_includes, array_index_of, array_slice, array_callback, string_plain, string_includes,
  string_starts_with, string_ends_with, string_index_of, string_split, string_replace,
  string_replace_all, string_slice, number_to_fixed, number_to_string, Value, null, undefined, bool,
  num, str, array, Cell, items_at, Run, done, stop_with, ◌>>=◌, new_array, max_string_len,
}
use laskah.Script.Values.Convert.{
  is_nullish, join_texts, truthy, to_number, is_infinite, format_number, texts_of, to_string,
  loose_equal,
}
use laskah.Script.Values.Texts.{
  find_text, contains, has_suffix, split_text, single_texts, replace_first, replace_all,
  clamp_index,
}
use laskah.Script.Values.Global.{
  sorted_keys, fields_of, export_value, normalize, parse_leading_number,
}
use laskah.Script.Values.Methods.{arg_at, number_of}

module _ {R : Type 0} (h : Host R) where
  unfoldable pub clamp_arg : Value R → ℕ → ℕ → ℕ
  unfolding is_nullish to_number clamp_index
  clamp_arg v len default =
      if is_nullish v then default else clamp_index (h.to_int (to_number h v)) len

  -- `sliceRange`, with the elements between the two.
  unfoldable pub slice_of : {A : Type 0} → List (Value R) → List A → List A
  unfolding clamp_arg
  slice_of args items =
      let start = clamp_arg (arg_at args 0) (length items) 0 in
      let stop = clamp_arg (arg_at args 1) (length items) (length items) in
      take (stop - start) (drop start items)

  -- `max` and `min` of `Math`, until a number is not one.
  unfoldable pub fold_numbers : (R → R → R) → R → List (Value R) → R
  unfolding to_number
  fold_numbers pick seed [] = seed
  fold_numbers pick seed (item ∷ items) =
      let v = to_number h item in
      let later = fold_numbers pick (pick seed v) items in if h.is_nan v then h.nan else later

  unfoldable pub position_of : List (Cell R) → Value R → ℕ → List (Value R) → Option ℕ
  unfolding loose_equal
  position_of cells target n [] = none
  position_of cells target n (item ∷ items) =
      let later = position_of cells target (n + 1) items in
      if loose_equal h cells item target true then some n else later

  -- With the text of an argument.
  abbrev pub with_text : Value R → (Text → Value R) → Run R (Value R)
  with_text v k s = then_do (to_string h s.cells v) λ text. ok (k text, s)

  abbrev pub with_texts : List (Value R) → (Text → Text → Value R) → Run R (Value R)
  with_texts args k s =
      then_do (to_string h s.cells (arg_at args 0))
        λ first. then_do (to_string h s.cells (arg_at args 1)) λ second. ok (k first second, s)

  abbrev pub strings : List Text → List (Value R)
  strings texts = map (λ text. str text) texts

  unfoldable pub pairs_of : List (Text × Value R) → List Text → Run R (List (Value R))
  unfolding lookup
  pairs_of fields [] = done []
  pairs_of fields (key ∷ keys) = do
    pair ← new_array (str key ∷ elim (lookup key fields) [ some v ↦ v | none ↦ null ] ∷ [])
    pairs ← pairs_of fields keys
    done (pair ∷ pairs)

  unfoldable pub values_of : List (Text × Value R) → List Text → List (Value R)
  unfolding lookup
  values_of fields keys = map (λ key. elim (lookup key fields) [ some v ↦ v | none ↦ null ]) keys

  unfoldable pub parse_json : Text → Run R (Value R)
  unfolding normalize byte_length
  parse_json text =
      let decoded : Run R (Value R) = elim (h.decode_json text) [
        | none ↦ stop_with bad_json
        | some j ↦ normalize h j
      ] in
      if leb (byte_length text) max_string_len then decoded else stop_with json_too_long

  -- `JSON.stringify`, which also encodes the body of a request.
  unfoldable pub stringify : List (Cell R) → Value R → Outcome Text
  unfolding export_value byte_length
  stringify cells v = then_do (export_value cells v) λ j. elim (h.encode_json j) [
    | none ↦ failed bad_json
    | some text ↦ if leb (byte_length text) max_string_len then ok text else failed json_too_long
  ]

  unfoldable pub to_fixed : R → List (Value R) → Outcome (Value R)
  unfolding to_number
  to_fixed v [] = ok (str (h.format_fixed 0 v))
  to_fixed v (digits ∷ args) = elim (h.to_int (to_number h digits)) [
    | pos n ↦ if leb n 20 then ok (str (h.format_fixed n v)) else failed bad_digits
    | negsuc n ↦ failed bad_digits
  ]

  unfoldable pub plain_text : Text → Text → Text
  unfolding trim_space
  plain_text key text =
      if key == codes "trim"
      then trim_space text
      else (if key == codes "toLowerCase"
          then h.to_lower text
          else (if key == codes "toUpperCase" then h.to_upper text else text))

  unfoldable pub join_items : ℕ → List (Value R) → Run R (Value R)
  unfolding texts_of to_string join_texts items_at
  join_items r args s =
      then_do (elim args [ [] ↦ ok (codes ",") | v ∷ _ ↦ to_string h s.cells v ])
        λ sep.
          then_do (texts_of h (to_string h s.cells) (items_at s.cells r))
            λ texts. ok (str (join_texts sep texts), s)

  abbrev pub is_array : Value R → Bool
  is_array (array r) = true
  is_array _ = false

  -- `-1` where there is no position.
  abbrev pub position_value : Option ℕ → Value R
  position_value none = num (h.negate (h.float.of_ℕ 1))
  position_value (some n) = number_of h n

  abbrev pub is_nan_number : Value R → Bool
  is_nan_number (num v) = h.is_nan v
  is_nan_number _ = false

  -- A function of a string.
  unfoldable pub apply_string : Builtin R → List (Value R) → Run R (Value R)
  unfolding plain_text contains has_prefix has_suffix find_text split_text single_texts
      replace_first replace_all slice_of byte_length to_string
  apply_string (string_plain key text) args s = ok (str (plain_text key text), s)
  apply_string (string_includes text) args s =
      with_text (arg_at args 0) (λ t. bool (contains text t)) s
  apply_string (string_starts_with text) args s =
      with_text (arg_at args 0) (λ t. bool (has_prefix text t)) s
  apply_string (string_ends_with text) args s =
      with_text (arg_at args 0) (λ t. bool (has_suffix text t)) s
  apply_string (string_index_of text) args s =
      with_text (arg_at args 0)
        (λ t. position_value (Option.map (λ x. byte_length x.0) (find_text t text))) s
  apply_string (string_split text) args s = then_do (to_string h s.cells (arg_at args 0)) λ sep.
      new_array (strings (if sep == codes "" then single_texts text else split_text sep 0 text)) s
  apply_string (string_replace text) args s =
      with_texts args (λ old new. str (replace_first text old new)) s
  apply_string (string_replace_all text) args s =
      with_texts args (λ old new. str (replace_all text old new)) s
  apply_string (string_slice key text) args s = ok (str (slice_of args text), s)
  apply_string _ args s = ok (undefined, s)

  -- A function of an array.
  unfoldable pub apply_array : Builtin R → List (Value R) → Run R (Value R)
  unfolding join_items position_of slice_of items_at
  apply_array (array_join r) args s = join_items r args s
  apply_array (array_includes r) args s = ok (
    bool (elim (position_of s.cells (arg_at args 0) 0 (items_at s.cells r)) [
      | none ↦ false
      | some _ ↦ true
    ]),
    s,
  )
  apply_array (array_index_of r) args s =
      ok (position_value (position_of s.cells (arg_at args 0) 0 (items_at s.cells r)), s)
  apply_array (array_slice r) args s = new_array (slice_of args (items_at s.cells r)) s
  apply_array (array_callback name) args s = failed detached_method
  apply_array _ args s = ok (undefined, s)

  -- A function of `Object`.
  unfoldable pub apply_object : Builtin R → List (Value R) → Run R (Value R)
  unfolding sorted_keys pairs_of values_of
  apply_object object_keys args s =
      new_array (strings (sorted_keys (fields_of s.cells (arg_at args 0)))) s
  apply_object object_values args s =
      let fields = fields_of s.cells (arg_at args 0) in
      new_array (values_of fields (sorted_keys fields)) s
  apply_object object_entries args s =
      let fields = fields_of s.cells (arg_at args 0) in
      then_do (pairs_of fields (sorted_keys fields) s) λ (pairs, s'). new_array pairs s'
  apply_object _ args s = ok (undefined, s)

  -- `builtin.fn`
  unfoldable pub apply_builtin : Builtin R → List (Value R) → Run R (Value R)
  unfolding truthy to_number parse_leading_number fold_numbers parse_json stringify to_fixed
      format_number to_string apply_string apply_array apply_object
  apply_builtin string_fn args s = with_text (arg_at args 0) (λ t. str t) s
  apply_builtin boolean_fn args s = ok (bool (truthy h (arg_at args 0)), s)
  apply_builtin parse_float_fn args s =
      with_text (arg_at args 0) (λ t. num (parse_leading_number h t false)) s
  apply_builtin parse_int_fn args s =
      with_text (arg_at args 0) (λ t. num (parse_leading_number h t true)) s
  apply_builtin is_nan_fn args s = ok (bool (h.is_nan (to_number h (arg_at args 0))), s)
  apply_builtin (math_unary name f) args s = ok (num (f (to_number h (arg_at args 0))), s)
  apply_builtin math_pow args s =
      ok (num (h.pow (to_number h (arg_at args 0)) (to_number h (arg_at args 1))), s)
  apply_builtin math_max args s = ok (num (fold_numbers h.max (h.negate h.infinity) args), s)
  apply_builtin math_min args s = ok (num (fold_numbers h.min h.infinity args), s)
  apply_builtin json_parse args s =
      then_do (to_string h s.cells (arg_at args 0)) λ text. parse_json text s
  apply_builtin json_stringify args s =
      then_do (stringify s.cells (arg_at args 0)) λ text. ok (str text, s)
  apply_builtin object_keys args s = apply_object object_keys args s
  apply_builtin object_values args s = apply_object object_values args s
  apply_builtin object_entries args s = apply_object object_entries args s
  apply_builtin array_is_array args s = ok (bool (is_array (arg_at args 0)), s)
  apply_builtin number_is_finite args s =
      let v = to_number h (arg_at args 0) in
      done (bool (not (h.is_nan v) && not (is_infinite h v))) s
  apply_builtin number_is_nan args s = ok (bool (is_nan_number (arg_at args 0)), s)
  apply_builtin number_parse_float args s =
      with_text (arg_at args 0) (λ t. num (parse_leading_number h t false)) s
  apply_builtin (array_join r) args s = apply_array (array_join r) args s
  apply_builtin (array_includes r) args s = apply_array (array_includes r) args s
  apply_builtin (array_index_of r) args s = apply_array (array_index_of r) args s
  apply_builtin (array_slice r) args s = apply_array (array_slice r) args s
  apply_builtin (array_callback name) args s = apply_array (array_callback name) args s
  apply_builtin (number_to_fixed v) args s = then_do (to_fixed v args) λ r. ok (r, s)
  apply_builtin (number_to_string v) args s = ok (str (format_number h v), s)
  apply_builtin b args s = apply_string b args s
