-- ===== src/Script/Values/Applied.antt =====
-- The functions of internal/script/builtins.go, applied to arguments, end and count no step.
use laskah.Prelude.{ℕ, refl, List, [], ◌∷◌, if◌then◌else◌, leb}
use laskah.Prelude.Text.{Text, text_eq}
use laskah.Prelude.Int.{ℤ, pos, negsuc}
use laskah.Script.Outcome.{Outcome, ok, failed, bad_digits, value, refused, Yields-then, Yields-if}
use laskah.Script.Values.{
  Host, Builtin, string_fn, boolean_fn, parse_float_fn, parse_int_fn, is_nan_fn, math_unary,
  math_pow, math_max, math_min, json_parse, json_stringify, object_keys, object_values,
  object_entries, array_is_array, number_is_finite, number_is_nan, number_parse_float, array_join,
  array_includes, array_index_of, array_slice, array_callback, string_plain, string_includes,
  string_starts_with, string_ends_with, string_index_of, string_split, string_replace,
  string_replace_all, string_slice, number_to_fixed, number_to_string, Value, str, items_at,
}
use laskah.Script.Values.Convert.{to_number}
use laskah.Script.Values.Global.{sorted_keys, fields_of}
use laskah.Script.Values.Methods.{arg_at}
use laskah.Script.Values.Apply.{
  pairs_of, to_fixed, join_items, apply_string, apply_array, apply_object, apply_builtin,
}
use laskah.Script.Values.Settled.{
  Settles, Still, to_string-Settles, all_texts-Settles, stringify-Settles, parse_json-Still,
}

module _ {R : Type 0} (h : Host R) where
  pairs_of-Still :
      (fields : List (Text × Value R)) (keys : List Text) → Still (pairs_of h fields keys)
  unfolding pairs_of
  pairs_of-Still fields [] s = value refl
  pairs_of-Still fields (key ∷ keys) s = Yields-then (pairs_of-Still fields keys _) λ x q. value q

  to_fixed-Settles : (v : R) (args : List (Value R)) → Settles (to_fixed h v args)
  unfolding to_fixed
  to_fixed-Settles v [] = value tt
  to_fixed-Settles v (digits ∷ args) = from (h.to_int (to_number h digits))
    where
      from :
          (i : ℤ)
          → Settles (elim i as (λ _. Outcome (Value R)) [
            | pos n ↦ if leb n 20 then ok (str (h.format_fixed n v)) else failed bad_digits
            | negsuc n ↦ failed bad_digits
          ])
      from (pos n) = Yields-if (leb n 20) (λ _. value tt) (λ _. refused)
      from (negsuc n) = refused

  join_items-Still : (r : ℕ) (args : List (Value R)) → Still (join_items h r args)
  unfolding join_items
  join_items-Still r [] s =
      Yields-then (all_texts-Settles h s.cells (items_at s.cells r)) λ _ _. value refl
  join_items-Still r (v ∷ args) s =
      Yields-then (to_string-Settles h s.cells v)
        λ _ _. Yields-then (all_texts-Settles h s.cells (items_at s.cells r)) λ _ _. value refl

  apply_string-Still : (b : Builtin R) (args : List (Value R)) → Still (apply_string h b args)
  unfolding apply_string
  apply_string-Still (string_plain key text) args s = value refl
  apply_string-Still (string_includes text) args s =
      Yields-then (to_string-Settles h s.cells (arg_at args 0)) λ _ _. value refl
  apply_string-Still (string_starts_with text) args s =
      Yields-then (to_string-Settles h s.cells (arg_at args 0)) λ _ _. value refl
  apply_string-Still (string_ends_with text) args s =
      Yields-then (to_string-Settles h s.cells (arg_at args 0)) λ _ _. value refl
  apply_string-Still (string_index_of text) args s =
      Yields-then (to_string-Settles h s.cells (arg_at args 0)) λ _ _. value refl
  apply_string-Still (string_split text) args s =
      Yields-then (to_string-Settles h s.cells (arg_at args 0)) λ _ _. value refl
  apply_string-Still (string_replace text) args s =
      Yields-then (to_string-Settles h s.cells (arg_at args 0))
        λ _ _. Yields-then (to_string-Settles h s.cells (arg_at args 1)) λ _ _. value refl
  apply_string-Still (string_replace_all text) args s =
      Yields-then (to_string-Settles h s.cells (arg_at args 0))
        λ _ _. Yields-then (to_string-Settles h s.cells (arg_at args 1)) λ _ _. value refl
  apply_string-Still (string_slice key text) args s = value refl
  apply_string-Still _ args s = value refl

  apply_array-Still : (b : Builtin R) (args : List (Value R)) → Still (apply_array h b args)
  unfolding apply_array
  apply_array-Still (array_join r) args s = join_items-Still r args s
  apply_array-Still (array_includes r) args s = value refl
  apply_array-Still (array_index_of r) args s = value refl
  apply_array-Still (array_slice r) args s = value refl
  apply_array-Still (array_callback name) args s = refused
  apply_array-Still _ args s = value refl

  apply_object-Still : (b : Builtin R) (args : List (Value R)) → Still (apply_object h b args)
  unfolding apply_object
  apply_object-Still object_keys args s = value refl
  apply_object-Still object_values args s = value refl
  apply_object-Still object_entries args s =
      let fields = fields_of s.cells (arg_at args 0) in
      Yields-then (pairs_of-Still fields (sorted_keys fields) s) λ x q. value q
  apply_object-Still _ args s = value refl

  pub apply_builtin-Still : (b : Builtin R) (args : List (Value R)) → Still (apply_builtin h b args)
  unfolding apply_builtin
  apply_builtin-Still string_fn args s =
      Yields-then (to_string-Settles h s.cells (arg_at args 0)) λ _ _. value refl
  apply_builtin-Still boolean_fn args s = value refl
  apply_builtin-Still parse_float_fn args s =
      Yields-then (to_string-Settles h s.cells (arg_at args 0)) λ _ _. value refl
  apply_builtin-Still parse_int_fn args s =
      Yields-then (to_string-Settles h s.cells (arg_at args 0)) λ _ _. value refl
  apply_builtin-Still is_nan_fn args s = value refl
  apply_builtin-Still (math_unary name f) args s = value refl
  apply_builtin-Still math_pow args s = value refl
  apply_builtin-Still math_max args s = value refl
  apply_builtin-Still math_min args s = value refl
  apply_builtin-Still json_parse args s =
      Yields-then (to_string-Settles h s.cells (arg_at args 0)) λ text _. parse_json-Still h text s
  apply_builtin-Still json_stringify args s =
      Yields-then (stringify-Settles h s.cells (arg_at args 0)) λ _ _. value refl
  apply_builtin-Still object_keys args s = apply_object-Still object_keys args s
  apply_builtin-Still object_values args s = apply_object-Still object_values args s
  apply_builtin-Still object_entries args s = apply_object-Still object_entries args s
  apply_builtin-Still array_is_array args s = value refl
  apply_builtin-Still number_is_finite args s = value refl
  apply_builtin-Still number_is_nan args s = value refl
  apply_builtin-Still number_parse_float args s =
      Yields-then (to_string-Settles h s.cells (arg_at args 0)) λ _ _. value refl
  apply_builtin-Still (array_join r) args s = apply_array-Still (array_join r) args s
  apply_builtin-Still (array_includes r) args s = apply_array-Still (array_includes r) args s
  apply_builtin-Still (array_index_of r) args s = apply_array-Still (array_index_of r) args s
  apply_builtin-Still (array_slice r) args s = apply_array-Still (array_slice r) args s
  apply_builtin-Still (array_callback name) args s = apply_array-Still (array_callback name) args s
  apply_builtin-Still (number_to_fixed v) args s =
      Yields-then (to_fixed-Settles v args) λ _ _. value refl
  apply_builtin-Still (number_to_string v) args s = value refl
  apply_builtin-Still (string_plain key text) args s =
      apply_string-Still (string_plain key text) args s
  apply_builtin-Still (string_includes text) args s =
      apply_string-Still (string_includes text) args s
  apply_builtin-Still (string_starts_with text) args s =
      apply_string-Still (string_starts_with text) args s
  apply_builtin-Still (string_ends_with text) args s =
      apply_string-Still (string_ends_with text) args s
  apply_builtin-Still (string_index_of text) args s =
      apply_string-Still (string_index_of text) args s
  apply_builtin-Still (string_split text) args s = apply_string-Still (string_split text) args s
  apply_builtin-Still (string_replace text) args s = apply_string-Still (string_replace text) args s
  apply_builtin-Still (string_replace_all text) args s =
      apply_string-Still (string_replace_all text) args s
  apply_builtin-Still (string_slice key text) args s =
      apply_string-Still (string_slice key text) args s
