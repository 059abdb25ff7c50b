-- ===== src/Script/Values/Global.antt =====
-- internal/script/builtins.go and eval.go: the objects of the host, `normalize` and `exportValue`.
use laskah.Prelude.{
  ℕ, zero, suc, Bool, true, false, Option, none, some, List, [], ◌∷◌, ◌==◌, if◌then◌else◌, length,
  any, map,
}
use laskah.Prelude.Text.{Text, codes, text_eq, trim_space}
use laskah.Prelude.Maps.{insert}
use laskah.Prelude.Sorts.{sort_stable}
use laskah.Script.Outcome.{Outcome, ok, failed, then_do, stack_overflow}
use laskah.Script.Lexer.Literals.{is_decimal}
use laskah.Script.Values.{
  Json, json_null, json_bool, json_number, json_exact, json_string, json_array, json_object, Jsons,
  no_jsons, json_then, JsonFields, no_fields, field_then, Host, Builtin, string_fn, boolean_fn,
  parse_float_fn, parse_int_fn, is_nan_fn, math_unary, math_pow, math_max, math_min, json_parse,
  json_stringify, object_keys, object_values, object_entries, array_is_array, number_is_finite,
  number_is_nan, number_parse_float, Value, null, undefined, bool, num, str, object, array,
  callable, builtin, Cell, items_at, fields_at, Run, done, ◌>>=◌, new_array, new_object,
  new_builtin,
}
use laskah.Script.Values.Convert.{is_undefined, text_before}
use laskah.Script.Values.Texts.{leading_part, trim_dot}

module _ {R : Type 0} where
  -- `sortedKeys`
  unfoldable pub sorted_keys : List (Text × Value R) → List Text
  unfolding sort_stable text_before
  sorted_keys fields = sort_stable text_before (map (λ x. x.0) fields)

  abbrev pub fields_of : List (Cell R) → Value R → List (Text × Value R)
  fields_of cells (object r) = fields_at cells r
  fields_of cells _ = []

  -- Functions of the host under their names.
  unfoldable pub new_functions : List (Text × Builtin R) → Run R (List (Text × Value R))
  new_functions [] = done []
  new_functions ((name, b) ∷ rest) = do
    f ← new_builtin b
    fs ← new_functions rest
    done ((name, f) ∷ fs)

  unfoldable pub host_object : List (Text × Builtin R) → Run R (Value R)
  unfolding new_functions
  host_object functions = do fields ← new_functions functions; new_object fields

  abbrev pub json_functions : List (Text × Builtin R)
  json_functions = (codes "parse", json_parse) ∷ (codes "stringify", json_stringify) ∷ []

  unfoldable pub json_object_value : Run R (Value R)
  unfolding host_object
  json_object_value = host_object json_functions

  abbrev pub object_functions : List (Text × Builtin R)
  object_functions =
      (codes "keys", object_keys)
      ∷ (codes "values", object_values)
      ∷ (codes "entries", object_entries)
      ∷ []

  unfoldable pub object_object : Run R (Value R)
  unfolding host_object
  object_object = host_object object_functions

  abbrev pub array_functions : List (Text × Builtin R)
  array_functions = (codes "isArray", array_is_array) ∷ []

  unfoldable pub array_object : Run R (Value R)
  unfolding host_object
  array_object = host_object array_functions

  abbrev pub number_functions : List (Text × Builtin R)
  number_functions =
      (codes "isFinite", number_is_finite)
      ∷ (codes "isNaN", number_is_nan)
      ∷ (codes "parseFloat", number_parse_float)
      ∷ []

  unfoldable pub number_object : Run R (Value R)
  unfolding host_object
  number_object = host_object number_functions

  -- `exportValue` of the items of a slice, of the fields of a map without the undefined ones, and of
  -- a value to a depth.
  unfoldable pub export_items : (Value R → Outcome (Json R)) → List (Value R) → Outcome (Jsons R)
  export_items export [] = ok no_jsons
  export_items export (item ∷ items) =
      then_do (export item) λ j. then_do (export_items export items) λ js. ok (json_then j js)

  unfoldable pub export_fields :
      (Value R → Outcome (Json R)) → List (Text × Value R) → Outcome (JsonFields R)
  unfolding is_undefined
  export_fields export [] = ok no_fields
  export_fields export ((key, item) ∷ fields) =
      let later = export_fields export fields in
      if is_undefined item
      then later
      else (then_do (export item) λ j. then_do later λ js. ok (field_then key j js))

  unfoldable pub export_within : ℕ → List (Cell R) → Value R → Outcome (Json R)
  unfolding export_items export_fields items_at fields_at
  export_within n cells undefined = ok json_null
  export_within n cells null = ok json_null
  export_within n cells (bool b) = ok (json_bool b)
  export_within n cells (num v) = ok (json_number v)
  export_within n cells (str text) = ok (json_string text)
  export_within n cells (callable i params body scope) = ok json_null
  export_within n cells (builtin i b) = ok json_null
  export_within zero cells (array r) = failed stack_overflow
  export_within zero cells (object r) = failed stack_overflow
  export_within (suc n) cells (array r) =
      then_do (export_items (export_within n cells) (items_at cells r)) λ js. ok (json_array js)
  export_within (suc n) cells (object r) =
      then_do (export_fields (export_within n cells) (fields_at cells r)) λ js. ok (json_object js)

  -- `exportValue`, with the depth of `to_string`.
  unfoldable pub export_value : List (Cell R) → Value R → Outcome (Json R)
  unfolding export_within
  export_value cells v = export_within (suc (length cells)) cells v

module _ {R : Type 0} (h : Host R) where
  unfoldable pub exact_number : Text → Value R
  exact_number text = elim (h.reader.parse_float text) [ none ↦ str text | some v ↦ num v ]

  -- `normalize` of what `json.Unmarshal` decoded.
  unfoldable mutual
    unfolding exact_number insert

    pub normalize : Json R → Run R (Value R)
    normalize json_null = done null
    normalize (json_bool b) = done (bool b)
    normalize (json_number v) = done (num v)
    normalize (json_exact text) = done (exact_number text)
    normalize (json_string text) = done (str text)
    normalize (json_array js) = do items ← normalize_items js; new_array items
    normalize (json_object js) = do fields ← normalize_fields js; new_object fields

    pub normalize_items : Jsons R → Run R (List (Value R))
    normalize_items no_jsons = done []
    normalize_items (json_then j js) = do
      item ← normalize j
      items ← normalize_items js
      done (item ∷ items)

    pub normalize_fields : JsonFields R → Run R (List (Text × Value R))
    normalize_fields no_fields = done []
    normalize_fields (field_then key j js) = do
      item ← normalize j
      fields ← normalize_fields js
      done (insert key item fields)

  unfoldable pub parse_leading_number : Text → Bool → R
  unfolding leading_part trim_dot trim_space any
  parse_leading_number raw integer_only =
      let part = leading_part integer_only true false (trim_space raw) in
      let parsed : R = elim (h.reader.parse_float (trim_dot part)) [
        | none ↦ h.nan
        | some v ↦ if integer_only then h.truncate v else v
      ] in
      if any is_decimal part then parsed else h.nan

  abbrev pub math_functions : List (Text × Builtin R)
  math_functions =
      (codes "abs", math_unary (codes "abs") h.abs)
      ∷ (codes "floor", math_unary (codes "floor") h.floor)
      ∷ (codes "ceil", math_unary (codes "ceil") h.ceil)
      ∷ (codes "trunc", math_unary (codes "trunc") h.truncate)
      ∷ (codes "sqrt", math_unary (codes "sqrt") h.sqrt)
      ∷ (codes "log", math_unary (codes "log") h.log)
      ∷ (codes "round", math_unary (codes "round") (λ v. h.floor (h.float.plus v h.float.half)))
      ∷ (codes "pow", math_pow)
      ∷ (codes "max", math_max)
      ∷ (codes "min", math_min)
      ∷ []

  unfoldable pub math_object : Run R (Value R)
  unfolding host_object
  math_object = host_object math_functions

  unfoldable pub global_number : Text → Option (Run R (Value R))
  global_number name =
      if name == codes "NaN"
      then some (done (num h.nan))
      else (if name == codes "Infinity" then some (done (num h.infinity)) else none)

  unfoldable pub global_function : Text → Option (Run R (Value R))
  unfolding global_number
  global_function name =
      if name == codes "String"
      then some (new_builtin string_fn)
      else (if name == codes "Boolean"
          then some (new_builtin boolean_fn)
          else (if name == codes "parseFloat"
              then some (new_builtin parse_float_fn)
              else (if name == codes "parseInt"
                  then some (new_builtin parse_int_fn)
                  else (if name == codes "isNaN"
                      then some (new_builtin is_nan_fn)
                      else global_number name))))

  -- `globalValue`: the names that the host lends to a script.
  unfoldable pub global_value : Text → Option (Run R (Value R))
  unfolding math_object json_object_value object_object array_object number_object global_function
  global_value name =
      if name == codes "Math"
      then some math_object
      else (if name == codes "JSON"
          then some json_object_value
          else (if name == codes "Object"
              then some object_object
              else (if name == codes "Array"
                  then some array_object
                  else (if name == codes "Number"
                      then some number_object
                      else global_function name))))
