-- ===== src/Script/Values/Methods.antt =====
-- internal/script/builtins.go: the properties of values (`getProperty`).
use laskah.Prelude.{
  ℕ, Bool, Option, none, some, List, [], ◌∷◌, ◌==◌, nat_eq, if◌then◌else◌, length, get_elem?, any,
}
use laskah.Prelude.Text.{Text, codes, text_eq}
use laskah.Prelude.Maps.{lookup}
use laskah.Prelude.Int.{ℤ, pos, negsuc}
use laskah.Script.Outcome.{ok}
use laskah.Script.Values.{
  Host, Builtin, math_unary, array_join, array_includes, array_index_of, array_slice,
  array_callback, string_plain, string_includes, string_starts_with, string_ends_with,
  string_index_of, string_split, string_replace, string_replace_all, string_slice, number_to_fixed,
  number_to_string, Value, undefined, num, str, object, array, items_at, fields_at, Run, done,
  new_builtin,
}
use laskah.Script.Values.Texts.{atoi}

abbrev pub callback_names : List Text
callback_names =
    codes "map"
    ∷ codes "filter"
    ∷ codes "find"
    ∷ codes "some"
    ∷ codes "every"
    ∷ codes "reduce"
    ∷ codes "forEach"
    ∷ codes "sort"
    ∷ codes "concat"
    ∷ codes "push"
    ∷ []

abbrev pub is_one_of : List Text → Text → Bool
is_one_of names name = any (λ n. n == name) names

module _ {R : Type 0} where
  -- `argAt`
  abbrev pub arg_at : List (Value R) → ℕ → Value R
  arg_at args n = elim (get_elem? args n) [ none ↦ undefined | some v ↦ v ]

  -- A method of an array, if there is one of the name.
  unfoldable pub array_method_of : ℕ → Text → Option (Builtin R)
  unfolding any
  array_method_of r key =
      if key == codes "join"
      then some (array_join r)
      else (if key == codes "includes"
          then some (array_includes r)
          else (if key == codes "indexOf"
              then some (array_index_of r)
              else (if key == codes "slice"
                  then some (array_slice r)
                  else (if is_one_of callback_names key then some (array_callback key) else none))))

  unfoldable pub method : Option (Builtin R) → Run R (Value R)
  method none = done undefined
  method (some b) = new_builtin b

  -- The item at an index that may lie outside.
  unfoldable pub item_at : List (Value R) → ℤ → Value R
  item_at items (pos n) = arg_at items n
  item_at items (negsuc n) = undefined

  unfoldable pub string_method_of : Text → Text → Option (Builtin R)
  unfolding any
  string_method_of text key =
      if is_one_of
        (codes "trim" ∷ codes "toLowerCase" ∷ codes "toUpperCase" ∷ codes "toString" ∷ []) key
      then some (string_plain key text)
      else (if key == codes "includes"
          then some (string_includes text)
          else (if key == codes "startsWith"
              then some (string_starts_with text)
              else (if key == codes "endsWith"
                  then some (string_ends_with text)
                  else (if key == codes "indexOf"
                      then some (string_index_of text)
                      else (if key == codes "split"
                          then some (string_split text)
                          else (if key == codes "replace"
                              then some (string_replace text)
                              else (if key == codes "replaceAll"
                                  then some (string_replace_all text)
                                  else (if is_one_of (codes "slice" ∷ codes "substring" ∷ []) key
                                      then some (string_slice key text)
                                      else none))))))))

  unfoldable pub number_method_of : R → Text → Option (Builtin R)
  number_method_of v key =
      if key == codes "toFixed"
      then some (number_to_fixed v)
      else (if key == codes "toString" then some (number_to_string v) else none)

  -- `builtin.name`
  abbrev pub builtin_name : Builtin R → Text
  builtin_name (array_callback name) = name
  builtin_name (array_join r) = codes "join"
  builtin_name (array_includes r) = codes "includes"
  builtin_name (array_index_of r) = codes "indexOf"
  builtin_name (array_slice r) = codes "slice"
  builtin_name (math_unary name f) = name
  builtin_name _ = codes ""

module _ {R : Type 0} (h : Host R) where
  abbrev pub number_of : ℕ → Value R
  number_of n = num (h.float.of_ℕ n)

  unfoldable pub array_property : ℕ → Text → Run R (Value R)
  unfolding atoi item_at method array_method_of items_at
  array_property r key s =
      let items = items_at s.cells r in
      if key == codes "length" then ok (number_of (length items), s) else elim (atoi key) [
        | some i ↦ ok (item_at items i, s)
        | none ↦ method (array_method_of r key) s
      ]

  unfoldable pub string_property : Text → Text → Run R (Value R)
  unfolding method string_method_of
  string_property text key =
      if key == codes "length"
      then done (number_of (length text))
      else method (string_method_of text key)

  -- `getProperty`
  unfoldable pub get_property : Value R → Text → Run R (Value R)
  unfolding lookup fields_at array_property string_property method number_method_of
  get_property (object r) key s = elim (lookup key (fields_at s.cells r)) [
    | some v ↦ ok (v, s)
    | none ↦ ok (undefined, s)
  ]
  get_property (array r) key s = array_property r key s
  get_property (str text) key s = string_property text key s
  get_property (num v) key s = method (number_method_of v key) s
  get_property _ key s = ok (undefined, s)
