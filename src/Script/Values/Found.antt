-- ===== src/Script/Values/Found.antt =====
-- internal/script/builtins.go: looking up a global name or a property ends, and counts no step.
use laskah.Prelude.{ℕ, ◌≡◌, refl, Option, none, some, ◌==◌}
use laskah.Prelude.Text.{Text, codes, text_eq}
use laskah.Prelude.Maps.{lookup}
use laskah.Prelude.Int.{ℤ}
use laskah.Script.Outcome.{Outcome, ok, Yields, value, Yields-if}
use laskah.Script.Values.{
  Host, Builtin, string_fn, boolean_fn, parse_float_fn, parse_int_fn, is_nan_fn, new_builtin, Value,
  null, undefined, bool, num, str, object, array, callable, builtin, Interp, items_at, fields_at,
}
use laskah.Script.Values.Global.{
  math_functions, json_functions, object_functions, array_functions, number_functions, math_object,
  json_object_value, object_object, array_object, number_object, global_value, global_function,
  global_number,
}
use laskah.Script.Values.Methods.{
  method, array_property, string_property, get_property, array_method_of, string_method_of,
  number_method_of, item_at,
}
use laskah.Script.Values.Texts.{atoi}
use laskah.Script.Values.Settled.{
  Still, StillOption, absent, present, StillOption-if, Yields-choose, host_object-Still,
  method-Still,
}

module _ {R : Type 0} (h : Host R) where
  Still-value : (v : Value R) → Still {R = R} {A = Value R} (λ s. ok (v, s))
  Still-value v s = value refl

  Still-builtin : (b : Builtin R) → Still (new_builtin b)
  Still-builtin b s = value refl

  global_function-Still : (name : Text) → StillOption (global_function h name)
  unfolding global_function global_number
  global_function-Still name =
      StillOption-if (name == codes "String") (present (Still-builtin string_fn)) (
        StillOption-if (name == codes "Boolean") (present (Still-builtin boolean_fn)) (
          StillOption-if (name == codes "parseFloat") (present (Still-builtin parse_float_fn)) (
            StillOption-if (name == codes "parseInt") (present (Still-builtin parse_int_fn)) (
              StillOption-if (name == codes "isNaN") (present (Still-builtin is_nan_fn)) (
                StillOption-if (name == codes "NaN") (present (Still-value (num h.nan))) (
                  StillOption-if (name == codes "Infinity") (present (Still-value (num h.infinity)))
                    absent))))))

  pub global_value-Still : (name : Text) → StillOption (global_value h name)
  unfolding global_value math_object json_object_value object_object array_object number_object
  global_value-Still name =
      StillOption-if (name == codes "Math") (present (host_object-Still (math_functions h))) (
        StillOption-if (name == codes "JSON") (present (host_object-Still json_functions)) (
          StillOption-if (name == codes "Object") (present (host_object-Still object_functions)) (
            StillOption-if (name == codes "Array") (present (host_object-Still array_functions)) (
              StillOption-if (name == codes "Number") (present (host_object-Still number_functions))
                (global_function-Still name)))))

  array_property-Still : (r : ℕ) (key : Text) → Still (array_property h r key)
  unfolding array_property
  array_property-Still r key s =
      Yields-if (key == codes "length") (λ _. value refl) (λ _. from (atoi key))
    where
      from :
          (o : Option ℤ)
          → Yields
              (λ x. x.1.steps ≡ s.steps)
              (elim o as (λ _. Outcome (Value R × Interp R)) [
                | some i ↦ ok (item_at (items_at s.cells r) i, s)
                | none ↦ method (array_method_of r key) s
              ])
      from (some i) = value refl
      from none = method-Still (array_method_of r key) s

  string_property-Still : (text key : Text) → Still (string_property h text key)
  unfolding string_property
  string_property-Still text key s =
      Yields-choose (key == codes "length") _ (method (string_method_of text key)) s
        (λ _. value refl) (λ _. method-Still (string_method_of text key) s)

  pub get_property-Still : (v : Value R) (key : Text) → Still (get_property h v key)
  unfolding get_property
  get_property-Still (object r) key s = from (lookup key (fields_at s.cells r))
    where
      from :
          (o : Option (Value R))
          → Yields
              (λ x. x.1.steps ≡ s.steps)
              (elim o as (λ _. Outcome (Value R × Interp R)) [
                | some v ↦ ok (v, s)
                | none ↦ ok (undefined, s)
              ])
      from none = value refl
      from (some v) = value refl
  get_property-Still (array r) key s = array_property-Still r key s
  get_property-Still (str text) key s = string_property-Still text key s
  get_property-Still (num v) key s = method-Still (number_method_of v key) s
  get_property-Still null key s = value refl
  get_property-Still undefined key s = value refl
  get_property-Still (bool b) key s = value refl
  get_property-Still (callable i params body scope) key s = value refl
  get_property-Still (builtin i b) key s = value refl
