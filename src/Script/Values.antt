-- ===== src/Script/Values.antt =====
-- internal/script/eval.go and builtins.go: the values and the state of an execution. A map or a slice is
-- a reference into the list of cells, which the values share; a scope is the chain of its frames, the
-- innermost first, of which each is a reference into the list of frames. The functions of Go's packages
-- math, strconv, strings and encoding/json on floats, letters and JSON texts are parameters.
pub mod Convert
pub mod Texts
pub mod Global
pub mod Methods
pub mod Apply
pub mod Settled
pub mod Found
pub mod Applied
pub mod Cycles
use laskah.Prelude.{
  ℕ, suc, ◌+◌, Bool, true, false, ◌||◌, Option, none, some, List, [], ◌∷◌, ◌++◌, if◌then◌else◌, leb,
  length, get_elem?, set,
}
use laskah.Prelude.Text.{Text, codes, text_eq}
use laskah.Prelude.Maps.{lookup, insert}
use laskah.Prelude.Int.{ℤ}
use laskah.Prelude.Float.{Float}
use laskah.Script.Outcome.{Fault, too_many_steps, Outcome, ok, failed, then_do}
use laskah.Script.Lexer.{Reader}
use laskah.Script.Syntax.{Body}

mutual
  -- What `json.Unmarshal` decodes and `json.Marshal` encodes; `exact` is a `json.Number`.
  pub data Json (R : Type 0) : Type 0 where
    json_null : Json R
    json_bool : Bool → Json R
    json_number : R → Json R
    json_exact : Text → Json R
    json_string : Text → Json R
    json_array : Jsons R → Json R
    json_object : JsonFields R → Json R

  pub data Jsons (R : Type 0) : Type 0 where
    no_jsons : Jsons R
    json_then : Json R → Jsons R → Jsons R

  pub data JsonFields (R : Type 0) : Type 0 where
    no_fields : JsonFields R
    field_then : Text → Json R → JsonFields R → JsonFields R

pub record Host (R : Type 0) : Type 0 where
  pub float : Float R
  pub reader : Reader R
  pub nan : R
  pub infinity : R
  pub is_nan : R → Bool
  pub negate : R → R
  -- `math.Mod`, `math.Pow`, `math.Max`, `math.Min`.
  pub mod_of : R → R → R
  pub pow : R → R → R
  pub max : R → R → R
  pub min : R → R → R
  -- `math.Abs`, `math.Floor`, `math.Ceil`, `math.Trunc`, `math.Sqrt`, `math.Log`.
  pub abs : R → R
  pub floor : R → R
  pub ceil : R → R
  pub truncate : R → R
  pub sqrt : R → R
  pub log : R → R
  -- `int(x)`, and `strconv.FormatFloat(x, 'f', digits, 64)` with the digits needed, or a number of them.
  pub to_int : R → ℤ
  pub format_plain : R → Text
  pub format_fixed : ℕ → R → Text
  pub to_lower : Text → Text
  pub to_upper : Text → Text
  pub decode_json : Text → Option (Json R)
  pub encode_json : Json R → Option Text

-- The functions of the host, with the value that they are bound to.
pub data Builtin (R : Type 0) : Type 0 where
  string_fn boolean_fn parse_float_fn parse_int_fn is_nan_fn : Builtin R
  -- A function of `Math` of one argument, and `pow`, `max` and `min`.
  math_unary : Text → (R → R) → Builtin R
  math_pow math_max math_min : Builtin R
  json_parse json_stringify : Builtin R
  object_keys object_values object_entries : Builtin R
  array_is_array : Builtin R
  number_is_finite number_is_nan number_parse_float : Builtin R
  array_join array_includes array_index_of array_slice : ℕ → Builtin R
  -- `map`, `filter` and the like, which `arrayMethod` handles.
  array_callback : Text → Builtin R
  -- A method of a string that only depends on it.
  string_plain : Text → Text → Builtin R
  string_includes string_starts_with string_ends_with string_index_of : Text → Builtin R
  string_split string_replace string_replace_all : Text → Builtin R
  -- `slice` and `substring`.
  string_slice : Text → Text → Builtin R
  number_to_fixed number_to_string : R → Builtin R

-- A function is a pointer: the number tells it from the others.
pub data Value (R : Type 0) : Type 0 where
  null undefined : Value R
  bool : Bool → Value R
  num : R → Value R
  str : Text → Value R
  object array : ℕ → Value R
  callable : ℕ → List Text → Body R → List ℕ → Value R
  builtin : ℕ → Builtin R → Value R

pub data Cell (R : Type 0) : Type 0 where
  map_cell : List (Text × Value R) → Cell R
  slice_cell : List (Value R) → Cell R

pub record Interp (R : Type 0) : Type 0 where
  pub steps : ℕ
  pub cells : List (Cell R)
  pub frames : List (List (Text × Value R))
  -- How many functions were made.
  pub functions : ℕ

abbrev pub max_steps : ℕ
max_steps = 200000

abbrev pub max_string_len : ℕ
max_string_len = 1048576

abbrev pub max_array_len : ℕ
max_array_len = 100000

abbrev pub Run : Type 0 → Type 0 → Type 0
Run R A = Interp R → Outcome (A × Interp R)

module _ {R : Type 0} where
  abbrev pub done : {A : Type 0} → A → Run R A
  done v s = ok (v, s)

  abbrev pub stop_with : {A : Type 0} → Fault → Run R A
  stop_with w s = failed w

  infixl 1 ◌>>=◌ ◌>>◌
  abbrev pub ◌>>=◌ : {A B : Type 0} → Run R A → (A → Run R B) → Run R B
  m >>= k = λ s. then_do (m s) λ (v, s'). k v s'

  abbrev pub ◌>>◌ : {B : Type 0} → Run R (Unit {0}) → Run R B → Run R B
  m >> k = m >>= λ _. k

  unfoldable pub tick : Run R (Unit {0})
  tick s =
      if leb (s.steps + 1) max_steps
      then ok (tt, record s { steps = s.steps + 1 })
      else failed too_many_steps

  -- The maps and slices behind the references.
  unfoldable pub items_at : List (Cell R) → ℕ → List (Value R)
  items_at cells r = elim (get_elem? cells r) [
    | some (slice_cell items) ↦ items
    | some (map_cell fields) ↦ []
    | none ↦ []
  ]

  unfoldable pub fields_at : List (Cell R) → ℕ → List (Text × Value R)
  fields_at cells r = elim (get_elem? cells r) [
    | some (map_cell fields) ↦ fields
    | some (slice_cell items) ↦ []
    | none ↦ []
  ]

  abbrev pub new_array : List (Value R) → Run R (Value R)
  new_array items s =
      ok (array (length s.cells), record s { cells = s.cells ++ slice_cell items ∷ [] })

  abbrev pub new_object : List (Text × Value R) → Run R (Value R)
  new_object fields s =
      ok (object (length s.cells), record s { cells = s.cells ++ map_cell fields ∷ [] })

  abbrev pub put_cell : ℕ → Cell R → Run R (Unit {0})
  put_cell r cell s = ok (tt, record s { cells = set s.cells r cell })

  abbrev pub new_builtin : Builtin R → Run R (Value R)
  new_builtin b s = ok (builtin s.functions b, record s { functions = s.functions + 1 })

  abbrev pub new_callable : List Text → Body R → List ℕ → Run R (Value R)
  new_callable params body scope s =
      ok (callable s.functions params body scope, record s { functions = s.functions + 1 })

  -- `newScope` with the variables that it gets at once.
  abbrev pub new_scope : List (Text × Value R) → List ℕ → Run R (List ℕ)
  new_scope vars parent s =
      ok (length s.frames ∷ parent, record s { frames = s.frames ++ vars ∷ [] })

  unfoldable pub vars_at : List (List (Text × Value R)) → ℕ → List (Text × Value R)
  vars_at frames r = elim (get_elem? frames r) [ none ↦ [] | some vars ↦ vars ]

  -- `scope.lookup`
  unfoldable pub lookup_var : List (List (Text × Value R)) → List ℕ → Text → Option (Value R)
  unfolding lookup vars_at
  lookup_var frames [] name = none
  lookup_var frames (r ∷ scope) name =
      let outer = lookup_var frames scope name in
      elim (lookup name (vars_at frames r)) [ some v ↦ some v | none ↦ outer ]

  unfoldable pub set_var : ℕ → Text → Value R → Interp R → Interp R
  unfolding insert vars_at
  set_var r name v s = record s { frames = set s.frames r (insert name v (vars_at s.frames r)) }

  -- `sc.vars[name] = value`
  unfoldable pub declare_var : List ℕ → Text → Value R → Run R (Unit {0})
  unfolding set_var
  declare_var [] name v s = ok (tt, s)
  declare_var (r ∷ scope) name v s = ok (tt, set_var r name v s)

  -- `scope.assign`: whether the variable was found.
  unfoldable pub assign_var : List ℕ → Text → Value R → Run R Bool
  unfolding lookup vars_at set_var
  assign_var [] name v s = ok (false, s)
  assign_var (r ∷ scope) name v s =
      let outer = assign_var scope name v s in
      elim (lookup name (vars_at s.frames r)) [
        | some _ ↦ ok (true, set_var r name v s)
        | none ↦ outer
      ]
