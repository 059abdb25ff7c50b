-- ===== src/Script/Values/Settled.antt =====
-- The functions of internal/script/builtins.go and the conversions of eval.go end, and count no step. On
-- an array or a map that holds itself the end is the overflow of the stack.
use laskah.Prelude.{
  ℕ, zero, suc, ◌≡◌, refl, ◌∙◌, Bool, true, false, Option, none, some, List, [], ◌∷◌, if◌then◌else◌,
  leb, length,
}
use laskah.Prelude.Text.{Text, text_eq}
use laskah.Script.Outcome.{
  Outcome, ok, failed, bad_json, json_too_long, Yields, value, refused, Yields-then, Yields-if,
  Yields-map, Yields-exactly,
}
use laskah.Script.Lexer.Literals.{byte_length}
use laskah.Script.Values.{
  Json, json_null, json_bool, json_number, json_exact, json_string, json_array, json_object, Jsons,
  no_jsons, json_then, JsonFields, no_fields, field_then, Host, Builtin, Value, null, undefined,
  bool, num, str, object, array, callable, builtin, Cell, Interp, items_at, fields_at, Run,
  stop_with, max_string_len,
}
use laskah.Script.Values.Convert.{is_nullish, is_undefined, texts_of, text_within, to_string}
use laskah.Script.Values.Global.{
  export_items, export_fields, export_within, export_value, normalize, normalize_items,
  normalize_fields, new_functions, host_object,
}
use laskah.Script.Values.Methods.{method}
use laskah.Script.Values.Apply.{stringify, parse_json}

-- The outcome is a value or an error.
abbrev pub Settles {ℓ} : {A : Type ℓ} → Outcome A → Type ℓ
Settles o = Yields (λ _. Unit {0}) o

pub Settles-exactly : {A : Type 0} {o : Outcome A} → Settles o → Yields (λ v. o ≡ ok v) o
Settles-exactly y = Yields-map (λ v q. q.1) (Yields-exactly y)

module _ {R : Type 0} where
  -- It ends with the count of steps as it was.
  abbrev pub Still : {A : Type 0} → Run R A → Type 0
  Still m = (s : Interp R) → Yields (λ x. x.1.steps ≡ s.steps) (m s)

  -- A run that may be missing ends without a step.
  pub data StillOption : Option (Run R (Value R)) → Type 0 where
    absent : StillOption none
    present : {m : Run R (Value R)} → Still m → StillOption (some m)

  pub StillOption-if :
      (test : Bool) {first other : Option (Run R (Value R))}
      → StillOption first
      → StillOption other
      → StillOption (if test then first else other)
  StillOption-if true y n = y
  StillOption-if false y n = n

  -- A test between two runs.
  pub Yields-choose {κ} :
      {A : Type 0} {P : A × Interp R → Type κ} (test : Bool) (m k : Run R A) (s : Interp R)
      → (test ≡ true → Yields P (m s))
      → (test ≡ false → Yields P (k s))
      → Yields P ((if test then m else k) s)
  Yields-choose true m k s y n = y refl
  Yields-choose false m k s y n = n refl

  export_items-Settles :
      (export : Value R → Outcome (Json R)) (items : List (Value R))
      → ((v : Value R) → Settles (export v))
      → Settles (export_items export items)
  unfolding export_items
  export_items-Settles export [] k = value tt
  export_items-Settles export (item ∷ items) k =
      Yields-then (k item) λ _ _. Yields-then (export_items-Settles export items k) λ _ _. value tt

  export_fields-Settles :
      (export : Value R → Outcome (Json R)) (fields : List (Text × Value R))
      → ((v : Value R) → Settles (export v))
      → Settles (export_fields export fields)
  unfolding export_fields
  export_fields-Settles export [] k = value tt
  export_fields-Settles export ((key, item) ∷ fields) k =
      Yields-if (is_undefined item) (λ _. export_fields-Settles export fields k)
        (λ _.
          Yields-then (k item)
            λ _ _. Yields-then (export_fields-Settles export fields k) λ _ _. value tt)

  export_within-Settles :
      (n : ℕ) (cells : List (Cell R)) (v : Value R) → Settles (export_within n cells v)
  unfolding export_within
  export_within-Settles n cells undefined = value tt
  export_within-Settles n cells null = value tt
  export_within-Settles n cells (bool b) = value tt
  export_within-Settles n cells (num v) = value tt
  export_within-Settles n cells (str text) = value tt
  export_within-Settles n cells (callable i params body scope) = value tt
  export_within-Settles n cells (builtin i b) = value tt
  export_within-Settles zero cells (array r) = refused
  export_within-Settles zero cells (object r) = refused
  export_within-Settles (suc n) cells (array r) =
      Yields-then
        (export_items-Settles (export_within n cells) (items_at cells r)
          (export_within-Settles n cells))
        λ _ _. value tt
  export_within-Settles (suc n) cells (object r) =
      Yields-then
        (export_fields-Settles (export_within n cells) (fields_at cells r)
          (export_within-Settles n cells))
        λ _ _. value tt

  new_functions-Still : (functions : List (Text × Builtin R)) → Still (new_functions functions)
  unfolding new_functions
  new_functions-Still [] s = value refl
  new_functions-Still ((name, b) ∷ rest) s = Yields-then (new_functions-Still rest _) λ x q. value q

  pub host_object-Still : (functions : List (Text × Builtin R)) → Still (host_object functions)
  unfolding host_object
  host_object-Still functions s = Yields-then (new_functions-Still functions s) λ x q. value q

  pub method-Still : (o : Option (Builtin R)) → Still (method o)
  unfolding method
  method-Still none s = value refl
  method-Still (some b) s = value refl

module _ {R : Type 0} (h : Host R) where
  texts_of-Settles :
      (text : Value R → Outcome Text) (items : List (Value R))
      → ((v : Value R) → Settles (text v))
      → Settles (texts_of h text items)
  unfolding texts_of
  texts_of-Settles text [] k = value tt
  texts_of-Settles text (item ∷ items) k =
      Yields-then (first (is_nullish item))
        λ _ _. Yields-then (texts_of-Settles text items k) λ _ _. value tt
    where
      first :
          (b : Bool) → Settles (elim b as (λ _. Outcome Text) [ true ↦ ok [] | false ↦ text item ])
      first true = value tt
      first false = k item

  text_within-Settles :
      (n : ℕ) (cells : List (Cell R)) (v : Value R) → Settles (text_within h n cells v)
  unfolding text_within
  text_within-Settles n cells undefined = value tt
  text_within-Settles n cells null = value tt
  text_within-Settles n cells (bool b) = value tt
  text_within-Settles n cells (num v) = value tt
  text_within-Settles n cells (str text) = value tt
  text_within-Settles n cells (callable i params body scope) = value tt
  text_within-Settles n cells (builtin i b) = value tt
  text_within-Settles n cells (object r) = value tt
  text_within-Settles zero cells (array r) = refused
  text_within-Settles (suc n) cells (array r) =
      Yields-then
        (texts_of-Settles (text_within h n cells) (items_at cells r) (text_within-Settles n cells))
        λ _ _. value tt

  pub to_string-Settles : (cells : List (Cell R)) (v : Value R) → Settles (to_string h cells v)
  unfolding to_string
  to_string-Settles cells v = text_within-Settles (suc (length cells)) cells v

  pub all_texts-Settles :
      (cells : List (Cell R)) (items : List (Value R))
      → Settles (texts_of h (to_string h cells) items)
  all_texts-Settles cells items =
      texts_of-Settles (to_string h cells) items (to_string-Settles cells)

  pub stringify-Settles : (cells : List (Cell R)) (v : Value R) → Settles (stringify h cells v)
  unfolding stringify export_value
  stringify-Settles cells v =
      Yields-then (export_within-Settles (suc (length cells)) cells v) λ j _. from (h.encode_json j)
    where
      from :
          (o : Option Text)
          → Settles (elim o as (λ _. Outcome Text) [
            | none ↦ failed bad_json
            | some text ↦
                if leb (byte_length text) max_string_len then ok text else failed json_too_long
          ])
      from none = refused
      from (some text) =
          Yields-if (leb (byte_length text) max_string_len) (λ _. value tt) (λ _. refused)

  mutual
    unfolding normalize

    normalize-Still : (j : Json R) → Still (normalize h j)
    normalize-Still json_null s = value refl
    normalize-Still (json_bool b) s = value refl
    normalize-Still (json_number v) s = value refl
    normalize-Still (json_exact text) s = value refl
    normalize-Still (json_string text) s = value refl
    normalize-Still (json_array js) s = Yields-then (normalize_items-Still js s) λ x q. value q
    normalize-Still (json_object js) s = Yields-then (normalize_fields-Still js s) λ x q. value q

    normalize_items-Still : (js : Jsons R) → Still (normalize_items h js)
    normalize_items-Still no_jsons s = value refl
    normalize_items-Still (json_then j js) s =
        Yields-then (normalize-Still j s)
          λ x q. Yields-then (normalize_items-Still js x.1) λ y q'. value (q' ∙ q)

    normalize_fields-Still : (js : JsonFields R) → Still (normalize_fields h js)
    normalize_fields-Still no_fields s = value refl
    normalize_fields-Still (field_then key j js) s =
        Yields-then (normalize-Still j s)
          λ x q. Yields-then (normalize_fields-Still js x.1) λ y q'. value (q' ∙ q)

  pub normalized-Still : (j : Json R) → Still (normalize h j)
  normalized-Still j s = normalize-Still j s

  pub parse_json-Still : (text : Text) → Still (parse_json h text)
  unfolding parse_json
  parse_json-Still text s =
      Yields-choose (leb (byte_length text) max_string_len) _ (stop_with json_too_long) s
        (λ _. from (h.decode_json text)) (λ _. refused)
    where
      from :
          (o : Option (Json R))
          → Yields
              (λ x. x.1.steps ≡ s.steps)
              ((elim o as (λ _. Run R (Value R)) [
                | none ↦ stop_with bad_json
                | some j ↦ normalize h j
              ])
                s)
      from none = refused
      from (some j) = normalize-Still j s
