-- ===== src/Script/Program.antt =====
-- internal/script/script.go: a script that was checked, the request that it declares, and what is read
-- from its result. `url.Parse` is a parameter.
pub mod Templates
pub mod Requests
pub mod Results
pub mod Ends
pub mod Safe
pub mod Amounts
pub mod Guards
use laskah.Prelude.{
  ℕ, ◌+◌, Bool, true, false, ◌||◌, ◌&&◌, not, Option, none, some, List, [], ◌∷◌, ◌==◌, any, map,
  if◌then◌else◌, leb,
}
use laskah.Prelude.Text.{Text, codes, text_eq, trim_space}
use laskah.Prelude.Maps.{lookup, insert}
use laskah.Script.Outcome.{
  Outcome, ok, failed, out_of_fuel, then_do, no_source, source_too_long, no_extractor,
  bad_extractor, bad_placeholder, bad_url, bad_result, not_an_object,
}
use laskah.Script.Lexer.Literals.{byte_length}
use laskah.Script.Syntax.{Node}
use laskah.Script.Parser.Run.{parse_program}
use laskah.Script.Values.{
  Json, Host, Value, object, callable, Cell, Interp, fields_at, Run, ◌>>=◌, new_scope,
}
use laskah.Script.Values.Global.{normalize}
use laskah.Script.Values.Methods.{is_one_of}
use laskah.Script.Eval.Interpreter.{new_interp, interpreter}
use laskah.Script.Program.Templates.{placeholders, known_placeholders, substitute}
use laskah.Script.Program.Requests.{Request, read_request}
use laskah.Script.Program.Results.{Result, read_result}

abbrev pub max_source_bytes : ℕ
max_source_bytes = 16384

-- What `url.Parse` gives: the scheme, the host, and `String()` of it.
pub record Url : Type 0 where
  pub scheme : Text
  pub host : Text
  pub text : Text

pub record Program (R : Type 0) : Type 0 where
  pub source : Text
  pub ast : Node R
  pub method : Text

-- The text has a template variable that is not known.
unfoldable pub has_unknown : Text → Bool
unfolding placeholders any
has_unknown text = any (λ name. not (is_one_of known_placeholders name)) (placeholders text)

-- `checkPlaceholders`: whether a variable of the request is not known.
unfoldable pub check_placeholders : Request → Outcome (Unit {0})
unfolding has_unknown any
check_placeholders r =
    if has_unknown r.url || has_unknown r.body || any (λ (name, text). has_unknown text) r.headers
    then failed bad_placeholder
    else ok tt

-- A complete address of http or https.
abbrev pub is_web : Url → Bool
is_web u = not (u.host == codes "") && (u.scheme == codes "http" || u.scheme == codes "https")

-- The request with the variables put in.
unfoldable pub filled : Request → List (Text × Text) → Request
unfolding substitute
filled r vars = record r {
  url = substitute r.url vars;
  body = substitute r.body vars;
  headers = map (λ (name, text). (name, substitute text vars)) r.headers;
}

-- The request, if its address is complete.
unfoldable pub at_url : (Text → Option Url) → Request → Outcome Request
unfolding trim_space
at_url parse_url r = elim (parse_url (trim_space r.url)) [
  | none ↦ failed bad_url
  | some u ↦ if is_web u then ok (record r { url = u.text }) else failed bad_url
]

module _ {R : Type 0} where
  abbrev pub as_object : List (Cell R) → Value R → Option (List (Text × Value R))
  as_object cells (object r) = some (fields_at cells r)
  as_object cells _ = none

  abbrev pub is_callable : Value R → Bool
  is_callable (callable i params body scope) = true
  is_callable _ = false

  -- `config["extractor"]`, which has to be a function of the script.
  unfoldable pub find_extractor : List (Text × Value R) → Outcome (Value R)
  unfolding lookup
  find_extractor config = elim (lookup (codes "extractor") config) [
    | none ↦ failed no_extractor
    | some v ↦ if is_callable v then ok v else failed bad_extractor
  ]

  -- The same in `Extract`, where a missing one is no function either.
  unfoldable pub in_config : List (Text × Value R) → Outcome (Value R)
  unfolding find_extractor
  in_config config = elim (find_extractor config) [
    | ok v ↦ ok v
    | failed w ↦ failed bad_extractor
    | out_of_fuel ↦ out_of_fuel
  ]

module _ {R : Type 0} (h : Host R) where
  -- The value of the script, in a new scope.
  unfoldable pub run_script : Node R → Run R (Value R)
  run_script ast = do scope ← new_scope [] []; (interpreter h).eval ast scope

  -- `evalConfig`, with the state in which the references of the object are read.
  unfoldable pub eval_config : Node R → Outcome (List (Text × Value R) × Interp R)
  unfolding run_script fields_at
  eval_config ast = then_do (run_script ast new_interp) λ (v, s). elim (as_object s.cells v) [
    | none ↦ failed not_an_object
    | some config ↦ ok (config, s)
  ]

  -- The request of a script, checked in the order of `Parse`.
  unfoldable pub check_config : List (Text × Value R) → Interp R → Outcome Request
  unfolding read_request find_extractor check_placeholders
  check_config config s = then_do (read_request h s.cells config) λ request.
      then_do (find_extractor config)
        λ extractor. then_do (check_placeholders request) λ _. ok request

  unfoldable pub parse : Text → Outcome (Program R)
  unfolding parse_program eval_config check_config trim_space byte_length
  parse source =
      let trimmed = trim_space source in
      if trimmed == codes ""
      then failed no_source
      else (if leb (byte_length trimmed) max_source_bytes
          then (then_do (parse_program h.reader trimmed) λ ast.
              then_do (eval_config ast) λ (config, s).
                then_do (check_config config s)
                  λ request. ok (record { source = trimmed; ast = ast; method = request.method }))
          else failed source_too_long)

  unfoldable pub build_request :
      (Text → Option Url) → Program R → List (Text × Text) → Outcome Request
  unfolding eval_config read_request filled at_url
  build_request parse_url p vars = then_do (eval_config p.ast) λ (config, s).
      then_do (read_request h s.cells config) λ request. at_url parse_url (filled request vars)

  -- `in.invoke` of a new interpreter, on the values of the one before.
  unfoldable pub run_extractor : Value R → Json R → Run R (Value R)
  unfolding normalize
  run_extractor extractor response s =
      (do value ← normalize h response; (interpreter h).invoke extractor (value ∷ []))
        (record s { steps = 0 })

  unfoldable pub extract : Program R → Json R → Outcome (Result R)
  unfolding eval_config in_config run_extractor read_result fields_at
  extract p response = then_do (eval_config p.ast) λ (config, s).
      then_do (in_config config) λ extractor.
        then_do (run_extractor extractor response s) λ (v, s'). elim (as_object s'.cells v) [
          | none ↦ failed bad_result
          | some fields ↦ read_result h s'.cells fields
        ]
