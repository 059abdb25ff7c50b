-- ===== src/Script/Program/Ends.antt =====
-- internal/script/script.go: checking a script, building its request and reading its result all end.
use laskah.Prelude.{
  ◌≢◌, Option, none, some, List, [], ◌∷◌, ◌||◌, ◌==◌, leb, arith, any, if◌then◌else◌,
}
use laskah.Prelude.Text.{Text, codes, text_eq, trim_space}
use laskah.Prelude.Maps.{lookup, insert}
use laskah.Script.Outcome.{
  Outcome, ok, failed, out_of_fuel, then_do, value, refused, Yields-then, Yields-if, Yields-fuel,
  not_an_object, bad_result, bad_extractor, no_extractor, no_request, Yields-map,
}
use laskah.Script.Lexer.Literals.{byte_length}
use laskah.Script.Syntax.{Node}
use laskah.Script.Parser.Total.{parse_program-Settles}
use laskah.Script.Values.{
  Json, Host, Value, null, undefined, bool, num, str, object, array, callable, builtin, Cell,
  Interp, fields_at,
}
use laskah.Script.Values.Convert.{is_nullish}
use laskah.Script.Values.Global.{sorted_keys}
use laskah.Script.Values.Methods.{is_one_of}
use laskah.Script.Values.Settled.{Settles, to_string-Settles, stringify-Settles, normalized-Still}
use laskah.Script.Eval.Total.{interpreter-IsPaced}
use laskah.Script.Program.{
  Program, max_source_bytes, as_object, is_callable, has_unknown, check_placeholders,
  find_extractor, in_config, run_script, eval_config, check_config, parse, run_extractor, extract,
}
use laskah.Script.Program.Requests.{
  Request, field, or_empty, text_or_empty, encode_body, read_body, put_headers, read_headers,
  read_method, allowed_methods, read_url, read_spec, read_request,
}
use laskah.Script.Program.Results.{Result, text_field, read_result}

module _ {R : Type 0} (h : Host R) (cells : List (Cell R)) where
  pub text_or_empty-Settles : (v : Value R) → Settles (text_or_empty h cells v)
  unfolding text_or_empty
  text_or_empty-Settles v = to_string-Settles h cells (or_empty v)

  pub read_url-Settles : (v : Value R) → Settles (read_url h cells v)
  unfolding read_url
  read_url-Settles v =
      Yields-then (text_or_empty-Settles v)
        λ text _. Yields-if (trim_space text == codes "") (λ _. refused) (λ _. value tt)

  pub read_method-Settles : (v : Value R) → Settles (read_method h cells v)
  unfolding read_method
  read_method-Settles v = Yields-then (text_or_empty-Settles v) λ text _.
      let upper = h.to_upper (trim_space text) in
      Yields-if (is_one_of allowed_methods (if upper == codes "" then codes "GET" else upper))
        (λ _. value tt) (λ _. refused)

  pub read_body-Settles : (v : Value R) → Settles (read_body h cells v)
  unfolding read_body encode_body
  read_body-Settles v = Yields-if (is_nullish v) (λ _. value tt) (λ _. encoded v)
    where
      encoded : (x : Value R) → Settles (encode_body h cells x)
      encoded (str text) = value tt
      encoded null = stringify-Settles h cells null
      encoded undefined = stringify-Settles h cells undefined
      encoded (bool b) = stringify-Settles h cells (bool b)
      encoded (num v) = stringify-Settles h cells (num v)
      encoded (object r) = stringify-Settles h cells (object r)
      encoded (array r) = stringify-Settles h cells (array r)
      encoded (callable i params body scope) =
          stringify-Settles h cells (callable i params body scope)
      encoded (builtin i b) = stringify-Settles h cells (builtin i b)

  pub put_headers-Settles :
      (mapped : List (Text × Value R)) (keys : List Text) (headers : List (Text × Text))
      → Settles (put_headers h cells mapped keys headers)
  unfolding put_headers
  put_headers-Settles mapped [] headers = value tt
  put_headers-Settles mapped (key ∷ keys) headers =
      from (trim_space key) (λ later. put_headers-Settles mapped keys later)
    where
      from :
          (name : Text)
          → ((later : List (Text × Text)) → Settles (put_headers h cells mapped keys later))
          → Settles (elim name as (λ _. Outcome (List (Text × Text))) [
            | [] ↦ put_headers h cells mapped keys headers
            | c ∷ rest ↦
                then_do
                  (text_or_empty h cells (field mapped key))
                  λ text. put_headers h cells mapped keys (insert (c ∷ rest) text headers)
          ])
      from [] k = k headers
      from (c ∷ rest) k =
          Yields-then (text_or_empty-Settles (field mapped key))
            λ text _. k (insert (c ∷ rest) text headers)

  pub read_headers-Settles : (v : Value R) → Settles (read_headers h cells v)
  unfolding read_headers is_nullish
  read_headers-Settles (object r) =
      put_headers-Settles (fields_at cells r) (sorted_keys (fields_at cells r)) []
  read_headers-Settles null = value tt
  read_headers-Settles undefined = value tt
  read_headers-Settles (bool b) = refused
  read_headers-Settles (num v) = refused
  read_headers-Settles (str text) = refused
  read_headers-Settles (array r) = refused
  read_headers-Settles (callable i params body scope) = refused
  read_headers-Settles (builtin i b) = refused

  pub read_spec-Settles : (v : Value R) → Settles (read_spec h cells v)
  unfolding read_spec
  read_spec-Settles (object r) =
      let spec = fields_at cells r in
      Yields-then (read_url-Settles (field spec (codes "url"))) λ target _.
        Yields-then (read_method-Settles (field spec (codes "method"))) λ method _.
          Yields-then (read_headers-Settles (field spec (codes "headers"))) λ headers _.
            Yields-then (read_body-Settles (field spec (codes "body"))) λ body _. value tt
  read_spec-Settles null = refused
  read_spec-Settles undefined = refused
  read_spec-Settles (bool b) = refused
  read_spec-Settles (num v) = refused
  read_spec-Settles (str text) = refused
  read_spec-Settles (array r) = refused
  read_spec-Settles (callable i params body scope) = refused
  read_spec-Settles (builtin i b) = refused

  pub read_request-Settles :
      (config : List (Text × Value R)) → Settles (read_request h cells config)
  unfolding read_request
  read_request-Settles config = from (lookup (codes "request") config)
    where
      from :
          (o : Option (Value R))
          → Settles (elim o as (λ _. Outcome Request) [
            | none ↦ failed no_request
            | some raw ↦ read_spec h cells raw
          ])
      from none = refused
      from (some raw) = read_spec-Settles raw

  pub text_field-Settles :
      (mapped : List (Text × Value R)) (key : Text) → Settles (text_field h cells mapped key)
  unfolding text_field
  text_field-Settles mapped key =
      Yields-if (is_nullish (field mapped key)) (λ _. value tt)
        (λ _. Yields-then (to_string-Settles h cells (field mapped key)) λ text _. value tt)

  pub read_result-Settles : (mapped : List (Text × Value R)) → Settles (read_result h cells mapped)
  unfolding read_result
  read_result-Settles mapped =
      Yields-then (text_field-Settles mapped (codes "invalidMessage")) λ message _.
        Yields-then (text_field-Settles mapped (codes "unit")) λ unit_text _.
          Yields-then (text_field-Settles mapped (codes "planName")) λ plan _.
            Yields-then (text_field-Settles mapped (codes "extra")) λ extra_text _. value tt

pub check_placeholders-Settles : (r : Request) → Settles (check_placeholders r)
unfolding check_placeholders
check_placeholders-Settles r =
    Yields-if
      (has_unknown r.url || has_unknown r.body || any (λ (name, text). has_unknown text) r.headers)
      (λ _. refused) (λ _. value tt)

module _ {R : Type 0} where
  pub find_extractor-Settles : (config : List (Text × Value R)) → Settles (find_extractor config)
  unfolding find_extractor
  find_extractor-Settles config = from (lookup (codes "extractor") config)
    where
      from :
          (o : Option (Value R))
          → Settles (elim o as (λ _. Outcome (Value R)) [
            | none ↦ failed no_extractor
            | some v ↦ if is_callable v then ok v else failed bad_extractor
          ])
      from none = refused
      from (some v) = Yields-if (is_callable v) (λ _. value tt) (λ _. refused)

  pub in_config-Settles : (config : List (Text × Value R)) → Settles (in_config config)
  unfolding in_config
  in_config-Settles config = from (find_extractor-Settles config)
    where
      from :
          {o : Outcome (Value R)}
          → Settles o
          → Settles (elim o as (λ _. Outcome (Value R)) [
            | ok v ↦ ok v
            | failed w ↦ failed bad_extractor
            | out_of_fuel ↦ out_of_fuel
          ])
      from (value q) = value tt
      from refused = refused

module _ {R : Type 0} (h : Host R) where
  pub eval_config-Settles : (ast : Node R) → Settles (eval_config h ast)
  unfolding eval_config run_script
  eval_config-Settles ast =
      Yields-then
        ((interpreter-IsPaced h).eval_lem ast (0 ∷ [])
          (record { steps = 0; cells = []; frames = [] ∷ []; functions = 0 }) (omega arith)
          (omega arith))
        λ (v, s) _. from s (as_object s.cells v)
    where
      from :
          (s : Interp R) (o : Option (List (Text × Value R)))
          → Settles (elim o as (λ _. Outcome (List (Text × Value R) × Interp R)) [
            | none ↦ failed not_an_object
            | some config ↦ ok (config, s)
          ])
      from s none = refused
      from s (some config) = value tt

  pub check_config-Settles :
      (config : List (Text × Value R)) (s : Interp R) → Settles (check_config h config s)
  unfolding check_config
  check_config-Settles config s = Yields-then (read_request-Settles h s.cells config) λ request _.
      Yields-then (find_extractor-Settles config)
        λ extractor _. Yields-then (check_placeholders-Settles request) λ _ _. value tt

  pub parse-Settles : (source : Text) → Settles (parse h source)
  unfolding parse
  parse-Settles source =
      Yields-if (trim_space source == codes "") (λ _. refused)
        (λ _.
          Yields-if (leb (byte_length (trim_space source)) max_source_bytes)
            (λ _. Yields-then (parse_program-Settles h.reader (trim_space source)) λ ast _.
              Yields-then (eval_config-Settles ast)
                λ (config, s) _. Yields-then (check_config-Settles config s) λ request _. value tt)
            (λ _. refused))

  pub run_extractor-Settles :
      (extractor : Value R) (response : Json R) (s : Interp R)
      → Settles (run_extractor h extractor response s)
  unfolding run_extractor
  run_extractor-Settles extractor response s =
      Yields-then (normalized-Still h response (record s { steps = 0 })) λ (v, s') e.
        Yields-map (λ _ _. tt)
          ((interpreter-IsPaced h).invoke_lem extractor (v ∷ []) s' (omega (arith, e))
            (omega (arith, e)))

  pub extract-Settles : (p : Program R) (response : Json R) → Settles (extract h p response)
  unfolding extract
  extract-Settles p response = Yields-then (eval_config-Settles p.ast) λ (config, s) _.
      Yields-then (in_config-Settles config) λ extractor _.
        Yields-then (run_extractor-Settles extractor response s)
          λ (v, s') _. from s' (as_object s'.cells v)
    where
      from :
          (s : Interp R) (o : Option (List (Text × Value R)))
          → Settles (elim o as (λ _. Outcome (Result R)) [
            | none ↦ failed bad_result
            | some fields ↦ read_result h s.cells fields
          ])
      from s none = refused
      from s (some fields) = read_result-Settles h s.cells fields

  pub parse-total : (source : Text) → parse h source ≢ out_of_fuel
  parse-total source = Yields-fuel (parse-Settles source)

  pub extract-total : (p : Program R) (response : Json R) → extract h p response ≢ out_of_fuel
  extract-total p response = Yields-fuel (extract-Settles p response)
