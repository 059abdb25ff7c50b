-- ===== src/Examples/Programs.antt =====
-- internal/script/script.go: a script with its request and its result.
use laskah.Prelude.{ℕ, ◌⊎◌, ◌≡◌, refl, true, false, Option, some, List, [], ◌∷◌}
use laskah.Prelude.Text.{Text, codes, text_eq, text_beq}
use laskah.Script.Outcome.{ok, failed, bad_url}
use laskah.Script.Syntax.{
  Node, num_lit, str_lit, obj_lit, no_entries, entry_then, fn_lit, expr_body,
}
use laskah.Script.Values.{json_null}
use laskah.Script.Parser.{word_is}
use laskah.Script.Eval.Interpreter.{interpreter}
use laskah.Script.Program.{Program, Url, parse, build_request, extract}
use laskah.Script.Program.Requests.{Request}
use laskah.Script.Program.Results.{Result}
use laskah.Script.Program.Safe.{IsAllowed, IsFilled, build_request-IsFilled, parse-build_request}
use laskah.Script.Program.Amounts.{IsExtracted, extract-IsExtracted}
use laskah.Script.Program.Guards.{substitute-fill}
use laskah.Script.Program.Templates.{substitute, fill, pieces}
use laskah.Examples.Evaluations.{host}

abbrev script : Text
script = codes "({request:{url:'{{baseUrl}}/me'},extractor:(r)=>({remaining:7})})"

abbrev script_tree : Node ℕ
script_tree = obj_lit (
    entry_then (codes "request")
      (obj_lit (entry_then (codes "url") (str_lit (codes "{{baseUrl}}/me")) no_entries))
      (entry_then (codes "extractor")
        (fn_lit (codes "r" ∷ [])
          (expr_body (obj_lit (entry_then (codes "remaining") (num_lit 7) no_entries))))
        no_entries))

abbrev program : Program ℕ
program = record { source = script; ast = script_tree; method = codes "GET" }

-- An address that stands for itself.
abbrev parse_url : Text → Option Url
parse_url text = some (record { scheme = codes "https"; host = codes "a"; text = text })

abbrev vars : List (Text × Text)
vars = (codes "baseUrl", codes "https://a") ∷ []

abbrev request : Request
request = record { url = codes "https://a/me"; method = codes "GET"; headers = []; body = [] }

abbrev result : Result ℕ
result = record {
  has_valid = false;
  is_valid = false;
  invalid_message = [];
  has_remaining = true;
  remaining = 7;
  has_total = false;
  total = 0;
  has_used = false;
  used = 0;
  unit = [];
  plan_name = [];
  extra = [];
}

script-program : parse host script ≡ ok program
unfolding parse text_beq word_is interpreter
script-program = refl

program-request : build_request host parse_url program vars ≡ ok request
unfolding build_request interpreter text_beq
program-request = refl

program-result : extract host program json_null ≡ ok result
unfolding extract interpreter text_beq
program-result = refl

parse-build_request_example :
    (build_request host parse_url program vars ≡ failed bad_url)
    ⊎ ((r : Request) × (build_request host parse_url program vars ≡ ok r)
        × (r.method ≡ codes "GET"))
parse-build_request_example = parse-build_request host script program parse_url vars script-program

build_request-IsFilled_example :
    IsAllowed (codes "GET") × IsFilled host parse_url program vars request
build_request-IsFilled_example =
    build_request-IsFilled host parse_url program vars request program-request

extract-IsExtracted_example : IsExtracted host program json_null result
extract-IsExtracted_example = extract-IsExtracted host program json_null result program-result

substitute-fill_example :
    substitute (codes "{{ baseUrl }}/{me}") vars ≡ fill vars (pieces 0 (codes "{{ baseUrl }}/{me}"))
substitute-fill_example = substitute-fill (codes "{{ baseUrl }}/{me}") vars

substitute_some : substitute (codes "{{ baseUrl }}/{me}") vars ≡ codes "https://a/{me}"
unfolding substitute text_beq
substitute_some = refl
