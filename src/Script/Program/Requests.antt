-- ===== src/Script/Program/Requests.antt =====
-- internal/script/script.go: `readRequest` and `encodeBody`.
use laskah.Prelude.{none, some, List, [], ◌∷◌, ◌==◌, any, if◌then◌else◌}
use laskah.Prelude.Text.{Text, codes, text_eq, trim_space}
use laskah.Prelude.Maps.{lookup, insert}
use laskah.Script.Outcome.{
  Outcome, ok, failed, then_do, no_request, bad_request, no_url, bad_method, bad_headers,
}
use laskah.Script.Values.{Host, Value, null, str, object, Cell, fields_at}
use laskah.Script.Values.Convert.{is_nullish, to_string}
use laskah.Script.Values.Global.{sorted_keys}
use laskah.Script.Values.Methods.{is_one_of}
use laskah.Script.Values.Apply.{stringify}

pub record Request : Type 0 where
  pub url : Text
  pub method : Text
  pub headers : List (Text × Text)
  pub body : Text

abbrev pub allowed_methods : List Text
allowed_methods = codes "GET" ∷ codes "POST" ∷ codes "PUT" ∷ codes "PATCH" ∷ codes "HEAD" ∷ []

module _ {R : Type 0} where
  -- `source[key]`, which is nil for a missing key.
  unfoldable pub field : List (Text × Value R) → Text → Value R
  unfolding lookup
  field fields key = elim (lookup key fields) [ none ↦ null | some v ↦ v ]

  unfoldable pub or_empty : Value R → Value R
  unfolding is_nullish
  or_empty v = if is_nullish v then str [] else v

module _ {R : Type 0} (h : Host R) (cells : List (Cell R)) where
  unfoldable pub text_or_empty : Value R → Outcome Text
  unfolding to_string or_empty
  text_or_empty v = to_string h cells (or_empty v)

  unfoldable pub encode_body : Value R → Outcome Text
  unfolding stringify
  encode_body (str text) = ok text
  encode_body v = stringify h cells v

  unfoldable pub read_body : Value R → Outcome Text
  unfolding is_nullish encode_body
  read_body v = if is_nullish v then ok [] else encode_body v

  unfoldable pub put_headers :
      List (Text × Value R) → List Text → List (Text × Text) → Outcome (List (Text × Text))
  unfolding text_or_empty field trim_space insert
  put_headers mapped [] headers = ok headers
  put_headers mapped (key ∷ keys) headers = elim (trim_space key) [
    | [] ↦ put_headers mapped keys headers
    | c ∷ name ↦
        then_do (text_or_empty (field mapped key))
          λ text. put_headers mapped keys (insert (c ∷ name) text headers)
  ]

  unfoldable pub read_headers : Value R → Outcome (List (Text × Text))
  unfolding is_nullish put_headers sorted_keys fields_at
  read_headers (object r) =
      let mapped = fields_at cells r in put_headers mapped (sorted_keys mapped) []
  read_headers v = if is_nullish v then ok [] else failed bad_headers

  unfoldable pub read_method : Value R → Outcome Text
  unfolding text_or_empty trim_space any
  read_method v = then_do (text_or_empty v) λ text.
      let upper = h.to_upper (trim_space text) in
      let method = if upper == codes "" then codes "GET" else upper in
      if is_one_of allowed_methods method then ok method else failed bad_method

  unfoldable pub read_url : Value R → Outcome Text
  unfolding text_or_empty trim_space
  read_url v = then_do (text_or_empty v) λ text.
      let target = trim_space text in if target == codes "" then failed no_url else ok target

  -- From the `request` of the configuration on.
  unfoldable pub read_spec : Value R → Outcome Request
  unfolding field read_url read_method read_headers read_body fields_at
  read_spec (object r) =
      let spec = fields_at cells r in
      then_do (read_url (field spec (codes "url"))) λ target.
        then_do (read_method (field spec (codes "method"))) λ method.
          then_do (read_headers (field spec (codes "headers"))) λ headers.
            then_do (read_body (field spec (codes "body")))
              λ body. ok (record { url = target; method = method; headers = headers; body = body })
  read_spec v = failed bad_request

  unfoldable pub read_request : List (Text × Value R) → Outcome Request
  unfolding lookup read_spec
  read_request config = elim (lookup (codes "request") config) [
    | none ↦ failed no_request
    | some raw ↦ read_spec raw
  ]
