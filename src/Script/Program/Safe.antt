-- ===== src/Script/Program/Safe.antt =====
-- internal/script/script.go: what `Parse` promises of `BuildRequest`, and what `BuildRequest` promises of
-- the request that it gives.
use laskah.Prelude.{
  ◌≡◌, ◌≢◌, refl, sym, ap, Bool, In, [], ◌∷◌, Bool-cases, eq_of_beq, beq_refl, any, arith, true,
  false, Option, none, some, List, ◌==◌, leb, ◌⊎◌, inl, inr, if◌then◌else◌,
}
use laskah.Prelude.Text.{Text, codes, text_eq, trim_space}
use laskah.Prelude.Maps.{lookup}
use laskah.Script.Outcome.{
  Outcome, ok, failed, Yields, value, refused, Yields-then, Yields-if, Yields-ok, Yields-map,
  Yields-exactly, bad_url, no_request,
}
use laskah.Script.Lexer.Literals.{byte_length}
use laskah.Script.Parser.Total.{parse_program-Settles}
use laskah.Script.Values.{
  Host, Value, null, undefined, bool, num, str, object, array, callable, builtin, Cell, Interp,
  fields_at,
}
use laskah.Script.Values.Methods.{is_one_of}
use laskah.Script.Values.Settled.{Settles-exactly}
use laskah.Script.Program.{
  Program, Url, max_source_bytes, is_web, eval_config, check_config, parse, filled, at_url,
  build_request,
}
use laskah.Script.Program.Requests.{
  Request, allowed_methods, field, read_method, read_spec, read_request,
}
use laskah.Script.Program.Templates.{fill, pieces}
use laskah.Script.Program.Guards.{substitute-fill}
use laskah.Script.Program.Ends.{
  text_or_empty-Settles, read_url-Settles, read_headers-Settles, read_body-Settles,
  read_request-Settles, find_extractor-Settles, check_placeholders-Settles, eval_config-Settles,
}

-- The methods that the error message lists.
abbrev pub IsAllowed : Text → Type 0
IsAllowed method =
    In method (codes "GET" ∷ codes "POST" ∷ codes "PUT" ∷ codes "PATCH" ∷ codes "HEAD" ∷ [])

one_of-In : (names : List Text) (name : Text) → is_one_of names name ≡ true → In name names
unfolding any
one_of-In [] name e = absurd cc
one_of-In (n ∷ names) name e = elim (Bool-cases (n == name)) [
  | inl q ↦ inl (sym (eq_of_beq n name q))
  | inr q ↦ inr (one_of-In names name (rw q at e))
]

-- The URL is what `url.Parse` makes of the text, has a host, and is one of http or https.
abbrev pub IsComplete : (Text → Option Url) → Text → Text → Type 0
IsComplete parse_url raw url =
    (u : Url) × (parse_url raw ≡ some u)
    × (u.host ≢ codes "")
    × ((u.scheme ≡ codes "http") ⊎ (u.scheme ≡ codes "https"))
    × (url ≡ u.text)

is_web_lem :
    (u : Url)
    → is_web u ≡ true
    → (u.host ≢ codes "") × ((u.scheme ≡ codes "http") ⊎ (u.scheme ≡ codes "https"))
is_web_lem u w = (
  λ e. let t : (u.host == codes "") ≡ true = rw e (beq_refl (codes "")) in ground (arith, w, t),
  elim (Bool-cases (u.scheme == codes "http")) [
    | inl q ↦ inl (eq_of_beq u.scheme (codes "http") q)
    | inr q ↦ inr (eq_of_beq u.scheme (codes "https") (ground (arith, w, q)))
  ],
)

at_url-IsComplete :
    (parse_url : Text → Option Url) (r : Request)
    → Yields
        (λ v. IsComplete parse_url (trim_space r.url) v.url × (v ≡ record r { url = v.url }))
        (at_url parse_url r)
unfolding at_url
at_url-IsComplete parse_url r = from (parse_url (trim_space r.url)) refl
  where
    from :
        (o : Option Url)
        → parse_url (trim_space r.url) ≡ o
        → Yields
            (λ (v : Request).
              IsComplete parse_url (trim_space r.url) v.url × (v ≡ record r { url = v.url }))
            (elim o as (λ _. Outcome Request) [
              | none ↦ failed bad_url
              | some u ↦ if is_web u then ok (record r { url = u.text }) else failed bad_url
            ])
    from none e = refused
    from (some u) e =
        Yields-if (is_web u)
          (λ w. let (host, scheme) = is_web_lem u w in value ((u, e, host, scheme, refl), refl))
          (λ _. refused)

at_url-cases :
    (parse_url : Text → Option Url) (r : Request)
    → (at_url parse_url r ≡ failed bad_url)
      ⊎ ((v : Request) × (at_url parse_url r ≡ ok v) × (v.method ≡ r.method))
unfolding at_url
at_url-cases parse_url r = from (parse_url (trim_space r.url))
  where
    chosen : Url → Bool → Outcome Request
    chosen u b = if b then ok (record r { url = u.text }) else failed bad_url

    pick :
        (u : Url) (b : Bool)
        → (chosen u b ≡ failed bad_url)
          ⊎ ((v : Request) × (chosen u b ≡ ok v) × (v.method ≡ r.method))
    pick u true = inr (record r { url = u.text }, refl, refl)
    pick u false = inl refl

    ends : Option Url → Outcome Request
    ends o = elim o as (λ _. Outcome Request) [
      | none ↦ failed bad_url
      | some u ↦ chosen u (is_web u)
    ]

    from :
        (o : Option Url)
        → (ends o ≡ failed bad_url) ⊎ ((v : Request) × (ends o ≡ ok v) × (v.method ≡ r.method))
    from none = inl refl
    from (some u) = pick u (is_web u)

module _ {R : Type 0} (h : Host R) where
  read_method-IsAllowed :
      (cells : List (Cell R)) (v : Value R) → Yields IsAllowed (read_method h cells v)
  unfolding read_method
  read_method-IsAllowed cells v = Yields-then (text_or_empty-Settles h cells v) λ text _.
      let upper = h.to_upper (trim_space text) in
      Yields-if (is_one_of allowed_methods (if upper == codes "" then codes "GET" else upper))
        (λ e. value (one_of-In allowed_methods _ e)) (λ _. refused)

  read_spec-IsAllowed :
      (cells : List (Cell R)) (v : Value R) → Yields (λ r. IsAllowed r.method) (read_spec h cells v)
  unfolding read_spec
  read_spec-IsAllowed cells (object r) =
      let spec = fields_at cells r in
      Yields-then (read_url-Settles h cells (field spec (codes "url"))) λ target _.
        Yields-then (read_method-IsAllowed cells (field spec (codes "method"))) λ method e.
          Yields-then (read_headers-Settles h cells (field spec (codes "headers"))) λ headers _.
            Yields-then (read_body-Settles h cells (field spec (codes "body"))) λ body _. value e
  read_spec-IsAllowed cells null = refused
  read_spec-IsAllowed cells undefined = refused
  read_spec-IsAllowed cells (bool b) = refused
  read_spec-IsAllowed cells (num v) = refused
  read_spec-IsAllowed cells (str text) = refused
  read_spec-IsAllowed cells (array r) = refused
  read_spec-IsAllowed cells (callable i params body scope) = refused
  read_spec-IsAllowed cells (builtin i b) = refused

  read_request-IsAllowed :
      (cells : List (Cell R)) (config : List (Text × Value R))
      → Yields (λ r. IsAllowed r.method) (read_request h cells config)
  unfolding read_request
  read_request-IsAllowed cells config = from (lookup (codes "request") config)
    where
      from :
          (o : Option (Value R))
          → Yields
              (λ (r : Request). IsAllowed r.method)
              (elim o as (λ _. Outcome Request) [
                | none ↦ failed no_request
                | some raw ↦ read_spec h cells raw
              ])
      from none = refused
      from (some raw) = read_spec-IsAllowed cells raw

  -- The request that the script shows, with the variables filled in.
  abbrev pub IsFilled : (Text → Option Url) → Program R → List (Text × Text) → Request → Type 0
  IsFilled parse_url p vars r =
      (config : List (Text × Value R)) × (s : Interp R) × (shown : Request) × (eval_config h p.ast
        ≡ ok (config, s))
      × (read_request h s.cells config ≡ ok shown)
      × IsComplete parse_url (trim_space (fill vars (pieces 0 shown.url))) r.url
      × (r.method ≡ shown.method)
      × (r.body ≡ fill vars (pieces 0 shown.body))

  build_request-Yields :
      (parse_url : Text → Option Url) (p : Program R) (vars : List (Text × Text))
      → Yields
          (λ r. IsAllowed r.method × IsFilled parse_url p vars r)
          (build_request h parse_url p vars)
  unfolding build_request filled
  build_request-Yields parse_url p vars =
      Yields-then (Settles-exactly (eval_config-Settles h p.ast)) λ (config, s) e.
        Yields-then (Yields-exactly (read_request-IsAllowed s.cells config)) λ shown (a, w).
          Yields-map
            (λ r (c, q). (
              rw q a,
              (
                config,
                s,
                shown,
                e,
                w,
                rw (← substitute-fill shown.url vars) c,
                ap (λ x. x.method) q,
                rw (← substitute-fill shown.body vars) (ap (λ x. x.body) q),
              ),
            ))
            (at_url-IsComplete parse_url (filled shown vars))

  -- A request that `BuildRequest` gives has one of the methods GET, POST, PUT, PATCH and HEAD,
  -- which is the method of the script's request; its address is what `url.Parse` gives for the
  -- trimmed address of the script's request with the variables put in, where the host is not
  -- empty and the scheme is http or https; and its body is the script's with the variables put
  -- in.
  pub build_request-IsFilled :
      (parse_url : Text → Option Url) (p : Program R) (vars : List (Text × Text)) (r : Request)
      → build_request h parse_url p vars ≡ ok r
      → IsAllowed r.method × IsFilled parse_url p vars r
  build_request-IsFilled parse_url p vars r e = Yields-ok (build_request-Yields parse_url p vars) e

  -- The tree gives a configuration with a request of that method.
  abbrev IsReady : Program R → Type 0
  IsReady p =
      (config : List (Text × Value R)) × (s : Interp R) × (request : Request) × (eval_config h p.ast
        ≡ ok (config, s))
      × (read_request h s.cells config ≡ ok request)
      × (request.method ≡ p.method)

  check_config-reads :
      (config : List (Text × Value R)) (s : Interp R)
      → Yields (λ r. read_request h s.cells config ≡ ok r) (check_config h config s)
  unfolding check_config
  check_config-reads config s =
      Yields-then (Settles-exactly (read_request-Settles h s.cells config)) λ request e.
        Yields-then (find_extractor-Settles config)
          λ extractor _. Yields-then (check_placeholders-Settles request) λ _ _. value e

  parse-IsReady : (source : Text) → Yields IsReady (parse h source)
  unfolding parse
  parse-IsReady source =
      Yields-if (trim_space source == codes "") (λ _. refused)
        (λ _.
          Yields-if (leb (byte_length (trim_space source)) max_source_bytes)
            (λ _. Yields-then (parse_program-Settles h.reader (trim_space source)) λ ast _.
              Yields-then (Settles-exactly (eval_config-Settles h ast)) λ (config, s) e.
                Yields-then (check_config-reads config s)
                  λ request w. value (config, s, request, e, w, refl))
            (λ _. refused))

  -- A script that `Parse` accepted never fails to give its request again, whatever values the
  -- template variables have, but for an address that is not a complete one; and the request has
  -- the method that the program shows.
  pub parse-build_request :
      (source : Text) (p : Program R) (parse_url : Text → Option Url) (vars : List (Text × Text))
      → parse h source ≡ ok p
      → (build_request h parse_url p vars ≡ failed bad_url)
        ⊎ ((r : Request) × (build_request h parse_url p vars ≡ ok r) × (r.method ≡ p.method))
  unfolding build_request filled
  parse-build_request source p parse_url vars e =
      let (config, s, request, c, w, m) = Yields-ok (parse-IsReady source) e in
      elim (at_url-cases parse_url (filled request vars)) [
        | inl f ↦ inl (rw (c, w) f)
        | inr (r, g, n) ↦ inr (r, rw (c, w) g, rw (n, m) refl)
      ]
