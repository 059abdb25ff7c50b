-- ===== src/Script/Outcome.antt =====
-- What a stage of internal/script returns: a value, the error that it reports, or the end of the
-- model's fuel, which has no counterpart in the program.
use laskah.Prelude.{ℕ, ◌≡◌, refl, subst, ◌≢◌, Bool, true, false, if◌then◌else◌}
use laskah.Prelude.Text.{Text}

-- The errors of lexer.go and parser.go carry the line that they name; those of the evaluation say
-- what went wrong.
pub data Fault : Type 0 where
  comment_not_closed string_not_closed string_over_lines template_not_closed : ℕ → Fault
  expression_not_closed escape_cut unicode_escape_cut hex_escape_cut : ℕ → Fault
  bad_unicode_escape bad_hex_escape : ℕ → Fault
  bad_hex_number bad_number bad_character : ℕ → Fault
  too_complex : Fault
  expected : Text → ℕ → Fault
  not_one_expression bad_target name_needed bad_key bad_parameter bad_variable : ℕ → Fault
  brace_not_closed only_for_of bad_token : ℕ → Fault
  banned : Text → ℕ → Fault
  too_many_steps stack_overflow text_too_long array_too_long : Fault
  undefined_variable undeclared : Text → Fault
  bad_operator : Text → Fault
  property_of_nothing no_function not_callable bad_assignment index_out_of_range : Fault
  not_iterable empty_reduce no_push detached_method bad_digits bad_json json_too_long : Fault
  no_source source_too_long not_an_object no_request bad_request no_url bad_method : Fault
  bad_headers no_extractor bad_extractor bad_placeholder bad_url bad_result : Fault

pub data Outcome {ℓ} (A : Type ℓ) : Type ℓ where
  ok : A → Outcome A
  failed : Fault → Outcome A
  out_of_fuel : Outcome A

-- Go on with the value.
abbrev pub then_do {ℓ κ} : {A : Type ℓ} {B : Type κ} → Outcome A → (A → Outcome B) → Outcome B
then_do (ok v) k = k v
then_do (failed w) k = failed w
then_do out_of_fuel k = out_of_fuel

abbrev pub or_fail {ℓ} : {A : Type ℓ} → Bool → Fault → A → Outcome A
or_fail true w v = ok v
or_fail false w v = failed w

-- The run stayed within its fuel, and its value, if it has one, satisfies `P`.
pub data Yields {ℓ κ} {A : Type ℓ} (P : A → Type κ) : Outcome A → Type (ℓ ⊔ κ) where
  value : {v : A} → P v → Yields P (ok v)
  refused : {w : Fault} → Yields P (failed w)

module _ {ℓ κ} {A : Type ℓ} {P : A → Type κ} where
  pub Yields-ok : {o : Outcome A} {v : A} → Yields P o → o ≡ ok v → P v
  Yields-ok (value q) e = subst P (cc) q
  Yields-ok refused e = cc

  pub Yields-fuel : {o : Outcome A} → Yields P o → o ≢ out_of_fuel
  Yields-fuel (value q) = cc
  Yields-fuel refused = cc

  pub Yields-then {μ ν} :
      {B : Type μ} {Q : B → Type ν} {o : Outcome A} {k : A → Outcome B}
      → Yields P o
      → ((v : A) → P v → Yields Q (k v))
      → Yields Q (then_do o k)
  Yields-then (value {v} q) next = next v q
  Yields-then refused next = refused

  pub Yields-if :
      (test : Bool) {yes_case no_case : Outcome A}
      → (test ≡ true → Yields P yes_case)
      → (test ≡ false → Yields P no_case)
      → Yields P (if test then yes_case else no_case)
  Yields-if true y n = y refl
  Yields-if false y n = n refl

  pub Yields-map {ν} :
      {Q : A → Type ν} {o : Outcome A} → ((v : A) → P v → Q v) → Yields P o → Yields Q o
  Yields-map g (value q) = value (g _ q)
  Yields-map g refused = refused

  -- An outcome yields its own value.
  pub Yields-exactly : {o : Outcome A} → Yields P o → Yields (λ v. P v × (o ≡ ok v)) o
  Yields-exactly (value q) = value (q, refl)
  Yields-exactly refused = refused
