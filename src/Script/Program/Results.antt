-- ===== src/Script/Program/Results.antt =====
-- internal/script/script.go: `readResult` and `numberField`.
use laskah.Prelude.{Bool, true, false, ◌||◌, not, ◌^◌, List, [], if◌then◌else◌}
use laskah.Prelude.Text.{Text, codes, trim_space}
use laskah.Script.Outcome.{Outcome, ok, then_do}
use laskah.Script.Values.{Host, Value, Cell}
use laskah.Script.Values.Convert.{is_nullish, truthy, to_number, to_string}
use laskah.Script.Program.Requests.{field}

pub record Result (R : Type 0) : Type 0 where
  pub has_valid : Bool
  pub is_valid : Bool
  pub invalid_message : Text
  pub has_remaining : Bool
  pub remaining : R
  pub has_total : Bool
  pub total : R
  pub has_used : Bool
  pub used : R
  pub unit : Text
  pub plan_name : Text
  pub extra : Text

module _ {R : Type 0} (h : Host R) where
  abbrev pub largest : R
  largest = h.float.of_ℕ (10 ^ 18)

  -- A number that is neither NaN nor out of range.
  abbrev pub is_amount : R → Bool
  is_amount v = not (h.is_nan v || h.float.lt largest v || h.float.lt v (h.negate largest))

  -- `numberField`
  unfoldable pub number_field : List (Text × Value R) → Text → R × Bool
  unfolding field is_nullish to_number
  number_field mapped key =
      let raw = field mapped key in
      let v = to_number h raw in
      if is_nullish raw
      then (h.float.of_ℕ 0, false)
      else (if is_amount v then (v, true) else (h.float.of_ℕ 0, false))

  -- A field of text, which is empty if it is missing.
  unfoldable pub text_field : List (Cell R) → List (Text × Value R) → Text → Outcome Text
  unfolding field is_nullish to_string trim_space
  text_field cells mapped key =
      let raw = field mapped key in
      if is_nullish raw
      then ok []
      else (then_do (to_string h cells raw) λ text. ok (trim_space text))

  unfoldable pub read_result : List (Cell R) → List (Text × Value R) → Outcome (Result R)
  unfolding text_field number_field field is_nullish truthy
  read_result cells mapped =
      let valid = field mapped (codes "isValid") in
      let remaining = number_field mapped (codes "remaining") in
      let total = number_field mapped (codes "total") in
      let used = number_field mapped (codes "used") in
      then_do (text_field cells mapped (codes "invalidMessage")) λ message.
        then_do (text_field cells mapped (codes "unit")) λ unit_text.
          then_do (text_field cells mapped (codes "planName")) λ plan.
            then_do (text_field cells mapped (codes "extra")) λ extra_text. ok (record {
              has_valid = not (is_nullish valid);
              is_valid = if is_nullish valid then false else truthy h valid;
              invalid_message = message;
              has_remaining = remaining.1;
              remaining = remaining.0;
              has_total = total.1;
              total = total.0;
              has_used = used.1;
              used = used.0;
              unit = unit_text;
              plan_name = plan;
              extra = extra_text;
            })
