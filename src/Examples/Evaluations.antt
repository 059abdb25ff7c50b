-- ===== src/Examples/Evaluations.antt =====
-- internal/script/eval.go: a host over the natural numbers, and small executions.
use laskah.Prelude.{
  ℕ, zero, suc, ◌+◌, ◌≤◌, ◌<◌, ◌≡◌, ◌≢◌, refl, false, none, List, [], ◌∷◌, In, inl, inr, arith,
}
use laskah.Prelude.Text.{Text, codes, text_beq}
use laskah.Prelude.Int.{pos}
use laskah.Script.Outcome.{ok, failed, out_of_fuel, stack_overflow}
use laskah.Script.Syntax.{ident, expr_body}
use laskah.Script.Values.{
  Host, Value, num, array, callable, slice_cell, Cell, Interp, items_at, max_steps,
}
use laskah.Script.Values.Convert.{text_within, to_string}
use laskah.Script.Values.Cycles.{IsRanked, text_within-cycle, to_string-ranked}
use laskah.Script.Eval.Interpreter.{new_interp, interpreter}
use laskah.Script.Eval.Total.{invoke-total, invoke-steps}
use laskah.Examples.Samples.{thousandths}
use laskah.Examples.Scripts.{reader}

abbrev pub host : Host ℕ
host = record {
  float = thousandths;
  reader = reader;
  nan = 0;
  infinity = 1000000;
  is_nan = λ x. false;
  negate = λ x. 0;
  mod_of = λ x y. x;
  pow = λ x y. x;
  max = λ x y. x;
  min = λ x y. x;
  abs = λ x. x;
  floor = λ x. x;
  ceil = λ x. x;
  truncate = λ x. x;
  sqrt = λ x. x;
  log = λ x. x;
  to_int = λ x. pos x;
  format_plain = λ x. (48 + x) ∷ [];
  format_fixed = λ n x. (48 + x) ∷ [];
  to_lower = λ t. t;
  to_upper = λ t. t;
  decode_json = λ t. none;
  encode_json = λ j. none;
}

-- `(x) => x`
abbrev identity : Value ℕ
identity = callable 0 (codes "x" ∷ []) (expr_body (ident (codes "x"))) []

abbrev fresh : Interp ℕ
fresh = new_interp

-- After the call of the function and the evaluation of its body.
abbrev after : Interp ℕ
after = record { steps = 2; cells = []; frames = ((codes "x", num 7) ∷ []) ∷ []; functions = 0 }

identity-call : (interpreter host).invoke identity (num 7 ∷ []) fresh ≡ ok (num 7, after)
unfolding interpreter text_beq
identity-call = refl

invoke-total_example : (interpreter host).invoke identity (num 7 ∷ []) fresh ≢ out_of_fuel
invoke-total_example = invoke-total host identity (num 7 ∷ []) fresh (omega arith)

invoke-steps_example : (0 ≤ 2) × (2 ≤ max_steps)
invoke-steps_example =
    invoke-steps host identity (num 7 ∷ []) fresh after (num 7) (omega arith) identity-call

-- `const a = [1]; a[0] = a`
abbrev looped : List (Cell ℕ)
looped = slice_cell (array 0 ∷ []) ∷ []

text_within-cycle_example : text_within host 1000 looped (array 0) ≡ failed stack_overflow
unfolding items_at
text_within-cycle_example = text_within-cycle host 1000 looped 0 (inl refl)

-- `[[1]]`
abbrev nested : List (Cell ℕ)
nested = slice_cell (array 1 ∷ []) ∷ slice_cell (num 1 ∷ []) ∷ []

abbrev nested_rank : ℕ → ℕ
nested_rank zero = 1
nested_rank (suc r) = 0

nested-IsRanked : IsRanked nested nested_rank
unfolding items_at
nested-IsRanked zero = (omega arith, λ q m. inner q m)
  where
    inner : (q : ℕ) → In {A = Value ℕ} (array q) (array 1 ∷ []) → nested_rank q < 1
    inner q (inr n) = elim n [ ]
    inner q (inl e) = let i : q ≡ 1 = cc in rw i (omega arith)
nested-IsRanked (suc zero) = (omega arith, λ q m. other q m)
  where
    other : (q : ℕ) → In {A = Value ℕ} (array q) (num 1 ∷ []) → nested_rank q < 0
    other q (inl e) = absurd cc
    other q (inr n) = elim n [ ]
nested-IsRanked (suc (suc r)) = (omega arith, λ q m. absurd m)

to_string-ranked_example : (t : Text) × (to_string host nested (array 0) ≡ ok t)
to_string-ranked_example = to_string-ranked host nested nested_rank (array 0) nested-IsRanked
