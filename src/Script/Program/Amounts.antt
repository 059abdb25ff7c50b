-- ===== src/Script/Program/Amounts.antt =====
-- internal/script/script.go: the numbers of a result.
use laskah.Prelude.{
  ◌⊎◌, inl, inr, ℕ, ◌^◌, arith, ◌≡◌, refl, Bool, true, false, Option, none, some, List,
  if◌then◌else◌,
}
use laskah.Prelude.Text.{Text, codes, text_eq}
use laskah.Prelude.Maps.{lookup}
use laskah.Script.Outcome.{
  Outcome, ok, failed, out_of_fuel, bad_extractor, no_extractor, Yields, Yields-map, value, refused,
  Yields-then, Yields-ok, bad_result,
}
use laskah.Script.Values.{
  Json, Host, Value, null, undefined, bool, num, str, object, array, callable, builtin, Cell,
  Interp, fields_at,
}
use laskah.Script.Values.Convert.{is_nullish, to_number}
use laskah.Script.Program.{
  Program, as_object, extract, in_config, find_extractor, is_callable, run_extractor, eval_config,
}
use laskah.Script.Values.Settled.{Settles-exactly}
use laskah.Script.Program.Requests.{field}
use laskah.Script.Program.Results.{Result, is_amount, number_field, read_result}
use laskah.Script.Program.Ends.{text_field-Settles, eval_config-Settles, run_extractor-Settles}

-- Null and undefined.
nullish_lem : {R : Type 0} → (x : Value R) → is_nullish x ≡ true → (x ≡ null) ⊎ (x ≡ undefined)
unfolding is_nullish
nullish_lem null e = inl refl
nullish_lem undefined e = inr refl
nullish_lem (bool b) e = absurd cc
nullish_lem (num v) e = absurd cc
nullish_lem (str t) e = absurd cc
nullish_lem (object r) e = absurd cc
nullish_lem (array r) e = absurd cc
nullish_lem (callable i params body scope) e = absurd cc
nullish_lem (builtin i b) e = absurd cc

module _ {R : Type 0} (h : Host R) (fields : List (Text × Value R)) (key : Text) where
  -- What a number of the result has to do with the field of the object: it is the field's number, which
  -- is one and lies between -10 ^ 18 and 10 ^ 18, or it is zero and not given, for one of the reasons.
  pub data Reads : R × Bool → Type 0 where
    given :
        (x : Value R)
        → lookup key fields ≡ some x
        → h.is_nan (to_number h x) ≡ false
        → h.float.lt (h.float.of_ℕ (10 ^ 18)) (to_number h x) ≡ false
        → h.float.lt (to_number h x) (h.negate (h.float.of_ℕ (10 ^ 18))) ≡ false
        → Reads (to_number h x, true)
    missing : lookup key fields ≡ none → Reads (h.float.of_ℕ 0, false)
    nothing :
        (x : Value R)
        → lookup key fields ≡ some x
        → (x ≡ null) ⊎ (x ≡ undefined)
        → Reads (h.float.of_ℕ 0, false)
    no_amount :
        (x : Value R)
        → lookup key fields ≡ some x
        → (h.is_nan (to_number h x) ≡ true)
          ⊎ (h.float.lt (h.float.of_ℕ (10 ^ 18)) (to_number h x) ≡ true)
          ⊎ (h.float.lt (to_number h x) (h.negate (h.float.of_ℕ (10 ^ 18))) ≡ true)
        → Reads (h.float.of_ℕ 0, false)

  number_field-Reads : Reads (number_field h fields key)
  unfolding number_field field is_nullish
  number_field-Reads = from (lookup key fields) refl
    where
      read : Value R → R × Bool
      read x =
          if is_nullish x
          then (h.float.of_ℕ 0, false)
          else (if is_amount h (to_number h x)
              then (to_number h x, true)
              else (h.float.of_ℕ 0, false))

      amount :
          (x : Value R) (b : Bool)
          → lookup key fields ≡ some x
          → is_amount h (to_number h x) ≡ b
          → Reads (if b then (to_number h x, true) else (h.float.of_ℕ 0, false))
      amount x true e q = given x e (ground (arith, q)) (ground (arith, q)) (ground (arith, q))
      amount x false e q = no_amount x e (ground (arith, q))

      there :
          (x : Value R) (b : Bool)
          → lookup key fields ≡ some x
          → is_nullish x ≡ b
          → Reads (
              if b
              then (h.float.of_ℕ 0, false)
              else (if is_amount h (to_number h x)
                  then (to_number h x, true)
                  else (h.float.of_ℕ 0, false)))
      there x true e q = nothing x e (nullish_lem x q)
      there x false e q = amount x (is_amount h (to_number h x)) e refl

      from :
          (o : Option (Value R))
          → lookup key fields ≡ o
          → Reads (read (elim o as (λ _. Value R) [ none ↦ null | some v ↦ v ]))
      from none e = missing e
      from (some x) e = there x (is_nullish x) e refl

module _ {R : Type 0} (h : Host R) where
  -- So is each of the three numbers.
  abbrev pub ReadsAll : List (Text × Value R) → Result R → Type 0
  ReadsAll fields r =
      Reads h fields (codes "remaining") (r.remaining, r.has_remaining)
      × Reads h fields (codes "total") (r.total, r.has_total)
      × Reads h fields (codes "used") (r.used, r.has_used)

  read_result-ReadsAll :
      (cells : List (Cell R)) (fields : List (Text × Value R))
      → Yields (ReadsAll fields) (read_result h cells fields)
  unfolding read_result
  read_result-ReadsAll cells fields =
      Yields-then (text_field-Settles h cells fields (codes "invalidMessage")) λ message _.
        Yields-then (text_field-Settles h cells fields (codes "unit")) λ unit_text _.
          Yields-then (text_field-Settles h cells fields (codes "planName")) λ plan _.
            Yields-then (text_field-Settles h cells fields (codes "extra")) λ extra_text _. value (
              number_field-Reads h fields (codes "remaining"),
              number_field-Reads h fields (codes "total"),
              number_field-Reads h fields (codes "used"),
            )

  -- A run of the extractor on the response, from the state that the script left, gave an object of
  -- which the numbers are read.
  abbrev pub IsExtracted : Program R → Json R → Result R → Type 0
  IsExtracted p response r =
      (config : List (Text × Value R)) × (s : Interp R) × (extractor : Value R) × (n : ℕ)
      × (s' : Interp R) × (eval_config h p.ast ≡ ok (config, s))
      × (lookup (codes "extractor") config ≡ some extractor)
      × (run_extractor h extractor response s ≡ ok (object n, s'))
      × ReadsAll (fields_at s'.cells n) r

  in_config-there :
      (config : List (Text × Value R))
      → Yields (λ v. lookup (codes "extractor") config ≡ some v) (in_config config)
  unfolding in_config find_extractor
  in_config-there config = from (lookup (codes "extractor") config)
    where
      checked : (v : Value R) (b : Bool) → Outcome (Value R)
      checked v b = if b then ok v else failed bad_extractor

      only : Outcome (Value R) → Outcome (Value R)
      only o = elim o as (λ _. Outcome (Value R)) [
        | ok v ↦ ok v
        | failed w ↦ failed bad_extractor
        | out_of_fuel ↦ out_of_fuel
      ]

      test : (v : Value R) (b : Bool) → Yields (λ x. some v ≡ some x) (only (checked v b))
      test v true = value refl
      test v false = refused

      from :
          (o : Option (Value R))
          → Yields
              (λ x. o ≡ some x)
              (only (elim o as (λ _. Outcome (Value R)) [
                | none ↦ failed no_extractor
                | some v ↦ if is_callable v then ok v else failed bad_extractor
              ]))
      from none = refused
      from (some v) = test v (is_callable v)

  -- What `Extract` makes of the value that the extractor gave.
  read_object-ReadsAll :
      (v : Value R) (cells : List (Cell R))
      → Yields
          (λ r. (n : ℕ) × (v ≡ object n) × ReadsAll (fields_at cells n) r)
          (elim (as_object cells v) as (λ _. Outcome (Result R)) [
            | none ↦ failed bad_result
            | some fields ↦ read_result h cells fields
          ])
  read_object-ReadsAll (object n) cells =
      Yields-map (λ r q. (n, refl, q)) (read_result-ReadsAll cells (fields_at cells n))
  read_object-ReadsAll null cells = refused
  read_object-ReadsAll undefined cells = refused
  read_object-ReadsAll (bool b) cells = refused
  read_object-ReadsAll (num v) cells = refused
  read_object-ReadsAll (str t) cells = refused
  read_object-ReadsAll (array r) cells = refused
  read_object-ReadsAll (callable i params body scope) cells = refused
  read_object-ReadsAll (builtin i b) cells = refused

  extract-Yields :
      (p : Program R) (response : Json R) → Yields (IsExtracted p response) (extract h p response)
  unfolding extract
  extract-Yields p response =
      Yields-then (Settles-exactly (eval_config-Settles h p.ast)) λ (config, s) e.
        Yields-then (in_config-there config) λ extractor x.
          Yields-then (Settles-exactly (run_extractor-Settles h extractor response s)) λ (v, s') w.
            Yields-map (λ r (n, o, q). (config, s, extractor, n, s', e, x, rw o at w, q))
              (read_object-ReadsAll v s'.cells)

  -- If `Extract` gives a result, the extractor gave an object, and each number of the result is
  -- that of the object's field `remaining`, `total` or `used`, is not NaN and lies between -10
  -- ^ 18 and 10 ^ 18; or it is zero and marked as not given, and the field is missing, null or
  -- undefined, or not such a number.
  pub extract-IsExtracted :
      (p : Program R) (response : Json R) (r : Result R)
      → extract h p response ≡ ok r
      → IsExtracted p response r
  extract-IsExtracted p response r e = Yields-ok (extract-Yields p response) e
