-- ===== src/Script/Parser/Bodies.antt =====
-- internal/script/parser.go: what `tryArrowParams` finds, and the parameters of a function.
use laskah.Prelude.{
  ℕ, zero, suc, ◌+◌, ◌≤◌, ◌≡◌, refl, false, ◌&&◌, Option, none, some, List, [], ◌∷◌, ◌==◌, nat_eq,
  if◌then◌else◌, drop, Bool-cases, inl, inr, arith,
}
use laskah.Prelude.Text.{Text, codes, text_eq}
use laskah.Script.Outcome.{bad_parameter, Yields, value, Yields-then, Yields-if}
use laskah.Script.Lexer.{Token, is_eof, is_eof_kind, weight}
use laskah.Script.Lexer.Enough.{Ended}
use laskah.Script.Parser.{Parser, kind_of, cur_kind, is_punct, punct_is, is_ident, moved}
use laskah.Script.Parser.Primary.{
  params_loop, skip_name, paren_depth, to_close, arrow_names, try_arrow_params,
}
use laskah.Script.Parser.Reads.{
  Good, Reads, stay-Reads, moved-Reads, weight-positive, kind_weight-positive, skip_punct-Reads,
  take_name-Reads, is_ident→token, punct_is→token, go_on,
}

module _ {R : Type 0} where
  pub params_loop-Reads :
      (n : ℕ) (p : Parser R)
      → Good p
      → weight p.tokens ≤ n
      → Yields (λ (x : List Text × Parser R). Reads 0 0 0 p x.1) (params_loop n p)
  unfolding params_loop
  params_loop-Reads zero p g w = absurd (omega (arith, weight-positive p g))
  params_loop-Reads (suc n) p g w =
      Yields-if (is_punct (codes ")") p) (λ _. value (stay-Reads p g))
        (λ _. Yields-then (take_name-Reads bad_parameter p g) λ (name, p₁) h₁.
          Yields-then (skip_punct-Reads (codes ",") p₁ h₁.good) λ (comma, p₂) h₂.
            Yields-then
              (go_on (λ (x : List Text × Parser R). Reads 0 0 0 p₂ x.1) comma (params_loop n p₂) []
                p₂ (params_loop-Reads n p₂ h₂.good (omega arith)) (stay-Reads p₂ h₂.good))
              λ (more, p₃) h₃.
                value (record { good = h₃.good; shorter = omega arith; counted = omega arith }))

  pub skip_name-Reads :
      (p : Parser R) → Good p → Yields (λ (x : Unit × Parser R). Reads 0 0 0 p x.1) (skip_name p)
  unfolding skip_name
  skip_name-Reads p g =
      Yields-if (is_ident (cur_kind p))
        (λ e. value (less (moved-Reads p g (is_ident→token (cur_kind p) e))))
        (λ _. value (stay-Reads p g))
    where
      less : Reads 1 0 0 p (moved p) → Reads 0 0 0 p (moved p)
      less m = record { good = m.good; shorter = omega arith; counted = m.counted }

  -- What lies behind the parenthesis that closes ends with the end token, and is shorter.
  to_close-shorter :
      (depth : ℕ) (ts inner behind : List (Token R))
      → Ended ts
      → to_close depth ts ≡ some (inner, behind)
      → Ended behind × (weight behind + 1 ≤ weight ts)
  unfolding to_close
  to_close-shorter depth [] inner behind h e = absurd h
  to_close-shorter depth (t ∷ ts) inner behind h e = elim (Bool-cases (is_eof t)) [
    | inl q ↦ cc (rw q at e)
    | inr q ↦ elim (Bool-cases (punct_is (codes ")") t.kind && depth == 1)) [
      | inl w ↦
          let same : ts ≡ behind = cc (rw (q, w) at e) in
          rw (← same) (rw q at h, omega (arith, kind_weight-positive t.kind))
      | inr w ↦
          from (to_close (paren_depth depth t.kind) ts) (rw (q, w) at e)
            (λ i b. to_close-shorter (paren_depth depth t.kind) ts i b (rw q at h))
    ]
  ]
    where
      from :
          (o : Option (List (Token R) × List (Token R)))
          → (elim o as (λ _. Option (List (Token R) × List (Token R))) [
            | none ↦ none
            | some (i, b) ↦ some (t ∷ i, b)
          ])
            ≡ some (inner, behind)
          → ((i b : List (Token R)) → o ≡ some (i, b) → Ended b × (weight b + 1 ≤ weight ts))
          → Ended behind × (weight behind + 1 ≤ weight (t ∷ ts))
      from none e' k = cc
      from (some (i, b)) e' k =
          let same : b ≡ behind = cc in
          let found = k i b refl in rw (← same) (found.0, omega (arith, found.1))

  drop-Ended :
      (ts : List (Token R))
      → Ended ts
      → is_eof_kind (kind_of ts) ≡ false
      → Ended (drop 1 ts) × (weight (drop 1 ts) ≤ weight ts)
  drop-Ended [] h e = absurd h
  drop-Ended (t ∷ ts) h e = (rw e at h, omega arith)

  -- The tokens behind `=>` end with the end token, and are shorter.
  pub try_arrow_params-shorter :
      (ts : List (Token R)) (names : List Text) (behind : List (Token R))
      → Ended ts
      → try_arrow_params ts ≡ some (names, behind)
      → Ended behind × (weight behind + 1 ≤ weight ts)
  unfolding try_arrow_params
  try_arrow_params-shorter ts names behind h =
      from (to_close 0 ts) (λ i b. to_close-shorter 0 ts i b h)
    where
      named :
          (o : Option (List Text)) (b : List (Token R))
          → (elim o as (λ _. Option (List Text × List (Token R))) [
            | none ↦ none
            | some ns ↦ some (ns, b)
          ])
            ≡ some (names, behind)
          → b ≡ behind
      named none b e = cc
      named (some ns) b e = cc

      from :
          (o : Option (List (Token R) × List (Token R)))
          → ((i b : List (Token R)) → o ≡ some (i, b) → Ended b × (weight b + 1 ≤ weight ts))
          → (elim o as (λ _. Option (List Text × List (Token R))) [
            | none ↦ none
            | some (inner, b) ↦
                if punct_is (codes "=>") (kind_of b)
                then elim (arrow_names (drop 1 inner)) [
                  | none ↦ none
                  | some ns ↦ some (ns, drop 1 b)
                ]
                else none
          ])
            ≡ some (names, behind)
          → Ended behind × (weight behind + 1 ≤ weight ts)
      from none k e = cc
      from (some (inner, b)) k e = elim (Bool-cases (punct_is (codes "=>") (kind_of b))) [
        | inr q ↦ cc (rw q at e)
        | inl q ↦
            let same = named (arrow_names (drop 1 inner)) (drop 1 b) (rw q at e) in
            let found = k inner b refl in
            let left = drop-Ended b found.0 (punct_is→token (codes "=>") (kind_of b) q) in
            rw (← same) (left.0, omega (arith, found.1, left.1))
      ]
