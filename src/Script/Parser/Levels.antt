-- ===== src/Script/Parser/Levels.antt =====
-- internal/script/parser.go: `parsePostfix` keeps the promise.
use laskah.Prelude.{
  ℕ, zero, suc, ◌+◌, ◌≤◌, ◌≡◌, refl, Bool, true, false, Option, none, some, if◌then◌else◌, arith,
}
use laskah.Prelude.Text.{codes}
use laskah.Script.Outcome.{
  Outcome, ok, then_do, name_needed, Yields, value, Yields-then, Yields-if, Yields-map,
}
use laskah.Script.Lexer.{Reader, is_eof_kind, weight}
use laskah.Script.Syntax.{Node}
use laskah.Script.Parser.{Parser, Again, cur_kind, is_punct, moved}
use laskah.Script.Parser.Operators.{
  parse_index, parse_call, parse_member, parse_optional, postfix_round, postfix_loop, parse_postfix,
}
use laskah.Script.Parser.Sizes.{node_size, NodeIsClean}
use laskah.Script.Parser.Reads.{
  Good, Reads, moved-Reads, weight-positive, count_node-Reads, expect_punct-Reads, take_name-Reads,
  punct_is→token, ReadsNode, IsSound,
}
use laskah.Script.Parser.Items.{parse_args-Reads}
use laskah.Script.Parser.Primaries.{parse_expression-Reads, parse_primary-Reads}

module _ {R : Type 0} (u : Reader R) (f : ℕ) (r : Again R) (s : IsSound f r) where
  -- What is put behind an expression takes a token and one node more than was counted.
  abbrev Extends : Node R → Parser R → Node R × Parser R → Type 0
  Extends expr p (v, p') = Reads 1 (node_size v) (node_size expr + 1) p p' × NodeIsClean v

  parse_index-Extends :
      (expr : Node R) (optional : Bool) (p : Parser R)
      → NodeIsClean expr
      → Good p
      → is_eof_kind (cur_kind p) ≡ false
      → weight p.tokens ≤ suc f
      → Yields (Extends expr p) (parse_index u expr optional r p)
  unfolding parse_index node_size NodeIsClean
  parse_index-Extends expr optional p c g e b =
      let h = moved-Reads p g e in
      Yields-then (parse_expression-Reads r.assign f s.assign_lem (moved p) h.good (omega arith))
        λ (prop, p₁) h₁. Yields-then (expect_punct-Reads (codes "]") p₁ h₁.0.good) λ (_, p₂) h₂.
          value (record { good = h₂.good; shorter = omega arith; counted = omega arith }, (c, h₁.1))

  parse_call-Extends :
      (expr : Node R) (optional : Bool) (p : Parser R)
      → NodeIsClean expr
      → Good p
      → weight p.tokens ≤ suc f
      → Yields (Extends expr p) (parse_call u expr optional r p)
  unfolding parse_call node_size NodeIsClean
  parse_call-Extends expr optional p c g b =
      Yields-then (parse_args-Reads f r s p g b) λ (args, p₁) h₁.
        value (record { good = h₁.0.good; shorter = omega arith; counted = omega arith }, (c, h₁.1))

  parse_member-Extends :
      (expr : Node R) (optional : Bool) (p : Parser R)
      → NodeIsClean expr
      → Good p
      → Yields (Extends expr p) (parse_member u expr optional p)
  unfolding parse_member node_size NodeIsClean
  parse_member-Extends expr optional p c g =
      Yields-then (take_name-Reads name_needed p g) λ (name, p₁) h₁.
        value (record { good = h₁.good; shorter = omega arith; counted = omega arith }, c)

  parse_optional-Extends :
      (expr : Node R) (p : Parser R)
      → NodeIsClean expr
      → Good p
      → weight p.tokens ≤ suc f
      → Yields (Extends expr p) (parse_optional u expr r p)
  unfolding parse_optional
  parse_optional-Extends expr p c g b =
      Yields-if (is_punct (codes "(") p) (λ _. parse_call-Extends expr true p c g b)
        (λ _.
          Yields-if (is_punct (codes "[") p)
            (λ e. parse_index-Extends expr true p c g (punct_is→token (codes "[") (cur_kind p) e) b)
            (λ _. parse_member-Extends expr true p c g))

  -- One more token was taken in front.
  after_move :
      (expr : Node R) (p : Parser R) (o : Outcome (Node R × Parser R))
      → Reads 1 0 0 p (moved p)
      → Yields (Extends expr (moved p)) o
      → Yields (Extends expr p) o
  after_move expr p o h y =
      Yields-map
        (λ x q. (record { good = q.0.good; shorter = omega arith; counted = omega arith }, q.1)) y

  -- The rounds of the loop of `parsePostfix`.
  abbrev RoundExtends : Node R → Parser R → Option (Outcome (Node R × Parser R)) → Type 0
  RoundExtends expr p none = Unit
  RoundExtends expr p (some o) = Yields (Extends expr p) o

  RoundExtends-if :
      (expr : Node R) (p : Parser R) (test : Bool)
      (first other : Option (Outcome (Node R × Parser R)))
      → (test ≡ true → RoundExtends expr p first)
      → (test ≡ false → RoundExtends expr p other)
      → RoundExtends expr p (if test then first else other)
  RoundExtends-if expr p true first other y n = y refl
  RoundExtends-if expr p false first other y n = n refl

  postfix_round-Extends :
      (expr : Node R) (p : Parser R)
      → NodeIsClean expr
      → Good p
      → weight p.tokens ≤ suc f
      → RoundExtends expr p (postfix_round u expr r p)
  unfolding postfix_round
  postfix_round-Extends expr p c g b =
      RoundExtends-if expr p (is_punct (codes ".") p) _ _
        (λ e.
          let h = moved-Reads p g (punct_is→token (codes ".") (cur_kind p) e) in
          after_move expr p _ h (parse_member-Extends expr false (moved p) c h.good))
        (λ _.
          RoundExtends-if expr p (is_punct (codes "?.") p) _ _
            (λ e.
              let h = moved-Reads p g (punct_is→token (codes "?.") (cur_kind p) e) in
              after_move expr p _ h (parse_optional-Extends expr (moved p) c h.good (omega arith)))
            (λ _.
              RoundExtends-if expr p (is_punct (codes "[") p) _ _
                (λ e.
                  parse_index-Extends expr false p c g (punct_is→token (codes "[") (cur_kind p) e)
                    b)
                (λ _.
                  RoundExtends-if expr p (is_punct (codes "(") p) _ none
                    (λ _. parse_call-Extends expr false p c g b) (λ _. tt))))

  -- At the end of the loop one count is left to spare.
  postfix_loop-Reads :
      (n : ℕ) (expr : Node R) (p : Parser R)
      → NodeIsClean expr
      → Good p
      → weight p.tokens ≤ n
      → weight p.tokens ≤ suc f
      → Yields
          (λ (x : Node R × Parser R).
            Reads 0 (node_size x.0 + 1) (node_size expr) p x.1 × NodeIsClean x.0)
          (postfix_loop u n expr r p)
  unfolding postfix_loop
  postfix_loop-Reads zero expr p c g w b = absurd (omega (arith, weight-positive p g))
  postfix_loop-Reads (suc n) expr p c g w b = Yields-then (count_node-Reads p g) λ (_, p₁) h₁.
      from p₁ h₁ (postfix_round u expr r p₁) (postfix_round-Extends expr p₁ c h₁.good (omega arith))
        (λ expr' p' c' g' w' b'. postfix_loop-Reads n expr' p' c' g' w' b')
    where
      from :
          (p₁ : Parser R)
          → Reads 0 1 0 p p₁
          → (o : Option (Outcome (Node R × Parser R))) → RoundExtends expr p₁ o
          → ((expr' : Node R) (p' : Parser R)
              → NodeIsClean expr'
              → Good p'
              → weight p'.tokens ≤ n
              → weight p'.tokens ≤ suc f
              → Yields
                  (λ (x : Node R × Parser R).
                    Reads 0 (node_size x.0 + 1) (node_size expr') p' x.1 × NodeIsClean x.0)
                  (postfix_loop u n expr' r p'))
          → Yields
              (λ (x : Node R × Parser R).
                Reads 0 (node_size x.0 + 1) (node_size expr) p x.1 × NodeIsClean x.0)
              (elim o [
                | none ↦ ok (expr, p₁)
                | some m ↦ then_do m λ (expr', p'). postfix_loop u n expr' r p'
              ])
      from p₁ h₁ none y k =
          value (record { good = h₁.good; shorter = omega arith; counted = omega arith }, c)
      from p₁ h₁ (some m) y k = Yields-then y λ (expr', p₂) h₂.
          Yields-map
            (λ x q. (record { good = q.0.good; shorter = omega arith; counted = omega arith }, q.1))
            (k expr' p₂ h₂.1 h₂.0.good (omega arith) (omega arith))

  pub parse_postfix-Reads :
      (p : Parser R) → Good p → weight p.tokens ≤ suc f → Yields (ReadsNode p) (parse_postfix u r p)
  unfolding parse_postfix
  parse_postfix-Reads p g b = Yields-then (parse_primary-Reads f r s u p g b) λ (expr, p₁) h₁.
      Yields-map
        (λ x q. (record { good = q.0.good; shorter = omega arith; counted = omega arith }, q.1))
        (postfix_loop-Reads (suc (weight p₁.tokens)) expr p₁ h₁.1 h₁.0.good (omega arith)
          (omega arith))
