-- ===== src/Script/Parser/Assigns.antt =====
-- internal/script/parser.go: `parseConditional` and `parseAssign` keep the promise.
use laskah.Prelude.{
  ℕ, suc, ◌≤◌, ◌≡◌, refl, true, false, Option, none, some, if◌then◌else◌, find, In, find→In, arith,
}
use laskah.Prelude.Text.{Text, codes}
use laskah.Script.Outcome.{
  ok, bad_target, Yields, value, refused, Yields-then, Yields-if, Yields-map,
}
use laskah.Script.Lexer.{Reader, is_eof_kind, weight}
use laskah.Script.Syntax.{Node}
use laskah.Script.Parser.{Parser, Again, cur_kind, is_punct, moved, fail}
use laskah.Script.Parser.Operators.{
  parse_branches, parse_conditional, assign_ops, is_target, parse_value, parse_assign,
}
use laskah.Script.Parser.Sizes.{node_size, NodeIsClean}
use laskah.Script.Parser.Reads.{
  Good, Reads, moved-Reads, expect_punct-Reads, punct_is→token, ReadsNode, IsSound,
}
use laskah.Script.Parser.Operands.{parse_logical_or-Reads}

module _ {R : Type 0} (u : Reader R) (f : ℕ) (r : Again R) (s : IsSound f r) where
  parse_branches-Reads :
      (test : Node R) (p : Parser R)
      → NodeIsClean test
      → Good p
      → is_eof_kind (cur_kind p) ≡ false
      → weight p.tokens ≤ suc f
      → Yields
          (λ (x : Node R × Parser R).
            Reads 1 (node_size x.0) (node_size test) p x.1 × NodeIsClean x.0)
          (parse_branches u test r p)
  unfolding parse_branches node_size NodeIsClean
  parse_branches-Reads test p c g e b =
      let h = moved-Reads p g e in
      Yields-then (s.assign_lem (moved p) h.good (omega arith)) λ (cons, p₁) h₁.
        Yields-then (expect_punct-Reads (codes ":") p₁ h₁.0.good) λ (_, p₂) h₂.
          Yields-then (s.assign_lem p₂ h₂.good (omega arith)) λ (alt, p₃) h₃. value (
            record { good = h₃.0.good; shorter = omega arith; counted = omega arith },
            (c, h₁.1, h₃.1),
          )

  parse_conditional-Reads :
      (p : Parser R)
      → Good p
      → weight p.tokens ≤ suc f
      → Yields (ReadsNode p) (parse_conditional u r p)
  unfolding parse_conditional
  parse_conditional-Reads p g b =
      Yields-then (parse_logical_or-Reads u f r s p g b) λ (test, p₁) h₁.
        Yields-if (is_punct (codes "?") p₁)
          (λ e.
            Yields-map
              (λ x q.
                (record { good = q.0.good; shorter = omega arith; counted = omega arith }, q.1))
              (parse_branches-Reads test p₁ h₁.1 h₁.0.good
                (punct_is→token (codes "?") (cur_kind p₁) e) (omega arith)))
          (λ _. value h₁)

  parse_value-Reads :
      (target : Node R) (op : Text) (p : Parser R)
      → NodeIsClean target
      → Good p
      → is_eof_kind (cur_kind p) ≡ false
      → weight p.tokens ≤ suc f
      → Yields
          (λ (x : Node R × Parser R).
            Reads 1 (node_size x.0) (node_size target) p x.1 × NodeIsClean x.0)
          (parse_value u target op r p)
  unfolding parse_value node_size NodeIsClean
  parse_value-Reads target op p c g e b =
      let h = moved-Reads p g e in
      Yields-then (s.assign_lem (moved p) h.good (omega arith)) λ (v, p₁) h₁.
        value (record { good = h₁.0.good; shorter = omega arith; counted = omega arith }, (c, h₁.1))

  pub parse_assign-Reads :
      (p : Parser R) → Good p → weight p.tokens ≤ suc f → Yields (ReadsNode p) (parse_assign u r p)
  unfolding parse_assign
  parse_assign-Reads p g b = Yields-then (parse_conditional-Reads p g b) λ (left, p₁) h₁.
      from left p₁ h₁ (find (λ op. is_punct op p₁) (assign_ops u))
        (λ op. find→In (λ op'. is_punct op' p₁) (assign_ops u))
    where
      from :
          (left : Node R) (p₁ : Parser R)
          → ReadsNode p (left, p₁)
          → (o : Option Text)
          → ((op : Text) → o ≡ some op → In op (assign_ops u) × (is_punct op p₁ ≡ true))
          → Yields (ReadsNode p) (elim o [
            | none ↦ ok (left, p₁)
            | some op ↦ if is_target u left then parse_value u left op r p₁ else fail bad_target p₁
          ])
      from left p₁ h₁ none k = value h₁
      from left p₁ h₁ (some op) k =
          Yields-if (is_target u left)
            (λ _.
              Yields-map
                (λ x q.
                  (record { good = q.0.good; shorter = omega arith; counted = omega arith }, q.1))
                (parse_value-Reads left op p₁ h₁.1 h₁.0.good
                  (punct_is→token op (cur_kind p₁) (k op refl).1) (omega arith)))
            (λ _. refused)
