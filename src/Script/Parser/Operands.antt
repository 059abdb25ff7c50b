-- ===== src/Script/Parser/Operands.antt =====
-- internal/script/parser.go: the levels from `parseUnary` up to `parseAssign` keep the promise.
use laskah.Prelude.{
  ℕ, zero, suc, ◌+◌, ◌≤◌, ◌≡◌, refl, true, false, Option, none, some, List, find, In, find→In,
  Bool-cases, inl, inr, arith,
}
use laskah.Prelude.Text.{Text, codes}
use laskah.Script.Outcome.{ok, then_do, Yields, value, Yields-then, Yields-if, Yields-map}
use laskah.Script.Lexer.{Reader, is_eof_kind, weight}
use laskah.Script.Syntax.{Node, binary, logical}
use laskah.Script.Parser.{Parser, Parse, Again, cur_kind, count_node, is_punct, moved}
use laskah.Script.Parser.Operators.{
  is_unary, kind_text, parse_prefix, parse_unary, level_loop, parse_level, parse_multiplicative,
  parse_additive, parse_relational, parse_equality, parse_logical_and, parse_logical_or,
}
use laskah.Script.Parser.Sizes.{node_size, NodeIsClean}
use laskah.Script.Parser.Reads.{
  Good, Reads, moved-Reads, weight-positive, count_node-Reads, punct_is→token, word_is→token,
  ReadsNode, IsSound,
}
use laskah.Script.Parser.Levels.{parse_postfix-Reads}

module _ {R : Type 0} (u : Reader R) (f : ℕ) (r : Again R) (s : IsSound f r) where
  is_unary→token : (p : Parser R) → is_unary u p ≡ true → is_eof_kind (cur_kind p) ≡ false
  is_unary→token p e = elim (Bool-cases (is_punct (codes "!") p)) [
    | inl w ↦ punct_is→token (codes "!") (cur_kind p) w
    | inr w ↦ elim (Bool-cases (is_punct (codes "-") p)) [
      | inl w' ↦ punct_is→token (codes "-") (cur_kind p) w'
      | inr w' ↦ elim (Bool-cases (is_punct (codes "+") p)) [
        | inl v ↦ punct_is→token (codes "+") (cur_kind p) v
        | inr v ↦ word_is→token (codes "typeof") (cur_kind p) (rw (w, w', v) at e)
      ]
    ]
  ]

  parse_prefix-Reads :
      (op : Text) (p : Parser R)
      → Good p
      → is_eof_kind (cur_kind p) ≡ false
      → weight p.tokens ≤ suc f
      → Yields (ReadsNode p) (parse_prefix u op r p)
  unfolding parse_prefix node_size NodeIsClean
  parse_prefix-Reads op p g e b =
      let h = moved-Reads p g e in
      Yields-then (s.unary_lem (moved p) h.good (omega arith)) λ (arg, p₁) h₁.
        Yields-then (count_node-Reads p₁ h₁.0.good) λ (_, p₂) h₂.
          value (record { good = h₂.good; shorter = omega arith; counted = omega arith }, h₁.1)

  pub parse_unary-Reads :
      (p : Parser R) → Good p → weight p.tokens ≤ suc f → Yields (ReadsNode p) (parse_unary u r p)
  unfolding parse_unary
  parse_unary-Reads p g b =
      Yields-if (is_unary u p)
        (λ e. parse_prefix-Reads (kind_text u (cur_kind p)) p g (is_unary→token p e) b)
        (λ _. parse_postfix-Reads u f r s p g b)

  -- A level makes one node of two.
  abbrev Makes : (Text → Node R → Node R → Node R) → Type 0
  Makes make =
      (op : Text) (left right : Node R)
      → (node_size (make op left right) ≡ suc (node_size left + node_size right))
        × (NodeIsClean left → NodeIsClean right → NodeIsClean (make op left right))

  binary-Makes : Makes binary
  unfolding node_size NodeIsClean
  binary-Makes op left right = (refl, λ c d. (c, d))

  logical-Makes : Makes logical
  unfolding node_size NodeIsClean
  logical-Makes op left right = (refl, λ c d. (c, d))

  abbrev ReadsAll : Parse R (Node R) → Type 0
  ReadsAll next = (p : Parser R) → Good p → weight p.tokens ≤ suc f → Yields (ReadsNode p) (next p)

  level_loop-Reads :
      (n : ℕ) (make : Text → Node R → Node R → Node R) (ops : List Text) (next : Parse R (Node R))
      (left : Node R) (p : Parser R)
      → Makes make
      → ReadsAll next
      → NodeIsClean left
      → Good p
      → weight p.tokens ≤ n
      → weight p.tokens ≤ suc f
      → Yields
          (λ (x : Node R × Parser R).
            Reads 0 (node_size x.0) (node_size left) p x.1 × NodeIsClean x.0)
          (level_loop u n make ops next left p)
  unfolding level_loop
  level_loop-Reads zero make ops next left p mk nx c g w b =
      absurd (omega (arith, weight-positive p g))
  level_loop-Reads (suc n) make ops next left p mk nx c g w b =
      from (find (λ op. is_punct op p) ops) (λ op. find→In (λ op'. is_punct op' p) ops)
        (λ left' p' c' g' w' b'. level_loop-Reads n make ops next left' p' mk nx c' g' w' b')
    where
      from :
          (o : Option Text)
          → ((op : Text) → o ≡ some op → In op ops × (is_punct op p ≡ true))
          → ((left' : Node R) (p' : Parser R)
              → NodeIsClean left'
              → Good p'
              → weight p'.tokens ≤ n
              → weight p'.tokens ≤ suc f
              → Yields
                  (λ (x : Node R × Parser R).
                    Reads 0 (node_size x.0) (node_size left') p' x.1 × NodeIsClean x.0)
                  (level_loop u n make ops next left' p'))
          → Yields
              (λ (x : Node R × Parser R).
                Reads 0 (node_size x.0) (node_size left) p x.1 × NodeIsClean x.0)
              (elim o [
                | none ↦ ok (left, p)
                | some op ↦ then_do (next (moved p)) λ (right, p').
                    then_do
                      (count_node p')
                      λ (_, p''). level_loop u n make ops next (make op left right) p''
              ])
      from none k ih = value (record { good = g; shorter = omega arith; counted = omega arith }, c)
      from (some op) k ih =
          let h = moved-Reads p g (punct_is→token op (cur_kind p) (k op refl).1) in
          Yields-then (nx (moved p) h.good (omega arith)) λ (right, p₁) h₁.
            Yields-then (count_node-Reads p₁ h₁.0.good) λ (_, p₂) h₂.
              Yields-map
                (λ x q. (
                  record {
                    good = q.0.good;
                    shorter = omega arith;
                    counted = omega (arith, (mk op left right).0);
                  },
                  q.1,
                ))
                (ih (make op left right) p₂ ((mk op left right).1 c h₁.1) h₂.good (omega arith)
                  (omega arith))

  parse_level-Reads :
      (make : Text → Node R → Node R → Node R) (ops : List Text) (next : Parse R (Node R))
      → Makes make
      → ReadsAll next
      → ReadsAll (parse_level u make ops next)
  unfolding parse_level
  parse_level-Reads make ops next mk nx p g b = Yields-then (nx p g b) λ (left, p₁) h₁.
      Yields-map
        (λ x q. (record { good = q.0.good; shorter = omega arith; counted = omega arith }, q.1))
        (level_loop-Reads (suc (weight p₁.tokens)) make ops next left p₁ mk nx h₁.1 h₁.0.good
          (omega arith) (omega arith))

  parse_multiplicative-Reads : ReadsAll (parse_multiplicative u r)
  unfolding parse_multiplicative
  parse_multiplicative-Reads = parse_level-Reads binary _ _ binary-Makes parse_unary-Reads

  parse_additive-Reads : ReadsAll (parse_additive u r)
  unfolding parse_additive
  parse_additive-Reads = parse_level-Reads binary _ _ binary-Makes parse_multiplicative-Reads

  parse_relational-Reads : ReadsAll (parse_relational u r)
  unfolding parse_relational
  parse_relational-Reads = parse_level-Reads binary _ _ binary-Makes parse_additive-Reads

  parse_equality-Reads : ReadsAll (parse_equality u r)
  unfolding parse_equality
  parse_equality-Reads = parse_level-Reads binary _ _ binary-Makes parse_relational-Reads

  parse_logical_and-Reads : ReadsAll (parse_logical_and u r)
  unfolding parse_logical_and
  parse_logical_and-Reads = parse_level-Reads logical _ _ logical-Makes parse_equality-Reads

  pub parse_logical_or-Reads : ReadsAll (parse_logical_or u r)
  unfolding parse_logical_or
  parse_logical_or-Reads = parse_level-Reads logical _ _ logical-Makes parse_logical_and-Reads
