-- ===== src/Script/Parser/Primaries.antt =====
-- internal/script/parser.go: `parsePrimary` and the functions that it calls keep the promise.
use laskah.Prelude.{
  ℕ, suc, ◌+◌, ◌≤◌, ◌≡◌, refl, false, ◌||◌, Option, none, some, List, [], ◌∷◌, ◌==◌, nat_eq,
  if◌then◌else◌, Bool-cases, inl, inr, arith,
}
use laskah.Prelude.Text.{Text, codes, text_eq}
use laskah.Script.Outcome.{Outcome, Yields, value, refused, Yields-then, Yields-if, Yields-map}
use laskah.Script.Lexer.{
  Reader, Kind, eof, ident, number, string, template, punct, Token, is_eof, is_eof_kind, weight,
  source_weight, kind_weight,
}
use laskah.Script.Lexer.Enough.{Ended}
use laskah.Script.Syntax.{Node, num_lit, str_lit, bool_lit, null_lit, undef_lit, tmpl_lit}
use laskah.Script.Parser.{
  Parser, Again, kind_of, cur_kind, peek_kind, is_punct, punct_is, moved, parse_expression,
}
use laskah.Script.Parser.Primary.{
  is_banned, parse_arrow_body, parse_function, try_arrow_params, parse_name, parse_word,
  parse_group, parse_parenthesis, parse_punct, parse_sources, primary_at, parse_primary,
}
use laskah.Script.Parser.Sizes.{node_size, body_size, NodeIsClean, NodesAreClean, BodyIsClean}
use laskah.Script.Parser.Reads.{
  Good, Reads, moved-Reads, weight-positive, count_node-Reads, expect_punct-Reads, punct_is→token,
  ReadsNode, IsSound,
}
use laskah.Script.Parser.Items.{ReadsPart, parse_block-Reads, parse_array-Reads, parse_object-Reads}
use laskah.Script.Parser.Bodies.{params_loop-Reads, skip_name-Reads, try_arrow_params-shorter}

module _ {R : Type 0} where
  -- The promise passes through the count of `parseExpression`.
  pub parse_expression-Reads :
      (m : Parser R → Outcome (Node R × Parser R)) (b : ℕ)
      → ((p : Parser R) → Good p → weight p.tokens ≤ b → Yields (ReadsNode p) (m p))
      → (p : Parser R) → Good p
      → weight p.tokens ≤ b
      → Yields (ReadsNode p) (parse_expression m p)
  unfolding parse_expression
  parse_expression-Reads m b h p g w = Yields-then (count_node-Reads p g) λ (_, p₁) h₁.
      Yields-map
        (λ x q. (record { good = q.0.good; shorter = omega arith; counted = omega arith }, q.1))
        (h p₁ h₁.good (omega arith))

module _ {R : Type 0} (f : ℕ) (r : Again R) (s : IsSound f r) where
  parse_arrow_body-Reads :
      (params : List Text) (p : Parser R)
      → Good p
      → weight p.tokens ≤ f
      → Yields (ReadsPart f r s p) (parse_arrow_body params r p)
  unfolding parse_arrow_body node_size body_size NodeIsClean BodyIsClean
  parse_arrow_body-Reads params p g b =
      Yields-if (is_punct (codes "{") p)
        (λ _. Yields-then (parse_block-Reads f r s p g (omega arith)) λ (stmts, p₁) h₁.
          value (record { good = h₁.0.good; shorter = omega arith; counted = omega arith }, h₁.1))
        (λ _. Yields-then (s.assign_lem p g b) λ (expr, p₁) h₁.
          value (record { good = h₁.0.good; shorter = omega arith; counted = omega arith }, h₁.1))

  parse_function-Reads :
      (p : Parser R)
      → Good p
      → is_eof_kind (cur_kind p) ≡ false
      → weight p.tokens ≤ suc f
      → Yields (ReadsPart f r s p) (parse_function r p)
  unfolding parse_function node_size body_size NodeIsClean BodyIsClean
  parse_function-Reads p g e b =
      let h = moved-Reads p g e in
      Yields-then (skip_name-Reads (moved p) h.good) λ (_, p₁) h₁.
        Yields-then (expect_punct-Reads (codes "(") p₁ h₁.good) λ (_, p₂) h₂.
          Yields-then (params_loop-Reads (weight p₂.tokens) p₂ h₂.good (omega arith))
            λ (params, p₃) h₃. Yields-then (expect_punct-Reads (codes ")") p₃ h₃.good) λ (_, p₄) h₄.
              Yields-then (parse_block-Reads f r s p₄ h₄.good (omega arith)) λ (stmts, p₅) h₅.
                value
                  (record { good = h₅.0.good; shorter = omega arith; counted = omega arith }, h₅.1)

  -- A literal or a name takes one token.
  one_token :
      (p : Parser R) (v : Node R)
      → Good p
      → is_eof_kind (cur_kind p) ≡ false
      → node_size v ≡ 1
      → NodeIsClean v
      → ReadsPart f r s p (v, moved p)
  one_token p v g e n c =
      let h = moved-Reads p g e in
      (record { good = h.good; shorter = h.shorter; counted = omega (arith, n, h.counted) }, c)

  parse_name-Reads :
      (name : Text) (p : Parser R)
      → Good p
      → is_eof_kind (cur_kind p) ≡ false
      → weight p.tokens ≤ suc f
      → Yields (ReadsPart f r s p) (parse_name name r p)
  unfolding parse_name node_size NodeIsClean
  parse_name-Reads name p g e b =
      let h = moved-Reads p g e in
      Yields-if (is_banned name) (λ _. refused)
        (λ c.
          Yields-if (punct_is (codes "=>") (peek_kind p))
            (λ a.
              let h' = moved-Reads (moved p) h.good (punct_is→token (codes "=>") (peek_kind p) a) in
              Yields-map
                (λ x q.
                  (record { good = q.0.good; shorter = omega arith; counted = omega arith }, q.1))
                (parse_arrow_body-Reads (name ∷ []) (moved (moved p)) h'.good (omega arith)))
            (λ _. value (one_token p (Node.ident name) g e refl c)))

  parse_word-Reads :
      (name : Text) (p : Parser R)
      → Good p
      → is_eof_kind (cur_kind p) ≡ false
      → weight p.tokens ≤ suc f
      → Yields (ReadsPart f r s p) (parse_word name r p)
  unfolding parse_word node_size NodeIsClean
  parse_word-Reads name p g e b =
      Yields-if (name == codes "true" || name == codes "false")
        (λ _. value (one_token p (bool_lit (name == codes "true")) g e refl tt))
        (λ _.
          Yields-if (name == codes "null") (λ _. value (one_token p null_lit g e refl tt))
            (λ _.
              Yields-if (name == codes "undefined") (λ _. value (one_token p undef_lit g e refl tt))
                (λ _.
                  Yields-if (name == codes "function") (λ _. parse_function-Reads p g e b)
                    (λ _. parse_name-Reads name p g e b))))

  parse_group-Reads :
      (p : Parser R)
      → Good p
      → is_eof_kind (cur_kind p) ≡ false
      → weight p.tokens ≤ suc f
      → Yields (ReadsPart f r s p) (parse_group r p)
  unfolding parse_group
  parse_group-Reads p g e b =
      let h = moved-Reads p g e in
      Yields-then (parse_expression-Reads r.assign f s.assign_lem (moved p) h.good (omega arith))
        λ (expr, p₁) h₁. Yields-then (expect_punct-Reads (codes ")") p₁ h₁.0.good) λ (_, p₂) h₂.
          value (record { good = h₂.good; shorter = omega arith; counted = omega arith }, h₁.1)

  parse_parenthesis-Reads :
      (p : Parser R)
      → Good p
      → is_eof_kind (cur_kind p) ≡ false
      → weight p.tokens ≤ suc f
      → Yields (ReadsPart f r s p) (parse_parenthesis r p)
  unfolding parse_parenthesis
  parse_parenthesis-Reads p g e b =
      from (try_arrow_params p.tokens)
        (λ names behind. try_arrow_params-shorter p.tokens names behind g.ended)
    where
      from :
          (o : Option (List Text × List (Token R)))
          → ((names : List Text) (behind : List (Token R))
              → o ≡ some (names, behind)
              → Ended behind × (weight behind + 1 ≤ weight p.tokens))
          → Yields (ReadsPart f r s p) (elim o [
            | some (params, behind) ↦ parse_arrow_body params r (record p { tokens = behind })
            | none ↦ parse_group r p
          ])
      from none k = parse_group-Reads p g e b
      from (some (names, behind)) k =
          let found = k names behind refl in
          Yields-map
            (λ x q. (record { good = q.0.good; shorter = omega arith; counted = omega arith }, q.1))
            (parse_arrow_body-Reads names (record p { tokens = behind })
              (record { ended = found.0; bounded = g.bounded }) (omega (arith, found.1)))

  parse_punct-Reads :
      (u : Reader R) (text : Text) (p : Parser R)
      → Good p
      → is_eof_kind (cur_kind p) ≡ false
      → weight p.tokens ≤ suc f
      → Yields (ReadsPart f r s p) (parse_punct u text r p)
  unfolding parse_punct
  parse_punct-Reads u text p g e b =
      Yields-if (text == codes "(") (λ _. parse_parenthesis-Reads p g e b)
        (λ _.
          Yields-if (text == codes "{") (λ _. parse_object-Reads f r s u p g b)
            (λ _.
              Yields-if (text == codes "[") (λ _. parse_array-Reads f r s p g b) (λ _. refused)))

  -- The programs of a template are short enough for the fuel that is left.
  parse_sources-clean :
      (sources : List Text)
      → source_weight sources ≤ f
      → Yields NodesAreClean (parse_sources sources r)
  unfolding parse_sources NodesAreClean
  parse_sources-clean [] b = value tt
  parse_sources-clean (source ∷ sources) b =
      Yields-then (s.program_lem source (omega arith))
        λ sub c. Yields-then (parse_sources-clean sources (omega arith)) λ subs cs. value (c, cs)

  kind_weight-cur :
      (p : Parser R)
      → Good p
      → kind_weight (cur_kind p) + 1 ≤ weight p.tokens + (if is_eof_kind (cur_kind p) then 1 else 0)
  kind_weight-cur p g = from p.tokens g.ended
    where
      from :
          (ts : List (Token R))
          → Ended ts
          → kind_weight (kind_of ts) + 1 ≤ weight ts + (if is_eof_kind (kind_of ts) then 1 else 0)
      from [] h = absurd h
      from (t ∷ ts) h = elim (Bool-cases (is_eof t)) [
        | inl e ↦ rw e (omega arith)
        | inr e ↦ rw e (
            omega (
              arith,
              weight-positive (record { tokens = ts; nodes = 0 })
                  (record { ended = rw e at h; bounded = omega arith }),
            ))
      ]

  primary_at-Reads :
      (u : Reader R) (k : Kind R) (p : Parser R)
      → Good p
      → cur_kind p ≡ k
      → weight p.tokens ≤ suc f
      → Yields (ReadsPart f r s p) (primary_at u k r p)
  unfolding primary_at node_size NodeIsClean
  primary_at-Reads u eof p g e b = refused
  primary_at-Reads u (number v) p g e b = value (one_token p (num_lit v) g (rw e) refl tt)
  primary_at-Reads u (string text) p g e b = value (one_token p (str_lit text) g (rw e) refl tt)
  primary_at-Reads u (ident name) p g e b = parse_word-Reads name p g (rw e) b
  primary_at-Reads u (punct text) p g e b = parse_punct-Reads u text p g (rw e) b
  primary_at-Reads u (template chunks exprs) p g e b =
      let heavy : 1 + source_weight exprs + 1 ≤ weight p.tokens + 0 =
        rw e at (kind_weight-cur p g) in
      Yields-then (parse_sources-clean exprs (omega arith))
        λ subs c. value (one_token p (tmpl_lit chunks subs) g (rw e) refl c)

  pub parse_primary-Reads :
      (u : Reader R) (p : Parser R)
      → Good p
      → weight p.tokens ≤ suc f
      → Yields
          (λ (x : Node R × Parser R). Reads 1 (node_size x.0) 0 p x.1 × NodeIsClean x.0)
          (parse_primary u r p)
  unfolding parse_primary
  parse_primary-Reads u p g b = Yields-then (count_node-Reads p g) λ (_, p₁) h₁.
      Yields-map
        (λ x q. (record { good = q.0.good; shorter = omega arith; counted = omega arith }, q.1))
        (primary_at-Reads u (cur_kind p₁) p₁ h₁.good refl (omega arith))
