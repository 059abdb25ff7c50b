-- ===== src/Script/Parser/Steps.antt =====
-- internal/script/parser.go: the statements that a keyword starts keep the promise.
use laskah.Prelude.{
  ℕ, zero, suc, ◌+◌, ◌≤◌, ◌≡◌, refl, Bool, true, false, ◌||◌, Option, none, some, Bool-cases, inl,
  inr, arith,
}
use laskah.Prelude.Text.{Text, codes}
use laskah.Script.Outcome.{
  ok, then_do, bad_variable, Yields, value, refused, Yields-then, Yields-if, Yields-map,
}
use laskah.Script.Lexer.{is_eof_kind, weight}
use laskah.Script.Syntax.{Node, Stmt, Decls, no_decls}
use laskah.Script.Parser.{Parser, Again, cur_kind, is_punct, is_keyword, moved}
use laskah.Script.Parser.Statements.{
  is_declaration, parse_init, put_decl, decls_loop, parse_var_decl, parse_return_value, return_at,
  parse_return, parse_else, parse_if, skip_declaration, expect_of, parse_for_of,
}
use laskah.Script.Parser.Sizes.{
  node_size, stmt_size, decls_size, NodeIsClean, StmtIsClean, DeclsAreClean,
}
use laskah.Script.Parser.Reads.{
  Good, Reads, stay-Reads, moved-Reads, weight-positive, skip_punct-Reads, expect_punct-Reads,
  take_name-Reads, word_is→token, go_on, IsSound,
}
use laskah.Script.Parser.Primaries.{parse_expression-Reads}

module _ {R : Type 0} where
  -- The size of a value that may be missing, and whether it is clean.
  abbrev init_size : Option (Node R) → ℕ
  init_size none = 0
  init_size (some v) = node_size v

  abbrev InitIsClean : Option (Node R) → Type 0
  InitIsClean none = Unit
  InitIsClean (some v) = NodeIsClean v

  put_decl_lem :
      (name : Text) (o : Option (Node R)) (decls : Decls R)
      → (decls_size (put_decl name o decls) ≡ init_size o + decls_size decls)
        × (InitIsClean o → DeclsAreClean decls → DeclsAreClean (put_decl name o decls))
  unfolding decls_size DeclsAreClean
  put_decl_lem name none decls = (omega arith, λ _ c. c)
  put_decl_lem name (some v) decls = (refl, λ c d. (c, d))

  pub is_declaration→token :
      (p : Parser R) → is_declaration p ≡ true → is_eof_kind (cur_kind p) ≡ false
  is_declaration→token p e = elim (Bool-cases (is_keyword (codes "var") p)) [
    | inl w ↦ word_is→token (codes "var") (cur_kind p) w
    | inr w ↦ elim (Bool-cases (is_keyword (codes "let") p)) [
      | inl w' ↦ word_is→token (codes "let") (cur_kind p) w'
      | inr w' ↦ word_is→token (codes "const") (cur_kind p) (rw (w, w') at e)
    ]
  ]

  skip_declaration-Reads :
      (p : Parser R)
      → Good p
      → Yields (λ (x : Unit × Parser R). Reads 0 0 0 p x.1) (skip_declaration p)
  unfolding skip_declaration
  skip_declaration-Reads p g =
      Yields-if (is_declaration p) (λ e. value (less (moved-Reads p g (is_declaration→token p e))))
        (λ _. value (stay-Reads p g))
    where
      less : Reads 1 0 0 p (moved p) → Reads 0 0 0 p (moved p)
      less m = record { good = m.good; shorter = omega arith; counted = m.counted }

  expect_of-Reads :
      (p : Parser R) → Good p → Yields (λ (x : Unit × Parser R). Reads 1 0 0 p x.1) (expect_of p)
  unfolding expect_of
  expect_of-Reads p g =
      Yields-if (is_keyword (codes "of") p)
        (λ e. value (moved-Reads p g (word_is→token (codes "of") (cur_kind p) e))) (λ _. refused)

module _ {R : Type 0} (f : ℕ) (r : Again R) (s : IsSound f r) where
  parse_init-Reads :
      (p : Parser R)
      → Good p
      → weight p.tokens ≤ f
      → Yields
          (λ (x : Option (Node R) × Parser R). Reads 0 (init_size x.0) 0 p x.1 × InitIsClean x.0)
          (parse_init r p)
  unfolding parse_init
  parse_init-Reads p g b =
      Yields-then (skip_punct-Reads (codes "=") p g) λ (has_value, p₁) h₁. from has_value p₁ h₁
    where
      from :
          (has_value : Bool) (p₁ : Parser R)
          → Reads 0 0 0 p p₁
          → Yields
              (λ (x : Option (Node R) × Parser R).
                Reads 0 (init_size x.0) 0 p x.1 × InitIsClean x.0)
              (elim has_value [
                | true ↦ then_do (r.assign p₁) λ (v, p'). ok (some v, p')
                | false ↦ ok (none, p₁)
              ])
      from true p₁ h₁ = Yields-then (s.assign_lem p₁ h₁.good (omega arith)) λ (v, p₂) h₂.
          value (record { good = h₂.0.good; shorter = omega arith; counted = omega arith }, h₂.1)
      from false p₁ h₁ = value (h₁, tt)

  abbrev ReadsDecls : Parser R → Decls R × Parser R → Type 0
  ReadsDecls p (v, p') = Reads 0 (decls_size v) 0 p p' × DeclsAreClean v

  decls_loop-Reads :
      (n : ℕ) (p : Parser R)
      → Good p
      → weight p.tokens ≤ n
      → weight p.tokens ≤ f
      → Yields (ReadsDecls p) (decls_loop n r p)
  unfolding decls_loop decls_size DeclsAreClean
  decls_loop-Reads zero p g w b = absurd (omega (arith, weight-positive p g))
  decls_loop-Reads (suc n) p g w b = Yields-then (take_name-Reads bad_variable p g) λ (name, p₁) h₁.
      Yields-then (parse_init-Reads p₁ h₁.good (omega arith)) λ (init, p₂) h₂.
        Yields-then (skip_punct-Reads (codes ",") p₂ h₂.0.good) λ (comma, p₃) h₃.
          Yields-then
            (go_on (ReadsDecls p₃) comma (decls_loop n r p₃) no_decls p₃
              (decls_loop-Reads n p₃ h₃.good (omega arith) (omega arith))
              (stay-Reads p₃ h₃.good, tt))
            λ (more, p₄) h₄. value (
              record {
                good = h₄.0.good;
                shorter = omega arith;
                counted = omega (arith, (put_decl_lem name init more).0);
              },
              (put_decl_lem name init more).1 h₂.1 h₄.1,
            )

  -- The statements promise one count less, since `parseStatement` counted before.
  abbrev pub ReadsRest : Parser R → Stmt R × Parser R → Type 0
  ReadsRest p (v, p') = Reads 1 (stmt_size v) 1 p p' × StmtIsClean v

  pub parse_var_decl-Reads :
      (p : Parser R)
      → Good p
      → is_eof_kind (cur_kind p) ≡ false
      → weight p.tokens ≤ suc f
      → Yields (ReadsRest p) (parse_var_decl r p)
  unfolding parse_var_decl stmt_size StmtIsClean
  parse_var_decl-Reads p g e b =
      let h = moved-Reads p g e in
      Yields-then
        (decls_loop-Reads (suc (weight (moved p).tokens)) (moved p) h.good (omega arith)
          (omega arith))
        λ (decls, p₁) h₁. Yields-then (skip_punct-Reads (codes ";") p₁ h₁.0.good) λ (_, p₂) h₂.
          value (record { good = h₂.good; shorter = omega arith; counted = omega arith }, h₁.1)

  parse_return_value-Reads :
      (p : Parser R) → Good p → weight p.tokens ≤ f → Yields (ReadsRest p) (parse_return_value r p)
  unfolding parse_return_value stmt_size StmtIsClean
  parse_return_value-Reads p g b =
      Yields-then (parse_expression-Reads r.assign f s.assign_lem p g b) λ (arg, p₁) h₁.
        Yields-then (skip_punct-Reads (codes ";") p₁ h₁.0.good) λ (_, p₂) h₂.
          value (record { good = h₂.good; shorter = omega arith; counted = omega arith }, h₁.1)

  pub parse_return-Reads :
      (p : Parser R)
      → Good p
      → is_eof_kind (cur_kind p) ≡ false
      → weight p.tokens ≤ suc f
      → Yields (ReadsRest p) (parse_return r p)
  unfolding parse_return return_at stmt_size StmtIsClean
  parse_return-Reads p g e b =
      let h = moved-Reads p g e in
      Yields-if (is_punct (codes ";") (moved p) || is_punct (codes "}") (moved p))
        (λ _. Yields-then (skip_punct-Reads (codes ";") (moved p) h.good) λ (_, p₁) h₁.
          value (record { good = h₁.good; shorter = omega arith; counted = omega arith }, tt))
        (λ _.
          Yields-map
            (λ x q. (record { good = q.0.good; shorter = omega arith; counted = omega arith }, q.1))
            (parse_return_value-Reads (moved p) h.good (omega arith)))

  -- What `parseIf` has read before `else`.
  parse_else-Reads :
      (test : Node R) (cons : Stmt R) (p : Parser R)
      → NodeIsClean test
      → StmtIsClean cons
      → Good p
      → weight p.tokens ≤ f
      → Yields
          (λ (x : Stmt R × Parser R).
            Reads 0 (stmt_size x.0) (node_size test + stmt_size cons + 1) p x.1 × StmtIsClean x.0)
          (parse_else test cons r p)
  unfolding parse_else stmt_size StmtIsClean
  parse_else-Reads test cons p c d g b =
      Yields-if (is_keyword (codes "else") p)
        (λ e.
          let h = moved-Reads p g (word_is→token (codes "else") (cur_kind p) e) in
          Yields-then (s.statement_lem (moved p) h.good (omega arith)) λ (alt, p₁) h₁. value (
            record { good = h₁.0.good; shorter = omega arith; counted = omega arith },
            (c, d, h₁.1),
          ))
        (λ _. value (record { good = g; shorter = omega arith; counted = omega arith }, (c, d)))

  pub parse_if-Reads :
      (p : Parser R)
      → Good p
      → is_eof_kind (cur_kind p) ≡ false
      → weight p.tokens ≤ suc f
      → Yields (ReadsRest p) (parse_if r p)
  unfolding parse_if
  parse_if-Reads p g e b =
      let h = moved-Reads p g e in
      Yields-then (expect_punct-Reads (codes "(") (moved p) h.good) λ (_, p₁) h₁.
        Yields-then (parse_expression-Reads r.assign f s.assign_lem p₁ h₁.good (omega arith))
          λ (test, p₂) h₂. Yields-then (expect_punct-Reads (codes ")") p₂ h₂.0.good) λ (_, p₃) h₃.
            Yields-then (s.statement_lem p₃ h₃.good (omega arith)) λ (cons, p₄) h₄.
              Yields-map
                (λ x q.
                  (record { good = q.0.good; shorter = omega arith; counted = omega arith }, q.1))
                (parse_else-Reads test cons p₄ h₂.1 h₄.1 h₄.0.good (omega arith))

  pub parse_for_of-Reads :
      (p : Parser R)
      → Good p
      → is_eof_kind (cur_kind p) ≡ false
      → weight p.tokens ≤ suc f
      → Yields (ReadsRest p) (parse_for_of r p)
  unfolding parse_for_of stmt_size StmtIsClean
  parse_for_of-Reads p g e b =
      let h = moved-Reads p g e in
      Yields-then (expect_punct-Reads (codes "(") (moved p) h.good) λ (_, p₁) h₁.
        Yields-then (skip_declaration-Reads p₁ h₁.good) λ (_, p₂) h₂.
          Yields-then (take_name-Reads bad_variable p₂ h₂.good) λ (name, p₃) h₃.
            Yields-then (expect_of-Reads p₃ h₃.good) λ (_, p₄) h₄.
              Yields-then (parse_expression-Reads r.assign f s.assign_lem p₄ h₄.good (omega arith))
                λ (iter, p₅) h₅.
                  Yields-then (expect_punct-Reads (codes ")") p₅ h₅.0.good) λ (_, p₆) h₆.
                    Yields-then (s.statement_lem p₆ h₆.good (omega arith)) λ (body, p₇) h₇. value (
                      record { good = h₇.0.good; shorter = omega arith; counted = omega arith },
                      (h₅.1, h₇.1),
                    )
