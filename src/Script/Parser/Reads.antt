-- ===== src/Script/Parser/Reads.antt =====
-- What a function of the parser promises: it takes tokens from the front and never the end token, it
-- counts the nodes that it builds, and stops at the limit.
use laskah.Prelude.{
  ℕ, ◌+◌, ◌≤◌, ◌≡◌, refl, Bool, true, false, List, [], ◌∷◌, drop, length, leb, arith, leb→le,
}
use laskah.Prelude.Text.{Text}
use laskah.Script.Outcome.{Fault, Outcome, ok, Yields, value, refused, Yields-if}
use laskah.Script.Lexer.{
  Kind, eof, ident, number, string, template, punct, Token, is_eof_kind, kind_weight, weight,
}
use laskah.Script.Lexer.Enough.{Ended}
use laskah.Script.Syntax.{Node, Stmt}
use laskah.Script.Parser.{
  Parser, Again, max_nodes, kind_of, cur_kind, count_node, punct_is, word_is, is_ident, is_punct,
  moved, skip_punct, expect_punct, take_name,
}
use laskah.Script.Parser.Sizes.{node_size, stmt_size, NodeIsClean, StmtIsClean}

module _ {R : Type 0} where
  pub record Good (p : Parser R) : Type 0 where
    pub ended : Ended p.tokens
    pub bounded : p.nodes ≤ max_nodes

  -- From `p` to `p'` at least `d` tokens were taken, and the count rose by at least `n` less `b`.
  pub record Reads (d n b : ℕ) (p p' : Parser R) : Type 0 where
    pub good : Good p'
    pub shorter : weight p'.tokens + d ≤ weight p.tokens
    pub counted : p.nodes + n ≤ p'.nodes + b

  pub kind_weight-positive : (k : Kind R) → 1 ≤ kind_weight k
  kind_weight-positive eof = omega arith
  kind_weight-positive (ident name) = omega arith
  kind_weight-positive (number v) = omega arith
  kind_weight-positive (string text) = omega arith
  kind_weight-positive (template chunks exprs) = omega arith
  kind_weight-positive (punct text) = omega arith

  pub weight-positive : (p : Parser R) → Good p → 1 ≤ weight p.tokens
  weight-positive p g = from p.tokens g.ended
    where
      from : (ts : List (Token R)) → Ended ts → 1 ≤ weight ts
      from [] h = absurd h
      from (t ∷ ts) h = omega (arith, kind_weight-positive t.kind)

  -- The token at the front is not the end token: it can be taken.
  pub moved-Reads :
      (p : Parser R) → Good p → is_eof_kind (cur_kind p) ≡ false → Reads 1 0 0 p (moved p)
  moved-Reads p g e = from p.tokens g.ended e
    where
      from :
          (ts : List (Token R))
          → Ended ts
          → is_eof_kind (kind_of ts) ≡ false
          → Reads 1 0 0 (record p { tokens = ts }) (record p { tokens = drop 1 ts })
      from [] h e' = absurd h
      from (t ∷ ts) h e' = record {
        good = record { ended = rw e' at h; bounded = g.bounded };
        shorter = omega (arith, kind_weight-positive t.kind);
        counted = omega arith;
      }

  pub punct_is→token : (text : Text) (k : Kind R) → punct_is text k ≡ true → is_eof_kind k ≡ false
  unfolding punct_is
  punct_is→token text (punct t) e = refl
  punct_is→token text eof e = cc
  punct_is→token text (ident name) e = refl
  punct_is→token text (number v) e = refl
  punct_is→token text (string t) e = refl
  punct_is→token text (template chunks exprs) e = refl

  pub word_is→token : (word : Text) (k : Kind R) → word_is word k ≡ true → is_eof_kind k ≡ false
  unfolding word_is
  word_is→token word eof e = cc
  word_is→token word (punct t) e = refl
  word_is→token word (ident name) e = refl
  word_is→token word (number v) e = refl
  word_is→token word (string t) e = refl
  word_is→token word (template chunks exprs) e = refl

  pub is_ident→token : (k : Kind R) → is_ident k ≡ true → is_eof_kind k ≡ false
  is_ident→token eof e = cc
  is_ident→token (punct t) e = refl
  is_ident→token (ident name) e = refl
  is_ident→token (number v) e = refl
  is_ident→token (string t) e = refl
  is_ident→token (template chunks exprs) e = refl

  pub stay-Reads : (p : Parser R) → Good p → Reads 0 0 0 p p
  stay-Reads p g = record { good = g; shorter = omega arith; counted = omega arith }

  pub count_node-Reads :
      (p : Parser R) → Good p → Yields (λ (x : Unit × Parser R). Reads 0 1 0 p x.1) (count_node p)
  unfolding count_node
  count_node-Reads p g =
      Yields-if (leb (p.nodes + 1) max_nodes)
        (λ e. value (record {
          good = record { ended = g.ended; bounded = leb→le (p.nodes + 1) max_nodes e };
          shorter = omega arith;
          counted = omega arith;
        }))
        (λ _. refused)

  pub skip_punct-Reads :
      (text : Text) (p : Parser R)
      → Good p
      → Yields (λ (x : Bool × Parser R). Reads 0 0 0 p x.1) (skip_punct text p)
  unfolding skip_punct
  skip_punct-Reads text p g =
      Yields-if (is_punct text p)
        (λ e. value (less (moved-Reads p g (punct_is→token text (cur_kind p) e))))
        (λ _. value (stay-Reads p g))
    where
      less : Reads 1 0 0 p (moved p) → Reads 0 0 0 p (moved p)
      less r = record { good = r.good; shorter = omega arith; counted = r.counted }

  pub expect_punct-Reads :
      (text : Text) (p : Parser R)
      → Good p
      → Yields (λ (x : Unit × Parser R). Reads 1 0 0 p x.1) (expect_punct text p)
  unfolding expect_punct
  expect_punct-Reads text p g =
      Yields-if (is_punct text p)
        (λ e. value (moved-Reads p g (punct_is→token text (cur_kind p) e))) (λ _. refused)

  pub take_name-Reads :
      (w : ℕ → Fault) (p : Parser R)
      → Good p
      → Yields (λ (x : Text × Parser R). Reads 1 0 0 p x.1) (take_name w p)
  unfolding take_name
  take_name-Reads w p g =
      Yields-if (is_ident (cur_kind p))
        (λ e. value (moved-Reads p g (is_ident→token (cur_kind p) e))) (λ _. refused)

  -- After a comma the loop goes on, otherwise it ends.
  pub go_on :
      {A : Type 0} (Q : A × Parser R → Type 0) (comma : Bool) (m : Outcome (A × Parser R)) (v : A)
      (p : Parser R)
      → Yields Q m
      → Q (v, p)
      → Yields Q (elim comma [ true ↦ m | false ↦ ok (v, p) ])
  go_on Q true m v p y q = y
  go_on Q false m v p y q = value q

  -- The promise for an expression, which leaves one count to spare, and for a statement.
  abbrev pub ReadsNode : Parser R → Node R × Parser R → Type 0
  ReadsNode p (v, p') = Reads 1 (node_size v + 1) 0 p p' × NodeIsClean v

  abbrev pub ReadsStmt : Parser R → Stmt R × Parser R → Type 0
  ReadsStmt p (v, p') = Reads 1 (stmt_size v) 0 p p' × StmtIsClean v

  -- The functions called again keep their promise where at most `f` is left to read.
  pub record IsSound (f : ℕ) (r : Again R) : Type 0 where
    pub assign_lem :
        (p : Parser R) → Good p → weight p.tokens ≤ f → Yields (ReadsNode p) (r.assign p)
    pub unary_lem : (p : Parser R) → Good p → weight p.tokens ≤ f → Yields (ReadsNode p) (r.unary p)
    pub statement_lem :
        (p : Parser R) → Good p → weight p.tokens ≤ f → Yields (ReadsStmt p) (r.statement p)
    pub program_lem :
        (source : Text) → length source + 1 ≤ f → Yields NodeIsClean (r.program source)
