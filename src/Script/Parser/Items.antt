-- ===== src/Script/Parser/Items.antt =====
-- internal/script/parser.go: the loops over items, entries, statements and parameters keep the promise.
use laskah.Prelude.{ℕ, zero, suc, ◌≤◌, ◌≡◌, refl, false, Option, none, some, arith}
use laskah.Prelude.Text.{Text, codes}
use laskah.Script.Outcome.{ok, bad_key, Yields, value, refused, Yields-then, Yields-if}
use laskah.Script.Lexer.{
  Reader, Kind, eof, ident, number, string, template, punct, is_eof_kind, weight,
}
use laskah.Script.Syntax.{Node, Nodes, Entries, Stmts, no_nodes, no_entries}
use laskah.Script.Parser.{Parser, Again, cur_kind, is_punct, moved, fail}
use laskah.Script.Parser.Collections.{
  items_loop, parse_items, parse_args, parse_array, key_of, take_key, entries_loop, parse_object,
  block_loop, parse_block,
}
use laskah.Script.Parser.Sizes.{
  node_size, nodes_size, entries_size, stmts_size, NodeIsClean, NodesAreClean, EntriesAreClean,
  StmtsAreClean,
}
use laskah.Script.Parser.Reads.{
  Good, Reads, stay-Reads, moved-Reads, weight-positive, skip_punct-Reads, expect_punct-Reads,
  go_on, IsSound,
}

module _ {R : Type 0} (f : ℕ) (r : Again R) (s : IsSound f r) where
  abbrev ReadsNodes : ℕ → Parser R → Nodes R × Parser R → Type 0
  ReadsNodes d p (v, p') = Reads d (nodes_size v) 0 p p' × NodesAreClean v

  items_loop-Reads :
      (n : ℕ) (close : Text) (p : Parser R)
      → Good p
      → weight p.tokens ≤ n
      → weight p.tokens ≤ f
      → Yields (ReadsNodes 0 p) (items_loop n close r p)
  unfolding items_loop nodes_size NodesAreClean
  items_loop-Reads zero close p g w b = absurd (omega (arith, weight-positive p g))
  items_loop-Reads (suc n) close p g w b =
      Yields-if (is_punct close p) (λ _. value (stay-Reads p g, tt))
        (λ _. Yields-then (s.assign_lem p g b) λ (item, p₁) h₁.
          Yields-then (skip_punct-Reads (codes ",") p₁ h₁.0.good) λ (comma, p₂) h₂.
            Yields-then
              (go_on (ReadsNodes 0 p₂) comma (items_loop n close r p₂) no_nodes p₂
                (items_loop-Reads n close p₂ h₂.good (omega arith) (omega arith))
                (stay-Reads p₂ h₂.good, tt))
              λ (more, p₃) h₃. value (
                record { good = h₃.0.good; shorter = omega arith; counted = omega arith },
                (h₁.1, h₃.1),
              ))

  parse_items-Reads :
      (open_text close : Text) (p : Parser R)
      → Good p
      → weight p.tokens ≤ suc f
      → Yields (ReadsNodes 1 p) (parse_items open_text close r p)
  unfolding parse_items
  parse_items-Reads open_text close p g b =
      Yields-then (expect_punct-Reads open_text p g) λ (_, p₁) h₁.
        Yields-then
          (items_loop-Reads (weight p₁.tokens) close p₁ h₁.good (omega arith) (omega arith))
          λ (items, p₂) h₂. Yields-then (expect_punct-Reads close p₂ h₂.0.good) λ (_, p₃) h₃.
            value (record { good = h₃.good; shorter = omega arith; counted = omega arith }, h₂.1)

  pub parse_args-Reads :
      (p : Parser R) → Good p → weight p.tokens ≤ suc f → Yields (ReadsNodes 1 p) (parse_args r p)
  unfolding parse_args
  parse_args-Reads = parse_items-Reads (codes "(") (codes ")")

  -- What a primary expression promises: the count of `parsePrimary` came before.
  abbrev pub ReadsPart : Parser R → Node R × Parser R → Type 0
  ReadsPart p (v, p') = Reads 1 (node_size v) 1 p p' × NodeIsClean v

  pub parse_array-Reads :
      (p : Parser R) → Good p → weight p.tokens ≤ suc f → Yields (ReadsPart p) (parse_array r p)
  unfolding parse_array node_size NodeIsClean
  parse_array-Reads p g b =
      Yields-then (parse_items-Reads (codes "[") (codes "]") p g b) λ (items, p₁) h₁.
        value (record { good = h₁.0.good; shorter = omega arith; counted = omega arith }, h₁.1)

  key_of→token :
      (u : Reader R) (k : Kind R) (key : Text) → key_of u k ≡ some key → is_eof_kind k ≡ false
  unfolding key_of
  key_of→token u eof key e = cc
  key_of→token u (ident name) key e = refl
  key_of→token u (number v) key e = refl
  key_of→token u (string t) key e = refl
  key_of→token u (template chunks exprs) key e = refl
  key_of→token u (punct t) key e = refl

  take_key-Reads :
      (u : Reader R) (p : Parser R)
      → Good p
      → Yields (λ (x : Text × Parser R). Reads 1 0 0 p x.1) (take_key u p)
  unfolding take_key
  take_key-Reads u p g = from (key_of u (cur_kind p)) (λ key. key_of→token u (cur_kind p) key)
    where
      from :
          (o : Option Text)
          → ((key : Text) → o ≡ some key → is_eof_kind (cur_kind p) ≡ false)
          → Yields
              (λ (x : Text × Parser R). Reads 1 0 0 p x.1)
              (elim o [ none ↦ fail bad_key p | some key ↦ ok (key, moved p) ])
      from none h = refused
      from (some key) h = value (moved-Reads p g (h key refl))

  abbrev ReadsEntries : Parser R → Entries R × Parser R → Type 0
  ReadsEntries p (v, p') = Reads 0 (entries_size v) 0 p p' × EntriesAreClean v

  entries_loop-Reads :
      (u : Reader R) (n : ℕ) (p : Parser R)
      → Good p
      → weight p.tokens ≤ n
      → weight p.tokens ≤ f
      → Yields (ReadsEntries p) (entries_loop u n r p)
  unfolding entries_loop entries_size EntriesAreClean
  entries_loop-Reads u zero p g w b = absurd (omega (arith, weight-positive p g))
  entries_loop-Reads u (suc n) p g w b =
      Yields-if (is_punct (codes "}") p) (λ _. value (stay-Reads p g, tt))
        (λ _. Yields-then (take_key-Reads u p g) λ (key, p₁) h₁.
          Yields-then (expect_punct-Reads (codes ":") p₁ h₁.good) λ (_, p₂) h₂.
            Yields-then (s.assign_lem p₂ h₂.good (omega arith)) λ (item, p₃) h₃.
              Yields-then (skip_punct-Reads (codes ",") p₃ h₃.0.good) λ (comma, p₄) h₄.
                Yields-then
                  (go_on (ReadsEntries p₄) comma (entries_loop u n r p₄) no_entries p₄
                    (entries_loop-Reads u n p₄ h₄.good (omega arith) (omega arith))
                    (stay-Reads p₄ h₄.good, tt))
                  λ (more, p₅) h₅. value (
                    record { good = h₅.0.good; shorter = omega arith; counted = omega arith },
                    (h₃.1, h₅.1),
                  ))

  pub parse_object-Reads :
      (u : Reader R) (p : Parser R)
      → Good p
      → weight p.tokens ≤ suc f
      → Yields (ReadsPart p) (parse_object u r p)
  unfolding parse_object node_size NodeIsClean
  parse_object-Reads u p g b = Yields-then (expect_punct-Reads (codes "{") p g) λ (_, p₁) h₁.
      Yields-then (entries_loop-Reads u (weight p₁.tokens) p₁ h₁.good (omega arith) (omega arith))
        λ (entries, p₂) h₂. Yields-then (expect_punct-Reads (codes "}") p₂ h₂.0.good) λ (_, p₃) h₃.
          value (record { good = h₃.good; shorter = omega arith; counted = omega arith }, h₂.1)

  abbrev ReadsStmts : ℕ → Parser R → Stmts R × Parser R → Type 0
  ReadsStmts d p (v, p') = Reads d (stmts_size v) 0 p p' × StmtsAreClean v

  block_loop-Reads :
      (n : ℕ) (p : Parser R)
      → Good p
      → weight p.tokens ≤ n
      → weight p.tokens ≤ f
      → Yields (ReadsStmts 0 p) (block_loop n r p)
  unfolding block_loop stmts_size StmtsAreClean
  block_loop-Reads zero p g w b = absurd (omega (arith, weight-positive p g))
  block_loop-Reads (suc n) p g w b =
      Yields-if (is_punct (codes "}") p) (λ _. value (stay-Reads p g, tt))
        (λ _.
          Yields-if (is_eof_kind (cur_kind p)) (λ _. refused)
            (λ _. Yields-then (s.statement_lem p g b) λ (item, p₁) h₁.
              Yields-then (block_loop-Reads n p₁ h₁.0.good (omega arith) (omega arith))
                λ (more, p₂) h₂. value (
                  record { good = h₂.0.good; shorter = omega arith; counted = omega arith },
                  (h₁.1, h₂.1),
                )))

  pub parse_block-Reads :
      (p : Parser R) → Good p → weight p.tokens ≤ suc f → Yields (ReadsStmts 1 p) (parse_block r p)
  unfolding parse_block
  parse_block-Reads p g b = Yields-then (expect_punct-Reads (codes "{") p g) λ (_, p₁) h₁.
      Yields-then (block_loop-Reads (weight p₁.tokens) p₁ h₁.good (omega arith) (omega arith))
        λ (stmts, p₂) h₂. Yields-then (expect_punct-Reads (codes "}") p₂ h₂.0.good) λ (_, p₃) h₃.
          value (record { good = h₃.good; shorter = omega arith; counted = omega arith }, h₂.1)
