-- ===== src/Script/Parser/Collections.antt =====
-- internal/script/parser.go: `parseArgs`, `parseArray`, `parseObject` and `parseBlock`.
use laskah.Prelude.{ℕ, zero, suc, true, false, Option, none, some, nat_eq, if◌then◌else◌}
use laskah.Prelude.Text.{Text, codes, text_eq}
use laskah.Script.Outcome.{bad_key, brace_not_closed, ok, out_of_fuel}
use laskah.Script.Lexer.{Reader, Kind, ident, number, string, is_eof_kind, weight}
use laskah.Script.Syntax.{
  Node, Nodes, Entries, Stmts, obj_lit, arr_lit, no_nodes, node_then, no_entries, entry_then,
  no_stmts, stmt_then,
}
use laskah.Script.Parser.{
  Parse, pure, ◌>>=◌, ◌>>◌, Again, cur_kind, is_punct, moved, fail, skip_punct, expect_punct,
}

module _ {R : Type 0} where
  -- The loop of `parseArgs` and `parseArray`, up to the closing text.
  unfoldable pub items_loop : ℕ → Text → Again R → Parse R (Nodes R)
  unfolding skip_punct
  items_loop zero close r p = out_of_fuel
  items_loop (suc n) close r p =
      let items =
        (do
          item ← r.assign
          comma ← skip_punct (codes ",")
          more ← (λ p'. elim comma [ true ↦ items_loop n close r p' | false ↦ ok (no_nodes, p') ])
          pure (node_then item more))
          p in
      if is_punct close p then ok (no_nodes, p) else items

  -- A list between two texts.
  unfoldable pub parse_items : Text → Text → Again R → Parse R (Nodes R)
  unfolding items_loop expect_punct
  parse_items open_text close r = do
    expect_punct open_text
    items ← (λ p. items_loop (weight p.tokens) close r p)
    expect_punct close
    pure items

  unfoldable pub parse_args : Again R → Parse R (Nodes R)
  unfolding parse_items
  parse_args = parse_items (codes "(") (codes ")")

  unfoldable pub parse_array : Again R → Parse R (Node R)
  unfolding parse_items
  parse_array r = do items ← parse_items (codes "[") (codes "]") r; pure (arr_lit items)

  -- The key of an entry of an object.
  unfoldable pub key_of : Reader R → Kind R → Option Text
  key_of u (ident name) = some name
  key_of u (string text) = some text
  key_of u (number v) = some (u.format_float v)
  key_of u _ = none

  unfoldable pub take_key : Reader R → Parse R Text
  unfolding key_of
  take_key u p = elim (key_of u (cur_kind p)) [
    | none ↦ fail bad_key p
    | some key ↦ ok (key, moved p)
  ]

  unfoldable pub entries_loop : Reader R → ℕ → Again R → Parse R (Entries R)
  unfolding take_key skip_punct expect_punct
  entries_loop u zero r p = out_of_fuel
  entries_loop u (suc n) r p =
      let entries =
        (do
          key ← take_key u
          expect_punct (codes ":")
          item ← r.assign
          comma ← skip_punct (codes ",")
          more ← (λ p'. elim comma [ true ↦ entries_loop u n r p' | false ↦ ok (no_entries, p') ])
          pure (entry_then key item more))
          p in
      if is_punct (codes "}") p then ok (no_entries, p) else entries

  unfoldable pub parse_object : Reader R → Again R → Parse R (Node R)
  unfolding entries_loop expect_punct
  parse_object u r = do
    expect_punct (codes "{")
    entries ← (λ p. entries_loop u (weight p.tokens) r p)
    expect_punct (codes "}")
    pure (obj_lit entries)

  unfoldable pub block_loop : ℕ → Again R → Parse R (Stmts R)
  block_loop zero r p = out_of_fuel
  block_loop (suc n) r p =
      let stmts = (do item ← r.statement; more ← block_loop n r; pure (stmt_then item more)) p in
      if is_punct (codes "}") p
      then ok (no_stmts, p)
      else (if is_eof_kind (cur_kind p) then fail brace_not_closed p else stmts)

  unfoldable pub parse_block : Again R → Parse R (Stmts R)
  unfolding block_loop expect_punct
  parse_block r = do
    expect_punct (codes "{")
    body ← (λ p. block_loop (weight p.tokens) r p)
    expect_punct (codes "}")
    pure body
