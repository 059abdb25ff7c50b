-- ===== src/Script/Parser/Primary.antt =====
-- internal/script/parser.go: `parsePrimary` and what it calls.
use laskah.Prelude.{
  ℕ, zero, suc, ◌+◌, ◌-◌, Bool, true, false, ◌&&◌, ◌||◌, Option, none, some, List, [], ◌∷◌, ◌==◌,
  nat_eq, if◌then◌else◌, drop, any,
}
use laskah.Prelude.Text.{Text, codes, text_eq}
use laskah.Script.Outcome.{bad_parameter, bad_token, banned, Outcome, ok, out_of_fuel, then_do}
use laskah.Script.Lexer.{
  Reader, Kind, eof, ident, number, string, template, punct, Token, is_eof, weight,
}
use laskah.Script.Syntax.{
  Node, Nodes, Entries, Body, Stmt, Stmts, num_lit, str_lit, bool_lit, null_lit, undef_lit,
  tmpl_lit, obj_lit, arr_lit, fn_lit, no_nodes, node_then, no_entries, entry_then, block_body,
  expr_body, no_stmts, stmt_then,
}
use laskah.Script.Syntax
use laskah.Script.Parser.{
  Parse, pure, ◌>>=◌, ◌>>◌, Again, kind_of, cur_kind, peek_kind, count_node, punct_is, is_ident,
  ident_text, is_punct, moved, advance, fail, skip_punct, expect_punct, take_name, parse_expression,
}
use laskah.Script.Parser.Collections.{parse_array, parse_object, parse_block}

abbrev pub banned_idents : List Text
banned_idents =
    codes "require"
    ∷ codes "import"
    ∷ codes "process"
    ∷ codes "globalThis"
    ∷ codes "global"
    ∷ codes "eval"
    ∷ codes "Function"
    ∷ codes "fetch"
    ∷ codes "XMLHttpRequest"
    ∷ codes "WebSocket"
    ∷ codes "setTimeout"
    ∷ codes "setInterval"
    ∷ codes "Buffer"
    ∷ codes "window"
    ∷ codes "document"
    ∷ codes "new"
    ∷ codes "class"
    ∷ codes "async"
    ∷ codes "await"
    ∷ codes "yield"
    ∷ codes "this"
    ∷ codes "try"
    ∷ codes "catch"
    ∷ codes "throw"
    ∷ codes "while"
    ∷ codes "do"
    ∷ codes "switch"
    ∷ codes "delete"
    ∷ codes "void"
    ∷ codes "in"
    ∷ codes "instanceof"
    ∷ []

unfoldable pub is_banned : Text → Bool
is_banned name = any (λ w. w == name) banned_idents

module _ {R : Type 0} where
  unfoldable pub parse_arrow_body : List Text → Again R → Parse R (Node R)
  unfolding parse_block
  parse_arrow_body params r p =
      let block = (do body ← parse_block r; pure (fn_lit params (block_body body))) p in
      let expr = (do body ← r.assign; pure (fn_lit params (expr_body body))) p in
      if is_punct (codes "{") p then block else expr

  -- The loop over the parameters of a function.
  unfoldable pub params_loop : ℕ → Parse R (List Text)
  unfolding take_name skip_punct
  params_loop zero p = out_of_fuel
  params_loop (suc n) p =
      let params =
        (do
          name ← take_name bad_parameter
          comma ← skip_punct (codes ",")
          more ← (λ p'. elim comma [ true ↦ params_loop n p' | false ↦ ok ([], p') ])
          pure (name ∷ more))
          p in
      if is_punct (codes ")") p then ok ([], p) else params

  -- The name of a function expression, which is ignored.
  unfoldable pub skip_name : Parse R (Unit {0})
  skip_name p = if is_ident (cur_kind p) then advance p else ok (tt, p)

  unfoldable pub parse_function : Again R → Parse R (Node R)
  unfolding skip_name params_loop expect_punct parse_block
  parse_function r = do
    advance
    skip_name
    expect_punct (codes "(")
    params ← (λ p. params_loop (weight p.tokens) p)
    expect_punct (codes ")")
    body ← parse_block r
    pure (fn_lit params (block_body body))

  -- The tokens up to the parenthesis that closes the one at the start, and those behind it.
  unfoldable pub paren_depth : ℕ → Kind R → ℕ
  unfolding punct_is
  paren_depth depth k =
      if punct_is (codes "(") k
      then depth + 1
      else (if punct_is (codes ")") k then depth - 1 else depth)

  unfoldable pub to_close : ℕ → List (Token R) → Option (List (Token R) × List (Token R))
  unfolding punct_is paren_depth
  to_close depth [] = none
  to_close depth (t ∷ ts) =
      let later = to_close (paren_depth depth t.kind) ts in
      if is_eof t
      then none
      else (if punct_is (codes ")") t.kind && depth == 1
          then some ([], ts)
          else elim later [ none ↦ none | some (inner, behind) ↦ some (t ∷ inner, behind) ])

  -- The parameters between the parentheses: identifiers and commas, in any arrangement.
  unfoldable pub arrow_names : List (Token R) → Option (List Text)
  unfolding punct_is
  arrow_names [] = some []
  arrow_names (t ∷ ts) =
      let later = arrow_names ts in
      if is_ident t.kind
      then elim later [ none ↦ none | some names ↦ some (ident_text t.kind ∷ names) ]
      else (if punct_is (codes ",") t.kind then later else none)

  -- `tryArrowParams`: the parameters and the tokens behind `=>`.
  unfoldable pub try_arrow_params : List (Token R) → Option (List Text × List (Token R))
  unfolding to_close arrow_names punct_is
  try_arrow_params ts = elim (to_close 0 ts) [
    | none ↦ none
    | some (inner, behind) ↦
        if punct_is (codes "=>") (kind_of behind)
        then elim (arrow_names (drop 1 inner)) [
          | none ↦ none
          | some names ↦ some (names, drop 1 behind)
        ]
        else none
  ]

  -- An identifier that is no literal.
  unfoldable pub parse_name : Text → Again R → Parse R (Node R)
  unfolding is_banned punct_is parse_arrow_body
  parse_name name r p =
      let arrow = parse_arrow_body (name ∷ []) r (moved (moved p)) in
      if is_banned name
      then fail (banned name) p
      else (if punct_is (codes "=>") (peek_kind p)
          then arrow
          else ok (Syntax.Node.ident name, moved p))

  unfoldable pub parse_word : Text → Again R → Parse R (Node R)
  unfolding parse_function parse_name
  parse_word name r p =
      if name == codes "true" || name == codes "false"
      then ok (bool_lit (name == codes "true"), moved p)
      else (if name == codes "null"
          then ok (null_lit, moved p)
          else (if name == codes "undefined"
              then ok (undef_lit, moved p)
              else (if name == codes "function" then parse_function r p else parse_name name r p)))

  -- An expression between parentheses.
  unfoldable pub parse_group : Again R → Parse R (Node R)
  unfolding parse_expression expect_punct
  parse_group r = do advance; expr ← parse_expression r.assign; expect_punct (codes ")"); pure expr

  unfoldable pub parse_parenthesis : Again R → Parse R (Node R)
  unfolding try_arrow_params parse_arrow_body parse_group
  parse_parenthesis r p = elim (try_arrow_params p.tokens) [
    | some (params, behind) ↦ parse_arrow_body params r (record p { tokens = behind })
    | none ↦ parse_group r p
  ]

  unfoldable pub parse_punct : Reader R → Text → Again R → Parse R (Node R)
  unfolding parse_parenthesis parse_object parse_array
  parse_punct u text r p =
      if text == codes "("
      then parse_parenthesis r p
      else (if text == codes "{"
          then parse_object u r p
          else (if text == codes "[" then parse_array r p else fail bad_token p))

  -- The expressions of a template, each a program of its own.
  unfoldable pub parse_sources : List Text → Again R → Outcome (Nodes R)
  parse_sources [] r = ok no_nodes
  parse_sources (source ∷ sources) r =
      then_do (r.program source)
        λ sub. then_do (parse_sources sources r) λ subs. ok (node_then sub subs)

  -- `parsePrimary` behind its count, at the token of the kind.
  unfoldable pub primary_at : Reader R → Kind R → Again R → Parse R (Node R)
  unfolding parse_sources parse_word parse_punct
  primary_at u (number v) r p = ok (num_lit v, moved p)
  primary_at u (string text) r p = ok (str_lit text, moved p)
  primary_at u (template chunks exprs) r p =
      then_do (parse_sources exprs r) λ subs. ok (tmpl_lit chunks subs, moved p)
  primary_at u (ident name) r p = parse_word name r p
  primary_at u (punct text) r p = parse_punct u text r p
  primary_at u eof r p = fail bad_token p

  unfoldable pub parse_primary : Reader R → Again R → Parse R (Node R)
  unfolding count_node primary_at
  parse_primary u r = do count_node; (λ p. primary_at u (cur_kind p) r p)
