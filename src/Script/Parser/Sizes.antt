-- ===== src/Script/Parser/Sizes.antt =====
-- The number of nodes and statements of a syntax tree, and the variables that an accepted tree may name.
-- The expressions of a template are programs of their own and are counted apart.
use laskah.Prelude.{ℕ, suc, ◌+◌, ◌≡◌, false}
use laskah.Script.Syntax.{
  Node, Nodes, Entries, Body, Stmt, Stmts, Decls, tmpl_lit, ident, obj_lit, arr_lit, member, index,
  call, unary, binary, logical, cond, assign, fn_lit, no_nodes, node_then, no_entries, entry_then,
  block_body, expr_body, var_decl, ret_nothing, ret_stmt, if_stmt, if_else, block_stmt, expr_stmt,
  for_of, no_stmts, stmt_then, no_decls, declare_bare, declare,
}
use laskah.Script.Parser.Primary.{is_banned}

module _ {R : Type 0} where
  unfoldable mutual
    pub node_size : Node R → ℕ
    node_size (obj_lit entries) = suc (entries_size entries)
    node_size (arr_lit items) = suc (nodes_size items)
    node_size (member object name optional) = suc (node_size object)
    node_size (index object prop optional) = suc (node_size object + node_size prop)
    node_size (call callee args optional) = suc (node_size callee + nodes_size args)
    node_size (unary op arg) = suc (node_size arg)
    node_size (binary op left right) = suc (node_size left + node_size right)
    node_size (logical op left right) = suc (node_size left + node_size right)
    node_size (cond test cons alt) = suc (node_size test + node_size cons + node_size alt)
    node_size (assign target op value) = suc (node_size target + node_size value)
    node_size (fn_lit params body) = suc (body_size body)
    node_size _ = 1

    pub nodes_size : Nodes R → ℕ
    nodes_size no_nodes = 0
    nodes_size (node_then item items) = node_size item + nodes_size items

    pub entries_size : Entries R → ℕ
    entries_size no_entries = 0
    entries_size (entry_then key item entries) = node_size item + entries_size entries

    pub body_size : Body R → ℕ
    body_size (block_body stmts) = stmts_size stmts
    body_size (expr_body expr) = node_size expr

    pub stmt_size : Stmt R → ℕ
    stmt_size (var_decl decls) = suc (decls_size decls)
    stmt_size ret_nothing = 1
    stmt_size (ret_stmt arg) = suc (node_size arg)
    stmt_size (if_stmt test cons) = suc (node_size test + stmt_size cons)
    stmt_size (if_else test cons alt) = suc (node_size test + stmt_size cons + stmt_size alt)
    stmt_size (block_stmt body) = suc (stmts_size body)
    stmt_size (expr_stmt expr) = suc (node_size expr)
    stmt_size (for_of name iter body) = suc (node_size iter + stmt_size body)

    pub stmts_size : Stmts R → ℕ
    stmts_size no_stmts = 0
    stmts_size (stmt_then item stmts) = stmt_size item + stmts_size stmts

    pub decls_size : Decls R → ℕ
    decls_size no_decls = 0
    decls_size (declare_bare name decls) = decls_size decls
    decls_size (declare name value decls) = node_size value + decls_size decls

  -- No expression of the tree, those in templates included, is a variable with a banned name. What
  -- parameters, declarations, keys and properties are called is not looked at, as in the parser.
  unfoldable mutual
    pub NodeIsClean : Node R → Type 0
    NodeIsClean (ident name) = is_banned name ≡ false
    NodeIsClean (tmpl_lit chunks exprs) = NodesAreClean exprs
    NodeIsClean (obj_lit entries) = EntriesAreClean entries
    NodeIsClean (arr_lit items) = NodesAreClean items
    NodeIsClean (member object name optional) = NodeIsClean object
    NodeIsClean (index object prop optional) = NodeIsClean object × NodeIsClean prop
    NodeIsClean (call callee args optional) = NodeIsClean callee × NodesAreClean args
    NodeIsClean (unary op arg) = NodeIsClean arg
    NodeIsClean (binary op left right) = NodeIsClean left × NodeIsClean right
    NodeIsClean (logical op left right) = NodeIsClean left × NodeIsClean right
    NodeIsClean (cond test cons alt) = NodeIsClean test × NodeIsClean cons × NodeIsClean alt
    NodeIsClean (assign target op value) = NodeIsClean target × NodeIsClean value
    NodeIsClean (fn_lit params body) = BodyIsClean body
    NodeIsClean _ = Unit

    pub NodesAreClean : Nodes R → Type 0
    NodesAreClean no_nodes = Unit
    NodesAreClean (node_then item items) = NodeIsClean item × NodesAreClean items

    pub EntriesAreClean : Entries R → Type 0
    EntriesAreClean no_entries = Unit
    EntriesAreClean (entry_then key item entries) = NodeIsClean item × EntriesAreClean entries

    pub BodyIsClean : Body R → Type 0
    BodyIsClean (block_body stmts) = StmtsAreClean stmts
    BodyIsClean (expr_body expr) = NodeIsClean expr

    pub StmtIsClean : Stmt R → Type 0
    StmtIsClean (var_decl decls) = DeclsAreClean decls
    StmtIsClean ret_nothing = Unit
    StmtIsClean (ret_stmt arg) = NodeIsClean arg
    StmtIsClean (if_stmt test cons) = NodeIsClean test × StmtIsClean cons
    StmtIsClean (if_else test cons alt) = NodeIsClean test × StmtIsClean cons × StmtIsClean alt
    StmtIsClean (block_stmt body) = StmtsAreClean body
    StmtIsClean (expr_stmt expr) = NodeIsClean expr
    StmtIsClean (for_of name iter body) = NodeIsClean iter × StmtIsClean body

    pub StmtsAreClean : Stmts R → Type 0
    StmtsAreClean no_stmts = Unit
    StmtsAreClean (stmt_then item stmts) = StmtIsClean item × StmtsAreClean stmts

    pub DeclsAreClean : Decls R → Type 0
    DeclsAreClean no_decls = Unit
    DeclsAreClean (declare_bare name decls) = DeclsAreClean decls
    DeclsAreClean (declare name value decls) = NodeIsClean value × DeclsAreClean decls
