-- ===== src/Script/Syntax.antt =====
-- internal/script/parser.go: the nodes and statements. A slice of nodes is a list of its own kind; a
-- pointer that may be nil is a second constructor.
use laskah.Prelude.{Bool, List}
use laskah.Prelude.Text.{Text}

mutual
  pub data Node (R : Type 0) : Type 0 where
    num_lit : R → Node R
    str_lit : Text → Node R
    bool_lit : Bool → Node R
    null_lit undef_lit : Node R
    tmpl_lit : List Text → Nodes R → Node R
    ident : Text → Node R
    obj_lit : Entries R → Node R
    arr_lit : Nodes R → Node R
    -- `object.name`, with whether the access is optional.
    member : Node R → Text → Bool → Node R
    -- `object[prop]`: a computed access.
    index : Node R → Node R → Bool → Node R
    call : Node R → Nodes R → Bool → Node R
    unary : Text → Node R → Node R
    binary logical : Text → Node R → Node R → Node R
    cond : Node R → Node R → Node R → Node R
    assign : Node R → Text → Node R → Node R
    fn_lit : List Text → Body R → Node R

  pub data Nodes (R : Type 0) : Type 0 where
    no_nodes : Nodes R
    node_then : Node R → Nodes R → Nodes R

  -- The keys and values of an object literal, in their order.
  pub data Entries (R : Type 0) : Type 0 where
    no_entries : Entries R
    entry_then : Text → Node R → Entries R → Entries R

  -- The body of a function: statements, or the expression of an arrow function.
  pub data Body (R : Type 0) : Type 0 where
    block_body : Stmts R → Body R
    expr_body : Node R → Body R

  pub data Stmt (R : Type 0) : Type 0 where
    var_decl : Decls R → Stmt R
    ret_nothing : Stmt R
    ret_stmt : Node R → Stmt R
    if_stmt : Node R → Stmt R → Stmt R
    if_else : Node R → Stmt R → Stmt R → Stmt R
    block_stmt : Stmts R → Stmt R
    expr_stmt : Node R → Stmt R
    for_of : Text → Node R → Stmt R → Stmt R

  pub data Stmts (R : Type 0) : Type 0 where
    no_stmts : Stmts R
    stmt_then : Stmt R → Stmts R → Stmts R

  -- The names that a declaration declares, with and without a value.
  pub data Decls (R : Type 0) : Type 0 where
    no_decls : Decls R
    declare_bare : Text → Decls R → Decls R
    declare : Text → Node R → Decls R → Decls R
