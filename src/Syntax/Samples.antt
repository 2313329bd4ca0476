-- ===== src/Syntax/Samples.antt =====
-- Small syntax trees, for the tests of the components that read them.
use queryfabric.Base.{String, [], false, none}
use queryfabric.Syntax.Tree.{
  OptionalExpr, SyntaxExpr, SyntaxNode, SyntaxQuery, and, binary, column, cte, expr, more_ctes,
  more_items, more_tables, no_ctes, no_expr, no_exprs, no_items, no_joins, no_orders, no_tables,
  projection_expr, query, select, some_expr, syntax_select, table, table_with_joins,
}

abbrev pub at : String → SyntaxNode
at id = record { span = none; node_id = id }

abbrev pub column_named : String → SyntaxExpr
column_named name = expr (column none name) (at name)

-- `a AND b`
abbrev pub a_and_b : SyntaxExpr
a_and_b = expr (binary and (column_named "a") (column_named "b")) (at "and")

-- `SELECT x FROM t WHERE <selection>`
abbrev pub select_where : String → OptionalExpr → SyntaxQuery
select_where id selection =
    query (at "query") no_ctes false
      (select (
        syntax_select false
          (more_items (projection_expr (column_named "x") none (at "item")) no_items)
          (more_tables
            (table_with_joins (table (record { namespace = none; name = "t" }) none (at "t"))
              no_joins (at "from"))
            no_tables)
          selection no_exprs no_expr (at id)))
      no_orders no_expr no_expr []

abbrev pub with_cte : String → SyntaxQuery → SyntaxQuery → SyntaxQuery
with_cte name cte_query (query node ctes recursive body order_by limit offset clauses) =
    query node (more_ctes (cte name [] cte_query (at name)) ctes) recursive body order_by limit
      offset clauses

-- `WITH outer AS (WITH inner AS (...) SELECT ...) SELECT x FROM t WHERE a AND b`
abbrev pub nested_ctes : SyntaxQuery
nested_ctes =
    with_cte "outer" (with_cte "inner" (select_where "s3" no_expr) (select_where "s2" no_expr))
      (select_where "s1" (some_expr a_and_b))
