-- ===== src/Optimizer/Compose.antt =====
-- Two rounds of overrides are one, in which the later one wins: one lemma for each function of
-- Optimizer/Transform.antt.
use queryfabric.Base.{[], arith, refl, ◌++◌, ◌∷◌, ◌≡◌}
use queryfabric.Syntax.Tree.{
  Ctes, Exprs, Joins, OptionalExpr, OptionalWindow, OrderBys, ProjectionItems, SyntaxCte,
  SyntaxExpr, SyntaxExprKind, SyntaxFunctionCall, SyntaxJoin, SyntaxNode, SyntaxOrderByExpr,
  SyntaxProjectionItem, SyntaxQuery, SyntaxRelation, SyntaxSelect, SyntaxSetExpr,
  SyntaxTableWithJoins, SyntaxWhenThen, Tables, WhenThens, array, between, binary, case, cast,
  column, cte, derived, exists, expr, function, function_call, in_list, in_subquery, is_null, join,
  like, literal, more_branches, more_ctes, more_exprs, more_items, more_joins, more_orders,
  more_tables, nested_join, no_branches, no_ctes, no_expr, no_exprs, no_items, no_joins, no_orders,
  no_tables, no_window, order_by_expr, parameter, projection_expr, query, scalar_subquery, select,
  some_expr, syntax_select, table, table_with_joins, tuple, unary, union_all, unsupported_expr,
  unsupported_item, unsupported_relation, unsupported_set_expr, when_then, wildcard, window_spec,
}
use queryfabric.Optimizer.Transform.{
  Overrides, selection_of, transform_branches, transform_cte, transform_ctes, transform_expr,
  transform_exprs, transform_function, transform_items, transform_join, transform_joins,
  transform_kind, transform_optional, transform_order_by_expr, transform_orders,
  transform_projection_item, transform_query, transform_relation, transform_select,
  transform_set_expr, transform_table_with_joins, transform_tables, transform_when_then,
  transform_window,
}

selection_of-append :
    (m n : Overrides) (selection : OptionalExpr) (node : SyntaxNode)
    → selection_of n (selection_of m selection node) node ≡ selection_of (n ++ m) selection node
selection_of-append m [] selection node = refl
selection_of-append m ((k, v) ∷ n) selection node =
    ground (arith, selection_of-append m n selection node)

mutual
  unfolding transform_query

  pub transform_query-append :
      (m n : Overrides) (q : SyntaxQuery)
      → transform_query n (transform_query m q) ≡ transform_query (n ++ m) q
  transform_query-append m n (query node ctes recursive body order_by limit offset clauses) = cc (
    transform_ctes-append m n ctes,
    transform_set_expr-append m n body,
    transform_orders-append m n order_by,
    transform_optional-append m n limit,
    transform_optional-append m n offset,
  )

  transform_ctes-append :
      (m n : Overrides) (cs : Ctes)
      → transform_ctes n (transform_ctes m cs) ≡ transform_ctes (n ++ m) cs
  transform_ctes-append m n no_ctes = refl
  transform_ctes-append m n (more_ctes c cs) =
      cc (transform_cte-append m n c, transform_ctes-append m n cs)

  transform_cte-append :
      (m n : Overrides) (c : SyntaxCte)
      → transform_cte n (transform_cte m c) ≡ transform_cte (n ++ m) c
  transform_cte-append m n (cte name columns q node) = cc (transform_query-append m n q)

  transform_set_expr-append :
      (m n : Overrides) (e : SyntaxSetExpr)
      → transform_set_expr n (transform_set_expr m e) ≡ transform_set_expr (n ++ m) e
  transform_set_expr-append m n (select s) = cc (transform_select-append m n s)
  transform_set_expr-append m n (union_all left right node) =
      cc (transform_set_expr-append m n left, transform_set_expr-append m n right)
  transform_set_expr-append m n (unsupported_set_expr description node) = refl

  transform_select-append :
      (m n : Overrides) (s : SyntaxSelect)
      → transform_select n (transform_select m s) ≡ transform_select (n ++ m) s
  transform_select-append m n
        (syntax_select distinct projection from selection group_by having node) =
      cc (
        transform_items-append m n projection,
        transform_tables-append m n from,
        selection_of-append m n selection node,
        transform_exprs-append m n group_by,
        transform_optional-append m n having,
      )

  transform_items-append :
      (m n : Overrides) (is : ProjectionItems)
      → transform_items n (transform_items m is) ≡ transform_items (n ++ m) is
  transform_items-append m n no_items = refl
  transform_items-append m n (more_items i is) =
      cc (transform_projection_item-append m n i, transform_items-append m n is)

  transform_projection_item-append :
      (m n : Overrides) (i : SyntaxProjectionItem)
      → transform_projection_item n (transform_projection_item m i)
        ≡ transform_projection_item (n ++ m) i
  transform_projection_item-append m n (wildcard qualifier node) = refl
  transform_projection_item-append m n (projection_expr e alias node) =
      cc (transform_expr-append m n e)
  transform_projection_item-append m n (unsupported_item description node) = refl

  transform_tables-append :
      (m n : Overrides) (ts : Tables)
      → transform_tables n (transform_tables m ts) ≡ transform_tables (n ++ m) ts
  transform_tables-append m n no_tables = refl
  transform_tables-append m n (more_tables t ts) =
      cc (transform_table_with_joins-append m n t, transform_tables-append m n ts)

  transform_table_with_joins-append :
      (m n : Overrides) (t : SyntaxTableWithJoins)
      → transform_table_with_joins n (transform_table_with_joins m t)
        ≡ transform_table_with_joins (n ++ m) t
  transform_table_with_joins-append m n (table_with_joins relation joins node) =
      cc (transform_relation-append m n relation, transform_joins-append m n joins)

  transform_joins-append :
      (m n : Overrides) (js : Joins)
      → transform_joins n (transform_joins m js) ≡ transform_joins (n ++ m) js
  transform_joins-append m n no_joins = refl
  transform_joins-append m n (more_joins j js) =
      cc (transform_join-append m n j, transform_joins-append m n js)

  transform_join-append :
      (m n : Overrides) (j : SyntaxJoin)
      → transform_join n (transform_join m j) ≡ transform_join (n ++ m) j
  transform_join-append m n (join kind relation on node) =
      cc (transform_relation-append m n relation, transform_optional-append m n on)

  transform_relation-append :
      (m n : Overrides) (r : SyntaxRelation)
      → transform_relation n (transform_relation m r) ≡ transform_relation (n ++ m) r
  transform_relation-append m n (table name alias node) = refl
  transform_relation-append m n (derived q alias node) = cc (transform_query-append m n q)
  transform_relation-append m n (nested_join t alias node) =
      cc (transform_table_with_joins-append m n t)
  transform_relation-append m n (unsupported_relation description node) = refl

  transform_orders-append :
      (m n : Overrides) (os : OrderBys)
      → transform_orders n (transform_orders m os) ≡ transform_orders (n ++ m) os
  transform_orders-append m n no_orders = refl
  transform_orders-append m n (more_orders o os) =
      cc (transform_order_by_expr-append m n o, transform_orders-append m n os)

  transform_order_by_expr-append :
      (m n : Overrides) (o : SyntaxOrderByExpr)
      → transform_order_by_expr n (transform_order_by_expr m o) ≡ transform_order_by_expr (n ++ m) o
  transform_order_by_expr-append m n (order_by_expr e asc nulls_first node) =
      cc (transform_expr-append m n e)

  transform_optional-append :
      (m n : Overrides) (o : OptionalExpr)
      → transform_optional n (transform_optional m o) ≡ transform_optional (n ++ m) o
  transform_optional-append m n no_expr = refl
  transform_optional-append m n (some_expr e) = cc (transform_expr-append m n e)

  transform_exprs-append :
      (m n : Overrides) (es : Exprs)
      → transform_exprs n (transform_exprs m es) ≡ transform_exprs (n ++ m) es
  transform_exprs-append m n no_exprs = refl
  transform_exprs-append m n (more_exprs e es) =
      cc (transform_expr-append m n e, transform_exprs-append m n es)

  transform_expr-append :
      (m n : Overrides) (e : SyntaxExpr)
      → transform_expr n (transform_expr m e) ≡ transform_expr (n ++ m) e
  transform_expr-append m n (expr kind node) = cc (transform_kind-append m n kind)

  transform_kind-append :
      (m n : Overrides) (k : SyntaxExprKind)
      → transform_kind n (transform_kind m k) ≡ transform_kind (n ++ m) k
  transform_kind-append m n (column relation name) = refl
  transform_kind-append m n (literal value) = refl
  transform_kind-append m n (parameter reference) = refl
  transform_kind-append m n (unary op e) = cc (transform_expr-append m n e)
  transform_kind-append m n (binary op left right) =
      cc (transform_expr-append m n left, transform_expr-append m n right)
  transform_kind-append m n (function f) = cc (transform_function-append m n f)
  transform_kind-append m n (case operand branches else_result) = cc (
    transform_optional-append m n operand,
    transform_branches-append m n branches,
    transform_optional-append m n else_result,
  )
  transform_kind-append m n (cast e data_type) = cc (transform_expr-append m n e)
  transform_kind-append m n (between e low high negated) =
      cc
        (transform_expr-append m n e, transform_expr-append m n low, transform_expr-append m n high)
  transform_kind-append m n (in_list e list negated) =
      cc (transform_expr-append m n e, transform_exprs-append m n list)
  transform_kind-append m n (in_subquery e q negated) =
      cc (transform_expr-append m n e, transform_query-append m n q)
  transform_kind-append m n (scalar_subquery q) = cc (transform_query-append m n q)
  transform_kind-append m n (exists q) = cc (transform_query-append m n q)
  transform_kind-append m n (like e pattern_expr negated case_insensitive) =
      cc (transform_expr-append m n e, transform_expr-append m n pattern_expr)
  transform_kind-append m n (is_null e negated) = cc (transform_expr-append m n e)
  transform_kind-append m n (tuple items) = cc (transform_exprs-append m n items)
  transform_kind-append m n (array items) = cc (transform_exprs-append m n items)
  transform_kind-append m n (unsupported_expr description) = refl

  transform_function-append :
      (m n : Overrides) (f : SyntaxFunctionCall)
      → transform_function n (transform_function m f) ≡ transform_function (n ++ m) f
  transform_function-append m n (function_call f args distinct filter over) = cc (
    transform_exprs-append m n args,
    transform_optional-append m n filter,
    transform_window-append m n over,
  )

  transform_window-append :
      (m n : Overrides) (w : OptionalWindow)
      → transform_window n (transform_window m w) ≡ transform_window (n ++ m) w
  transform_window-append m n no_window = refl
  transform_window-append m n (window_spec partition_by order_by node) =
      cc (transform_exprs-append m n partition_by, transform_orders-append m n order_by)

  transform_branches-append :
      (m n : Overrides) (bs : WhenThens)
      → transform_branches n (transform_branches m bs) ≡ transform_branches (n ++ m) bs
  transform_branches-append m n no_branches = refl
  transform_branches-append m n (more_branches b bs) =
      cc (transform_when_then-append m n b, transform_branches-append m n bs)

  transform_when_then-append :
      (m n : Overrides) (b : SyntaxWhenThen)
      → transform_when_then n (transform_when_then m b) ≡ transform_when_then (n ++ m) b
  transform_when_then-append m n (when_then condition result) =
      cc (transform_expr-append m n condition, transform_expr-append m n result)
