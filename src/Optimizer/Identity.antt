-- ===== src/Optimizer/Identity.antt =====
-- Applying no overrides changes nothing: one lemma for each function of Optimizer/Transform.antt.
use queryfabric.Base.{[], refl, ◌≡◌}
use queryfabric.Syntax.Tree.{
  Ctes, Exprs, Joins, OptionalExpr, OptionalWindow, OrderBys, ProjectionItems, SyntaxCte,
  SyntaxExpr, SyntaxExprKind, SyntaxFunctionCall, SyntaxJoin, SyntaxOrderByExpr,
  SyntaxProjectionItem, SyntaxQuery, SyntaxRelation, SyntaxSelect, SyntaxSetExpr,
  SyntaxTableWithJoins, SyntaxWhenThen, Tables, WhenThens, array, between, binary, case, cast,
  column, cte, derived, exists, expr, function, function_call, in_list, in_subquery, is_null, join,
  like, literal, more_branches, more_ctes, more_exprs, more_items, more_joins, more_orders,
  more_tables, nested_join, no_branches, no_ctes, no_expr, no_exprs, no_items, no_joins, no_orders,
  no_tables, no_window, order_by_expr, parameter, projection_expr, query, scalar_subquery, select,
  some_expr, syntax_select, table, table_with_joins, tuple, unary, union_all, unsupported_expr,
  unsupported_item, unsupported_relation, unsupported_set_expr, when_then, wildcard, window_spec,
}
use queryfabric.Optimizer.Transform.{
  transform_branches, transform_cte, transform_ctes, transform_expr, transform_exprs,
  transform_function, transform_items, transform_join, transform_joins, transform_kind,
  transform_optional, transform_order_by_expr, transform_orders, transform_projection_item,
  transform_query, transform_relation, transform_select, transform_set_expr,
  transform_table_with_joins, transform_tables, transform_when_then, transform_window,
}

mutual
  unfolding transform_query

  pub transform_query_nil : (q : SyntaxQuery) → transform_query [] q ≡ q
  transform_query_nil (query node ctes recursive body order_by limit offset clauses) = cc (
    transform_ctes_nil ctes,
    transform_set_expr_nil body,
    transform_orders_nil order_by,
    transform_optional_nil limit,
    transform_optional_nil offset,
  )

  transform_ctes_nil : (cs : Ctes) → transform_ctes [] cs ≡ cs
  transform_ctes_nil no_ctes = refl
  transform_ctes_nil (more_ctes c cs) = cc (transform_cte_nil c, transform_ctes_nil cs)

  transform_cte_nil : (c : SyntaxCte) → transform_cte [] c ≡ c
  transform_cte_nil (cte name columns q node) = cc (transform_query_nil q)

  transform_set_expr_nil : (e : SyntaxSetExpr) → transform_set_expr [] e ≡ e
  transform_set_expr_nil (select s) = cc (transform_select_nil s)
  transform_set_expr_nil (union_all left right node) =
      cc (transform_set_expr_nil left, transform_set_expr_nil right)
  transform_set_expr_nil (unsupported_set_expr description node) = refl

  transform_select_nil : (s : SyntaxSelect) → transform_select [] s ≡ s
  transform_select_nil (syntax_select distinct projection from selection group_by having node) =
      cc (
        transform_items_nil projection,
        transform_tables_nil from,
        transform_exprs_nil group_by,
        transform_optional_nil having,
      )

  transform_items_nil : (is : ProjectionItems) → transform_items [] is ≡ is
  transform_items_nil no_items = refl
  transform_items_nil (more_items i is) =
      cc (transform_projection_item_nil i, transform_items_nil is)

  transform_projection_item_nil : (i : SyntaxProjectionItem) → transform_projection_item [] i ≡ i
  transform_projection_item_nil (wildcard qualifier node) = refl
  transform_projection_item_nil (projection_expr e alias node) = cc (transform_expr_nil e)
  transform_projection_item_nil (unsupported_item description node) = refl

  transform_tables_nil : (ts : Tables) → transform_tables [] ts ≡ ts
  transform_tables_nil no_tables = refl
  transform_tables_nil (more_tables t ts) =
      cc (transform_table_with_joins_nil t, transform_tables_nil ts)

  transform_table_with_joins_nil : (t : SyntaxTableWithJoins) → transform_table_with_joins [] t ≡ t
  transform_table_with_joins_nil (table_with_joins relation joins node) =
      cc (transform_relation_nil relation, transform_joins_nil joins)

  transform_joins_nil : (js : Joins) → transform_joins [] js ≡ js
  transform_joins_nil no_joins = refl
  transform_joins_nil (more_joins j js) = cc (transform_join_nil j, transform_joins_nil js)

  transform_join_nil : (j : SyntaxJoin) → transform_join [] j ≡ j
  transform_join_nil (join kind relation on node) =
      cc (transform_relation_nil relation, transform_optional_nil on)

  transform_relation_nil : (r : SyntaxRelation) → transform_relation [] r ≡ r
  transform_relation_nil (table name alias node) = refl
  transform_relation_nil (derived q alias node) = cc (transform_query_nil q)
  transform_relation_nil (nested_join t alias node) = cc (transform_table_with_joins_nil t)
  transform_relation_nil (unsupported_relation description node) = refl

  transform_orders_nil : (os : OrderBys) → transform_orders [] os ≡ os
  transform_orders_nil no_orders = refl
  transform_orders_nil (more_orders o os) =
      cc (transform_order_by_expr_nil o, transform_orders_nil os)

  transform_order_by_expr_nil : (o : SyntaxOrderByExpr) → transform_order_by_expr [] o ≡ o
  transform_order_by_expr_nil (order_by_expr e asc nulls_first node) = cc (transform_expr_nil e)

  transform_optional_nil : (o : OptionalExpr) → transform_optional [] o ≡ o
  transform_optional_nil no_expr = refl
  transform_optional_nil (some_expr e) = cc (transform_expr_nil e)

  transform_exprs_nil : (es : Exprs) → transform_exprs [] es ≡ es
  transform_exprs_nil no_exprs = refl
  transform_exprs_nil (more_exprs e es) = cc (transform_expr_nil e, transform_exprs_nil es)

  transform_expr_nil : (e : SyntaxExpr) → transform_expr [] e ≡ e
  transform_expr_nil (expr kind node) = cc (transform_kind_nil kind)

  transform_kind_nil : (k : SyntaxExprKind) → transform_kind [] k ≡ k
  transform_kind_nil (column relation name) = refl
  transform_kind_nil (literal value) = refl
  transform_kind_nil (parameter reference) = refl
  transform_kind_nil (unary op e) = cc (transform_expr_nil e)
  transform_kind_nil (binary op left right) = cc (transform_expr_nil left, transform_expr_nil right)
  transform_kind_nil (function f) = cc (transform_function_nil f)
  transform_kind_nil (case operand branches else_result) = cc (
    transform_optional_nil operand,
    transform_branches_nil branches,
    transform_optional_nil else_result,
  )
  transform_kind_nil (cast e data_type) = cc (transform_expr_nil e)
  transform_kind_nil (between e low high negated) =
      cc (transform_expr_nil e, transform_expr_nil low, transform_expr_nil high)
  transform_kind_nil (in_list e list negated) = cc (transform_expr_nil e, transform_exprs_nil list)
  transform_kind_nil (in_subquery e q negated) = cc (transform_expr_nil e, transform_query_nil q)
  transform_kind_nil (scalar_subquery q) = cc (transform_query_nil q)
  transform_kind_nil (exists q) = cc (transform_query_nil q)
  transform_kind_nil (like e pattern_expr negated case_insensitive) =
      cc (transform_expr_nil e, transform_expr_nil pattern_expr)
  transform_kind_nil (is_null e negated) = cc (transform_expr_nil e)
  transform_kind_nil (tuple items) = cc (transform_exprs_nil items)
  transform_kind_nil (array items) = cc (transform_exprs_nil items)
  transform_kind_nil (unsupported_expr description) = refl

  transform_function_nil : (f : SyntaxFunctionCall) → transform_function [] f ≡ f
  transform_function_nil (function_call f args distinct filter over) =
      cc (transform_exprs_nil args, transform_optional_nil filter, transform_window_nil over)

  transform_window_nil : (w : OptionalWindow) → transform_window [] w ≡ w
  transform_window_nil no_window = refl
  transform_window_nil (window_spec partition_by order_by node) =
      cc (transform_exprs_nil partition_by, transform_orders_nil order_by)

  transform_branches_nil : (bs : WhenThens) → transform_branches [] bs ≡ bs
  transform_branches_nil no_branches = refl
  transform_branches_nil (more_branches b bs) =
      cc (transform_when_then_nil b, transform_branches_nil bs)

  transform_when_then_nil : (b : SyntaxWhenThen) → transform_when_then [] b ≡ b
  transform_when_then_nil (when_then condition result) =
      cc (transform_expr_nil condition, transform_expr_nil result)
