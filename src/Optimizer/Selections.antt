-- ===== src/Optimizer/Selections.antt =====
-- The selects of a query that the walk of crates/queryfabric-opt/src/syntax.rs comes to, with their
-- identities and selections: one function for each kind of node. The walk replaces a selection as a
-- whole, so what stands inside of one is not come to.
use queryfabric.Base.{List, String, ◌∷◌}
use queryfabric.Syntax.Tree.{
  Ctes, Exprs, Joins, OptionalExpr, OptionalWindow, OrderBys, ProjectionItems, SyntaxCte,
  SyntaxExpr, SyntaxExprKind, SyntaxFunctionCall, SyntaxJoin, SyntaxOrderByExpr,
  SyntaxProjectionItem, SyntaxQuery, SyntaxRelation, SyntaxSelect, SyntaxSetExpr,
  SyntaxTableWithJoins, SyntaxWhenThen, Tables, WhenThens, array, between, binary, case, cast,
  column, cte, derived, exists, expr, function, function_call, in_list, in_subquery, is_null, join,
  like, literal, more_branches, more_ctes, more_exprs, more_items, more_joins, more_orders,
  more_tables, nested_join, no_branches, no_ctes, no_expr, no_exprs, no_items, no_joins, no_orders,
  no_tables, no_window, order_by_expr, parameter, projection_expr, query, scalar_subquery, select,
  some_expr, syntax_select, table, table_with_joins, tuple, unary, union_all, unsupported_expr,
  unsupported_item, unsupported_relation, unsupported_set_expr, when_then, wildcard, window_spec,
}

-- The identity of a select, and its selection.
abbrev pub Selected : Type 0
Selected = String × OptionalExpr

-- Each function puts the selects of its argument before those of `acc`.
unfoldable mutual
  pub selections_query : SyntaxQuery → List Selected → List Selected
  selections_query (query node ctes recursive body order_by limit offset clauses) acc =
      selections_ctes ctes (
        selections_set_expr body
          (selections_orders order_by (selections_optional limit (selections_optional offset acc))))

  pub selections_ctes : Ctes → List Selected → List Selected
  selections_ctes no_ctes acc = acc
  selections_ctes (more_ctes c cs) acc = selections_cte c (selections_ctes cs acc)

  pub selections_cte : SyntaxCte → List Selected → List Selected
  selections_cte (cte name columns q node) acc = selections_query q acc

  pub selections_set_expr : SyntaxSetExpr → List Selected → List Selected
  selections_set_expr (select s) acc = selections_select s acc
  selections_set_expr (union_all left right node) acc =
      selections_set_expr left (selections_set_expr right acc)
  selections_set_expr (unsupported_set_expr description node) acc = acc

  pub selections_select : SyntaxSelect → List Selected → List Selected
  selections_select (syntax_select distinct projection from selection group_by having node) acc =
      (node.node_id, selection)
      ∷ selections_items projection
          (selections_tables from (selections_exprs group_by (selections_optional having acc)))

  pub selections_items : ProjectionItems → List Selected → List Selected
  selections_items no_items acc = acc
  selections_items (more_items i is) acc = selections_projection_item i (selections_items is acc)

  pub selections_projection_item : SyntaxProjectionItem → List Selected → List Selected
  selections_projection_item (wildcard qualifier node) acc = acc
  selections_projection_item (projection_expr e alias node) acc = selections_expr e acc
  selections_projection_item (unsupported_item description node) acc = acc

  pub selections_tables : Tables → List Selected → List Selected
  selections_tables no_tables acc = acc
  selections_tables (more_tables t ts) acc =
      selections_table_with_joins t (selections_tables ts acc)

  pub selections_table_with_joins : SyntaxTableWithJoins → List Selected → List Selected
  selections_table_with_joins (table_with_joins relation joins node) acc =
      selections_relation relation (selections_joins joins acc)

  pub selections_joins : Joins → List Selected → List Selected
  selections_joins no_joins acc = acc
  selections_joins (more_joins j js) acc = selections_join j (selections_joins js acc)

  pub selections_join : SyntaxJoin → List Selected → List Selected
  selections_join (join kind relation on node) acc =
      selections_relation relation (selections_optional on acc)

  pub selections_relation : SyntaxRelation → List Selected → List Selected
  selections_relation (table name alias node) acc = acc
  selections_relation (derived q alias node) acc = selections_query q acc
  selections_relation (nested_join t alias node) acc = selections_table_with_joins t acc
  selections_relation (unsupported_relation description node) acc = acc

  pub selections_orders : OrderBys → List Selected → List Selected
  selections_orders no_orders acc = acc
  selections_orders (more_orders o os) acc = selections_order_by_expr o (selections_orders os acc)

  pub selections_order_by_expr : SyntaxOrderByExpr → List Selected → List Selected
  selections_order_by_expr (order_by_expr e asc nulls_first node) acc = selections_expr e acc

  pub selections_optional : OptionalExpr → List Selected → List Selected
  selections_optional no_expr acc = acc
  selections_optional (some_expr e) acc = selections_expr e acc

  pub selections_exprs : Exprs → List Selected → List Selected
  selections_exprs no_exprs acc = acc
  selections_exprs (more_exprs e es) acc = selections_expr e (selections_exprs es acc)

  pub selections_expr : SyntaxExpr → List Selected → List Selected
  selections_expr (expr kind node) acc = selections_kind kind acc

  pub selections_kind : SyntaxExprKind → List Selected → List Selected
  selections_kind (column relation name) acc = acc
  selections_kind (literal value) acc = acc
  selections_kind (parameter reference) acc = acc
  selections_kind (unary op e) acc = selections_expr e acc
  selections_kind (binary op left right) acc = selections_expr left (selections_expr right acc)
  selections_kind (function f) acc = selections_function f acc
  selections_kind (case operand branches else_result) acc =
      selections_optional operand
        (selections_branches branches (selections_optional else_result acc))
  selections_kind (cast e data_type) acc = selections_expr e acc
  selections_kind (between e low high negated) acc =
      selections_expr e (selections_expr low (selections_expr high acc))
  selections_kind (in_list e list negated) acc = selections_expr e (selections_exprs list acc)
  selections_kind (in_subquery e q negated) acc = selections_expr e (selections_query q acc)
  selections_kind (scalar_subquery q) acc = selections_query q acc
  selections_kind (exists q) acc = selections_query q acc
  selections_kind (like e pattern_expr negated case_insensitive) acc =
      selections_expr e (selections_expr pattern_expr acc)
  selections_kind (is_null e negated) acc = selections_expr e acc
  selections_kind (tuple items) acc = selections_exprs items acc
  selections_kind (array items) acc = selections_exprs items acc
  selections_kind (unsupported_expr description) acc = acc

  pub selections_function : SyntaxFunctionCall → List Selected → List Selected
  selections_function (function_call f args distinct filter over) acc =
      selections_exprs args (selections_optional filter (selections_window over acc))

  pub selections_window : OptionalWindow → List Selected → List Selected
  selections_window no_window acc = acc
  selections_window (window_spec partition_by order_by node) acc =
      selections_exprs partition_by (selections_orders order_by acc)

  pub selections_branches : WhenThens → List Selected → List Selected
  selections_branches no_branches acc = acc
  selections_branches (more_branches b bs) acc = selections_when_then b (selections_branches bs acc)

  pub selections_when_then : SyntaxWhenThen → List Selected → List Selected
  selections_when_then (when_then condition result) acc =
      selections_expr condition (selections_expr result acc)
