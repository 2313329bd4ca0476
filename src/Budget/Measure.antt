-- ===== src/Budget/Measure.antt =====
-- The measuring functions of crates/queryfabric-ir/src/budget.rs. A loop that merges into `usage` is
-- a function that threads it; `measure_children` is the match on `expr.kind` in `measure_expr`.
use queryfabric.Base.{ℕ, suc, ◌+◌, max}
use queryfabric.Syntax.Tree.{
  SyntaxQuery, query, SyntaxCte, cte, Ctes, no_ctes, more_ctes, SyntaxSetExpr, select, union_all,
  unsupported_set_expr, SyntaxSelect, syntax_select, SyntaxProjectionItem, wildcard,
  projection_expr, unsupported_item, ProjectionItems, no_items, more_items, SyntaxTableWithJoins,
  table_with_joins, Tables, no_tables, more_tables, SyntaxJoin, join, Joins, no_joins, more_joins,
  SyntaxRelation, table, derived, nested_join, unsupported_relation, SyntaxOrderByExpr,
  order_by_expr, OrderBys, no_orders, more_orders, OptionalWindow, no_window, window_spec,
  SyntaxFunctionCall, function_call, SyntaxWhenThen, when_then, WhenThens, no_branches,
  more_branches, SyntaxExpr, expr, OptionalExpr, no_expr, some_expr, Exprs, no_exprs, more_exprs,
  SyntaxExprKind, column, literal, parameter, unary, binary, function, case, cast, between, in_list,
  in_subquery, scalar_subquery, exists, like, is_null, tuple, array, unsupported_expr,
}

pub record QueryBudgetUsage : Type 0 where
  pub input_bytes : ℕ
  pub parameters : ℕ
  pub syntax_nodes : ℕ
  pub nesting_depth : ℕ
  pub joins : ℕ
  pub ctes : ℕ

-- `QueryBudgetUsage { syntax_nodes: 1, nesting_depth: depth, ..default() }`
abbrev pub one_node : ℕ → QueryBudgetUsage
one_node depth = record {
  input_bytes = 0;
  parameters = 0;
  syntax_nodes = 1;
  nesting_depth = depth;
  joins = 0;
  ctes = 0;
}

unfoldable pub merge : QueryBudgetUsage → QueryBudgetUsage → ℕ → QueryBudgetUsage
merge target source extra_depth = record target {
  syntax_nodes = target.syntax_nodes + source.syntax_nodes;
  nesting_depth = max target.nesting_depth (source.nesting_depth + extra_depth);
  joins = target.joins + source.joins;
  ctes = target.ctes + source.ctes;
}

-- `usage.syntax_nodes += 1`
abbrev pub add_node : QueryBudgetUsage → QueryBudgetUsage
add_node usage = record usage { syntax_nodes = usage.syntax_nodes + 1 }

abbrev pub ctes_len : Ctes → ℕ
ctes_len no_ctes = 0
ctes_len (more_ctes c cs) = suc (ctes_len cs)

-- `query.ctes.len()`
abbrev pub own_ctes : SyntaxQuery → ℕ
own_ctes (query node ctes recursive body order_by limit offset clauses) = ctes_len ctes

unfoldable mutual
  unfolding merge

  pub measure_query : SyntaxQuery → QueryBudgetUsage
  measure_query (query node ctes recursive body order_by limit offset clauses) =
      let start = record (one_node 0) { ctes = ctes_len ctes } in
      let with_ctes = measure_ctes start ctes in
      let with_body = merge with_ctes (measure_set_expr body 1) 0 in
      let with_orders = measure_orders with_body order_by in
      measure_optional (measure_optional with_orders limit 1) offset 1

  pub measure_ctes : QueryBudgetUsage → Ctes → QueryBudgetUsage
  measure_ctes usage no_ctes = usage
  measure_ctes usage (more_ctes c cs) = measure_ctes (merge usage (measure_cte c) 1) cs

  pub measure_cte : SyntaxCte → QueryBudgetUsage
  measure_cte (cte name columns q node) =
      merge (record (one_node 0) { ctes = own_ctes q }) (measure_query q) 1

  pub measure_set_expr : SyntaxSetExpr → ℕ → QueryBudgetUsage
  measure_set_expr (select s) depth = measure_select s depth
  measure_set_expr (union_all left right node) depth =
      merge (merge (one_node depth) (measure_set_expr left (depth + 1)) 0)
        (measure_set_expr right (depth + 1)) 0
  measure_set_expr (unsupported_set_expr description node) depth = one_node depth

  pub measure_select : SyntaxSelect → ℕ → QueryBudgetUsage
  measure_select (syntax_select distinct projection from selection group_by having node) depth =
      let with_items = measure_items (one_node depth) projection depth in
      let with_from = measure_tables with_items from depth in
      let with_selection = measure_optional with_from selection depth in
      let with_groups = measure_exprs with_selection group_by depth in
      measure_optional with_groups having depth

  pub measure_items : QueryBudgetUsage → ProjectionItems → ℕ → QueryBudgetUsage
  measure_items usage no_items depth = usage
  measure_items usage (more_items i is) depth =
      measure_items (measure_item (add_node usage) i depth) is depth

  pub measure_item : QueryBudgetUsage → SyntaxProjectionItem → ℕ → QueryBudgetUsage
  measure_item usage (wildcard qualifier node) depth = usage
  measure_item usage (projection_expr e alias node) depth = merge usage (measure_expr e depth) 0
  measure_item usage (unsupported_item description node) depth = usage

  pub measure_tables : QueryBudgetUsage → Tables → ℕ → QueryBudgetUsage
  measure_tables usage no_tables depth = usage
  measure_tables usage (more_tables t ts) depth =
      measure_tables (merge usage (measure_table t depth) 0) ts depth

  pub measure_table : SyntaxTableWithJoins → ℕ → QueryBudgetUsage
  measure_table (table_with_joins relation joins node) depth =
      measure_joins (measure_relation relation depth) joins depth

  pub measure_joins : QueryBudgetUsage → Joins → ℕ → QueryBudgetUsage
  measure_joins usage no_joins depth = usage
  measure_joins usage (more_joins j js) depth = measure_joins (measure_join usage j depth) js depth

  pub measure_join : QueryBudgetUsage → SyntaxJoin → ℕ → QueryBudgetUsage
  measure_join usage (join kind relation on node) depth =
      let counted = record usage {
        joins = usage.joins + 1;
        syntax_nodes = usage.syntax_nodes + 1;
      } in
      measure_optional (merge counted (measure_relation relation depth) 0) on depth

  pub measure_relation : SyntaxRelation → ℕ → QueryBudgetUsage
  measure_relation (table name alias node) depth = one_node depth
  measure_relation (unsupported_relation description node) depth = one_node depth
  measure_relation (derived q alias node) depth =
      merge (one_node depth) (measure_query q) (depth + 1)
  measure_relation (nested_join t alias node) depth =
      merge (one_node depth) (measure_table t (depth + 1)) 0

  -- The loop over a query's `order_by` counts each entry and its expression.
  pub measure_orders : QueryBudgetUsage → OrderBys → QueryBudgetUsage
  measure_orders usage no_orders = usage
  measure_orders usage (more_orders o os) = measure_orders (measure_order (add_node usage) o 1) os

  -- The loop over a window's `order_by` counts the expressions alone.
  pub measure_window_orders : QueryBudgetUsage → OrderBys → ℕ → QueryBudgetUsage
  measure_window_orders usage no_orders depth = usage
  measure_window_orders usage (more_orders o os) depth =
      measure_window_orders (measure_order usage o depth) os depth

  pub measure_order : QueryBudgetUsage → SyntaxOrderByExpr → ℕ → QueryBudgetUsage
  measure_order usage (order_by_expr e asc nulls_first node) depth =
      merge usage (measure_expr e depth) 0

  pub measure_optional : QueryBudgetUsage → OptionalExpr → ℕ → QueryBudgetUsage
  measure_optional usage no_expr depth = usage
  measure_optional usage (some_expr e) depth = merge usage (measure_expr e depth) 0

  pub measure_exprs : QueryBudgetUsage → Exprs → ℕ → QueryBudgetUsage
  measure_exprs usage no_exprs depth = usage
  measure_exprs usage (more_exprs e es) depth =
      measure_exprs (merge usage (measure_expr e depth) 0) es depth

  pub measure_expr : SyntaxExpr → ℕ → QueryBudgetUsage
  measure_expr (expr kind node) depth = measure_children (one_node depth) kind depth

  pub measure_children : QueryBudgetUsage → SyntaxExprKind → ℕ → QueryBudgetUsage
  measure_children usage (unary op e) depth = merge usage (measure_expr e (depth + 1)) 0
  measure_children usage (is_null e negated) depth = merge usage (measure_expr e (depth + 1)) 0
  measure_children usage (cast e data_type) depth = merge usage (measure_expr e (depth + 1)) 0
  measure_children usage (binary op left right) depth =
      merge (merge usage (measure_expr left (depth + 1)) 0) (measure_expr right (depth + 1)) 0
  measure_children usage (function f) depth = measure_function usage f depth
  measure_children usage (case operand branches else_result) depth =
      let with_operand = measure_optional usage operand (depth + 1) in
      let with_branches = measure_branches with_operand branches (depth + 1) in
      measure_optional with_branches else_result (depth + 1)
  measure_children usage (between e low high negated) depth =
      merge (merge (merge usage (measure_expr e (depth + 1)) 0) (measure_expr low (depth + 1)) 0)
        (measure_expr high (depth + 1)) 0
  measure_children usage (in_list e list negated) depth =
      measure_exprs (merge usage (measure_expr e (depth + 1)) 0) list (depth + 1)
  measure_children usage (in_subquery e q negated) depth =
      merge (merge usage (measure_expr e (depth + 1)) 0) (measure_query q) (depth + 1)
  measure_children usage (scalar_subquery q) depth = merge usage (measure_query q) (depth + 1)
  measure_children usage (exists q) depth = merge usage (measure_query q) (depth + 1)
  measure_children usage (like e pattern negated case_insensitive) depth =
      merge (merge usage (measure_expr e (depth + 1)) 0) (measure_expr pattern (depth + 1)) 0
  measure_children usage (tuple items) depth = measure_exprs usage items (depth + 1)
  measure_children usage (array items) depth = measure_exprs usage items (depth + 1)
  measure_children usage (column relation name) depth = usage
  measure_children usage (literal value) depth = usage
  measure_children usage (parameter reference) depth = usage
  measure_children usage (unsupported_expr description) depth = usage

  pub measure_function : QueryBudgetUsage → SyntaxFunctionCall → ℕ → QueryBudgetUsage
  measure_function usage (function_call f args distinct filter over) depth =
      let with_args = measure_exprs usage args (depth + 1) in
      let with_filter = measure_optional with_args filter (depth + 1) in
      measure_window with_filter over (depth + 1)

  pub measure_window : QueryBudgetUsage → OptionalWindow → ℕ → QueryBudgetUsage
  measure_window usage no_window depth = usage
  measure_window usage (window_spec partition_by order_by node) depth =
      measure_window_orders (measure_exprs usage partition_by depth) order_by depth

  pub measure_branches : QueryBudgetUsage → WhenThens → ℕ → QueryBudgetUsage
  measure_branches usage no_branches depth = usage
  measure_branches usage (more_branches b bs) depth =
      measure_branches (measure_when_then usage b depth) bs depth

  pub measure_when_then : QueryBudgetUsage → SyntaxWhenThen → ℕ → QueryBudgetUsage
  measure_when_then usage (when_then condition result) depth =
      merge (merge usage (measure_expr condition depth) 0) (measure_expr result depth) 0
