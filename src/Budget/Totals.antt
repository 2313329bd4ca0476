-- ===== src/Budget/Totals.antt =====
-- A reference for the measuring functions: the totals of a tree, from the totals of its parts, with
-- no accumulator and no depth handed down. `levels` is the number of levels of set expressions,
-- relations and expressions below one another, where a subquery stands one level further down and a
-- common table expression two; it is 0 for an absent part. `repeated` counts the common table
-- expressions that the query of a common table expression declares.
use queryfabric.Base.{ℕ, ◌+◌, max}
use queryfabric.Budget.Measure.{ctes_len, own_ctes}
use queryfabric.Syntax.Tree.{
  SyntaxQuery, query, SyntaxCte, cte, Ctes, no_ctes, more_ctes, SyntaxSetExpr, select, union_all,
  unsupported_set_expr, SyntaxSelect, syntax_select, SyntaxProjectionItem, wildcard,
  projection_expr, unsupported_item, ProjectionItems, no_items, more_items, SyntaxTableWithJoins,
  table_with_joins, Tables, no_tables, more_tables, SyntaxJoin, join, Joins, no_joins, more_joins,
  SyntaxRelation, table, derived, nested_join, unsupported_relation, SyntaxOrderByExpr,
  order_by_expr, OrderBys, no_orders, more_orders, OptionalWindow, no_window, window_spec,
  SyntaxFunctionCall, function_call, SyntaxWhenThen, when_then, WhenThens, no_branches,
  more_branches, SyntaxExpr, expr, OptionalExpr, no_expr, some_expr, Exprs, no_exprs, more_exprs,
  SyntaxExprKind, column, literal, parameter, unary, binary, function, case, cast, between, in_list,
  in_subquery, scalar_subquery, exists, like, is_null, tuple, array, unsupported_expr,
}

pub record Totals : Type 0 where
  pub nodes : ℕ
  pub joins : ℕ
  pub ctes : ℕ
  pub repeated : ℕ
  pub levels : ℕ

abbrev pub nothing : Totals
nothing = record { nodes = 0; joins = 0; ctes = 0; repeated = 0; levels = 0 }

-- Side by side.
infixl 65 ◌⊕◌
abbrev pub ◌⊕◌ : Totals → Totals → Totals
s ⊕ t = record {
  nodes = s.nodes + t.nodes;
  joins = s.joins + t.joins;
  ctes = s.ctes + t.ctes;
  repeated = s.repeated + t.repeated;
  levels = max s.levels t.levels;
}

-- A node with its parts one level below.
abbrev pub node_over : Totals → Totals
node_over t = record t { nodes = 1 + t.nodes; levels = 1 + t.levels }

-- A counted entry that adds no level.
abbrev pub entry : Totals → Totals
entry t = record t { nodes = 1 + t.nodes }

-- A query that declares `n` common table expressions.
abbrev pub declaring : ℕ → Totals → Totals
declaring n t = record t { nodes = 1 + t.nodes; ctes = n + t.ctes }

-- A common table expression whose query declares `n` more.
abbrev pub repeating : ℕ → Totals → Totals
repeating n t = record t { nodes = 1 + t.nodes; repeated = n + t.repeated; levels = 2 + t.levels }

abbrev pub one_join : Totals → Totals
one_join t = record t { nodes = 1 + t.nodes; joins = 1 + t.joins }

-- A subquery, one level further down.
abbrev pub deeper : Totals → Totals
deeper t = record t { levels = 1 + t.levels }

unfoldable mutual
  pub total_query : SyntaxQuery → Totals
  total_query (query node ctes recursive body order_by limit offset clauses) =
      declaring (ctes_len ctes) (
        total_ctes ctes
        ⊕ total_set_expr body
        ⊕ total_orders order_by
        ⊕ total_optional limit
        ⊕ total_optional offset)

  pub total_ctes : Ctes → Totals
  total_ctes no_ctes = nothing
  total_ctes (more_ctes c cs) = total_cte c ⊕ total_ctes cs

  pub total_cte : SyntaxCte → Totals
  total_cte (cte name columns q node) = repeating (own_ctes q) (total_query q)

  pub total_set_expr : SyntaxSetExpr → Totals
  total_set_expr (select s) = total_select s
  total_set_expr (union_all left right node) =
      node_over (total_set_expr left ⊕ total_set_expr right)
  total_set_expr (unsupported_set_expr description node) = node_over nothing

  pub total_select : SyntaxSelect → Totals
  total_select (syntax_select distinct projection from selection group_by having node) =
      node_over nothing
      ⊕ (total_items projection
          ⊕ total_tables from
          ⊕ total_optional selection
          ⊕ total_exprs group_by
          ⊕ total_optional having)

  pub total_items : ProjectionItems → Totals
  total_items no_items = nothing
  total_items (more_items i is) = entry (total_item i) ⊕ total_items is

  pub total_item : SyntaxProjectionItem → Totals
  total_item (wildcard qualifier node) = nothing
  total_item (projection_expr e alias node) = total_expr e
  total_item (unsupported_item description node) = nothing

  pub total_tables : Tables → Totals
  total_tables no_tables = nothing
  total_tables (more_tables t ts) = total_table t ⊕ total_tables ts

  pub total_table : SyntaxTableWithJoins → Totals
  total_table (table_with_joins relation joins node) = total_relation relation ⊕ total_joins joins

  pub total_joins : Joins → Totals
  total_joins no_joins = nothing
  total_joins (more_joins j js) = total_join j ⊕ total_joins js

  pub total_join : SyntaxJoin → Totals
  total_join (join kind relation on node) = one_join (total_relation relation ⊕ total_optional on)

  pub total_relation : SyntaxRelation → Totals
  total_relation (table name alias node) = node_over nothing
  total_relation (unsupported_relation description node) = node_over nothing
  total_relation (derived q alias node) = node_over (deeper (total_query q))
  total_relation (nested_join t alias node) = node_over (total_table t)

  -- An entry of a query's `order_by` is a node; one of a window's is not.
  pub total_orders : OrderBys → Totals
  total_orders no_orders = nothing
  total_orders (more_orders o os) = entry (total_order o) ⊕ total_orders os

  pub total_window_orders : OrderBys → Totals
  total_window_orders no_orders = nothing
  total_window_orders (more_orders o os) = total_order o ⊕ total_window_orders os

  pub total_order : SyntaxOrderByExpr → Totals
  total_order (order_by_expr e asc nulls_first node) = total_expr e

  pub total_optional : OptionalExpr → Totals
  total_optional no_expr = nothing
  total_optional (some_expr e) = total_expr e

  pub total_exprs : Exprs → Totals
  total_exprs no_exprs = nothing
  total_exprs (more_exprs e es) = total_expr e ⊕ total_exprs es

  pub total_expr : SyntaxExpr → Totals
  total_expr (expr kind node) = node_over (total_children kind)

  pub total_children : SyntaxExprKind → Totals
  total_children (unary op e) = total_expr e
  total_children (is_null e negated) = total_expr e
  total_children (cast e data_type) = total_expr e
  total_children (binary op left right) = total_expr left ⊕ total_expr right
  total_children (function f) = total_function f
  total_children (case operand branches else_result) =
      total_optional operand ⊕ total_branches branches ⊕ total_optional else_result
  total_children (between e low high negated) = total_expr e ⊕ total_expr low ⊕ total_expr high
  total_children (in_list e list negated) = total_expr e ⊕ total_exprs list
  total_children (in_subquery e q negated) = total_expr e ⊕ deeper (total_query q)
  total_children (scalar_subquery q) = deeper (total_query q)
  total_children (exists q) = deeper (total_query q)
  total_children (like e pattern negated case_insensitive) = total_expr e ⊕ total_expr pattern
  total_children (tuple items) = total_exprs items
  total_children (array items) = total_exprs items
  total_children (column relation name) = nothing
  total_children (literal value) = nothing
  total_children (parameter reference) = nothing
  total_children (unsupported_expr description) = nothing

  pub total_function : SyntaxFunctionCall → Totals
  total_function (function_call f args distinct filter over) =
      total_exprs args ⊕ total_optional filter ⊕ total_window over

  pub total_window : OptionalWindow → Totals
  total_window no_window = nothing
  total_window (window_spec partition_by order_by node) =
      total_exprs partition_by ⊕ total_window_orders order_by

  pub total_branches : WhenThens → Totals
  total_branches no_branches = nothing
  total_branches (more_branches b bs) = total_when_then b ⊕ total_branches bs

  pub total_when_then : SyntaxWhenThen → Totals
  total_when_then (when_then condition result) = total_expr condition ⊕ total_expr result
