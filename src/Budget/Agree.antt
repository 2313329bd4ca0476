-- ===== src/Budget/Agree.antt =====
-- The measuring functions agree with the totals of Budget/Totals.antt: one lemma for each function.
use queryfabric.Base.{ℕ, ◌+◌}
use queryfabric.Budget.Measure.{
  QueryBudgetUsage, add_node, measure_branches, measure_children, measure_cte, measure_ctes,
  measure_expr, measure_exprs, measure_function, measure_item, measure_items, measure_join,
  measure_joins, measure_optional, measure_order, measure_orders, measure_query, measure_relation,
  measure_select, measure_set_expr, measure_table, measure_tables, measure_when_then,
  measure_window, measure_window_orders, merge, one_node, own_ctes,
}
use queryfabric.Budget.Steps.{
  IsTotal, Step, below_node, beside_node, both, both_of_total, counted_join, declared, leaf, merged,
  merged_cte, merged_query, one_entry, query_below, repeated, unchanged,
}
use queryfabric.Budget.Totals.{
  total_branches, total_children, total_cte, total_ctes, total_expr, total_exprs, total_function,
  total_item, total_items, total_join, total_joins, total_optional, total_order, total_orders,
  total_query, total_relation, total_select, total_set_expr, total_table, total_tables,
  total_when_then, total_window, total_window_orders,
}
use queryfabric.Syntax.Tree.{
  Ctes, Exprs, Joins, OptionalExpr, OptionalWindow, OrderBys, ProjectionItems, SyntaxCte,
  SyntaxExpr, SyntaxExprKind, SyntaxFunctionCall, SyntaxJoin, SyntaxOrderByExpr,
  SyntaxProjectionItem, SyntaxQuery, SyntaxRelation, SyntaxSelect, SyntaxSetExpr,
  SyntaxTableWithJoins, SyntaxWhenThen, Tables, WhenThens, array, between, binary, case, cast,
  column, cte, derived, exists, expr, function, function_call, in_list, in_subquery, is_null, join,
  like, literal, more_branches, more_ctes, more_exprs, more_items, more_joins, more_orders,
  more_tables, nested_join, no_branches, no_ctes, no_expr, no_exprs, no_items, no_joins, no_orders,
  no_tables, no_window, order_by_expr, parameter, projection_expr, query, scalar_subquery, select,
  some_expr, syntax_select, table, table_with_joins, tuple, unary, union_all, unsupported_expr,
  unsupported_item, unsupported_relation, unsupported_set_expr, when_then, wildcard, window_spec,
}

mutual
  unfolding measure_query total_query

  pub measure_query_lem : (q : SyntaxQuery) → IsTotal (total_query q) 1 (measure_query q)
  measure_query_lem (query node ctes recursive body order_by limit offset clauses) = declared _ (
      both
        (both
          (both (both (measure_ctes-Step _ ctes) (merged _ (measure_set_expr_lem body 1)))
            (measure_orders-Step _ order_by))
          (measure_optional-Step _ limit 1))
        (measure_optional-Step _ offset 1))

  measure_ctes-Step :
      (u : QueryBudgetUsage) (cs : Ctes) → Step (total_ctes cs) 1 u (measure_ctes u cs)
  measure_ctes-Step u no_ctes = unchanged u
  measure_ctes-Step u (more_ctes c cs) =
      both (merged_cte u (measure_cte_lem c)) (measure_ctes-Step (merge u (measure_cte c) 1) cs)

  measure_cte_lem : (c : SyntaxCte) → IsTotal (total_cte c) 0 (measure_cte c)
  measure_cte_lem (cte name columns q node) = repeated (own_ctes q) (measure_query_lem q)

  measure_set_expr_lem :
      (e : SyntaxSetExpr) (d : ℕ) → IsTotal (total_set_expr e) d (measure_set_expr e d)
  measure_set_expr_lem (select s) d = measure_select_lem s d
  measure_set_expr_lem (union_all left right node) d = below_node d (
      both (merged _ (measure_set_expr_lem left (d + 1)))
        (merged _ (measure_set_expr_lem right (d + 1))))
  measure_set_expr_lem (unsupported_set_expr description node) d = leaf d

  measure_select_lem : (s : SyntaxSelect) (d : ℕ) → IsTotal (total_select s) d (measure_select s d)
  measure_select_lem (syntax_select distinct projection from selection group_by having node) d =
      beside_node d (
        both
          (both
            (both (both (measure_items-Step _ projection d) (measure_tables-Step _ from d))
              (measure_optional-Step _ selection d))
            (measure_exprs-Step _ group_by d))
          (measure_optional-Step _ having d))

  measure_items-Step :
      (u : QueryBudgetUsage) (is : ProjectionItems) (d : ℕ)
      → Step (total_items is) d u (measure_items u is d)
  measure_items-Step u no_items d = unchanged u
  measure_items-Step u (more_items i is) d =
      both (one_entry u (measure_item-Step (add_node u) i d)) (measure_items-Step _ is d)

  measure_item-Step :
      (u : QueryBudgetUsage) (i : SyntaxProjectionItem) (d : ℕ)
      → Step (total_item i) d u (measure_item u i d)
  measure_item-Step u (wildcard qualifier node) d = unchanged u
  measure_item-Step u (projection_expr e alias node) d = merged u (measure_expr_lem e d)
  measure_item-Step u (unsupported_item description node) d = unchanged u

  measure_tables-Step :
      (u : QueryBudgetUsage) (ts : Tables) (d : ℕ)
      → Step (total_tables ts) d u (measure_tables u ts d)
  measure_tables-Step u no_tables d = unchanged u
  measure_tables-Step u (more_tables t ts) d =
      both (merged u (measure_table_lem t d)) (measure_tables-Step _ ts d)

  measure_table_lem :
      (t : SyntaxTableWithJoins) (d : ℕ) → IsTotal (total_table t) d (measure_table t d)
  measure_table_lem (table_with_joins relation joins node) d =
      both_of_total (measure_relation_lem relation d) (measure_joins-Step _ joins d)

  measure_joins-Step :
      (u : QueryBudgetUsage) (js : Joins) (d : ℕ) → Step (total_joins js) d u (measure_joins u js d)
  measure_joins-Step u no_joins d = unchanged u
  measure_joins-Step u (more_joins j js) d =
      both (measure_join-Step u j d) (measure_joins-Step _ js d)

  measure_join-Step :
      (u : QueryBudgetUsage) (j : SyntaxJoin) (d : ℕ) → Step (total_join j) d u (measure_join u j d)
  measure_join-Step u (join kind relation on node) d =
      counted_join u
        (both (merged _ (measure_relation_lem relation d)) (measure_optional-Step _ on d))

  measure_relation_lem :
      (r : SyntaxRelation) (d : ℕ) → IsTotal (total_relation r) d (measure_relation r d)
  measure_relation_lem (table name alias node) d = leaf d
  measure_relation_lem (unsupported_relation description node) d = leaf d
  measure_relation_lem (derived q alias node) d = query_below d (measure_query_lem q)
  measure_relation_lem (nested_join t alias node) d =
      below_node d (merged (one_node d) (measure_table_lem t (d + 1)))

  measure_orders-Step :
      (u : QueryBudgetUsage) (os : OrderBys) → Step (total_orders os) 1 u (measure_orders u os)
  measure_orders-Step u no_orders = unchanged u
  measure_orders-Step u (more_orders o os) =
      both (one_entry u (measure_order-Step (add_node u) o 1)) (measure_orders-Step _ os)

  measure_window_orders-Step :
      (u : QueryBudgetUsage) (os : OrderBys) (d : ℕ)
      → Step (total_window_orders os) d u (measure_window_orders u os d)
  measure_window_orders-Step u no_orders d = unchanged u
  measure_window_orders-Step u (more_orders o os) d =
      both (measure_order-Step u o d) (measure_window_orders-Step _ os d)

  measure_order-Step :
      (u : QueryBudgetUsage) (o : SyntaxOrderByExpr) (d : ℕ)
      → Step (total_order o) d u (measure_order u o d)
  measure_order-Step u (order_by_expr e asc nulls_first node) d = merged u (measure_expr_lem e d)

  measure_optional-Step :
      (u : QueryBudgetUsage) (o : OptionalExpr) (d : ℕ)
      → Step (total_optional o) d u (measure_optional u o d)
  measure_optional-Step u no_expr d = unchanged u
  measure_optional-Step u (some_expr e) d = merged u (measure_expr_lem e d)

  measure_exprs-Step :
      (u : QueryBudgetUsage) (es : Exprs) (d : ℕ) → Step (total_exprs es) d u (measure_exprs u es d)
  measure_exprs-Step u no_exprs d = unchanged u
  measure_exprs-Step u (more_exprs e es) d =
      both (merged u (measure_expr_lem e d)) (measure_exprs-Step _ es d)

  pub measure_expr_lem : (e : SyntaxExpr) (d : ℕ) → IsTotal (total_expr e) d (measure_expr e d)
  measure_expr_lem (expr kind node) d = below_node d (measure_children-Step (one_node d) kind d)

  measure_children-Step :
      (u : QueryBudgetUsage) (kind : SyntaxExprKind) (d : ℕ)
      → Step (total_children kind) (d + 1) u (measure_children u kind d)
  measure_children-Step u (unary op e) d = merged u (measure_expr_lem e (d + 1))
  measure_children-Step u (is_null e negated) d = merged u (measure_expr_lem e (d + 1))
  measure_children-Step u (cast e data_type) d = merged u (measure_expr_lem e (d + 1))
  measure_children-Step u (binary op left right) d =
      both (merged u (measure_expr_lem left (d + 1))) (merged _ (measure_expr_lem right (d + 1)))
  measure_children-Step u (function f) d = measure_function-Step u f d
  measure_children-Step u (case operand branches else_result) d =
      both
        (both (measure_optional-Step u operand (d + 1)) (measure_branches-Step _ branches (d + 1)))
        (measure_optional-Step _ else_result (d + 1))
  measure_children-Step u (between e low high negated) d =
      both (both (merged u (measure_expr_lem e (d + 1))) (merged _ (measure_expr_lem low (d + 1))))
        (merged _ (measure_expr_lem high (d + 1)))
  measure_children-Step u (in_list e list negated) d =
      both (merged u (measure_expr_lem e (d + 1))) (measure_exprs-Step _ list (d + 1))
  measure_children-Step u (in_subquery e q negated) d =
      both (merged u (measure_expr_lem e (d + 1))) (merged_query d _ (measure_query_lem q))
  measure_children-Step u (scalar_subquery q) d = merged_query d u (measure_query_lem q)
  measure_children-Step u (exists q) d = merged_query d u (measure_query_lem q)
  measure_children-Step u (like e pattern negated case_insensitive) d =
      both (merged u (measure_expr_lem e (d + 1))) (merged _ (measure_expr_lem pattern (d + 1)))
  measure_children-Step u (tuple items) d = measure_exprs-Step u items (d + 1)
  measure_children-Step u (array items) d = measure_exprs-Step u items (d + 1)
  measure_children-Step u (column relation name) d = unchanged u
  measure_children-Step u (literal value) d = unchanged u
  measure_children-Step u (parameter reference) d = unchanged u
  measure_children-Step u (unsupported_expr description) d = unchanged u

  measure_function-Step :
      (u : QueryBudgetUsage) (f : SyntaxFunctionCall) (d : ℕ)
      → Step (total_function f) (d + 1) u (measure_function u f d)
  measure_function-Step u (function_call f args distinct filter over) d =
      both (both (measure_exprs-Step u args (d + 1)) (measure_optional-Step _ filter (d + 1)))
        (measure_window-Step _ over (d + 1))

  measure_window-Step :
      (u : QueryBudgetUsage) (w : OptionalWindow) (d : ℕ)
      → Step (total_window w) d u (measure_window u w d)
  measure_window-Step u no_window d = unchanged u
  measure_window-Step u (window_spec partition_by order_by node) d =
      both (measure_exprs-Step u partition_by d) (measure_window_orders-Step _ order_by d)

  measure_branches-Step :
      (u : QueryBudgetUsage) (bs : WhenThens) (d : ℕ)
      → Step (total_branches bs) d u (measure_branches u bs d)
  measure_branches-Step u no_branches d = unchanged u
  measure_branches-Step u (more_branches b bs) d =
      both (measure_when_then-Step u b d) (measure_branches-Step _ bs d)

  measure_when_then-Step :
      (u : QueryBudgetUsage) (b : SyntaxWhenThen) (d : ℕ)
      → Step (total_when_then b) d u (measure_when_then u b d)
  measure_when_then-Step u (when_then condition result) d =
      both (merged u (measure_expr_lem condition d)) (merged _ (measure_expr_lem result d))
