-- ===== src/Features/Calls.antt =====
-- The functions that a bound plan calls where the walk of crates/queryfabric-catalog/src/features.rs looks.
use queryfabric.Base.{Bool, false, string_eq, ◌||◌}
use queryfabric.Syntax.Tree.{FunctionRef}
use queryfabric.Syntax.Bound.{
  BoundCtes, BoundExpr, BoundExprKind, BoundExprs, BoundItems, BoundJoins, BoundQueryPlan,
  BoundRelation, BoundSelect, BoundSetExpr, BoundTables, BoundWhenThens, OptionalBound, bound_array,
  bound_between, bound_binary, bound_case, bound_cast, bound_column, bound_cte, bound_derived,
  bound_exists, bound_expr, bound_function, bound_function_call, bound_in_list, bound_in_subquery,
  bound_is_null, bound_join, bound_like, bound_literal, bound_nested_join, bound_parameter,
  bound_plan, bound_projection, bound_scalar_subquery, bound_select, bound_selection, bound_table,
  bound_table_with_joins, bound_tuple, bound_unary, bound_union_all, bound_unsupported,
  bound_unsupported_item, bound_unsupported_relation, bound_unsupported_set_expr, bound_when_then,
  bound_wildcard, more_bound_branches, more_bound_ctes, more_bound_items, more_bound_joins,
  more_bound_tables, more_bounds, no_bound, no_bound_branches, no_bound_ctes, no_bound_items,
  no_bound_joins, no_bound_tables, no_bounds, some_bound,
}
use queryfabric.Features.Model.{same_function}

abbrev mutual
  -- The function is called in the plan, where the walk looks: not in its order, its limits, the
  -- conditions of nested joins, or the filter and the window of a call.
  pub plan_calls : FunctionRef → BoundQueryPlan → Bool
  plan_calls g (bound_plan node ctes body orders limit offset clauses schema) =
      set_calls g body || ctes_call g ctes

  pub ctes_call : FunctionRef → BoundCtes → Bool
  ctes_call g no_bound_ctes = false
  ctes_call g (more_bound_ctes (bound_cte name columns q schema node) cs) =
      plan_calls g q || ctes_call g cs

  pub set_calls : FunctionRef → BoundSetExpr → Bool
  set_calls g (bound_select s) = select_calls g s
  set_calls g (bound_union_all a b node schema) = set_calls g a || set_calls g b
  set_calls g (bound_unsupported_set_expr description node schema) = false

  pub select_calls : FunctionRef → BoundSelect → Bool
  select_calls g (bound_selection distinct projection from selection group_by having schema node) =
      items_call g projection
      || (tables_call g from
          || (option_calls g selection || (exprs_call g group_by || option_calls g having)))

  pub items_call : FunctionRef → BoundItems → Bool
  items_call g no_bound_items = false
  items_call g (more_bound_items (bound_wildcard qualifier fields node) is) = items_call g is
  items_call g (more_bound_items (bound_projection e alias field node) is) =
      expr_calls g e || items_call g is
  items_call g (more_bound_items (bound_unsupported_item description node) is) = items_call g is

  pub tables_call : FunctionRef → BoundTables → Bool
  tables_call g no_bound_tables = false
  tables_call g (more_bound_tables (bound_table_with_joins relation js node) ts) =
      relation_calls g relation || (joins_call g js || tables_call g ts)

  pub joins_call : FunctionRef → BoundJoins → Bool
  joins_call g no_bound_joins = false
  joins_call g (more_bound_joins (bound_join kind relation on node) js) =
      relation_calls g relation || (option_calls g on || joins_call g js)

  pub nested_calls : FunctionRef → BoundJoins → Bool
  nested_calls g no_bound_joins = false
  nested_calls g (more_bound_joins (bound_join kind relation on node) js) =
      relation_calls g relation || nested_calls g js

  pub relation_calls : FunctionRef → BoundRelation → Bool
  relation_calls g (bound_table binding node) = false
  relation_calls g (bound_derived binding q node) = plan_calls g q
  relation_calls g (bound_nested_join binding (bound_table_with_joins relation js node) _) =
      relation_calls g relation || nested_calls g js
  relation_calls g (bound_unsupported_relation description binding_name node) = false

  pub option_calls : FunctionRef → OptionalBound → Bool
  option_calls g no_bound = false
  option_calls g (some_bound e) = expr_calls g e

  pub exprs_call : FunctionRef → BoundExprs → Bool
  exprs_call g no_bounds = false
  exprs_call g (more_bounds e es) = expr_calls g e || exprs_call g es

  pub branches_call : FunctionRef → BoundWhenThens → Bool
  branches_call g no_bound_branches = false
  branches_call g (more_bound_branches (bound_when_then condition result) bs) =
      expr_calls g condition || (expr_calls g result || branches_call g bs)

  pub expr_calls : FunctionRef → BoundExpr → Bool
  expr_calls g (bound_expr kind data_type nullable node) = kind_calls g kind

  pub kind_calls : FunctionRef → BoundExprKind → Bool
  kind_calls g (bound_column reference) = false
  kind_calls g (bound_literal value) = false
  kind_calls g (bound_parameter reference) = false
  kind_calls g (bound_unary op e) = expr_calls g e
  kind_calls g (bound_binary op a b) = expr_calls g a || expr_calls g b
  kind_calls g
        (bound_function (bound_function_call reference backend args distinct filter over name)) =
      same_function g reference || exprs_call g args
  kind_calls g (bound_case operand branches otherwise) =
      option_calls g operand || (branches_call g branches || option_calls g otherwise)
  kind_calls g (bound_cast e data_type) = expr_calls g e
  kind_calls g (bound_between e low high negated) =
      expr_calls g e || (expr_calls g low || expr_calls g high)
  kind_calls g (bound_in_list e items negated) = expr_calls g e || exprs_call g items
  kind_calls g (bound_in_subquery e q negated) = expr_calls g e || plan_calls g q
  kind_calls g (bound_scalar_subquery q) = plan_calls g q
  kind_calls g (bound_exists q) = plan_calls g q
  kind_calls g (bound_like e pattern negated case_insensitive) =
      expr_calls g e || expr_calls g pattern
  kind_calls g (bound_is_null e negated) = expr_calls g e
  kind_calls g (bound_tuple items) = exprs_call g items
  kind_calls g (bound_array items) = exprs_call g items
  kind_calls g (bound_unsupported description) = false
