-- ===== src/Features/Syntactic.antt =====
-- The walk of crates/queryfabric-catalog/src/features.rs over the syntax tree. `features: &mut PlanFeatures` is
-- threaded; a loop over a vector is a function on the list.
use queryfabric.Base.{
  Bool, String, [], contains, false, if◌then◌else◌, string_eq, true, ◌++◌, ◌||◌, ◌∷◌,
}
use queryfabric.Syntax.Tree.{
  Ctes, Exprs, FunctionRef, Joins, OptionalExpr, OptionalWindow, ProjectionItems, SyntaxExpr,
  SyntaxExprKind, SyntaxQuery, SyntaxRelation, SyntaxSelect, SyntaxSetExpr, Tables, WhenThens,
  array, between, binary, case, cast, column, cte, derived, exists, expr, function, function_call,
  in_list, in_subquery, is_null, join, like, literal, more_branches, more_ctes, more_exprs,
  more_items, more_joins, more_tables, nested_join, no_branches, no_ctes, no_expr, no_exprs,
  no_items, no_joins, no_tables, no_window, parameter, projection_expr, query, scalar_subquery,
  select, some_expr, syntax_select, table, table_with_joins, tuple, unary, union_all,
  unsupported_expr, unsupported_item, unsupported_relation, unsupported_set_expr, when_then,
  wildcard, window_spec,
}
use queryfabric.Features.Model.{
  PlanFeatures, any_format, any_settings, insert_function, merge_plan_features, no_features,
}

abbrev pub is_syntax_expr : OptionalExpr → Bool
is_syntax_expr no_expr = false
is_syntax_expr (some_expr e) = true

abbrev pub has_syntax_ctes : Ctes → Bool
has_syntax_ctes no_ctes = false
has_syntax_ctes (more_ctes c cs) = true

abbrev pub has_syntax_joins : Joins → Bool
has_syntax_joins no_joins = false
has_syntax_joins (more_joins j js) = true

abbrev pub has_syntax_window : OptionalWindow → Bool
has_syntax_window no_window = false
has_syntax_window (window_spec partition_by order_by node) = true

-- `if !table.joins.is_empty() { features.has_joins = true }`
abbrev pub mark_syntax_joins : Joins → PlanFeatures → PlanFeatures
mark_syntax_joins js f = if has_syntax_joins js then record f { has_joins = true } else f

-- The functions that are taken for aggregates by their names alone.
abbrev pub names_aggregate : String → Bool
names_aggregate name = contains name (
    "count" ∷ "sum" ∷ "avg" ∷ "min" ∷ "max" ∷ "quantile" ∷ "avg_merge" ∷ "count_merge" ∷ "sum_merge"
    ∷ [])

-- A call, before its arguments.
abbrev pub mark_call : FunctionRef → Bool → Bool → PlanFeatures → PlanFeatures
mark_call reference distinct windowed f = record f {
  functions = insert_function reference f.functions;
  has_distinct_aggregates = f.has_distinct_aggregates || distinct;
  has_windows = f.has_windows || windowed;
  has_aggregates = f.has_aggregates || names_aggregate reference.name;
}

-- The features of the query itself.
abbrev pub own_syntax_features : SyntaxQuery → PlanFeatures
own_syntax_features (query node ctes recursive body order_by limit offset clauses) =
    record no_features {
      has_ctes = has_syntax_ctes ctes;
      has_recursive_ctes = recursive;
      has_clickhouse_settings = any_settings clauses;
      has_clickhouse_format = any_format clauses;
      has_limit_offset = is_syntax_expr limit || is_syntax_expr offset;
    }

unfoldable mutual
  unfolding merge_plan_features

  pub plan_features_from_syntax : SyntaxQuery → PlanFeatures
  plan_features_from_syntax (query node ctes recursive body order_by limit offset clauses) =
      syntax_ctes_features ctes (
        visit_syntax_set_expr body
          (own_syntax_features (query node ctes recursive body order_by limit offset clauses)))

  pub syntax_ctes_features : Ctes → PlanFeatures → PlanFeatures
  syntax_ctes_features no_ctes f = f
  syntax_ctes_features (more_ctes (cte name columns q node) cs) f =
      syntax_ctes_features cs (merge_plan_features f (plan_features_from_syntax q))

  pub visit_syntax_set_expr : SyntaxSetExpr → PlanFeatures → PlanFeatures
  visit_syntax_set_expr (select s) f = visit_syntax_select s f
  visit_syntax_set_expr (union_all a b node) f =
      visit_syntax_set_expr b (visit_syntax_set_expr a (record f { has_set_operations = true }))
  visit_syntax_set_expr (unsupported_set_expr description node) f = record f {
    unsupported_set_ops = f.unsupported_set_ops ++ description ∷ [];
  }

  pub visit_syntax_select : SyntaxSelect → PlanFeatures → PlanFeatures
  visit_syntax_select (syntax_select distinct projection from selection group_by having node) f =
      let with_items = visit_syntax_items projection f in
      let with_tables = visit_syntax_tables from with_items in
      let with_where = visit_syntax_optional selection with_tables in
      visit_syntax_optional having (visit_syntax_exprs group_by with_where)

  pub visit_syntax_items : ProjectionItems → PlanFeatures → PlanFeatures
  visit_syntax_items no_items f = f
  visit_syntax_items (more_items (wildcard qualifier node) is) f = visit_syntax_items is f
  visit_syntax_items (more_items (projection_expr e alias node) is) f =
      visit_syntax_items is (visit_syntax_expr e f)
  visit_syntax_items (more_items (unsupported_item description node) is) f = visit_syntax_items is f

  pub visit_syntax_tables : Tables → PlanFeatures → PlanFeatures
  visit_syntax_tables no_tables f = f
  visit_syntax_tables (more_tables (table_with_joins relation js node) ts) f =
      visit_syntax_tables ts
        (visit_syntax_joins js (visit_syntax_relation relation (mark_syntax_joins js f)))

  pub visit_syntax_joins : Joins → PlanFeatures → PlanFeatures
  visit_syntax_joins no_joins f = f
  visit_syntax_joins (more_joins (join kind relation on node) js) f =
      visit_syntax_joins js (visit_syntax_optional on (visit_syntax_relation relation f))

  -- The joins inside a nested join: their conditions are not looked at.
  pub visit_syntax_nested : Joins → PlanFeatures → PlanFeatures
  visit_syntax_nested no_joins f = f
  visit_syntax_nested (more_joins (join kind relation on node) js) f =
      visit_syntax_nested js (visit_syntax_relation relation f)

  pub visit_syntax_relation : SyntaxRelation → PlanFeatures → PlanFeatures
  visit_syntax_relation (table name alias node) f = f
  visit_syntax_relation (derived q alias node) f =
      merge_plan_features (record f { has_derived_tables = true }) (plan_features_from_syntax q)
  visit_syntax_relation (nested_join (table_with_joins relation js node) alias _) f =
      visit_syntax_nested js
        (visit_syntax_relation relation (record f { has_derived_tables = true }))
  visit_syntax_relation (unsupported_relation description node) f = f

  pub visit_syntax_optional : OptionalExpr → PlanFeatures → PlanFeatures
  visit_syntax_optional no_expr f = f
  visit_syntax_optional (some_expr e) f = visit_syntax_expr e f

  pub visit_syntax_exprs : Exprs → PlanFeatures → PlanFeatures
  visit_syntax_exprs no_exprs f = f
  visit_syntax_exprs (more_exprs e es) f = visit_syntax_exprs es (visit_syntax_expr e f)

  pub visit_syntax_branches : WhenThens → PlanFeatures → PlanFeatures
  visit_syntax_branches no_branches f = f
  visit_syntax_branches (more_branches (when_then condition result) bs) f =
      visit_syntax_branches bs (visit_syntax_expr result (visit_syntax_expr condition f))

  pub visit_syntax_expr : SyntaxExpr → PlanFeatures → PlanFeatures
  visit_syntax_expr (expr kind node) f = visit_syntax_kind kind f

  pub visit_syntax_kind : SyntaxExprKind → PlanFeatures → PlanFeatures
  visit_syntax_kind (column relation name) f = f
  visit_syntax_kind (literal value) f = f
  visit_syntax_kind (parameter reference) f = f
  visit_syntax_kind (unary op e) f = visit_syntax_expr e f
  visit_syntax_kind (binary op a b) f = visit_syntax_expr b (visit_syntax_expr a f)
  visit_syntax_kind (function (function_call reference args distinct filter over)) f =
      visit_syntax_exprs args (mark_call reference distinct (has_syntax_window over) f)
  visit_syntax_kind (case operand branches otherwise) f =
      visit_syntax_optional otherwise
        (visit_syntax_branches branches (visit_syntax_optional operand f))
  visit_syntax_kind (cast e data_type) f = visit_syntax_expr e f
  visit_syntax_kind (between e low high negated) f =
      visit_syntax_expr high (visit_syntax_expr low (visit_syntax_expr e f))
  visit_syntax_kind (in_list e items negated) f = visit_syntax_exprs items (visit_syntax_expr e f)
  visit_syntax_kind (in_subquery e q negated) f =
      merge_plan_features (visit_syntax_expr e (record f { has_in_subqueries = true }))
        (plan_features_from_syntax q)
  visit_syntax_kind (scalar_subquery q) f =
      merge_plan_features (record f { has_scalar_subqueries = true }) (plan_features_from_syntax q)
  visit_syntax_kind (exists q) f =
      merge_plan_features (record f { has_scalar_subqueries = true }) (plan_features_from_syntax q)
  visit_syntax_kind (like e pattern negated case_insensitive) f =
      visit_syntax_expr pattern (visit_syntax_expr e f)
  visit_syntax_kind (is_null e negated) f = visit_syntax_expr e f
  visit_syntax_kind (tuple items) f = visit_syntax_exprs items f
  visit_syntax_kind (array items) f = visit_syntax_exprs items f
  visit_syntax_kind (unsupported_expr description) f = f
