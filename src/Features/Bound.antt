-- ===== src/Features/Bound.antt =====
-- The walk of crates/queryfabric-catalog/src/features.rs over the bound tree. `features: &mut PlanFeatures` is
-- threaded; a loop over a vector is a function on the list.
use queryfabric.Base.{Bool, Option, false, if◌then◌else◌, none, some, true, ◌||◌}
use queryfabric.Syntax.Tree.{FunctionRef}
use queryfabric.Syntax.Bound.{
  BoundCtes, BoundExpr, BoundExprKind, BoundExprs, BoundItems, BoundJoins, BoundQueryPlan,
  BoundRelation, BoundSelect, BoundSetExpr, BoundTables, BoundWhenThens, OptionalBound,
  OptionalBoundWindow, bound_array, bound_between, bound_binary, bound_case, bound_cast,
  bound_column, bound_cte, bound_derived, bound_exists, bound_expr, bound_function,
  bound_function_call, bound_in_list, bound_in_subquery, bound_is_null, bound_join, bound_like,
  bound_literal, bound_nested_join, bound_parameter, bound_plan, bound_projection,
  bound_scalar_subquery, bound_select, bound_selection, bound_table, bound_table_with_joins,
  bound_tuple, bound_unary, bound_union_all, bound_unsupported, bound_unsupported_item,
  bound_unsupported_relation, bound_unsupported_set_expr, bound_when_then, bound_wildcard,
  bound_window, more_bound_branches, more_bound_ctes, more_bound_items, more_bound_joins,
  more_bound_tables, more_bounds, no_bound, no_bound_branches, no_bound_ctes, no_bound_items,
  no_bound_joins, no_bound_tables, no_bound_window, no_bounds, some_bound,
}
use queryfabric.Catalog.Model.{
  Catalog, FunctionKind, FunctionSignature, aggregate, metadata_flag, window,
}
use queryfabric.Features.Model.{
  PlanFeatures, any_format, any_settings, insert_function, merge_plan_features, no_features,
}

abbrev pub is_bound_expr : OptionalBound → Bool
is_bound_expr no_bound = false
is_bound_expr (some_bound e) = true

abbrev pub has_bound_ctes : BoundCtes → Bool
has_bound_ctes no_bound_ctes = false
has_bound_ctes (more_bound_ctes c cs) = true

abbrev pub has_bound_joins : BoundJoins → Bool
has_bound_joins no_bound_joins = false
has_bound_joins (more_bound_joins j js) = true

abbrev pub has_bound_window : OptionalBoundWindow → Bool
has_bound_window no_bound_window = false
has_bound_window (bound_window partition_by order_by node) = true

-- `if !table.joins.is_empty() { features.has_joins = true }`
abbrev pub mark_bound_joins : BoundJoins → PlanFeatures → PlanFeatures
mark_bound_joins js f = if has_bound_joins js then record f { has_joins = true } else f

abbrev pub is_aggregate_kind : FunctionKind → Bool
is_aggregate_kind aggregate = true
is_aggregate_kind _ = false

abbrev pub is_window_kind : FunctionKind → Bool
is_window_kind window = true
is_window_kind _ = false

-- What the signature says of a call.
unfoldable pub mark_signature : Option FunctionSignature → PlanFeatures → PlanFeatures
unfolding metadata_flag
mark_signature none f = f
mark_signature (some signature) f = record f {
  has_aggregates =
      f.has_aggregates || is_aggregate_kind signature.kind || metadata_flag signature "approximate";
  has_windows = f.has_windows || is_window_kind signature.kind;
}

-- A call, before its arguments.
unfoldable pub mark_bound_call :
    Option FunctionSignature → FunctionRef → Bool → Bool → PlanFeatures → PlanFeatures
unfolding mark_signature
mark_bound_call signature reference distinct windowed f =
    let marked =
      mark_signature signature (record f { functions = insert_function reference f.functions }) in
    record marked {
      has_distinct_aggregates = marked.has_distinct_aggregates || distinct;
      has_windows = marked.has_windows || windowed;
    }

-- The features of the query itself.
abbrev pub own_bound_features : BoundQueryPlan → PlanFeatures
own_bound_features (bound_plan node ctes body orders limit offset clauses schema) =
    record no_features {
      has_ctes = has_bound_ctes ctes;
      has_clickhouse_settings = any_settings clauses;
      has_clickhouse_format = any_format clauses;
      has_limit_offset = is_bound_expr limit || is_bound_expr offset;
    }

module _ (catalog : Catalog) where
  unfoldable mutual
    unfolding merge_plan_features mark_bound_call

    pub plan_features_from_bound : BoundQueryPlan → PlanFeatures
    plan_features_from_bound (bound_plan node ctes body orders limit offset clauses schema) =
        bound_ctes_features ctes (
          visit_bound_set_expr body
            (own_bound_features (bound_plan node ctes body orders limit offset clauses schema)))

    pub bound_ctes_features : BoundCtes → PlanFeatures → PlanFeatures
    bound_ctes_features no_bound_ctes f = f
    bound_ctes_features (more_bound_ctes (bound_cte name columns q schema node) cs) f =
        bound_ctes_features cs (merge_plan_features f (plan_features_from_bound q))

    pub visit_bound_set_expr : BoundSetExpr → PlanFeatures → PlanFeatures
    visit_bound_set_expr (bound_select s) f = visit_bound_select s f
    visit_bound_set_expr (bound_union_all a b node schema) f =
        visit_bound_set_expr b (visit_bound_set_expr a (record f { has_set_operations = true }))
    visit_bound_set_expr (bound_unsupported_set_expr description node schema) f = f

    pub visit_bound_select : BoundSelect → PlanFeatures → PlanFeatures
    visit_bound_select
          (bound_selection distinct projection from selection group_by having schema node) f =
        let with_items = visit_bound_items projection f in
        let with_tables = visit_bound_tables from with_items in
        let with_where = visit_bound_optional selection with_tables in
        visit_bound_optional having (visit_bound_exprs group_by with_where)

    pub visit_bound_items : BoundItems → PlanFeatures → PlanFeatures
    visit_bound_items no_bound_items f = f
    visit_bound_items (more_bound_items (bound_wildcard qualifier fields node) is) f =
        visit_bound_items is f
    visit_bound_items (more_bound_items (bound_projection e alias field node) is) f =
        visit_bound_items is (visit_bound_expr e f)
    visit_bound_items (more_bound_items (bound_unsupported_item description node) is) f =
        visit_bound_items is f

    pub visit_bound_tables : BoundTables → PlanFeatures → PlanFeatures
    visit_bound_tables no_bound_tables f = f
    visit_bound_tables (more_bound_tables (bound_table_with_joins relation js node) ts) f =
        visit_bound_tables ts
          (visit_bound_joins js (visit_bound_relation relation (mark_bound_joins js f)))

    pub visit_bound_joins : BoundJoins → PlanFeatures → PlanFeatures
    visit_bound_joins no_bound_joins f = f
    visit_bound_joins (more_bound_joins (bound_join kind relation on node) js) f =
        visit_bound_joins js (visit_bound_optional on (visit_bound_relation relation f))

    -- The joins inside a nested join: their conditions are not looked at.
    pub visit_bound_nested : BoundJoins → PlanFeatures → PlanFeatures
    visit_bound_nested no_bound_joins f = f
    visit_bound_nested (more_bound_joins (bound_join kind relation on node) js) f =
        visit_bound_nested js (visit_bound_relation relation f)

    pub visit_bound_relation : BoundRelation → PlanFeatures → PlanFeatures
    visit_bound_relation (bound_table binding node) f = f
    visit_bound_relation (bound_derived binding q node) f =
        merge_plan_features (record f { has_derived_tables = true }) (plan_features_from_bound q)
    visit_bound_relation (bound_nested_join binding (bound_table_with_joins relation js node) _) f =
        visit_bound_nested js
          (visit_bound_relation relation (record f { has_derived_tables = true }))
    visit_bound_relation (bound_unsupported_relation description binding_name node) f = f

    pub visit_bound_optional : OptionalBound → PlanFeatures → PlanFeatures
    visit_bound_optional no_bound f = f
    visit_bound_optional (some_bound e) f = visit_bound_expr e f

    pub visit_bound_exprs : BoundExprs → PlanFeatures → PlanFeatures
    visit_bound_exprs no_bounds f = f
    visit_bound_exprs (more_bounds e es) f = visit_bound_exprs es (visit_bound_expr e f)

    pub visit_bound_branches : BoundWhenThens → PlanFeatures → PlanFeatures
    visit_bound_branches no_bound_branches f = f
    visit_bound_branches (more_bound_branches (bound_when_then condition result) bs) f =
        visit_bound_branches bs (visit_bound_expr result (visit_bound_expr condition f))

    pub visit_bound_expr : BoundExpr → PlanFeatures → PlanFeatures
    visit_bound_expr (bound_expr kind data_type nullable node) f = visit_bound_kind kind f

    pub visit_bound_kind : BoundExprKind → PlanFeatures → PlanFeatures
    visit_bound_kind (bound_column reference) f = f
    visit_bound_kind (bound_literal value) f = f
    visit_bound_kind (bound_parameter reference) f = f
    visit_bound_kind (bound_unary op e) f = visit_bound_expr e f
    visit_bound_kind (bound_binary op a b) f = visit_bound_expr b (visit_bound_expr a f)
    visit_bound_kind
          (bound_function (bound_function_call reference backend args distinct filter over name))
          f =
        visit_bound_exprs args (
          mark_bound_call (catalog.resolve_function reference.namespace reference.name) reference
            distinct (has_bound_window over) f)
    visit_bound_kind (bound_case operand branches otherwise) f =
        visit_bound_optional otherwise
          (visit_bound_branches branches (visit_bound_optional operand f))
    visit_bound_kind (bound_cast e data_type) f = visit_bound_expr e f
    visit_bound_kind (bound_between e low high negated) f =
        visit_bound_expr high (visit_bound_expr low (visit_bound_expr e f))
    visit_bound_kind (bound_in_list e items negated) f =
        visit_bound_exprs items (visit_bound_expr e f)
    visit_bound_kind (bound_in_subquery e q negated) f =
        merge_plan_features (visit_bound_expr e (record f { has_in_subqueries = true }))
          (plan_features_from_bound q)
    visit_bound_kind (bound_scalar_subquery q) f =
        merge_plan_features (record f { has_scalar_subqueries = true }) (plan_features_from_bound q)
    visit_bound_kind (bound_exists q) f =
        merge_plan_features (record f { has_scalar_subqueries = true }) (plan_features_from_bound q)
    visit_bound_kind (bound_like e pattern negated case_insensitive) f =
        visit_bound_expr pattern (visit_bound_expr e f)
    visit_bound_kind (bound_is_null e negated) f = visit_bound_expr e f
    visit_bound_kind (bound_tuple items) f = visit_bound_exprs items f
    visit_bound_kind (bound_array items) f = visit_bound_exprs items f
    visit_bound_kind (bound_unsupported description) f = f
