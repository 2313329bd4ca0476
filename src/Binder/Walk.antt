-- ===== src/Binder/Walk.antt =====
-- The methods of `Binder` in crates/queryfabric-catalog/src/bind/query.rs, bind/exprs.rs and bind/functions.rs,
-- which walk the tree. A closure mapped over a vector is a function on the list; a loop that changes a
-- variable threads it. `bind_kind` is the match of `bind_expr`.
use queryfabric.Base.{
  List, Option, String, [], false, insert, lookup, none, some, suc, true, ℕ, ◌++◌, ◌||◌, ◌∷◌,
}
use queryfabric.Base.Ascii.{codes_eq, replace_dots, to_ascii_lowercase}
use queryfabric.Syntax.Types.{
  ResultField, boolean, int64, is_unknown, list, result_field, struct, utf8,
}
use queryfabric.Syntax.Tree.{
  Ctes, Exprs, FunctionRef, Joins, NameRef, OptionalExpr, OptionalWindow, OrderBys, ProjectionItems,
  SyntaxExpr, SyntaxExprKind, SyntaxFunctionCall, SyntaxNode, SyntaxQuery, SyntaxRelation,
  SyntaxSelect, SyntaxSetExpr, SyntaxTableWithJoins, Tables, WhenThens, array, between, binary,
  case, cast, column, cte, derived, exists, expr, function, function_call, in_list, in_subquery,
  is_null, join, like, literal, more_branches, more_ctes, more_exprs, more_items, more_joins,
  more_orders, more_tables, nested_join, no_branches, no_ctes, no_expr, no_exprs, no_items,
  no_joins, no_orders, no_tables, no_window, order_by_expr, parameter, projection_expr, query,
  scalar_subquery, select, some_expr, syntax_select, table, table_with_joins, tuple, unary,
  union_all, unsupported_expr, unsupported_item, unsupported_relation, unsupported_set_expr,
  when_then, wildcard, window_spec,
}
use queryfabric.Syntax.Common.{reduce_types}
use queryfabric.Syntax.Parameters.{display_name, new_field}
use queryfabric.Syntax.Bound.{
  BoundCtes, BoundExpr, BoundExprs, BoundItems, BoundOrders, BoundQueryPlan, BoundRelation,
  BoundRelationBinding, BoundSelect, BoundSetExpr, BoundTableWithJoins, BoundTables, BoundWhenThens,
  OptionalBound, OptionalBoundWindow, bound_array, bound_between, bound_binary, bound_case,
  bound_cast, bound_column, bound_cte, bound_derived, bound_exists, bound_expr, bound_function,
  bound_function_call, bound_in_list, bound_in_subquery, bound_is_null, bound_like,
  bound_nested_join, bound_nullable, bound_order, bound_plan, bound_projection,
  bound_scalar_subquery, bound_select, bound_selection, bound_table, bound_table_with_joins,
  bound_tuple, bound_type, bound_unary, bound_union_all, bound_unsupported_item,
  bound_unsupported_relation, bound_unsupported_set_expr, bound_when_then, bound_wildcard,
  bound_window, more_bound_branches, more_bound_ctes, more_bound_items, more_bound_orders,
  more_bound_tables, more_bounds, no_bound, no_bound_branches, no_bound_ctes, no_bound_items,
  no_bound_joins, no_bound_orders, no_bound_tables, no_bound_window, no_bounds, plan_schema,
  result_schema, schema_of, some_bound,
}
use queryfabric.Catalog.Model.{
  Catalog, FunctionSignature, RelationSchema, metadata_flag, to_result_schema,
}
use queryfabric.Binder.State.{
  Bind, ExpectedType, allows_null, anything, bind_literal, exactly, expression_name, non_null,
  push_error, return, same_as, unsupported_at, ◌>>=◌, ◌>>◌,
}
use queryfabric.Binder.Scope.{
  ColumnResolution, Scope, ambiguous, expand_all, expand_qualified, from_output_schema, local,
  merge_table, missing, outer_resolution, push_relation, resolve_column, scope_schema_for_table,
}
use queryfabric.Binder.Remedies.{missing_column_remediation, quoted}
use queryfabric.Binder.Functions.{
  any_nullable, argument_type, bound_types, infer_function_nullability, infer_function_return_type,
}
use queryfabric.Binder.Rules.{
  CteMap, JoinState, add_join, binary_type, bind_parameter, branch_types, branches_nullable, called,
  cte_schema, field_nullable_or, field_type_or, fields_of_tuple, has_namespace, items_expected,
  left_expected, name_cte, name_text, or_builtin, or_name, record_null_test, refuse_recursion,
  rename_binding, right_expected, single_field, unary_type, unify_union_schema, warn_clauses,
  warn_function,
}

-- A column that was found.
abbrev pub found_column : SyntaxNode → String → Option String → ResultField → BoundExpr
found_column node name relation (result_field _ data_type nullable metadata) =
    bound_expr (bound_column (record { relation = relation; name = name })) data_type nullable node

abbrev pub relation_of : NameRef → Option String → RelationSchema → BoundRelationBinding
relation_of name alias schema = record {
  binding_name = or_name alias name.name;
  relation_name = some name;
  schema = to_result_schema schema;
}

abbrev pub cte_named : CteMap → NameRef → Option BoundRelationBinding
cte_named ctes name = elim name.namespace [
  | some namespace ↦ none
  | none ↦ lookup (to_ascii_lowercase name.name) ctes
]

-- The arm of `bind_relation` for a table, after the common table expressions and the catalog are
-- asked.
unfoldable pub bind_table :
    NameRef
    → Option String
    → SyntaxNode
    → Option BoundRelationBinding
    → Option RelationSchema
    → Bind BoundRelation
bind_table name alias node (some binding) schema =
    return (bound_table (rename_binding binding alias) node)
bind_table name alias node none (some schema) =
    return (bound_table (relation_of name alias schema) node)
bind_table name alias node none none = do
  push_error "QF0005" (quoted "Unknown relation " (name_text name) ".") node
      (some "Register the relation in the catalog or qualify it with the correct namespace.")
  return (
      bound_unsupported_relation (quoted "unknown relation " (name_text name) "")
        (or_name alias name.name) node)

-- The fields of a qualified wildcard, or an error for a qualifier that is not in scope.
abbrev pub qualified_fields :
    String → SyntaxNode → Option (List ResultField) → Bind (List ResultField)
qualified_fields qualifier node (some fields) = return fields
qualified_fields qualifier node none = do
  push_error "QF0007" (quoted "Unknown relation qualifier " qualifier " in wildcard projection.")
      node (some "Use an in-scope relation alias or remove the qualifier.")
  return []

abbrev pub wildcard_fields : Scope → Option String → SyntaxNode → Bind (List ResultField)
wildcard_fields scope none node = return (expand_all scope)
wildcard_fields scope (some qualifier) node =
    qualified_fields qualifier node (expand_qualified scope qualifier)

module _ (catalog : Catalog) (to_lowercase : String → List ℕ) where
  -- The arm of `bind_expr` for a column, after the column is looked up here and outside.
  unfoldable pub bind_column :
      SyntaxNode
      → Scope
      → Option String
      → String
      → ColumnResolution
      → Option ColumnResolution
      → Bind BoundExpr
  unfolding missing_column_remediation unsupported_at
  bind_column node scope relation name (local found) outside =
      return (found_column node name found.relation found.field)
  bind_column node scope relation name ambiguous outside =
      unsupported_at node "QF0016" (quoted "Ambiguous column reference " name ".")
        (some "Qualify the column with a relation alias.")
  bind_column node scope relation name missing (some found) =
      unsupported_at node "QF0014" "Correlated subqueries are outside the verified portable subset."
        (some "Rewrite the subquery so it depends only on its local FROM scope.")
  bind_column node scope relation name missing none =
      unsupported_at node "QF0015" (quoted "Unknown column " name ".")
        (missing_column_remediation to_lowercase scope relation name)

  abbrev pub signature_of : FunctionRef → Option FunctionSignature
  signature_of reference =
      or_builtin reference.namespace reference.name
        (catalog.resolve_function reference.namespace reference.name)

  unfoldable mutual
    unfolding bind_parameter bind_column bind_literal expression_name bind_table outer_resolution
        unify_union_schema resolve_column replace_dots metadata_flag infer_function_return_type
        infer_function_nullability is_unknown reduce_types

    pub bind_query : SyntaxQuery → Option Scope → Bind BoundQueryPlan
    bind_query (query node ctes recursive body order_by limit offset clauses) outer = do
      refuse_recursion recursive node
      (bound_ctes, cte_bindings) ← bind_ctes [] ctes
      bound_body ← bind_set_expr body cte_bindings outer
      let output = from_output_schema (result_schema bound_body)
      orders ← bind_orders output none order_by
      bound_limit ← bind_optional output none (exactly int64) limit
      bound_offset ← bind_optional output none (exactly int64) offset
      warn_clauses clauses
      return (
          bound_plan node bound_ctes bound_body orders bound_limit bound_offset clauses
            (result_schema bound_body))

    pub bind_ctes : CteMap → Ctes → Bind (BoundCtes × CteMap)
    bind_ctes bindings no_ctes = return (no_bound_ctes, bindings)
    bind_ctes bindings (more_ctes (cte name columns q node) cs) = do
      plan ← bind_query q none
      let schema = cte_schema columns (plan_schema plan)
      (others, all) ←
          bind_ctes (insert (to_ascii_lowercase name) (name_cte name schema) bindings) cs
      return (more_bound_ctes (bound_cte name columns plan schema node) others, all)

    pub bind_set_expr : SyntaxSetExpr → CteMap → Option Scope → Bind BoundSetExpr
    bind_set_expr (select s) ctes outer = do
      bound ← bind_select s ctes outer
      return (bound_select bound)
    bind_set_expr (union_all a b node) ctes outer = do
      first ← bind_set_expr a ctes outer
      second ← bind_set_expr b ctes outer
      schema ← unify_union_schema (result_schema first) (result_schema second) node
      return (bound_union_all first second node schema)
    bind_set_expr (unsupported_set_expr description node) ctes outer = do
      push_error "QF0002" description node none
      return (bound_unsupported_set_expr description node (schema_of []))

    pub bind_select : SyntaxSelect → CteMap → Option Scope → Bind BoundSelect
    bind_select (syntax_select distinct projection tables selection group_by having node) ctes
          outer =
        do
          (from, scope) ← bind_tables ctes outer [] tables
          bound_where ← bind_optional scope outer (exactly boolean) selection
          groups ← bind_exprs scope outer anything group_by
          bound_having ← bind_optional scope outer (exactly boolean) having
          (items, fields) ← bind_items scope outer projection
          return (
              bound_selection distinct items from bound_where groups bound_having (schema_of fields)
                node)

    pub bind_tables : CteMap → Option Scope → Scope → Tables → Bind (BoundTables × Scope)
    bind_tables ctes outer scope no_tables = return (no_bound_tables, scope)
    bind_tables ctes outer scope (more_tables t ts) = do
      bound ← bind_table_with_joins ctes outer scope t
      (others, merged) ← bind_tables ctes outer (merge_table scope bound) ts
      return (more_bound_tables bound others, merged)

    pub bind_items : Scope → Option Scope → ProjectionItems → Bind (BoundItems × List ResultField)
    bind_items scope outer no_items = return (no_bound_items, [])
    bind_items scope outer (more_items (wildcard qualifier node) is) = do
      fields ← wildcard_fields scope qualifier node
      (items, later) ← bind_items scope outer is
      return (more_bound_items (bound_wildcard qualifier fields node) items, fields ++ later)
    bind_items scope outer (more_items (projection_expr e alias node) is) = do
      bound ← bind_expr e scope outer anything
      let field =
          new_field (or_name alias (expression_name e)) (bound_type bound) (bound_nullable bound)
      (items, later) ← bind_items scope outer is
      return (more_bound_items (bound_projection bound alias field node) items, field ∷ later)
    bind_items scope outer (more_items (unsupported_item description node) is) = do
      push_error "QF0008" description node none
      (items, later) ← bind_items scope outer is
      return (more_bound_items (bound_unsupported_item description node) items, later)

    pub bind_table_with_joins :
        CteMap → Option Scope → Scope → SyntaxTableWithJoins → Bind BoundTableWithJoins
    bind_table_with_joins ctes outer scope (table_with_joins relation joins node) = do
      bound ← bind_relation ctes scope relation
      state ←
          bind_joins ctes outer
            (record {
              relation = bound;
              joins = no_bound_joins;
              join_scope = push_relation scope bound;
            })
            joins
      return (bound_table_with_joins state.relation state.joins node)

    pub bind_joins : CteMap → Option Scope → JoinState → Joins → Bind JoinState
    bind_joins ctes outer state no_joins = return state
    bind_joins ctes outer state (more_joins (join kind relation on node) js) = do
      joined ← bind_relation ctes state.join_scope relation
      bound_on ← bind_optional (push_relation state.join_scope joined) outer (exactly boolean) on
      bind_joins ctes outer (add_join kind joined bound_on node state) js

    pub bind_relation : CteMap → Scope → SyntaxRelation → Bind BoundRelation
    bind_relation ctes scope (table name alias node) =
        bind_table name alias node (cte_named ctes name)
          (catalog.resolve_relation name.namespace name.name)
    bind_relation ctes scope (derived q alias node) = do
      plan ← bind_query q (some scope)
      return (
          bound_derived
            (record {
              binding_name = or_name alias (replace_dots node.node_id);
              relation_name = none;
              schema = plan_schema plan;
            })
            plan node)
    bind_relation ctes scope (nested_join t alias node) = do
      joined ← bind_table_with_joins ctes none scope t
      return (
          bound_nested_join
            (record {
              binding_name = or_name alias (replace_dots node.node_id);
              relation_name = none;
              schema = scope_schema_for_table joined;
            })
            joined node)
    bind_relation ctes scope (unsupported_relation description node) = do
      push_error "QF0009" description node none
      return (bound_unsupported_relation description node.node_id node)

    pub bind_orders : Scope → Option Scope → OrderBys → Bind BoundOrders
    bind_orders scope outer no_orders = return no_bound_orders
    bind_orders scope outer (more_orders (order_by_expr e asc nulls_first node) os) = do
      bound ← bind_expr e scope outer anything
      others ← bind_orders scope outer os
      return (more_bound_orders (bound_order bound asc nulls_first node) others)

    pub bind_optional : Scope → Option Scope → ExpectedType → OptionalExpr → Bind OptionalBound
    bind_optional scope outer expected no_expr = return no_bound
    bind_optional scope outer expected (some_expr e) = do
      bound ← bind_expr e scope outer expected
      return (some_bound bound)

    pub bind_exprs : Scope → Option Scope → ExpectedType → Exprs → Bind BoundExprs
    bind_exprs scope outer expected no_exprs = return no_bounds
    bind_exprs scope outer expected (more_exprs e es) = do
      bound ← bind_expr e scope outer expected
      others ← bind_exprs scope outer expected es
      return (more_bounds bound others)

    pub bind_arguments : Scope → Option Scope → FunctionSignature → ℕ → Exprs → Bind BoundExprs
    bind_arguments scope outer signature idx no_exprs = return no_bounds
    bind_arguments scope outer signature idx (more_exprs e es) = do
      bound ←
          bind_expr e scope outer
            (record { data_type = argument_type signature idx; nullable = non_null })
      others ← bind_arguments scope outer signature (suc idx) es
      return (more_bounds bound others)

    pub bind_window : Scope → Option Scope → OptionalWindow → Bind OptionalBoundWindow
    bind_window scope outer no_window = return no_bound_window
    bind_window scope outer (window_spec partition_by order_by node) = do
      partitions ← bind_exprs scope outer anything partition_by
      orders ← bind_orders scope outer order_by
      return (bound_window partitions orders node)

    pub bind_function :
        SyntaxNode
        → Scope
        → Option Scope
        → SyntaxFunctionCall
        → Option FunctionSignature
        → Bind BoundExpr
    bind_function node scope outer (function_call reference args distinct filter over) none =
        unsupported_at node "QF0013" (quoted "Unknown function " (display_name reference) ".")
          (some "Register the function in the catalog or portable builtin registry.")
    bind_function node scope outer (function_call reference args distinct filter over)
          (some signature) =
        do
          bound_args ← bind_arguments scope outer signature 0 args
          bound_filter ← bind_optional scope outer (exactly boolean) filter
          bound_over ← bind_window scope outer over
          warn_function (metadata_flag signature "approximate" || has_namespace reference) reference
              node
          return (
              bound_expr
                (bound_function (
                  bound_function_call reference none bound_args distinct bound_filter bound_over
                    (some signature.name)))
                (infer_function_return_type signature bound_args)
                (infer_function_nullability signature bound_args) node)

    pub bind_branches : Scope → Option Scope → WhenThens → Bind BoundWhenThens
    bind_branches scope outer no_branches = return no_bound_branches
    bind_branches scope outer (more_branches (when_then condition result) bs) = do
      bound_condition ← bind_expr condition scope outer (exactly boolean)
      bound_result ← bind_expr result scope outer anything
      others ← bind_branches scope outer bs
      return (more_bound_branches (bound_when_then bound_condition bound_result) others)

    pub bind_expr : SyntaxExpr → Scope → Option Scope → ExpectedType → Bind BoundExpr
    bind_expr (expr kind node) scope outer expected = bind_kind node scope outer expected kind

    pub bind_kind :
        SyntaxNode → Scope → Option Scope → ExpectedType → SyntaxExprKind → Bind BoundExpr
    bind_kind node scope outer expected (column relation name) =
        bind_column node scope relation name (resolve_column scope relation name)
          (outer_resolution outer relation name)
    bind_kind node scope outer expected (literal value) = return (bind_literal node value)
    bind_kind node scope outer expected (parameter reference) =
        bind_parameter reference node expected
    bind_kind node scope outer expected (unary op e) = do
      bound ← bind_expr e scope outer anything
      return (
          bound_expr (bound_unary op bound) (unary_type op (bound_type bound))
            (bound_nullable bound) node)
    bind_kind node scope outer expected (binary op a b) = do
      first ← bind_expr a scope outer (left_expected op)
      second ← bind_expr b scope outer (right_expected op (bound_type first))
      return (
          bound_expr (bound_binary op first second)
            (binary_type op (bound_type first) (bound_type second))
            (bound_nullable first || bound_nullable second) node)
    bind_kind node scope outer expected (function call) =
        bind_function node scope outer call (signature_of (called call))
    bind_kind node scope outer expected (case operand when_thens else_result) = do
      bound_operand ← bind_optional scope outer anything operand
      branches ← bind_branches scope outer when_thens
      otherwise ← bind_optional scope outer anything else_result
      return (
          bound_expr (bound_case bound_operand branches otherwise)
            (reduce_types (branch_types branches otherwise)) (branches_nullable branches otherwise)
            node)
    bind_kind node scope outer expected (cast e data_type) = do
      bound ←
          bind_expr e scope outer (record { data_type = some data_type; nullable = allows_null })
      return (bound_expr (bound_cast bound data_type) data_type (bound_nullable bound) node)
    bind_kind node scope outer expected (between e low high negated) = do
      bound ← bind_expr e scope outer anything
      bound_low ← bind_expr low scope outer (same_as (bound_type bound))
      bound_high ← bind_expr high scope outer (same_as (bound_type bound))
      return (
          bound_expr (bound_between bound bound_low bound_high negated) boolean
            (bound_nullable bound || bound_nullable bound_low || bound_nullable bound_high) node)
    bind_kind node scope outer expected (in_list e items negated) = do
      bound ← bind_expr e scope outer anything
      bound_items ← bind_exprs scope outer (items_expected items (bound_type bound)) items
      return (
          bound_expr (bound_in_list bound bound_items negated) boolean
            (bound_nullable bound || any_nullable bound_items) node)
    bind_kind node scope outer expected (in_subquery e subquery negated) = do
      bound ← bind_expr e scope outer anything
      plan ← bind_query subquery (some scope)
      field ← single_field node "QF0024" "IN subqueries" (plan_schema plan).fields
      return (
          bound_expr (bound_in_subquery bound plan negated) boolean
            (bound_nullable bound || field_nullable_or field) node)
    bind_kind node scope outer expected (scalar_subquery subquery) = do
      plan ← bind_query subquery (some scope)
      field ← single_field node "QF0023" "Scalar subqueries" (plan_schema plan).fields
      return (bound_expr (bound_scalar_subquery plan) (field_type_or field) true node)
    bind_kind node scope outer expected (exists subquery) = do
      plan ← bind_query subquery (some scope)
      return (bound_expr (bound_exists plan) boolean false node)
    bind_kind node scope outer expected (like e pattern negated case_insensitive) = do
      bound ← bind_expr e scope outer (exactly utf8)
      bound_pattern ← bind_expr pattern scope outer (exactly utf8)
      return (
          bound_expr (bound_like bound bound_pattern negated case_insensitive) boolean
            (bound_nullable bound || bound_nullable bound_pattern) node)
    bind_kind node scope outer expected (is_null e negated) = do
      record_null_test e
      bound ← bind_expr e scope outer anything
      return (bound_expr (bound_is_null bound negated) boolean false node)
    bind_kind node scope outer expected (tuple items) = do
      bound_items ← bind_exprs scope outer anything items
      return (
          bound_expr (bound_tuple bound_items) (struct (fields_of_tuple 0 bound_items))
            (any_nullable bound_items) node)
    bind_kind node scope outer expected (array items) = do
      bound_items ← bind_exprs scope outer anything items
      return (
          bound_expr (bound_array bound_items) (list (reduce_types (bound_types bound_items)))
            (any_nullable bound_items) node)
    bind_kind node scope outer expected (unsupported_expr description) =
        unsupported_at node "QF0012" description none
