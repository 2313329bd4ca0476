-- ===== src/Binder/Sound.antt =====
-- A binder that reports no error builds a plan without a refused node: one lemma for each function
-- of Binder/Walk.antt.
use queryfabric.Base.{List, Option, String, [], none, some, suc, ℕ}
use queryfabric.Syntax.Types.{boolean, int64, utf8}
use queryfabric.Syntax.Tree.{
  Ctes, Exprs, Joins, OptionalExpr, OptionalWindow, OrderBys, ProjectionItems, SyntaxExpr,
  SyntaxExprKind, SyntaxFunctionCall, SyntaxNode, SyntaxQuery, SyntaxRelation, SyntaxSelect,
  SyntaxSetExpr, SyntaxTableWithJoins, Tables, WhenThens, array, between, binary, case, cast,
  column, cte, derived, exists, expr, function, function_call, in_list, in_subquery, is_null, join,
  like, literal, more_branches, more_ctes, more_exprs, more_items, more_joins, more_orders,
  more_tables, nested_join, no_branches, no_ctes, no_expr, no_exprs, no_items, no_joins, no_orders,
  no_tables, no_window, order_by_expr, parameter, projection_expr, query, scalar_subquery, select,
  some_expr, syntax_select, table, table_with_joins, tuple, unary, union_all, unsupported_expr,
  unsupported_item, unsupported_relation, unsupported_set_expr, when_then, wildcard, window_spec,
}
use queryfabric.Syntax.Bound.{result_schema}
use queryfabric.Catalog.Model.{Catalog, FunctionSignature}
use queryfabric.Binder.State.{ExpectedType, anything, exactly}
use queryfabric.Binder.Scope.{
  ColumnResolution, Scope, ambiguous, from_output_schema, local, missing,
}
use queryfabric.Binder.Rules.{CteMap, JoinState, add_join}
use queryfabric.Binder.Supported.{
  BranchesSupported, CtesSupported, ExprSupported, ExprsSupported, ItemsSupported, OptionSupported,
  OrdersSupported, PlanSupported, RelationSupported, SelectSupported, SetSupported, StateSupported,
  TableSupported, TablesSupported, WindowSupported, add_join-StateSupported,
}
use queryfabric.Binder.Safe.{Safe, Safe-error, Safe-last, Safe-refuse, Safe-return, Safe-then}
use queryfabric.Binder.Walk.{
  bind_arguments, bind_branches, bind_column, bind_ctes, bind_expr, bind_exprs, bind_function,
  bind_items, bind_joins, bind_kind, bind_optional, bind_orders, bind_query, bind_relation,
  bind_select, bind_set_expr, bind_table_with_joins, bind_tables, bind_window,
}
use queryfabric.Binder.Steps.{
  found_column_supported, Safe-null_test, Safe-parameter, Safe-recursion, Safe-single, Safe-table,
  Safe-unify, Safe-unsupported, Safe-warn_clauses, Safe-warn_function, Safe-wildcard,
}

module _ (catalog : Catalog) (lower : String → List ℕ) where
  Safe-column :
      (node : SyntaxNode) (scope : Scope) (relation : Option String) (name : String)
      (found : ColumnResolution) (outside : Option ColumnResolution)
      → Safe ExprSupported (bind_column catalog lower node scope relation name found outside)
  unfolding bind_column
  Safe-column node scope relation name (local found) outside =
      Safe-return _ _ (found_column_supported node name found.relation found.field)
  Safe-column node scope relation name ambiguous outside = Safe-unsupported _ _ _ _
  Safe-column node scope relation name missing (some found) = Safe-unsupported _ _ _ _
  Safe-column node scope relation name missing none = Safe-unsupported _ _ _ _

  mutual
    unfolding bind_query

    pub Safe-query :
        (q : SyntaxQuery) (outer : Option Scope)
        → Safe PlanSupported (bind_query catalog lower q outer)
    Safe-query (query node ctes recursive body order_by limit offset clauses) outer =
        Safe-then (Safe-recursion recursive node) λ _. Safe-then (Safe-ctes [] ctes) λ bound.
          Safe-then (Safe-set_expr body bound.1 outer) λ bound_body.
            let output = from_output_schema (result_schema bound_body) in
            Safe-then (Safe-orders output none order_by) λ _.
              Safe-then (Safe-optional output none (exactly int64) limit) λ _.
                Safe-then (Safe-optional output none (exactly int64) offset) λ _.
                  Safe-then (Safe-warn_clauses clauses)
                    λ _. Safe-return _ _ (λ _ ho hl hr hb hc _. (hc, hb, hr, hl, ho))

    Safe-ctes :
        (bindings : CteMap) (cs : Ctes)
        → Safe (λ r. CtesSupported r.0) (bind_ctes catalog lower bindings cs)
    Safe-ctes bindings no_ctes = Safe-return _ _ tt
    Safe-ctes bindings (more_ctes (cte name columns q node) cs) =
        Safe-then (Safe-query q none)
          λ plan. Safe-then (Safe-ctes _ cs) λ _. Safe-return _ _ (λ hs h. (h, hs))

    Safe-set_expr :
        (e : SyntaxSetExpr) (ctes : CteMap) (outer : Option Scope)
        → Safe SetSupported (bind_set_expr catalog lower e ctes outer)
    Safe-set_expr (select s) ctes outer =
        Safe-then (Safe-select s ctes outer) λ _. Safe-return _ _ (λ h. h)
    Safe-set_expr (union_all a b node) ctes outer = Safe-then (Safe-set_expr a ctes outer) λ first.
        Safe-then (Safe-set_expr b ctes outer) λ second.
          Safe-then (Safe-unify (result_schema first) (result_schema second) node)
            λ _. Safe-return _ _ (λ _ hb ha. (ha, hb))
    Safe-set_expr (unsupported_set_expr description node) ctes outer =
        Safe-refuse _ (Safe-error _ _ _ _)

    Safe-select :
        (s : SyntaxSelect) (ctes : CteMap) (outer : Option Scope)
        → Safe SelectSupported (bind_select catalog lower s ctes outer)
    Safe-select (syntax_select distinct projection tables selection group_by having node) ctes
          outer =
        Safe-then (Safe-tables ctes outer [] tables) λ bound.
          Safe-then (Safe-optional bound.1 outer (exactly boolean) selection) λ _.
            Safe-then (Safe-exprs bound.1 outer anything group_by) λ _.
              Safe-then (Safe-optional bound.1 outer (exactly boolean) having) λ _.
                Safe-then (Safe-items bound.1 outer projection)
                  λ _. Safe-return _ _ (λ hi hh hg hs ht. (hi, ht, hs, hg, hh))

    Safe-tables :
        (ctes : CteMap) (outer : Option Scope) (scope : Scope) (ts : Tables)
        → Safe (λ r. TablesSupported r.0) (bind_tables catalog lower ctes outer scope ts)
    Safe-tables ctes outer scope no_tables = Safe-return _ _ tt
    Safe-tables ctes outer scope (more_tables t ts) =
        Safe-then (Safe-joined ctes outer scope t)
          λ _. Safe-then (Safe-tables ctes outer _ ts) λ _. Safe-return _ _ (λ hs h. (h, hs))

    Safe-items :
        (scope : Scope) (outer : Option Scope) (is : ProjectionItems)
        → Safe (λ r. ItemsSupported r.0) (bind_items catalog lower scope outer is)
    Safe-items scope outer no_items = Safe-return _ _ tt
    Safe-items scope outer (more_items (wildcard qualifier node) is) =
        Safe-then (Safe-wildcard scope qualifier node)
          λ _. Safe-then (Safe-items scope outer is) λ _. Safe-return _ _ (λ hs _. (tt, hs))
    Safe-items scope outer (more_items (projection_expr e alias node) is) =
        Safe-then (Safe-expr e scope outer anything)
          λ _. Safe-then (Safe-items scope outer is) λ _. Safe-return _ _ (λ hs h. (h, hs))
    Safe-items scope outer (more_items (unsupported_item description node) is) =
        Safe-then (Safe-error _ _ _ _)
          λ _. Safe-then (Safe-items scope outer is) λ _. Safe-return _ _ (λ hs h. (h, hs))

    Safe-joined :
        (ctes : CteMap) (outer : Option Scope) (scope : Scope) (t : SyntaxTableWithJoins)
        → Safe TableSupported (bind_table_with_joins catalog lower ctes outer scope t)
    Safe-joined ctes outer scope (table_with_joins relation joins node) =
        Safe-then (Safe-relation ctes scope relation)
          λ _. Safe-then (Safe-joins ctes outer _ joins) λ _. Safe-return _ _ (λ h hr. h (hr, tt))

    Safe-joins :
        (ctes : CteMap) (outer : Option Scope) (state : JoinState) (js : Joins)
        → Safe
            (λ r. StateSupported state → StateSupported r)
            (bind_joins catalog lower ctes outer state js)
    Safe-joins ctes outer state no_joins = Safe-return _ _ (λ h. h)
    Safe-joins ctes outer state (more_joins (join kind relation on node) js) =
        Safe-then (Safe-relation ctes state.join_scope relation) λ joined.
          Safe-then (Safe-optional _ outer (exactly boolean) on) λ bound_on.
            Safe-last (Safe-joins ctes outer (add_join kind joined bound_on node state) js)
              (λ _ h ho hr hs. h (add_join-StateSupported kind joined bound_on node state hs hr ho))

    Safe-relation :
        (ctes : CteMap) (scope : Scope) (r : SyntaxRelation)
        → Safe RelationSupported (bind_relation catalog lower ctes scope r)
    Safe-relation ctes scope (table name alias node) = Safe-table name alias node _ _
    Safe-relation ctes scope (derived q alias node) =
        Safe-then (Safe-query q (some scope)) λ _. Safe-return _ _ (λ h. h)
    Safe-relation ctes scope (nested_join t alias node) =
        Safe-then (Safe-joined ctes none scope t) λ _. Safe-return _ _ (λ h. h)
    Safe-relation ctes scope (unsupported_relation description node) =
        Safe-refuse _ (Safe-error _ _ _ _)

    Safe-orders :
        (scope : Scope) (outer : Option Scope) (os : OrderBys)
        → Safe OrdersSupported (bind_orders catalog lower scope outer os)
    Safe-orders scope outer no_orders = Safe-return _ _ tt
    Safe-orders scope outer (more_orders (order_by_expr e asc nulls_first node) os) =
        Safe-then (Safe-expr e scope outer anything)
          λ _. Safe-then (Safe-orders scope outer os) λ _. Safe-return _ _ (λ hs h. (h, hs))

    Safe-optional :
        (scope : Scope) (outer : Option Scope) (expected : ExpectedType) (o : OptionalExpr)
        → Safe OptionSupported (bind_optional catalog lower scope outer expected o)
    Safe-optional scope outer expected no_expr = Safe-return _ _ tt
    Safe-optional scope outer expected (some_expr e) =
        Safe-then (Safe-expr e scope outer expected) λ _. Safe-return _ _ (λ h. h)

    Safe-exprs :
        (scope : Scope) (outer : Option Scope) (expected : ExpectedType) (es : Exprs)
        → Safe ExprsSupported (bind_exprs catalog lower scope outer expected es)
    Safe-exprs scope outer expected no_exprs = Safe-return _ _ tt
    Safe-exprs scope outer expected (more_exprs e es) =
        Safe-then (Safe-expr e scope outer expected)
          λ _. Safe-then (Safe-exprs scope outer expected es) λ _. Safe-return _ _ (λ hs h. (h, hs))

    Safe-arguments :
        (scope : Scope) (outer : Option Scope) (signature : FunctionSignature) (idx : ℕ)
        (es : Exprs)
        → Safe ExprsSupported (bind_arguments catalog lower scope outer signature idx es)
    Safe-arguments scope outer signature idx no_exprs = Safe-return _ _ tt
    Safe-arguments scope outer signature idx (more_exprs e es) =
        Safe-then (Safe-expr e scope outer _) λ _.
          Safe-then (Safe-arguments scope outer signature (suc idx) es)
            λ _. Safe-return _ _ (λ hs h. (h, hs))

    Safe-window :
        (scope : Scope) (outer : Option Scope) (w : OptionalWindow)
        → Safe WindowSupported (bind_window catalog lower scope outer w)
    Safe-window scope outer no_window = Safe-return _ _ tt
    Safe-window scope outer (window_spec partition_by order_by node) =
        Safe-then (Safe-exprs scope outer anything partition_by)
          λ _. Safe-then (Safe-orders scope outer order_by) λ _. Safe-return _ _ (λ ho hp. (hp, ho))

    Safe-function :
        (node : SyntaxNode) (scope : Scope) (outer : Option Scope) (call : SyntaxFunctionCall)
        (signature : Option FunctionSignature)
        → Safe ExprSupported (bind_function catalog lower node scope outer call signature)
    Safe-function node scope outer (function_call reference args distinct filter over) none =
        Safe-unsupported _ _ _ _
    Safe-function node scope outer (function_call reference args distinct filter over)
          (some signature) =
        Safe-then (Safe-arguments scope outer signature 0 args) λ _.
          Safe-then (Safe-optional scope outer (exactly boolean) filter) λ _.
            Safe-then (Safe-window scope outer over) λ _.
              Safe-then (Safe-warn_function _ reference node)
                λ _. Safe-return _ _ (λ _ hw hf ha. (ha, hf, hw))

    Safe-branches :
        (scope : Scope) (outer : Option Scope) (bs : WhenThens)
        → Safe BranchesSupported (bind_branches catalog lower scope outer bs)
    Safe-branches scope outer no_branches = Safe-return _ _ tt
    Safe-branches scope outer (more_branches (when_then condition result) bs) =
        Safe-then (Safe-expr condition scope outer (exactly boolean)) λ _.
          Safe-then (Safe-expr result scope outer anything) λ _.
            Safe-then (Safe-branches scope outer bs) λ _. Safe-return _ _ (λ hs hr hc. (hc, hr, hs))

    Safe-expr :
        (e : SyntaxExpr) (scope : Scope) (outer : Option Scope) (expected : ExpectedType)
        → Safe ExprSupported (bind_expr catalog lower e scope outer expected)
    Safe-expr (expr kind node) scope outer expected = Safe-kind node scope outer expected kind

    Safe-kind :
        (node : SyntaxNode) (scope : Scope) (outer : Option Scope) (expected : ExpectedType)
        (kind : SyntaxExprKind)
        → Safe ExprSupported (bind_kind catalog lower node scope outer expected kind)
    Safe-kind node scope outer expected (column relation name) =
        Safe-column node scope relation name _ _
    Safe-kind node scope outer expected (literal value) = Safe-return _ _ tt
    Safe-kind node scope outer expected (parameter reference) =
        Safe-parameter reference node expected
    Safe-kind node scope outer expected (unary op e) =
        Safe-then (Safe-expr e scope outer anything) λ _. Safe-return _ _ (λ h. h)
    Safe-kind node scope outer expected (binary op a b) =
        Safe-then (Safe-expr a scope outer _)
          λ _. Safe-then (Safe-expr b scope outer _) λ _. Safe-return _ _ (λ hb ha. (ha, hb))
    Safe-kind node scope outer expected (function call) = Safe-function node scope outer call _
    Safe-kind node scope outer expected (case operand when_thens else_result) =
        Safe-then (Safe-optional scope outer anything operand) λ _.
          Safe-then (Safe-branches scope outer when_thens) λ _.
            Safe-then (Safe-optional scope outer anything else_result)
              λ _. Safe-return _ _ (λ he hb ho. (ho, hb, he))
    Safe-kind node scope outer expected (cast e data_type) =
        Safe-then (Safe-expr e scope outer _) λ _. Safe-return _ _ (λ h. h)
    Safe-kind node scope outer expected (between e low high negated) =
        Safe-then (Safe-expr e scope outer anything) λ _.
          Safe-then (Safe-expr low scope outer _) λ _.
            Safe-then (Safe-expr high scope outer _) λ _. Safe-return _ _ (λ hh hl he. (he, hl, hh))
    Safe-kind node scope outer expected (in_list e items negated) =
        Safe-then (Safe-expr e scope outer anything)
          λ _. Safe-then (Safe-exprs scope outer _ items) λ _. Safe-return _ _ (λ hs h. (h, hs))
    Safe-kind node scope outer expected (in_subquery e subquery negated) =
        Safe-then (Safe-expr e scope outer anything) λ _.
          Safe-then (Safe-query subquery (some scope))
            λ _. Safe-then (Safe-single node _ _ _) λ _. Safe-return _ _ (λ _ hq he. (he, hq))
    Safe-kind node scope outer expected (scalar_subquery subquery) =
        Safe-then (Safe-query subquery (some scope))
          λ _. Safe-then (Safe-single node _ _ _) λ _. Safe-return _ _ (λ _ hq. hq)
    Safe-kind node scope outer expected (exists subquery) =
        Safe-then (Safe-query subquery (some scope)) λ _. Safe-return _ _ (λ hq. hq)
    Safe-kind node scope outer expected (like e pattern negated case_insensitive) =
        Safe-then (Safe-expr e scope outer (exactly utf8)) λ _.
          Safe-then (Safe-expr pattern scope outer (exactly utf8))
            λ _. Safe-return _ _ (λ hp he. (he, hp))
    Safe-kind node scope outer expected (is_null e negated) =
        Safe-then (Safe-null_test e)
          λ _. Safe-then (Safe-expr e scope outer anything) λ _. Safe-return _ _ (λ h _. h)
    Safe-kind node scope outer expected (tuple items) =
        Safe-then (Safe-exprs scope outer anything items) λ _. Safe-return _ _ (λ h. h)
    Safe-kind node scope outer expected (array items) =
        Safe-then (Safe-exprs scope outer anything items) λ _. Safe-return _ _ (λ h. h)
    Safe-kind node scope outer expected (unsupported_expr description) = Safe-unsupported _ _ _ _
