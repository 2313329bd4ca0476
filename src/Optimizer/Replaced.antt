-- ===== src/Optimizer/Replaced.antt =====
-- What a round of overrides does to the selects of a query: one lemma for each function of
-- Optimizer/Transform.antt.
use queryfabric.Base.{
  List, [], ap₂, arith, if◌then◌else◌, map, refl, string_eq, sym, ◌==◌, ◌∷◌, ◌≡◌,
}
use queryfabric.Syntax.Tree.{
  Ctes, Exprs, Joins, OptionalExpr, OptionalWindow, OrderBys, ProjectionItems, SyntaxCte,
  SyntaxExpr, SyntaxExprKind, SyntaxFunctionCall, SyntaxJoin, SyntaxNode, SyntaxOrderByExpr,
  SyntaxProjectionItem, SyntaxQuery, SyntaxRelation, SyntaxSelect, SyntaxSetExpr,
  SyntaxTableWithJoins, SyntaxWhenThen, Tables, WhenThens, array, between, binary, case, cast,
  column, cte, derived, exists, expr, function, function_call, in_list, in_subquery, is_null, join,
  like, literal, more_branches, more_ctes, more_exprs, more_items, more_joins, more_orders,
  more_tables, nested_join, no_branches, no_ctes, no_expr, no_exprs, no_items, no_joins, no_orders,
  no_tables, no_window, order_by_expr, parameter, projection_expr, query, scalar_subquery, select,
  some_expr, syntax_select, table, table_with_joins, tuple, unary, union_all, unsupported_expr,
  unsupported_item, unsupported_relation, unsupported_set_expr, when_then, wildcard, window_spec,
}
use queryfabric.Optimizer.Transform.{
  Overrides, selection_of, transform_branches, transform_cte, transform_ctes, transform_expr,
  transform_exprs, transform_function, transform_items, transform_join, transform_joins,
  transform_kind, transform_optional, transform_order_by_expr, transform_orders,
  transform_projection_item, transform_query, transform_relation, transform_select,
  transform_set_expr, transform_table_with_joins, transform_tables, transform_when_then,
  transform_window,
}
use queryfabric.Optimizer.Selections.{
  Selected, selections_branches, selections_cte, selections_ctes, selections_expr, selections_exprs,
  selections_function, selections_items, selections_join, selections_joins, selections_kind,
  selections_optional, selections_order_by_expr, selections_orders, selections_projection_item,
  selections_query, selections_relation, selections_select, selections_set_expr,
  selections_table_with_joins, selections_tables, selections_when_then, selections_window,
}

-- The selection that an override gives, where the select has one.
abbrev pub replaced : Overrides → Selected → Selected
replaced [] s = s
replaced ((id, replacement) ∷ m) (node_id, selection) =
    let later = replaced m (node_id, selection) in
    if id == node_id then (node_id, replacement) else later

replaced-selection_of :
    (m : Overrides) (selection : OptionalExpr) (node : SyntaxNode)
    → replaced m (node.node_id, selection) ≡ (node.node_id, selection_of m selection node)
replaced-selection_of [] selection node = refl
replaced-selection_of ((id, replacement) ∷ m) selection node =
    ground (arith, replaced-selection_of m selection node)

mutual
  unfolding transform_query selections_query

  pub selections-transform_query :
      (m : Overrides) (x : SyntaxQuery) (acc : List Selected)
      → selections_query (transform_query m x) (map (replaced m) acc)
        ≡ map (replaced m) (selections_query x acc)
  selections-transform_query m (query node ctes recursive body order_by limit offset clauses) acc =
      rw (selections-transform_optional m offset acc) (
        rw (selections-transform_optional m limit (selections_optional offset acc)) (
          rw
            (selections-transform_orders m order_by
              (selections_optional limit (selections_optional offset acc)))
            (rw
              (selections-transform_set_expr m body (
                selections_orders order_by
                  (selections_optional limit (selections_optional offset acc))))
              (selections-transform_ctes m ctes (
                selections_set_expr body (
                  selections_orders order_by
                    (selections_optional limit (selections_optional offset acc))))))))

  pub selections-transform_ctes :
      (m : Overrides) (x : Ctes) (acc : List Selected)
      → selections_ctes (transform_ctes m x) (map (replaced m) acc)
        ≡ map (replaced m) (selections_ctes x acc)
  selections-transform_ctes m no_ctes acc = refl
  selections-transform_ctes m (more_ctes c cs) acc =
      rw (selections-transform_ctes m cs acc)
        (selections-transform_cte m c (selections_ctes cs acc))

  pub selections-transform_cte :
      (m : Overrides) (x : SyntaxCte) (acc : List Selected)
      → selections_cte (transform_cte m x) (map (replaced m) acc)
        ≡ map (replaced m) (selections_cte x acc)
  selections-transform_cte m (cte name columns q node) acc = selections-transform_query m q acc

  pub selections-transform_set_expr :
      (m : Overrides) (x : SyntaxSetExpr) (acc : List Selected)
      → selections_set_expr (transform_set_expr m x) (map (replaced m) acc)
        ≡ map (replaced m) (selections_set_expr x acc)
  selections-transform_set_expr m (select s) acc = selections-transform_select m s acc
  selections-transform_set_expr m (union_all left right node) acc =
      rw (selections-transform_set_expr m right acc)
        (selections-transform_set_expr m left (selections_set_expr right acc))
  selections-transform_set_expr m (unsupported_set_expr description node) acc = refl

  pub selections-transform_select :
      (m : Overrides) (x : SyntaxSelect) (acc : List Selected)
      → selections_select (transform_select m x) (map (replaced m) acc)
        ≡ map (replaced m) (selections_select x acc)
  selections-transform_select m
        (syntax_select distinct projection from selection group_by having node) acc =
      ap₂ (λ s ss. s ∷ ss) (sym (replaced-selection_of m selection node))
        (rw (selections-transform_optional m having acc) (
          rw (selections-transform_exprs m group_by (selections_optional having acc)) (
            rw
              (selections-transform_tables m from
                (selections_exprs group_by (selections_optional having acc)))
              (selections-transform_items m projection (
                selections_tables from
                  (selections_exprs group_by (selections_optional having acc)))))))

  pub selections-transform_items :
      (m : Overrides) (x : ProjectionItems) (acc : List Selected)
      → selections_items (transform_items m x) (map (replaced m) acc)
        ≡ map (replaced m) (selections_items x acc)
  selections-transform_items m no_items acc = refl
  selections-transform_items m (more_items i is) acc =
      rw (selections-transform_items m is acc)
        (selections-transform_projection_item m i (selections_items is acc))

  pub selections-transform_projection_item :
      (m : Overrides) (x : SyntaxProjectionItem) (acc : List Selected)
      → selections_projection_item (transform_projection_item m x) (map (replaced m) acc)
        ≡ map (replaced m) (selections_projection_item x acc)
  selections-transform_projection_item m (wildcard qualifier node) acc = refl
  selections-transform_projection_item m (projection_expr e alias node) acc =
      selections-transform_expr m e acc
  selections-transform_projection_item m (unsupported_item description node) acc = refl

  pub selections-transform_tables :
      (m : Overrides) (x : Tables) (acc : List Selected)
      → selections_tables (transform_tables m x) (map (replaced m) acc)
        ≡ map (replaced m) (selections_tables x acc)
  selections-transform_tables m no_tables acc = refl
  selections-transform_tables m (more_tables t ts) acc =
      rw (selections-transform_tables m ts acc)
        (selections-transform_table_with_joins m t (selections_tables ts acc))

  pub selections-transform_table_with_joins :
      (m : Overrides) (x : SyntaxTableWithJoins) (acc : List Selected)
      → selections_table_with_joins (transform_table_with_joins m x) (map (replaced m) acc)
        ≡ map (replaced m) (selections_table_with_joins x acc)
  selections-transform_table_with_joins m (table_with_joins relation joins node) acc =
      rw (selections-transform_joins m joins acc)
        (selections-transform_relation m relation (selections_joins joins acc))

  pub selections-transform_joins :
      (m : Overrides) (x : Joins) (acc : List Selected)
      → selections_joins (transform_joins m x) (map (replaced m) acc)
        ≡ map (replaced m) (selections_joins x acc)
  selections-transform_joins m no_joins acc = refl
  selections-transform_joins m (more_joins j js) acc =
      rw (selections-transform_joins m js acc)
        (selections-transform_join m j (selections_joins js acc))

  pub selections-transform_join :
      (m : Overrides) (x : SyntaxJoin) (acc : List Selected)
      → selections_join (transform_join m x) (map (replaced m) acc)
        ≡ map (replaced m) (selections_join x acc)
  selections-transform_join m (join kind relation on node) acc =
      rw (selections-transform_optional m on acc)
        (selections-transform_relation m relation (selections_optional on acc))

  pub selections-transform_relation :
      (m : Overrides) (x : SyntaxRelation) (acc : List Selected)
      → selections_relation (transform_relation m x) (map (replaced m) acc)
        ≡ map (replaced m) (selections_relation x acc)
  selections-transform_relation m (table name alias node) acc = refl
  selections-transform_relation m (derived q alias node) acc = selections-transform_query m q acc
  selections-transform_relation m (nested_join t alias node) acc =
      selections-transform_table_with_joins m t acc
  selections-transform_relation m (unsupported_relation description node) acc = refl

  pub selections-transform_orders :
      (m : Overrides) (x : OrderBys) (acc : List Selected)
      → selections_orders (transform_orders m x) (map (replaced m) acc)
        ≡ map (replaced m) (selections_orders x acc)
  selections-transform_orders m no_orders acc = refl
  selections-transform_orders m (more_orders o os) acc =
      rw (selections-transform_orders m os acc)
        (selections-transform_order_by_expr m o (selections_orders os acc))

  pub selections-transform_order_by_expr :
      (m : Overrides) (x : SyntaxOrderByExpr) (acc : List Selected)
      → selections_order_by_expr (transform_order_by_expr m x) (map (replaced m) acc)
        ≡ map (replaced m) (selections_order_by_expr x acc)
  selections-transform_order_by_expr m (order_by_expr e asc nulls_first node) acc =
      selections-transform_expr m e acc

  pub selections-transform_optional :
      (m : Overrides) (x : OptionalExpr) (acc : List Selected)
      → selections_optional (transform_optional m x) (map (replaced m) acc)
        ≡ map (replaced m) (selections_optional x acc)
  selections-transform_optional m no_expr acc = refl
  selections-transform_optional m (some_expr e) acc = selections-transform_expr m e acc

  pub selections-transform_exprs :
      (m : Overrides) (x : Exprs) (acc : List Selected)
      → selections_exprs (transform_exprs m x) (map (replaced m) acc)
        ≡ map (replaced m) (selections_exprs x acc)
  selections-transform_exprs m no_exprs acc = refl
  selections-transform_exprs m (more_exprs e es) acc =
      rw (selections-transform_exprs m es acc)
        (selections-transform_expr m e (selections_exprs es acc))

  pub selections-transform_expr :
      (m : Overrides) (x : SyntaxExpr) (acc : List Selected)
      → selections_expr (transform_expr m x) (map (replaced m) acc)
        ≡ map (replaced m) (selections_expr x acc)
  selections-transform_expr m (expr kind node) acc = selections-transform_kind m kind acc

  pub selections-transform_kind :
      (m : Overrides) (x : SyntaxExprKind) (acc : List Selected)
      → selections_kind (transform_kind m x) (map (replaced m) acc)
        ≡ map (replaced m) (selections_kind x acc)
  selections-transform_kind m (column relation name) acc = refl
  selections-transform_kind m (literal value) acc = refl
  selections-transform_kind m (parameter reference) acc = refl
  selections-transform_kind m (unary op e) acc = selections-transform_expr m e acc
  selections-transform_kind m (binary op left right) acc =
      rw (selections-transform_expr m right acc)
        (selections-transform_expr m left (selections_expr right acc))
  selections-transform_kind m (function f) acc = selections-transform_function m f acc
  selections-transform_kind m (case operand branches else_result) acc =
      rw (selections-transform_optional m else_result acc) (
        rw (selections-transform_branches m branches (selections_optional else_result acc)) (
          selections-transform_optional m operand
            (selections_branches branches (selections_optional else_result acc))))
  selections-transform_kind m (cast e data_type) acc = selections-transform_expr m e acc
  selections-transform_kind m (between e low high negated) acc =
      rw (selections-transform_expr m high acc) (
        rw (selections-transform_expr m low (selections_expr high acc))
          (selections-transform_expr m e (selections_expr low (selections_expr high acc))))
  selections-transform_kind m (in_list e list negated) acc =
      rw (selections-transform_exprs m list acc)
        (selections-transform_expr m e (selections_exprs list acc))
  selections-transform_kind m (in_subquery e q negated) acc =
      rw (selections-transform_query m q acc)
        (selections-transform_expr m e (selections_query q acc))
  selections-transform_kind m (scalar_subquery q) acc = selections-transform_query m q acc
  selections-transform_kind m (exists q) acc = selections-transform_query m q acc
  selections-transform_kind m (like e pattern_expr negated case_insensitive) acc =
      rw (selections-transform_expr m pattern_expr acc)
        (selections-transform_expr m e (selections_expr pattern_expr acc))
  selections-transform_kind m (is_null e negated) acc = selections-transform_expr m e acc
  selections-transform_kind m (tuple items) acc = selections-transform_exprs m items acc
  selections-transform_kind m (array items) acc = selections-transform_exprs m items acc
  selections-transform_kind m (unsupported_expr description) acc = refl

  pub selections-transform_function :
      (m : Overrides) (x : SyntaxFunctionCall) (acc : List Selected)
      → selections_function (transform_function m x) (map (replaced m) acc)
        ≡ map (replaced m) (selections_function x acc)
  selections-transform_function m (function_call f args distinct filter over) acc =
      rw (selections-transform_window m over acc) (
        rw (selections-transform_optional m filter (selections_window over acc)) (
          selections-transform_exprs m args
            (selections_optional filter (selections_window over acc))))

  pub selections-transform_window :
      (m : Overrides) (x : OptionalWindow) (acc : List Selected)
      → selections_window (transform_window m x) (map (replaced m) acc)
        ≡ map (replaced m) (selections_window x acc)
  selections-transform_window m no_window acc = refl
  selections-transform_window m (window_spec partition_by order_by node) acc =
      rw (selections-transform_orders m order_by acc)
        (selections-transform_exprs m partition_by (selections_orders order_by acc))

  pub selections-transform_branches :
      (m : Overrides) (x : WhenThens) (acc : List Selected)
      → selections_branches (transform_branches m x) (map (replaced m) acc)
        ≡ map (replaced m) (selections_branches x acc)
  selections-transform_branches m no_branches acc = refl
  selections-transform_branches m (more_branches b bs) acc =
      rw (selections-transform_branches m bs acc)
        (selections-transform_when_then m b (selections_branches bs acc))

  pub selections-transform_when_then :
      (m : Overrides) (x : SyntaxWhenThen) (acc : List Selected)
      → selections_when_then (transform_when_then m x) (map (replaced m) acc)
        ≡ map (replaced m) (selections_when_then x acc)
  selections-transform_when_then m (when_then condition result) acc =
      rw (selections-transform_expr m result acc)
        (selections-transform_expr m condition (selections_expr result acc))
