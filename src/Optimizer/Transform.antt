-- ===== src/Optimizer/Transform.antt =====
-- crates/queryfabric-opt/src/syntax.rs: the tree walk of `SyntaxTransformer` at the one transformer that
-- the source defines, `SelectionOverrideTransformer`. Its error type is `Infallible`, so a result is a
-- plain value. A method that keeps its default is its `transform_…_children`; a `map` over a vector
-- or an option, and the match on `expr.kind`, are functions of their own.
use queryfabric.Base.{List, String, lookup, none, some, string_eq}
use queryfabric.Syntax.Tree.{
  Ctes, Exprs, Joins, OptionalExpr, OptionalWindow, OrderBys, ProjectionItems, SyntaxCte,
  SyntaxExpr, SyntaxExprKind, SyntaxFunctionCall, SyntaxJoin, SyntaxNode, SyntaxOrderByExpr,
  SyntaxProjectionItem, SyntaxQuery, SyntaxRelation, SyntaxSelect, SyntaxSetExpr,
  SyntaxTableWithJoins, SyntaxWhenThen, Tables, WhenThens, array, between, binary, case, cast,
  column, cte, derived, exists, expr, function, function_call, in_list, in_subquery, is_null, join,
  like, literal, more_branches, more_ctes, more_exprs, more_items, more_joins, more_orders,
  more_tables, nested_join, no_branches, no_ctes, no_expr, no_exprs, no_items, no_joins, no_orders,
  no_tables, no_window, order_by_expr, parameter, projection_expr, query, scalar_subquery, select,
  some_expr, syntax_select, table, table_with_joins, tuple, unary, union_all, unsupported_expr,
  unsupported_item, unsupported_relation, unsupported_set_expr, when_then, wildcard, window_spec,
}

-- `BTreeMap<String, Option<SyntaxExpr>>`, from the identity of a select.
abbrev pub Overrides : Type 0
Overrides = List (String × OptionalExpr)

-- `get(&select.node.node_id).cloned().unwrap_or_else(|| select.selection.clone())`
abbrev pub selection_of : Overrides → OptionalExpr → SyntaxNode → OptionalExpr
selection_of overrides selection node = elim (lookup node.node_id overrides) [
  | none ↦ selection
  | some replacement ↦ replacement
]

unfoldable mutual
  pub transform_query : Overrides → SyntaxQuery → SyntaxQuery
  transform_query overrides (query node ctes recursive body order_by limit offset clauses) =
      query node (transform_ctes overrides ctes) recursive (transform_set_expr overrides body)
        (transform_orders overrides order_by) (transform_optional overrides limit)
        (transform_optional overrides offset) clauses

  pub transform_ctes : Overrides → Ctes → Ctes
  transform_ctes overrides no_ctes = no_ctes
  transform_ctes overrides (more_ctes c cs) =
      more_ctes (transform_cte overrides c) (transform_ctes overrides cs)

  pub transform_cte : Overrides → SyntaxCte → SyntaxCte
  transform_cte overrides (cte name columns q node) =
      cte name columns (transform_query overrides q) node

  pub transform_set_expr : Overrides → SyntaxSetExpr → SyntaxSetExpr
  transform_set_expr overrides (select s) = select (transform_select overrides s)
  transform_set_expr overrides (union_all left right node) =
      union_all (transform_set_expr overrides left) (transform_set_expr overrides right) node
  transform_set_expr overrides (unsupported_set_expr description node) =
      unsupported_set_expr description node

  pub transform_select : Overrides → SyntaxSelect → SyntaxSelect
  transform_select overrides
        (syntax_select distinct projection from selection group_by having node) =
      syntax_select distinct (transform_items overrides projection)
        (transform_tables overrides from) (selection_of overrides selection node)
        (transform_exprs overrides group_by) (transform_optional overrides having) node

  pub transform_items : Overrides → ProjectionItems → ProjectionItems
  transform_items overrides no_items = no_items
  transform_items overrides (more_items i is) =
      more_items (transform_projection_item overrides i) (transform_items overrides is)

  pub transform_projection_item : Overrides → SyntaxProjectionItem → SyntaxProjectionItem
  transform_projection_item overrides (wildcard qualifier node) = wildcard qualifier node
  transform_projection_item overrides (projection_expr e alias node) =
      projection_expr (transform_expr overrides e) alias node
  transform_projection_item overrides (unsupported_item description node) =
      unsupported_item description node

  pub transform_tables : Overrides → Tables → Tables
  transform_tables overrides no_tables = no_tables
  transform_tables overrides (more_tables t ts) =
      more_tables (transform_table_with_joins overrides t) (transform_tables overrides ts)

  pub transform_table_with_joins : Overrides → SyntaxTableWithJoins → SyntaxTableWithJoins
  transform_table_with_joins overrides (table_with_joins relation joins node) =
      table_with_joins (transform_relation overrides relation) (transform_joins overrides joins)
        node

  pub transform_joins : Overrides → Joins → Joins
  transform_joins overrides no_joins = no_joins
  transform_joins overrides (more_joins j js) =
      more_joins (transform_join overrides j) (transform_joins overrides js)

  pub transform_join : Overrides → SyntaxJoin → SyntaxJoin
  transform_join overrides (join kind relation on node) =
      join kind (transform_relation overrides relation) (transform_optional overrides on) node

  pub transform_relation : Overrides → SyntaxRelation → SyntaxRelation
  transform_relation overrides (table name alias node) = table name alias node
  transform_relation overrides (derived q alias node) =
      derived (transform_query overrides q) alias node
  transform_relation overrides (nested_join t alias node) =
      nested_join (transform_table_with_joins overrides t) alias node
  transform_relation overrides (unsupported_relation description node) =
      unsupported_relation description node

  pub transform_orders : Overrides → OrderBys → OrderBys
  transform_orders overrides no_orders = no_orders
  transform_orders overrides (more_orders o os) =
      more_orders (transform_order_by_expr overrides o) (transform_orders overrides os)

  pub transform_order_by_expr : Overrides → SyntaxOrderByExpr → SyntaxOrderByExpr
  transform_order_by_expr overrides (order_by_expr e asc nulls_first node) =
      order_by_expr (transform_expr overrides e) asc nulls_first node

  pub transform_optional : Overrides → OptionalExpr → OptionalExpr
  transform_optional overrides no_expr = no_expr
  transform_optional overrides (some_expr e) = some_expr (transform_expr overrides e)

  pub transform_exprs : Overrides → Exprs → Exprs
  transform_exprs overrides no_exprs = no_exprs
  transform_exprs overrides (more_exprs e es) =
      more_exprs (transform_expr overrides e) (transform_exprs overrides es)

  pub transform_expr : Overrides → SyntaxExpr → SyntaxExpr
  transform_expr overrides (expr kind node) = expr (transform_kind overrides kind) node

  pub transform_kind : Overrides → SyntaxExprKind → SyntaxExprKind
  transform_kind overrides (column relation name) = column relation name
  transform_kind overrides (literal value) = literal value
  transform_kind overrides (parameter reference) = parameter reference
  transform_kind overrides (unary op e) = unary op (transform_expr overrides e)
  transform_kind overrides (binary op left right) =
      binary op (transform_expr overrides left) (transform_expr overrides right)
  transform_kind overrides (function f) = function (transform_function overrides f)
  transform_kind overrides (case operand branches else_result) =
      case (transform_optional overrides operand) (transform_branches overrides branches)
        (transform_optional overrides else_result)
  transform_kind overrides (cast e data_type) = cast (transform_expr overrides e) data_type
  transform_kind overrides (between e low high negated) =
      between (transform_expr overrides e) (transform_expr overrides low)
        (transform_expr overrides high) negated
  transform_kind overrides (in_list e list negated) =
      in_list (transform_expr overrides e) (transform_exprs overrides list) negated
  transform_kind overrides (in_subquery e q negated) =
      in_subquery (transform_expr overrides e) (transform_query overrides q) negated
  transform_kind overrides (scalar_subquery q) = scalar_subquery (transform_query overrides q)
  transform_kind overrides (exists q) = exists (transform_query overrides q)
  transform_kind overrides (like e pattern_expr negated case_insensitive) =
      like (transform_expr overrides e) (transform_expr overrides pattern_expr) negated
        case_insensitive
  transform_kind overrides (is_null e negated) = is_null (transform_expr overrides e) negated
  transform_kind overrides (tuple items) = tuple (transform_exprs overrides items)
  transform_kind overrides (array items) = array (transform_exprs overrides items)
  transform_kind overrides (unsupported_expr description) = unsupported_expr description

  pub transform_function : Overrides → SyntaxFunctionCall → SyntaxFunctionCall
  transform_function overrides (function_call f args distinct filter over) =
      function_call f (transform_exprs overrides args) distinct
        (transform_optional overrides filter) (transform_window overrides over)

  pub transform_window : Overrides → OptionalWindow → OptionalWindow
  transform_window overrides no_window = no_window
  transform_window overrides (window_spec partition_by order_by node) =
      window_spec (transform_exprs overrides partition_by) (transform_orders overrides order_by)
        node

  pub transform_branches : Overrides → WhenThens → WhenThens
  transform_branches overrides no_branches = no_branches
  transform_branches overrides (more_branches b bs) =
      more_branches (transform_when_then overrides b) (transform_branches overrides bs)

  pub transform_when_then : Overrides → SyntaxWhenThen → SyntaxWhenThen
  transform_when_then overrides (when_then condition result) =
      when_then (transform_expr overrides condition) (transform_expr overrides result)

unfoldable pub apply_selection_overrides : SyntaxQuery → Overrides → SyntaxQuery
apply_selection_overrides q overrides = transform_query overrides q
