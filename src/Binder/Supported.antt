-- ===== src/Binder/Supported.antt =====
-- The bound plans without a node that stands for something the binder refused.
use queryfabric.Syntax.Tree.{JoinKind, SyntaxNode, cross, full, inner, left, right}
use queryfabric.Syntax.Bound.{
  BoundCtes, BoundExpr, BoundExprKind, BoundExprs, BoundItems, BoundJoins, BoundOrders,
  BoundProjectionItem, BoundQueryPlan, BoundRelation, BoundSelect, BoundSetExpr,
  BoundTableWithJoins, BoundTables, BoundWhenThens, OptionalBound, OptionalBoundWindow, bound_array,
  bound_between, bound_binary, bound_case, bound_cast, bound_column, bound_cte, bound_derived,
  bound_exists, bound_expr, bound_function, bound_function_call, bound_in_list, bound_in_subquery,
  bound_is_null, bound_join, bound_like, bound_literal, bound_nested_join, bound_order,
  bound_parameter, bound_plan, bound_projection, bound_scalar_subquery, bound_select,
  bound_selection, bound_table, bound_table_with_joins, bound_tuple, bound_unary, bound_union_all,
  bound_unsupported, bound_unsupported_item, bound_unsupported_relation, bound_unsupported_set_expr,
  bound_when_then, bound_wildcard, bound_window, more_bound_branches, more_bound_ctes,
  more_bound_items, more_bound_joins, more_bound_orders, more_bound_tables, more_bounds, no_bound,
  no_bound_branches, no_bound_ctes, no_bound_items, no_bound_joins, no_bound_orders,
  no_bound_tables, no_bound_window, no_bounds, some_bound,
}
use queryfabric.Binder.Rules.{
  JoinState, add_join, make_join_relations_nullable, make_relation_nullable, push_join,
  widen_joined, widen_state,
}

abbrev mutual
  pub PlanSupported : BoundQueryPlan → Type 0
  PlanSupported (bound_plan node ctes body orders limit offset clauses schema) =
      CtesSupported ctes
      × SetSupported body
      × OrdersSupported orders
      × OptionSupported limit
      × OptionSupported offset

  pub CtesSupported : BoundCtes → Type 0
  CtesSupported no_bound_ctes = Unit
  CtesSupported (more_bound_ctes (bound_cte name columns plan schema node) cs) =
      PlanSupported plan × CtesSupported cs

  pub SetSupported : BoundSetExpr → Type 0
  SetSupported (bound_select s) = SelectSupported s
  SetSupported (bound_union_all a b node schema) = SetSupported a × SetSupported b
  SetSupported (bound_unsupported_set_expr description node schema) = ⊥

  pub SelectSupported : BoundSelect → Type 0
  SelectSupported
        (bound_selection distinct items from bound_where groups bound_having schema node) =
      ItemsSupported items
      × TablesSupported from
      × OptionSupported bound_where
      × ExprsSupported groups
      × OptionSupported bound_having

  pub ItemsSupported : BoundItems → Type 0
  ItemsSupported no_bound_items = Unit
  ItemsSupported (more_bound_items i is) = ItemSupported i × ItemsSupported is

  pub ItemSupported : BoundProjectionItem → Type 0
  ItemSupported (bound_wildcard qualifier fields node) = Unit
  ItemSupported (bound_projection e alias field node) = ExprSupported e
  ItemSupported (bound_unsupported_item description node) = ⊥

  pub TablesSupported : BoundTables → Type 0
  TablesSupported no_bound_tables = Unit
  TablesSupported (more_bound_tables t ts) = TableSupported t × TablesSupported ts

  pub TableSupported : BoundTableWithJoins → Type 0
  TableSupported (bound_table_with_joins relation joins node) =
      RelationSupported relation × JoinsSupported joins

  pub JoinsSupported : BoundJoins → Type 0
  JoinsSupported no_bound_joins = Unit
  JoinsSupported (more_bound_joins (bound_join kind relation on node) js) =
      RelationSupported relation × OptionSupported on × JoinsSupported js

  pub RelationSupported : BoundRelation → Type 0
  RelationSupported (bound_table binding node) = Unit
  RelationSupported (bound_derived binding plan node) = PlanSupported plan
  RelationSupported (bound_nested_join binding joined node) = TableSupported joined
  RelationSupported (bound_unsupported_relation description name node) = ⊥

  pub OrdersSupported : BoundOrders → Type 0
  OrdersSupported no_bound_orders = Unit
  OrdersSupported (more_bound_orders (bound_order e asc nulls_first node) os) =
      ExprSupported e × OrdersSupported os

  pub WindowSupported : OptionalBoundWindow → Type 0
  WindowSupported no_bound_window = Unit
  WindowSupported (bound_window partitions orders node) =
      ExprsSupported partitions × OrdersSupported orders

  pub BranchesSupported : BoundWhenThens → Type 0
  BranchesSupported no_bound_branches = Unit
  BranchesSupported (more_bound_branches (bound_when_then condition result) bs) =
      ExprSupported condition × ExprSupported result × BranchesSupported bs

  pub OptionSupported : OptionalBound → Type 0
  OptionSupported no_bound = Unit
  OptionSupported (some_bound e) = ExprSupported e

  pub ExprsSupported : BoundExprs → Type 0
  ExprsSupported no_bounds = Unit
  ExprsSupported (more_bounds e es) = ExprSupported e × ExprsSupported es

  pub ExprSupported : BoundExpr → Type 0
  ExprSupported (bound_expr kind data_type nullable node) = KindSupported kind

  pub KindSupported : BoundExprKind → Type 0
  KindSupported (bound_column reference) = Unit
  KindSupported (bound_literal value) = Unit
  KindSupported (bound_parameter reference) = Unit
  KindSupported (bound_unary op e) = ExprSupported e
  KindSupported (bound_binary op a b) = ExprSupported a × ExprSupported b
  KindSupported (bound_function (bound_function_call _ _ args distinct filter over _)) =
      ExprsSupported args × OptionSupported filter × WindowSupported over
  KindSupported (bound_case operand branches otherwise) =
      OptionSupported operand × BranchesSupported branches × OptionSupported otherwise
  KindSupported (bound_cast e data_type) = ExprSupported e
  KindSupported (bound_between e low high negated) =
      ExprSupported e × ExprSupported low × ExprSupported high
  KindSupported (bound_in_list e items negated) = ExprSupported e × ExprsSupported items
  KindSupported (bound_in_subquery e plan negated) = ExprSupported e × PlanSupported plan
  KindSupported (bound_scalar_subquery plan) = PlanSupported plan
  KindSupported (bound_exists plan) = PlanSupported plan
  KindSupported (bound_like e pattern negated case_insensitive) =
      ExprSupported e × ExprSupported pattern
  KindSupported (bound_is_null e negated) = ExprSupported e
  KindSupported (bound_tuple items) = ExprsSupported items
  KindSupported (bound_array items) = ExprsSupported items
  KindSupported (bound_unsupported description) = ⊥

-- Nullability is of the bindings alone.
pub make_relation_nullable-RelationSupported :
    (r : BoundRelation) → RelationSupported r → RelationSupported (make_relation_nullable r)
make_relation_nullable-RelationSupported (bound_table binding node) h = h
make_relation_nullable-RelationSupported (bound_derived binding plan node) h = h
make_relation_nullable-RelationSupported (bound_nested_join binding joined node) h = h
make_relation_nullable-RelationSupported (bound_unsupported_relation _ _ node) h = h

make_join_relations_nullable-JoinsSupported :
    (js : BoundJoins) → JoinsSupported js → JoinsSupported (make_join_relations_nullable js)
make_join_relations_nullable-JoinsSupported no_bound_joins h = h
make_join_relations_nullable-JoinsSupported (more_bound_joins (bound_join kind r on node) js) h = (
  make_relation_nullable-RelationSupported r h.0,
  h.1,
  make_join_relations_nullable-JoinsSupported js h.2,
)

push_join-JoinsSupported :
    (js : BoundJoins) (k : JoinKind) (r : BoundRelation) (on : OptionalBound) (node : SyntaxNode)
    → JoinsSupported js
    → RelationSupported r
    → OptionSupported on
    → JoinsSupported (push_join js (bound_join k r on node))
push_join-JoinsSupported no_bound_joins k r on node h hr ho = (hr, ho, tt)
push_join-JoinsSupported (more_bound_joins (bound_join _ _ _ _) js) k r on node h hr ho =
    (h.0, h.1, push_join-JoinsSupported js k r on node h.2 hr ho)

abbrev pub StateSupported : JoinState → Type 0
StateSupported state = RelationSupported state.relation × JoinsSupported state.joins

widen_state-StateSupported :
    (k : JoinKind) (state : JoinState) → StateSupported state → StateSupported (widen_state k state)
widen_state-StateSupported right state h = (
  make_relation_nullable-RelationSupported state.relation h.0,
  make_join_relations_nullable-JoinsSupported state.joins h.1,
)
widen_state-StateSupported full state h = (
  make_relation_nullable-RelationSupported state.relation h.0,
  make_join_relations_nullable-JoinsSupported state.joins h.1,
)
widen_state-StateSupported inner state h = h
widen_state-StateSupported left state h = h
widen_state-StateSupported cross state h = h

widen_joined-RelationSupported :
    (k : JoinKind) (r : BoundRelation) → RelationSupported r → RelationSupported (widen_joined k r)
widen_joined-RelationSupported left r h = make_relation_nullable-RelationSupported r h
widen_joined-RelationSupported full r h = make_relation_nullable-RelationSupported r h
widen_joined-RelationSupported inner r h = h
widen_joined-RelationSupported right r h = h
widen_joined-RelationSupported cross r h = h

pub add_join-StateSupported :
    (k : JoinKind) (r : BoundRelation) (on : OptionalBound) (node : SyntaxNode) (state : JoinState)
    → StateSupported state
    → RelationSupported r
    → OptionSupported on
    → StateSupported (add_join k r on node state)
add_join-StateSupported k r on node state h hr ho =
    let widened = widen_state-StateSupported k state h in
    (
      widened.0,
      push_join-JoinsSupported (widen_state k state).joins k (widen_joined k r) on node widened.1
          (widen_joined-RelationSupported k r hr) ho,
    )
