-- ===== src/Syntax/Bound.antt =====
-- crates/queryfabric-ir/src/bound.rs: the plan that the binder builds, the syntax tree with a type and a
-- nullability at every expression and a schema at every query. As in Syntax/Tree.antt, a `Vec` or an
-- `Option` of a type of the tree is a type of the block and `Box` is left out.
use queryfabric.Base.{String, Bool, List, Option, none, some, []}
use queryfabric.Syntax.Types.{DataType, ResultField}
use queryfabric.Syntax.Tree.{
  SyntaxNode, NameRef, FunctionRef, ParameterRef, BackendClause, JoinKind, UnaryOperator,
  BinaryOperator, LiteralValue,
}

pub record ResultSchema : Type 0 where
  pub fields : List ResultField
  pub metadata : List (String × String)

-- `ResultSchema::new`
abbrev pub schema_of : List ResultField → ResultSchema
schema_of fields = record { fields = fields; metadata = [] }

pub record BoundRelationBinding : Type 0 where
  pub binding_name : String
  pub relation_name : Option NameRef
  pub schema : ResultSchema

pub record BoundColumnRef : Type 0 where
  pub relation : Option String
  pub name : String

mutual
  pub data BoundQueryPlan : Type 0 where
    bound_plan :
        (node : SyntaxNode) (ctes : BoundCtes) (body : BoundSetExpr) (order_by : BoundOrders)
        (limit offset : OptionalBound) (backend_clauses : List BackendClause)
        (result_schema : ResultSchema)
        → BoundQueryPlan

  pub data BoundCte : Type 0 where
    bound_cte :
        (name : String) (columns : List String) (query : BoundQueryPlan)
        (result_schema : ResultSchema) (node : SyntaxNode)
        → BoundCte

  pub data BoundCtes : Type 0 where
    no_bound_ctes : BoundCtes
    more_bound_ctes : BoundCte → BoundCtes → BoundCtes

  pub data BoundSetExpr : Type 0 where
    bound_select : BoundSelect → BoundSetExpr
    bound_union_all :
        (left right : BoundSetExpr) (node : SyntaxNode) (result_schema : ResultSchema)
        → BoundSetExpr
    bound_unsupported_set_expr :
        (description : String) (node : SyntaxNode) (result_schema : ResultSchema) → BoundSetExpr

  pub data BoundSelect : Type 0 where
    bound_selection :
        (distinct : Bool) (projection : BoundItems) (from : BoundTables) (selection : OptionalBound)
        (group_by : BoundExprs) (having : OptionalBound) (result_schema : ResultSchema)
        (node : SyntaxNode)
        → BoundSelect

  pub data BoundProjectionItem : Type 0 where
    bound_wildcard :
        (qualifier : Option String) (fields : List ResultField) (node : SyntaxNode)
        → BoundProjectionItem
    bound_projection :
        (expr : BoundExpr) (alias : Option String) (field : ResultField) (node : SyntaxNode)
        → BoundProjectionItem
    bound_unsupported_item : (description : String) (node : SyntaxNode) → BoundProjectionItem

  pub data BoundItems : Type 0 where
    no_bound_items : BoundItems
    more_bound_items : BoundProjectionItem → BoundItems → BoundItems

  pub data BoundTableWithJoins : Type 0 where
    bound_table_with_joins :
        (relation : BoundRelation) (joins : BoundJoins) (node : SyntaxNode) → BoundTableWithJoins

  pub data BoundTables : Type 0 where
    no_bound_tables : BoundTables
    more_bound_tables : BoundTableWithJoins → BoundTables → BoundTables

  pub data BoundJoin : Type 0 where
    bound_join :
        (kind : JoinKind) (relation : BoundRelation) (on : OptionalBound) (node : SyntaxNode)
        → BoundJoin

  pub data BoundJoins : Type 0 where
    no_bound_joins : BoundJoins
    more_bound_joins : BoundJoin → BoundJoins → BoundJoins

  pub data BoundRelation : Type 0 where
    bound_table : (binding : BoundRelationBinding) (node : SyntaxNode) → BoundRelation
    bound_derived :
        (binding : BoundRelationBinding) (query : BoundQueryPlan) (node : SyntaxNode)
        → BoundRelation
    bound_nested_join :
        (binding : BoundRelationBinding) (table_with_joins : BoundTableWithJoins)
        (node : SyntaxNode)
        → BoundRelation
    bound_unsupported_relation :
        (description binding_name : String) (node : SyntaxNode) → BoundRelation

  pub data BoundOrderByExpr : Type 0 where
    bound_order :
        (expr : BoundExpr) (asc nulls_first : Option Bool) (node : SyntaxNode) → BoundOrderByExpr

  pub data BoundOrders : Type 0 where
    no_bound_orders : BoundOrders
    more_bound_orders : BoundOrderByExpr → BoundOrders → BoundOrders

  pub data BoundFunctionCall : Type 0 where
    bound_function_call :
        (function : FunctionRef) (resolved_backend_name : Option FunctionRef) (args : BoundExprs)
        (distinct : Bool) (filter : OptionalBound) (over : OptionalBoundWindow)
        (resolved_signature_name : Option String)
        → BoundFunctionCall

  pub data OptionalBoundWindow : Type 0 where
    no_bound_window : OptionalBoundWindow
    bound_window :
        (partition_by : BoundExprs) (order_by : BoundOrders) (node : SyntaxNode)
        → OptionalBoundWindow

  pub data BoundWhenThen : Type 0 where
    bound_when_then : (condition result : BoundExpr) → BoundWhenThen

  pub data BoundWhenThens : Type 0 where
    no_bound_branches : BoundWhenThens
    more_bound_branches : BoundWhenThen → BoundWhenThens → BoundWhenThens

  pub data BoundExpr : Type 0 where
    bound_expr :
        (kind : BoundExprKind) (data_type : DataType) (nullable : Bool) (node : SyntaxNode)
        → BoundExpr

  pub data OptionalBound : Type 0 where
    no_bound : OptionalBound
    some_bound : BoundExpr → OptionalBound

  pub data BoundExprs : Type 0 where
    no_bounds : BoundExprs
    more_bounds : BoundExpr → BoundExprs → BoundExprs

  pub data BoundExprKind : Type 0 where
    bound_column : BoundColumnRef → BoundExprKind
    bound_literal : LiteralValue → BoundExprKind
    bound_parameter : ParameterRef → BoundExprKind
    bound_unary : (op : UnaryOperator) (expr : BoundExpr) → BoundExprKind
    bound_binary : (op : BinaryOperator) (left right : BoundExpr) → BoundExprKind
    bound_function : BoundFunctionCall → BoundExprKind
    bound_case :
        (operand : OptionalBound) (when_then : BoundWhenThens) (else_result : OptionalBound)
        → BoundExprKind
    bound_cast : (expr : BoundExpr) (data_type : DataType) → BoundExprKind
    bound_between : (expr low high : BoundExpr) (negated : Bool) → BoundExprKind
    bound_in_list : (expr : BoundExpr) (list : BoundExprs) (negated : Bool) → BoundExprKind
    bound_in_subquery :
        (expr : BoundExpr) (subquery : BoundQueryPlan) (negated : Bool) → BoundExprKind
    bound_scalar_subquery : BoundQueryPlan → BoundExprKind
    bound_exists : BoundQueryPlan → BoundExprKind
    bound_like : (expr pattern : BoundExpr) (negated case_insensitive : Bool) → BoundExprKind
    bound_is_null : (expr : BoundExpr) (negated : Bool) → BoundExprKind
    bound_tuple : BoundExprs → BoundExprKind
    bound_array : BoundExprs → BoundExprKind
    bound_unsupported : (description : String) → BoundExprKind

-- `BoundSetExpr::result_schema`
abbrev pub result_schema : BoundSetExpr → ResultSchema
result_schema (bound_select (bound_selection _ _ _ _ _ _ schema _)) = schema
result_schema (bound_union_all _ _ _ schema) = schema
result_schema (bound_unsupported_set_expr _ _ schema) = schema

-- `plan.result_schema`
abbrev pub plan_schema : BoundQueryPlan → ResultSchema
plan_schema (bound_plan _ _ _ _ _ _ _ schema) = schema

-- `BoundRelation::binding`
abbrev pub relation_binding : BoundRelation → Option BoundRelationBinding
relation_binding (bound_table binding node) = some binding
relation_binding (bound_derived binding query node) = some binding
relation_binding (bound_nested_join binding table_with_joins node) = some binding
relation_binding (bound_unsupported_relation description binding_name node) = none

-- `expr.data_type`
abbrev pub bound_type : BoundExpr → DataType
bound_type (bound_expr kind data_type nullable node) = data_type

-- `expr.nullable`
abbrev pub bound_nullable : BoundExpr → Bool
bound_nullable (bound_expr kind data_type nullable node) = nullable
