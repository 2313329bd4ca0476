-- ===== src/Syntax/Tree.antt =====
-- crates/queryfabric-ir/src/syntax.rs: the syntax tree that a dialect parser hands to the binder. A
-- `Vec` or an `Option` of a type of the tree is a type of the block; `Box` is left out. Where two
-- enums of the source have a variant of one name, the constructors here say which they belong to.
use queryfabric.Base.{ℕ, ℤ, String, Bool, List, Option}
use queryfabric.Syntax.Types.{DataType}
use queryfabric.Syntax.Span.{QuerySourceSpan}

pub record SyntaxNode : Type 0 where
  pub span : Option QuerySourceSpan
  pub node_id : String

pub record NameRef : Type 0 where
  pub namespace : Option String
  pub name : String

pub record FunctionRef : Type 0 where
  pub namespace : Option String
  pub name : String

pub data ParameterRef : Type 0 where
  positional : ℕ → ParameterRef
  named : String → ParameterRef

pub data BackendClause : Type 0 where
  click_house_settings : (text : String) (node : SyntaxNode) → BackendClause
  click_house_format : (text : String) (node : SyntaxNode) → BackendClause

pub data JoinKind : Type 0 where
  inner left right full cross : JoinKind

pub data UnaryOperator : Type 0 where
  plus minus not : UnaryOperator

pub data BinaryOperator : Type 0 where
  add subtract multiply divide eq not_eq lt lt_eq gt gt_eq and or : BinaryOperator

pub data LiteralValue : Type 0 where
  null : LiteralValue
  boolean : Bool → LiteralValue
  int64 : ℤ → LiteralValue
  float64 : String → LiteralValue
  utf8 : String → LiteralValue

mutual
  pub data SyntaxQuery : Type 0 where
    query :
        (node : SyntaxNode) (ctes : Ctes) (with_recursive : Bool) (body : SyntaxSetExpr)
        (order_by : OrderBys) (limit offset : OptionalExpr) (backend_clauses : List BackendClause)
        → SyntaxQuery

  pub data SyntaxCte : Type 0 where
    cte :
        (name : String) (columns : List String) (query : SyntaxQuery) (node : SyntaxNode)
        → SyntaxCte

  pub data Ctes : Type 0 where
    no_ctes : Ctes
    more_ctes : SyntaxCte → Ctes → Ctes

  pub data SyntaxSetExpr : Type 0 where
    select : SyntaxSelect → SyntaxSetExpr
    union_all : (left right : SyntaxSetExpr) (node : SyntaxNode) → SyntaxSetExpr
    unsupported_set_expr : (description : String) (node : SyntaxNode) → SyntaxSetExpr

  pub data SyntaxSelect : Type 0 where
    syntax_select :
        (distinct : Bool) (projection : ProjectionItems) (from : Tables) (selection : OptionalExpr)
        (group_by : Exprs) (having : OptionalExpr) (node : SyntaxNode)
        → SyntaxSelect

  pub data SyntaxProjectionItem : Type 0 where
    wildcard : (qualifier : Option String) (node : SyntaxNode) → SyntaxProjectionItem
    projection_expr :
        (expr : SyntaxExpr) (alias : Option String) (node : SyntaxNode) → SyntaxProjectionItem
    unsupported_item : (description : String) (node : SyntaxNode) → SyntaxProjectionItem

  pub data ProjectionItems : Type 0 where
    no_items : ProjectionItems
    more_items : SyntaxProjectionItem → ProjectionItems → ProjectionItems

  pub data SyntaxTableWithJoins : Type 0 where
    table_with_joins :
        (relation : SyntaxRelation) (joins : Joins) (node : SyntaxNode) → SyntaxTableWithJoins

  pub data Tables : Type 0 where
    no_tables : Tables
    more_tables : SyntaxTableWithJoins → Tables → Tables

  pub data SyntaxJoin : Type 0 where
    join :
        (kind : JoinKind) (relation : SyntaxRelation) (on : OptionalExpr) (node : SyntaxNode)
        → SyntaxJoin

  pub data Joins : Type 0 where
    no_joins : Joins
    more_joins : SyntaxJoin → Joins → Joins

  pub data SyntaxRelation : Type 0 where
    table : (name : NameRef) (alias : Option String) (node : SyntaxNode) → SyntaxRelation
    derived : (query : SyntaxQuery) (alias : Option String) (node : SyntaxNode) → SyntaxRelation
    nested_join :
        (table_with_joins : SyntaxTableWithJoins) (alias : Option String) (node : SyntaxNode)
        → SyntaxRelation
    unsupported_relation : (description : String) (node : SyntaxNode) → SyntaxRelation

  pub data SyntaxOrderByExpr : Type 0 where
    order_by_expr :
        (expr : SyntaxExpr) (asc nulls_first : Option Bool) (node : SyntaxNode) → SyntaxOrderByExpr

  pub data OrderBys : Type 0 where
    no_orders : OrderBys
    more_orders : SyntaxOrderByExpr → OrderBys → OrderBys

  pub data OptionalWindow : Type 0 where
    no_window : OptionalWindow
    window_spec : (partition_by : Exprs) (order_by : OrderBys) (node : SyntaxNode) → OptionalWindow

  pub data SyntaxFunctionCall : Type 0 where
    function_call :
        (function : FunctionRef) (args : Exprs) (distinct : Bool) (filter : OptionalExpr)
        (over : OptionalWindow)
        → SyntaxFunctionCall

  pub data SyntaxWhenThen : Type 0 where
    when_then : (condition result : SyntaxExpr) → SyntaxWhenThen

  pub data WhenThens : Type 0 where
    no_branches : WhenThens
    more_branches : SyntaxWhenThen → WhenThens → WhenThens

  pub data SyntaxExpr : Type 0 where
    expr : (kind : SyntaxExprKind) (node : SyntaxNode) → SyntaxExpr

  pub data OptionalExpr : Type 0 where
    no_expr : OptionalExpr
    some_expr : SyntaxExpr → OptionalExpr

  pub data Exprs : Type 0 where
    no_exprs : Exprs
    more_exprs : SyntaxExpr → Exprs → Exprs

  pub data SyntaxExprKind : Type 0 where
    column : (relation : Option String) (name : String) → SyntaxExprKind
    literal : LiteralValue → SyntaxExprKind
    parameter : ParameterRef → SyntaxExprKind
    unary : (op : UnaryOperator) (expr : SyntaxExpr) → SyntaxExprKind
    binary : (op : BinaryOperator) (left right : SyntaxExpr) → SyntaxExprKind
    function : SyntaxFunctionCall → SyntaxExprKind
    case :
        (operand : OptionalExpr) (when_then : WhenThens) (else_result : OptionalExpr)
        → SyntaxExprKind
    cast : (expr : SyntaxExpr) (data_type : DataType) → SyntaxExprKind
    between : (expr low high : SyntaxExpr) (negated : Bool) → SyntaxExprKind
    in_list : (expr : SyntaxExpr) (list : Exprs) (negated : Bool) → SyntaxExprKind
    in_subquery : (expr : SyntaxExpr) (subquery : SyntaxQuery) (negated : Bool) → SyntaxExprKind
    scalar_subquery : SyntaxQuery → SyntaxExprKind
    exists : SyntaxQuery → SyntaxExprKind
    like : (expr pattern : SyntaxExpr) (negated case_insensitive : Bool) → SyntaxExprKind
    is_null : (expr : SyntaxExpr) (negated : Bool) → SyntaxExprKind
    tuple : Exprs → SyntaxExprKind
    array : Exprs → SyntaxExprKind
    unsupported_expr : (description : String) → SyntaxExprKind
