-- ===== src/Binder/State.antt =====
-- The state of `Binder` in crates/queryfabric-catalog/src/bind/mod.rs and the methods of bind/helpers.rs that
-- report. A method that takes `&mut self` is a function from a state to its result and the state after it.
use queryfabric.Base.{
  Bool, List, Option, String, [], false, if◌then◌else◌, none, some, true, ℕ, ◌++◌, ◌∷◌,
}
use queryfabric.Syntax.Span.{QuerySourceSpan}
use queryfabric.Syntax.Types.{DataType, boolean, float64, int64, is_unknown, unknown, utf8}
use queryfabric.Syntax.Tree.{
  LiteralValue, ParameterRef, SyntaxExpr, SyntaxNode, column, expr, function, function_call,
  parameter,
}
use queryfabric.Syntax.Parsed.{DiagnosticSeverity, QueryDiagnostic, error, note, warning}
use queryfabric.Syntax.Parameters.{display_name, show_parameter}
use queryfabric.Syntax.Bound.{BoundExpr, bound_expr, bound_literal, bound_unsupported}

-- `QueryDiagnostic::error` with the node's id and span
abbrev pub diagnostic_at :
    DiagnosticSeverity → String → String → SyntaxNode → Option String → QueryDiagnostic
diagnostic_at severity code message node remediation = record {
  code = code;
  severity = severity;
  message = message;
  remediation = remediation;
  backend = none;
  span = node.span;
  node_id = some node.node_id;
}

abbrev pub severity_is_error : DiagnosticSeverity → Bool
severity_is_error error = true
severity_is_error warning = false
severity_is_error note = false

-- `QueryDiagnostic::is_error`
abbrev pub is_error : QueryDiagnostic → Bool
is_error diagnostic = severity_is_error diagnostic.severity

pub data NullableConstraint : Type 0 where
  unknown_nullability allows_null non_null : NullableConstraint

-- `NullableConstraint::merge`
abbrev pub merge_nullable : NullableConstraint → NullableConstraint → NullableConstraint
merge_nullable non_null other = non_null
merge_nullable unknown_nullability non_null = non_null
merge_nullable allows_null non_null = non_null
merge_nullable allows_null allows_null = allows_null
merge_nullable allows_null unknown_nullability = allows_null
merge_nullable unknown_nullability allows_null = allows_null
merge_nullable unknown_nullability unknown_nullability = unknown_nullability

pub record ParameterConstraint : Type 0 where
  pub data_type : Option DataType
  pub nullable : NullableConstraint
  pub span : Option QuerySourceSpan
  pub node_id : Option String

pub record ExpectedType : Type 0 where
  pub data_type : Option DataType
  pub nullable : NullableConstraint

-- `ExpectedType::default()`
abbrev pub anything : ExpectedType
anything = record { data_type = none; nullable = unknown_nullability }

-- A value of the type that is not null.
abbrev pub exactly : DataType → ExpectedType
exactly t = record { data_type = some t; nullable = non_null }

-- `(!t.is_unknown()).then_some(&t)`, not null.
abbrev pub same_as : DataType → ExpectedType
same_as t = record { data_type = if is_unknown t then none else some t; nullable = non_null }

pub record BinderState : Type 0 where
  pub diagnostics : List QueryDiagnostic
  pub parameter_constraints : List (ParameterRef × ParameterConstraint)
  pub next_auto_position : ℕ

abbrev pub Bind : Type 0 → Type 0
Bind A = BinderState → A × BinderState

infixl 5 ◌>>=◌ ◌>>◌
unfoldable pub ◌>>=◌ : {A B : Type 0} → Bind A → (A → Bind B) → Bind B
◌>>=◌ m next s = let (a, after) = m s in next a after

abbrev pub ◌>>◌ : {B : Type 0} → Bind (Unit {0}) → Bind B → Bind B
m >> rest = m >>= λ _. rest

unfoldable pub return : {A : Type 0} → A → Bind A
return a s = (a, s)

-- `self.diagnostics.push(diagnostic)`
unfoldable pub push : QueryDiagnostic → Bind (Unit {0})
push diagnostic s = (tt, record s { diagnostics = s.diagnostics ++ diagnostic ∷ [] })

abbrev pub push_error : String → String → SyntaxNode → Option String → Bind (Unit {0})
push_error code message node remediation = push (diagnostic_at error code message node remediation)

abbrev pub push_warning : String → String → SyntaxNode → Option String → Bind (Unit {0})
push_warning code message node remediation =
    push (diagnostic_at warning code message node remediation)

-- `expr.node`
abbrev pub expr_node : SyntaxExpr → SyntaxNode
expr_node (expr kind node) = node

-- `Binder::unsupported_expr`, at the node of the expression
unfoldable pub unsupported_at : SyntaxNode → String → String → Option String → Bind BoundExpr
unsupported_at node code message remediation = do
  push_error code message node remediation
  return (bound_expr (bound_unsupported node.node_id) unknown true node)

-- The types and the nullability of a literal.
abbrev pub literal_type : LiteralValue → DataType × Bool
literal_type LiteralValue.null = (unknown, true)
literal_type (LiteralValue.boolean b) = (boolean, false)
literal_type (LiteralValue.int64 i) = (int64, false)
literal_type (LiteralValue.float64 text) = (float64, false)
literal_type (LiteralValue.utf8 text) = (utf8, false)

unfoldable pub bind_literal : SyntaxNode → LiteralValue → BoundExpr
bind_literal node value =
    bound_expr (bound_literal value) (literal_type value).0 (literal_type value).1 node

-- The name of a projected expression without an alias.
unfoldable pub expression_name : SyntaxExpr → String
expression_name (expr (column relation name) node) = name
expression_name (expr (function (function_call reference _ _ _ _)) node) = display_name reference
expression_name (expr (parameter reference) node) = show_parameter reference
expression_name (expr _ node) = node.node_id
