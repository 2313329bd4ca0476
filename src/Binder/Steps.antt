-- ===== src/Binder/Steps.antt =====
-- The steps of the binder at one node report what they refuse: the functions of Binder/Rules.antt.
use queryfabric.Base.{
  Bool, Bool-cases, List, Option, String, [], arith, false, inl, inr, length, nat_beq, none, some,
  true, ◌∷◌,
}
use queryfabric.Syntax.Types.{ResultField, result_field}
use queryfabric.Syntax.Tree.{
  BackendClause, FunctionRef, NameRef, ParameterRef, SyntaxExpr, SyntaxNode, click_house_format,
  click_house_settings, expr, named, parameter, positional,
}
use queryfabric.Syntax.Bound.{BoundRelationBinding, ResultSchema}
use queryfabric.Catalog.Model.{RelationSchema}
use queryfabric.Binder.State.{ExpectedType, unsupported_at}
use queryfabric.Binder.Parameters.{allocate_parameter, record_parameter_use}
use queryfabric.Binder.Scope.{Scope}
use queryfabric.Binder.Rules.{
  bind_parameter, record_null_test, refuse_recursion, single_field, unify_union_schema,
  warn_clauses, warn_function,
}
use queryfabric.Binder.Supported.{ExprSupported, RelationSupported}
use queryfabric.Binder.Safe.{
  Safe, Safe-error, Safe-last, Safe-refuse, Safe-return, Safe-then, Safe-warning,
}
use queryfabric.Binder.Walk.{bind_table, found_column, qualified_fields, wildcard_fields}

pub Safe-warn_clauses : (clauses : List BackendClause) → Safe (λ _. Unit {0}) (warn_clauses clauses)
Safe-warn_clauses [] = Safe-return _ tt tt
Safe-warn_clauses (click_house_settings text node ∷ clauses) =
    Safe-then (Safe-warning _ _ _ _) λ _. Safe-last (Safe-warn_clauses clauses) (λ _ h _. h)
Safe-warn_clauses (click_house_format text node ∷ clauses) =
    Safe-then (Safe-warning _ _ _ _) λ _. Safe-last (Safe-warn_clauses clauses) (λ _ h _. h)

pub Safe-recursion : (b : Bool) (node : SyntaxNode) → Safe (λ _. Unit {0}) (refuse_recursion b node)
Safe-recursion false node = Safe-return _ tt tt
Safe-recursion true node = Safe-last (Safe-error _ _ _ _) (λ _ _. tt)

pub Safe-warn_function :
    (b : Bool) (reference : FunctionRef) (node : SyntaxNode)
    → Safe (λ _. Unit {0}) (warn_function b reference node)
Safe-warn_function false reference node = Safe-return _ tt tt
Safe-warn_function true reference node = Safe-warning _ _ _ _

pub Safe-allocate : (reference : ParameterRef) → Safe (λ _. Unit {0}) (allocate_parameter reference)
unfolding allocate_parameter
Safe-allocate (positional position) = record { ensures = λ s clean. ground arith }
Safe-allocate (named name) = record { ensures = λ s clean. (clean, tt) }

pub Safe-record :
    (reference : ParameterRef) (expected : ExpectedType) (node : SyntaxNode)
    → Safe (λ _. Unit {0}) (record_parameter_use reference expected node)
unfolding record_parameter_use
Safe-record reference expected node = record { ensures = λ s clean. (clean, tt) }

pub Safe-parameter :
    (reference : ParameterRef) (node : SyntaxNode) (expected : ExpectedType)
    → Safe ExprSupported (bind_parameter reference node expected)
unfolding bind_parameter
Safe-parameter reference node expected =
    Safe-then (Safe-allocate reference)
      λ allocated. Safe-then (Safe-record allocated expected node) λ _. Safe-return _ _ (λ _ _. tt)

pub Safe-null_test : (e : SyntaxExpr) → Safe (λ _. Unit {0}) (record_null_test e)
Safe-null_test (expr (parameter reference) node) =
    Safe-then (Safe-allocate reference)
      λ allocated. Safe-last (Safe-record allocated _ node) (λ _ _ _. tt)
Safe-null_test (expr _ node) = Safe-return _ tt tt

pub Safe-unify :
    (first second : ResultSchema) (node : SyntaxNode)
    → Safe (λ _. Unit {0}) (unify_union_schema first second node)
unfolding unify_union_schema
Safe-unify first second node =
    elim (Bool-cases (nat_beq (length first.fields) (length second.fields))) [
      | inl same ↦ rw same (Safe-return _ _ tt)
      | inr differ ↦ rw differ (Safe-refuse _ (Safe-error _ _ _ _))
    ]

pub Safe-single :
    (node : SyntaxNode) (code context : String) (fields : List ResultField)
    → Safe (λ _. Unit {0}) (single_field node code context fields)
Safe-single node code context [] = Safe-refuse _ (Safe-error _ _ _ _)
Safe-single node code context (field ∷ []) = Safe-return _ _ tt
Safe-single node code context (field ∷ other ∷ fields) = Safe-refuse _ (Safe-error _ _ _ _)

pub Safe-unsupported :
    (node : SyntaxNode) (code message : String) (remediation : Option String)
    → Safe ExprSupported (unsupported_at node code message remediation)
unfolding unsupported_at
Safe-unsupported node code message remediation = Safe-refuse _ (Safe-error _ _ _ _)

pub found_column_supported :
    (node : SyntaxNode) (name : String) (relation : Option String) (field : ResultField)
    → ExprSupported (found_column node name relation field)
found_column_supported node name relation (result_field _ data_type nullable metadata) = tt

pub Safe-table :
    (name : NameRef) (alias : Option String) (node : SyntaxNode)
    (named : Option BoundRelationBinding) (schema : Option RelationSchema)
    → Safe RelationSupported (bind_table name alias node named schema)
unfolding bind_table
Safe-table name alias node (some binding) schema = Safe-return _ _ tt
Safe-table name alias node none (some schema) = Safe-return _ _ tt
Safe-table name alias node none none = Safe-refuse _ (Safe-error _ _ _ _)

pub Safe-qualified :
    (qualifier : String) (node : SyntaxNode) (found : Option (List ResultField))
    → Safe (λ _. Unit {0}) (qualified_fields qualifier node found)
Safe-qualified qualifier node (some fields) = Safe-return _ _ tt
Safe-qualified qualifier node none = Safe-refuse _ (Safe-error _ _ _ _)

pub Safe-wildcard :
    (scope : Scope) (qualifier : Option String) (node : SyntaxNode)
    → Safe (λ _. Unit {0}) (wildcard_fields scope qualifier node)
Safe-wildcard scope none node = Safe-return _ _ tt
Safe-wildcard scope (some qualifier) node = Safe-qualified qualifier node _
