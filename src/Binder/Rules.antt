-- ===== src/Binder/Rules.antt =====
-- What the methods of `Binder` in crates/queryfabric-catalog/src/bind/query.rs, bind/exprs.rs and bind/functions.rs
-- compute at one node of the tree: schemas, types, nullability, and the checks that report.
use Prim.Native.String.{◌++◌ as text_append}
use queryfabric.Base.{
  Bool, List, Option, String, [], false, if◌then◌else◌, length, nat_beq, none, some, suc, true, ℕ,
  ◌||◌, ◌∷◌,
}
use queryfabric.Base.Text.{decimal}
use queryfabric.Syntax.Types.{
  DataType, ResultField, ResultFields, boolean, float64, list, more_fields, no_fields, result_field,
  unknown,
}
use queryfabric.Syntax.Tree.{
  BackendClause, BinaryOperator, Exprs, FunctionRef, JoinKind, NameRef, ParameterRef, SyntaxExpr,
  SyntaxFunctionCall, SyntaxNode, UnaryOperator, add, and, click_house_format, click_house_settings,
  divide, eq, expr, full, function_call, gt, gt_eq, left, lt, lt_eq, more_exprs, multiply, no_exprs,
  not, not_eq, or, parameter, right, subtract,
}
use queryfabric.Syntax.Common.{common_type, or_type}
use queryfabric.Syntax.Parameters.{display_name, new_field}
use queryfabric.Syntax.Bound.{
  BoundExpr, BoundExprs, BoundJoin, BoundJoins, BoundRelation, BoundRelationBinding, BoundWhenThens,
  OptionalBound, ResultSchema, bound_derived, bound_expr, bound_join, bound_nested_join,
  bound_nullable, bound_parameter, bound_table, bound_type, bound_unsupported_relation,
  bound_when_then, more_bound_branches, more_bound_joins, more_bounds, no_bound, no_bound_branches,
  no_bound_joins, no_bounds, schema_of, some_bound,
}
use queryfabric.Catalog.Model.{FunctionSignature}
use queryfabric.Catalog.Builtins.{builtin_function_signature}
use queryfabric.Binder.State.{
  Bind, ExpectedType, NullableConstraint, allows_null, anything, exactly, non_null, push_error,
  push_warning, return, same_as, unknown_nullability, ◌>>=◌, ◌>>◌,
}
use queryfabric.Binder.Scope.{Scope, make_all_nullable, make_schema_nullable, push_relation}
use queryfabric.Binder.Parameters.{allocate_parameter, record_parameter_use}
use queryfabric.Binder.Remedies.{quoted}

-- `ctes: &BTreeMap<String, BoundRelationBinding>`, by the names in lower case.
abbrev pub CteMap : Type 0
CteMap = List (List ℕ × BoundRelationBinding)

abbrev pub rename_fields : List ResultField → List String → List ResultField
rename_fields [] names = []
rename_fields (field ∷ fields) [] = field ∷ fields
rename_fields (result_field _ data_type nullable metadata ∷ fields) (name ∷ names) =
    result_field name data_type nullable metadata ∷ rename_fields fields names

-- The schema of a common table expression, with the names of its column list when they fit.
abbrev pub cte_schema : List String → ResultSchema → ResultSchema
cte_schema [] schema = schema
cte_schema (name ∷ names) schema =
    if nat_beq (length (name ∷ names)) (length schema.fields)
    then record schema { fields = rename_fields schema.fields (name ∷ names) }
    else schema

abbrev pub name_cte : String → ResultSchema → BoundRelationBinding
name_cte name schema = record {
  binding_name = name;
  relation_name = some (record { namespace = none; name = name });
  schema = schema;
}

abbrev pub rename_binding : BoundRelationBinding → Option String → BoundRelationBinding
rename_binding binding none = binding
rename_binding binding (some alias) = record binding { binding_name = alias }

abbrev pub or_name : Option String → String → String
or_name none name = name
or_name (some alias) name = alias

-- `NameRef::display_name`
abbrev pub name_text : NameRef → String
name_text reference = elim reference.namespace [
  | none ↦ reference.name
  | some namespace ↦ text_append namespace (text_append "." reference.name)
]

-- `make_relation_nullable`
abbrev pub nullable_binding : BoundRelationBinding → BoundRelationBinding
nullable_binding binding = record binding { schema = make_schema_nullable binding.schema }

abbrev pub make_relation_nullable : BoundRelation → BoundRelation
make_relation_nullable (bound_table binding node) = bound_table (nullable_binding binding) node
make_relation_nullable (bound_derived binding plan node) =
    bound_derived (nullable_binding binding) plan node
make_relation_nullable (bound_nested_join binding joined node) =
    bound_nested_join (nullable_binding binding) joined node
make_relation_nullable (bound_unsupported_relation description binding_name node) =
    bound_unsupported_relation description binding_name node

abbrev pub make_join_relations_nullable : BoundJoins → BoundJoins
make_join_relations_nullable no_bound_joins = no_bound_joins
make_join_relations_nullable (more_bound_joins (bound_join kind relation on node) js) =
    more_bound_joins (bound_join kind (make_relation_nullable relation) on node)
      (make_join_relations_nullable js)

-- `joins.push(join)`
abbrev pub push_join : BoundJoins → BoundJoin → BoundJoins
push_join no_bound_joins j = more_bound_joins j no_bound_joins
push_join (more_bound_joins i js) j = more_bound_joins i (push_join js j)

-- What is joined so far: the first relation, the joins and the scope.
pub record JoinState : Type 0 where
  pub relation : BoundRelation
  pub joins : BoundJoins
  pub join_scope : Scope

abbrev pub all_nullable_state : JoinState → JoinState
all_nullable_state state = record {
  relation = make_relation_nullable state.relation;
  joins = make_join_relations_nullable state.joins;
  join_scope = make_all_nullable state.join_scope;
}

-- The side that an outer join may leave without a row, before the join is pushed.
abbrev pub widen_state : JoinKind → JoinState → JoinState
widen_state right state = all_nullable_state state
widen_state full state = all_nullable_state state
widen_state _ state = state

abbrev pub widen_joined : JoinKind → BoundRelation → BoundRelation
widen_joined left joined = make_relation_nullable joined
widen_joined full joined = make_relation_nullable joined
widen_joined _ joined = joined

-- The end of the loop over the joins: the nullability, and the two pushes.
abbrev pub add_join : JoinKind → BoundRelation → OptionalBound → SyntaxNode → JoinState → JoinState
add_join kind joined on node state =
    let widened = widen_state kind state in
    let relation = widen_joined kind joined in
    record {
      relation = widened.relation;
      joins = push_join widened.joins (bound_join kind relation on node);
      join_scope = push_relation widened.join_scope relation;
    }

abbrev pub unify_fields : List ResultField → List ResultField → List ResultField
unify_fields [] gs = []
unify_fields (f ∷ fs) [] = []
unify_fields (result_field name t nullable metadata ∷ fs) (result_field _ u nullable_too _ ∷ gs) =
    result_field name (or_type (common_type t u) unknown) (nullable || nullable_too) metadata
    ∷ unify_fields fs gs

-- `unify_union_schema`
unfoldable pub unify_union_schema : ResultSchema → ResultSchema → SyntaxNode → Bind ResultSchema
unify_union_schema first second node =
    if nat_beq (length first.fields) (length second.fields)
    then return (schema_of (unify_fields first.fields second.fields))
    else (push_error "QF0022"
          (text_append "UNION ALL requires equal column counts but found " (
            text_append (decimal (length first.fields))
              (text_append " and " (text_append (decimal (length second.fields)) "."))))
          node none
        >>= λ _. return (schema_of []))

-- `subquery_single_field`
abbrev pub single_field :
    SyntaxNode → String → String → List ResultField → Bind (Option ResultField)
single_field node code context (field ∷ []) = return (some field)
single_field node code context fields = do
  push_error code
      (text_append context (
        text_append " must project exactly one column in the verified portable subset; found "
          (text_append (decimal (length fields)) ".")))
      node (some "Rewrite the subquery to return exactly one projected column.")
  return none

-- The warnings on the clauses that only one backend knows.
abbrev pub warn_clauses : List BackendClause → Bind (Unit {0})
warn_clauses [] = return tt
warn_clauses (click_house_settings text node ∷ clauses) = do
  push_warning "QF0101" "ClickHouse SETTINGS are preserved only for backend-specific adapters." node
      (some "Do not rely on SETTINGS for portable execution.")
  warn_clauses clauses
warn_clauses (click_house_format text node ∷ clauses) = do
  push_warning "QF0102" "ClickHouse FORMAT is preserved only for backend-specific adapters." node
      (some "Prefer result consumers to choose the output format outside QueryFabric core.")
  warn_clauses clauses

abbrev pub refuse_recursion : Bool → SyntaxNode → Bind (Unit {0})
refuse_recursion false node = return tt
refuse_recursion true node =
    push_error "QF0001" "WITH RECURSIVE is outside the verified QueryFabric portable subset." node
      (some "Rewrite the query using a non-recursive CTE or a host-side expansion.")

abbrev pub warn_function : Bool → FunctionRef → SyntaxNode → Bind (Unit {0})
warn_function false reference node = return tt
warn_function true reference node =
    push_warning "QF0104"
      (quoted "Function " (display_name reference)
        " is backend-specific and outside the verified portable subset.")
      node (some "Rely on adapter-specific capability checks before executing this query.")

-- `!matches!(nullable, NullableConstraint::NonNull)`
abbrev pub may_be_null : NullableConstraint → Bool
may_be_null non_null = false
may_be_null allows_null = true
may_be_null unknown_nullability = true

-- The arm of `bind_expr` for a parameter.
unfoldable pub bind_parameter : ParameterRef → SyntaxNode → ExpectedType → Bind BoundExpr
bind_parameter reference node expected = do
  allocated ← allocate_parameter reference
  record_parameter_use allocated expected node
  return (
      bound_expr (bound_parameter allocated) (or_type expected.data_type unknown)
        (may_be_null expected.nullable) node)

-- A parameter that is tested for null is recorded before it is bound.
abbrev pub record_null_test : SyntaxExpr → Bind (Unit {0})
record_null_test (expr (parameter reference) node) = do
  allocated ← allocate_parameter reference
  record_parameter_use allocated (record { data_type = none; nullable = allows_null }) node
record_null_test (expr _ node) = return tt

abbrev pub fields_of_tuple : ℕ → BoundExprs → ResultFields
fields_of_tuple idx no_bounds = no_fields
fields_of_tuple idx (more_bounds e es) =
    more_fields (new_field (text_append "_" (decimal idx)) (bound_type e) (bound_nullable e))
      (fields_of_tuple (suc idx) es)

abbrev pub branch_types : BoundWhenThens → OptionalBound → List DataType
branch_types no_bound_branches no_bound = []
branch_types no_bound_branches (some_bound e) = bound_type e ∷ []
branch_types (more_bound_branches (bound_when_then condition result) bs) otherwise =
    bound_type result ∷ branch_types bs otherwise

-- A `CASE` without `ELSE` may be null.
abbrev pub branches_nullable : BoundWhenThens → OptionalBound → Bool
branches_nullable no_bound_branches no_bound = true
branches_nullable no_bound_branches (some_bound e) = bound_nullable e
branches_nullable (more_bound_branches (bound_when_then condition result) bs) otherwise =
    bound_nullable result || branches_nullable bs otherwise

abbrev pub field_type_or : Option ResultField → DataType
field_type_or none = unknown
field_type_or (some (result_field name data_type nullable metadata)) = data_type

abbrev pub field_nullable_or : Option ResultField → Bool
field_nullable_or none = false
field_nullable_or (some (result_field name data_type nullable metadata)) = nullable

abbrev pub unary_type : UnaryOperator → DataType → DataType
unary_type not t = boolean
unary_type _ t = t

-- What the left operand of a binary operator is expected to be.
abbrev pub left_expected : BinaryOperator → ExpectedType
left_expected and = exactly boolean
left_expected or = exactly boolean
left_expected add = exactly float64
left_expected subtract = exactly float64
left_expected multiply = exactly float64
left_expected divide = exactly float64
left_expected _ = anything

-- What the right operand is expected to be, after the type of the left one.
abbrev pub right_expected : BinaryOperator → DataType → ExpectedType
right_expected eq t = same_as t
right_expected not_eq t = same_as t
right_expected lt t = same_as t
right_expected lt_eq t = same_as t
right_expected gt t = same_as t
right_expected gt_eq t = same_as t
right_expected op t = left_expected op

abbrev pub binary_type : BinaryOperator → DataType → DataType → DataType
binary_type add t u = or_type (common_type t u) float64
binary_type subtract t u = or_type (common_type t u) float64
binary_type multiply t u = or_type (common_type t u) float64
binary_type divide t u = or_type (common_type t u) float64
binary_type _ t u = boolean

abbrev pub or_builtin : Option String → String → Option FunctionSignature → Option FunctionSignature
or_builtin namespace name (some signature) = some signature
or_builtin namespace name none = builtin_function_signature namespace name

abbrev pub has_namespace : FunctionRef → Bool
has_namespace reference = elim reference.namespace [ none ↦ false | some namespace ↦ true ]

-- `function.function`
abbrev pub called : SyntaxFunctionCall → FunctionRef
called (function_call reference args distinct filter over) = reference

-- What the items of `IN (…)` are expected to be: a single parameter stands for the whole list.
abbrev pub items_expected : Exprs → DataType → ExpectedType
items_expected (more_exprs (expr (parameter reference) node) no_exprs) t = exactly (list t)
items_expected items t = same_as t
