-- ===== src/Binder/Finalize.antt =====
-- `Binder::finalize_parameters` of crates/queryfabric-catalog/src/bind/params.rs: from the constraints that
-- the uses of the parameters left, a type and a nullability for each, checked against the values given.
use Prim.Native.String.{◌++◌ as text_append}
use queryfabric.Base.{
  Bool, List, Option, String, [], false, if◌then◌else◌, none, not, some, some_of, true, ◌&&◌, ◌∷◌,
}
use queryfabric.Syntax.Types.{DataType, is_unknown}
use queryfabric.Syntax.Tree.{ParameterRef, SyntaxNode}
use queryfabric.Syntax.Parsed.{QueryDiagnostic, Result, bind, err, ok}
use queryfabric.Syntax.Parameters.{
  ParameterBinding, ParameterSchema, ParameterValue, QueryParameters, lookup_parameter, no_metadata,
  show_parameter,
}
use queryfabric.Binder.State.{
  Bind, NullableConstraint, ParameterConstraint, allows_null, is_error, non_null, push, push_error,
  return, unknown_nullability, ◌>>=◌, ◌>>◌,
}
use queryfabric.Binder.Parameters.{
  before_or_same, is_null_value, parameter_value_matches_schema, render_data_type,
}

-- `The parameter`, quoted, and what is said of it.
abbrev pub about_parameter : ParameterRef → String → String
about_parameter reference text =
    text_append "Parameter `" (text_append (show_parameter reference) (text_append "`" text))

-- The node that the errors of a parameter point to: that of its first use.
abbrev pub constraint_node : ParameterRef → ParameterConstraint → SyntaxNode
constraint_node reference constraint = record {
  span = constraint.span;
  node_id = elim constraint.node_id [
    | some id ↦ id
    | none ↦ text_append "param:" (show_parameter reference)
  ];
}

abbrev pub unresolved_type : ParameterRef → SyntaxNode → Bind (Option DataType)
unresolved_type reference node = do
  push_error "QF0018" (about_parameter reference " has unresolved type.") node
      (some "Cast the parameter or use it in a typed comparison.")
  return none

-- `constraint.data_type.filter(|ty| !ty.is_unknown())`, or an error
abbrev pub resolved_type : ParameterRef → SyntaxNode → Option DataType → Bind (Option DataType)
resolved_type reference node none = unresolved_type reference node
resolved_type reference node (some t) =
    if is_unknown t then unresolved_type reference node else return (some t)

abbrev pub resolved_nullable : ParameterRef → SyntaxNode → NullableConstraint → Bind (Option Bool)
resolved_nullable reference node allows_null = return (some true)
resolved_nullable reference node non_null = return (some false)
resolved_nullable reference node unknown_nullability = do
  push_error "QF0019" (about_parameter reference " has unresolved nullability.") node
      (some "Use the parameter in a context that constrains nullability.")
  return none

abbrev pub incompatible_value : SyntaxNode → ParameterSchema → Bind (Option ParameterBinding)
incompatible_value node schema = do
  push_error "QF0020"
      (about_parameter schema.reference (
        text_append " value is incompatible with inferred type `"
          (text_append (render_data_type schema.data_type) "`.")))
      node (some "Supply a value that matches the inferred parameter schema.")
  return none

abbrev pub forbidden_null : SyntaxNode → ParameterSchema → Bind (Option ParameterBinding)
forbidden_null node schema = do
  push_error "QF0021" (about_parameter schema.reference " cannot be NULL in this query.") node
      (some "Supply a non-null parameter value or rewrite the query to allow NULL.")
  return none

-- The check of a value against the schema.
abbrev pub check_value :
    SyntaxNode → ParameterSchema → Option ParameterValue → Bind (Option ParameterBinding)
check_value node schema none = return (some (record { schema = schema; value = none }))
check_value node schema (some value) =
    if not (parameter_value_matches_schema value schema)
    then incompatible_value node schema
    else if is_null_value value && not schema.nullable
    then forbidden_null node schema
    else return (some (record { schema = schema; value = some value }))

abbrev pub schema_for : ParameterRef → Option DataType → Option Bool → Option ParameterSchema
schema_for reference (some data_type) (some nullable) = some (record {
  reference = reference;
  data_type = data_type;
  nullable = nullable;
  metadata = no_metadata;
})
schema_for reference _ _ = none

abbrev pub insert_binding : ParameterBinding → List ParameterBinding → List ParameterBinding
insert_binding b [] = b ∷ []
insert_binding b (c ∷ cs) =
    let later = insert_binding b cs in
    if before_or_same b.schema.reference c.schema.reference then b ∷ c ∷ cs else c ∷ later

-- `bindings.sort_by(|left, right| left.schema.reference.cmp(&right.schema.reference))`
unfoldable pub sort_bindings : List ParameterBinding → List ParameterBinding
sort_bindings [] = []
sort_bindings (b ∷ bs) = insert_binding b (sort_bindings bs)

abbrev pub insert_constraint :
    ParameterRef × ParameterConstraint
    → List (ParameterRef × ParameterConstraint)
    → List (ParameterRef × ParameterConstraint)
insert_constraint entry [] = entry ∷ []
insert_constraint (p, c) ((q, d) ∷ others) =
    let later = insert_constraint (p, c) others in
    if before_or_same p q then (p, c) ∷ (q, d) ∷ others else (q, d) ∷ later

-- The entries of the map in the order of its keys.
abbrev pub in_order :
    List (ParameterRef × ParameterConstraint) → List (ParameterRef × ParameterConstraint)
in_order [] = []
in_order (entry ∷ others) = insert_constraint entry (in_order others)

abbrev pub first_message : String → List QueryDiagnostic → String
first_message default [] = default
first_message default (d ∷ ds) =
    let later = first_message default ds in if is_error d then d.message else later

module _ (parameters : QueryParameters) where
  abbrev pub check_schema : SyntaxNode → Option ParameterSchema → Bind (Option ParameterBinding)
  check_schema node none = return none
  check_schema node (some schema) =
      check_value node schema (lookup_parameter parameters schema.reference)

  -- One turn of the loop over the constraints.
  unfoldable pub finalize_one : ParameterRef → ParameterConstraint → Bind (Option ParameterBinding)
  unfolding push is_unknown
  finalize_one reference constraint = do
    data_type ← resolved_type reference (constraint_node reference constraint) constraint.data_type
    nullable ←
        resolved_nullable reference (constraint_node reference constraint) constraint.nullable
    check_schema (constraint_node reference constraint) (schema_for reference data_type nullable)

  abbrev pub and_binding : Option ParameterBinding → List ParameterBinding → List ParameterBinding
  and_binding none bindings = bindings
  and_binding (some b) bindings = b ∷ bindings

  unfoldable pub finalize_each :
      List (ParameterRef × ParameterConstraint) → Bind (List ParameterBinding)
  unfolding finalize_one
  finalize_each [] = return []
  finalize_each ((reference, constraint) ∷ others) = do
    binding ← finalize_one reference constraint
    bindings ← finalize_each others
    return (and_binding binding bindings)

  unfoldable pub finalize_parameters : Bind (Result (List ParameterBinding))
  unfolding finalize_each sort_bindings
  finalize_parameters s =
      let (bindings, after) = finalize_each (in_order s.parameter_constraints) s in
      if some_of is_error after.diagnostics
      then (
        err (
            bind (record {
              message = first_message "parameter binding failed" after.diagnostics;
              source_sql = none;
              dialect = none;
              diagnostics = after.diagnostics;
            })),
        after,
      )
      else (ok (sort_bindings bindings), after)
