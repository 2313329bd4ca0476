-- ===== src/Binder/Parameters.antt =====
-- crates/queryfabric-catalog/src/bind/params.rs: the positions and the constraints of the parameters, and
-- the bindings made of them.
use Prim.Native.String.{◌++◌ as text_append, compare as text_compare}
use queryfabric.Base.Text.{decimal as show_number}
use queryfabric.Base.{
  Bool, Key, List, Option, Ordering, String, [], arith, eq_iff, false, if◌then◌else◌, insert, leb,
  lookup, max, min, nat_beq, nat_beq_iff, nat_eq, negsuc, none, pos, some, string_eq, suc, true, ℕ,
  ℤ, ◌%◌, ◌&&◌, ◌+◌, ◌-◌, ◌==◌, ◌^◌, ◌↔◌, ◌∷◌, ◌≡◌,
}
use queryfabric.Syntax.Types.{
  DataType, boolean, date, decimal, float64, int32, int64, is_unknown, json, list, struct,
  timestamp, unknown, utf8, uuid,
}
use queryfabric.Syntax.Tree.{ParameterRef, SyntaxNode, named, positional}
use queryfabric.Syntax.Common.{common_type, or_type}
use queryfabric.Syntax.Parameters.{
  ParameterSchema, ParameterValue, ParameterValues, QueryParameters, boolean_value, float64_value,
  int64_value, json_value, list_value, more_values, no_values, null_value, utf8_value, uuid_value,
}
use queryfabric.Binder.State.{
  Bind, ExpectedType, ParameterConstraint, merge_nullable, unknown_nullability,
}

-- The derived `Ord` of `ParameterRef`.
abbrev pub before_or_same : ParameterRef → ParameterRef → Bool
before_or_same (positional m) (positional n) = leb m n
before_or_same (positional m) (named t) = true
before_or_same (named s) (positional n) = false
before_or_same (named s) (named t) = elim (text_compare s t) [ Ordering.gt ↦ false | _ ↦ true ]

abbrev pub same_parameter : ParameterRef → ParameterRef → Bool
same_parameter (positional m) (positional n) = m == n
same_parameter (named s) (named t) = s == t
same_parameter p q = false

pub same_parameter_iff : (p q : ParameterRef) → (same_parameter p q ≡ true) ↔ (p ≡ q)
same_parameter_iff (positional m) (positional n) = ground (arith, nat_beq_iff m n)
same_parameter_iff (positional m) (named t) = (λ h. cc, λ h. cc)
same_parameter_iff (named s) (positional n) = (λ h. cc, λ h. cc)
same_parameter_iff (named s) (named t) = ground (arith, eq_iff s t)

instance abbrev pub parameter_eq : Key ParameterRef
parameter_eq = record { same = same_parameter; same_iff = same_parameter_iff }

abbrev pub next_position : ℕ → ℕ
next_position n = (n + 1) % 2 ^ 32

-- `Binder::allocate_parameter`
unfoldable pub allocate_parameter : ParameterRef → Bind ParameterRef
allocate_parameter (positional position) s =
    if nat_beq position 0
    then (
      positional s.next_auto_position,
      record s { next_auto_position = next_position s.next_auto_position },
    )
    else (positional position, s)
allocate_parameter (named name) s = (named name, s)

-- `entry(reference).or_insert(…)`
abbrev pub constraint_of :
    List (ParameterRef × ParameterConstraint) → ParameterRef → SyntaxNode → ParameterConstraint
constraint_of constraints reference node = elim (lookup reference constraints) [
  | some constraint ↦ constraint
  | none ↦ record {
    data_type = none;
    nullable = unknown_nullability;
    span = node.span;
    node_id = some node.node_id;
  }
]

-- The type of a constraint, narrowed to what a use expects.
abbrev pub narrow : Option DataType → Option DataType → Option DataType
narrow existing none = existing
narrow none (some expected) = if is_unknown expected then none else some expected
narrow (some existing) (some expected) =
    let both = or_type (common_type existing expected) unknown in
    if is_unknown expected then some existing else some both

abbrev pub merge_constraint : ParameterConstraint → ExpectedType → ParameterConstraint
merge_constraint constraint expected = record constraint {
  data_type = narrow constraint.data_type expected.data_type;
  nullable = merge_nullable constraint.nullable expected.nullable;
}

-- `Binder::record_parameter_use`
unfoldable pub record_parameter_use : ParameterRef → ExpectedType → SyntaxNode → Bind (Unit {0})
record_parameter_use reference expected node s =
    let constraint =
      merge_constraint (constraint_of s.parameter_constraints reference node) expected in
    (tt, record s { parameter_constraints = insert reference constraint s.parameter_constraints })

abbrev pub largest : ℕ → List (ℕ × ParameterValue) → ℕ
largest n [] = n
largest n ((position, value) ∷ others) = largest (max n position) others

-- `next_auto_position_seed`: one more than the largest position that has a value, saturating.
unfoldable pub next_auto_position_seed : QueryParameters → ℕ
next_auto_position_seed parameters = min (largest 0 parameters.positional + 1) (2 ^ 32 - 1)

abbrev mutual
  -- `parameter_value_matches_schema`, of the type and the nullability that it reads
  pub value_matches : ParameterValue → DataType → Bool → Bool
  value_matches null_value data_type nullable = nullable
  value_matches (boolean_value b) boolean nullable = true
  value_matches (int64_value i) int32 nullable = true
  value_matches (int64_value i) int64 nullable = true
  value_matches (float64_value text) float64 nullable = true
  value_matches (float64_value text) (decimal precision scale) nullable = true
  value_matches (utf8_value text) utf8 nullable = true
  value_matches (uuid_value text) uuid nullable = true
  value_matches (json_value text) json nullable = true
  value_matches (list_value values) (list item) nullable = values_match values item nullable
  value_matches _ _ _ = false

  pub values_match : ParameterValues → DataType → Bool → Bool
  values_match no_values data_type nullable = true
  values_match (more_values v vs) data_type nullable =
      value_matches v data_type nullable && values_match vs data_type nullable

abbrev pub parameter_value_matches_schema : ParameterValue → ParameterSchema → Bool
parameter_value_matches_schema value schema = value_matches value schema.data_type schema.nullable

abbrev pub is_null_value : ParameterValue → Bool
is_null_value null_value = true
is_null_value _ = false

abbrev pub show_scale : ℤ → String
show_scale (pos n) = show_number n
show_scale (negsuc n) = text_append "-" (show_number (suc n))

-- `render_data_type` of bind/helpers.rs
abbrev pub render_data_type : DataType → String
render_data_type boolean = "BOOLEAN"
render_data_type int32 = "INT32"
render_data_type int64 = "INT64"
render_data_type float64 = "FLOAT64"
render_data_type utf8 = "UTF8"
render_data_type uuid = "UUID"
render_data_type json = "JSON"
render_data_type date = "DATE"
render_data_type (decimal precision scale) =
    text_append "DECIMAL("
      (text_append (show_number precision) (text_append "," (text_append (show_scale scale) ")")))
render_data_type (timestamp none) = "TIMESTAMP"
render_data_type (timestamp (some timezone)) = text_append "TIMESTAMP(" (text_append timezone ")")
render_data_type (list item) = text_append "LIST<" (text_append (render_data_type item) ">")
render_data_type (struct _) = "STRUCT"
render_data_type unknown = "UNKNOWN"
