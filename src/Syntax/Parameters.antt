-- ===== src/Syntax/Parameters.antt =====
-- Parameter values and schemas, and what a query requires of a backend: the second half of
-- crates/queryfabric-ir/src/types.rs. A `BTreeMap` is an association list and a `BTreeSet` a list without
-- repetitions. A list of values is a type of its own, in one block with the values.
use Prim.Native.String.{◌++◌ as text_append}
use queryfabric.Base.{
  Bool, List, Option, String, [], if◌then◌else◌, lookup, nat_eq, none, some, string_eq, ℕ, ℤ, ◌∷◌,
}
use queryfabric.Base.Text.{decimal}
use queryfabric.Syntax.Types.{
  DataType, FieldMetadata, ResultField, boolean, float64, int64, is_unknown, json, list,
  result_field, unknown, utf8, uuid,
}
use queryfabric.Syntax.Tree.{FunctionRef, ParameterRef, named, positional}
use queryfabric.Syntax.Common.{reduce_types}

mutual
  pub data ParameterValue : Type 0 where
    null_value : ParameterValue
    boolean_value : Bool → ParameterValue
    int64_value : ℤ → ParameterValue
    float64_value utf8_value uuid_value json_value : String → ParameterValue
    list_value : ParameterValues → ParameterValue

  pub data ParameterValues : Type 0 where
    no_values : ParameterValues
    more_values : ParameterValue → ParameterValues → ParameterValues

unfoldable mutual
  unfolding reduce_types is_unknown

  pub inferred_type : ParameterValue → DataType
  inferred_type null_value = unknown
  inferred_type (boolean_value b) = boolean
  inferred_type (int64_value i) = int64
  inferred_type (float64_value text) = float64
  inferred_type (utf8_value text) = utf8
  inferred_type (uuid_value text) = uuid
  inferred_type (json_value text) = json
  inferred_type (list_value values) = list (reduce_types (known_types values))

  -- The types of the values, less the unknown ones.
  pub known_types : ParameterValues → List DataType
  known_types no_values = []
  known_types (more_values v vs) =
      let ty = inferred_type v in
      let rest = known_types vs in if is_unknown ty then rest else ty ∷ rest

pub record ParameterSchema : Type 0 where
  pub reference : ParameterRef
  pub data_type : DataType
  pub nullable : Bool
  pub metadata : FieldMetadata

pub record ParameterBinding : Type 0 where
  pub schema : ParameterSchema
  pub value : Option ParameterValue

pub record QueryParameters : Type 0 where
  pub positional : List (ℕ × ParameterValue)
  pub named : List (String × ParameterValue)

-- `QueryParameters::lookup`
abbrev pub lookup_parameter : QueryParameters → ParameterRef → Option ParameterValue
lookup_parameter parameters (positional position) = lookup position parameters.positional
lookup_parameter parameters (named name) = lookup name parameters.named

-- `FieldMetadata::default()`
abbrev pub no_metadata : FieldMetadata
no_metadata = record {
  unit = none;
  coordinate_reference_system = none;
  ontology_id = none;
  modality = none;
  provenance = none;
  measurement_scale = none;
  shape = [];
  extensions = [];
}

-- `ResultField::new`
abbrev pub new_field : String → DataType → Bool → ResultField
new_field name data_type nullable = result_field name data_type nullable no_metadata

-- The `Display` of a parameter reference.
abbrev pub show_parameter : ParameterRef → String
show_parameter (positional position) = text_append "$" (decimal position)
show_parameter (named name) = text_append ":" name

-- `FunctionRef::display_name`
abbrev pub display_name : FunctionRef → String
display_name reference = elim reference.namespace [
  | none ↦ reference.name
  | some namespace ↦ text_append namespace (text_append "." reference.name)
]
