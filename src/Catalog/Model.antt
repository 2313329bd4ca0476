-- ===== src/Catalog/Model.antt =====
-- The schemas and the `Catalog` trait of crates/queryfabric-catalog/src/model.rs.
use queryfabric.Base.{Bool, List, Option, String, false, lookup, map, none, some, string_eq, ◌==◌}
use queryfabric.Syntax.Types.{DataType, FieldMetadata, ResultField, result_field}
use queryfabric.Syntax.Bound.{ResultSchema, schema_of}

pub data RelationKind : Type 0 where
  base_table view materialized_view : RelationKind

pub record ColumnSchema : Type 0 where
  pub name : String
  pub data_type : DataType
  pub nullable : Bool
  pub metadata : FieldMetadata

-- `ColumnSchema::to_result_field`
abbrev pub to_result_field : ColumnSchema → ResultField
to_result_field column = result_field column.name column.data_type column.nullable column.metadata

pub record RelationSchema : Type 0 where
  pub namespace : Option String
  pub name : String
  pub aliases : List String
  pub kind : RelationKind
  pub columns : List ColumnSchema
  pub metadata : List (String × String)

-- `RelationSchema::to_result_schema`
abbrev pub to_result_schema : RelationSchema → ResultSchema
to_result_schema relation = schema_of (map to_result_field relation.columns)

pub data FunctionKind : Type 0 where
  scalar aggregate window : FunctionKind

pub data FunctionVolatility : Type 0 where
  immutable stable volatile : FunctionVolatility

pub record TypeCoercionRule : Type 0 where
  pub from_type : DataType
  pub to_type : DataType
  pub implicit : Bool

pub record BackendFunctionMapping : Type 0 where
  pub backend : String
  pub namespace : Option String
  pub name : String

pub record FunctionSignature : Type 0 where
  pub namespace : Option String
  pub name : String
  pub kind : FunctionKind
  pub volatility : FunctionVolatility
  pub arg_types : List DataType
  pub return_type : DataType
  pub variadic : Bool
  pub coercions : List TypeCoercionRule
  pub backend_mappings : List BackendFunctionMapping
  pub metadata : List (String × String)

-- `FunctionSignature::metadata_flag`
unfoldable pub metadata_flag : FunctionSignature → String → Bool
metadata_flag signature key = elim (lookup key signature.metadata) [
  | none ↦ false
  | some value ↦ value == "true"
]

-- The methods of the traits `FunctionRegistry` and `Catalog` that a binder calls.
pub record Catalog : Type 0 where
  pub snapshot_id : String
  pub resolve_relation : Option String → String → Option RelationSchema
  pub resolve_function : Option String → String → Option FunctionSignature
