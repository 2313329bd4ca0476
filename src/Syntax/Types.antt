-- ===== src/Syntax/Types.antt =====
-- crates/queryfabric-ir/src/types.rs and the leaf types of crates/queryfabric-ir/src/syntax.rs: logical
-- types, field metadata, parameter and function references, literals and operators. An `i8` or `i64`
-- is a ℤ, and a `BTreeMap` is an association list.
use queryfabric.Base.{ℕ, ℤ, String, Bool, List, Option, true, false, String-discrete, ℕ_discrete}

pub record FieldMetadata : Type 0 where
  pub unit : Option String
  pub coordinate_reference_system : Option String
  pub ontology_id : Option String
  pub modality : Option String
  pub provenance : Option String
  pub measurement_scale : Option String
  pub shape : List ℕ
  pub extensions : List (String × String)

-- `List(Box<DataType>)` and `Struct(Vec<ResultField>)` hold types again, so the fields and their
-- vector stand in the same block.
mutual
  pub data DataType : Type 0 where
    boolean int32 int64 float64 utf8 uuid json date : DataType
    decimal : (precision : ℕ) (scale : ℤ) → DataType
    timestamp : (timezone : Option String) → DataType
    list : DataType → DataType
    struct : ResultFields → DataType
    unknown : DataType

  pub data ResultField : Type 0 where
    result_field :
        (name : String) (data_type : DataType) (nullable : Bool) (metadata : FieldMetadata)
        → ResultField

  pub data ResultFields : Type 0 where
    no_fields : ResultFields
    more_fields : ResultField → ResultFields → ResultFields

-- The derived `PartialEq`.
unfoldable pub DataType-discrete : Discrete DataType
DataType-discrete = hlevel (ℕ_discrete, String-discrete)

unfoldable pub is_unknown : DataType → Bool
is_unknown unknown = true
is_unknown _ = false

unfoldable pub is_numeric : DataType → Bool
is_numeric int32 = true
is_numeric int64 = true
is_numeric float64 = true
is_numeric (decimal precision scale) = true
is_numeric _ = false
