-- ===== src/Catalog/Builtins.antt =====
-- crates/queryfabric-catalog/src/builtins.rs: the functions that every catalog knows.
use queryfabric.Base.{
  Bool, List, Option, String, [], false, if◌then◌else◌, insert, none, some, string_eq, true, ◌&&◌,
  ◌==◌, ◌∷◌,
}
use queryfabric.Base.Ascii.{eq_ignore_ascii_case}
use queryfabric.Syntax.Types.{DataType, float64, int64, unknown, utf8}
use queryfabric.Catalog.Model.{
  BackendFunctionMapping, FunctionSignature, aggregate, immutable, scalar, window,
}

abbrev pub mapping : String → String → BackendFunctionMapping
mapping backend name = record { backend = backend; namespace = none; name = name }

abbrev pub builtin_scalar : String → DataType → Bool → FunctionSignature
builtin_scalar name return_type variadic = record {
  namespace = none;
  name = name;
  kind = scalar;
  volatility = immutable;
  arg_types = [];
  return_type = return_type;
  variadic = variadic;
  coercions = [];
  backend_mappings = mapping "clickhouse" name ∷ mapping "postgres" name ∷ [];
  metadata = [];
}

abbrev pub builtin_aggregate : String → DataType → FunctionSignature
builtin_aggregate name return_type = record (builtin_scalar name return_type true) {
  kind = aggregate;
}

abbrev pub builtin_window : String → DataType → FunctionSignature
builtin_window name return_type = record (builtin_scalar name return_type true) { kind = window }

abbrev pub builtin_clickhouse_scalar : String → DataType → Bool → FunctionSignature
builtin_clickhouse_scalar name return_type variadic =
    record (builtin_scalar name return_type variadic) {
      backend_mappings = mapping "clickhouse" name ∷ [];
    }

abbrev pub builtin_clickhouse_aggregate : String → DataType → FunctionSignature
builtin_clickhouse_aggregate name return_type = record (builtin_aggregate name return_type) {
  backend_mappings = mapping "clickhouse" name ∷ [];
}

abbrev pub builtin_clickhouse_extension : String → String → String → DataType → FunctionSignature
builtin_clickhouse_extension namespace name clickhouse_name return_type =
    record (builtin_aggregate name return_type) {
      namespace = some namespace;
      backend_mappings = mapping "clickhouse" clickhouse_name ∷ [];
    }

abbrev pub with_args : FunctionSignature → List DataType → FunctionSignature
with_args signature arg_types = record signature { arg_types = arg_types }

abbrev pub with_metadata_flag : FunctionSignature → String → FunctionSignature
with_metadata_flag signature key = record signature {
  metadata = insert key "true" signature.metadata;
}

unfoldable pub portable_builtin_functions : List FunctionSignature
portable_builtin_functions =
    builtin_scalar "coalesce" unknown true
    ∷ with_args (builtin_scalar "sqrt" float64 false) (float64 ∷ [])
    ∷ builtin_clickhouse_scalar "toString" utf8 false
    ∷ builtin_scalar "greatest" unknown true
    ∷ builtin_scalar "least" unknown true
    ∷ builtin_aggregate "count" int64
    ∷ builtin_aggregate "sum" float64
    ∷ builtin_aggregate "avg" float64
    ∷ builtin_aggregate "min" unknown
    ∷ builtin_aggregate "max" unknown
    ∷ builtin_window "rank" int64
    ∷ builtin_window "dense_rank" int64
    ∷ builtin_window "row_number" int64
    ∷ builtin_window "lag" unknown
    ∷ builtin_window "lead" unknown
    ∷ builtin_window "first_value" unknown
    ∷ builtin_window "last_value" unknown
    ∷ with_metadata_flag (builtin_clickhouse_aggregate "quantile" float64) "approximate"
    ∷ with_metadata_flag (builtin_clickhouse_extension "ch" "quantile_25" "quantile(0.25)" float64)
        "approximate"
    ∷ with_metadata_flag (builtin_clickhouse_extension "ch" "quantile_50" "quantile(0.5)" float64)
        "approximate"
    ∷ with_metadata_flag (builtin_clickhouse_extension "ch" "quantile_75" "quantile(0.75)" float64)
        "approximate"
    ∷ with_metadata_flag (builtin_clickhouse_extension "ch" "avg_merge" "avgMerge" float64) "state"
    ∷ with_metadata_flag (builtin_clickhouse_extension "ch" "count_merge" "countMerge" int64)
        "state"
    ∷ with_metadata_flag (builtin_clickhouse_extension "ch" "min_merge" "minMerge" unknown) "state"
    ∷ with_metadata_flag (builtin_clickhouse_extension "ch" "max_merge" "maxMerge" unknown) "state"
    ∷ with_metadata_flag
        (builtin_clickhouse_extension "ch" "stddevpop_merge" "stddevPopMerge" float64) "state"
    ∷ with_metadata_flag (builtin_clickhouse_extension "ch" "sum_merge" "sumMerge" float64) "state"
    ∷ with_metadata_flag (builtin_clickhouse_extension "ch" "varpop_merge" "varPopMerge" float64)
        "state"
    ∷ []

-- `signature.namespace.as_deref() == namespace`
abbrev pub same_namespace : Option String → Option String → Bool
same_namespace none none = true
same_namespace (some m) (some n) = m == n
same_namespace m n = false

-- The first of the signatures with the namespace and the name, in any case of its letters.
abbrev pub find_signature :
    Option String → String → List FunctionSignature → Option FunctionSignature
find_signature namespace name [] = none
find_signature namespace name (s ∷ ss) =
    if same_namespace s.namespace namespace && eq_ignore_ascii_case s.name name
    then some s
    else find_signature namespace name ss

unfoldable pub builtin_function_signature : Option String → String → Option FunctionSignature
unfolding portable_builtin_functions eq_ignore_ascii_case
builtin_function_signature namespace name = find_signature namespace name portable_builtin_functions
