-- ===== src/Binder/Scope.antt =====
-- crates/queryfabric-catalog/src/bind/scope.rs: the relations that a name may refer to, and the columns
-- found under a name.
use queryfabric.Base.{
  Bool, List, Option, String, [], if◌then◌else◌, map, none, some, some_of, true, ◌++◌, ◌∷◌,
}
use queryfabric.Base.Ascii.{eq_ignore_ascii_case}
use queryfabric.Syntax.Types.{ResultField, result_field}
use queryfabric.Syntax.Bound.{
  BoundJoins, BoundRelation, BoundRelationBinding, BoundTableWithJoins, ResultSchema, bound_join,
  bound_table_with_joins, more_bound_joins, no_bound_joins, relation_binding, schema_of,
}

pub record ScopeEntry : Type 0 where
  pub binding_name : String
  pub schema : ResultSchema

abbrev pub Scope : Type 0
Scope = List ScopeEntry

pub record ResolvedColumn : Type 0 where
  pub relation : Option String
  pub field : ResultField

pub data ColumnResolution : Type 0 where
  local : ResolvedColumn → ColumnResolution
  missing ambiguous : ColumnResolution

-- `Scope::from_output_schema`
abbrev pub from_output_schema : ResultSchema → Scope
from_output_schema schema = record { binding_name = "__output__"; schema = schema } ∷ []

abbrev pub binding_entry : BoundRelationBinding → ScopeEntry
binding_entry binding = record { binding_name = binding.binding_name; schema = binding.schema }

abbrev pub relation_entries : BoundRelation → Scope
relation_entries relation = elim (relation_binding relation) [
  | none ↦ []
  | some binding ↦ binding_entry binding ∷ []
]

-- `Scope::push_relation`
abbrev pub push_relation : Scope → BoundRelation → Scope
push_relation scope relation = scope ++ relation_entries relation

abbrev pub push_joins : Scope → BoundJoins → Scope
push_joins scope no_bound_joins = scope
push_joins scope (more_bound_joins (bound_join kind relation on node) js) =
    push_joins (push_relation scope relation) js

-- `Scope::merge_table`
abbrev pub merge_table : Scope → BoundTableWithJoins → Scope
merge_table scope (bound_table_with_joins relation joins node) =
    push_joins (push_relation scope relation) joins

abbrev pub nullable_field : ResultField → ResultField
nullable_field (result_field name data_type nullable metadata) =
    result_field name data_type true metadata

-- `make_schema_nullable`
abbrev pub make_schema_nullable : ResultSchema → ResultSchema
make_schema_nullable schema = record schema { fields = map nullable_field schema.fields }

abbrev pub nullable_entry : ScopeEntry → ScopeEntry
nullable_entry entry = record entry { schema = make_schema_nullable entry.schema }

-- `Scope::make_all_nullable`
abbrev pub make_all_nullable : Scope → Scope
make_all_nullable scope = map nullable_entry scope

-- `Scope::expand_all`
abbrev pub expand_all : Scope → List ResultField
expand_all [] = []
expand_all (entry ∷ entries) = entry.schema.fields ++ expand_all entries

-- `Scope::expand_qualified`
abbrev pub expand_qualified : Scope → String → Option (List ResultField)
expand_qualified [] qualifier = none
expand_qualified (entry ∷ entries) qualifier =
    if eq_ignore_ascii_case entry.binding_name qualifier
    then some entry.schema.fields
    else expand_qualified entries qualifier

-- `Scope::has_relation`
abbrev pub has_relation : Scope → String → Bool
has_relation scope qualifier =
    some_of (λ (entry : ScopeEntry). eq_ignore_ascii_case entry.binding_name qualifier) scope

abbrev pub field_name : ResultField → String
field_name (result_field name data_type nullable metadata) = name

-- `Scope::relation_column_names`
abbrev pub relation_column_names : Scope → String → Option (List String)
relation_column_names scope qualifier = elim (expand_qualified scope qualifier) [
  | none ↦ none
  | some fields ↦ some (map field_name fields)
]

-- `Scope::all_column_names`
abbrev pub all_column_names : Scope → List String
all_column_names scope = map field_name (expand_all scope)

-- The relation of a reference is that of the entry, when the reference names one.
abbrev pub in_relation : Option String → ScopeEntry → Bool
in_relation none entry = true
in_relation (some relation) entry = eq_ignore_ascii_case entry.binding_name relation

-- The inner loop of `Scope::resolve_column`
abbrev pub field_matches : String → String → List ResultField → List ResolvedColumn
field_matches binding_name name [] = []
field_matches binding_name name (field ∷ fields) =
    let later = field_matches binding_name name fields in
    if eq_ignore_ascii_case (field_name field) name
    then record { relation = some binding_name; field = field } ∷ later
    else later

-- The outer loop of `Scope::resolve_column`
abbrev pub column_matches : Scope → Option String → String → List ResolvedColumn
column_matches [] relation name = []
column_matches (entry ∷ entries) relation name =
    let later = column_matches entries relation name in
    if in_relation relation entry
    then field_matches entry.binding_name name entry.schema.fields ++ later
    else later

abbrev pub resolution_of : List ResolvedColumn → ColumnResolution
resolution_of [] = missing
resolution_of (column ∷ []) = local column
resolution_of (column ∷ _ ∷ _) = ambiguous

unfoldable pub resolve_column : Scope → Option String → String → ColumnResolution
resolve_column scope relation name = resolution_of (column_matches scope relation name)

-- `Scope::try_resolve_column`
unfoldable pub try_resolve_column : Scope → Option String → String → Option ColumnResolution
unfolding resolve_column
try_resolve_column scope relation name = elim (resolve_column scope relation name) [
  | missing ↦ none
  | local column ↦ some (local column)
  | ambiguous ↦ some ambiguous
]

-- `scope_schema_for_table`
abbrev pub relation_fields : BoundRelation → List ResultField
relation_fields relation = elim (relation_binding relation) [
  | none ↦ []
  | some binding ↦ binding.schema.fields
]

abbrev pub join_fields : BoundJoins → List ResultField
join_fields no_bound_joins = []
join_fields (more_bound_joins (bound_join kind relation on node) js) =
    relation_fields relation ++ join_fields js

abbrev pub scope_schema_for_table : BoundTableWithJoins → ResultSchema
scope_schema_for_table (bound_table_with_joins relation joins node) =
    schema_of (relation_fields relation ++ join_fields joins)

-- `outer_scope.and_then(|scope| scope.try_resolve_column(…))`
unfoldable pub outer_resolution : Option Scope → Option String → String → Option ColumnResolution
unfolding try_resolve_column
outer_resolution none relation name = none
outer_resolution (some scope) relation name = try_resolve_column scope relation name
