-- ===== src/Features/Model.antt =====
-- `PlanFeatures` of crates/queryfabric-catalog/src/features.rs and its merge. The set of functions is a list
-- without repetitions.
use queryfabric.Base.{
  Bool, List, Option, String, [], false, if◌then◌else◌, none, some, some_of, string_eq, true, ◌&&◌,
  ◌++◌, ◌==◌, ◌||◌, ◌∷◌,
}
use queryfabric.Syntax.Tree.{BackendClause, FunctionRef, click_house_format, click_house_settings}

pub record PlanFeatures : Type 0 where
  pub has_ctes : Bool
  pub has_recursive_ctes : Bool
  pub has_derived_tables : Bool
  pub has_joins : Bool
  pub has_windows : Bool
  pub has_set_operations : Bool
  pub has_aggregates : Bool
  pub has_distinct_aggregates : Bool
  pub has_scalar_subqueries : Bool
  pub has_in_subqueries : Bool
  pub has_clickhouse_settings : Bool
  pub has_clickhouse_format : Bool
  pub has_limit_offset : Bool
  pub unsupported_set_ops : List String
  pub functions : List FunctionRef

-- `PlanFeatures::default()`
abbrev pub no_features : PlanFeatures
no_features = record {
  has_ctes = false;
  has_recursive_ctes = false;
  has_derived_tables = false;
  has_joins = false;
  has_windows = false;
  has_set_operations = false;
  has_aggregates = false;
  has_distinct_aggregates = false;
  has_scalar_subqueries = false;
  has_in_subqueries = false;
  has_clickhouse_settings = false;
  has_clickhouse_format = false;
  has_limit_offset = false;
  unsupported_set_ops = [];
  functions = [];
}

abbrev pub same_option : Option String → Option String → Bool
same_option none none = true
same_option (some s) (some t) = s == t
same_option s t = false

abbrev pub same_function : FunctionRef → FunctionRef → Bool
same_function f g = same_option f.namespace g.namespace && f.name == g.name

abbrev pub is_recorded : FunctionRef → List FunctionRef → Bool
is_recorded f fs = some_of (same_function f) fs

-- `functions.insert(f)`
abbrev pub insert_function : FunctionRef → List FunctionRef → List FunctionRef
insert_function f fs = if is_recorded f fs then fs else fs ++ f ∷ []

-- `functions.extend(other)`
abbrev pub extend_functions : List FunctionRef → List FunctionRef → List FunctionRef
extend_functions fs [] = fs
extend_functions fs (g ∷ gs) = extend_functions (insert_function g fs) gs

unfoldable pub merge_plan_features : PlanFeatures → PlanFeatures → PlanFeatures
merge_plan_features target other = record {
  has_ctes = target.has_ctes || other.has_ctes;
  has_recursive_ctes = target.has_recursive_ctes || other.has_recursive_ctes;
  has_derived_tables = target.has_derived_tables || other.has_derived_tables;
  has_joins = target.has_joins || other.has_joins;
  has_windows = target.has_windows || other.has_windows;
  has_set_operations = target.has_set_operations || other.has_set_operations;
  has_aggregates = target.has_aggregates || other.has_aggregates;
  has_distinct_aggregates = target.has_distinct_aggregates || other.has_distinct_aggregates;
  has_scalar_subqueries = target.has_scalar_subqueries || other.has_scalar_subqueries;
  has_in_subqueries = target.has_in_subqueries || other.has_in_subqueries;
  has_clickhouse_settings = target.has_clickhouse_settings || other.has_clickhouse_settings;
  has_clickhouse_format = target.has_clickhouse_format || other.has_clickhouse_format;
  has_limit_offset = target.has_limit_offset || other.has_limit_offset;
  unsupported_set_ops = target.unsupported_set_ops ++ other.unsupported_set_ops;
  functions = extend_functions target.functions other.functions;
}

-- `clauses.iter().any(|clause| matches!(clause, ClickHouseSettings))`
abbrev pub any_settings : List BackendClause → Bool
any_settings [] = false
any_settings (click_house_settings text node ∷ clauses) = true
any_settings (click_house_format text node ∷ clauses) = any_settings clauses

abbrev pub any_format : List BackendClause → Bool
any_format [] = false
any_format (click_house_settings text node ∷ clauses) = any_format clauses
any_format (click_house_format text node ∷ clauses) = true
