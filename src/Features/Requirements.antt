-- ===== src/Features/Requirements.antt =====
-- `CapabilityRequirements` of crates/queryfabric-ir/src/types.rs and `capability_requirements_from_plan` of
-- crates/queryfabric-catalog/src/bind/query.rs. A `BTreeSet` is a list without repetitions.
use queryfabric.Base.{
  Bool, List, Option, String, [], false, if◌then◌else◌, nat_beq, none, not, some, some_of,
  string_eq, true, ℕ, ◌&&◌, ◌++◌, ◌==◌, ◌∷◌,
}
use queryfabric.Syntax.Tree.{FunctionRef}
use queryfabric.Syntax.Bound.{BoundQueryPlan}
use queryfabric.Catalog.Model.{Catalog, FunctionSignature, metadata_flag}
use queryfabric.Features.Model.{PlanFeatures, insert_function}
use queryfabric.Features.Bound.{plan_features_from_bound}

pub data CapabilityRequirement : Type 0 where
  common_table_expressions derived_tables joins windows set_operations : CapabilityRequirement
  aggregates distinct_aggregates scalar_subqueries in_subqueries explain : CapabilityRequirement
  limit_offset namespaced_functions approximate_aggregates : CapabilityRequirement
  backend_specific : String → CapabilityRequirement

-- The variant's place in the enum, and the name that one of them holds.
abbrev pub variant : CapabilityRequirement → ℕ
variant common_table_expressions = 0
variant derived_tables = 1
variant joins = 2
variant windows = 3
variant set_operations = 4
variant aggregates = 5
variant distinct_aggregates = 6
variant scalar_subqueries = 7
variant in_subqueries = 8
variant explain = 9
variant limit_offset = 10
variant namespaced_functions = 11
variant approximate_aggregates = 12
variant (backend_specific name) = 13

abbrev pub backend_name : CapabilityRequirement → String
backend_name (backend_specific name) = name
backend_name _ = ""

pub record CapabilityRequirements : Type 0 where
  pub required : List CapabilityRequirement
  pub referenced_functions : List FunctionRef

abbrev pub same_requirement : CapabilityRequirement → CapabilityRequirement → Bool
same_requirement q r = nat_beq (variant q) (variant r) && backend_name q == backend_name r

abbrev pub is_required : CapabilityRequirement → List CapabilityRequirement → Bool
is_required r rs = some_of (same_requirement r) rs

-- `CapabilityRequirements::require`, when a test holds
unfoldable pub require_if :
    Bool → CapabilityRequirement → CapabilityRequirements → CapabilityRequirements
require_if test r requirements =
    if test && not (is_required r requirements.required)
    then record requirements { required = requirements.required ++ r ∷ [] }
    else requirements

-- `CapabilityRequirements::record_function`
abbrev pub record_function : FunctionRef → CapabilityRequirements → CapabilityRequirements
record_function f requirements = record requirements {
  referenced_functions = insert_function f requirements.referenced_functions;
}

unfoldable pub is_approximate : Option FunctionSignature → Bool
unfolding metadata_flag
is_approximate none = false
is_approximate (some signature) = metadata_flag signature "approximate"

abbrev pub is_namespaced : FunctionRef → Bool
is_namespaced f = elim f.namespace [ none ↦ false | some namespace ↦ true ]

-- The requirements that the flags of the features give.
unfoldable pub flag_requirements : PlanFeatures → Bool → CapabilityRequirements
unfolding require_if
flag_requirements features explained =
    let r0 =
      require_if features.has_ctes common_table_expressions
        (record { required = []; referenced_functions = [] }) in
    let r1 = require_if features.has_derived_tables derived_tables r0 in
    let r2 = require_if features.has_joins joins r1 in
    let r3 = require_if features.has_windows windows r2 in
    let r4 = require_if features.has_set_operations set_operations r3 in
    let r5 = require_if features.has_aggregates aggregates r4 in
    let r6 = require_if features.has_distinct_aggregates distinct_aggregates r5 in
    let r7 = require_if features.has_scalar_subqueries scalar_subqueries r6 in
    let r8 = require_if features.has_in_subqueries in_subqueries r7 in
    let r9 = require_if features.has_limit_offset limit_offset r8 in require_if explained explain r9

module _ (catalog : Catalog) where
  -- The loop over the functions.
  unfoldable pub function_requirements :
      List FunctionRef → CapabilityRequirements → CapabilityRequirements
  unfolding require_if is_approximate
  function_requirements [] requirements = requirements
  function_requirements (f ∷ fs) requirements =
      let named = require_if (is_namespaced f) namespaced_functions requirements in
      let approximate =
        require_if (is_approximate (catalog.resolve_function f.namespace f.name))
          approximate_aggregates named in
      function_requirements fs (record_function f approximate)

  unfoldable pub capability_requirements_from_plan : BoundQueryPlan → Bool → CapabilityRequirements
  unfolding flag_requirements function_requirements plan_features_from_bound
  capability_requirements_from_plan plan explained =
      let features = plan_features_from_bound catalog plan in
      function_requirements features.functions (flag_requirements features explained)
