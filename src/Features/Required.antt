-- ===== src/Features/Required.antt =====
-- The functions that a bound query is said to refer to.
use queryfabric.Base.{
  Bool, Bool-cases, List, [], arith, inl, inr, not, refl, ◌&&◌, ◌||◌, ◌∙◌, ◌∷◌, ◌≡◌,
}
use queryfabric.Syntax.Tree.{FunctionRef}
use queryfabric.Syntax.Bound.{BoundQueryPlan}
use queryfabric.Catalog.Model.{Catalog}
use queryfabric.Features.Model.{PlanFeatures, is_recorded}
use queryfabric.Features.Bound.{plan_features_from_bound}
use queryfabric.Features.Requirements.{
  CapabilityRequirement, CapabilityRequirements, aggregates, approximate_aggregates,
  capability_requirements_from_plan, common_table_expressions, derived_tables, distinct_aggregates,
  explain, flag_requirements, function_requirements, in_subqueries, is_approximate, is_namespaced,
  is_required, joins, limit_offset, namespaced_functions, record_function, require_if,
  scalar_subqueries, set_operations, windows,
}
use queryfabric.Features.Called.{is_recorded-insert, plan_features-calls}
use queryfabric.Features.Calls.{plan_calls}

record Silent (requirements : CapabilityRequirements) : Type 0 where
  pub silent : requirements.referenced_functions ≡ []

require_if-functions :
    (test : Bool) (r : CapabilityRequirement) (requirements : CapabilityRequirements)
    → (require_if test r requirements).referenced_functions ≡ requirements.referenced_functions
unfolding require_if
require_if-functions test r requirements =
    elim (Bool-cases (test && not (is_required r requirements.required))) [
      | inl added ↦ rw added refl
      | inr kept ↦ rw kept refl
    ]

require_if-Silent :
    (test : Bool) (r : CapabilityRequirement) (requirements : CapabilityRequirements)
    → Silent requirements
    → Silent (require_if test r requirements)
require_if-Silent test r requirements h = record {
  silent = require_if-functions test r requirements ∙ h.silent;
}

flag_requirements-Silent :
    (f : PlanFeatures) (explained : Bool) → Silent (flag_requirements f explained)
unfolding flag_requirements
flag_requirements-Silent f explained = require_if-Silent explained explain _ (
    require_if-Silent f.has_limit_offset limit_offset _ (
      require_if-Silent f.has_in_subqueries in_subqueries _ (
        require_if-Silent f.has_scalar_subqueries scalar_subqueries _ (
          require_if-Silent f.has_distinct_aggregates distinct_aggregates _ (
            require_if-Silent f.has_aggregates aggregates _ (
              require_if-Silent f.has_set_operations set_operations _ (
                require_if-Silent f.has_windows windows _ (
                  require_if-Silent f.has_joins joins _ (
                    require_if-Silent f.has_derived_tables derived_tables _ (
                      require_if-Silent f.has_ctes common_table_expressions
                        (record { required = []; referenced_functions = [] })
                        (record { silent = refl })))))))))))

module _ (catalog : Catalog) (g : FunctionRef) where
  function_requirements-recorded :
      (fs : List FunctionRef) (requirements : CapabilityRequirements)
      → is_recorded g (function_requirements catalog fs requirements).referenced_functions
        ≡ (is_recorded g requirements.referenced_functions || is_recorded g fs)
  unfolding function_requirements
  function_requirements-recorded [] requirements = ground arith
  function_requirements-recorded (f ∷ fs) requirements =
      let named = require_if (is_namespaced f) namespaced_functions requirements in
      let approximate =
        require_if (is_approximate (catalog.resolve_function f.namespace f.name))
          approximate_aggregates named in
      let same : approximate.referenced_functions ≡ requirements.referenced_functions =
        require_if-functions _ approximate_aggregates named
        ∙ require_if-functions (is_namespaced f) namespaced_functions requirements in
      function_requirements-recorded fs (record_function f approximate)
      ∙ rw same (ground (arith, is_recorded-insert g f requirements.referenced_functions))

  -- A bound query refers to exactly the functions that its plan calls, apart from those in its order,
  -- in its limits, in the conditions of nested joins, and in the filter and the window of a call.
  pub capability_requirements-calls :
      (plan : BoundQueryPlan) (explained : Bool)
      → is_recorded g
          (capability_requirements_from_plan catalog plan explained).referenced_functions
        ≡ plan_calls g plan
  unfolding capability_requirements_from_plan
  capability_requirements-calls plan explained =
      let features = plan_features_from_bound catalog plan in
      function_requirements-recorded features.functions (flag_requirements features explained)
      ∙ rw ((flag_requirements-Silent features explained).silent)
          (plan_features-calls catalog g plan)
