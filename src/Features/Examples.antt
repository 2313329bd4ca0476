-- ===== src/Features/Examples.antt =====
-- The requirements of a plan with one call.
use queryfabric.Base.{[], false, none, string_eq, true, ◌≡◌}
use queryfabric.Syntax.Types.{int64}
use queryfabric.Syntax.Tree.{FunctionRef}
use queryfabric.Syntax.Samples.{at}
use queryfabric.Syntax.Bound.{
  BoundExpr, BoundQueryPlan, bound_expr, bound_function, bound_function_call, bound_plan,
  bound_select, bound_selection, bound_wildcard, more_bound_items, no_bound, no_bound_ctes,
  no_bound_items, no_bound_orders, no_bound_tables, no_bound_window, no_bounds, schema_of,
  some_bound,
}
use queryfabric.Catalog.Model.{Catalog}
use queryfabric.Features.Model.{is_recorded}
use queryfabric.Features.Requirements.{capability_requirements_from_plan}
use queryfabric.Features.Required.{capability_requirements-calls}
use queryfabric.Features.Calls.{plan_calls}

abbrev no_catalog : Catalog
no_catalog = record {
  snapshot_id = "none";
  resolve_relation = λ _ _. none;
  resolve_function = λ _ _. none;
}

abbrev count : FunctionRef
count = record { namespace = none; name = "count" }

abbrev count_call : BoundExpr
count_call =
    bound_expr
      (bound_function
        (bound_function_call count none no_bounds false no_bound no_bound_window none))
      int64 false (at "c")

abbrev count_plan : BoundQueryPlan
count_plan =
    bound_plan (at "q") no_bound_ctes
      (bound_select (
        bound_selection false (more_bound_items (bound_wildcard none [] (at "w")) no_bound_items)
          no_bound_tables (some_bound count_call) no_bounds no_bound (schema_of []) (at "s")))
      no_bound_orders no_bound no_bound [] (schema_of [])

capability_requirements-calls_example :
    is_recorded count
      (capability_requirements_from_plan no_catalog count_plan true).referenced_functions
    ≡ plan_calls count count_plan
capability_requirements-calls_example =
    capability_requirements-calls no_catalog count count_plan true
