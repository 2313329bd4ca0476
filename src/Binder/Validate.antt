-- ===== src/Binder/Validate.antt =====
-- `bind_and_validate` and `infer_result_schema` of crates/queryfabric-catalog/src/bind/mod.rs. The provenance
-- receipt, which carries a hash of a third-party library, is left out.
use queryfabric.Base.{List, String, [], if◌then◌else◌, none, some, some_of, ℕ, ◌++◌}
use queryfabric.Syntax.Parsed.{
  ParsedQuery, QueryDiagnostic, QueryFabricError, Result, bind, err, ok, ◌>>=◌,
}
use queryfabric.Syntax.Parameters.{ParameterBinding, QueryParameters}
use queryfabric.Syntax.Bound.{BoundQueryPlan, ResultSchema, plan_schema}
use queryfabric.Catalog.Model.{Catalog}
use queryfabric.Features.Requirements.{CapabilityRequirements, capability_requirements_from_plan}
use queryfabric.Binder.State.{BinderState, is_error}
use queryfabric.Binder.Parameters.{next_auto_position_seed}
use queryfabric.Binder.Finalize.{finalize_parameters, first_message}
use queryfabric.Binder.Walk.{bind_query}

pub record BoundQuery : Type 0 where
  pub parsed : ParsedQuery
  pub catalog_snapshot : String
  pub parameters : List ParameterBinding
  pub diagnostics : List QueryDiagnostic
  pub capability_requirements : CapabilityRequirements
  pub schema : ResultSchema
  pub plan : BoundQueryPlan

-- `Binder::new`
unfoldable pub new_binder : QueryParameters → BinderState
unfolding next_auto_position_seed
new_binder parameters = record {
  diagnostics = [];
  parameter_constraints = [];
  next_auto_position = next_auto_position_seed parameters;
}

unfoldable pub bind_error : ParsedQuery → List QueryDiagnostic → QueryFabricError
bind_error parsed diagnostics = bind (record {
  message = first_message "binding failed" diagnostics;
  source_sql = some parsed.source_sql;
  dialect = some parsed.dialect;
  diagnostics = diagnostics;
})

-- The diagnostics of the parser and of the binder.
abbrev pub all_diagnostics : ParsedQuery → BinderState → List QueryDiagnostic
all_diagnostics parsed s = parsed.lowering_diagnostics ++ s.diagnostics

abbrev pub query_of :
    Catalog
    → ParsedQuery
    → BoundQueryPlan
    → List QueryDiagnostic
    → List ParameterBinding
    → BoundQuery
query_of catalog parsed plan diagnostics bindings = record {
  parsed = parsed;
  catalog_snapshot = catalog.snapshot_id;
  parameters = bindings;
  diagnostics = diagnostics;
  capability_requirements = capability_requirements_from_plan catalog plan parsed.explain;
  schema = plan_schema plan;
  plan = plan;
}

module _ (catalog : Catalog) (to_lowercase : String → List ℕ) where
  -- The plan and the state of the binder after `binder.bind_query(parsed.syntax(), None)`.
  unfoldable pub bound_plan_of : ParsedQuery → QueryParameters → BoundQueryPlan × BinderState
  unfolding bind_query new_binder
  bound_plan_of parsed parameters =
      bind_query catalog to_lowercase parsed.syntax none (new_binder parameters)

  unfoldable pub validate_plan :
      ParsedQuery → QueryParameters → BoundQueryPlan → BinderState → Result BoundQuery
  unfolding bind_error finalize_parameters capability_requirements_from_plan
  validate_plan parsed parameters plan after =
      if some_of is_error (all_diagnostics parsed after)
      then err (bind_error parsed (all_diagnostics parsed after))
      else ((finalize_parameters parameters after).0 >>= λ bindings.
          ok (query_of catalog parsed plan (all_diagnostics parsed after) bindings))

  unfoldable pub bind_and_validate : ParsedQuery → QueryParameters → Result BoundQuery
  unfolding validate_plan bound_plan_of
  bind_and_validate parsed parameters =
      validate_plan parsed parameters (bound_plan_of parsed parameters).0
        (bound_plan_of parsed parameters).1

  unfoldable pub infer_result_schema : ParsedQuery → Result ResultSchema
  unfolding bind_and_validate
  infer_result_schema parsed =
      bind_and_validate parsed (record { positional = []; named = [] }) >>= λ bound. ok bound.schema
