-- ===== src/Binder/Checked.antt =====
-- What `bind_and_validate` promises of a query that it accepts.
use queryfabric.Base.{
  All, Bool-cases, List, String, arith, false, inl, inr, none, refl, some_of, some_of-append, subst,
  sym, ℕ, ◌↔◌, ◌≡◌,
}
use queryfabric.Syntax.Parsed.{ParsedQuery, chain_ok, ok, ok-injective}
use queryfabric.Syntax.Parameters.{ParameterBinding, QueryParameters}
use queryfabric.Syntax.Bound.{BoundQueryPlan, plan_schema}
use queryfabric.Catalog.Model.{Catalog}
use queryfabric.Binder.State.{BinderState, is_error}
use queryfabric.Binder.Finalize.{finalize_parameters}
use queryfabric.Binder.Supported.{PlanSupported}
use queryfabric.Binder.Safe.{Clean}
use queryfabric.Binder.Sound.{Safe-query}
use queryfabric.Binder.Validate.{
  BoundQuery, all_diagnostics, bind_and_validate, bound_plan_of, new_binder, query_of,
  validate_plan,
}
use queryfabric.Binder.Bindings.{
  Fits, finalize_parameters-Clean, finalize_parameters-Fits, finalize_parameters_iff,
}

abbrev pub IsChecked : QueryParameters → BoundQuery → Type 0
IsChecked given bound =
    PlanSupported bound.plan
    × (some_of is_error bound.diagnostics ≡ false)
    × (bound.schema ≡ plan_schema bound.plan)
    × All (Fits given) bound.parameters

module _ (catalog : Catalog) (to_lowercase : String → List ℕ) where
  -- A plan that was bound without an error diagnostic has no refused node.
  bound_plan_of-PlanSupported :
      (parsed : ParsedQuery) (parameters : QueryParameters)
      → Clean (bound_plan_of catalog to_lowercase parsed parameters).1
      → PlanSupported (bound_plan_of catalog to_lowercase parsed parameters).0
  unfolding bound_plan_of
  bound_plan_of-PlanSupported parsed parameters clean =
      ((Safe-query catalog to_lowercase parsed.syntax none).ensures (new_binder parameters) clean).1

  validate_plan_ok :
      (parsed : ParsedQuery) (parameters : QueryParameters) (plan : BoundQueryPlan)
      (after : BinderState) (bound : BoundQuery)
      → validate_plan catalog to_lowercase parsed parameters plan after ≡ ok bound
      → (some_of is_error (all_diagnostics parsed after) ≡ false)
        × (bindings : List ParameterBinding) × ((finalize_parameters parameters after).0
            ≡ ok bindings)
        × (bound ≡ query_of catalog parsed plan (all_diagnostics parsed after) bindings)
  unfolding validate_plan
  validate_plan_ok parsed parameters plan after bound h =
      elim (Bool-cases (some_of is_error (all_diagnostics parsed after))) [
        | inl bad ↦ cc (rw bad at h)
        | inr good ↦
            let (bindings, done, rest) = chain_ok _ _ (rw good at h) in
            (good, bindings, done, sym (ok-injective rest))
      ]

  -- A query that is accepted has a plan without a refused node, no error among its diagnostics, the
  -- schema of its plan, and parameters of known types with values that fit them.
  pub bind_and_validate-IsChecked :
      (parsed : ParsedQuery) (parameters : QueryParameters) (bound : BoundQuery)
      → bind_and_validate catalog to_lowercase parsed parameters ≡ ok bound
      → IsChecked parameters bound
  unfolding bind_and_validate
  bind_and_validate-IsChecked parsed parameters bound h =
      let (plan, after) = bound_plan_of catalog to_lowercase parsed parameters in
      let (good, bindings, done, same) = validate_plan_ok parsed parameters plan after bound h in
      let split = some_of-append is_error parsed.lowering_diagnostics after.diagnostics in
      let clean = bound_plan_of-PlanSupported parsed parameters (ground (arith, split, good)) in
      let (fit, exactly_these) = finalize_parameters-Fits parameters after bindings done in
      subst (IsChecked parameters) (sym same) (clean, good, refl, fit)

  validate_plan_accepts :
      (parsed : ParsedQuery) (parameters : QueryParameters) (plan : BoundQueryPlan)
      (after : BinderState) (bindings : List ParameterBinding)
      → some_of is_error (all_diagnostics parsed after) ≡ false
      → (finalize_parameters parameters after).0 ≡ ok bindings
      → validate_plan catalog to_lowercase parsed parameters plan after
        ≡ ok (query_of catalog parsed plan (all_diagnostics parsed after) bindings)
  unfolding validate_plan
  validate_plan_accepts parsed parameters plan after bindings good done = rw good (rw done refl)

  -- A query is accepted exactly when neither the parser nor the binder, up to the end of the check of
  -- the parameters, reports an error.
  pub bind_and_validate_iff :
      (parsed : ParsedQuery) (parameters : QueryParameters)
      → ((bound : BoundQuery) × (bind_and_validate catalog to_lowercase parsed parameters
            ≡ ok bound))
        ↔ ((some_of is_error parsed.lowering_diagnostics ≡ false)
            × Clean
                (finalize_parameters parameters
                  (bound_plan_of catalog to_lowercase parsed parameters).1).1)
  unfolding bind_and_validate
  bind_and_validate_iff parsed parameters =
      let (plan, after) = bound_plan_of catalog to_lowercase parsed parameters in
      let split = some_of-append is_error parsed.lowering_diagnostics after.diagnostics in
      (
        λ accepted.
            let (good, bindings, done, same) =
              validate_plan_ok parsed parameters plan after accepted.0 accepted.1 in
            (
              ground (arith, split, good),
              (finalize_parameters_iff parameters after).0 (bindings, done),
            ),
        λ clean.
            let before = finalize_parameters-Clean parameters after clean.1 in
            let (bindings, done) = (finalize_parameters_iff parameters after).1 clean.1 in
            (
              _,
              validate_plan_accepts parsed parameters plan after bindings
                  (ground (arith, split, before, clean.0)) done,
            ),
      )
