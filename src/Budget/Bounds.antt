-- ===== src/Budget/Bounds.antt =====
-- What crates/queryfabric-ir/src/budget.rs measures of a query, and what its check answers.
use queryfabric.Base.{
  Bool-cases, List, [], arith, inl, inr, ltb, ℕ, ◌+◌, ◌<◌, ◌↔◌, ◌∷◌, ◌≡◌, ◌≤◌, ◌⊎◌,
}
use queryfabric.Syntax.Tree.{SyntaxExpr, SyntaxQuery}
use queryfabric.Syntax.Parsed.{
  QueryBudgetDimension, QueryFabricError, budget_exceeded, ctes, err, input_bytes, joins,
  nesting_depth, ok, parameters, syntax_nodes,
}
use queryfabric.Budget.Measure.{QueryBudgetUsage, measure_expr, measure_query}
use queryfabric.Budget.Totals.{total_expr, total_query}
use queryfabric.Budget.Agree.{measure_expr_lem, measure_query_lem}
use queryfabric.Budget.Check.{
  Limit, QueryBudget, check, check_limits, check_limits_ok, check_limits_within, limits,
}

-- The measure of a query is its reference totals: as many nodes and joins, the nesting depth is the
-- number of levels, and the common table expressions are counted once, but once more where the query
-- of a common table expression declares them.
pub measure_query-total :
    (q : SyntaxQuery)
    → let u = measure_query q in
      let t = total_query q in
      (u.syntax_nodes ≡ t.nodes)
      × (u.joins ≡ t.joins)
      × (u.nesting_depth ≡ t.levels)
      × (u.ctes ≡ t.ctes + t.repeated)
measure_query-total q = omega (arith, measure_query_lem q)

-- An expression measured at depth `d` has the counts of its totals, whatever the depth, and the
-- nesting depth `d` plus one less than its levels.
pub measure_expr-total :
    (e : SyntaxExpr) (d : ℕ)
    → let u = measure_expr e d in
      let t = total_expr e in
      (u.syntax_nodes ≡ t.nodes)
      × (u.joins ≡ t.joins)
      × (u.nesting_depth + 1 ≡ d + t.levels)
      × (u.ctes ≡ t.ctes + t.repeated)
measure_expr-total e d = omega (arith, measure_expr_lem e d)

-- The check passes exactly when all six dimensions are within their limits.
pub check_iff :
    (b : QueryBudget) (u : QueryBudgetUsage)
    → (check b u ≡ ok tt) ↔ (
        (u.input_bytes ≤ b.max_input_bytes)
        × (u.parameters ≤ b.max_parameters)
        × (u.syntax_nodes ≤ b.max_syntax_nodes)
        × (u.nesting_depth ≤ b.max_nesting_depth)
        × (u.joins ≤ b.max_joins)
        × (u.ctes ≤ b.max_ctes))
unfolding check
check_iff b u = (
  λ h. omega (arith, check_limits_ok (limits b u) h),
  λ h. check_limits_within (limits b u) (omega arith),
)

-- A dimension that is over its limit is the error, and otherwise the later ones give it.
abbrev pub Reports : QueryBudgetDimension → (limit actual : ℕ) → QueryFabricError → Type 0 → Type 0
Reports dimension limit actual e Later =
    ((limit < actual) × (e ≡ budget_exceeded dimension limit actual)) ⊎ ((actual ≤ limit) × Later)

check_limits-Reports :
    (l : Limit) (ls : List Limit) (e : QueryFabricError) (Later : Type 0)
    → (check_limits ls ≡ err e) ↔ Later
    → (check_limits (l ∷ ls) ≡ err e) ↔ Reports l.dimension l.limit l.actual e Later
unfolding check_limits
check_limits-Reports l ls e Later later = elim (Bool-cases (ltb l.limit l.actual)) [
  | inl over ↦ ground (arith, over)
  | inr fits ↦ ground (arith, fits, later)
]

-- What the loop reports of the limits.
abbrev FirstOf : List Limit → QueryFabricError → Type 0
FirstOf [] e = ⊥
FirstOf (l ∷ ls) e = Reports l.dimension l.limit l.actual e (FirstOf ls e)

check_no_limits : (e : QueryFabricError) → (check_limits [] ≡ err e) ↔ ⊥
unfolding check_limits
check_no_limits e = ((λ h. cc), (λ h. absurd h))

check_limits-FirstOf :
    (ls : List Limit) (e : QueryFabricError) → (check_limits ls ≡ err e) ↔ FirstOf ls e
check_limits-FirstOf [] e = check_no_limits e
check_limits-FirstOf (l ∷ ls) e =
    check_limits-Reports l ls e (FirstOf ls e) (check_limits-FirstOf ls e)

-- The check fails with an error exactly when it is that of the first dimension over its limit, with
-- the limit and the measured value, in the order input bytes, parameters, syntax nodes, nesting
-- depth, joins and CTEs.
pub check-IsFirst :
    (b : QueryBudget) (u : QueryBudgetUsage) (e : QueryFabricError)
    → (check b u ≡ err e)
      ↔ Reports input_bytes b.max_input_bytes u.input_bytes e (
          Reports parameters b.max_parameters u.parameters e (
            Reports syntax_nodes b.max_syntax_nodes u.syntax_nodes e (
              Reports nesting_depth b.max_nesting_depth u.nesting_depth e
                (Reports joins b.max_joins u.joins e (Reports ctes b.max_ctes u.ctes e ⊥)))))
unfolding check
check-IsFirst b u e = check_limits-FirstOf (limits b u) e
