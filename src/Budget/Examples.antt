-- ===== src/Budget/Examples.antt =====
-- The budget's measure and check on concrete queries.
use queryfabric.Base.{refl, ◌*◌, ◌+◌, ◌↔◌, ◌≡◌, ◌≤◌}
use queryfabric.Syntax.Samples.{a_and_b, nested_ctes}
use queryfabric.Syntax.Parsed.{
  QueryFabricError, budget_exceeded, ctes, err, input_bytes, joins, nesting_depth, ok, parameters,
  syntax_nodes,
}
use queryfabric.Budget.Measure.{QueryBudgetUsage, measure_expr, measure_query}
use queryfabric.Budget.Totals.{total_expr, total_query}
use queryfabric.Budget.Check.{check, check_limits, default_budget}
use queryfabric.Budget.Bounds.{
  Reports, check-IsFirst, check_iff, measure_expr-total, measure_query-total,
}

-- Two common table expressions are declared, and the measure counts three.
measure_test : measure_query nested_ctes ≡ record {
  input_bytes = 0;
  parameters = 0;
  syntax_nodes = 20;
  nesting_depth = 5;
  joins = 0;
  ctes = 3;
}
unfolding measure_query
measure_test = refl

measure_query-total_example :
    let u = measure_query nested_ctes in
    let t = total_query nested_ctes in
    (u.syntax_nodes ≡ t.nodes)
    × (u.joins ≡ t.joins)
    × (u.nesting_depth ≡ t.levels)
    × (u.ctes ≡ t.ctes + t.repeated)
measure_query-total_example = measure_query-total nested_ctes

measure_expr-total_example :
    let u = measure_expr a_and_b 2 in
    let t = total_expr a_and_b in
    (u.syntax_nodes ≡ t.nodes)
    × (u.joins ≡ t.joins)
    × (u.nesting_depth + 1 ≡ 2 + t.levels)
    × (u.ctes ≡ t.ctes + t.repeated)
measure_expr-total_example = measure_expr-total a_and_b 2

abbrev joins_over : QueryBudgetUsage
joins_over = record {
  input_bytes = 10;
  parameters = 0;
  syntax_nodes = 9;
  nesting_depth = 2;
  joins = 257;
  ctes = 300;
}

abbrev joins_error : QueryFabricError
joins_error = budget_exceeded joins 256 257

check_test : check default_budget joins_over ≡ err joins_error
unfolding check check_limits
check_test = refl

check_iff_example :
    (check default_budget joins_over ≡ ok tt)
    ↔ ((10 ≤ 1024 * 1024) × (0 ≤ 256) × (9 ≤ 10_000) × (2 ≤ 64) × (257 ≤ 256) × (300 ≤ 256))
check_iff_example = check_iff default_budget joins_over

check-IsFirst_example :
    (check default_budget joins_over ≡ err joins_error)
    ↔ Reports input_bytes (1024 * 1024) 10 joins_error (
        Reports parameters 256 0 joins_error (
          Reports syntax_nodes 10_000 9 joins_error (
            Reports nesting_depth 64 2 joins_error
              (Reports joins 256 257 joins_error (Reports ctes 256 300 joins_error ⊥)))))
check-IsFirst_example = check-IsFirst default_budget joins_over joins_error
