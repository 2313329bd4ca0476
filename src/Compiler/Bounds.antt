-- ===== src/Compiler/Bounds.antt =====
-- The size of every query that a compiler returns.
use Prim.Native.String.{len as byte_len}
use queryfabric.Base.{String, arith, subst, ◌+◌, ◌≡◌, ◌≤◌}
use queryfabric.Syntax.Parsed.{chain_ok, ParsedQuery, ok, ok-injective}
use queryfabric.Budget.Check.{check, for_parsed}
use queryfabric.Budget.Totals.{total_query}
use queryfabric.Budget.Bounds.{check_iff, measure_query-total}
use queryfabric.Compiler.{Dialect, QueryCompiler, parse}

-- A compiler returns just what the dialect parsed, and only a query whose text and totals are within
-- its budget; the CTE limit bounds the sum of the declared and the repeated ones.
pub parse-bounded :
    (c : QueryCompiler) (dialect : Dialect) (input : String) (parsed : ParsedQuery)
    → parse c dialect input ≡ ok parsed
    → let t = total_query parsed.syntax in
      (dialect input ≡ ok parsed)
      × (byte_len parsed.source_sql ≤ c.budget.max_input_bytes)
      × (t.nodes ≤ c.budget.max_syntax_nodes)
      × (t.levels ≤ c.budget.max_nesting_depth)
      × (t.joins ≤ c.budget.max_joins)
      × (t.ctes + t.repeated ≤ c.budget.max_ctes)
unfolding parse for_parsed
parse-bounded c dialect input parsed h =
    let (p, parses, rest) = chain_ok (dialect input) _ h in
    let (_, passes, same) = chain_ok (check c.budget (for_parsed p)) _ rest in
    let e : p ≡ parsed = ok-injective same in
    let within = (check_iff c.budget (for_parsed p)).0 passes in
    let total = measure_query-total p.syntax in
    subst
      (λ r.
        let t = total_query r.syntax in
        (dialect input ≡ ok r)
        × (byte_len r.source_sql ≤ c.budget.max_input_bytes)
        × (t.nodes ≤ c.budget.max_syntax_nodes)
        × (t.levels ≤ c.budget.max_nesting_depth)
        × (t.joins ≤ c.budget.max_joins)
        × (t.ctes + t.repeated ≤ c.budget.max_ctes))
      e
      (
        parses,
        within.0,
        omega (arith, within, total),
        omega (arith, within, total),
        omega (arith, within, total),
        omega (arith, within, total),
      )
