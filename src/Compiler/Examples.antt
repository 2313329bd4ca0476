-- ===== src/Compiler/Examples.antt =====
-- A compiler with a dialect of one query.
use Prim.Native.String.{len as byte_len}
use queryfabric.Syntax.Parsed.{ParsedQuery, ok, unsupported, with_syntax, new as new_parsed}
use queryfabric.Base.{refl, ◌+◌, ◌≡◌, ◌≤◌}
use queryfabric.Syntax.Span.{whole}
use queryfabric.Syntax.Tree.{some_expr}
use queryfabric.Syntax.Samples.{a_and_b, select_where}
use queryfabric.Budget.Measure.{measure_query}
use queryfabric.Budget.Totals.{total_query}
use queryfabric.Budget.Check.{check, check_limits, for_parsed}
use queryfabric.Compiler.{Dialect, new, parse}
use queryfabric.Compiler.Bounds.{parse-bounded}

abbrev fixed : ParsedQuery
unfolding new_parsed
fixed =
    with_syntax (new_parsed "fixed" "SELECT x" "SELECT x") (select_where "s1" (some_expr a_and_b))

abbrev fixed_dialect : Dialect
fixed_dialect input = ok fixed

parse_test : parse new fixed_dialect "SELECT x" ≡ ok fixed
unfolding parse new for_parsed check check_limits measure_query new_parsed whole unsupported
parse_test = refl

parse-bounded_example :
    let t = total_query fixed.syntax in
    (fixed_dialect "SELECT x" ≡ ok fixed)
    × (byte_len fixed.source_sql ≤ new.budget.max_input_bytes)
    × (t.nodes ≤ new.budget.max_syntax_nodes)
    × (t.levels ≤ new.budget.max_nesting_depth)
    × (t.joins ≤ new.budget.max_joins)
    × (t.ctes + t.repeated ≤ new.budget.max_ctes)
parse-bounded_example = parse-bounded new fixed_dialect "SELECT x" fixed parse_test
