-- ===== src/Compiler.antt =====
-- `QueryCompiler` of crates/queryfabric/src/lib.rs, as far as parsing goes. A dialect is a function
-- argument: `Dialect::parse` of a host or of one of the dialect crates. The optimisation pipeline
-- plays no part in parsing and is left out of the record.
pub mod Bounds
mod Examples
use queryfabric.Base.{String}
use queryfabric.Syntax.Parsed.{ParsedQuery, Result, ok, ◌>>=◌, ◌>>◌}
use queryfabric.Budget.Check.{QueryBudget, check, default_budget, for_parsed}

pub record QueryCompiler : Type 0 where
  pub budget : QueryBudget

abbrev pub Dialect : Type 0
Dialect = String → Result ParsedQuery

unfoldable pub new : QueryCompiler
new = record { budget = default_budget }

unfoldable pub with_budget : QueryCompiler → QueryBudget → QueryCompiler
with_budget compiler budget = record compiler { budget = budget }

unfoldable pub parse : QueryCompiler → Dialect → String → Result ParsedQuery
parse compiler dialect input = do
  parsed ← dialect input
  check compiler.budget (for_parsed parsed)
  ok parsed
