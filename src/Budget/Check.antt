-- ===== src/Budget/Check.antt =====
-- `QueryBudget` and its check, in crates/queryfabric-ir/src/budget.rs.
use Prim.Native.String.{len as byte_len}
use queryfabric.Base.{
  All, Bool-cases, List, [], ap, arith, if◌then◌else◌, inl, inr, ltb, ltb→lt, refl, ℕ, ◌*◌, ◌++◌,
  ◌<◌, ◌∷◌, ◌≡◌, ◌≤◌,
}
use queryfabric.Syntax.Parsed.{
  ParsedQuery, QueryBudgetDimension, QueryFabricError, Result, budget_exceeded, ctes, err,
  input_bytes, joins, nesting_depth, ok, parameters, syntax_nodes,
}
use queryfabric.Budget.Measure.{QueryBudgetUsage, measure_query}

pub record QueryBudget : Type 0 where
  pub max_input_bytes : ℕ
  pub max_parameters : ℕ
  pub max_syntax_nodes : ℕ
  pub max_nesting_depth : ℕ
  pub max_joins : ℕ
  pub max_ctes : ℕ

-- `QueryBudget::default()`
abbrev pub default_budget : QueryBudget
default_budget = record {
  max_input_bytes = 1024 * 1024;
  max_parameters = 256;
  max_syntax_nodes = 10_000;
  max_nesting_depth = 64;
  max_joins = 256;
  max_ctes = 256;
}

unfoldable pub for_parsed : ParsedQuery → QueryBudgetUsage
for_parsed parsed = record (measure_query parsed.syntax) {
  input_bytes = byte_len parsed.source_sql;
}

unfoldable pub with_parameters : QueryBudgetUsage → ℕ → QueryBudgetUsage
with_parameters usage n = record usage { parameters = n }

pub record Limit : Type 0 where
  pub dimension : QueryBudgetDimension
  pub limit : ℕ
  pub actual : ℕ

-- The array `limits`, in its order.
abbrev pub limits : QueryBudget → QueryBudgetUsage → List Limit
limits b u =
    record { dimension = input_bytes; limit = b.max_input_bytes; actual = u.input_bytes }
    ∷ record { dimension = parameters; limit = b.max_parameters; actual = u.parameters }
    ∷ record { dimension = syntax_nodes; limit = b.max_syntax_nodes; actual = u.syntax_nodes }
    ∷ record { dimension = nesting_depth; limit = b.max_nesting_depth; actual = u.nesting_depth }
    ∷ record { dimension = joins; limit = b.max_joins; actual = u.joins }
    ∷ record { dimension = ctes; limit = b.max_ctes; actual = u.ctes }
    ∷ []

abbrev pub AllWithin : List Limit → Type 0
AllWithin = All (λ l. l.actual ≤ l.limit)

-- The loop over the array.
unfoldable pub check_limits : List Limit → Result (Unit {0})
check_limits [] = ok tt
check_limits (l ∷ ls) =
    if ltb l.limit l.actual
    then err (budget_exceeded l.dimension l.limit l.actual)
    else check_limits ls

unfoldable pub check : QueryBudget → QueryBudgetUsage → Result (Unit {0})
unfolding check_limits
check budget usage = check_limits (limits budget usage)

-- Nothing in front of a limit is exceeded, and the limit is.
abbrev pub IsFirst : List Limit → Limit → Type 0
IsFirst ls l =
    (before after : List Limit) × (ls ≡ before ++ l ∷ after)
    × AllWithin before
    × (l.limit < l.actual)

pub check_limits_ok : (ls : List Limit) → check_limits ls ≡ ok tt → AllWithin ls
unfolding check_limits
check_limits_ok [] h = tt
check_limits_ok (l ∷ ls) h = ground (arith, check_limits_ok ls)

pub check_limits_within : (ls : List Limit) → AllWithin ls → check_limits ls ≡ ok tt
unfolding check_limits
check_limits_within [] h = refl
check_limits_within (l ∷ ls) h = ground (arith, check_limits_within ls h.1)

pub check_limits_err :
    (ls : List Limit) (e : QueryFabricError)
    → check_limits ls ≡ err e
    → (l : Limit) × (e ≡ budget_exceeded l.dimension l.limit l.actual) × IsFirst ls l
unfolding check_limits
check_limits_err [] e h = cc
check_limits_err (l ∷ ls) e h = elim (Bool-cases (ltb l.limit l.actual)) [
  | inl over ↦ (l, ground arith, ([], ls, refl, tt, ltb→lt _ _ over))
  | inr fits ↦
      let (k, shape, (before, after, split, within, over)) = check_limits_err ls e (rw fits at h) in
      (k, shape, (l ∷ before, after, ap (λ r. l ∷ r) split, (ground arith, within), over))
]
