-- ===== src/Budget/Steps.antt =====
-- How a usage grows by the totals of the parts that are measured: the rules by which
-- Budget/Agree.antt follows the measuring functions.
use queryfabric.Base.{arith, max, ℕ, ◌+◌, ◌≡◌, ◌≤◌}
use queryfabric.Budget.Measure.{QueryBudgetUsage, add_node, merge, one_node}
use queryfabric.Budget.Totals.{
  Totals, declaring, deeper, entry, node_over, nothing, one_join, repeating, ◌⊕◌,
}

-- What a part with totals `t`, measured at depth `d`, adds to a usage.
pub record Adds (before : QueryBudgetUsage) (t : Totals) (d : ℕ) (after : QueryBudgetUsage)
    : Type 0 where
  pub nodes : after.syntax_nodes ≡ before.syntax_nodes + t.nodes
  pub joins : after.joins ≡ before.joins + t.joins
  pub ctes : after.ctes ≡ before.ctes + (t.ctes + t.repeated)
  pub depth : after.nesting_depth + 1 ≡ max (before.nesting_depth + 1) (d + t.levels)

-- What the usage of one part is, measured at depth `d`.
pub record IsTotal (t : Totals) (d : ℕ) (usage : QueryBudgetUsage) : Type 0 where
  pub nodes : usage.syntax_nodes ≡ t.nodes
  pub joins : usage.joins ≡ t.joins
  pub ctes : usage.ctes ≡ t.ctes + t.repeated
  pub depth : usage.nesting_depth + 1 ≡ d + t.levels

-- `before` is measured on to `after` by a part, if the depth is at most one below it.
abbrev pub Step : Totals → ℕ → QueryBudgetUsage → QueryBudgetUsage → Type 0
Step t d before after = d ≤ before.nesting_depth + 1 → Adds before t d after

pub both :
    {s t : Totals} {d : ℕ} {a b c : QueryBudgetUsage}
    → Step s d a b
    → Step t d b c
    → Step (s ⊕ t) d a c
both f g h = let p = f h in omega (arith, p, g (omega (arith, p)))

pub both_of_total :
    {s t : Totals} {d : ℕ} {a b : QueryBudgetUsage}
    → IsTotal s d a
    → Step t d a b
    → IsTotal (s ⊕ t) d b
both_of_total p f = omega (arith, p, f (omega (arith, p)))

pub one_entry :
    {t : Totals} {d : ℕ} (a : QueryBudgetUsage) {b : QueryBudgetUsage}
    → Step t d (add_node a) b
    → Step (entry t) d a b
one_entry a f h = omega (arith, f h)

pub counted_join :
    {t : Totals} {d : ℕ} (a : QueryBudgetUsage) {b : QueryBudgetUsage}
    → Step t d (record a { joins = a.joins + 1; syntax_nodes = a.syntax_nodes + 1 }) b
    → Step (one_join t) d a b
counted_join a f h = omega (arith, f h)

pub below_node :
    {t : Totals} (d : ℕ) {b : QueryBudgetUsage}
    → Step t (d + 1) (one_node d) b
    → IsTotal (node_over t) d b
below_node d f = omega (arith, f (omega arith))

pub beside_node :
    {t : Totals} (d : ℕ) {b : QueryBudgetUsage}
    → Step t d (one_node d) b
    → IsTotal (node_over nothing ⊕ t) d b
beside_node d f = omega (arith, f (omega arith))

pub merged :
    {t : Totals} {d : ℕ} (a : QueryBudgetUsage) {b : QueryBudgetUsage}
    → IsTotal t d b
    → Step t d a (merge a b 0)
unfolding merge
merged a p h = omega (arith, p)

pub merged_query :
    {t : Totals} (d : ℕ) (a : QueryBudgetUsage) {b : QueryBudgetUsage}
    → IsTotal t 1 b
    → Step (deeper t) (d + 1) a (merge a b (d + 1))
unfolding merge
merged_query d a p h = omega (arith, p)

pub query_below :
    {t : Totals} (d : ℕ) {b : QueryBudgetUsage}
    → IsTotal t 1 b
    → IsTotal (node_over (deeper t)) d (merge (one_node d) b (d + 1))
unfolding merge
query_below d p = omega (arith, p)

pub merged_cte :
    {t : Totals} (a : QueryBudgetUsage) {b : QueryBudgetUsage}
    → IsTotal t 0 b
    → Step t 1 a (merge a b 1)
unfolding merge
merged_cte a p h = omega (arith, p)

pub repeated :
    {t : Totals} (n : ℕ) {b : QueryBudgetUsage}
    → IsTotal t 1 b
    → IsTotal (repeating n t) 0 (merge (record (one_node 0) { ctes = n }) b 1)
unfolding merge
repeated n p = omega (arith, p)

pub declared :
    {t : Totals} (n : ℕ) {b : QueryBudgetUsage}
    → Step t 1 (record (one_node 0) { ctes = n }) b
    → IsTotal (declaring n t) 1 b
declared n f = omega (arith, f (omega arith))

pub leaf : (d : ℕ) → IsTotal (node_over nothing) d (one_node d)
leaf d = omega arith

pub unchanged : {d : ℕ} (a : QueryBudgetUsage) → Step nothing d a a
unchanged a h = omega arith
