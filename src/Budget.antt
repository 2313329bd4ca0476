-- ===== src/Budget.antt =====
-- crates/queryfabric-ir/src/budget.rs: the compilation budget of a parsed query. `Measure` walks the
-- tree as `measure_query` and its helpers do; a `usize` is a ℕ, since a counter is bounded by the
-- size of a tree in memory. `Totals` is the reference that the measure is compared with.
pub mod Measure
pub mod Totals
mod Steps
mod Agree
pub mod Check
pub mod Bounds
mod Examples
