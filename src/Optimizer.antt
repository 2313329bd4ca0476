-- ===== src/Optimizer.antt =====
-- crates/queryfabric-opt/src/syntax.rs: rewriting a syntax tree, and splitting and joining conjunctions.
pub mod Transform
mod Identity
mod Compose
pub mod Selections
pub mod Replaced
pub mod Conjuncts
pub mod Overrides
mod Examples
