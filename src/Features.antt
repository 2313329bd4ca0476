-- ===== src/Features.antt =====
-- crates/queryfabric-catalog/src/features.rs: the features that a plan uses, read off the syntax tree or
-- the bound tree, and the requirements that follow for a backend.
pub mod Model
pub mod Syntactic
pub mod Bound
pub mod Requirements
pub mod Calls
pub mod Called
pub mod Required
mod Examples
