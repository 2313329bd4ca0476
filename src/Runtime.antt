-- ===== src/Runtime.antt =====
-- crates/queryfabric-runtime: the mode that a query runs in.
pub mod Mode
pub mod Escalation
mod Examples
