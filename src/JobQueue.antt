-- ===== src/JobQueue.antt =====
-- crates/queryfabric-job-queue: the dispatcher of `priority.rs`.
pub mod Runner
pub mod Pending
pub mod Invariant
pub mod Order
pub mod Cancel
mod Examples
