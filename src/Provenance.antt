-- ===== src/Provenance.antt =====
-- crates/queryfabric-provenance: the log of what happened to a resource and its store in memory, and
-- the data rights of crates/queryfabric-access/src/rights.rs that write to it.
pub mod Entry
pub mod Store
pub mod History
pub mod Rights
pub mod Trail
mod Examples
