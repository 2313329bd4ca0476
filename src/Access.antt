-- ===== src/Access.antt =====
-- Access to resources: the decision of crates/queryfabric-access/src/decision.rs over the facts that an
-- ownership source gives, and the source in memory of crates/queryfabric-tenancy/src/ownership.rs.
pub mod Decision
pub mod Tiers
pub mod Ownership
pub mod Grants
mod Examples
