-- ===== src/Cluster.antt =====
-- crates/queryfabric-cluster: the circuit breaker and the sweeps of the health monitor, and the registry that
-- routes resources to clusters.
pub mod Circuit
pub mod Breaker
pub mod Cooldown
pub mod Monitor
pub mod Sweep
pub mod Routing
pub mod Locality
pub mod Delegation
pub mod Reset
mod Examples
