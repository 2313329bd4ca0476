-- ===== src/Catalog.antt =====
-- crates/queryfabric-catalog: relation and function schemas, the functions built in, the catalog
-- that is asked for them, and the one held in memory.
pub mod Model
pub mod Builtins
pub mod Statistics
pub mod Memory
pub mod Registered
mod Examples
