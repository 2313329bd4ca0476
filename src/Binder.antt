-- ===== src/Binder.antt =====
-- crates/queryfabric-catalog/src/bind: the binder, which resolves the names of a parsed query against a
-- catalog and gives every expression a type.
pub mod State
pub mod Scope
pub mod Suggest
pub mod Parameters
pub mod Finalize
pub mod Functions
pub mod Remedies
pub mod Rules
pub mod Walk
pub mod Supported
pub mod Safe
pub mod Steps
pub mod Sound
pub mod Validate
pub mod Bindings
pub mod Checked
pub mod Columns
pub mod Agrees
pub mod Widened
pub mod Joins
pub mod Positions
mod Examples
