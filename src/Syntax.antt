-- ===== src/Syntax.antt =====
-- The data that the compiler's stages share: source spans, logical types, the syntax tree of a
-- query, and the parsed query with its diagnostics and errors.
pub mod Span
pub mod Types
pub mod Tree
pub mod Parsed
pub mod Common
pub mod Parameters
pub mod Bound
pub mod Widening
pub mod Samples
mod Examples
