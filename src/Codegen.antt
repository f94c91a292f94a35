-- ===== src/Codegen.antt =====
-- rpckit/codegen/names.py: the tree of namespaces that a generated client shows, and the casing of
-- its names.
pub mod Casing
pub mod Merge
pub mod Tree
pub mod View
mod Tests
