-- ===== src/Relationships.antt =====
-- src/adr_kit/compiler/passes/derive_relationships.py: the relationships and gaps of a set of ADRs.
pub mod Documents
pub mod State
pub mod Bindings
pub mod Logical
pub mod Physical
pub mod Derive
pub mod Integrity
pub mod Duality
mod Keeps
mod Traversal
mod Tests
