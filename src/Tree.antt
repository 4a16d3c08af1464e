-- ===== src/Tree.antt =====
-- The state tree, crates/suwappudb-state/src/tree, with the BLAKE3 commitment scheme. The Verkle
-- scheme and its witnesses, which a build feature adds, are not modelled.
pub mod Node
pub mod Commit
pub mod Ops
pub mod Reads
pub mod Shape
pub mod FromState
pub mod Completeness
pub mod Absence
pub mod Preimages
pub mod Openings
pub mod Inclusion
