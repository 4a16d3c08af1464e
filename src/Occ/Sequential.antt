-- ===== src/Occ/Sequential.antt =====
-- A block of transfers that runs in order, against the bridge: `execute_transfer_into` and the
-- sequential fallback of crates/suwappudb-bridge/src/occ/block_executor.rs.
pub mod Reads
pub mod Transfer
pub mod Submits
pub mod Consolidation
pub mod Collapse
