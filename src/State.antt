-- ===== src/State.antt =====
-- The crate `crates/suwappudb-state`: addresses and slots, the balance store and its interface,
-- the canonical state and the two projections of it, snapshots, and the graph of blocks.
pub mod Address
pub mod Nonce
pub mod Slot
pub mod Store
pub mod Canonical
pub mod Projector
pub mod Move
pub mod Snapshot
pub mod Dag
