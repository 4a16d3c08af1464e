-- ===== src/Recovery.antt =====
-- Block storage and recovery by replay, crates/suwappudb-bridge/src/recovery.
pub mod Block
pub mod Codec
pub mod RoundTrip
pub mod Binding
pub mod Store
pub mod Replay
pub mod Chain
pub mod Index
