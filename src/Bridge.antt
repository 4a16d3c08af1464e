-- ===== src/Bridge.antt =====
-- `Bridge` of crates/suwappudb-bridge/src/lib.rs, the only writer of the canonical state.
pub mod Intent
pub mod Submit
pub mod Transfers
pub mod Supply
pub mod Vm
