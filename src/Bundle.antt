-- ===== src/Bundle.antt =====
-- Intent bundles, crates/suwappudb-bridge/src/bundle: the types, the atomic executor of transfer
-- bundles, and the executor with a Move runtime.
pub mod Types
pub mod Registry
pub mod Snapshot
pub mod Executor
pub mod Atomicity
pub mod Outcomes
pub mod Residue
pub mod MoveRuntime
