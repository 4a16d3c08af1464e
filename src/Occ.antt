-- ===== src/Occ.antt =====
-- The optimistic block executor, crates/suwappudb-bridge/src/occ.
pub mod MvStore
pub mod Txn
pub mod Speculation
pub mod Execute
pub mod Schedule
pub mod BlockExecutor
pub mod Sequential
pub mod Serial
