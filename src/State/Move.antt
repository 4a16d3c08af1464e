-- ===== src/State/Move.antt =====
-- The virtual machine layer of crates/suwappudb-state/src/vm: the types of a Move call, and the
-- module store behind its interface.
pub mod Types
pub mod ModuleStore
pub mod Tx
pub mod Mock
