-- ===== src/State/Store.antt =====
-- crates/suwappudb-state/src/store.rs: the interface of a balance store, and the in-memory store.
pub mod Interface
pub mod InMemory
