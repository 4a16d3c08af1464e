-- ===== src/Anchor.antt =====
-- crates/suwappudb-bridge/src/anchor: the anchors of a state root on the target chains, the credentials
-- that authenticate them, the log of each chain, and the dispatcher over all chains.
pub mod Types
pub mod Credential
pub mod Log
pub mod Linked
pub mod Dispatcher
pub mod Accepted
