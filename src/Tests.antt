-- ===== src/Tests.antt =====
-- Concrete inputs: runs of the definitions, and the properties applied to them.
mod Data
mod State
mod Bridge
mod Bundle
mod MoveRuntime
mod Coin
mod Tree
mod Occ
mod Recovery
mod Snapshot
mod Dag
mod Anchor
