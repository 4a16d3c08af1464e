-- ===== src/Lib.antt =====
-- The verified core of the database: the canonical state, the bridge that writes it, the bundles, the
-- state tree with its proofs, the block executor, and what is kept of a run: the chain of blocks with
-- its replay, the snapshots, the graph of blocks, and the anchors on other chains.
--
-- How the parts interact. A `State` is one balance slot and one blob for each address, over any
-- balance store. Two virtual machines read the same slot. Only the crate of the bridge writes: a
-- transfer moves a balance, and a bundle runs several transfers of either machine, Move calls and
-- deployments as one, with a snapshot that is written back when a step fails. The block executor
-- runs a block of intents speculatively against a store of versions, validates what each run has
-- read, runs the stale ones again, and writes the highest version of each address. The tree
-- commits to the entries of a state and proves what one address holds. A block names the hash of its
-- parent and the state roots before and after it. Recovery reads the stored blocks back, runs
-- each by the block executor, and compares the roots. A snapshot is the state in one string of
-- bytes, and the graph of blocks keeps the parents and children of each block. An anchor carries a
-- state root to another chain: each chain has a log of anchors that name the hash of the one before,
-- and the dispatcher appends to all logs and compares them.
--
-- Which file models which part of the repository:
--   Prelude          the names that all files share, tests and orders with their laws, and the
--                    machine words with checked and saturating arithmetic
--   Collections      `HashMap` and `BTreeMap` of the standard library as association lists
--   State            crates/suwappudb-state/src: `Address` and `State` of lib.rs, `MoveAddress`,
--                    `BalanceSlot`, `AccountNonce`, the trait `BalanceStore` as an interface with
--                    its documented laws, `InMemoryBalanceStore` as an instance, the projectors, and
--                    in State/Move the transactions, the module store and the mock Move executor
--                    of vm/, in State/Snapshot `from_state`, `parse_v2_body` and
--                    `restore_into_state` of snapshot.rs, and in State/Dag the `DagStore` of dag.rs
--   Bridge           crates/suwappudb-bridge/src/lib.rs: `submit`, `credit`, `debit`,
--                    `transfer_internal` and `write_bytes`, each a function from a state to a state
--                    and a result, and in Bridge/Vm the mock executors of vm/executor.rs
--   Anchor           crates/suwappudb-bridge/src/anchor: `Anchor` with its MAC and hash of types.rs,
--                    `verify_credential` of credential.rs, `AnchorLog` of log.rs, and `dispatch`,
--                    `dispatch_with_signer` and `parity_check` of dispatcher.rs
--   Bundle           crates/suwappudb-bridge/src/bundle: `execute` is `BundleExecutor::execute`,
--                    `execute_with_move_runtime` the method of that name over a Move executor and a
--                    module store, and `collect_snapshot` and `restore_snapshot` the functions
--                    of those names
--   Tree             crates/suwappudb-state/src/tree: `update_path`, `get_path`, `collect_proof`,
--                    `verify` and `commit_node` are the functions of that name. The source walks the
--                    bytes of an address by a depth, the model by the bytes that are left
--   Occ              crates/suwappudb-bridge/src/occ: `MvStore`, `is_valid`, `execute_one`,
--                    `execute_call` and the loop of `execute_with_registry`. A run is the sequence of
--                    its calls of the versioned store, and a schedule is the list of the choices
--                    which run makes the next call, so that every interleaving is one of them.
--                    Occ/Serial holds the lemmas on schedules: the discipline of the calls, one step,
--                    one pass, one iteration, and the loop
--   Recovery         crates/suwappudb-bridge/src/recovery: `Block` and `Block::hash` of block.rs,
--                    `encode_block`, `decode_block`, the trait `BlockStore` and
--                    `InMemoryBlockStore` of store.rs, and `replay` of replay.rs
--   Tests            small runs, and each theorem applied to a concrete input
--
-- Integers are natural numbers with the bound written out: `u128_mod` is 2 ^ 128 and `u64_mod` is
-- 2 ^ 64. An address is a list of bytes, whose length is a hypothesis where it matters.
--
-- Parameters: the hash function of the crate blake3, of which only the length of a digest is
-- assumed, the balance store and the module store with their laws, the Move executor of a bundle, and
-- the bundle generators of the registered contracts, the schedule of every parallel pass (in a replay,
-- of every pass of every block), the reading of the clock in a snapshot, and for the anchors the keyed
-- mode of blake3, keccak256, the signatures of the crate k256 and the signer.
--
-- Bounds: the loop of the block executor has the fuel 2 * n + 4 for n intents, which is the
-- assertion of the source, and the model gives none exactly where the assertion fails. Printing a
-- number n has the fuel n + 1, more than it has digits. The searches in the graph have one unit for
-- each parent or child that is listed, since no hash enters the queue twice, and the search for
-- cycles one more than the height of its start, since the heights fall along its path. All other
-- functions are structural.
--
-- Not modelled: the reader of the L1 and the signer over a key, the feature `production-pqc`, which is
-- off by default, the synchronisation, the two stores over the external crate redb, the JSON form of a
-- snapshot and its files, verkle commitments, the adapters to the external virtual machines, telemetry
-- and the server. They are input and output, external libraries, or parts that
-- do not take part in what the modelled parts do. A poisoned lock and running out of memory are
-- not modelled either. The order in which a hash map is walked is open in the source. The model takes
-- the order of insertion, so the write set of a registered call has one of its possible orders.
mod Prelude
mod Collections
pub mod State
pub mod Bridge
pub mod Anchor
pub mod Bundle
pub mod Tree
pub mod Occ
pub mod Recovery
mod Tests
