-- ===== src/Recovery/Replay.antt =====
-- crates/suwappudb-bridge/src/recovery/replay.rs: the blocks of a store are executed again, and each
-- state root is compared with the recorded one.
use suwappu_db.Tree.Ops.{from_state, root}
use suwappu_db.Bundle.Registry.{ContractRegistry}
use suwappu_db.Tree.Commit.{Commitment, Blake3}
use suwappu_db.Recovery.Block.{block_hash, genesis_parent, Block, BlockHash}
use suwappu_db.State.Store.Interface.{BalanceStore}
use suwappu_db.State.Canonical.{State}
use suwappu_db.Recovery.Store.{BlockStore, BlockStoreError}
use suwappu_db.Recovery.Block.{block_hash_eq}
use suwappu_db.Tree.Commit.{commitment_eq}
use suwappu_db.Prelude.{
  ℕ, suc, ◌-◌, List, [], ◌∷◌, Option, none, some, Result, ok, err, if◌then◌else◌, ◌==◌, nat_beq,
}
use suwappu_db.Occ.BlockExecutor.{execute_with_registry, BlockReport}

pub data RecoveryError : Type 0 where
  storage : BlockStoreError → RecoveryError
  -- height, got, expected
  parent_hash_mismatch : ℕ → BlockHash → BlockHash → RecoveryError
  -- height, recorded, computed
  state_root_mismatch : ℕ → Commitment → Commitment → RecoveryError
  -- expected, got
  height_gap : ℕ → ℕ → RecoveryError

abbrev pub Recovered : Type 0 → Type 0
Recovered S = State S × Result RecoveryError (Unit {0})

module _ {S : Type 0} ⦃b : BalanceStore S⦄ (h : Blake3) (registry : ContractRegistry S) where
  -- The two comparisons behind the execution of a block, and the rest of the loop.
  unfoldable pub check_roots :
      Block → State S → BlockReport → Option (Recovered S) → Option (Recovered S)
  check_roots block st report onward =
      let live_root = root h (from_state st) in
      if report.state_root == block.state_root
      then (if live_root == block.state_root
          then onward
          else some (st, err (state_root_mismatch block.height block.state_root live_root)))
      else some (st, err (state_root_mismatch block.height block.state_root report.state_root))

  -- The loop over the blocks. A schedule is given for each height, and none is the panic of the
  -- block executor.
  unfoldable pub replay_blocks :
      (ℕ → ℕ → List ℕ) → ℕ → BlockHash → List Block → State S → Option (Recovered S)
  unfolding check_roots
  replay_blocks choices expected prev_hash [] st = some (st, ok tt)
  replay_blocks choices expected prev_hash (block ∷ blocks) st =
      let onward = replay_blocks choices (suc expected) (block_hash h block) blocks in
      if nat_beq block.height expected
      then (if block.parent == prev_hash
          then elim (execute_with_registry registry st h (choices expected) block.intents) [
            | none ↦ none
            | some r ↦ check_roots block r.0 r.1 (onward r.0)
          ]
          else some (st, err (parent_hash_mismatch block.height block.parent prev_hash)))
      else some (st, err (height_gap expected block.height))

  abbrev pub hash_or_genesis : Option Block → BlockHash
  hash_or_genesis none = genesis_parent
  hash_or_genesis (some block) = block_hash h block

  module _ {B : Type 0} (s : BlockStore B) where
    -- The hash that the first block must name as its parent.
    unfoldable pub prev_hash_of : B → ℕ → Result BlockStoreError BlockHash
    prev_hash_of store from =
        if nat_beq from 0 then ok genesis_parent else elim (s.get_by_height store (from - 1)) [
          | err e ↦ err e
          | ok found ↦ ok (hash_or_genesis found)
        ]

    unfoldable pub replay : (ℕ → ℕ → List ℕ) → B → State S → ℕ → Option (Recovered S)
    unfolding replay_blocks prev_hash_of
    replay choices store st from = elim (s.iter_from store from) [
      | err e ↦ some (st, err (storage e))
      | ok blocks ↦ elim (prev_hash_of store from) [
        | err e ↦ some (st, err (storage e))
        | ok prev_hash ↦ replay_blocks choices from prev_hash blocks st
      ]
    ]
