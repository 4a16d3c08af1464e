-- ===== src/Bundle/Types.antt =====
-- crates/suwappudb-bridge/src/bundle/types.rs.
use suwappu_db.Prelude.{ℕ, List, [], ◌∷◌, ◌++◌, Bool, true, false}
use suwappu_db.Bridge.Intent.{TxOutcome}
use suwappu_db.State.Address.{MoveAddress}
use suwappu_db.State.Move.Tx.{EvmTx, MoveTx}
use suwappu_db.State.Move.Types.{Identifier, MoveCall}

pub data BundleStep : Type 0 where
  evm : EvmTx → BundleStep
  move : MoveTx → BundleStep
  move_call : MoveCall → BundleStep
  -- account, name, bytes
  deploy_module : MoveAddress → Identifier → List ℕ → BundleStep

pub record Bundle : Type 0 where
  pub steps : List BundleStep

abbrev pub new : Bundle
new = record { steps = [] }

abbrev pub single : BundleStep → Bundle
single step = record { steps = step ∷ [] }

-- `Bundle::with`.
abbrev pub and_step : Bundle → BundleStep → Bundle
and_step b step = record { steps = b.steps ++ step ∷ [] }

null : List BundleStep → Bool
null [] = true
null (s ∷ ss) = false

unfoldable pub is_empty : Bundle → Bool
unfolding null
is_empty b = null b.steps

pub data BundleOutcome : Type 0 where
  committed : BundleOutcome
  -- the index of the failed step
  reverted : ℕ → BundleOutcome

pub record BundleResult : Type 0 where
  pub step_outcomes : List TxOutcome
  pub outcome : BundleOutcome

is_committed_outcome : BundleOutcome → Bool
is_committed_outcome committed = true
is_committed_outcome (reverted i) = false

unfoldable pub is_committed : BundleResult → Bool
unfolding is_committed_outcome
is_committed r = is_committed_outcome r.outcome
