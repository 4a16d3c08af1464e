-- ===== src/Bridge/Intent.antt =====
-- The intents, and the reasons to reject one. Where the source formats an error into a string, the
-- reason holds what was formatted.
use suwappu_db.Prelude.{ℕ, List}
use suwappu_db.State.Address.{Address, MoveAddress}
use suwappu_db.State.Move.Types.{Identifier, ModuleId, MoveExecutionError}

pub data Intent : Type 0 where
  -- from, to, amount
  transfer : Address → Address → ℕ → Intent
  -- caller, target, value, calldata
  call : Address → Address → ℕ → List ℕ → Intent
  -- account, name, bytes
  deploy_module : MoveAddress → Identifier → List ℕ → Intent

pub data RejectReason : Type 0 where
  insufficient_balance : RejectReason
  amount_overflow : RejectReason
  call_requires_registry : RejectReason
  deploy_module_requires_module_store : RejectReason
  move_runtime_required : RejectReason
  move_call_failed : MoveExecutionError → RejectReason
  module_deploy_failed : ModuleId → RejectReason

-- `enum TxOutcome` of crates/suwappudb-bridge/src/occ/block_executor.rs, shared with the bundles.
pub data TxOutcome : Type 0 where
  committed : TxOutcome
  rejected : RejectReason → TxOutcome
