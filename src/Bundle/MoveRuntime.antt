-- ===== src/Bundle/MoveRuntime.antt =====
-- `BundleExecutor::execute_with_move_runtime` and `apply_resource_writes` of
-- crates/suwappudb-bridge/src/bundle/executor.rs. The Move executor is a parameter: it reads the
-- modules and a session, and the session is dropped with its buffer after each call. A reason
-- carries the error or the module, where the source prints them into a text.
pub mod Queue
pub mod Modules
pub mod Transfers
pub mod Escape
pub mod Coin
use suwappu_db.Prelude.{
  ℕ, ◌+◌, List, [], ◌∷◌, ◌++◌, Bool, false, Result, ok, err, ◌||◌, ◌==◌, if◌then◌else◌,
}
use suwappu_db.Bridge.Intent.{
  Intent, RejectReason, TxOutcome, rejected, move_call_failed, module_deploy_failed,
}
use suwappu_db.Bridge.Submit.{submit}
use suwappu_db.Bundle.Executor.{canonical_intent, result_of}
use suwappu_db.Bundle.Snapshot.{collect_snapshot, restore_snapshot}
use suwappu_db.Bundle.Types.{
  Bundle, BundleStep, evm, move, move_call, deploy_module, BundleResult, committed, reverted,
  is_empty,
}
use suwappu_db.Collections.HashMap.{HashMap}
use suwappu_db.State.Address.{Address, to_evm, move_address_eq}
use suwappu_db.State.Canonical.{State, apply, set_balance}
use suwappu_db.State.Move.ModuleStore.{ModuleStore}
use suwappu_db.State.Move.Tx.{evm_to_canonical, move_to_canonical}
use suwappu_db.State.Move.Types.{
  ModuleId, module_id_eq, CompiledModule, MoveCall, MoveSessionState, MoveBalanceView, new_session,
  MoveOutcome, MoveExecutionError, ResourceWrite,
}
use suwappu_db.State.Slot.{Balance}
use suwappu_db.State.Store.Interface.{BalanceStore}

pub record MoveExecutor (M : Type 0) : Type 0 where
  pub execute : MoveCall → M → MoveSessionState → Result MoveExecutionError MoveOutcome

abbrev pub Deploys : Type 0
Deploys = List (ModuleId × CompiledModule)

-- `queued_deploys.iter().any(|(qid, _)| qid == &id)`.
unfoldable pub is_queued : ModuleId → Deploys → Bool
is_queued id [] = false
is_queued id ((j, c) ∷ queue) = (j == id) || is_queued id queue

module _ {S : Type 0} ⦃b : BalanceStore S⦄ where
  unfoldable pub apply_resource_writes : State S → List ResourceWrite → State S
  apply_resource_writes st [] = st
  apply_resource_writes st (w ∷ writes) =
      apply_resource_writes (apply st (set_balance (to_evm w.addr) w.coin_value.amount)) writes

-- The flush of a committed bundle. The result of each `put` is dropped.
unfoldable pub flush : {M : Type 0} ⦃m : ModuleStore M⦄ → M → Deploys → M
flush ⦃m⦄ store [] = store
flush ⦃m⦄ store ((id, c) ∷ queue) = flush (m.put store id c).0 queue

pub record Stepped (S : Type 0) : Type 0 where
  pub state : State S
  pub queue : Deploys
  pub outcome : Result RejectReason (Unit {0})

module _ {S M : Type 0} ⦃b : BalanceStore S⦄ ⦃m : ModuleStore M⦄ (executor : MoveExecutor M)
    (view : MoveBalanceView) where
  transfer_step : State S → Deploys → Intent → Stepped S
  transfer_step st queue intent =
      let (st', result) = submit st intent in
      record { state = st'; queue = queue; outcome = result }

  call_step : State S → Deploys → Result MoveExecutionError MoveOutcome → Stepped S
  call_step st queue (ok outcome) = record {
    state = apply_resource_writes st outcome.resource_writes;
    queue = queue;
    outcome = ok tt;
  }
  call_step st queue (err e) = record {
    state = st;
    queue = queue;
    outcome = err (move_call_failed e);
  }

  deploy_step : M → State S → Deploys → ModuleId → CompiledModule → Stepped S
  deploy_step store st queue id c =
      if m.contains store id || is_queued id queue
      then record { state = st; queue = queue; outcome = err (module_deploy_failed id) }
      else record { state = st; queue = queue ++ (id, c) ∷ []; outcome = ok tt }

  unfoldable pub run_step : M → State S → Deploys → BundleStep → Stepped S
  unfolding transfer_step call_step deploy_step evm_to_canonical move_to_canonical
  run_step store st queue (evm tx) = transfer_step st queue (canonical_intent (evm_to_canonical tx))
  run_step store st queue (move tx) =
      transfer_step st queue (canonical_intent (move_to_canonical tx))
  run_step store st queue (move_call call) =
      call_step st queue (executor.execute call store (new_session view))
  run_step store st queue (deploy_module account name bytes) =
      deploy_step store st queue (record { address = account; name = name })
        (record { bytes = bytes })

  -- After a step, as in the executor without a runtime: the queue of a reverted bundle is dropped.
  unfoldable pub continue_with :
      HashMap Address Balance
      → M
      → ℕ
      → List TxOutcome
      → State S
      → (State S × M) × BundleResult
      → Result RejectReason (Unit {0})
      → (State S × M) × BundleResult
  continue_with snap store idx outcomes st rest (ok _) = rest
  continue_with snap store idx outcomes st rest (err reason) = (
    (restore_snapshot st snap, store),
    result_of (outcomes ++ rejected reason ∷ []) (reverted idx),
  )

  unfoldable pub run_all :
      HashMap Address Balance
      → M
      → State S
      → Deploys
      → ℕ
      → List BundleStep
      → List TxOutcome
      → (State S × M) × BundleResult
  unfolding continue_with
  run_all snap store st queue idx [] outcomes =
      ((st, flush store queue), result_of outcomes committed)
  run_all snap store st queue idx (step ∷ steps) outcomes =
      let s = run_step store st queue step in
      continue_with snap store idx outcomes s.state
        (run_all snap store s.state s.queue (idx + 1) steps (outcomes ++ TxOutcome.committed ∷ []))
        s.outcome

  unfoldable pub execute_with_move_runtime : State S → M → Bundle → (State S × M) × BundleResult
  unfolding is_empty
  execute_with_move_runtime st store bundle =
      if is_empty bundle
      then ((st, store), result_of [] committed)
      else run_all (collect_snapshot st bundle.steps) store st [] 0 bundle.steps []
