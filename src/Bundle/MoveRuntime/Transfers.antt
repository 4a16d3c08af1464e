-- ===== src/Bundle/MoveRuntime/Transfers.antt =====
-- A bundle of transfers runs under the Move runtime as it does without.
use suwappu_db.Prelude.{
  Bool-cases, inl, inr, ℕ, ◌+◌, List, [], ◌∷◌, ◌++◌, ◌≡◌, refl, Result, ok, err, All,
}
use suwappu_db.Bridge.Intent.{RejectReason, TxOutcome}
use suwappu_db.Bundle.Executor.{execute, run_steps, proceed, attempt, step_to_intent}
use suwappu_db.Bundle.MoveRuntime.{
  MoveExecutor, flush, run_step, continue_with, run_all, execute_with_move_runtime,
}
use suwappu_db.Bundle.Snapshot.{collect_snapshot}
use suwappu_db.Bundle.Types.{
  Bundle, BundleStep, evm, move, move_call, deploy_module, BundleResult, is_empty,
}
use suwappu_db.Collections.HashMap.{HashMap}
use suwappu_db.State.Address.{Address}
use suwappu_db.State.Canonical.{State}
use suwappu_db.State.Move.ModuleStore.{ModuleStore}
use suwappu_db.State.Move.Types.{MoveBalanceView}
use suwappu_db.State.Slot.{Balance}
use suwappu_db.State.Store.Interface.{BalanceStore}

abbrev pub IsTransfer : BundleStep → Type 0
IsTransfer (evm tx) = Unit
IsTransfer (move tx) = Unit
IsTransfer (move_call call) = ⊥
IsTransfer (deploy_module account name bytes) = ⊥

abbrev with_store : {S M : Type 0} → M → State S × BundleResult → (State S × M) × BundleResult
with_store store (st, result) = ((st, store), result)

module _ {S M : Type 0} ⦃b : BalanceStore S⦄ ⦃m : ModuleStore M⦄ (executor : MoveExecutor M)
    (view : MoveBalanceView) where
  continue-eq-proceed :
      (snap : HashMap Address Balance) (store : M) (idx : ℕ) (outcomes : List TxOutcome)
      (st : State S) (rest : (State S × M) × BundleResult) (rest' : State S × BundleResult)
      (r : Result RejectReason (Unit {0}))
      → rest ≡ with_store store rest'
      → continue_with executor view snap store idx outcomes st rest r
        ≡ with_store store (proceed snap st idx outcomes rest' r)
  unfolding continue_with proceed
  continue-eq-proceed snap store idx outcomes st rest rest' (ok u) h = h
  continue-eq-proceed snap store idx outcomes st rest rest' (err reason) h = refl

  run_all-eq-run_steps :
      (snap : HashMap Address Balance) (store : M) (st : State S) (idx : ℕ)
      (steps : List BundleStep) (outcomes : List TxOutcome)
      → All IsTransfer steps
      → run_all executor view snap store st [] idx steps outcomes
        ≡ with_store store (run_steps snap st idx steps outcomes)
  unfolding run_all run_steps run_step attempt step_to_intent flush
  run_all-eq-run_steps snap store st idx [] outcomes t = refl
  run_all-eq-run_steps snap store st idx (evm tx ∷ steps) outcomes t =
      continue-eq-proceed snap store idx outcomes _ _ _ _ (
        run_all-eq-run_steps snap store (attempt st (evm tx)).0 (idx + 1) steps
          (outcomes ++ TxOutcome.committed ∷ []) t.1)
  run_all-eq-run_steps snap store st idx (move tx ∷ steps) outcomes t =
      continue-eq-proceed snap store idx outcomes _ _ _ _ (
        run_all-eq-run_steps snap store (attempt st (move tx)).0 (idx + 1) steps
          (outcomes ++ TxOutcome.committed ∷ []) t.1)
  run_all-eq-run_steps snap store st idx (move_call call ∷ steps) outcomes t = elim t.0 [ ]
  run_all-eq-run_steps snap store st idx (deploy_module account name bytes ∷ steps) outcomes t =
      elim t.0 [ ]

  -- On a bundle whose steps are all transfers, the two entry points agree: on the state and on the
  -- report, and the module store is as before.
  pub execute_with_move_runtime-eq-execute :
      (st : State S) (store : M) (bundle : Bundle)
      → All IsTransfer bundle.steps
      → execute_with_move_runtime executor view st store bundle
        ≡ (((execute st bundle).0, store), (execute st bundle).1)
  unfolding execute_with_move_runtime execute is_empty
  execute_with_move_runtime-eq-execute st store bundle t = elim (Bool-cases (is_empty bundle)) [
    | inl e ↦ rw e refl
    | inr e ↦
        rw e (run_all-eq-run_steps (collect_snapshot st bundle.steps) store st 0 bundle.steps [] t)
  ]
