-- ===== src/Bundle/Executor.antt =====
-- `BundleExecutor::execute` and `step_to_intent` of crates/suwappudb-bridge/src/bundle/executor.rs.
use suwappu_db.Prelude.{
  ℕ, ◌+◌, List, [], ◌∷◌, ◌++◌, Option, none, some, Result, ok, err, if◌then◌else◌,
}
use suwappu_db.Bridge.Intent.{
  Intent, RejectReason, TxOutcome, rejected, transfer, move_runtime_required,
}
use suwappu_db.Bridge.Submit.{submit}
use suwappu_db.Bundle.Snapshot.{collect_snapshot, restore_snapshot}
use suwappu_db.Bundle.Types.{
  Bundle, BundleStep, evm, move, move_call, deploy_module, BundleOutcome, BundleResult, committed,
  reverted, is_empty,
}
use suwappu_db.Collections.HashMap.{HashMap}
use suwappu_db.State.Address.{Address}
use suwappu_db.State.Canonical.{State}
use suwappu_db.State.Move.Tx.{CanonicalTransfer, evm_to_canonical, move_to_canonical}
use suwappu_db.State.Slot.{Balance}
use suwappu_db.State.Store.Interface.{BalanceStore}

abbrev pub canonical_intent : CanonicalTransfer → Intent
canonical_intent c = transfer c.from c.to c.amount

unfoldable pub step_to_intent : BundleStep → Option Intent
unfolding evm_to_canonical move_to_canonical
step_to_intent (evm tx) = some (canonical_intent (evm_to_canonical tx))
step_to_intent (move tx) = some (canonical_intent (move_to_canonical tx))
step_to_intent (move_call c) = none
step_to_intent (deploy_module account name bytes) = none

abbrev pub result_of : List TxOutcome → BundleOutcome → BundleResult
result_of outcomes outcome = record { step_outcomes = outcomes; outcome = outcome }

module _ {S : Type 0} ⦃b : BalanceStore S⦄ where
  submit_if : State S → Option Intent → State S × Result RejectReason (Unit {0})
  submit_if st none = (st, err move_runtime_required)
  submit_if st (some intent) = submit st intent

  -- One step: a step with no intent is rejected before the bridge sees it.
  unfoldable pub attempt : State S → BundleStep → State S × Result RejectReason (Unit {0})
  unfolding submit_if
  attempt st step = submit_if st (step_to_intent step)

  -- After a step: `rest` is what the steps behind it do from there. A rejected step restores the
  -- snapshot and ends the loop.
  unfoldable pub proceed :
      HashMap Address Balance
      → State S
      → ℕ
      → List TxOutcome
      → State S × BundleResult
      → Result RejectReason (Unit {0})
      → State S × BundleResult
  proceed snap st idx outcomes rest (ok _) = rest
  proceed snap st idx outcomes rest (err reason) =
      (restore_snapshot st snap, result_of (outcomes ++ rejected reason ∷ []) (reverted idx))

  -- The loop over the steps. `idx` counts them, and `outcomes` are those of the steps before.
  unfoldable pub run_steps :
      HashMap Address Balance
      → State S
      → ℕ
      → List BundleStep
      → List TxOutcome
      → State S × BundleResult
  unfolding proceed
  run_steps snap st idx [] outcomes = (st, result_of outcomes committed)
  run_steps snap st idx (step ∷ steps) outcomes =
      let st' = (attempt st step).0 in
      let rest = run_steps snap st' (idx + 1) steps (outcomes ++ TxOutcome.committed ∷ []) in
      proceed snap st' idx outcomes rest (attempt st step).1

  unfoldable pub execute : State S → Bundle → State S × BundleResult
  unfolding run_steps
  execute st bundle =
      if is_empty bundle
      then (st, result_of [] committed)
      else run_steps (collect_snapshot st bundle.steps) st 0 bundle.steps []
