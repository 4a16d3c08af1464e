-- ===== src/Tests/Bundle.antt =====
-- The bundle properties at a bundle whose second step fails.
use suwappu_db.Prelude.{sym, subst, ℕ, ◌≡◌, refl, [], ◌∷◌, ◌++◌, none, some, replicate, length, All}
use suwappu_db.Bridge.Intent.{RejectReason, TxOutcome, rejected, insufficient_balance}
use suwappu_db.Bridge.Submit.{submit}
use suwappu_db.Bundle.Atomicity.{IsReverted, submit_all, execute_reverts, bytes_of-execute}
use suwappu_db.Bundle.Executor.{execute, run_steps, attempt, step_to_intent, result_of}
use suwappu_db.Bundle.Outcomes.{first_rejection, execute_reports}
use suwappu_db.Bundle.Residue.{HasEntry, execute_leaves_entries}
use suwappu_db.Bundle.Snapshot.{recorded, collect_snapshot, restore_snapshot}
use suwappu_db.Bundle.Types.{Bundle, BundleStep, evm, move, committed, reverted, is_empty}
use suwappu_db.Collections.HashMap
use suwappu_db.State.Address.{address_eq}
use suwappu_db.State.Canonical.{balance_of, bytes_of, apply, entries}
use suwappu_db.State.Store.InMemory
use suwappu_db.State.Store.InMemory.{in_memory}
use suwappu_db.Tests.Data.{alice, bob, carol, ledger}

abbrev pay_carol : BundleStep
pay_carol = evm (record { from = alice; to = carol; value = 60 })

abbrev overdraw : BundleStep
overdraw = move (record { signer = bob; recipient = alice; amount = 50 })

abbrev failing : Bundle
failing = record { steps = pay_carol ∷ overdraw ∷ [] }

failing_reverts :
    (execute ledger failing).1
    ≡ result_of (TxOutcome.committed ∷ rejected insufficient_balance ∷ []) (reverted 1)
unfolding execute is_empty run_steps attempt step_to_intent submit balance_of apply InMemory.get
    InMemory.set HashMap.lookup HashMap.insert
failing_reverts = refl

-- Carol had no entry before, and has one of zero afterwards.
carol_gains_an_entry :
    (HashMap.lookup carol (entries ledger) ≡ none)
    × (length (entries (execute ledger failing).0) ≡ 3)
unfolding execute is_empty run_steps attempt step_to_intent submit balance_of apply collect_snapshot
    restore_snapshot recorded entries InMemory.entries InMemory.get InMemory.set HashMap.lookup
    HashMap.insert HashMap.or_insert
carol_gains_an_entry = (refl, refl)

is_reverted : IsReverted (execute ledger failing).1.outcome
is_reverted = subst (λ r. IsReverted r.outcome) (sym failing_reverts) tt

execute_reverts_example : balance_of (execute ledger failing).0 alice ≡ balance_of ledger alice
execute_reverts_example = execute_reverts ledger failing alice is_reverted

bytes_of-execute_example : bytes_of (execute ledger failing).0 alice ≡ bytes_of ledger alice
bytes_of-execute_example = bytes_of-execute ledger failing alice

execute_reports_example :
    (first_rejection ledger failing.steps ≡ none
      → execute ledger failing ≡ (
        submit_all ledger failing.steps,
        result_of (replicate (length failing.steps) TxOutcome.committed) committed,
      ))
    × ((i : ℕ) (reason : RejectReason)
        → first_rejection ledger failing.steps ≡ some (i, reason)
        → (execute ledger failing).1
          ≡ result_of (replicate i TxOutcome.committed ++ rejected reason ∷ []) (reverted i))
execute_reports_example = execute_reports ledger failing

execute_leaves_entries_example :
    All
      (HasEntry (execute ledger (record { steps = pay_carol ∷ overdraw ∷ [] })).0)
      (recorded pay_carol)
execute_leaves_entries_example = execute_leaves_entries ledger pay_carol (overdraw ∷ []) is_reverted
