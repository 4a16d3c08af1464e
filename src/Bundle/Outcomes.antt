-- ===== src/Bundle/Outcomes.antt =====
-- What `BundleExecutor::execute` reports, against a description of the first rejected step.
use native.Mathlib.Nat.{zero-add}
use suwappu_db.Prelude.{
  ap, ◌∙◌, ℕ, suc, ◌+◌, ◌≡◌, List, [], ◌∷◌, ◌++◌, arith, ok, err, refl, Result, none, some, Option,
  length, replicate,
}
use mathlib.Core.Path.{subst, sym, ap₂}
use mathlib.Core.List.{append-nil, append_assoc}
use suwappu_db.Bridge.Intent.{RejectReason, TxOutcome, rejected}
use suwappu_db.Bundle.Atomicity.{submit_all}
use suwappu_db.Bundle.Executor.{execute, run_steps, proceed, attempt, result_of}
use suwappu_db.Bundle.Snapshot.{collect_snapshot}
use suwappu_db.Bundle.Types.{Bundle, BundleStep, BundleResult, committed, reverted, is_empty}
use suwappu_db.Collections.HashMap.{HashMap}
use suwappu_db.State.Address.{Address}
use suwappu_db.State.Canonical.{State}
use suwappu_db.State.Slot.{Balance}
use suwappu_db.State.Store.Interface.{BalanceStore}

abbrev later : Option (ℕ × RejectReason) → Option (ℕ × RejectReason)
later none = none
later (some (i, r)) = some (suc i, r)

abbrev decide :
    Result RejectReason (Unit {0}) → Option (ℕ × RejectReason) → Option (ℕ × RejectReason)
decide (ok _) rest = later rest
decide (err r) rest = some (0, r)

module _ {S : Type 0} ⦃b : BalanceStore S⦄ where
  -- The index of the first rejected step and its reason, if every step before it is executed.
  pub first_rejection : State S → List BundleStep → Option (ℕ × RejectReason)
  first_rejection st [] = none
  first_rejection st (step ∷ steps) =
      decide (attempt st step).1 (first_rejection (attempt st step).0 steps)

  abbrev Reports :
      State S → List TxOutcome → State S × BundleResult → ℕ → Option (ℕ × RejectReason) → ℕ → Type 0
  Reports final before (st, r) idx none n =
      (st ≡ final) × (r ≡ result_of (before ++ replicate n TxOutcome.committed) committed)
  Reports final before (st, r) idx (some (i, reason)) n =
      r
      ≡ result_of (before ++ (replicate i TxOutcome.committed ++ rejected reason ∷ []))
          (reverted (idx + i))

  step-Reports :
      (snap : HashMap Address Balance) (cur final : State S) (idx : ℕ) (before : List TxOutcome)
      (rest : State S × BundleResult) (r : Result RejectReason (Unit {0}))
      (f : Option (ℕ × RejectReason)) (n : ℕ)
      → Reports final (before ++ TxOutcome.committed ∷ []) rest (idx + 1) f n
      → Reports final before (proceed snap cur idx before rest r) idx (decide r f) (suc n)
  unfolding proceed
  step-Reports snap cur final idx before rest (ok _) none n h =
      (h.0, h.1 ∙ ap (λ l. result_of l committed) (append_assoc before _ _))
  step-Reports snap cur final idx before rest (ok _) (some (i, reason)) n h =
      let e : idx + 1 + i ≡ idx + suc i = omega arith in
      h
      ∙ ap (λ l. result_of l (reverted (idx + 1 + i))) (append_assoc before _ _)
      ∙ ap
          (λ k.
            result_of
              (before
                ++ (TxOutcome.committed
                    ∷ (replicate i TxOutcome.committed ++ rejected reason ∷ [])))
              (reverted k))
          e
  step-Reports snap cur final idx before rest (err reason) f n h =
      let e : idx ≡ idx + 0 = omega arith in
      ap (λ k. result_of (before ++ rejected reason ∷ []) (reverted k)) e

  run_steps-Reports :
      (snap : HashMap Address Balance) (cur : State S) (idx : ℕ) (steps : List BundleStep)
      (before : List TxOutcome)
      → Reports
          (submit_all cur steps)
          before
          (run_steps snap cur idx steps before)
          idx
          (first_rejection cur steps)
          (length steps)
  unfolding run_steps first_rejection submit_all
  run_steps-Reports snap cur idx [] before =
      (refl, ap (λ l. result_of l committed) (sym (append-nil before)))
  run_steps-Reports snap cur idx (step ∷ steps) before =
      step-Reports snap (attempt cur step).0 _ idx before _ (attempt cur step).1
        (first_rejection (attempt cur step).0 steps) (length steps)
        (run_steps-Reports snap (attempt cur step).0 (idx + 1) steps
          (before ++ TxOutcome.committed ∷ []))

  execute-eq-run_steps :
      (st : State S) (steps : List BundleStep)
      → execute st (record { steps = steps }) ≡ run_steps (collect_snapshot st steps) st 0 steps []
  unfolding execute run_steps is_empty
  execute-eq-run_steps st [] = refl
  execute-eq-run_steps st (step ∷ steps) = refl

  Reports-as :
      (st : State S) (steps : List BundleStep) (f : Option (ℕ × RejectReason))
      → first_rejection st steps ≡ f
      → Reports
          (submit_all st steps)
          []
          (run_steps (collect_snapshot st steps) st 0 steps [])
          0
          f
          (length steps)
  Reports-as st steps f e =
      let run = run_steps (collect_snapshot st steps) st 0 steps [] in
      subst (λ g. Reports (submit_all st steps) [] run 0 g (length steps)) e
        (run_steps-Reports (collect_snapshot st steps) st 0 steps [])

  -- If no step is rejected the bundle is committed: the state is that of submitting the steps one
  -- after the other, and each of them is reported as committed. Otherwise it is reverted, it names
  -- the first step that is rejected, and it reports the steps before it as committed and that one
  -- with its reason.
  pub execute_reports :
      (st : State S) (bundle : Bundle)
      → (first_rejection st bundle.steps ≡ none
          → execute st bundle ≡ (
            submit_all st bundle.steps,
            result_of (replicate (length bundle.steps) TxOutcome.committed) committed,
          ))
        × ((i : ℕ) (reason : RejectReason)
            → first_rejection st bundle.steps ≡ some (i, reason)
            → (execute st bundle).1
              ≡ result_of (replicate i TxOutcome.committed ++ rejected reason ∷ []) (reverted i))
  execute_reports st bundle =
      let whole = execute-eq-run_steps st bundle.steps in
      (
        (λ e.
            let h = Reports-as st bundle.steps none e in
            whole ∙ ap₂ (λ (x : State S) (y : BundleResult). (x, y)) h.0 h.1),
        (λ i reason e.
            ap (λ (p : State S × BundleResult). p.1) whole
            ∙ Reports-as st bundle.steps (some (i, reason)) e
            ∙ ap
                (λ k.
                  result_of (replicate i TxOutcome.committed ++ rejected reason ∷ []) (reverted k))
                (zero-add i)),
      )
