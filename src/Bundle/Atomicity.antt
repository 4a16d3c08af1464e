-- ===== src/Bundle/Atomicity.antt =====
-- A transfer bundle commits as a whole or leaves every balance and blob as it found them.
use suwappu_db.Prelude.{
  ◌∙◌, ap, ℕ, ◌+◌, ◌≡◌, ◌≢◌, List, [], ◌∷◌, ◌++◌, arith, ok, err, refl, Bool-cases, inl, inr, true,
  false, ◌-◌, Result,
}
use suwappu_db.Bridge.Intent.{RejectReason, TxOutcome, transfer}
use suwappu_db.Bridge.Submit.{submit}
use suwappu_db.Bridge.Transfers.{balance_of-two_writes, bytes_of-two_writes}
use suwappu_db.Bundle.Executor.{proceed, execute, run_steps, attempt, step_to_intent}
use suwappu_db.Bundle.Snapshot.{recorded, collect_snapshot}
use suwappu_db.Bundle.Snapshot.Restore.{
  AgreesWith, Covers, CoversSteps, collect_snapshot-AgreesWith, collect_snapshot-CoversSteps,
  restore_snapshot_lem, bytes_of-restore_snapshot,
}
use suwappu_db.Bundle.Types.{
  Bundle, BundleStep, evm, move, move_call, deploy_module, BundleResult, BundleOutcome, committed,
  reverted, is_empty,
}
use suwappu_db.Collections.HashMap
use suwappu_db.Collections.HashMap.{HashMap}
use suwappu_db.State.Address.{Address, address_eq, address_beq_iff}
use suwappu_db.State.Canonical.{State, balance_of, bytes_of}
use suwappu_db.State.Slot.{Balance}
use suwappu_db.State.Store.Interface.{BalanceStore}

-- The index of the failed step of a reverted bundle, and whether there is one.
abbrev pub IsReverted : BundleOutcome → Type 0
IsReverted committed = ⊥
IsReverted (reverted i) = Unit

ne_of_recorded :
    (snap : HashMap Address Balance) (a c : Address)
    → HashMap.contains_key a snap ≡ true
    → HashMap.contains_key c snap ≡ false
    → a ≢ c
ne_of_recorded snap a c h k e = cc (ap (λ (x : Address). HashMap.contains_key x snap) e)

module _ {S : Type 0} ⦃b : BalanceStore S⦄ where
  -- A transfer changes no balance but those of its two addresses, and no blob.
  pub submit_frame :
      (st : State S) (from to : Address) (amount : ℕ) (c : Address)
      → from ≢ c
      → to ≢ c
      → balance_of (submit st (transfer from to amount)).0 c ≡ balance_of st c
  unfolding submit
  submit_frame st from to amount c hf ht = ground (
    arith,
    address_beq_iff from c,
    address_beq_iff to c,
    balance_of-two_writes st from to (balance_of st from - amount) (balance_of st to + amount) c,
  )

  pub bytes_of-submit :
      (st : State S) (from to : Address) (amount : ℕ) (c : Address)
      → bytes_of (submit st (transfer from to amount)).0 c ≡ bytes_of st c
  unfolding submit
  bytes_of-submit st from to amount c = ground (
    arith,
    bytes_of-two_writes st from to (balance_of st from - amount) (balance_of st to + amount) c,
  )

  abbrev AgreesOutside : HashMap Address Balance → State S → State S → Type 0
  AgreesOutside snap st cur =
      (c : Address) → HashMap.contains_key c snap ≡ false → balance_of cur c ≡ balance_of st c

  attempt_frame :
      (snap : HashMap Address Balance) (cur : State S) (step : BundleStep) (c : Address)
      → Covers snap (recorded step)
      → HashMap.contains_key c snap ≡ false
      → balance_of (attempt cur step).0 c ≡ balance_of cur c
  unfolding attempt step_to_intent recorded
  attempt_frame snap cur (evm tx) c h k =
      submit_frame cur tx.from tx.to tx.value c (ne_of_recorded snap tx.from c h.0 k)
        (ne_of_recorded snap tx.to c h.1.0 k)
  attempt_frame snap cur (move tx) c h k =
      submit_frame cur tx.signer tx.recipient tx.amount c (ne_of_recorded snap tx.signer c h.0 k)
        (ne_of_recorded snap tx.recipient c h.1.0 k)
  attempt_frame snap cur (move_call call) c h k = refl
  attempt_frame snap cur (deploy_module account name bytes) c h k = refl

  bytes_of-attempt :
      (cur : State S) (step : BundleStep) (c : Address)
      → bytes_of (attempt cur step).0 c ≡ bytes_of cur c
  unfolding attempt step_to_intent
  bytes_of-attempt cur (evm tx) c = bytes_of-submit cur tx.from tx.to tx.value c
  bytes_of-attempt cur (move tx) c = bytes_of-submit cur tx.signer tx.recipient tx.amount c
  bytes_of-attempt cur (move_call call) c = refl
  bytes_of-attempt cur (deploy_module account name bytes) c = refl

  -- The effect of the committed steps, one after the other.
  unfoldable pub submit_all : State S → List BundleStep → State S
  submit_all st [] = st
  submit_all st (step ∷ steps) = submit_all (attempt st step).0 steps

  proceed_reverts :
      (snap : HashMap Address Balance) (st cur : State S) (idx : ℕ) (outcomes : List TxOutcome)
      (rest : State S × BundleResult) (r : Result RejectReason (Unit {0})) (c : Address)
      → AgreesWith st snap
      → AgreesOutside snap st cur
      → (IsReverted rest.1.outcome → balance_of rest.0 c ≡ balance_of st c)
      → IsReverted (proceed snap cur idx outcomes rest r).1.outcome
      → balance_of (proceed snap cur idx outcomes rest r).0 c ≡ balance_of st c
  unfolding proceed
  proceed_reverts snap st cur idx outcomes rest (ok _) c agree out later h = later h
  proceed_reverts snap st cur idx outcomes rest (err reason) c agree out later h =
      restore_snapshot_lem st cur snap c agree (out c)

  run_steps_reverts :
      (snap : HashMap Address Balance) (st cur : State S) (idx : ℕ) (steps : List BundleStep)
      (outcomes : List TxOutcome) (c : Address)
      → AgreesWith st snap
      → CoversSteps snap steps
      → AgreesOutside snap st cur
      → IsReverted (run_steps snap cur idx steps outcomes).1.outcome
      → balance_of (run_steps snap cur idx steps outcomes).0 c ≡ balance_of st c
  unfolding run_steps
  run_steps_reverts snap st cur idx [] outcomes c agree covers out h = absurd h
  run_steps_reverts snap st cur idx (step ∷ steps) outcomes c agree covers out h =
      let moved : AgreesOutside snap st (attempt cur step).0 =
        λ d k. attempt_frame snap cur step d covers.0 k ∙ out d k in
      proceed_reverts snap st (attempt cur step).0 idx outcomes _ (attempt cur step).1 c agree moved
        (run_steps_reverts snap st (attempt cur step).0 (idx + 1) steps
          (outcomes ++ TxOutcome.committed ∷ []) c agree covers.1 moved)
        h

  -- A bundle that is reverted leaves every balance as it was before the call.
  pub execute_reverts :
      (st : State S) (bundle : Bundle) (c : Address)
      → IsReverted (execute st bundle).1.outcome
      → balance_of (execute st bundle).0 c ≡ balance_of st c
  unfolding execute
  execute_reverts st bundle c h = elim (Bool-cases (is_empty bundle)) [
    | inl e ↦ rw e refl
    | inr e ↦ rw e (
        run_steps_reverts (collect_snapshot st bundle.steps) st st 0 bundle.steps [] c
          (collect_snapshot-AgreesWith st bundle.steps)
          (collect_snapshot-CoversSteps st bundle.steps) (λ d k. refl) (rw e at h))
  ]

  bytes_of-proceed :
      (snap : HashMap Address Balance) (cur : State S) (idx : ℕ) (outcomes : List TxOutcome)
      (rest : State S × BundleResult) (r : Result RejectReason (Unit {0})) (c : Address)
      → bytes_of rest.0 c ≡ bytes_of cur c
      → bytes_of (proceed snap cur idx outcomes rest r).0 c ≡ bytes_of cur c
  unfolding proceed
  bytes_of-proceed snap cur idx outcomes rest (ok _) c h = h
  bytes_of-proceed snap cur idx outcomes rest (err reason) c h =
      bytes_of-restore_snapshot cur snap c

  bytes_of-run_steps :
      (snap : HashMap Address Balance) (cur : State S) (idx : ℕ) (steps : List BundleStep)
      (outcomes : List TxOutcome) (c : Address)
      → bytes_of (run_steps snap cur idx steps outcomes).0 c ≡ bytes_of cur c
  unfolding run_steps
  bytes_of-run_steps snap cur idx [] outcomes c = refl
  bytes_of-run_steps snap cur idx (step ∷ steps) outcomes c =
      bytes_of-proceed snap (attempt cur step).0 idx outcomes _ (attempt cur step).1 c (
        bytes_of-run_steps snap (attempt cur step).0 (idx + 1) steps
          (outcomes ++ TxOutcome.committed ∷ []) c)
      ∙ bytes_of-attempt cur step c

  -- No bundle that this entry point runs, committed or reverted, changes a blob.
  pub bytes_of-execute :
      (st : State S) (bundle : Bundle) (c : Address)
      → bytes_of (execute st bundle).0 c ≡ bytes_of st c
  unfolding execute
  bytes_of-execute st bundle c = elim (Bool-cases (is_empty bundle)) [
    | inl e ↦ rw e refl
    | inr e ↦ rw e (bytes_of-run_steps (collect_snapshot st bundle.steps) st 0 bundle.steps [] c)
  ]
