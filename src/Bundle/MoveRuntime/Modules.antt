-- ===== src/Bundle/MoveRuntime/Modules.antt =====
-- The module store after a bundle with a Move runtime.
use mathlib.Core.List.{append-nil, append_assoc}
use suwappu_db.Prelude.{
  ◌⊎◌, subst, ◌⊎◌, ℕ, ◌+◌, List, [], ◌∷◌, ◌++◌, none, some, Result, ok, err, ◌||◌, ◌≡◌, refl, ◌∙◌,
  ap, sym, arith, Bool-cases, inl, inr,
}
use suwappu_db.Bridge.Intent.{RejectReason, TxOutcome}
use suwappu_db.Bundle.Atomicity.{IsReverted}
use suwappu_db.Bundle.MoveRuntime.{
  call_step, new_session, MoveExecutor, Deploys, is_queued, flush, run_step, continue_with, run_all,
  execute_with_move_runtime,
}
use suwappu_db.Bundle.MoveRuntime.Queue.{IsFree, IsFree-append, get-flush}
use suwappu_db.Bundle.Snapshot.{collect_snapshot}
use suwappu_db.Bundle.Types.{
  Bundle, BundleStep, evm, move, move_call, deploy_module, BundleResult, committed, is_empty,
}
use suwappu_db.Collections.HashMap
use suwappu_db.Collections.HashMap.{HashMap}
use suwappu_db.State.Address.{Address}
use suwappu_db.State.Canonical.{State}
use suwappu_db.State.Move.ModuleStore.{ModuleStore}
use suwappu_db.State.Move.Types.{ModuleId, module_id_eq, MoveBalanceView}
use suwappu_db.State.Slot.{Balance}
use suwappu_db.State.Store.Interface.{BalanceStore}

-- The modules that the steps deploy, in order.
abbrev pub deployed : List BundleStep → Deploys
deployed [] = []
deployed (deploy_module account name bytes ∷ steps) =
    (record { address = account; name = name }, record { bytes = bytes }) ∷ deployed steps
deployed (evm tx ∷ steps) = deployed steps
deployed (move tx ∷ steps) = deployed steps
deployed (move_call call ∷ steps) = deployed steps

deployed-cons :
    (step : BundleStep) (steps : List BundleStep)
    → deployed (step ∷ []) ++ deployed steps ≡ deployed (step ∷ steps)
deployed-cons (evm tx) steps = refl
deployed-cons (move tx) steps = refl
deployed-cons (move_call call) steps = refl
deployed-cons (deploy_module account name bytes) steps = refl

Result-cases : {E A : Type 0} (r : Result E A) → ((a : A) × (r ≡ ok a)) ⊎ ((e : E) × (r ≡ err e))
Result-cases (ok a) = inl (a, refl)
Result-cases (err e) = inr (e, refl)

module _ {M : Type 0} ⦃m : ModuleStore M⦄ where
  -- What is left of a bundle: reverted with the store as it was, or committed with the flush.
  abbrev Ends : {S : Type 0} → M → Deploys → (State S × M) × BundleResult → Type 0
  Ends store queue r =
      (IsReverted r.1.outcome × (r.0.1 ≡ store))
      ⊎ ((r.1.outcome ≡ committed) × (r.0.1 ≡ flush store queue) × IsFree store queue)

module _ {S M : Type 0} ⦃b : BalanceStore S⦄ ⦃m : ModuleStore M⦄ (executor : MoveExecutor M)
    (view : MoveBalanceView) where
  run_step-IsFree :
      (store : M) (st : State S) (queue : Deploys) (step : BundleStep)
      → IsFree store queue
      → (run_step executor view store st queue step).outcome ≡ ok tt
      → ((run_step executor view store st queue step).queue ≡ queue ++ deployed (step ∷ []))
        × IsFree store (run_step executor view store st queue step).queue
  unfolding run_step
  run_step-IsFree store st queue (evm tx) f h = (sym (append-nil queue), f)
  run_step-IsFree store st queue (move tx) f h = (sym (append-nil queue), f)
  run_step-IsFree store st queue (move_call call) f h =
      elim (Result-cases (executor.execute call store (new_session view))) [
        | inl (o, e) ↦ rw (e, call_step) (sym (append-nil queue), f)
        | inr (x, e) ↦ rw (e, call_step) (sym (append-nil queue), f)
      ]
  run_step-IsFree store st queue (deploy_module account name bytes) f h =
      let id : ModuleId = record { address = account; name = name } in
      elim (Bool-cases (m.contains store id || is_queued id queue)) [
        | inl taken ↦ ground (arith, h, taken)
        | inr free ↦ rw free (
          refl,
          IsFree-append store id (record { bytes = bytes }) queue (ground (arith, free))
              (ground (arith, free)) f,
        )
      ]

  continue_Ends :
      (snap : HashMap Address Balance) (store : M) (idx : ℕ) (outcomes : List TxOutcome)
      (st : State S) (rest : (State S × M) × BundleResult) (r : Result RejectReason (Unit {0}))
      (queue : Deploys)
      → (r ≡ ok tt → Ends store queue rest)
      → Ends store queue (continue_with executor view snap store idx outcomes st rest r)
  unfolding continue_with
  continue_Ends snap store idx outcomes st rest (ok tt) queue h = h refl
  continue_Ends snap store idx outcomes st rest (err reason) queue h = inl (tt, refl)

  deployed_behind :
      (store : M) (st : State S) (queue : Deploys) (step : BundleStep) (steps : List BundleStep)
      → (run_step executor view store st queue step).queue ≡ queue ++ deployed (step ∷ [])
      → (run_step executor view store st queue step).queue ++ deployed steps
        ≡ queue ++ deployed (step ∷ steps)
  deployed_behind store st queue step steps h =
      rw h (append_assoc queue (deployed (step ∷ [])) (deployed steps))
      ∙ ap (λ d. queue ++ d) (deployed-cons step steps)

  run_all-Ends :
      (snap : HashMap Address Balance) (store : M) (st : State S) (queue : Deploys) (idx : ℕ)
      (steps : List BundleStep) (outcomes : List TxOutcome)
      → IsFree store queue
      → Ends store
          (queue ++ deployed steps)
          (run_all executor view snap store st queue idx steps outcomes)
  unfolding run_all
  run_all-Ends snap store st queue idx [] outcomes f = rw (append-nil queue) (inr (refl, refl, f))
  run_all-Ends snap store st queue idx (step ∷ steps) outcomes f =
      let s = run_step executor view store st queue step in
      continue_Ends snap store idx outcomes s.state _ s.outcome (queue ++ deployed (step ∷ steps))
        (λ h.
          let taken = run_step-IsFree store st queue step f h in
          subst
            (λ q. Ends store q (
              run_all executor view snap store s.state s.queue (idx + 1) steps
                (outcomes ++ TxOutcome.committed ∷ [])))
            (deployed_behind store st queue step steps taken.0)
            (run_all-Ends snap store s.state s.queue (idx + 1) steps
              (outcomes ++ TxOutcome.committed ∷ []) taken.1))

  execute-Ends :
      (st : State S) (store : M) (steps : List BundleStep)
      → Ends store
          (deployed steps)
          (execute_with_move_runtime executor view st store (record { steps = steps }))
  unfolding execute_with_move_runtime is_empty flush
  execute-Ends st store [] = inr (refl, refl, tt)
  execute-Ends st store (step ∷ steps) =
      run_all-Ends (collect_snapshot st (step ∷ steps)) store st [] 0 (step ∷ steps) [] tt

  -- The module store is part of the atomic bundle. If the bundle is reverted the store is the one
  -- before the call. If it is committed, the modules that its steps deploy were free in the store and
  -- none is deployed twice, and afterwards the store holds each of them, and every other module as
  -- before.
  pub execute_with_move_runtime_modules :
      (st : State S) (store : M) (bundle : Bundle)
      → (IsReverted (execute_with_move_runtime executor view st store bundle).1.outcome
          → (execute_with_move_runtime executor view st store bundle).0.1 ≡ store)
        × ((execute_with_move_runtime executor view st store bundle).1.outcome ≡ committed
            → IsFree store (deployed bundle.steps)
              × ((id : ModuleId)
                  → m.get (execute_with_move_runtime executor view st store bundle).0.1 id
                    ≡ elim (HashMap.lookup id (deployed bundle.steps)) [
                      | some c ↦ some c
                      | none ↦ m.get store id
                    ]))
  execute_with_move_runtime_modules st store bundle = elim (execute-Ends st store bundle.steps) [
    | inl (back, same) ↦ ((λ r. same), (λ h. elim (subst IsReverted h back) [ ]))
    | inr (done, flushed, free) ↦ (
      (λ r. elim (subst IsReverted done r) [ ]),
      (λ h. (
        free,
        (λ id. ap (λ s. m.get s id) flushed ∙ get-flush store (deployed bundle.steps) id free),
      )),
    )
  ]
