-- ===== src/Bundle/MoveRuntime/Escape.antt =====
-- The writes of a Move call that the restore of a bundle does not reach.
use suwappu_db.Prelude.{All, [], ◌∷◌, ◌≡◌, ◌≢◌, refl, ◌∙◌, ok, err, arith}
use suwappu_db.Bundle.Atomicity.{IsReverted}
use suwappu_db.Bundle.MoveRuntime.{
  MoveExecutor, apply_resource_writes, run_step, continue_with, run_all, execute_with_move_runtime,
}
use suwappu_db.Bundle.Snapshot.{collect_snapshot, restore_snapshot, recorded}
use suwappu_db.Bundle.Types.{move_call, is_empty}
use suwappu_db.Collections.HashMap.{HashMap, or_insert}
use suwappu_db.State.Address.{Address, address_eq, address_beq_iff, to_evm}
use suwappu_db.State.Canonical.{State, balance_of, apply, set_balance, balance_of-set_balance}
use suwappu_db.State.Move.ModuleStore.{ModuleStore}
use suwappu_db.State.Move.Types.{
  MoveBalanceView, MoveCall, MoveOutcome, MoveExecutionError, ResourceWrite, new_session,
}
use suwappu_db.State.Slot.{Balance}
use suwappu_db.State.Store.Interface.{BalanceStore}

abbrev Misses : Address → HashMap Address Balance → Type 0
Misses c snap = All (λ e. c ≢ e.0) snap

Misses-or_insert :
    (c a : Address) (v : Balance) (snap : HashMap Address Balance)
    → c ≢ a
    → Misses c snap
    → Misses c (or_insert a v snap)
unfolding or_insert
Misses-or_insert c a v [] ne h = (ne, tt)
Misses-or_insert c a v ((d, w) ∷ snap) ne h = ground (arith, ne, h, Misses-or_insert c a v snap)

module _ {S : Type 0} ⦃b : BalanceStore S⦄ where
  restore-unrecorded :
      (cur : State S) (snap : HashMap Address Balance) (c : Address)
      → Misses c snap
      → balance_of (restore_snapshot cur snap) c ≡ balance_of cur c
  unfolding restore_snapshot
  restore-unrecorded cur [] c h = refl
  restore-unrecorded cur ((a, v) ∷ snap) c h =
      restore-unrecorded (apply cur (set_balance a v)) snap c h.1
      ∙ ground (arith, h.0, address_beq_iff a c, balance_of-set_balance cur a c v)

module _ {S M : Type 0} ⦃b : BalanceStore S⦄ ⦃m : ModuleStore M⦄ (executor : MoveExecutor M)
    (view : MoveBalanceView) where
  -- The address of a resource write that is not the caller of any step keeps the written balance when
  -- the bundle is reverted: here a call with one write, and then a call that fails.
  pub execute_with_move_runtime_escapes :
      (st : State S) (store : M) (first second : MoveCall) (outcome : MoveOutcome)
      (w : ResourceWrite) (e : MoveExecutionError)
      → executor.execute first store (new_session view) ≡ ok outcome
      → outcome.resource_writes ≡ w ∷ []
      → executor.execute second store (new_session view) ≡ err e
      → to_evm w.addr ≢ to_evm first.caller
      → to_evm w.addr ≢ to_evm second.caller
      → IsReverted
          (execute_with_move_runtime executor view st store
            (record { steps = move_call first ∷ move_call second ∷ [] })).1.outcome
        × (balance_of
              (execute_with_move_runtime executor view st store
                (record { steps = move_call first ∷ move_call second ∷ [] })).0.0
              (to_evm w.addr)
            ≡ w.coin_value.amount)
  unfolding execute_with_move_runtime is_empty run_all run_step continue_with collect_snapshot
      recorded apply_resource_writes
  execute_with_move_runtime_escapes st store first second outcome w e ran wrote failed ne ne' =
      let c = to_evm w.addr in
      let kept = apply st (set_balance c w.coin_value.amount) in
      let snap = collect_snapshot st (move_call first ∷ move_call second ∷ []) in
      let missed : Misses c snap =
        Misses-or_insert c (to_evm second.caller) _ _ ne'
          (Misses-or_insert c (to_evm first.caller) _ [] ne tt) in
      rw (ran, failed, wrote)
        (
          tt,
          restore-unrecorded kept snap c missed
              ∙ balance_of-set_balance st c c w.coin_value.amount
              ∙ rw ((address_beq_iff c c).1 refl) refl,
        )
