-- ===== src/Bundle/MoveRuntime/Coin.antt =====
-- A transfer of the canonical coin, by the mock Move executor inside a bundle, against the bridge.
use suwappu_db.Prelude.{
  if◌then◌else◌, ◌%◌, ◌-◌, ◌==◌, ℕ, ◌+◌, ◌-◌, ◌%◌, ◌<◌, ◌≤◌, [], ◌∷◌, ◌≡◌, ◌≢◌, refl, ◌∙◌, ap,
  arith, u128_mod, ◌==◌,
}
use suwappu_db.Bridge.Intent.{transfer}
use suwappu_db.Bridge.Submit.{submit}
use suwappu_db.Bridge.Transfers.{balance_of-two_writes, submit_moves}
use suwappu_db.Bundle.MoveRuntime.{
  MoveExecutor, apply_resource_writes, flush, run_step, continue_with, run_all,
  execute_with_move_runtime,
}
use suwappu_db.Bundle.Types.{move_call, BundleResult, committed, is_empty}
use suwappu_db.State.Address.{Address, address_eq, address_beq_iff, MoveAddress, to_evm}
use suwappu_db.State.Canonical.{State, balance_of}
use suwappu_db.State.Move.Mock
use suwappu_db.State.Move.Mock.{AsksFor, paid, received, execute_transfers}
use suwappu_db.State.Move.ModuleStore.{ModuleStore}
use suwappu_db.State.Move.Types.{MoveBalanceView, MoveCall}
use suwappu_db.State.Store.Interface.{BalanceStore}

abbrev pub mock_executor : (M : Type 0) → MoveExecutor M
mock_executor M = record { execute = λ call store session. Mock.execute call session }

module _ {S M : Type 0} ⦃b : BalanceStore S⦄ ⦃m : ModuleStore M⦄ (view : MoveBalanceView)
    (st : State S) (store : M) where
  abbrev pub after_call : MoveCall → (State S × M) × BundleResult
  after_call call =
      execute_with_move_runtime (mock_executor M) view st store
        (record { steps = move_call call ∷ [] })

  call_commits :
      (call : MoveCall) (to : MoveAddress) (amount : ℕ)
      → AsksFor call to amount
      → amount ≤ (view.coin_value call.caller).amount
      → ((after_call call).1.outcome ≡ committed)
        × ((after_call call).0.0
            ≡ apply_resource_writes st (paid view call amount ∷ received view to amount ∷ []))
  unfolding execute_with_move_runtime is_empty run_all run_step continue_with flush
  call_commits call to amount asks enough =
      rw (execute_transfers view call to amount asks enough) (refl, refl)

  balance_of-writes :
      (call : MoveCall) (to : MoveAddress) (amount : ℕ) (c : Address)
      → (view.coin_value to).amount + amount < u128_mod
      → balance_of
          (apply_resource_writes st (paid view call amount ∷ received view to amount ∷ []))
          c
        ≡ (if to_evm to == c
            then (view.coin_value to).amount + amount
            else if to_evm call.caller == c
            then (view.coin_value call.caller).amount - amount
            else balance_of st c)
  unfolding apply_resource_writes
  balance_of-writes call to amount c fits =
      let sum = (view.coin_value to).amount + amount in
      let word : sum % u128_mod ≡ sum = omega arith in
      balance_of-two_writes st (to_evm call.caller) (to_evm to)
        ((view.coin_value call.caller).amount - amount) (sum % u128_mod) c
      ∙ rw word refl

  -- A coin transfer between two accounts by the mock Move executor, in a bundle of its own, agrees
  -- with the bridge: if the view shows the balances of the state, the amount is covered and the sum
  -- fits a word, the bundle commits, and every balance is the one after the bridge's transfer.
  pub call-eq-submit :
      (call : MoveCall) (to : MoveAddress) (amount : ℕ) (c : Address)
      → AsksFor call to amount
      → to_evm call.caller ≢ to_evm to
      → (view.coin_value call.caller).amount ≡ balance_of st (to_evm call.caller)
      → (view.coin_value to).amount ≡ balance_of st (to_evm to)
      → amount ≤ balance_of st (to_evm call.caller)
      → balance_of st (to_evm to) + amount < u128_mod
      → ((after_call call).1.outcome ≡ committed)
        × (balance_of (after_call call).0.0 c
            ≡ balance_of (submit st (transfer (to_evm call.caller) (to_evm to) amount)).0 c)
  call-eq-submit call to amount c asks ne vf vt enough fits =
      let run = call_commits call to amount asks (omega (arith, vf, enough)) in
      let writes = balance_of-writes call to amount c (omega (arith, vt, fits)) in
      let moved = submit_moves st (to_evm call.caller) (to_evm to) c amount ne enough fits in
      (
        run.0,
        ap (λ s. balance_of s c) run.1
            ∙ ground (
              arith,
              writes,
              moved,
              vf,
              vt,
              address_beq_iff (to_evm to) c,
              address_beq_iff (to_evm call.caller) c,
            ),
      )

  -- A coin transfer of an account to itself creates coins. If the view shows its balance, the amount
  -- is covered and the sum fits a word, the bundle commits, and the balance is larger by the amount.
  pub self_call_mints :
      (call : MoveCall) (amount : ℕ)
      → AsksFor call call.caller amount
      → (view.coin_value call.caller).amount ≡ balance_of st (to_evm call.caller)
      → amount ≤ balance_of st (to_evm call.caller)
      → balance_of st (to_evm call.caller) + amount < u128_mod
      → ((after_call call).1.outcome ≡ committed)
        × (balance_of (after_call call).0.0 (to_evm call.caller)
            ≡ balance_of st (to_evm call.caller) + amount)
  self_call_mints call amount asks v enough fits =
      let run = call_commits call call.caller amount asks (omega (arith, v, enough)) in
      let writes =
        balance_of-writes call call.caller amount (to_evm call.caller) (omega (arith, v, fits)) in
      (
        run.0,
        ap (λ s. balance_of s (to_evm call.caller)) run.1
            ∙ ground (arith, writes, v, address_beq_iff (to_evm call.caller) (to_evm call.caller)),
      )
