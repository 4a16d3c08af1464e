-- ===== src/Bridge/Submit.antt =====
-- The mutating methods of `Bridge`. Each returns the state and its result, so that what a failing
-- method leaves behind can be stated.
use suwappu_db.Prelude.{
  ℕ, ◌-◌, ◌==◌, nat_beq, ◌||◌, if◌then◌else◌, Option, none, some, ltb, checked_add, Result, ok, err,
  List,
}
use suwappu_db.Bridge.Intent.{
  Intent, transfer, call, deploy_module, RejectReason, insufficient_balance, amount_overflow,
  call_requires_registry, deploy_module_requires_module_store,
}
use suwappu_db.State.Address.{Address, address_eq}
use suwappu_db.State.Canonical.{State, balance_of, apply, set_balance, set_bytes}
use suwappu_db.State.Store.Interface.{BalanceStore}

module _ {S : Type 0} ⦃b : BalanceStore S⦄ where
  -- The two `apply` calls of a transfer: the debit first, then the credit, if the credit fits.
  settle : State S → Address → Address → ℕ → Option ℕ → State S × Result RejectReason (Unit {0})
  settle st from to new_from none = (st, err amount_overflow)
  settle st from to new_from (some new_to) =
      (apply (apply st (set_balance from new_from)) (set_balance to new_to), ok tt)

  unfoldable pub submit : State S → Intent → State S × Result RejectReason (Unit {0})
  unfolding settle
  submit st (call caller target value calldata) = (st, err call_requires_registry)
  submit st (deploy_module account name bytes) = (st, err deploy_module_requires_module_store)
  submit st (transfer from to amount) =
      let from_balance = balance_of st from in
      if ltb from_balance amount
      then (st, err insufficient_balance)
      else if from == to
      then (st, ok tt)
      else settle st from to (from_balance - amount) (checked_add (balance_of st to) amount)

  credited : State S → Address → Option ℕ → State S × Result RejectReason (Unit {0})
  credited st addr none = (st, err amount_overflow)
  credited st addr (some new) = (apply st (set_balance addr new), ok tt)

  unfoldable pub credit : State S → Address → ℕ → State S × Result RejectReason (Unit {0})
  unfolding credited
  credit st addr amount =
      if nat_beq amount 0
      then (st, ok tt)
      else credited st addr (checked_add (balance_of st addr) amount)

  unfoldable pub debit : State S → Address → ℕ → State S × Result RejectReason (Unit {0})
  debit st addr amount =
      if nat_beq amount 0
      then (st, ok tt)
      else if ltb (balance_of st addr) amount
      then (st, err insufficient_balance)
      else (apply st (set_balance addr (balance_of st addr - amount)), ok tt)

  unfoldable pub transfer_internal :
      State S → Address → Address → ℕ → State S × Result RejectReason (Unit {0})
  unfolding settle
  transfer_internal st from to amount =
      if nat_beq amount 0 || from == to
      then (st, ok tt)
      else if ltb (balance_of st from) amount
      then (st, err insufficient_balance)
      else settle st from to (balance_of st from - amount) (checked_add (balance_of st to) amount)

  unfoldable pub write_bytes : State S → Address → List ℕ → State S
  write_bytes st addr bytes = apply st (set_bytes addr bytes)
