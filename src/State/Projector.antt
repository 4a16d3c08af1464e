-- ===== src/State/Projector.antt =====
-- crates/suwappudb-state/src/vm/projector.rs: the EVM view and the Move view of the state.
use suwappu_db.State.Address.{Address}
use suwappu_db.State.Canonical.{State, slot_of}
use suwappu_db.State.Nonce.{EvmNonce, MoveSequenceNumber, evm_nonce, move_sequence}
use suwappu_db.State.Slot.{EvmBalance, MoveCoinValue, evm_balance, move_coin_value}
use suwappu_db.State.Store.Interface.{BalanceStore}

module _ {S : Type 0} ⦃b : BalanceStore S⦄ where
  -- `EvmView::balance_of` and `EvmProjector::nonce`.
  unfoldable pub evm_view_balance : State S → Address → EvmBalance
  evm_view_balance st addr = evm_balance (slot_of st addr)

  unfoldable pub evm_view_nonce : State S → Address → EvmNonce
  evm_view_nonce st addr = evm_nonce (slot_of st addr).nonce

  -- `MoveView::coin_value` and `MoveProjector::sequence_number`.
  unfoldable pub move_view_coin_value : State S → Address → MoveCoinValue
  move_view_coin_value st addr = move_coin_value (slot_of st addr)

  unfoldable pub move_view_sequence_number : State S → Address → MoveSequenceNumber
  move_view_sequence_number st addr = move_sequence (slot_of st addr).nonce
