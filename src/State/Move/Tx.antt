-- ===== src/State/Move/Tx.antt =====
-- crates/suwappudb-state/src/vm/tx.rs: the two transaction shapes and the canonical transfer that
-- both reduce to.
use suwappu_db.Prelude.{ℕ}
use suwappu_db.State.Address.{Address}

pub record EvmTx : Type 0 where
  pub from : Address
  pub to : Address
  pub value : ℕ

pub record MoveTx : Type 0 where
  pub signer : Address
  pub recipient : Address
  pub amount : ℕ

pub record CanonicalTransfer : Type 0 where
  pub from : Address
  pub to : Address
  pub amount : ℕ

-- `EvmTx::to_canonical` and `MoveTx::to_canonical`.
unfoldable pub evm_to_canonical : EvmTx → CanonicalTransfer
evm_to_canonical tx = record { from = tx.from; to = tx.to; amount = tx.value }

unfoldable pub move_to_canonical : MoveTx → CanonicalTransfer
move_to_canonical tx = record { from = tx.signer; to = tx.recipient; amount = tx.amount }
