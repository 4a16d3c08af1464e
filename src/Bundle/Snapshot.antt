-- ===== src/Bundle/Snapshot.antt =====
-- `collect_snapshot` and `restore_snapshot` of crates/suwappudb-bridge/src/bundle/executor.rs. The
-- order in which the hash map is written back does not matter: each key stands in it once.
pub mod Restore
use suwappu_db.Prelude.{
  inr, inl, Bool-cases, refl, ◌∙◌, ℕ, List, [], ◌∷◌, ◌≡◌, if◌then◌else◌, ◌==◌, arith, Option, none,
  some, All, Bool, true, false,
}
use suwappu_db.Collections.HashMap
use suwappu_db.Collections.HashMap.{HashMap, lookup, or_insert, lookup-or_insert, or_else}
use suwappu_db.Bundle.Types.{BundleStep, evm, move, move_call, deploy_module}
use suwappu_db.State.Address.{Address, address_eq, address_beq_iff, to_evm}
use suwappu_db.State.Canonical.{
  State, balance_of, bytes_of, apply, set_balance, balance_of-set_balance, bytes_of-set_balance,
}
use suwappu_db.State.Slot.{Balance}
use suwappu_db.State.Store.Interface.{BalanceStore}

-- The addresses that the snapshot records for a step. `move_addr_to_evm` is `MoveAddress::to_evm`.
unfoldable pub recorded : BundleStep → List Address
recorded (evm tx) = tx.from ∷ tx.to ∷ []
recorded (move tx) = tx.signer ∷ tx.recipient ∷ []
recorded (move_call c) = to_evm c.caller ∷ []
recorded (deploy_module account name bytes) = to_evm account ∷ []

module _ {S : Type 0} ⦃b : BalanceStore S⦄ where
  record_all : State S → List Address → HashMap Address Balance → HashMap Address Balance
  record_all st [] snap = snap
  record_all st (a ∷ rest) snap = record_all st rest (or_insert a (balance_of st a) snap)

  snapshot_from : State S → List BundleStep → HashMap Address Balance → HashMap Address Balance
  snapshot_from st [] snap = snap
  snapshot_from st (s ∷ steps) snap = snapshot_from st steps (record_all st (recorded s) snap)

  unfoldable pub collect_snapshot : State S → List BundleStep → HashMap Address Balance
  unfolding record_all snapshot_from
  collect_snapshot st steps = snapshot_from st steps []

  unfoldable pub restore_snapshot : State S → HashMap Address Balance → State S
  restore_snapshot st [] = st
  restore_snapshot st ((a, v) ∷ snap) = restore_snapshot (apply st (set_balance a v)) snap
