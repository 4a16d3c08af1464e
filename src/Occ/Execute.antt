-- ===== src/Occ/Execute.antt =====
-- `execute_one`, `execute_call` and `execute_transfer_into` of
-- crates/suwappudb-bridge/src/occ/block_executor.rs.
use suwappu_db.Prelude.{
  ℕ, ◌-◌, List, [], ◌∷◌, ◌++◌, Option, none, some, if◌then◌else◌, ◌==◌, ltb, checked_add,
}
use suwappu_db.Bridge.Intent.{
  Intent, transfer, call, deploy_module, RejectReason, insufficient_balance, amount_overflow,
}
use suwappu_db.Bundle.Registry
use suwappu_db.Bundle.Registry.{ContractRegistry, CallCtx}
use suwappu_db.Bundle.Types.{BundleStep, evm, move, move_call}
use suwappu_db.Collections.HashMap
use suwappu_db.Collections.HashMap.{HashMap}
use suwappu_db.Occ.MvStore.{TxnIdx, ReadSource}
use suwappu_db.Occ.Speculation.{Speculation, done, mv_read, mv_write, mv_clear_writes, ◌>>=◌, ◌>>◌}
use suwappu_db.Occ.Txn.{Txn, ReadEntry, WriteEntry}
use suwappu_db.State.Address.{Address, address_eq}
use suwappu_db.State.Canonical.{State}
use suwappu_db.State.Slot
use suwappu_db.State.Slot.{BalanceSlot}

abbrev pub entry : Address → ReadSource → ReadEntry
entry addr source = record { addr = addr; source = source }

abbrev pub record_of : TxnIdx → List ReadEntry → List WriteEntry → Option RejectReason → Txn
record_of idx reads writes rejected = record {
  idx = idx;
  read_set = reads;
  write_set = writes;
  rejected = rejected;
}

-- The writes of a transfer whose credit fits. A self-transfer writes the balance back.
unfoldable pub publish_transfer :
    Address → Address → ℕ → ℕ → TxnIdx → List ReadEntry → Option ℕ → Speculation Txn
publish_transfer from to from_balance amount idx reads none =
    done (record_of idx reads [] (some amount_overflow))
publish_transfer from to from_balance amount idx reads (some new_to) =
    let kept = Slot.new from_balance in
    let debited = Slot.new (from_balance - amount) in
    let credited = Slot.new new_to in
    if from == to
    then (do
      mv_write from kept
      done (record_of idx reads (record { addr = from; value = kept } ∷ []) none))
    else do
      mv_write from debited
      mv_write to credited
      done (
          record_of idx reads
            (record { addr = from; value = debited } ∷ record { addr = to; value = credited } ∷ [])
            none)

-- The `Transfer` arm of `execute_one` is this code too.
unfoldable pub execute_transfer_into : Address → Address → ℕ → TxnIdx → Speculation Txn
unfolding publish_transfer
execute_transfer_into from to amount idx = do
  (from_slot, from_src) ← mv_read from
  (to_slot, to_src) ← mv_read to
  let reads = entry from from_src ∷ entry to to_src ∷ []
  if ltb from_slot.canonical amount
      then done (record_of idx reads [] (some insufficient_balance))
      else publish_transfer from to from_slot.canonical amount idx reads
          (checked_add to_slot.canonical amount)

-- The local writes of a bundle hide the versioned store. A read that reaches the store is recorded.
unfoldable pub local_or_mv :
    Address
    → HashMap Address BalanceSlot
    → List ReadEntry
    → Speculation (BalanceSlot × List ReadEntry)
local_or_mv addr local reads = elim (HashMap.lookup addr local) [
  | some slot ↦ done (slot, reads)
  | none ↦
      (mv_read addr >>= λ (r : BalanceSlot × ReadSource). done (r.0, reads ++ entry addr r.1 ∷ []))
]

-- `for (addr, slot) in &local`: the writes of a bundle, each address once. The source walks the hash
-- map in an order of its own choice, the model in that of the list, and the order of a `write_set` is
-- that of the walk.
unfoldable pub publish_local :
    TxnIdx → List ReadEntry → HashMap Address BalanceSlot → List WriteEntry → Speculation Txn
publish_local idx reads [] writes = done (record_of idx reads writes none)
publish_local idx reads ((addr, slot) ∷ local) writes = do
  mv_write addr slot
  publish_local idx reads local (writes ++ record { addr = addr; value = slot } ∷ [])

-- The transfer that a step moves, if it flows through the scheduler.
abbrev pub step_transfer : BundleStep → Option (Address × Address × ℕ)
step_transfer (evm tx) = some (tx.from, tx.to, tx.value)
step_transfer (move tx) = some (tx.signer, tx.recipient, tx.amount)
step_transfer (move_call c) = none
step_transfer (BundleStep.deploy_module account name bytes) = none

abbrev pub local_after :
    Address → Address → ℕ → ℕ → ℕ → HashMap Address BalanceSlot → HashMap Address BalanceSlot
local_after from to from_balance amount new_to local =
    if from == to
    then HashMap.insert from (Slot.new from_balance) local
    else HashMap.insert to (Slot.new new_to)
        (HashMap.insert from (Slot.new (from_balance - amount)) local)

unfoldable pub reject : TxnIdx → List ReadEntry → RejectReason → Speculation Txn
reject idx reads reason = do mv_clear_writes; done (record_of idx reads [] (some reason))

-- The rest of a step, with the bundle's remaining steps behind it.
unfoldable pub settle_step :
    Address
    → Address
    → ℕ
    → TxnIdx
    → HashMap Address BalanceSlot
    → (HashMap Address BalanceSlot → List ReadEntry → Speculation Txn)
    → ℕ
    → List ReadEntry
    → Option ℕ
    → Speculation Txn
settle_step from to amount idx local rest from_balance reads none = reject idx reads amount_overflow
settle_step from to amount idx local rest from_balance reads (some new_to) =
    rest (local_after from to from_balance amount new_to local) reads

unfoldable pub one_step :
    TxnIdx
    → Option (Address × Address × ℕ)
    → HashMap Address BalanceSlot
    → List ReadEntry
    → (HashMap Address BalanceSlot → List ReadEntry → Speculation Txn)
    → Speculation Txn
unfolding local_or_mv settle_step reject
one_step idx none local reads rest = rest local reads
one_step idx (some (from, to, amount)) local reads rest = do
  (from_slot, reads_from) ← local_or_mv from local reads
  (to_slot, reads_to) ← local_or_mv to local reads_from
  if ltb from_slot.canonical amount
      then reject idx reads_to insufficient_balance
      else settle_step from to amount idx local rest from_slot.canonical reads_to
          (checked_add to_slot.canonical amount)

-- The loop over the steps of a bundle.
unfoldable pub execute_steps :
    TxnIdx → List BundleStep → HashMap Address BalanceSlot → List ReadEntry → Speculation Txn
unfolding publish_local one_step
execute_steps idx [] local reads = publish_local idx reads local []
execute_steps idx (step ∷ steps) local reads =
    one_step idx (step_transfer step) local reads (execute_steps idx steps)

module _ {S : Type 0} (registry : ContractRegistry S) (st : State S) where
  unfoldable pub execute_call : Address → Address → ℕ → List ℕ → TxnIdx → Speculation Txn
  execute_call caller target value calldata idx = elim (Registry.get registry target) [
    | none ↦ execute_transfer_into caller target value idx
    | some generate ↦
        let ctx : CallCtx S = record {
          caller = caller;
          target = target;
          value = value;
          calldata = calldata;
          state = st;
          depth = 0;
        } in
        execute_steps idx (generate ctx).steps [] []
  ]

  unfoldable pub execute_one : Intent → TxnIdx → Speculation Txn
  execute_one (transfer from to amount) idx = execute_transfer_into from to amount idx
  execute_one (call caller target value calldata) idx =
      execute_call caller target value calldata idx
  execute_one (deploy_module account name bytes) idx = done (record_of idx [] [] none)
