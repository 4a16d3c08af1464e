-- ===== src/Occ/BlockExecutor.antt =====
-- `BlockExecutor` of crates/suwappudb-bridge/src/occ/block_executor.rs.
use suwappu_db.Prelude.{
  ℕ, zero, suc, ◌+◌, ◌*◌, List, [], ◌∷◌, ◌++◌, map, Option, none, some, ◌&&◌, leb, if◌then◌else◌,
  length, get_elem?,
}
use suwappu_db.Bridge.Intent.{Intent, TxOutcome, committed, rejected, RejectReason}
use suwappu_db.Bundle.Registry
use suwappu_db.Bundle.Registry.{ContractRegistry}
use suwappu_db.Collections.BTreeMap
use suwappu_db.Collections.BTreeMap.{BTreeMap}
use suwappu_db.Collections.HashMap.{or_else}
use suwappu_db.Occ.Execute.{execute_one, record_of}
use suwappu_db.Occ.MvStore
use suwappu_db.Occ.MvStore.{MvStore, TxnIdx, clear_writes, finalise}
use suwappu_db.Occ.Schedule.{Thread, par_iter}
use suwappu_db.Occ.Speculation.{Speculation, done, run}
use suwappu_db.Occ.Txn.{Txn, WriteEntry, is_valid}
use suwappu_db.State.Address.{Address, address_ord}
use suwappu_db.State.Canonical.{State, apply, set_balance}
use suwappu_db.State.Slot.{BalanceSlot}
use suwappu_db.State.Store.Interface.{BalanceStore}
use suwappu_db.Tree.Commit.{Blake3, Commitment}
use suwappu_db.Tree.Ops.{from_state, root}

pub record BlockReport : Type 0 where
  pub outcomes : List TxOutcome
  pub iterations : ℕ
  pub aborts : ℕ
  pub state_root : Commitment
  pub collapsed_to_sequential : Option Address

abbrev pub collapse_threshold_num : ℕ
collapse_threshold_num = 1

abbrev pub collapse_threshold_den : ℕ
collapse_threshold_den = 4

-- The record of a transaction that has not run.
abbrev pub unrun : TxnIdx → Txn
unrun idx = record_of idx [] [] none

-- `lo, lo + 1, …`, as many as the count says.
unfoldable pub range_from : ℕ → ℕ → List ℕ
range_from lo zero = []
range_from lo (suc count) = lo ∷ range_from (lo + 1) count

unfoldable pub set_txn : ℕ → Txn → List Txn → List Txn
set_txn i txn [] = []
set_txn zero txn (t ∷ ts) = txn ∷ ts
set_txn (suc i) txn (t ∷ ts) = t ∷ set_txn i txn ts

unfoldable pub store_runs : List (TxnIdx × Txn) → List Txn → List Txn
unfolding set_txn
store_runs [] txns = txns
store_runs ((idx, txn) ∷ runs) txns = store_runs runs (set_txn idx txn txns)

-- `*aborts_by_addr.entry(w.addr).or_insert(0) += 1`, for each write of the transaction.
unfoldable pub tally_writes : List WriteEntry → BTreeMap Address ℕ → BTreeMap Address ℕ
tally_writes [] tally = tally
tally_writes (w ∷ ws) tally =
    tally_writes ws (BTreeMap.insert w.addr (or_else (BTreeMap.lookup w.addr tally) 0 + 1) tally)

pub record Validation : Type 0 where
  pub mv : MvStore
  pub next_pending : List TxnIdx
  pub aborts : ℕ
  pub aborts_by_addr : BTreeMap Address ℕ

unfoldable pub abort_txn : TxnIdx → Txn → Validation → Validation
unfolding tally_writes
abort_txn idx txn v = record {
  mv = clear_writes v.mv idx;
  next_pending = v.next_pending ++ idx ∷ [];
  aborts = v.aborts + 1;
  aborts_by_addr = tally_writes txn.write_set v.aborts_by_addr;
}

-- The validation pass, in index order.
unfoldable pub validate_from : TxnIdx → List Txn → Validation → Validation
unfolding abort_txn
validate_from idx [] v = v
validate_from idx (txn ∷ txns) v =
    validate_from (suc idx) txns (if is_valid txn v.mv then v else abort_txn idx txn v)

-- The first address whose aborts reach the threshold.
unfoldable pub hot_address : ℕ → BTreeMap Address ℕ → Option Address
hot_address prev_pending_count [] = none
hot_address prev_pending_count ((addr, count) ∷ rest) =
    if leb (prev_pending_count * collapse_threshold_num) (count * collapse_threshold_den)
      && leb 2 count
    then some addr
    else hot_address prev_pending_count rest

pub record Run : Type 0 where
  pub mv : MvStore
  pub txns : List Txn
  pub pending : List TxnIdx
  pub iterations : ℕ
  pub aborts : ℕ
  pub collapsed_hot_addr : Option Address

abbrev pub outcome_of : Option RejectReason → TxOutcome
outcome_of none = committed
outcome_of (some reason) = rejected reason

unfoldable pub clear_all : List TxnIdx → MvStore → MvStore
clear_all [] mv = mv
clear_all (idx ∷ idxs) mv = clear_all idxs (clear_writes mv idx)

module _ {S : Type 0} ⦃b : BalanceStore S⦄ (registry : ContractRegistry S) (st : State S) where
  -- `execute_one(block[idx], …)`. An index outside of the block would panic; none occurs.
  unfoldable pub speculate : List Intent → TxnIdx → Speculation Txn
  speculate block idx = elim (get_elem? block idx) [
    | none ↦ done (unrun idx)
    | some intent ↦ execute_one registry st intent idx
  ]

  unfoldable pub threads : List Intent → List TxnIdx → List Thread
  threads block [] = []
  threads block (idx ∷ idxs) = record { idx = idx; rest = speculate block idx } ∷ threads block idxs

  -- The body of the loop up to the circuit breaker.
  unfoldable pub iterate : List Intent → List ℕ → Run → Run
  unfolding threads validate_from store_runs hot_address
  iterate block choices s =
      let (runs, mv) = par_iter st choices (threads block s.pending) s.mv in
      let txns = store_runs runs s.txns in
      let v =
        validate_from 0 txns
          (record { mv = mv; next_pending = []; aborts = s.aborts; aborts_by_addr = [] }) in
      record {
        mv = v.mv;
        txns = txns;
        pending = v.next_pending;
        iterations = s.iterations + 1;
        aborts = v.aborts;
        collapsed_hot_addr = hot_address (length s.pending) v.aborts_by_addr;
      }

  -- One transaction after the other, each on the writes of those before it.
  unfoldable pub sequential : TxnIdx → List Intent → MvStore → List Txn × MvStore
  sequential idx [] mv = ([], mv)
  sequential idx (intent ∷ block) mv =
      let (txn, mv') = run st idx (execute_one registry st intent idx) mv in
      let (txns, mv'') = sequential (suc idx) block mv' in (txn ∷ txns, mv'')

  -- The circuit breaker: all writes are dropped and the block is run in order.
  unfoldable pub collapse : List Intent → Run → Run
  unfolding range_from clear_all
  collapse block s =
      let (txns, mv) = sequential 0 block (clear_all (range_from 0 (length block)) s.mv) in
      record s { mv = mv; txns = txns }

  -- The loop. `fuel` is the number of iterations that the assertion still admits, and `none` is
  -- its panic. `choices` gives the schedule of each iteration.
  unfoldable pub loop : ℕ → List Intent → (ℕ → List ℕ) → Run → Option Run
  loop zero block choices s = elim s.pending [ [] ↦ some s | i ∷ is ↦ none ]
  loop (suc fuel) block choices s =
      let s' = iterate block (choices s.iterations) s in
      let onward = loop fuel block choices s' in
      elim s.pending [
        | [] ↦ some s
        | i ∷ is ↦ elim s'.collapsed_hot_addr [
          | none ↦ onward
          | some hot ↦ some (collapse block s')
        ]
      ]

  unfoldable pub start : List Intent → Run
  unfolding range_from
  start block = record {
    mv = MvStore.new;
    txns = map unrun (range_from 0 (length block));
    pending = range_from 0 (length block);
    iterations = 0;
    aborts = 0;
    collapsed_hot_addr = none;
  }

  -- Consolidation: the highest version of each address, through the bridge.
  unfoldable pub consolidate : State S → List (Address × BalanceSlot) → State S
  consolidate cur [] = cur
  consolidate cur ((addr, slot) ∷ writes) =
      consolidate (apply cur (set_balance addr slot.canonical)) writes

  unfoldable pub report_of : Blake3 → Run → State S × BlockReport
  report_of h s =
      let final = consolidate st (finalise s.mv) in
      (
        final,
        record {
          outcomes = map (λ t. outcome_of t.rejected) s.txns;
          iterations = s.iterations;
          aborts = s.aborts;
          state_root = root h (from_state final);
          collapsed_to_sequential = s.collapsed_hot_addr;
        },
      )

  -- The report of an empty block.
  unfoldable pub empty_report : Blake3 → BlockReport
  empty_report h = record {
    outcomes = [];
    iterations = 0;
    aborts = 0;
    state_root = root h (from_state st);
    collapsed_to_sequential = none;
  }

  unfoldable pub execute_with_registry :
      Blake3 → (ℕ → List ℕ) → List Intent → Option (State S × BlockReport)
  unfolding start report_of empty_report
  execute_with_registry h choices [] = some (st, empty_report h)
  execute_with_registry h choices (intent ∷ intents) =
      let block = intent ∷ intents in
      elim (loop (2 * length block + 4) block choices (start block)) [
        | none ↦ none
        | some s ↦ some (report_of h s)
      ]

-- `BlockExecutor::execute`: no contract is registered.
unfoldable pub execute :
    {S : Type 0} ⦃b : BalanceStore S⦄
    → Blake3
    → (ℕ → List ℕ)
    → State S
    → List Intent
    → Option (State S × BlockReport)
execute h choices st block = execute_with_registry Registry.new st h choices block
