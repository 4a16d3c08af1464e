-- ===== src/Occ/Sequential/Transfer.antt =====
-- One run of `execute_transfer_into` with no other run in between, on each of its branches.
use suwappu_db.Prelude.{ℕ, ◌+◌, ◌-◌, ◌≡◌, ◌≢◌, ◌≤◌, ◌<◌, none, some, arith, [], ◌∷◌, u128_mod, List}
use suwappu_db.Bridge.Intent.{insufficient_balance, amount_overflow}
use suwappu_db.Occ.Execute.{execute_transfer_into, record_of, entry}
use suwappu_db.Occ.MvStore.{MvStore, TxnIdx, read, write}
use suwappu_db.Occ.Sequential.Reads.{seen}
use suwappu_db.Occ.Speculation.{run, ◌>>=◌}
use suwappu_db.Occ.Txn.{Txn, ReadEntry}
use suwappu_db.State.Address.{Address, address_eq, address_beq_iff}
use suwappu_db.State.Canonical.{State}
use suwappu_db.State.Slot
use suwappu_db.State.Slot.{BalanceSlot}
use suwappu_db.State.Store.Interface.{BalanceStore}

module _ {S : Type 0} ⦃b : BalanceStore S⦄ (st : State S) (mv : MvStore) where
  abbrev pub alone : Address → Address → ℕ → TxnIdx → Txn × MvStore
  alone from to amount idx = run st idx (execute_transfer_into from to amount idx) mv

  abbrev reads_of : Address → Address → TxnIdx → List ReadEntry
  reads_of from to idx = entry from (read mv st from idx).1 ∷ entry to (read mv st to idx).1 ∷ []

  pub run_uncovered :
      (from to : Address) (amount : ℕ) (idx : TxnIdx)
      → (seen st mv from idx).canonical < amount
      → alone from to amount idx
        ≡ (record_of idx (reads_of from to idx) [] (some insufficient_balance), mv)
  unfolding run execute_transfer_into ◌>>=◌ seen
  run_uncovered from to amount idx h = ground arith

  pub run_overflow :
      (from to : Address) (amount : ℕ) (idx : TxnIdx)
      → amount ≤ (seen st mv from idx).canonical
      → u128_mod ≤ (seen st mv to idx).canonical + amount
      → alone from to amount idx
        ≡ (record_of idx (reads_of from to idx) [] (some amount_overflow), mv)
  unfolding run execute_transfer_into ◌>>=◌ seen
  run_overflow from to amount idx h o = ground arith

  pub run_settles :
      (from to : Address) (amount : ℕ) (idx : TxnIdx)
      → from ≢ to
      → amount ≤ (seen st mv from idx).canonical
      → (seen st mv to idx).canonical + amount < u128_mod
      → ((alone from to amount idx).0.rejected ≡ none)
        × ((alone from to amount idx).1
            ≡ write
                (write mv from (Slot.new ((seen st mv from idx).canonical - amount)) idx)
                to
                (Slot.new ((seen st mv to idx).canonical + amount))
                idx)
  unfolding run execute_transfer_into ◌>>=◌ seen
  run_settles from to amount idx ne h o = ground (arith, address_beq_iff from to)
