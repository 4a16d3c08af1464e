-- ===== src/Occ/Serial.antt =====
-- Why the parallel executor is serialisable: the vocabulary of the proof about
-- crates/suwappudb-bridge/src/occ/block_executor.rs. A run is seen through what it writes at its own
-- index and where each of its reads came from.
pub mod Discipline
pub mod Steps
pub mod Runs
pub mod Passes
pub mod Schedules
pub mod Validation
pub mod Indexed
pub mod Pending
pub mod Iteration
pub mod Invariant
pub mod InOrder
pub mod Ranges
pub mod Loop
pub mod Outcome
use suwappu_db.Prelude.{
  ◌≢◌, ℕ, ◌≡◌, ◌<◌, List, [], ◌∷◌, ◌++◌, Option, none, some, if◌then◌else◌, ◌==◌,
}
use suwappu_db.Occ.Execute.{entry}
use suwappu_db.Occ.MvStore.{MvStore, TxnIdx, ReadSource, version, snapshot, read}
use suwappu_db.Occ.MvStore.Versions.{IsValid, version_at}
use suwappu_db.Occ.Speculation.{Speculation, done, reading, writing, clearing}
use suwappu_db.Occ.Txn.{Txn, ReadEntry}
use suwappu_db.State.Address.{Address, address_eq}
use suwappu_db.State.Canonical.{State, slot_of}
use suwappu_db.State.Slot.{BalanceSlot}
use suwappu_db.State.Store.Interface.{BalanceStore}

-- What one index has written.
abbrev pub Writes : Type 0
Writes = Address → Option BalanceSlot

abbrev pub nothing : Writes
nothing a = none

abbrev pub put : Address → BalanceSlot → Writes → Writes
put a slot w c = if a == c then some slot else w c

unfoldable pub written : MvStore → TxnIdx → Writes
written mv i a = version_at mv a i

-- No address is written twice, and nothing is cleared after a write.
unfoldable pub WritesOnce : {A : Type 0} → Writes → Speculation A → Type 0
WritesOnce w (done txn) = Unit
WritesOnce w (reading a k) = (slot : BalanceSlot) (src : ReadSource) → WritesOnce w (k slot src)
WritesOnce w (writing a slot m) = (w a ≡ none) × WritesOnce (put a slot w) m
WritesOnce w (clearing m) = (w ≡ nothing) × WritesOnce nothing m

-- The read set of the result is each read with its source, behind those made before.
unfoldable pub Records : TxnIdx → List ReadEntry → Speculation Txn → Type 0
Records i reads (done txn) = (txn.idx ≡ i) × (txn.read_set ≡ reads)
Records i reads (reading a k) =
    (slot : BalanceSlot) (src : ReadSource) → Records i (reads ++ entry a src ∷ []) (k slot src)
Records i reads (writing a slot m) = Records i reads m
Records i reads (clearing m) = Records i reads m

-- A run against fixed answers to its reads, with what it has written.
unfoldable pub eval :
    {A : Type 0} → (Address → BalanceSlot × ReadSource) → Speculation A → Writes → A × Writes
eval answer (done r) w = (r, w)
eval answer (reading a k) w = let (slot, src) = answer a in eval answer (k slot src) w
eval answer (writing a slot m) w = eval answer m (put a slot w)
eval answer (clearing m) w = eval answer m nothing

-- Every version of the first store stands in the second.
abbrev pub Within : MvStore → MvStore → Type 0
Within mv later =
    (a : Address) (k : ℕ) (s : BalanceSlot)
    → version_at mv a k ≡ some s
    → version_at later a k ≡ some s

-- The two stores agree below an index.
abbrev pub AgreesBelow : TxnIdx → MvStore → MvStore → Type 0
AgreesBelow i mv later = (k : ℕ) → k < i → written mv k ≡ written later k

-- What the run at an index does to a store: it adds versions at its index and touches no other.
pub record IsMove (i : TxnIdx) (mv later : MvStore) : Type 0 where
  pub valid : IsValid later
  pub others : (k : ℕ) → k ≢ i → written mv k ≡ written later k
  pub within : Within mv later

module _ {S : Type 0} ⦃b : BalanceStore S⦄ (st : State S) where
  -- What the source of a read says of the slot that was read.
  abbrev pub Origin : MvStore → Address → BalanceSlot → ReadSource → Type 0
  Origin mv a slot snapshot = slot ≡ slot_of st a
  Origin mv a slot (version v) = version_at mv a v ≡ some slot

  -- A read of the index between two stores: the later store still has its source, and it is the read
  -- that the later store gives if nothing below the index was written in between.
  pub record IsRead (first last : MvStore) (i : TxnIdx) (a : Address) (slot : BalanceSlot)
      (src : ReadSource) : Type 0 where
    pub origin : Origin last a slot src
    pub exact : AgreesBelow i first last → read last st a i ≡ (slot, src)

  -- The program ran to the result between two stores, and its writes are those of the later one.
  unfoldable pub Ran :
      {A : Type 0} → MvStore → MvStore → TxnIdx → Speculation A → Writes → A → Type 0
  Ran first last i (done t) w txn = (txn ≡ t) × (w ≡ written last i)
  Ran first last i (reading a k) w txn =
      (slot : BalanceSlot) × (src : ReadSource) × IsRead first last i a slot src
      × Ran first last i (k slot src) w txn
  Ran first last i (writing a slot m) w txn = Ran first last i m (put a slot w) txn
  Ran first last i (clearing m) w txn = Ran first last i m nothing txn

  -- Run again on the store, the program gives the same result and the writes that stand there.
  abbrev pub Settled : {A : Type 0} → MvStore → TxnIdx → Speculation A → A → Type 0
  Settled mv i p txn = eval (λ a. read mv st a i) p nothing ≡ (txn, written mv i)
