-- ===== src/Occ/MvStore.antt =====
-- crates/suwappudb-bridge/src/occ/mv_store.rs: the versioned writes of a block. Each function takes
-- the store's lock once, so each is one atomic step. A poisoned lock is not modelled.
pub mod Versions
use suwappu_db.Prelude.{
  last?, ℕ, List, [], ◌∷◌, Option, none, some, Bool, true, false, if◌then◌else◌, nat_ord,
}
use suwappu_db.Collections.BTreeMap
use suwappu_db.Collections.BTreeMap.{BTreeMap}
use suwappu_db.Collections.HashMap
use suwappu_db.Collections.HashMap.{HashMap, or_else}
use suwappu_db.State.Address.{Address, address_eq}
use suwappu_db.State.Canonical.{State, slot_of}
use suwappu_db.State.Slot.{BalanceSlot}
use suwappu_db.State.Store.Interface.{BalanceStore}

abbrev pub TxnIdx : Type 0
TxnIdx = ℕ

pub data ReadSource : Type 0 where
  version : TxnIdx → ReadSource
  snapshot : ReadSource

abbrev pub PerAddress : Type 0
PerAddress = BTreeMap TxnIdx BalanceSlot

-- The field `snapshot` of the source is written by no function that is called.
pub record MvStore : Type 0 where
  pub versions : HashMap Address PerAddress

abbrev pub new : MvStore
new = record { versions = [] }

-- `versions.get(addr)`, and no version where the address is missing.
unfoldable pub at : MvStore → Address → PerAddress
at mv addr = or_else (HashMap.lookup addr mv.versions) []

-- `per_addr.range(..my_idx).next_back()`, of an address that may be missing.
unfoldable pub visible : MvStore → Address → TxnIdx → Option (TxnIdx × BalanceSlot)
unfolding at
visible mv addr idx = BTreeMap.last_below idx (at mv addr)

abbrev pub fall_through : BalanceSlot → Option (TxnIdx × BalanceSlot) → BalanceSlot × ReadSource
fall_through canonical none = (canonical, snapshot)
fall_through canonical (some (v, slot)) = (slot, version v)

unfoldable pub read :
    {S : Type 0} ⦃b : BalanceStore S⦄
    → MvStore
    → State S
    → Address
    → TxnIdx
    → BalanceSlot × ReadSource
read mv st addr my_idx = fall_through (slot_of st addr) (visible mv addr my_idx)

-- `versions.entry(addr).or_default().insert(my_idx, slot)`.
unfoldable pub write : MvStore → Address → BalanceSlot → TxnIdx → MvStore
unfolding at
write mv addr slot my_idx = record {
  versions = HashMap.insert addr (BTreeMap.insert my_idx slot (at mv addr)) mv.versions;
}

-- The loop of `clear_writes` over the maps of all addresses.
remove_version : TxnIdx → HashMap Address PerAddress → HashMap Address PerAddress
remove_version idx [] = []
remove_version idx ((a, m) ∷ rest) = (a, BTreeMap.remove idx m) ∷ remove_version idx rest

null : PerAddress → Bool
null [] = true
null (e ∷ m) = false

-- `versions.retain(|_, m| !m.is_empty())`.
retain_written : HashMap Address PerAddress → HashMap Address PerAddress
unfolding null
retain_written [] = []
retain_written ((a, m) ∷ rest) =
    let kept = retain_written rest in if null m then kept else (a, m) ∷ kept

unfoldable pub clear_writes : MvStore → TxnIdx → MvStore
unfolding remove_version retain_written
clear_writes mv idx = record { versions = retain_written (remove_version idx mv.versions) }

abbrev pub writer : Option (TxnIdx × BalanceSlot) → Option TxnIdx
writer none = none
writer (some (v, slot)) = some v

unfoldable pub highest_writer_below : MvStore → Address → TxnIdx → Option TxnIdx
highest_writer_below mv addr bound = writer (visible mv addr bound)

-- `per_addr.into_iter().next_back()`, for each address that has a version.
unfoldable pub highest : HashMap Address PerAddress → List (Address × BalanceSlot)
highest [] = []
highest ((a, m) ∷ rest) = elim (last? m) [ none ↦ highest rest | some e ↦ (a, e.1) ∷ highest rest ]

unfoldable pub finalise : MvStore → List (Address × BalanceSlot)
unfolding highest
finalise mv = highest mv.versions
