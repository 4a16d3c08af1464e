-- ===== src/Occ/Txn.antt =====
-- crates/suwappudb-bridge/src/occ/txn.rs: the record of a speculative run, and the validator.
use suwappu_db.Prelude.{List, [], ◌∷◌, Option, none, some, Bool, true, false, nat_beq, ◌&&◌}
use suwappu_db.Bridge.Intent.{RejectReason}
use suwappu_db.Occ.MvStore.{MvStore, TxnIdx, ReadSource, version, snapshot, highest_writer_below}
use suwappu_db.State.Address.{Address}
use suwappu_db.State.Slot.{BalanceSlot}

pub record ReadEntry : Type 0 where
  pub addr : Address
  pub source : ReadSource

pub record WriteEntry : Type 0 where
  pub addr : Address
  pub value : BalanceSlot

pub record Txn : Type 0 where
  pub idx : TxnIdx
  pub read_set : List ReadEntry
  pub write_set : List WriteEntry
  pub rejected : Option RejectReason

-- The observed source against the current highest writer.
abbrev pub still_consistent : ReadSource → Option TxnIdx → Bool
still_consistent snapshot none = true
still_consistent snapshot (some c) = false
still_consistent (version v) none = false
still_consistent (version v) (some c) = nat_beq v c

unfoldable pub all_consistent : MvStore → TxnIdx → List ReadEntry → Bool
all_consistent mv idx [] = true
all_consistent mv idx (entry ∷ entries) =
    still_consistent entry.source (highest_writer_below mv entry.addr idx)
    && all_consistent mv idx entries

-- `Validator::is_valid`.
unfoldable pub is_valid : Txn → MvStore → Bool
unfolding all_consistent
is_valid txn mv = all_consistent mv txn.idx txn.read_set
