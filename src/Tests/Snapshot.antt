-- ===== src/Tests/Snapshot.antt =====
-- A snapshot of a small state.
use suwappu_db.State.Snapshot.Restored.{restore-from_state, IsCapturable}
use suwappu_db.State.Canonical.{bytes_of, balance_of, bytes_entries, State}
use suwappu_db.State.Snapshot.{restore_into_state, from_state, StateSnapshot}
use suwappu_db.Collections.HashMap
use suwappu_db.State.Address.{Address, address_eq}
use suwappu_db.Prelude.{◌≡◌, ◌+◌, refl, [], ◌∷◌, some, none, ok, arith, length}
use suwappu_db.State.Store.InMemory
use suwappu_db.State.Slot
use suwappu_db.State.Canonical
use suwappu_db.State.Store.Interface.{stored}
use suwappu_db.State.Store.InMemory.{InMemoryBalanceStore, entries, in_memory}
use suwappu_db.Tests.Data.{alice, bob, carol, ledger}

abbrev captured : State InMemoryBalanceStore
captured = record {
  store = record {
    slots = (bob, Slot.new 7) ∷ (alice, Slot.new 100) ∷ [];
    bytes = (carol, 1 ∷ 2 ∷ 3 ∷ []) ∷ [];
  };
}

captured-IsCapturable : IsCapturable captured
unfolding Canonical.entries Canonical.bytes_entries InMemory.entries InMemory.bytes_entries
    HashMap.lookup
captured-IsCapturable = record {
  distinct = (refl, (refl, tt));
  distinct_blobs = (refl, tt);
  writable = ((refl, omega arith), ((refl, omega arith), tt));
  writable_blobs = ((refl, omega arith), tt);
  few = omega arith;
  few_blobs = omega arith;
}

restore-from_state_example :
    (snapshot : StateSnapshot) × (restored : State InMemoryBalanceStore) × (from_state 1700000000
        captured 1000 none
      ≡ some snapshot)
    × (restore_into_state snapshot ledger ≡ (
      restored,
      ok (length (Canonical.entries captured) + length (Canonical.bytes_entries captured)),
    ))
    × ((a : Address)
        → balance_of restored a ≡ elim (HashMap.lookup a (Canonical.entries captured)) [
          | none ↦ balance_of ledger a
          | some s ↦ s.canonical
        ])
    × ((a : Address)
        → bytes_of restored a ≡ elim (HashMap.lookup a (Canonical.bytes_entries captured)) [
          | none ↦ bytes_of ledger a
          | some w ↦ stored w
        ])
restore-from_state_example =
    restore-from_state 1700000000 1000 none captured ledger captured-IsCapturable
