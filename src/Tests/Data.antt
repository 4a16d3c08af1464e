-- ===== src/Tests/Data.antt =====
-- Addresses, states and a toy hash for the tests.
use suwappu_db.Prelude.{ℕ, ◌+◌, List, [], ◌∷◌, replicate, refl}
use suwappu_db.State.Address.{Address}
use suwappu_db.State.Canonical.{State}
use suwappu_db.State.Slot
use suwappu_db.State.Slot.{BalanceSlot}
use suwappu_db.State.Store.InMemory.{InMemoryBalanceStore}
use suwappu_db.Tree.Commit.{Blake3}

abbrev pub address : ℕ → Address
address n = record { bytes = replicate 20 n }

abbrev pub alice : Address
alice = address 1

abbrev pub bob : Address
bob = address 2

abbrev pub carol : Address
carol = address 3

-- Alice holds 100 and Bob 40.
abbrev pub ledger : State InMemoryBalanceStore
ledger = record {
  store = record { slots = (alice, Slot.new 100) ∷ (bob, Slot.new 40) ∷ []; bytes = [] };
}

abbrev pub ledger_entries : List (Address × BalanceSlot)
ledger_entries = (alice, Slot.new 100) ∷ (bob, Slot.new 40) ∷ []

abbrev pub total_of : List ℕ → ℕ
total_of [] = 0
total_of (x ∷ xs) = x + total_of xs

-- A digest of 32 bytes that stands in for BLAKE3.
abbrev pub toy_hash : Blake3
toy_hash = record { digest = λ input. replicate 32 (total_of input); length-digest = λ input. refl }
