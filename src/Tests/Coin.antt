-- ===== src/Tests/Coin.antt =====
-- Coin transfers by the mock Move executor at concrete inputs.
use suwappu_db.Prelude.{ℕ, ◌+◌, ◌≤◌, ◌<◌, List, [], ◌∷◌, ◌≡◌, ◌≢◌, refl, replicate, u128_mod, arith}
use suwappu_db.Bridge.Intent.{transfer}
use suwappu_db.Bridge.Submit.{submit}
use suwappu_db.Bundle.MoveRuntime.Coin.{after_call, call-eq-submit, self_call_mints}
use suwappu_db.Bundle.Types.{committed}
use suwappu_db.Collections.HashMap
use suwappu_db.State.Address.{
  address_eq, address_beq_iff, MoveAddress, to_evm, from_evm, to_evm-from_evm,
}
use suwappu_db.State.Canonical.{balance_of}
use suwappu_db.State.Move.Mock.{AsksFor, canonical_coin_address, from_le_bytes}
use suwappu_db.State.Move.ModuleStore
use suwappu_db.State.Move.ModuleStore.{in_memory_modules}
use suwappu_db.State.Move.Types.{MoveCall, MoveBalanceView}
use suwappu_db.State.Nonce
use suwappu_db.State.Store.InMemory
use suwappu_db.State.Store.InMemory.{in_memory}
use suwappu_db.Tests.Data.{alice, bob, carol, ledger}

-- Thirty as eight bytes, the least significant first.
abbrev thirty : List ℕ
thirty = 30 ∷ replicate 7 0

abbrev pays : MoveAddress → MoveCall
pays to = record {
  caller = from_evm alice;
  module_id = record {
    address = canonical_coin_address;
    name = record { name = b'c' ∷ b'o' ∷ b'i' ∷ b'n' ∷ [] };
  };
  function = record { name = b't' ∷ b'r' ∷ b'a' ∷ b'n' ∷ b's' ∷ b'f' ∷ b'e' ∷ b'r' ∷ [] };
  type_arguments = [];
  arguments = to.bytes ∷ thirty ∷ [];
}

abbrev ledger_view : MoveBalanceView
ledger_view = record {
  coin_value = λ a. record { amount = balance_of ledger (to_evm a) };
  nonce = λ a. Nonce.default;
}

thirty_lem : from_le_bytes thirty ≡ 30
unfolding from_le_bytes
thirty_lem = refl

asks-bob : AsksFor (pays (from_evm bob)) (from_evm bob) 30
asks-bob = record {
  word = thirty;
  entry = refl;
  arguments = refl;
  address_length = (to_evm-from_evm bob refl).1;
  word_length = refl;
  amount_eq = thirty_lem;
}

asks-alice : AsksFor (pays (from_evm alice)) (from_evm alice) 30
asks-alice = record {
  word = thirty;
  entry = refl;
  arguments = refl;
  address_length = (to_evm-from_evm alice refl).1;
  word_length = refl;
  amount_eq = thirty_lem;
}

alice-ne-bob : to_evm (from_evm alice) ≢ to_evm (from_evm bob)
unfolding to_evm from_evm
alice-ne-bob e = cc ((address_beq_iff alice bob).1 e)

alice_covers : 30 ≤ balance_of ledger (to_evm (from_evm alice))
unfolding to_evm from_evm balance_of InMemory.get HashMap.lookup
alice_covers = omega arith

bob_room : balance_of ledger (to_evm (from_evm bob)) + 30 < u128_mod
unfolding to_evm from_evm balance_of InMemory.get HashMap.lookup
bob_room = omega arith

alice_room : balance_of ledger (to_evm (from_evm alice)) + 30 < u128_mod
unfolding to_evm from_evm balance_of InMemory.get HashMap.lookup
alice_room = omega arith

call-eq-submit_example :
    ((after_call ledger_view ledger ModuleStore.new (pays (from_evm bob))).1.outcome ≡ committed)
    × (balance_of (after_call ledger_view ledger ModuleStore.new (pays (from_evm bob))).0.0 carol
        ≡ balance_of
            (submit ledger (transfer (to_evm (from_evm alice)) (to_evm (from_evm bob)) 30)).0
            carol)
call-eq-submit_example =
    call-eq-submit ledger_view ledger ModuleStore.new (pays (from_evm bob)) (from_evm bob) 30 carol
      asks-bob alice-ne-bob refl refl alice_covers bob_room

self_call_mints_example :
    ((after_call ledger_view ledger ModuleStore.new (pays (from_evm alice))).1.outcome ≡ committed)
    × (balance_of
          (after_call ledger_view ledger ModuleStore.new (pays (from_evm alice))).0.0
          (to_evm (from_evm alice))
        ≡ balance_of ledger (to_evm (from_evm alice)) + 30)
self_call_mints_example =
    self_call_mints ledger_view ledger ModuleStore.new (pays (from_evm alice)) 30 asks-alice refl
      alice_covers alice_room
