-- ===== src/Tests/Bridge.antt =====
-- The bridge properties at concrete inputs.
use suwappu_db.State.Slot
use suwappu_db.State.Slot.{IsU128}
use suwappu_db.Prelude.{
  ap, true, false, Bool, some, none, if◌then◌else◌, ◌==◌, none, some, if◌then◌else◌, ◌==◌, Bool,
  ◌+◌, ◌≡◌, ◌≢◌, ◌<◌, ◌≤◌, refl, ok, err, arith, [], ◌∷◌, u128_mod, List,
}
use suwappu_db.Bridge.Intent.{transfer, insufficient_balance, amount_overflow}
use suwappu_db.State.Move.Tx.{evm_to_canonical}
use suwappu_db.Bridge.Vm.{
  evm_execute, move_execute, revert, map_err, IsMoved, AgreeAt, evm_execute-move_execute,
}
use suwappu_db.Bridge.Submit.{submit, credit, debit, transfer_internal}
use suwappu_db.Bridge.Supply.{
  total, total-submit, total-transfer_internal, IsBounded, submit-IsBounded,
}
use suwappu_db.Bridge.Transfers.{
  submit_moves, submit_otherwise, transfer_internal-eq-submit, debit-credit,
}
use suwappu_db.Collections.HashMap
use suwappu_db.State.Address.{Address, address_eq, address_beq_iff}
use suwappu_db.State.Canonical.{balance_of, bytes_of, apply}
use suwappu_db.State.Store.InMemory
use suwappu_db.State.Store.InMemory.{in_memory}
use suwappu_db.Tests.Data.{alice, bob, carol, ledger}

alice-ne-bob : alice ≢ bob
alice-ne-bob e = cc ((address_beq_iff alice bob).1 e)

alice_funds : 30 ≤ balance_of ledger alice
unfolding balance_of InMemory.get HashMap.lookup
alice_funds = omega arith

bob_room : balance_of ledger bob + 30 < u128_mod
unfolding balance_of InMemory.get HashMap.lookup
bob_room = omega arith

alice_room : balance_of ledger alice + 30 < u128_mod
unfolding balance_of InMemory.get HashMap.lookup
alice_room = omega arith

transfer_runs :
    (balance_of (submit ledger (transfer alice bob 30)).0 bob ≡ 70)
    × ((submit ledger (transfer alice bob 130)).1 ≡ err insufficient_balance)
unfolding submit balance_of apply InMemory.get InMemory.set HashMap.lookup HashMap.insert
transfer_runs = (refl, refl)

submit_moves_example :
    ((submit ledger (transfer alice bob 30)).1 ≡ ok tt)
    × (balance_of (submit ledger (transfer alice bob 30)).0 alice + 30 ≡ balance_of ledger alice)
    × (balance_of (submit ledger (transfer alice bob 30)).0 bob ≡ balance_of ledger bob + 30)
    × (carol ≢ alice
        → carol ≢ bob
        → balance_of (submit ledger (transfer alice bob 30)).0 carol ≡ balance_of ledger carol)
    × (bytes_of (submit ledger (transfer alice bob 30)).0 carol ≡ bytes_of ledger carol)
submit_moves_example = submit_moves ledger alice bob carol 30 alice-ne-bob alice_funds bob_room

submit_otherwise_example :
    (balance_of ledger alice < 130
      → submit ledger (transfer alice bob 130) ≡ (ledger, err insufficient_balance))
    × (130 ≤ balance_of ledger alice
        → alice ≢ bob
        → u128_mod ≤ balance_of ledger bob + 130
        → submit ledger (transfer alice bob 130) ≡ (ledger, err amount_overflow))
    × (130 ≤ balance_of ledger alice → submit ledger (transfer alice alice 130) ≡ (ledger, ok tt))
submit_otherwise_example = submit_otherwise ledger alice bob 130

transfer_internal-eq-submit_example :
    (alice ≢ bob
      → 0 < 30
      → transfer_internal ledger alice bob 30 ≡ submit ledger (transfer alice bob 30))
    × (transfer_internal ledger alice alice 30 ≡ (ledger, ok tt))
    × (transfer_internal ledger alice bob 0 ≡ (ledger, ok tt))
transfer_internal-eq-submit_example = transfer_internal-eq-submit ledger alice bob 30

debit-credit_example :
    (balance_of ledger alice + 30 < u128_mod
      → ((credit ledger alice 30).1 ≡ ok tt)
        × ((debit (credit ledger alice 30).0 alice 30).1 ≡ ok tt)
        × (balance_of (debit (credit ledger alice 30).0 alice 30).0 bob ≡ balance_of ledger bob)
        × (bytes_of (debit (credit ledger alice 30).0 alice 30).0 bob ≡ bytes_of ledger bob))
    × (0 < 30
        → u128_mod ≤ balance_of ledger alice + 30
        → credit ledger alice 30 ≡ (ledger, err amount_overflow))
debit-credit_example = debit-credit ledger alice bob 30

abbrev holders : List Address
holders = alice ∷ carol ∷ bob ∷ []

total-submit_example :
    total (submit ledger (transfer alice bob 30)).0 holders ≡ total ledger holders
total-submit_example = total-submit ledger alice bob 30 holders refl refl

total-transfer_internal_example :
    total (transfer_internal ledger alice bob 30).0 holders ≡ total ledger holders
total-transfer_internal_example = total-transfer_internal ledger alice bob 30 holders refl refl

held-IsU128 :
    (first second : Bool)
    → IsU128 (
        HashMap.or_else
          (if first then some (Slot.new 100) else if second then some (Slot.new 40) else none)
          Slot.default)
held-IsU128 true second = omega arith
held-IsU128 false true = omega arith
held-IsU128 false false = omega arith

ledger-IsBounded : IsBounded ledger
unfolding balance_of InMemory.get HashMap.lookup
ledger-IsBounded a = held-IsU128 (alice == a) (bob == a)

submit-IsBounded_example : IsBounded (submit ledger (transfer alice bob 30)).0
submit-IsBounded_example = submit-IsBounded ledger (transfer alice bob 30) ledger-IsBounded

alice_small : balance_of ledger alice < u128_mod
unfolding balance_of InMemory.get HashMap.lookup
alice_small = omega arith

evm_execute-accepts : (evm_execute ledger (record { from = alice; to = bob; value = 30 })).1 ≡ ok tt
unfolding evm_execute evm_to_canonical
evm_execute-accepts =
    ap (map_err revert) (submit_moves ledger alice bob carol 30 alice-ne-bob alice_funds bob_room).0

evm_execute-move_execute_example :
    let evm = evm_execute ledger (record { from = alice; to = bob; value = 30 }) in
    let move_back = move_execute evm.0 (record { signer = bob; recipient = alice; amount = 30 }) in
    let move = move_execute ledger (record { signer = alice; recipient = bob; amount = 30 }) in
    let evm_back = evm_execute move.0 (record { from = bob; to = alice; value = 30 }) in
    IsMoved ledger evm.0 alice bob 30 carol
    × (move_back.1 ≡ ok tt)
    × AgreeAt ledger move_back.0 carol
    × (move.1 ≡ ok tt)
    × IsMoved ledger move.0 alice bob 30 carol
    × (evm_back.1 ≡ ok tt)
    × AgreeAt ledger evm_back.0 carol
evm_execute-move_execute_example =
    evm_execute-move_execute ledger alice bob carol 30 alice-ne-bob alice_small evm_execute-accepts
