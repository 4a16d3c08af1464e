-- ===== src/Bridge/Vm.antt =====
-- crates/suwappudb-bridge/src/vm/executor.rs: the mock executors of both virtual machines.
use suwappu_db.Prelude.{
  ◌≡◌, ◌≢◌, ◌+◌, ◌≤◌, ◌<◌, ℕ, Result, ok, err, arith, ap, sym, u128_mod, beq-cases, subst, ◌∙◌, inl,
  inr,
}
use suwappu_db.Bridge.Intent.{transfer, RejectReason}
use suwappu_db.Bridge.Submit.{submit}
use suwappu_db.Bridge.Transfers.{submit_moves}
use suwappu_db.State.Address.{Address, address_eq, address_beq_iff}
use suwappu_db.State.Canonical.{State, balance_of, bytes_of}
use suwappu_db.State.Move.Tx.{EvmTx, MoveTx, CanonicalTransfer, evm_to_canonical, move_to_canonical}
use suwappu_db.State.Store.Interface.{BalanceStore}

pub data EvmError : Type 0 where
  revert : RejectReason → EvmError

pub data MoveError : Type 0 where
  abort : RejectReason → MoveError

-- `?` on the result of the bridge, with the conversion of the error.
abbrev pub map_err : {E F A : Type 0} → (E → F) → Result E A → Result F A
map_err f (ok a) = ok a
map_err f (err e) = err (f e)

map_err_ok : {E F A : Type 0} (f : E → F) (r : Result E A) (a : A) → map_err f r ≡ ok a → r ≡ ok a
map_err_ok f (ok x) a h = ground (arith, h)
map_err_ok f (err e) a h = cc h

module _ {S : Type 0} ⦃b : BalanceStore S⦄ where
  -- `MockEvm::execute`.
  unfoldable pub evm_execute : State S → EvmTx → State S × Result EvmError (Unit {0})
  evm_execute st tx =
      let canonical : CanonicalTransfer = evm_to_canonical tx in
      let (st', result) = submit st (transfer canonical.from canonical.to canonical.amount) in
      (st', map_err revert result)

  -- `MockMove::execute`.
  unfoldable pub move_execute : State S → MoveTx → State S × Result MoveError (Unit {0})
  move_execute st tx =
      let canonical : CanonicalTransfer = move_to_canonical tx in
      let (st', result) = submit st (transfer canonical.from canonical.to canonical.amount) in
      (st', map_err abort result)

  -- The amount has left the one address and reached the other, and nothing else has changed at `c`.
  abbrev pub IsMoved : State S → State S → Address → Address → ℕ → Address → Type 0
  IsMoved st after from to amount c =
      (balance_of after from + amount ≡ balance_of st from)
      × (balance_of after to ≡ balance_of st to + amount)
      × (c ≢ from → c ≢ to → balance_of after c ≡ balance_of st c)
      × (bytes_of after c ≡ bytes_of st c)

  -- The two states hold the same at `c`.
  abbrev pub AgreeAt : State S → State S → Address → Type 0
  AgreeAt st back c = (balance_of back c ≡ balance_of st c) × (bytes_of back c ≡ bytes_of st c)

  -- What an accepted transfer between two addresses had to begin with.
  submit_accepted :
      (st : State S) (from to : Address) (amount : ℕ)
      → from ≢ to
      → (submit st (transfer from to amount)).1 ≡ ok tt
      → (amount ≤ balance_of st from) × (balance_of st to + amount < u128_mod)
  unfolding submit
  submit_accepted st from to amount ne run = ground (arith, address_beq_iff from to, run)

  -- An accepted transfer of the bridge and then the opposite one.
  submit_back :
      (st : State S) (from to c : Address) (amount : ℕ)
      → from ≢ to
      → balance_of st from < u128_mod
      → (submit st (transfer from to amount)).1 ≡ ok tt
      → let there = submit st (transfer from to amount) in
        let back = submit there.0 (transfer to from amount) in
        IsMoved st there.0 from to amount c × (back.1 ≡ ok tt) × AgreeAt st back.0 c
  submit_back st from to c amount ne small accepted =
      let (enough, fits) = submit_accepted st from to amount ne accepted in
      let there = submit st (transfer from to amount) in
      let (run, left, reached, others, blobs) = submit_moves st from to c amount ne enough fits in
      let (run', left', reached', others', blobs') =
        submit_moves there.0 to from c amount (λ e. ne (sym e)) (omega (arith, reached))
          (omega (arith, left, small)) in
      let back = submit there.0 (transfer to from amount) in
      let home : balance_of back.0 from ≡ balance_of st from = omega (arith, left, reached') in
      let away : balance_of back.0 to ≡ balance_of st to = omega (arith, left', reached) in
      let restored : balance_of back.0 c ≡ balance_of st c = elim (beq-cases c from) [
        | inl same ↦ subst (λ k. balance_of back.0 k ≡ balance_of st k) (sym same) home
        | inr from_c ↦ elim (beq-cases c to) [
          | inl same ↦ subst (λ k. balance_of back.0 k ≡ balance_of st k) (sym same) away
          | inr to_c ↦ others' to_c.1 from_c.1 ∙ others from_c.1 to_c.1
        ]
      ] in
      ((left, reached, others, blobs), run', (restored, blobs' ∙ blobs))

  -- Between two different addresses, the first with a u128: if an EVM transaction is accepted, it moves
  -- exactly its value from its sender to its recipient, and the Move transaction back from the
  -- recipient to the sender is accepted and restores every balance and blob. The Move transaction of
  -- the same transfer is then accepted too, moves the same, and is undone in the same way by the EVM
  -- transaction back.
  pub evm_execute-move_execute :
      (st : State S) (from to c : Address) (amount : ℕ)
      → from ≢ to
      → balance_of st from < u128_mod
      → (evm_execute st (record { from = from; to = to; value = amount })).1 ≡ ok tt
      → let evm = evm_execute st (record { from = from; to = to; value = amount }) in
        let move_back =
          move_execute evm.0 (record { signer = to; recipient = from; amount = amount }) in
        let move = move_execute st (record { signer = from; recipient = to; amount = amount }) in
        let evm_back = evm_execute move.0 (record { from = to; to = from; value = amount }) in
        IsMoved st evm.0 from to amount c
        × (move_back.1 ≡ ok tt)
        × AgreeAt st move_back.0 c
        × (move.1 ≡ ok tt)
        × IsMoved st move.0 from to amount c
        × (evm_back.1 ≡ ok tt)
        × AgreeAt st evm_back.0 c
  unfolding evm_execute move_execute evm_to_canonical move_to_canonical
  evm_execute-move_execute st from to c amount ne small accepted =
      let first : (submit st (transfer from to amount)).1 ≡ ok tt =
        map_err_ok revert (submit st (transfer from to amount)).1 tt accepted in
      let (moved, run, agree) = submit_back st from to c amount ne small first in
      (
        moved,
        ap (map_err abort) run,
        agree,
        ap (map_err abort) first,
        moved,
        ap (map_err revert) run,
        agree,
      )
