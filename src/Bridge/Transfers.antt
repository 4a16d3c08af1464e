-- ===== src/Bridge/Transfers.antt =====
-- What a transfer does to every balance and blob, on each of its branches.
use suwappu_db.Prelude.{
  ℕ, ◌+◌, ◌-◌, ◌≤◌, ◌<◌, ◌≡◌, ◌≢◌, ◌==◌, if◌then◌else◌, arith, ok, err, u128_mod,
}
use suwappu_db.Bridge.Intent.{transfer, insufficient_balance, amount_overflow}
use suwappu_db.Bridge.Submit.{submit, credit, debit, transfer_internal}
use suwappu_db.State.Address.{Address, address_eq, address_beq_iff}
use suwappu_db.State.Canonical.{
  State, balance_of, bytes_of, apply, set_balance, balance_of-set_balance, bytes_of-set_balance,
}
use suwappu_db.State.Store.Interface.{BalanceStore}

module _ {S : Type 0} ⦃b : BalanceStore S⦄ (st : State S) where
  -- The balance of `c` after two writes.
  pub balance_of-two_writes :
      (from to : Address) (v w : ℕ) (c : Address)
      → balance_of (apply (apply st (set_balance from v)) (set_balance to w)) c
        ≡ (if to == c then w else if from == c then v else balance_of st c)
  balance_of-two_writes from to v w c = ground (
    arith,
    balance_of-set_balance (apply st (set_balance from v)) to c w,
    balance_of-set_balance st from c v,
  )

  pub bytes_of-two_writes :
      (from to : Address) (v w : ℕ) (c : Address)
      → bytes_of (apply (apply st (set_balance from v)) (set_balance to w)) c ≡ bytes_of st c
  bytes_of-two_writes from to v w c = ground (
    arith,
    bytes_of-set_balance (apply st (set_balance from v)) to c w,
    bytes_of-set_balance st from c v,
  )

  -- An accepted transfer between two addresses moves exactly the amount, and changes no other
  -- balance and no blob.
  pub submit_moves :
      (from to c : Address) (amount : ℕ)
      → from ≢ to
      → amount ≤ balance_of st from
      → balance_of st to + amount < u128_mod
      → ((submit st (transfer from to amount)).1 ≡ ok tt)
        × (balance_of (submit st (transfer from to amount)).0 from + amount ≡ balance_of st from)
        × (balance_of (submit st (transfer from to amount)).0 to ≡ balance_of st to + amount)
        × (c ≢ from
            → c ≢ to
            → balance_of (submit st (transfer from to amount)).0 c ≡ balance_of st c)
        × (bytes_of (submit st (transfer from to amount)).0 c ≡ bytes_of st c)
  unfolding submit
  submit_moves from to c amount ne enough fits =
      let v = balance_of st from - amount in
      let w = balance_of st to + amount in
      ground (
        arith,
        address_beq_iff from to,
        address_beq_iff to from,
        address_beq_iff from from,
        address_beq_iff to to,
        address_beq_iff from c,
        address_beq_iff to c,
        balance_of-two_writes from to v w from,
        balance_of-two_writes from to v w to,
        balance_of-two_writes from to v w c,
        bytes_of-two_writes from to v w c,
      )

  -- A transfer that is not accepted says why and leaves the state as it was: a balance below the
  -- amount is reported first, an overflow of the recipient only between two different addresses,
  -- and a self-transfer that is covered succeeds and changes nothing.
  pub submit_otherwise :
      (from to : Address) (amount : ℕ)
      → (balance_of st from < amount
          → submit st (transfer from to amount) ≡ (st, err insufficient_balance))
        × (amount ≤ balance_of st from
            → from ≢ to
            → u128_mod ≤ balance_of st to + amount
            → submit st (transfer from to amount) ≡ (st, err amount_overflow))
        × (amount ≤ balance_of st from → submit st (transfer from from amount) ≡ (st, ok tt))
  unfolding submit
  submit_otherwise from to amount =
      ground (arith, address_beq_iff from to, address_beq_iff from from)

  -- The internal transfer and the submitted one agree between two different addresses at every
  -- positive amount. At a zero amount or from an address to itself the internal transfer succeeds and changes
  -- nothing, also where the submitted one is refused for want of balance.
  pub transfer_internal-eq-submit :
      (from to : Address) (amount : ℕ)
      → (from ≢ to
          → 0 < amount
          → transfer_internal st from to amount ≡ submit st (transfer from to amount))
        × (transfer_internal st from from amount ≡ (st, ok tt))
        × (transfer_internal st from to 0 ≡ (st, ok tt))
  unfolding submit transfer_internal
  transfer_internal-eq-submit from to amount =
      ground (arith, address_beq_iff from to, address_beq_iff from from)

  -- A credit that is accepted and then debited again gives back every balance and every blob, and
  -- the debit is accepted. The credit is refused exactly for an overflow.
  pub debit-credit :
      (a c : Address) (amount : ℕ)
      → (balance_of st a + amount < u128_mod
          → ((credit st a amount).1 ≡ ok tt)
            × ((debit (credit st a amount).0 a amount).1 ≡ ok tt)
            × (balance_of (debit (credit st a amount).0 a amount).0 c ≡ balance_of st c)
            × (bytes_of (debit (credit st a amount).0 a amount).0 c ≡ bytes_of st c))
        × (0 < amount
            → u128_mod ≤ balance_of st a + amount
            → credit st a amount ≡ (st, err amount_overflow))
  unfolding credit debit
  debit-credit a c amount =
      let w = balance_of st a + amount in
      ground (
        arith,
        address_beq_iff a c,
        address_beq_iff a a,
        balance_of-set_balance st a a w,
        balance_of-set_balance (apply st (set_balance a w)) a c (w - amount),
        balance_of-set_balance st a c w,
        bytes_of-set_balance st a c w,
        bytes_of-set_balance (apply st (set_balance a w)) a c (w - amount),
      )
