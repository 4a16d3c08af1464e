-- ===== src/Bridge/Supply.antt =====
-- Conservation: the sum of the balances over a list of addresses.
use suwappu_db.Prelude.{
  refl, inr, ap, ◌∙◌, inl, Bool-cases, ℕ, suc, ◌+◌, ◌-◌, ◌*◌, ◌≤◌, ◌<◌, ◌≡◌, ◌≢◌, ◌==◌,
  if◌then◌else◌, arith, u128_mod, List, [], ◌∷◌,
}
use suwappu_db.Bridge.Intent.{Intent, transfer, call, deploy_module}
use suwappu_db.Bridge.Submit.{submit, transfer_internal}
use suwappu_db.Bridge.Transfers.{balance_of-two_writes}
use suwappu_db.State.Address.{Address, address_eq, address_beq_iff}
use suwappu_db.State.Canonical.{State, balance_of, apply, set_balance, balance_of-set_balance}
use suwappu_db.State.Store.Interface.{BalanceStore}

-- How often an address stands in a list.
abbrev pub count : Address → List Address → ℕ
count a [] = 0
count a (x ∷ xs) = if a == x then suc (count a xs) else count a xs

module _ {S : Type 0} ⦃b : BalanceStore S⦄ where
  abbrev pub total : State S → List Address → ℕ
  total st [] = 0
  total st (a ∷ addrs) = balance_of st a + total st addrs

  -- Every balance fits the machine word.
  abbrev pub IsBounded : State S → Type 0
  IsBounded st = (a : Address) → balance_of st a < u128_mod

  -- A write of one address changes the sum by as often as the address is listed.
  pub total-set_balance :
      (st : State S) (a : Address) (v : ℕ) (addrs : List Address)
      → total (apply st (set_balance a v)) addrs + count a addrs * balance_of st a
        ≡ total st addrs + count a addrs * v
  total-set_balance st a v [] = omega arith
  total-set_balance st a v (c ∷ addrs) = elim (Bool-cases (a == c)) [
    | inl here ↦
        let written : balance_of (apply st (set_balance a v)) c ≡ v =
          balance_of-set_balance st a c v ∙ rw here refl in
        let same : balance_of st a ≡ balance_of st c =
          ap (balance_of st) ((address_beq_iff a c).0 here) in
        rw here (omega (arith, total-set_balance st a v addrs))
    | inr other ↦
        let kept : balance_of (apply st (set_balance a v)) c ≡ balance_of st c =
          balance_of-set_balance st a c v ∙ rw other refl in
        rw other (omega (arith, total-set_balance st a v addrs))
  ]

  -- Two writes that move `amount` keep a sum in which both addresses are listed once.
  pub total-two_writes :
      (st : State S) (from to : Address) (amount : ℕ) (addrs : List Address)
      → from ≢ to
      → amount ≤ balance_of st from
      → count from addrs ≡ 1
      → count to addrs ≡ 1
      → total
          (apply
            (apply st (set_balance from (balance_of st from - amount)))
            (set_balance to (balance_of st to + amount)))
          addrs
        ≡ total st addrs
  total-two_writes st from to amount addrs ne enough hf ht =
      let v = balance_of st from - amount in
      let one = apply st (set_balance from v) in
      ground (
        arith,
        address_beq_iff from to,
        balance_of-set_balance st from to v,
        total-set_balance st from v addrs,
        total-set_balance one to (balance_of st to + amount) addrs,
      )

  -- Whatever its result, a submitted transfer keeps the sum of the balances over every
  -- list that names the two addresses of a transfer once each.
  pub total-submit :
      (st : State S) (from to : Address) (amount : ℕ) (addrs : List Address)
      → count from addrs ≡ 1
      → count to addrs ≡ 1
      → total (submit st (transfer from to amount)).0 addrs ≡ total st addrs
  unfolding submit
  total-submit st from to amount addrs hf ht =
      ground (arith, address_beq_iff from to, total-two_writes st from to amount addrs)

  -- Whatever its result, an internal transfer keeps the sum of the balances over every list that
  -- names its two addresses once each.
  pub total-transfer_internal :
      (st : State S) (from to : Address) (amount : ℕ) (addrs : List Address)
      → count from addrs ≡ 1
      → count to addrs ≡ 1
      → total (transfer_internal st from to amount).0 addrs ≡ total st addrs
  unfolding transfer_internal
  total-transfer_internal st from to amount addrs hf ht =
      ground (arith, address_beq_iff from to, total-two_writes st from to amount addrs)

  IsBounded-set_balance :
      (st : State S) (a : Address) (v : ℕ)
      → v < u128_mod
      → IsBounded st
      → IsBounded (apply st (set_balance a v))
  IsBounded-set_balance st a v h bounded c =
      ground (arith, balance_of-set_balance st a c v, bounded c)

  submit_transfer-IsBounded :
      (st : State S) (from to : Address) (amount : ℕ)
      → IsBounded st
      → IsBounded (submit st (transfer from to amount)).0
  unfolding submit
  submit_transfer-IsBounded st from to amount h c = ground (
    arith,
    h from,
    h to,
    h c,
    balance_of-two_writes st from to (balance_of st from - amount) (balance_of st to + amount) c,
  )

  -- If every balance is a `u128`, every balance is one after any intent is submitted, whatever its
  -- result.
  pub submit-IsBounded : (st : State S) (i : Intent) → IsBounded st → IsBounded (submit st i).0
  unfolding submit
  submit-IsBounded st (transfer from to amount) h = submit_transfer-IsBounded st from to amount h
  submit-IsBounded st (call caller target value calldata) h = h
  submit-IsBounded st (deploy_module account name bytes) h = h
