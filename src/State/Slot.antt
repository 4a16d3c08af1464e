-- ===== src/State/Slot.antt =====
-- `BalanceSlot` of crates/suwappudb-state/src/balance_slot.rs: one `u128` that both virtual
-- machines read, and the account's nonce. `Balance` is its `u128`.
use suwappu_db.Prelude.{
  true, ℕ, ◌+◌, ◌≤◌, ◌<◌, ◌≡◌, ◌↔◌, Option, none, some, arith, Eq, nat_beq, ◌&&◌, u128_mod,
  checked_add, checked_sub, Result, ok, err,
}
use suwappu_db.State.Nonce
use suwappu_db.State.Nonce.{AccountNonce}

-- `struct Balance(pub u128)`.
abbrev pub Balance : Type 0
Balance = ℕ

pub record EvmBalance : Type 0 where
  pub amount : ℕ

pub record MoveCoinValue : Type 0 where
  pub amount : ℕ

pub data SlotError : Type 0 where
  overflow underflow : SlotError

pub record BalanceSlot : Type 0 where
  pub canonical : ℕ
  pub nonce : AccountNonce

pub slot_beq_iff :
    (a b : BalanceSlot)
    → ((nat_beq a.canonical b.canonical && nat_beq a.nonce.value b.nonce.value) ≡ true) ↔ (a ≡ b)
slot_beq_iff a b = ground arith

instance abbrev pub slot_eq : Eq BalanceSlot
slot_eq = record {
  beq = λ a b. nat_beq a.canonical b.canonical && nat_beq a.nonce.value b.nonce.value;
  beq_iff = slot_beq_iff;
}

-- `BalanceSlot::new`: the nonce starts again at zero.
abbrev pub new : ℕ → BalanceSlot
new value = record { canonical = value; nonce = Nonce.default }

abbrev pub with_nonce : ℕ → AccountNonce → BalanceSlot
with_nonce value nonce = record { canonical = value; nonce = nonce }

abbrev pub default : BalanceSlot
default = new 0

unfoldable pub evm_balance : BalanceSlot → EvmBalance
evm_balance s = record { amount = s.canonical }

unfoldable pub move_coin_value : BalanceSlot → MoveCoinValue
move_coin_value s = record { amount = s.canonical }

abbrev pub as_balance : BalanceSlot → Balance
as_balance s = s.canonical

set_canonical : BalanceSlot → Option ℕ → SlotError → BalanceSlot × Result SlotError (Unit {0})
set_canonical s none e = (s, err e)
set_canonical s (some v) e = (record s { canonical = v }, ok tt)

-- The slot is updated only if the checked operation returns a value.
unfoldable pub deposit : BalanceSlot → ℕ → BalanceSlot × Result SlotError (Unit {0})
unfolding set_canonical
deposit s amount = set_canonical s (checked_add s.canonical amount) overflow

unfoldable pub withdraw : BalanceSlot → ℕ → BalanceSlot × Result SlotError (Unit {0})
unfolding set_canonical
withdraw s amount = set_canonical s (checked_sub s.canonical amount) underflow

abbrev pub IsU128 : BalanceSlot → Type 0
IsU128 s = s.canonical < u128_mod

-- A deposit of `amount` and the withdrawal of it give back the slot, nonce included, whenever the
-- deposit is accepted. It is accepted exactly if the sum is a `u128`; a refused deposit reports
-- the overflow and leaves the slot as it was, and so does a refused withdrawal its underflow.
pub deposit-withdraw :
    (s : BalanceSlot) (amount : ℕ)
    → (s.canonical + amount < u128_mod
        → ((deposit s amount).1 ≡ ok tt) × (withdraw (deposit s amount).0 amount ≡ (s, ok tt)))
      × (u128_mod ≤ s.canonical + amount → deposit s amount ≡ (s, err overflow))
      × (s.canonical < amount → withdraw s amount ≡ (s, err underflow))
unfolding deposit withdraw
deposit-withdraw s amount = ground arith

-- After any deposit and any withdrawal the two projections agree with the canonical amount, which
-- is still a `u128`.
pub projections_agree :
    (s : BalanceSlot) (amount : ℕ)
    → IsU128 s
    → ((evm_balance (deposit s amount).0).amount ≡ (move_coin_value (deposit s amount).0).amount)
      × ((evm_balance (withdraw s amount).0).amount
          ≡ (move_coin_value (withdraw s amount).0).amount)
      × IsU128 (deposit s amount).0
      × IsU128 (withdraw s amount).0
unfolding deposit withdraw evm_balance move_coin_value
projections_agree s amount h = ground arith
