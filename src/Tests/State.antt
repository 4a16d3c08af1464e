-- ===== src/Tests/State.antt =====
-- The slot, nonce, address and store properties at concrete inputs.
use suwappu_db.Prelude.{◌-◌, ◌^◌, ◌+◌, ◌≡◌, ◌<◌, ◌≤◌, refl, ok, err, u128_mod}
use suwappu_db.State.Address.{address_ord}
use suwappu_db.State.Slot
use suwappu_db.State.Slot.{
  BalanceSlot, deposit, withdraw, evm_balance, move_coin_value, IsU128, deposit-withdraw,
  projections_agree, overflow, underflow,
}

abbrev slot : BalanceSlot
slot = Slot.with_nonce 7 (record { value = 3 })

deposit_refused : deposit slot (2 ^ 128 - 1) ≡ (slot, err overflow)
unfolding deposit
deposit_refused = refl

deposit-withdraw_example :
    (slot.canonical + 5 < u128_mod
      → ((deposit slot 5).1 ≡ ok tt) × (withdraw (deposit slot 5).0 5 ≡ (slot, ok tt)))
    × (u128_mod ≤ slot.canonical + 5 → deposit slot 5 ≡ (slot, err overflow))
    × (slot.canonical < 5 → withdraw slot 5 ≡ (slot, err underflow))
deposit-withdraw_example = deposit-withdraw slot 5
