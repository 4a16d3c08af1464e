-- ===== src/State/Canonical.antt =====
-- `State` of crates/suwappudb-state/src/lib.rs: the canonical state over any balance store. The
-- sealed `BridgeToken` carries no data; that only the bridge holds one is not modelled.
use suwappu_db.Prelude.{refl, ℕ, ◌≡◌, List, Option, ◌==◌, if◌then◌else◌, arith}
use suwappu_db.State.Address.{Address, address_eq}
use suwappu_db.State.Slot
use suwappu_db.State.Slot.{Balance, BalanceSlot}
use suwappu_db.State.Store.Interface.{BalanceStore, stored}

pub record State (S : Type 0) : Type 0 where
  pub store : S

pub data StateChange : Type 0 where
  set_balance : Address → Balance → StateChange
  set_bytes : Address → List ℕ → StateChange

module _ {S : Type 0} ⦃b : BalanceStore S⦄ where
  unfoldable pub balance_of : State S → Address → Balance
  balance_of st addr = Slot.as_balance (b.get st.store addr)

  unfoldable pub slot_of : State S → Address → BalanceSlot
  slot_of st addr = b.get st.store addr

  unfoldable pub entries : State S → List (Address × BalanceSlot)
  entries st = b.entries st.store

  unfoldable pub bytes_of : State S → Address → Option (List ℕ)
  bytes_of st addr = b.get_bytes st.store addr

  unfoldable pub bytes_entries : State S → List (Address × List ℕ)
  bytes_entries st = b.bytes_entries st.store

  unfoldable pub apply : State S → StateChange → State S
  apply st (set_balance addr to) = record { store = b.set st.store addr (Slot.new to) }
  apply st (set_bytes addr bytes) = record { store = b.set_bytes st.store addr bytes }

  -- The laws of the state: a change of one address, in one column, shows there and nowhere else.
  pub balance_of-set_balance :
      (st : State S) (a c : Address) (to : Balance)
      → balance_of (apply st (set_balance a to)) c ≡ (if a == c then to else balance_of st c)
  unfolding balance_of apply
  balance_of-set_balance st a c to = ground (arith, b.get-set_new st.store a c to)

  pub slot_of-set_balance :
      (st : State S) (a c : Address) (to : Balance)
      → slot_of (apply st (set_balance a to)) c ≡ (if a == c then Slot.new to else slot_of st c)
  unfolding slot_of apply
  slot_of-set_balance st a c to = b.get-set_new st.store a c to

  pub balance_of-set_bytes :
      (st : State S) (a c : Address) (w : List ℕ)
      → balance_of (apply st (set_bytes a w)) c ≡ balance_of st c
  unfolding balance_of apply
  balance_of-set_bytes st a c w = ground (arith, b.get-set_bytes st.store a c w)

  pub bytes_of-set_balance :
      (st : State S) (a c : Address) (to : Balance)
      → bytes_of (apply st (set_balance a to)) c ≡ bytes_of st c
  unfolding bytes_of apply
  bytes_of-set_balance st a c to = b.get_bytes-set st.store a c (Slot.new to)

  pub bytes_of-set_bytes :
      (st : State S) (a c : Address) (w : List ℕ)
      → bytes_of (apply st (set_bytes a w)) c ≡ (if a == c then stored w else bytes_of st c)
  unfolding bytes_of apply
  bytes_of-set_bytes st a c w = b.get_bytes-set_bytes st.store a c w

  pub balance_of-slot_of : (st : State S) (a : Address) → (slot_of st a).canonical ≡ balance_of st a
  unfolding balance_of slot_of
  balance_of-slot_of st a = refl
