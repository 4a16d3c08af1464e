-- ===== src/State/Nonce.antt =====
-- crates/suwappudb-state/src/nonce_semantics.rs: one `u64` counter read as an EVM nonce and as a
-- Move sequence number.
use suwappu_db.Prelude.{ℕ, ◌<◌, ◌≡◌, Bool, arith, nat_beq, u64_mod, saturating_add}

pub record AccountNonce : Type 0 where
  pub value : ℕ

pub record EvmNonce : Type 0 where
  pub value : ℕ

pub record MoveSequenceNumber : Type 0 where
  pub value : ℕ

abbrev pub default : AccountNonce
default = record { value = 0 }

unfoldable pub evm_nonce : AccountNonce → EvmNonce
evm_nonce n = record { value = n.value }

unfoldable pub move_sequence : AccountNonce → MoveSequenceNumber
move_sequence n = record { value = n.value }

-- `AccountNonce::next`, `EvmNonce::next` and `MoveSequenceNumber::next` saturate.
unfoldable pub next : AccountNonce → AccountNonce
next n = record { value = saturating_add n.value 1 }

unfoldable pub next_evm : EvmNonce → EvmNonce
next_evm n = record { value = saturating_add n.value 1 }

unfoldable pub next_move : MoveSequenceNumber → MoveSequenceNumber
next_move n = record { value = saturating_add n.value 1 }

unfoldable pub is_valid_next : AccountNonce → ℕ → Bool
is_valid_next n incoming = nat_beq incoming n.value

unfoldable pub is_valid_for_next_evm_tx : EvmNonce → ℕ → Bool
is_valid_for_next_evm_tx n incoming = nat_beq incoming n.value

unfoldable pub is_valid_for_next_move_tx : MoveSequenceNumber → ℕ → Bool
is_valid_for_next_move_tx n incoming = nat_beq incoming n.value

-- The next account nonce reads as the next nonce under both virtual machines, and stays a `u64`.
pub next_projects :
    (n : AccountNonce)
    → n.value < u64_mod
    → (evm_nonce (next n) ≡ next_evm (evm_nonce n))
      × (move_sequence (next n) ≡ next_move (move_sequence n))
      × ((next n).value < u64_mod)
unfolding next next_evm next_move evm_nonce move_sequence
next_projects n h = ground arith
