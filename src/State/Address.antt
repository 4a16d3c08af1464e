-- ===== src/State/Address.antt =====
-- `Address` of crates/suwappudb-state/src/lib.rs and `MoveAddress` of address_shape.rs.
use Prim.Native.Nat.Ordering.{eq}
use suwappu_db.Prelude.{
  true, ℕ, ◌≡◌, ◌↔◌, ap, refl, List, ◌++◌, arith, Eq, nat_eq, nat_ord, Ord, list_beq, list_beq_iff,
  lex, lex_refl, eq_of_lex, lex-lt_of_gt, lex-gt_of_lt, lex_trans, length, drop, replicate,
}

-- `struct Address(pub [u8; 20])`. That there are twenty bytes is `IsEvmShaped`.
pub record Address : Type 0 where
  pub bytes : List ℕ

abbrev pub IsEvmShaped : Address → Type 0
IsEvmShaped a = length a.bytes ≡ 20

pub Address-ext : (a b : Address) → a.bytes ≡ b.bytes → a ≡ b
Address-ext a b h = λ i. record { bytes = h i }

pub address_beq_iff : (a b : Address) → (list_beq a.bytes b.bytes ≡ true) ↔ (a ≡ b)
address_beq_iff a b = (
  (λ h. Address-ext a b ((list_beq_iff a.bytes b.bytes).0 h)),
  (λ h. (list_beq_iff a.bytes b.bytes).1 (ap (λ (x : Address). x.bytes) h)),
)

instance abbrev pub address_eq : Eq Address
address_eq = record { beq = λ a b. list_beq a.bytes b.bytes; beq_iff = address_beq_iff }

pub address_eq_of_cmp : (a b : Address) → lex a.bytes b.bytes ≡ eq → a ≡ b
address_eq_of_cmp a b h = Address-ext a b (eq_of_lex a.bytes b.bytes h)

instance abbrev pub address_ord : Ord Address
address_ord = record {
  cmp = λ a b. lex a.bytes b.bytes;
  cmp_refl = λ a. lex_refl a.bytes;
  eq_of_cmp = address_eq_of_cmp;
  lt_of_gt = λ a b. lex-lt_of_gt a.bytes b.bytes;
  gt_of_lt = λ a b. lex-gt_of_lt a.bytes b.bytes;
  lt_trans = λ a b c. lex_trans a.bytes b.bytes c.bytes;
}

-- `struct MoveAddress(pub [u8; 32])`.
pub record MoveAddress : Type 0 where
  pub bytes : List ℕ

abbrev pub IsMoveShaped : MoveAddress → Type 0
IsMoveShaped a = length a.bytes ≡ 32

pub move_address_beq_iff : (a b : MoveAddress) → (list_beq a.bytes b.bytes ≡ true) ↔ (a ≡ b)
move_address_beq_iff a b = (
  (λ h i. record { bytes = (list_beq_iff a.bytes b.bytes).0 h i }),
  (λ h. (list_beq_iff a.bytes b.bytes).1 (ap (λ (x : MoveAddress). x.bytes) h)),
)

instance abbrev pub move_address_eq : Eq MoveAddress
move_address_eq = record { beq = λ a b. list_beq a.bytes b.bytes; beq_iff = move_address_beq_iff }

-- `MoveAddress::to_evm`: the last twenty bytes, `self.0[12..32]`.
unfoldable pub to_evm : MoveAddress → Address
to_evm a = record { bytes = drop 12 a.bytes }

-- `MoveAddress::from_evm`: zeros on the left.
unfoldable pub from_evm : Address → MoveAddress
from_evm a = record { bytes = replicate 12 0 ++ a.bytes }

-- An EVM address survives the round trip through its Move form, and the Move form has 32 bytes.
pub to_evm-from_evm :
    (a : Address) → IsEvmShaped a → (to_evm (from_evm a) ≡ a) × IsMoveShaped (from_evm a)
unfolding to_evm from_evm
to_evm-from_evm a h = (refl, omega arith)
