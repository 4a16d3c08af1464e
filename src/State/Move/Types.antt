-- ===== src/State/Move/Types.antt =====
-- crates/suwappudb-state/src/vm/executor.rs: identifiers, type tags, calls, outcomes and errors.
-- A string is the list of its bytes.
use suwappu_db.Prelude.{
  ℕ, List, [], ◌∷◌, Option, Bool, true, Result, ok, err, leb, ◌&&◌, ◌||◌, nat_beq, if◌then◌else◌,
  Eq, nat_eq, ◌==◌, list_beq, list_beq_iff, ◌≡◌, ◌↔◌, arith, All, ap,
}
use suwappu_db.State.Address.{MoveAddress, move_address_eq, move_address_beq_iff}
use suwappu_db.State.Nonce.{AccountNonce}
use suwappu_db.State.Slot.{MoveCoinValue}

-- `struct Identifier(String)`.
pub record Identifier : Type 0 where
  pub name : List ℕ

pub data IdentifierError : Type 0 where
  empty : IdentifierError
  invalid_byte : ℕ → IdentifierError
  invalid_leading_byte : ℕ → IdentifierError

abbrev is_ascii_alphabetic : ℕ → Bool
is_ascii_alphabetic c = (leb b'a' c && leb c b'z') || (leb b'A' c && leb c b'Z')

abbrev is_ascii_alphanumeric : ℕ → Bool
is_ascii_alphanumeric c = is_ascii_alphabetic c || (leb b'0' c && leb c b'9')

-- The loop over the bytes after the first: the first bad byte, if any.
invalid_tail : List ℕ → Option ℕ
invalid_tail [] = Option.none
invalid_tail (c ∷ cs) =
    if is_ascii_alphanumeric c || nat_beq c b'_' then invalid_tail cs else Option.some c

-- `Identifier::new`.
unfoldable pub new_identifier : List ℕ → Result IdentifierError Identifier
unfolding invalid_tail
new_identifier [] = err empty
new_identifier (c ∷ cs) =
    if is_ascii_alphabetic c || nat_beq c b'_'
    then elim (invalid_tail cs) [
      | Option.none ↦ ok (record { name = c ∷ cs })
      | Option.some b ↦ err (invalid_byte b)
    ]
    else err (invalid_leading_byte c)

pub identifier_beq_iff : (a b : Identifier) → (list_beq a.name b.name ≡ true) ↔ (a ≡ b)
identifier_beq_iff a b = (
  (λ h i. record { name = (list_beq_iff a.name b.name).0 h i }),
  (λ h. (list_beq_iff a.name b.name).1 (ap (λ (x : Identifier). x.name) h)),
)

instance abbrev pub identifier_eq : Eq Identifier
identifier_eq = record { beq = λ a b. list_beq a.name b.name; beq_iff = identifier_beq_iff }

pub record ModuleId : Type 0 where
  pub address : MoveAddress
  pub name : Identifier

abbrev pub module_id_beq : ModuleId → ModuleId → Bool
module_id_beq a b = (a.address == b.address) && (a.name == b.name)

pub module_id_beq_iff : (a b : ModuleId) → (module_id_beq a b ≡ true) ↔ (a ≡ b)
module_id_beq_iff a b =
    ground (arith, move_address_beq_iff a.address b.address, identifier_beq_iff a.name b.name)

instance abbrev pub module_id_eq : Eq ModuleId
module_id_eq = record { beq = module_id_beq; beq_iff = module_id_beq_iff }

mutual
  pub data TypeTag : Type 0 where
    bool u8 u16 u32 u64 u128 u256 address signer : TypeTag
    vector : TypeTag → TypeTag
    struct : StructTag → TypeTag

  pub data StructTag : Type 0 where
    struct_tag : MoveAddress → Identifier → Identifier → TypeTags → StructTag

  -- `Vec<TypeTag>` inside a tag.
  pub data TypeTags : Type 0 where
    nil : TypeTags
    cons : TypeTag → TypeTags → TypeTags

pub record MoveCall : Type 0 where
  pub caller : MoveAddress
  pub module_id : ModuleId
  pub function : Identifier
  pub type_arguments : List TypeTag
  pub arguments : List (List ℕ)

pub record CompiledModule : Type 0 where
  pub bytes : List ℕ

pub record ResourceWrite : Type 0 where
  pub addr : MoveAddress
  pub coin_value : MoveCoinValue
  pub nonce : AccountNonce

pub record MoveEvent : Type 0 where
  pub type_tag : TypeTag
  pub payload : List ℕ

pub record MoveOutcome : Type 0 where
  pub return_values : List (List ℕ)
  pub events : List MoveEvent
  pub resource_writes : List ResourceWrite

pub record AbortLocation : Type 0 where
  pub module_id : Option ModuleId
  pub function_index : ℕ
  pub instruction_index : ℕ

pub data MoveExecutionError : Type 0 where
  module_not_found : ModuleId → MoveExecutionError
  bytecode_verification_failed : List ℕ → MoveExecutionError
  abort : ℕ → AbortLocation → MoveExecutionError
  out_of_gas : MoveExecutionError
  invalid_arguments : List ℕ → MoveExecutionError
  linker_error : List ℕ → MoveExecutionError

-- `trait MoveBalanceView`: what an executor may read of the balances.
pub record MoveBalanceView : Type 0 where
  pub coin_value : MoveAddress → MoveCoinValue
  pub nonce : MoveAddress → AccountNonce

pub record MoveSessionState : Type 0 where
  pub balance_view : MoveBalanceView
  pub buffered_writes : List ResourceWrite
  pub events : List MoveEvent

-- `MoveSessionState::new`.
abbrev pub new_session : MoveBalanceView → MoveSessionState
new_session view = record { balance_view = view; buffered_writes = []; events = [] }

IsIdentifierByte : ℕ → Type 0
IsIdentifierByte c = (is_ascii_alphanumeric c || nat_beq c b'_') ≡ true

invalid_tail-none : (cs : List ℕ) → invalid_tail cs ≡ Option.none → All IsIdentifierByte cs
unfolding invalid_tail IsIdentifierByte
invalid_tail-none [] h = tt
invalid_tail-none (c ∷ cs) h = ground (arith, invalid_tail-none cs)
