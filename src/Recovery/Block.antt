-- ===== src/Recovery/Block.antt =====
-- crates/suwappudb-bridge/src/recovery/block.rs: a block and its hash. The hasher is fed pieces; the
-- model joins them, and hashes the whole.
use suwappu_db.Prelude.{
  replicate, ℕ, ◌^◌, ◌-◌, ◌≡◌, ◌↔◌, true, ap, List, [], ◌∷◌, ◌++◌, length, Eq, list_beq,
  list_beq_iff, ltb, if◌then◌else◌, nat_eq,
}
use suwappu_db.Bridge.Intent.{Intent, transfer, call, deploy_module}
use suwappu_db.Tree.Commit.{Commitment, Blake3, be_bytes}

-- `struct BlockHash(pub [u8; 32])`.
pub record BlockHash : Type 0 where
  pub bytes : List ℕ

pub block_hash_beq_iff : (a b : BlockHash) → (list_beq a.bytes b.bytes ≡ true) ↔ (a ≡ b)
block_hash_beq_iff a b = (
  (λ h i. record { bytes = (list_beq_iff a.bytes b.bytes).0 h i }),
  (λ h. (list_beq_iff a.bytes b.bytes).1 (ap (λ (x : BlockHash). x.bytes) h)),
)

instance abbrev pub block_hash_eq : Eq BlockHash
block_hash_eq = record { beq = λ a b. list_beq a.bytes b.bytes; beq_iff = block_hash_beq_iff }

abbrev pub genesis_parent : BlockHash
genesis_parent = record { bytes = replicate 32 0 }

pub record Block : Type 0 where
  pub height : ℕ
  pub parent : BlockHash
  pub state_root : Commitment
  pub intents : List Intent

abbrev pub u32_mod : ℕ
u32_mod = 2 ^ 32

-- `u32::try_from(len).unwrap_or(u32::MAX)`, in four bytes.
abbrev pub len_bytes : ℕ → List ℕ
len_bytes len = be_bytes 4 (if ltb len u32_mod then len else u32_mod - 1)

-- b"SUWAPPUDB-BLOCK/HASH".
abbrev pub tag_block : List ℕ
tag_block =
    b'S' ∷ b'U' ∷ b'W' ∷ b'A' ∷ b'P' ∷ b'P' ∷ b'U' ∷ b'D' ∷ b'B' ∷ b'-' ∷ b'B' ∷ b'L' ∷ b'O' ∷ b'C'
    ∷ b'K' ∷ b'/' ∷ b'H' ∷ b'A' ∷ b'S' ∷ b'H' ∷ []

-- The pieces one behind the other.
abbrev pub join : List (List ℕ) → List ℕ
join [] = []
join (piece ∷ pieces) = piece ++ join pieces

-- `encode_intent`.
unfoldable pub hashed_intent : Intent → List ℕ
hashed_intent (transfer from to amount) =
    join ((0 ∷ []) ∷ from.bytes ∷ to.bytes ∷ be_bytes 16 amount ∷ [])
hashed_intent (call caller target value calldata) = join (
    (1 ∷ [])
    ∷ caller.bytes
    ∷ target.bytes
    ∷ be_bytes 16 value
    ∷ len_bytes (length calldata)
    ∷ calldata
    ∷ [])
hashed_intent (deploy_module account name code) = join (
    (2 ∷ [])
    ∷ account.bytes
    ∷ len_bytes (length name.name)
    ∷ name.name
    ∷ len_bytes (length code)
    ∷ code
    ∷ [])

unfoldable pub hashed_intents : List Intent → List ℕ
unfolding hashed_intent
hashed_intents [] = []
hashed_intents (intent ∷ intents) = hashed_intent intent ++ hashed_intents intents

-- What `Block::hash` feeds to the hasher.
unfoldable pub hashed_block : Block → List ℕ
unfolding hashed_intents
hashed_block block = join (
    tag_block
    ∷ be_bytes 8 block.height
    ∷ block.parent.bytes
    ∷ block.state_root.bytes
    ∷ len_bytes (length block.intents)
    ∷ hashed_intents block.intents
    ∷ [])

-- `Block::hash`.
unfoldable pub block_hash : Blake3 → Block → BlockHash
unfolding hashed_block
block_hash h block = record { bytes = h.digest (hashed_block block) }
