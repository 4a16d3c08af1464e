-- ===== src/Tree/Commit.antt =====
-- crates/suwappudb-state/src/tree/commit.rs: the BLAKE3 commitment of a node.
use suwappu_db.Prelude.{
  ap, ◌↔◌, true, ℕ, zero, suc, ◌/◌, ◌%◌, ◌≡◌, List, [], ◌∷◌, ◌++◌, length, Eq, nat_eq, list_beq,
  list_beq_iff,
}
use suwappu_db.Tree.Node.{Node, empty, leaf, internal, Children, nil, cons}

-- `struct Commitment(pub [u8; 32])`.
pub record Commitment : Type 0 where
  pub bytes : List ℕ

pub commitment_beq_iff : (a b : Commitment) → (list_beq a.bytes b.bytes ≡ true) ↔ (a ≡ b)
commitment_beq_iff a b = (
  (λ h i. record { bytes = (list_beq_iff a.bytes b.bytes).0 h i }),
  (λ h. (list_beq_iff a.bytes b.bytes).1 (ap (λ (x : Commitment). x.bytes) h)),
)

instance abbrev pub commitment_eq : Eq Commitment
commitment_eq = record { beq = λ a b. list_beq a.bytes b.bytes; beq_iff = commitment_beq_iff }

-- The hash function of the crate `blake3`: a digest of 32 bytes of the bytes that were fed to it.
pub record Blake3 : Type 0 where
  pub digest : List ℕ → List ℕ
  pub length-digest : (input : List ℕ) → length (digest input) ≡ 32

-- b"SUWAPPUDB-TREE/EMPTY", b"SUWAPPUDB-TREE/LEAF_" and b"SUWAPPUDB-TREE/INT__".
abbrev pub tag_prefix : List ℕ → List ℕ
tag_prefix suffix =
    b'S' ∷ b'U' ∷ b'W' ∷ b'A' ∷ b'P' ∷ b'P' ∷ b'U' ∷ b'D' ∷ b'B' ∷ b'-' ∷ b'T' ∷ b'R' ∷ b'E' ∷ b'E'
    ∷ b'/' ∷ suffix

abbrev pub tag_empty : List ℕ
tag_empty = tag_prefix (b'E' ∷ b'M' ∷ b'P' ∷ b'T' ∷ b'Y' ∷ [])

abbrev pub tag_leaf : List ℕ
tag_leaf = tag_prefix (b'L' ∷ b'E' ∷ b'A' ∷ b'F' ∷ b'_' ∷ [])

abbrev pub tag_internal : List ℕ
tag_internal = tag_prefix (b'I' ∷ b'N' ∷ b'T' ∷ b'_' ∷ b'_' ∷ [])

-- `to_be_bytes` of an unsigned integer of `width` bytes, the least significant byte last.
unfoldable pub be_bytes : ℕ → ℕ → List ℕ
be_bytes zero n = []
be_bytes (suc width) n = be_bytes width (n / 256) ++ (n % 256) ∷ []

-- The bytes of `(byte, commitment)` chunks, as `commit_node` and `verify` feed them to the hasher.
unfoldable pub chunks : List (ℕ × Commitment) → List ℕ
chunks [] = []
chunks ((byte, c) ∷ rest) = byte ∷ (c.bytes ++ chunks rest)

module _ (h : Blake3) where
  unfoldable pub hash : List ℕ → Commitment
  hash input = record { bytes = h.digest input }

  -- `empty_commitment()`.
  unfoldable pub empty_commitment : Commitment
  empty_commitment = hash tag_empty

  -- The hash of an internal node from its children's commitments.
  unfoldable pub internal_commitment : List (ℕ × Commitment) → Commitment
  internal_commitment entries = hash (tag_internal ++ chunks entries)

  unfoldable mutual
    pub commit_node : Node → Commitment
    commit_node empty = empty_commitment
    commit_node (leaf slot) = hash (tag_leaf ++ be_bytes 16 slot.canonical)
    commit_node (internal children) = internal_commitment (commitments children)

    -- The commitments of the children in key order.
    pub commitments : Children → List (ℕ × Commitment)
    commitments nil = []
    commitments (cons byte child rest) = (byte, commit_node child) ∷ commitments rest
