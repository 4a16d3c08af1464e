-- ===== src/Anchor/Types.antt =====
-- crates/suwappudb-bridge/src/anchor/types.rs: an anchor with its MAC and its hash. `ChainId` wraps a
-- u32, which is a number here.
use suwappu_db.Recovery.Block.{join}
use suwappu_db.Tree.Commit.{Commitment, Blake3, be_bytes}
use suwappu_db.Prelude.{
  ℕ, List, [], ◌∷◌, replicate, Bool, true, false, Result, ok, err, nat_beq, list_beq, nat_eq,
  length, ◌≡◌, if◌then◌else◌, ◌&&◌,
}

pub data AuthScheme : Type 0 where
  blake3_mac : AuthScheme
  sp1_zk_proof : AuthScheme
  ecdsa_secp256k1 : AuthScheme
  ml_dsa65_hybrid : AuthScheme

-- `#[repr(u8)]`.
abbrev pub discriminant : AuthScheme → ℕ
discriminant blake3_mac = 0
discriminant sp1_zk_proof = 1
discriminant ecdsa_secp256k1 = 2
discriminant ml_dsa65_hybrid = 3

abbrev pub scheme_beq : AuthScheme → AuthScheme → Bool
scheme_beq a b = nat_beq (discriminant a) (discriminant b)

pub data AuthVerifyError : Type 0 where
  unsupported_scheme : AuthScheme → AuthVerifyError
  invalid_authenticator : AuthVerifyError

-- `struct AnchorHash(pub [u8; 32])`.
abbrev pub AnchorHash : Type 0
AnchorHash = List ℕ

abbrev pub genesis_parent : AnchorHash
genesis_parent = replicate 32 0

pub record Anchor : Type 0 where
  pub chain_id : ℕ
  pub height : ℕ
  pub state_root : Commitment
  pub parent : AnchorHash
  pub mac : List ℕ
  pub auth_scheme : AuthScheme

-- b"SUWAPPUDB-ANCHOR/".
abbrev pub tag_anchor : List ℕ → List ℕ
tag_anchor suffix =
    b'S' ∷ b'U' ∷ b'W' ∷ b'A' ∷ b'P' ∷ b'P' ∷ b'U' ∷ b'D' ∷ b'B' ∷ b'-' ∷ b'A' ∷ b'N' ∷ b'C' ∷ b'H'
    ∷ b'O' ∷ b'R' ∷ b'/' ∷ suffix

-- What `compute_mac` feeds to the hasher.
abbrev pub mac_input : ℕ → ℕ → Commitment → AnchorHash → List ℕ
mac_input chain_id height state_root parent = join (
    tag_anchor (b'M' ∷ b'A' ∷ b'C' ∷ [])
    ∷ be_bytes 4 chain_id
    ∷ be_bytes 8 height
    ∷ state_root.bytes
    ∷ parent
    ∷ [])

-- The keyed mode of the crate `blake3`: a digest of 32 bytes under a key.
pub record KeyedBlake3 : Type 0 where
  pub keyed_digest : List ℕ → List ℕ → List ℕ
  pub length-keyed_digest : (key input : List ℕ) → length (keyed_digest key input) ≡ 32

module _ (k : KeyedBlake3) where
  unfoldable pub compute_mac : ℕ → ℕ → Commitment → AnchorHash → List ℕ → List ℕ
  compute_mac chain_id height state_root parent key =
      k.keyed_digest key (mac_input chain_id height state_root parent)

  -- `Anchor::new`.
  unfoldable pub new_anchor : ℕ → ℕ → Commitment → AnchorHash → List ℕ → Anchor
  unfolding compute_mac
  new_anchor chain_id height state_root parent key = record {
    chain_id = chain_id;
    height = height;
    state_root = state_root;
    parent = parent;
    mac = compute_mac chain_id height state_root parent key;
    auth_scheme = blake3_mac;
  }

  unfoldable pub verify_mac : Anchor → List ℕ → Bool
  unfolding compute_mac
  verify_mac anchor key =
      scheme_beq anchor.auth_scheme blake3_mac
      && list_beq anchor.mac
          (compute_mac anchor.chain_id anchor.height anchor.state_root anchor.parent key)

  unfoldable pub verify_auth_result : Anchor → List ℕ → Result AuthVerifyError (Unit {0})
  unfolding verify_mac
  verify_auth_result anchor key =
      let verified = verify_mac anchor key in
      elim anchor.auth_scheme [
        | blake3_mac ↦ if verified then ok tt else err invalid_authenticator
        | _ ↦ err (unsupported_scheme anchor.auth_scheme)
      ]

  unfoldable pub verify_auth : Anchor → List ℕ → Bool
  unfolding verify_auth_result
  verify_auth anchor key = elim (verify_auth_result anchor key) [ ok done ↦ true | err e ↦ false ]

-- `Anchor::ecdsa`.
abbrev pub ecdsa_anchor : ℕ → ℕ → Commitment → AnchorHash → Anchor
ecdsa_anchor chain_id height state_root parent = record {
  chain_id = chain_id;
  height = height;
  state_root = state_root;
  parent = parent;
  mac = replicate 32 0;
  auth_scheme = ecdsa_secp256k1;
}

-- What `Anchor::hash` feeds to the hasher.
abbrev pub hash_input : Anchor → List ℕ
hash_input anchor = join (
    tag_anchor (b'H' ∷ b'A' ∷ b'S' ∷ b'H' ∷ [])
    ∷ be_bytes 4 anchor.chain_id
    ∷ be_bytes 8 anchor.height
    ∷ anchor.state_root.bytes
    ∷ anchor.parent
    ∷ anchor.mac
    ∷ [])

-- `Anchor::hash`.
unfoldable pub anchor_hash : Blake3 → Anchor → AnchorHash
anchor_hash h anchor = h.digest (hash_input anchor)
