-- ===== src/Anchor/Credential.antt =====
-- crates/suwappudb-bridge/src/anchor/credential.rs: the credentials and their verification, as it is built
-- by default, without the feature `production-pqc`.
use suwappu_db.Recovery.Block.{join}
use suwappu_db.Tree.Commit.{Commitment, Blake3, be_bytes}
use suwappu_db.Anchor.Types.{
  Anchor, AnchorHash, AuthScheme, blake3_mac, sp1_zk_proof, ecdsa_secp256k1, ml_dsa65_hybrid,
  verify_mac, KeyedBlake3,
}
use suwappu_db.Prelude.{
  ℕ, List, [], ◌∷◌, ◌++◌, replicate, Bool, Result, ok, err, Option, none, some, nat_beq, list_beq,
  nat_eq, if◌then◌else◌, ◌&&◌, take, drop, get_elem?,
}

pub record Sp1PublicValues : Type 0 where
  pub prev_state_root : List ℕ
  pub new_state_root : List ℕ
  pub block_hash : List ℕ

unfoldable pub to_bytes : Sp1PublicValues → List ℕ
to_bytes v = v.prev_state_root ++ (v.new_state_root ++ v.block_hash)

pub data AnchorAuthCredential : Type 0 where
  mac_inline : AnchorAuthCredential
  -- vkey_hash, public_values, proof_bytes
  sp1_proof : List ℕ → Sp1PublicValues → List ℕ → AnchorAuthCredential
  -- signature
  ecdsa_signature : List ℕ → AnchorAuthCredential
  -- ecdsa_signature, mldsa_signature
  hybrid_signatures : List ℕ → List ℕ → AnchorAuthCredential

pub data EcdsaVerifyError : Type 0 where
  malformed_signature : EcdsaVerifyError
  recovery_failed : EcdsaVerifyError
  unauthorized_signer : EcdsaVerifyError

-- `struct EthAddress(pub [u8; 20])`.
abbrev pub EthAddress : Type 0
EthAddress = List ℕ

-- The external crates `blake3` in both modes, `sha3` and `k256`: signatures are parsed from 64 bytes, and a
-- key is recovered from a digest, a signature and a recovery id.
pub record Crypto : Type 1 where
  pub blake3 : Blake3
  pub keyed : KeyedBlake3
  pub keccak256 : List ℕ → List ℕ
  pub Signature : Type 0
  pub VerifyingKey : Type 0
  pub parse_signature : List ℕ → Option Signature
  pub has_high_s : Signature → Bool
  pub recover_from_prehash : List ℕ → Signature → ℕ → Option VerifyingKey
  pub to_encoded_point : VerifyingKey → List ℕ

-- `abi.encode` of the five fields, each in 32 bytes.
unfoldable pub solidity_abi_encode : ℕ → ℕ → Commitment → AnchorHash → List ℕ → List ℕ
solidity_abi_encode chain_id height state_root parent mac = join (
    replicate 28 0
    ∷ be_bytes 4 chain_id
    ∷ replicate 24 0
    ∷ be_bytes 8 height
    ∷ state_root.bytes
    ∷ parent
    ∷ mac
    ∷ [])

-- b"\x19Ethereum Signed Message:\n32".
abbrev pub eip191_prefix : List ℕ
eip191_prefix =
    25 ∷ b'E' ∷ b't' ∷ b'h' ∷ b'e' ∷ b'r' ∷ b'e' ∷ b'u' ∷ b'm' ∷ b' ' ∷ b'S' ∷ b'i' ∷ b'g' ∷ b'n'
    ∷ b'e' ∷ b'd' ∷ b' ' ∷ b'M' ∷ b'e' ∷ b's' ∷ b's' ∷ b'a' ∷ b'g' ∷ b'e' ∷ b':' ∷ 10 ∷ b'3' ∷ b'2'
    ∷ []

pub data ExpectedVerifier : Type 0 where
  -- key
  expect_blake3 : List ℕ → ExpectedVerifier
  -- signer
  expect_ecdsa : EthAddress → ExpectedVerifier
  -- signer, mldsa_public_key
  expect_hybrid : EthAddress → List ℕ → ExpectedVerifier
  -- vkey_hash, expected_prev_state_root, expected_new_state_root, expected_block_hash
  expect_sp1 : List ℕ → List ℕ → List ℕ → List ℕ → ExpectedVerifier

pub data VerifierConfig : Type 0 where
  -- key
  config_blake3 : List ℕ → VerifierConfig
  -- signer
  config_ecdsa : EthAddress → VerifierConfig
  -- signer, mldsa_public_key
  config_hybrid : EthAddress → List ℕ → VerifierConfig
  -- vkey_hash, expected_prev_state_root, expected_block_hash
  config_sp1 : List ℕ → List ℕ → List ℕ → VerifierConfig

abbrev pub as_expected_for : VerifierConfig → Anchor → ExpectedVerifier
as_expected_for (config_blake3 key) anchor = expect_blake3 key
as_expected_for (config_ecdsa signer) anchor = expect_ecdsa signer
as_expected_for (config_hybrid signer mldsa_public_key) anchor =
    expect_hybrid signer mldsa_public_key
as_expected_for (config_sp1 vkey_hash prev_state_root block_hash) anchor =
    expect_sp1 vkey_hash prev_state_root anchor.state_root.bytes block_hash

abbrev pub scheme_of : VerifierConfig → AuthScheme
scheme_of (config_blake3 _) = blake3_mac
scheme_of (config_ecdsa _) = ecdsa_secp256k1
scheme_of (config_hybrid _ _) = ml_dsa65_hybrid
scheme_of (config_sp1 _ _ _) = sp1_zk_proof

pub data CredentialVerifyError : Type 0 where
  scheme_mismatch : CredentialVerifyError
  unsupported : AuthScheme → CredentialVerifyError
  blake3_mac_invalid : CredentialVerifyError
  ecdsa_failed : EcdsaVerifyError → CredentialVerifyError
  sp1_vkey_mismatch : CredentialVerifyError
  sp1_public_values_mismatch : CredentialVerifyError

-- The recovery byte of `v`.
abbrev pub recovery_byte : Option ℕ → Option ℕ
recovery_byte none = none
recovery_byte (some v) = if nat_beq v 27 then some 0 else if nat_beq v 28 then some 1 else none

module _ (c : Crypto) where
  unfoldable pub eth_signed_message_hash : Anchor → List ℕ
  unfolding solidity_abi_encode
  eth_signed_message_hash anchor = c.keccak256 (
      eip191_prefix
      ++ c.keccak256 (
          solidity_abi_encode anchor.chain_id anchor.height anchor.state_root anchor.parent
            anchor.mac))

  -- The last 20 bytes of the hash of a public key without its tag.
  unfoldable pub from_verifying_key : c.VerifyingKey → EthAddress
  from_verifying_key vk = drop 12 (c.keccak256 (drop 1 (c.to_encoded_point vk)))

  -- Behind the parsing of the signature.
  unfoldable pub check_recovered :
      Anchor → c.Signature → ℕ → EthAddress → Result EcdsaVerifyError (Unit {0})
  unfolding eth_signed_message_hash from_verifying_key
  check_recovered anchor sig recovery_id expected_signer =
      if c.has_high_s sig
      then err malformed_signature
      else elim (c.recover_from_prehash (eth_signed_message_hash anchor) sig recovery_id) [
        | none ↦ err recovery_failed
        | some vk ↦
            if list_beq (from_verifying_key vk) expected_signer
            then ok tt
            else err unauthorized_signer
      ]

  unfoldable pub verify_ecdsa : Anchor → List ℕ → EthAddress → Result EcdsaVerifyError (Unit {0})
  unfolding check_recovered
  verify_ecdsa anchor signature expected_signer = elim (recovery_byte (get_elem? signature 64)) [
    | none ↦ err malformed_signature
    | some recovery_id ↦ elim (c.parse_signature (take 64 signature)) [
      | none ↦ err malformed_signature
      | some sig ↦ check_recovered anchor sig recovery_id expected_signer
    ]
  ]

  abbrev pub map_ecdsa_failed :
      Result EcdsaVerifyError (Unit {0}) → Result CredentialVerifyError (Unit {0})
  map_ecdsa_failed (ok done) = ok tt
  map_ecdsa_failed (err e) = err (ecdsa_failed e)

  -- `verify_hybrid` without the feature.
  abbrev pub verify_hybrid :
      Anchor → List ℕ → List ℕ → EthAddress → List ℕ → Result CredentialVerifyError (Unit {0})
  verify_hybrid anchor ecdsa mldsa signer public_key = err (unsupported ml_dsa65_hybrid)

  -- The arm of a validity proof.
  abbrev pub check_sp1 :
      List ℕ → Sp1PublicValues → ExpectedVerifier → Result CredentialVerifyError (Unit {0})
  check_sp1 vkey_hash values (expect_sp1 expected_vkey prev_state_root new_state_root block_hash) =
      if list_beq vkey_hash expected_vkey
      then (if (list_beq values.prev_state_root prev_state_root
              && list_beq values.new_state_root new_state_root)
            && list_beq values.block_hash block_hash
          then err (unsupported sp1_zk_proof)
          else err sp1_public_values_mismatch)
      else err sp1_vkey_mismatch
  check_sp1 vkey_hash values _ = err scheme_mismatch

  -- The match of `verify_credential`, on the scheme of the anchor.
  unfoldable pub verify_by_scheme :
      Anchor
      → AuthScheme
      → AnchorAuthCredential
      → ExpectedVerifier
      → Result CredentialVerifyError (Unit {0})
  unfolding verify_ecdsa
  verify_by_scheme anchor blake3_mac mac_inline (expect_blake3 key) =
      if verify_mac c.keyed anchor key then ok tt else err blake3_mac_invalid
  verify_by_scheme anchor ecdsa_secp256k1 (ecdsa_signature signature) (expect_ecdsa signer) =
      map_ecdsa_failed (verify_ecdsa anchor signature signer)
  verify_by_scheme anchor ml_dsa65_hybrid (hybrid_signatures ecdsa mldsa)
        (expect_hybrid signer public_key) =
      verify_hybrid anchor ecdsa mldsa signer public_key
  verify_by_scheme anchor sp1_zk_proof (sp1_proof vkey_hash values proof_bytes) expected =
      check_sp1 vkey_hash values expected
  verify_by_scheme anchor _ _ _ = err scheme_mismatch

  unfoldable pub verify_credential :
      Anchor → AnchorAuthCredential → ExpectedVerifier → Result CredentialVerifyError (Unit {0})
  unfolding verify_by_scheme
  verify_credential anchor credential expected =
      verify_by_scheme anchor anchor.auth_scheme credential expected
