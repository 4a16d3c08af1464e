-- ===== src/Anchor/Accepted.antt =====
-- When a credential is accepted.
use suwappu_db.Anchor.Types.{
  Anchor, AuthScheme, blake3_mac, sp1_zk_proof, ecdsa_secp256k1, ml_dsa65_hybrid, verify_mac,
}
use suwappu_db.Anchor.Credential.{
  EcdsaVerifyError, AnchorAuthCredential, mac_inline, sp1_proof, ecdsa_signature, hybrid_signatures,
  ExpectedVerifier, expect_blake3, expect_ecdsa, expect_hybrid, expect_sp1, Crypto, EthAddress,
  verify_by_scheme, verify_credential, verify_ecdsa, check_recovered, check_sp1, Sp1PublicValues,
  CredentialVerifyError, unsupported, sp1_public_values_mismatch, sp1_vkey_mismatch,
  map_ecdsa_failed, recovery_byte, malformed_signature, recovery_failed, unauthorized_signer,
  eth_signed_message_hash, from_verifying_key,
}
use suwappu_db.Prelude.{
  ℕ, ◌≡◌, ◌⊎◌, ◌↔◌, inl, inr, List, Option, none, some, Result, ok, err, true, false, Bool,
  Bool-cases, refl, list_beq, list_beq_iff, nat_eq, take, get_elem?, ◌&&◌, if◌then◌else◌, arith,
  subst, sym,
}

module _ (c : Crypto) where
  -- The MAC scheme on all sides, and an anchor with its MAC.
  abbrev pub IsMac : Anchor → AuthScheme → AnchorAuthCredential → ExpectedVerifier → Type 0
  IsMac anchor scheme credential expected =
      (key : List ℕ) × (scheme ≡ blake3_mac)
      × (credential ≡ mac_inline)
      × (expected ≡ expect_blake3 key)
      × (verify_mac c.keyed anchor key ≡ true)

  -- The signature parses, is not malleable, and the key that is recovered from it and the digest of
  -- the anchor has the address.
  abbrev pub IsRecovered : Anchor → List ℕ → EthAddress → Type 0
  IsRecovered anchor signature signer =
      (id : ℕ) × (sig : c.Signature) × (recovery_byte (get_elem? signature 64) ≡ some id)
      × (c.parse_signature (take 64 signature) ≡ some sig)
      × (vk : c.VerifyingKey) × (c.has_high_s sig ≡ false)
      × (c.recover_from_prehash (eth_signed_message_hash c anchor) sig id ≡ some vk)
      × (from_verifying_key c vk ≡ signer)

  abbrev pub IsSigned : Anchor → AuthScheme → AnchorAuthCredential → ExpectedVerifier → Type 0
  IsSigned anchor scheme credential expected =
      (signature signer : List ℕ) × (scheme ≡ ecdsa_secp256k1)
      × (credential ≡ ecdsa_signature signature)
      × (expected ≡ expect_ecdsa signer)
      × IsRecovered anchor signature signer

  recovered :
      (high : Bool) (o : Option c.VerifyingKey) (signer : EthAddress)
      → ((if high
            then err malformed_signature
            else elim o as (λ k. Result EcdsaVerifyError (Unit {0})) [
              | none ↦ err recovery_failed
              | some vk ↦
                  if list_beq (from_verifying_key c vk) signer
                  then ok tt
                  else err unauthorized_signer
            ])
          ≡ ok tt)
        ↔ ((vk : c.VerifyingKey) × (high ≡ false)
            × (o ≡ some vk)
            × (from_verifying_key c vk ≡ signer))
  recovered true o signer = ((λ h. cc h), (λ r. let low = r.1 in cc low))
  recovered false none signer = ((λ h. cc h), (λ r. let got = r.2 in cc got))
  recovered false (some vk) signer = elim (Bool-cases (list_beq (from_verifying_key c vk) signer)) [
    | inl hit ↦ (
      (λ h. (vk, refl, refl, (list_beq_iff (from_verifying_key c vk) signer).0 hit)),
      (λ r. rw hit refl),
    )
    | inr miss ↦ (
      (λ h. ground (arith, h, miss)),
      (λ r.
          let (other, low, got, same) = r in
          let one : vk ≡ other = cc got in
          let hit =
            (list_beq_iff (from_verifying_key c vk) signer).1
              (subst (λ k. from_verifying_key c k ≡ signer) (sym one) same) in
          absurd (cc (hit, miss))),
    )
  ]

  check_recovered-ok :
      (anchor : Anchor) (sig : c.Signature) (id : ℕ) (signer : EthAddress)
      → (check_recovered c anchor sig id signer ≡ ok tt) ↔ (
          (vk : c.VerifyingKey) × (c.has_high_s sig ≡ false)
          × (c.recover_from_prehash (eth_signed_message_hash c anchor) sig id ≡ some vk)
          × (from_verifying_key c vk ≡ signer))
  unfolding check_recovered
  check_recovered-ok anchor sig id signer =
      recovered (c.has_high_s sig)
        (c.recover_from_prehash (eth_signed_message_hash c anchor) sig id) signer

  parsed :
      (anchor : Anchor) (signer : EthAddress) (byte : Option ℕ) (o : Option c.Signature)
      → ((elim byte as (λ k. Result EcdsaVerifyError (Unit {0})) [
        | none ↦ err malformed_signature
        | some id ↦ elim o as (λ k. Result EcdsaVerifyError (Unit {0})) [
          | none ↦ err malformed_signature
          | some sig ↦ check_recovered c anchor sig id signer
        ]
      ])
          ≡ ok tt)
        ↔ ((id : ℕ) × (sig : c.Signature) × (byte ≡ some id)
            × (o ≡ some sig)
            × (check_recovered c anchor sig id signer ≡ ok tt))
  parsed anchor signer none o = ((λ h. cc h), (λ r. let got = r.2 in cc got))
  parsed anchor signer (some id) none = ((λ h. cc h), (λ r. let got = r.3 in cc got))
  parsed anchor signer (some id) (some sig) = (
    (λ h. (id, sig, refl, refl, h)),
    (λ r.
        let (j, t, byte, got, h) = r in
        let same_id : id ≡ j = cc byte in
        let same_sig : sig ≡ t = cc got in rw (same_id, same_sig) h),
  )

  verify_ecdsa-ok :
      (anchor : Anchor) (signature : List ℕ) (signer : EthAddress)
      → (verify_ecdsa c anchor signature signer ≡ ok tt) ↔ IsRecovered anchor signature signer
  unfolding verify_ecdsa
  verify_ecdsa-ok anchor signature signer =
      let stages =
        parsed anchor signer (recovery_byte (get_elem? signature 64))
          (c.parse_signature (take 64 signature)) in
      (
        (λ h.
            let (id, sig, byte, got, rest) = stages.0 h in
            let (vk, low, back, same) = (check_recovered-ok anchor sig id signer).0 rest in
            (id, sig, byte, got, vk, low, back, same)),
        (λ r.
            let (id, sig, byte, got, vk, low, back, same) = r in
            stages.1 (
              id,
              sig,
              byte,
              got,
              (check_recovered-ok anchor sig id signer).1 (vk, low, back, same),
            )),
      )

  sp1_refused :
      (vkey_hash : List ℕ) (values : Sp1PublicValues) (expected : ExpectedVerifier)
      → ¬ (check_sp1 c vkey_hash values expected ≡ ok tt)
  sp1_refused vkey_hash values (expect_sp1 a b d e) h =
      by_tests (list_beq vkey_hash a)
        ((list_beq values.prev_state_root b && list_beq values.new_state_root d)
          && list_beq values.block_hash e)
        h
    where
      by_tests :
          (p q : Bool)
          → ¬ ◌≡◌ {A = Result CredentialVerifyError (Unit {0})}
              (if p
                then (if q then err (unsupported sp1_zk_proof) else err sp1_public_values_mismatch)
                else err sp1_vkey_mismatch)
              (ok tt)
      by_tests true true h' = cc h'
      by_tests true false h' = cc h'
      by_tests false q h' = cc h'
  sp1_refused vkey_hash values _ h = cc h

  by_scheme_accepts :
      (anchor : Anchor) (scheme : AuthScheme) (credential : AnchorAuthCredential)
      (expected : ExpectedVerifier)
      → verify_by_scheme c anchor scheme credential expected ≡ ok tt
      → IsMac anchor scheme credential expected ⊎ IsSigned anchor scheme credential expected
  unfolding verify_by_scheme
  by_scheme_accepts anchor blake3_mac mac_inline (expect_blake3 key) h =
      elim (Bool-cases (verify_mac c.keyed anchor key)) [
        | inl hit ↦ inl (key, refl, refl, refl, hit)
        | inr miss ↦ ground (arith, h, miss)
      ]
  by_scheme_accepts anchor ecdsa_secp256k1 (ecdsa_signature signature) (expect_ecdsa signer) h =
      let run = mapped (verify_ecdsa c anchor signature signer) h in
      inr (signature, signer, refl, refl, refl, (verify_ecdsa-ok anchor signature signer).0 run)
    where
      mapped : (r : Result EcdsaVerifyError (Unit {0})) → map_ecdsa_failed c r ≡ ok tt → r ≡ ok tt
      mapped (ok done) q = refl
      mapped (err e) q = cc q
  by_scheme_accepts anchor ml_dsa65_hybrid (hybrid_signatures ecdsa mldsa)
        (expect_hybrid signer public_key) h =
      cc h
  by_scheme_accepts anchor sp1_zk_proof (sp1_proof vkey_hash values proof_bytes) expected h =
      absurd (sp1_refused vkey_hash values expected h)
  by_scheme_accepts anchor _ _ _ h = cc h

  accepts_by_scheme :
      (anchor : Anchor) (scheme : AuthScheme) (credential : AnchorAuthCredential)
      (expected : ExpectedVerifier)
      → IsMac anchor scheme credential expected ⊎ IsSigned anchor scheme credential expected
      → verify_by_scheme c anchor scheme credential expected ≡ ok tt
  unfolding verify_by_scheme
  accepts_by_scheme anchor scheme credential expected (inl (key, of, inline, by, hit)) =
      rw (of, inline, by, hit, verify_by_scheme) refl
  accepts_by_scheme anchor scheme credential expected
        (inr (signature, signer, of, signed, by, good)) =
      let run = (verify_ecdsa-ok anchor signature signer).1 good in
      rw (of, signed, by, run, verify_by_scheme) refl

  -- A credential is accepted if and only if either the anchor, the credential and what is expected are
  -- of the MAC scheme and `verify_mac` accepts the anchor under the expected key, or all three are of
  -- the ECDSA scheme, the last byte of the signature is 27 or 28, its other bytes parse as a signature
  -- that is not malleable, and the key that is recovered from it and the digest of the anchor has the
  -- address that is expected.
  pub verify_credential_iff :
      (anchor : Anchor) (credential : AnchorAuthCredential) (expected : ExpectedVerifier)
      → (verify_credential c anchor credential expected ≡ ok tt) ↔ (
          IsMac anchor anchor.auth_scheme credential expected
          ⊎ IsSigned anchor anchor.auth_scheme credential expected)
  unfolding verify_credential
  verify_credential_iff anchor credential expected = (
    by_scheme_accepts anchor anchor.auth_scheme credential expected,
    accepts_by_scheme anchor anchor.auth_scheme credential expected,
  )
