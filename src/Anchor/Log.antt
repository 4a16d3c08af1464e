-- ===== src/Anchor/Log.antt =====
-- crates/suwappudb-bridge/src/anchor/log.rs: the append-only log of one chain. The height of the last
-- anchor plus one wraps around, as in a release build.
use suwappu_db.Anchor.Types.{
  Anchor, AnchorHash, AuthScheme, genesis_parent, anchor_hash, verify_auth_result,
  unsupported_scheme,
}
use suwappu_db.Anchor.Credential.{
  AnchorAuthCredential, mac_inline, CredentialVerifyError, blake3_mac_invalid, VerifierConfig,
  config_blake3, as_expected_for, verify_credential, Crypto,
}
use suwappu_db.Prelude.{
  ℕ, ◌+◌, ◌%◌, List, [], ◌∷◌, ◌++◌, Bool, Result, ok, err, Option, none, some, nat_beq, list_beq,
  nat_eq, if◌then◌else◌, length, last?, get_elem?, map, u64_mod,
}

pub data AppendError : Type 0 where
  -- log, anchor
  chain_mismatch : ℕ → ℕ → AppendError
  -- expected, got
  parent_mismatch : AnchorHash → AnchorHash → AppendError
  -- expected, got
  height_gap : ℕ → ℕ → AppendError
  bad_auth : AppendError
  unsupported_auth_scheme : AuthScheme → AppendError
  scheme_requires_signer : AppendError
  credential_invalid : CredentialVerifyError → AppendError

pub record AnchorEntry : Type 0 where
  pub anchor : Anchor
  pub credential : AnchorAuthCredential

pub record AnchorLog : Type 0 where
  pub chain_id : ℕ
  pub entries : List AnchorEntry

abbrev pub new : ℕ → AnchorLog
new chain_id = record { chain_id = chain_id; entries = [] }

unfoldable pub entry_at : AnchorLog → ℕ → Option AnchorEntry
entry_at log height = get_elem? log.entries height

abbrev pub anchor_of : Option AnchorEntry → Option Anchor
anchor_of none = none
anchor_of (some entry) = some entry.anchor

abbrev credential_of : Option AnchorEntry → Option AnchorAuthCredential
credential_of none = none
credential_of (some entry) = some entry.credential

unfoldable pub at : AnchorLog → ℕ → Option Anchor
unfolding entry_at
at log height = anchor_of (entry_at log height)

unfoldable pub credential_at : AnchorLog → ℕ → Option AnchorAuthCredential
unfolding entry_at
credential_at log height = credential_of (entry_at log height)

unfoldable pub latest_entry : AnchorLog → Option AnchorEntry
latest_entry log = last? log.entries

unfoldable pub latest : AnchorLog → Option Anchor
unfolding latest_entry
latest log = anchor_of (latest_entry log)

unfoldable pub len : AnchorLog → ℕ
len log = length log.entries

unfoldable pub is_empty : AnchorLog → Bool
is_empty log = nat_beq (length log.entries) 0

unfoldable pub anchors : AnchorLog → List Anchor
anchors log = map (λ (entry : AnchorEntry). entry.anchor) log.entries

module _ (c : Crypto) where
  -- `(expected_parent, expected_height)`.
  unfoldable pub expected : Option AnchorEntry → AnchorHash × ℕ
  expected none = (genesis_parent, 0)
  expected (some prev) = (anchor_hash c.blake3 prev.anchor, (prev.anchor.height + 1) % u64_mod)

  unfoldable pub append_with_credential :
      AnchorLog → Anchor → AnchorAuthCredential → VerifierConfig → Result AppendError AnchorLog
  unfolding expected
  append_with_credential log anchor credential config =
      let (expected_parent, expected_height) = expected (last? log.entries) in
      if nat_beq anchor.chain_id log.chain_id
      then (if list_beq anchor.parent expected_parent
          then (if nat_beq anchor.height expected_height
              then elim (verify_credential c anchor credential (as_expected_for config anchor)) [
                | err e ↦ err (credential_invalid e)
                | ok done ↦ ok (record log {
                  entries = log.entries ++ record { anchor = anchor; credential = credential } ∷ [];
                })
              ]
              else err (height_gap expected_height anchor.height))
          else err (parent_mismatch expected_parent anchor.parent))
      else err (chain_mismatch log.chain_id anchor.chain_id)

  -- The translation of a failed MAC for the callers of `append`.
  abbrev pub as_bad_auth : Result AppendError AnchorLog → Result AppendError AnchorLog
  as_bad_auth (err (credential_invalid blake3_mac_invalid)) = err bad_auth
  as_bad_auth other = other

  unfoldable pub append_checked : AnchorLog → Anchor → List ℕ → Result AppendError AnchorLog
  unfolding append_with_credential
  append_checked log anchor key =
      as_bad_auth (append_with_credential log anchor mac_inline (config_blake3 key))

  unfoldable pub append : AnchorLog → Anchor → List ℕ → Result AppendError AnchorLog
  unfolding append_checked
  append log anchor key =
      if nat_beq anchor.chain_id log.chain_id
      then elim (verify_auth_result c.keyed anchor key) [
        | err (unsupported_scheme scheme) ↦ err (unsupported_auth_scheme scheme)
        | _ ↦ append_checked log anchor key
      ]
      else append_checked log anchor key
