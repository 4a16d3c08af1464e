-- ===== src/Anchor/Dispatcher.antt =====
-- crates/suwappudb-bridge/src/anchor/dispatcher.rs: one log and one configuration for each chain. A
-- result of none is a panic of the source.
use suwappu_db.Tree.Commit.{Commitment, commitment_eq}
use suwappu_db.Anchor.Types.{
  Anchor, AnchorHash, AuthScheme, blake3_mac, ecdsa_secp256k1, genesis_parent, anchor_hash,
  new_anchor, ecdsa_anchor, scheme_beq,
}
use suwappu_db.Anchor.Credential.{
  AnchorAuthCredential, ecdsa_signature, VerifierConfig, config_blake3, scheme_of, as_expected_for,
  verify_credential, Crypto,
}
use suwappu_db.Anchor.Log.{
  AnchorLog, AnchorEntry, AppendError, scheme_requires_signer, entry_at, latest, append,
  append_with_credential,
}
use suwappu_db.Anchor.Log
use suwappu_db.Collections.BTreeMap
use suwappu_db.Collections.BTreeMap.{BTreeMap}
use suwappu_db.Prelude.{
  ℕ, List, [], ◌∷◌, ◌++◌, Bool, true, false, Result, ok, err, Option, none, some, nat_beq, nat_ord,
  ◌==◌, if◌then◌else◌, length, map, ◌&&◌, not,
}

pub record AnchorDispatcher : Type 0 where
  pub logs : BTreeMap ℕ AnchorLog
  pub configs : BTreeMap ℕ VerifierConfig

abbrev pub new : AnchorDispatcher
new = record { logs = []; configs = [] }

unfoldable pub register_with_config : AnchorDispatcher → ℕ → VerifierConfig → AnchorDispatcher
register_with_config d chain_id config = record {
  logs = elim (BTreeMap.lookup chain_id d.logs) [
    | none ↦ BTreeMap.insert chain_id (Log.new chain_id) d.logs
    | some log ↦ d.logs
  ];
  configs = BTreeMap.insert chain_id config d.configs;
}

unfoldable pub register : AnchorDispatcher → ℕ → List ℕ → AnchorDispatcher
unfolding register_with_config
register d chain_id key = register_with_config d chain_id (config_blake3 key)

unfoldable pub config : AnchorDispatcher → ℕ → Option VerifierConfig
config d chain_id = BTreeMap.lookup chain_id d.configs

unfoldable pub len : AnchorDispatcher → ℕ
len d = length d.logs

unfoldable pub is_empty : AnchorDispatcher → Bool
is_empty d = nat_beq (length d.logs) 0

unfoldable pub log : AnchorDispatcher → ℕ → Option AnchorLog
log d chain_id = BTreeMap.lookup chain_id d.logs

abbrev pub key_of : VerifierConfig → Option (List ℕ)
key_of (config_blake3 key) = some key
key_of _ = none

-- The result of `parity_check`.
pub data ParityResult : Type 0 where
  agreed : Commitment → ParityResult
  -- divergent, missing
  disagreed : List (ℕ × Commitment) → List ℕ → ParityResult

-- `SignFailed` holds the text of the reason.
pub data SignerError : Type 0 where
  sign_failed : List ℕ → SignerError
  signer_mismatch : SignerError

-- The trait `AnchorSigner`.
pub record AnchorSigner : Type 0 where
  pub scheme : AuthScheme
  pub sign : Anchor → Result SignerError AnchorAuthCredential

pub data DispatchSignerError : Type 0 where
  chain_not_registered : ℕ → DispatchSignerError
  -- config, signer
  scheme_mismatch : AuthScheme → AuthScheme → DispatchSignerError
  blake3_uses_dispatch : DispatchSignerError
  unsupported_producer_scheme : AuthScheme → DispatchSignerError
  signer : SignerError → DispatchSignerError
  append_failed : AppendError → DispatchSignerError

module _ (c : Crypto) where
  -- `latest().map_or(GENESIS_PARENT, Anchor::hash)`.
  abbrev pub hash_or_genesis : Option Anchor → AnchorHash
  hash_or_genesis none = genesis_parent
  hash_or_genesis (some anchor) = anchor_hash c.blake3 anchor

  -- The body of the loop of `dispatch`, for a chain with a key and a log.
  unfoldable pub append_new :
      AnchorDispatcher
      → ℕ
      → ℕ
      → Commitment
      → List ℕ
      → AnchorLog
      → Result AppendError (AnchorDispatcher × Anchor)
  append_new d chain_id height state_root key log =
      let anchor : Anchor =
        new_anchor c.keyed chain_id height state_root (hash_or_genesis (latest log)) key in
      elim (append c log anchor key) [
        | err e ↦ err e
        | ok next ↦ ok (record d { logs = BTreeMap.insert chain_id next d.logs }, anchor)
      ]

  unfoldable pub dispatch_chain :
      AnchorDispatcher
      → ℕ
      → ℕ
      → Commitment
      → Option (Result AppendError (AnchorDispatcher × Anchor))
  unfolding append_new
  dispatch_chain d chain_id height state_root = elim (BTreeMap.lookup chain_id d.configs) [
    | none ↦ none
    | some config ↦ elim (key_of config) [
      | none ↦ some (err scheme_requires_signer)
      | some key ↦ elim (BTreeMap.lookup chain_id d.logs) [
        | none ↦ none
        | some log ↦ some (append_new d chain_id height state_root key log)
      ]
    ]
  ]

  -- The loop of `dispatch`. The appends before an error stay.
  unfoldable pub dispatch_each :
      AnchorDispatcher
      → List ℕ
      → ℕ
      → Commitment
      → List Anchor
      → Option (AnchorDispatcher × Result (ℕ × AppendError) (List Anchor))
  unfolding dispatch_chain
  dispatch_each d [] height state_root out = some (d, ok out)
  dispatch_each d (chain_id ∷ chain_ids) height state_root out =
      elim (dispatch_chain d chain_id height state_root) [
        | none ↦ none
        | some (err e) ↦ some (d, err (chain_id, e))
        | some (ok (next, anchor)) ↦
            dispatch_each next chain_ids height state_root (out ++ anchor ∷ [])
      ]

  unfoldable pub dispatch :
      AnchorDispatcher
      → ℕ
      → Commitment
      → Option (AnchorDispatcher × Result (ℕ × AppendError) (List Anchor))
  unfolding dispatch_each
  dispatch d height state_root =
      dispatch_each d (map (λ (e : ℕ × AnchorLog). e.0) d.logs) height state_root []

  unfoldable pub verify_entry_with_config : AnchorEntry → VerifierConfig → Bool
  verify_entry_with_config entry config =
      scheme_beq (scheme_of config) entry.anchor.auth_scheme
      && elim (verify_credential c entry.anchor entry.credential
          (as_expected_for config entry.anchor)) [ ok done ↦ true | err e ↦ false ]

  -- The three lists of `parity_check`.
  pub record Parity : Type 0 where
    pub roots : List (ℕ × Commitment)
    pub missing : List ℕ
    pub tampered : List ℕ

  unfoldable pub collect : AnchorDispatcher → ℕ → BTreeMap ℕ AnchorLog → Parity → Option Parity
  unfolding verify_entry_with_config
  collect d height [] p = some p
  collect d height ((chain_id, log) ∷ rest) p = elim (entry_at log height) [
    | none ↦ collect d height rest (record p { missing = p.missing ++ chain_id ∷ [] })
    | some entry ↦ elim (BTreeMap.lookup chain_id d.configs) [
      | none ↦ none
      | some config ↦ collect d height rest (record {
        missing = p.missing;
        tampered =
            if verify_entry_with_config entry config
            then p.tampered
            else p.tampered ++ chain_id ∷ [];
        roots = p.roots ++ (chain_id, entry.anchor.state_root) ∷ [];
      })
    ]
  ]

  unfoldable pub all_roots : Commitment → List (ℕ × Commitment) → Bool
  all_roots first [] = true
  all_roots first ((chain_id, root) ∷ rest) = (root == first) && all_roots first rest

  abbrev pub compare_roots : List (ℕ × Commitment) → ParityResult
  compare_roots [] = disagreed [] []
  compare_roots ((chain_id, first) ∷ rest) =
      if all_roots first ((chain_id, first) ∷ rest)
      then agreed first
      else disagreed ((chain_id, first) ∷ rest) []

  unfoldable pub judge : Parity → ParityResult
  unfolding all_roots
  judge p = elim p.missing [
    | chain_id ∷ more ↦ disagreed p.roots p.missing
    | [] ↦ elim p.tampered [
      | chain_id ∷ more ↦ disagreed p.roots p.tampered
      | [] ↦ compare_roots p.roots
    ]
  ]

  unfoldable pub parity_check : AnchorDispatcher → ℕ → Option ParityResult
  unfolding collect judge
  parity_check d height =
      elim (collect d height d.logs (record { roots = []; missing = []; tampered = [] })) [
        | none ↦ none
        | some p ↦ some (judge p)
      ]

  -- Behind the signature.
  unfoldable pub append_signed :
      AnchorDispatcher
      → ℕ
      → Anchor
      → AnchorAuthCredential
      → VerifierConfig
      → Option (AnchorDispatcher × Result DispatchSignerError Anchor)
  append_signed d chain_id anchor (ecdsa_signature signature) config =
      elim (BTreeMap.lookup chain_id d.logs) [
        | none ↦ none
        | some log ↦ elim (append_with_credential c log anchor (ecdsa_signature signature) config) [
          | err e ↦ some (d, err (append_failed e))
          | ok next ↦ some (record d { logs = BTreeMap.insert chain_id next d.logs }, ok anchor)
        ]
      ]
  append_signed d chain_id anchor _ config = some (d, err (signer signer_mismatch))

  abbrev pub parent_in : Option AnchorLog → AnchorHash
  parent_in none = genesis_parent
  parent_in (some log) = hash_or_genesis (latest log)

  unfoldable pub sign_and_append :
      AnchorDispatcher
      → ℕ
      → Anchor
      → AnchorSigner
      → VerifierConfig
      → Option (AnchorDispatcher × Result DispatchSignerError Anchor)
  unfolding append_signed
  sign_and_append d chain_id anchor by config = elim (by.sign anchor) [
    | err e ↦ some (d, err (signer e))
    | ok credential ↦ append_signed d chain_id anchor credential config
  ]

  unfoldable pub dispatch_with_signer :
      AnchorDispatcher
      → ℕ
      → ℕ
      → Commitment
      → AnchorSigner
      → Option (AnchorDispatcher × Result DispatchSignerError Anchor)
  unfolding sign_and_append
  dispatch_with_signer d chain_id height state_root by = elim (BTreeMap.lookup chain_id d.configs) [
    | none ↦ some (d, err (chain_not_registered chain_id))
    | some config ↦
        if not (scheme_beq (scheme_of config) by.scheme)
        then some (d, err (scheme_mismatch (scheme_of config) by.scheme))
        else if scheme_beq (scheme_of config) blake3_mac
        then some (d, err blake3_uses_dispatch)
        else elim by.scheme [
          | ecdsa_secp256k1 ↦
              sign_and_append d chain_id
                (ecdsa_anchor chain_id height state_root
                  (parent_in (BTreeMap.lookup chain_id d.logs)))
                by config
          | _ ↦ some (d, err (unsupported_producer_scheme by.scheme))
        ]
  ]
