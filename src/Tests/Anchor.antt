-- ===== src/Tests/Anchor.antt =====
-- Two anchors of one chain, under a hash function and a signature scheme that are small.
use suwappu_db.Anchor.Types.{
  verify_auth_result, Anchor, KeyedBlake3, new_anchor, genesis_parent, anchor_hash,
}
use suwappu_db.Anchor.Credential.{Crypto, mac_inline, config_blake3, verify_credential}
use suwappu_db.Anchor.Log.{AnchorLog, AppendError, append_with_credential, append, height_gap}
use suwappu_db.Anchor.Log
use suwappu_db.Anchor.Dispatcher.{AnchorDispatcher, register, dispatch, parity_check, agreed}
use suwappu_db.Anchor.Dispatcher
use suwappu_db.Anchor.Accepted.{verify_credential_iff, IsMac, IsSigned}
use suwappu_db.Anchor.Credential.{expect_blake3}
use suwappu_db.Anchor.Linked.{append_links, IsNext, IsLinked, extended}
use suwappu_db.Collections.BTreeMap
use suwappu_db.Tree.Commit.{Commitment, be_bytes}
use suwappu_db.Prelude.{
  ℕ, List, [], ◌∷◌, ◌++◌, ◌≡◌, ◌↔◌, ◌⊎◌, replicate, Option, none, some, Result, ok, err, refl,
  arith, false,
}
use suwappu_db.Tests.Data.{toy_hash}

abbrev toy_keyed : KeyedBlake3
toy_keyed = record {
  keyed_digest = λ key input. toy_hash.digest (key ++ input);
  length-keyed_digest = λ key input. toy_hash.length-digest (key ++ input);
}

abbrev toy_crypto : Crypto
toy_crypto = record {
  blake3 = toy_hash;
  keyed = toy_keyed;
  keccak256 = toy_hash.digest;
  Signature = List ℕ;
  VerifyingKey = List ℕ;
  parse_signature = λ bytes. some bytes;
  has_high_s = λ sig. false;
  recover_from_prehash = λ digest sig id. some sig;
  to_encoded_point = λ vk. vk;
}

abbrev root : Commitment
root = record { bytes = replicate 32 7 }

abbrev first_anchor : Anchor
first_anchor = new_anchor toy_keyed 5 0 root genesis_parent (1 ∷ 2 ∷ [])

abbrev chain_log : AnchorLog
chain_log = record {
  chain_id = 5;
  entries = record { anchor = first_anchor; credential = mac_inline } ∷ [];
}

abbrev second_anchor : Anchor
second_anchor = new_anchor toy_keyed 5 1 root (anchor_hash toy_hash first_anchor) (1 ∷ 2 ∷ [])

chain_log-IsLinked : IsLinked toy_crypto chain_log
unfolding new_anchor
chain_log-IsLinked = (refl, refl, refl, tt)

first_appended : append toy_crypto (Log.new 5) first_anchor (1 ∷ 2 ∷ []) ≡ ok chain_log
unfolding append new_anchor verify_credential verify_auth_result be_bytes
first_appended = refl

append_links_example :
    ((e : AppendError) × (append_with_credential toy_crypto chain_log second_anchor mac_inline
          (config_blake3 (1 ∷ 2 ∷ []))
        ≡ err e)
      × ¬ IsNext toy_crypto chain_log second_anchor mac_inline (config_blake3 (1 ∷ 2 ∷ [])))
    ⊎ (IsNext toy_crypto chain_log second_anchor mac_inline (config_blake3 (1 ∷ 2 ∷ []))
        × (append_with_credential toy_crypto chain_log second_anchor mac_inline
              (config_blake3 (1 ∷ 2 ∷ []))
            ≡ ok (extended toy_crypto chain_log second_anchor mac_inline))
        × IsLinked toy_crypto (extended toy_crypto chain_log second_anchor mac_inline))
append_links_example =
    append_links toy_crypto chain_log second_anchor mac_inline (config_blake3 (1 ∷ 2 ∷ []))
      chain_log-IsLinked (omega arith)

-- Two chains agree on what is dispatched to both.
abbrev two_chains : AnchorDispatcher
two_chains = register (register Dispatcher.new 5 (1 ∷ [])) 3 (2 ∷ [])

abbrev after_dispatch :
    Option (AnchorDispatcher × Result (ℕ × AppendError) (List Anchor))
    → Option Dispatcher.ParityResult
after_dispatch none = none
after_dispatch (some (d, result)) = parity_check toy_crypto d 0

dispatch_agrees : after_dispatch (dispatch toy_crypto two_chains 0 root) ≡ some (agreed root)
unfolding dispatch register parity_check append new_anchor verify_credential BTreeMap.lookup
    BTreeMap.insert verify_auth_result be_bytes Log.latest Log.entry_at
dispatch_agrees = refl

verify_credential_iff_example :
    (verify_credential toy_crypto second_anchor mac_inline (expect_blake3 (1 ∷ 2 ∷ [])) ≡ ok tt) ↔ (
      IsMac toy_crypto second_anchor second_anchor.auth_scheme mac_inline
        (expect_blake3 (1 ∷ 2 ∷ []))
      ⊎ IsSigned toy_crypto second_anchor second_anchor.auth_scheme mac_inline
          (expect_blake3 (1 ∷ 2 ∷ [])))
verify_credential_iff_example =
    verify_credential_iff toy_crypto second_anchor mac_inline (expect_blake3 (1 ∷ 2 ∷ []))
