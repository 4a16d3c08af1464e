-- ===== src/Anchor/Linked.antt =====
-- The log of a chain stays a chain.
use suwappu_db.Anchor.Types.{Anchor, AnchorHash, genesis_parent, anchor_hash}
use suwappu_db.Anchor.Credential.{
  AnchorAuthCredential, VerifierConfig, as_expected_for, CredentialVerifyError, verify_credential,
  Crypto,
}
use suwappu_db.Anchor.Log.{
  AnchorLog, AnchorEntry, AppendError, chain_mismatch, parent_mismatch, height_gap,
  credential_invalid, append_with_credential, expected,
}
use suwappu_db.Prelude.{
  ℕ, suc, ◌+◌, ◌%◌, ◌≡◌, ◌<◌, ◌⊎◌, inl, inr, List, [], ◌∷◌, ◌++◌, Result, ok, err, nat_beq,
  nat_beq_iff, list_beq, list_beq_iff, nat_eq, length, last?, u64_mod, arith, refl, sym, ap, ◌∙◌,
  Bool-cases,
}

module _ (c : Crypto) where
  -- From a parent and a height on, every anchor is of the chain, names the one before, and is one
  -- higher.
  abbrev pub Links : ℕ → AnchorHash → ℕ → List AnchorEntry → Type 0
  Links chain_id parent height [] = Unit
  Links chain_id parent height (entry ∷ entries) =
      (entry.anchor.chain_id ≡ chain_id)
      × (entry.anchor.parent ≡ parent)
      × (entry.anchor.height ≡ height)
      × Links chain_id (anchor_hash c.blake3 entry.anchor) (suc height) entries

  abbrev pub IsLinked : AnchorLog → Type 0
  IsLinked log = Links log.chain_id genesis_parent 0 log.entries

  -- The parent and the height behind the entries.
  abbrev tip : AnchorHash → ℕ → List AnchorEntry → AnchorHash × ℕ
  tip parent height [] = (parent, height)
  tip parent height (entry ∷ entries) = tip (anchor_hash c.blake3 entry.anchor) (suc height) entries

  Links-append :
      (chain_id : ℕ) (parent : AnchorHash) (height : ℕ) (entries : List AnchorEntry)
      (entry : AnchorEntry)
      → Links chain_id parent height entries
      → entry.anchor.chain_id ≡ chain_id
      → entry.anchor.parent ≡ (tip parent height entries).0
      → entry.anchor.height ≡ (tip parent height entries).1
      → Links chain_id parent height (entries ++ entry ∷ [])
  Links-append chain_id parent height [] entry links same above high = (same, above, high, tt)
  Links-append chain_id parent height (e ∷ entries) entry links same above high =
      let (of, up, at, rest) = links in
      (
        of,
        up,
        at,
        Links-append chain_id (anchor_hash c.blake3 e.anchor) (suc height) entries entry rest same
            above high,
      )

  tip_height :
      (parent : AnchorHash) (height : ℕ) (entries : List AnchorEntry)
      → (tip parent height entries).1 ≡ height + length entries
  tip_height parent height [] = omega arith
  tip_height parent height (e ∷ entries) =
      omega (arith, tip_height (anchor_hash c.blake3 e.anchor) (suc height) entries)

  -- What is expected behind linked entries is their tip.
  expected-tip :
      (chain_id : ℕ) (parent : AnchorHash) (height : ℕ) (e : AnchorEntry)
      (entries : List AnchorEntry)
      → Links chain_id parent height (e ∷ entries)
      → height + length (e ∷ entries) < u64_mod
      → expected c (last? (e ∷ entries)) ≡ tip parent height (e ∷ entries)
  unfolding expected
  expected-tip chain_id parent height e [] links small =
      let raw : (e.anchor.height + 1) % u64_mod ≡ suc height = omega (arith, links.2, small) in
      ap (λ n. (anchor_hash c.blake3 e.anchor, n)) raw
  expected-tip chain_id parent height e (f ∷ entries) links small =
      expected-tip chain_id (anchor_hash c.blake3 e.anchor) (suc height) f entries links.3
        (omega (arith, small))

  expected-entries :
      (chain_id : ℕ) (entries : List AnchorEntry)
      → Links chain_id genesis_parent 0 entries
      → length entries < u64_mod
      → expected c (last? entries) ≡ tip genesis_parent 0 entries
  unfolding expected
  expected-entries chain_id [] links small = refl
  expected-entries chain_id (e ∷ entries) links small =
      expected-tip chain_id genesis_parent 0 e entries links (omega (arith, small))

  -- The hash of the last anchor, or the parent of the first.
  abbrev pub last_hash : AnchorLog → AnchorHash
  last_hash log = (tip genesis_parent 0 log.entries).0

  -- The anchor is the next one of the log, and its credential is accepted.
  abbrev pub IsNext : AnchorLog → Anchor → AnchorAuthCredential → VerifierConfig → Type 0
  IsNext log anchor credential config =
      (anchor.chain_id ≡ log.chain_id)
      × (anchor.parent ≡ last_hash log)
      × (anchor.height ≡ length log.entries)
      × (verify_credential c anchor credential (as_expected_for config anchor) ≡ ok tt)

  abbrev pub extended : AnchorLog → Anchor → AnchorAuthCredential → AnchorLog
  extended log anchor credential = record log {
    entries = log.entries ++ record { anchor = anchor; credential = credential } ∷ [];
  }

  abbrev expect : AnchorLog → AnchorHash × ℕ
  expect log = expected c (last? log.entries)

  -- Where all but the credential is as expected.
  by_credential :
      (log : AnchorLog) (anchor : Anchor) (credential : AnchorAuthCredential)
      (config : VerifierConfig)
      → anchor.chain_id ≡ log.chain_id
      → anchor.parent ≡ last_hash log
      → anchor.height ≡ length log.entries
      → (r : Result CredentialVerifyError (Unit {0}))
      → verify_credential c anchor credential (as_expected_for config anchor) ≡ r
      → append_with_credential c log anchor credential config ≡ elim r [
        | err e ↦ err (credential_invalid e)
        | ok done ↦ ok (extended log anchor credential)
      ]
      → ((e : AppendError) × (append_with_credential c log anchor credential config ≡ err e)
          × ¬ IsNext log anchor credential config)
        ⊎ (IsNext log anchor credential config
            × (append_with_credential c log anchor credential config
                ≡ ok (extended log anchor credential)))
  by_credential log anchor credential config same up level (ok done) verified run =
      inr ((same, up, level, verified), run)
  by_credential log anchor credential config same up level (err e) failed run =
      inl (credential_invalid e, run, (λ n. let accepted = n.3 in cc (accepted, failed)))

  verdict :
      (log : AnchorLog) (anchor : Anchor) (credential : AnchorAuthCredential)
      (config : VerifierConfig)
      → (expect log).0 ≡ last_hash log
      → (expect log).1 ≡ length log.entries
      → ((e : AppendError) × (append_with_credential c log anchor credential config ≡ err e)
          × ¬ IsNext log anchor credential config)
        ⊎ (IsNext log anchor credential config
            × (append_with_credential c log anchor credential config
                ≡ ok (extended log anchor credential)))
  unfolding append_with_credential
  verdict log anchor credential config above high =
      elim (Bool-cases (nat_beq anchor.chain_id log.chain_id)) [
        | inr other ↦ inl (
          chain_mismatch log.chain_id anchor.chain_id,
          rw (other, append_with_credential) refl,
          (λ n. ground (arith, other, n.0)),
        )
        | inl same ↦ elim (Bool-cases (list_beq anchor.parent (expect log).0)) [
          | inr other ↦ inl (
            parent_mismatch (expect log).0 anchor.parent,
            rw (same, other, append_with_credential) refl,
            (λ n.
                let hit = (list_beq_iff anchor.parent (expect log).0).1 (n.1 ∙ sym above) in
                cc (hit, other)),
          )
          | inl up ↦ elim (Bool-cases (nat_beq anchor.height (expect log).1)) [
            | inr other ↦ inl (
              height_gap (expect log).1 anchor.height,
              rw (same, up, other, append_with_credential) refl,
              (λ n. ground (arith, other, n.2, high)),
            )
            | inl level ↦
                by_credential log anchor credential config
                  ((nat_beq_iff anchor.chain_id log.chain_id).0 same)
                  ((list_beq_iff anchor.parent (expect log).0).0 up ∙ above)
                  ((nat_beq_iff anchor.height (expect log).1).0 level ∙ high)
                  (verify_credential c anchor credential (as_expected_for config anchor)) refl
                  (rw (same, up, level, append_with_credential) refl)
          ]
        ]
      ]

  -- On a log that is a chain with fewer than 2 ^ 64 anchors, an append is refused exactly when the
  -- anchor is not of the chain of the log, does not name the hash of the last anchor, is not one
  -- higher, or its credential is not accepted; otherwise the anchor and its credential are put behind
  -- the others, and the log is still a chain.
  pub append_links :
      (log : AnchorLog) (anchor : Anchor) (credential : AnchorAuthCredential)
      (config : VerifierConfig)
      → IsLinked log
      → length log.entries < u64_mod
      → ((e : AppendError) × (append_with_credential c log anchor credential config ≡ err e)
          × ¬ IsNext log anchor credential config)
        ⊎ (IsNext log anchor credential config
            × (append_with_credential c log anchor credential config
                ≡ ok (extended log anchor credential))
            × IsLinked (extended log anchor credential))
  append_links log anchor credential config links small =
      let known = expected-entries log.chain_id log.entries links small in
      let high : (expect log).1 ≡ length log.entries =
        omega (
          arith,
          ap (λ (p : AnchorHash × ℕ). p.1) known,
          tip_height genesis_parent 0 log.entries,
        ) in
      elim (verdict log anchor credential config (ap (λ (p : AnchorHash × ℕ). p.0) known) high) [
        | inl refused ↦ inl refused
        | inr (next, run) ↦ inr (
          next,
          run,
          Links-append log.chain_id genesis_parent 0 log.entries
              (record { anchor = anchor; credential = credential }) links next.0 next.1
              (omega (arith, next.2, tip_height genesis_parent 0 log.entries)),
        )
      ]
