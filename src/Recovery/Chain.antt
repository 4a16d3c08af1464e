-- ===== src/Recovery/Chain.antt =====
-- What a replay has verified when it succeeds.
use suwappu_db.Recovery.Store.{iter_from, blocks_from, in_memory_blocks, InMemoryBlockStore}
use suwappu_db.Recovery.Binding.{block_hash_binds}
use suwappu_db.Tree.Preimages.{Collision}
use suwappu_db.Occ.Serial.Outcome.{execute_with_registry_serializes}
use suwappu_db.Occ.BlockExecutor.{BlockReport}
use suwappu_db.Recovery.RoundTrip.{IsEncodableBlock}
use suwappu_db.Tree.Ops.{from_state, root}
use suwappu_db.State.Canonical.{State}
use suwappu_db.Recovery.Replay.{
  parent_hash_mismatch, prev_hash_of, replay, state_root_mismatch, height_gap, Recovered,
  RecoveryError, replay_blocks, check_roots,
}
use suwappu_db.Bundle.Registry.{ContractRegistry}
use suwappu_db.State.Store.Interface.{BalanceStore}
use suwappu_db.Tree.Commit.{commitment_beq_iff, Commitment, Blake3, commitment_eq}
use suwappu_db.Recovery.Block.{
  genesis_parent, block_hash_beq_iff, block_hash, BlockHash, Block, block_hash_eq,
}
use suwappu_db.Prelude.{
  ap, nat_beq_iff, arith, nat_beq, Bool-cases, Option, length, All, ℕ, suc, ◌≡◌, ◌⊎◌, inl, inr,
  List, [], ◌∷◌, refl, Result, ok, err, some, ◌==◌, ◌∙◌, sym,
}

module _ (h : Blake3) where
  -- Consecutive heights, and each parent is the hash of the block before.
  abbrev pub IsChain : ℕ → BlockHash → List Block → Type 0
  IsChain expected prev [] = Unit
  IsChain expected prev (block ∷ blocks) =
      (block.height ≡ expected)
      × (block.parent ≡ prev)
      × IsChain (suc expected) (block_hash h block) blocks

  -- The hash of the last block, or the one before all.
  abbrev pub head_hash : BlockHash → List Block → BlockHash
  head_hash prev [] = prev
  head_hash prev (block ∷ blocks) = head_hash (block_hash h block) blocks

  -- If two chains, from any heights and hashes, whose blocks have fields of their sizes, are equally
  -- long and end in one hash, then two inputs of the hash function with one digest are at hand, or
  -- they start from one hash and their blocks are the same.
  pub chain_binds :
      (n m : ℕ) (p q : BlockHash) (xs ys : List Block)
      → IsChain n p xs
      → IsChain m q ys
      → All IsEncodableBlock xs
      → All IsEncodableBlock ys
      → length xs ≡ length ys
      → head_hash p xs ≡ head_hash q ys
      → Collision h ⊎ ((p ≡ q) × (xs ≡ ys))
  chain_binds n m p q [] [] cx cy ex ey l e = inr (e, refl)
  chain_binds n m p q [] (y ∷ ys) cx cy ex ey l e = absurd (omega (arith, l))
  chain_binds n m p q (x ∷ xs) [] cx cy ex ey l e = absurd (omega (arith, l))
  chain_binds n m p q (x ∷ xs) (y ∷ ys) cx cy ex ey l e =
      elim (chain_binds (suc n) (suc m) (block_hash h x) (block_hash h y) xs ys cx.2 cy.2 ex.1 ey.1
        (omega (arith, l)) e) [
          | inl collision ↦ inl collision
          | inr rest ↦ elim (block_hash_binds h x y ex.0 ey.0 rest.0) [
            | inl collision ↦ inl collision
            | inr same ↦
                inr (sym cx.1 ∙ ap (λ (b : Block). b.parent) same ∙ cy.1, cc (same, rest.1))
          ]
        ]

-- The state root that the last block records, or the one before all.
abbrev pub recorded_root : Commitment → List Block → Commitment
recorded_root before [] = before
recorded_root before (block ∷ blocks) = recorded_root block.state_root blocks

module _ {S : Type 0} ⦃b : BalanceStore S⦄ (h : Blake3) (registry : ContractRegistry S) where
  abbrev root_of : State S → Commitment
  root_of st = root h (from_state st)

  check_roots_verifies :
      (block : Block) (st : State S) (report : BlockReport) (onward : Option (Recovered S))
      (final : State S) (result : Result RecoveryError (Unit {0}))
      → onward ≡ some (final, result)
      → (f : State S) × (r : Result RecoveryError (Unit {0})) × (check_roots h registry block st
            report onward
          ≡ some (f, r))
        × (r ≡ ok tt → (root_of st ≡ block.state_root) × (f ≡ final) × (result ≡ ok tt))
  unfolding check_roots
  check_roots_verifies block st report onward final result e =
      elim (Bool-cases (report.state_root == block.state_root)) [
        | inr differs ↦ (
          st,
          err (state_root_mismatch block.height block.state_root report.state_root),
          rw differs refl,
          (λ q. cc q),
        )
        | inl agrees ↦ elim (Bool-cases (root_of st == block.state_root)) [
          | inr differs ↦ (
            st,
            err (state_root_mismatch block.height block.state_root (root_of st)),
            rw (agrees, differs) refl,
            (λ q. cc q),
          )
          | inl live ↦ (
            final,
            result,
            rw (agrees, live) e,
            (λ q. ((commitment_beq_iff (root_of st) block.state_root).0 live, refl, q)),
          )
        ]
      ]

  -- Whatever the schedules, the loop returns, and if it reports no error then the blocks are a chain
  -- from the expected height and hash, and the root of the final state is the last one recorded.
  pub replay_blocks_verifies :
      (choices : ℕ → ℕ → List ℕ) (expected : ℕ) (prev : BlockHash) (blocks : List Block)
      (st : State S)
      → (final : State S) × (result : Result RecoveryError (Unit {0})) × (replay_blocks h registry
            choices expected prev blocks st
          ≡ some (final, result))
        × (result ≡ ok tt
            → IsChain h expected prev blocks × (root_of final ≡ recorded_root (root_of st) blocks))
  unfolding replay_blocks
  replay_blocks_verifies choices expected prev [] st = (st, ok tt, refl, (λ q. (tt, refl)))
  replay_blocks_verifies choices expected prev (block ∷ blocks) st =
      let (after, report, runs, _, _) =
        execute_with_registry_serializes registry st h (choices expected) block.intents in
      let (end, outcome, rest, verified) =
        replay_blocks_verifies choices (suc expected) (block_hash h block) blocks after in
      let (final, result, checked, sound) =
        check_roots_verifies block after report
          (replay_blocks h registry choices (suc expected) (block_hash h block) blocks after) end
          outcome rest in
      elim (Bool-cases (nat_beq block.height expected)) [
        | inr gap ↦ (st, err (height_gap expected block.height), rw gap refl, (λ q. cc q))
        | inl follows ↦ elim (Bool-cases (block.parent == prev)) [
          | inr stray ↦ (
            st,
            err (parent_hash_mismatch block.height block.parent prev),
            rw (follows, stray) refl,
            (λ q. cc q),
          )
          | inl linked ↦ (
            final,
            result,
            rw (follows, linked, runs) checked,
            (λ q.
                let roots = sound q in
                let behind = verified roots.2 in
                (
                  (
                    (nat_beq_iff block.height expected).0 follows,
                    (block_hash_beq_iff block.parent prev).0 linked,
                    behind.0,
                  ),
                  ap root_of roots.1 ∙ behind.1 ∙ ap (λ r. recorded_root r blocks) roots.0,
                )),
          )
        ]
      ]

  -- On an in-memory store, whatever the schedules, a replay from height zero returns, and if it
  -- reports no error then the blocks of the store, in the order of their heights, are consecutive
  -- from height zero, each names the hash of the one before as its parent, the first the genesis
  -- parent, and the root of the final state is the one that the last block records.
  pub replay_verifies :
      (choices : ℕ → ℕ → List ℕ) (store : InMemoryBlockStore) (st : State S)
      → (final : State S) × (result : Result RecoveryError (Unit {0})) × (replay h registry
            (in_memory_blocks h)
            choices
            store
            st
            0
          ≡ some (final, result))
        × (result ≡ ok tt
            → IsChain h 0 genesis_parent (blocks_from store 0 store.by_height)
              × (root h (from_state final)
                  ≡ recorded_root (root h (from_state st)) (blocks_from store 0 store.by_height)))
  unfolding replay prev_hash_of iter_from
  replay_verifies choices store st =
      replay_blocks_verifies choices 0 genesis_parent (blocks_from store 0 store.by_height) st
