-- ===== src/Tests/Recovery.antt =====
-- Blocks, their stored form, and their replay at concrete inputs.
use suwappu_db.Tree.Ops.{from_state, root}
use suwappu_db.Recovery.Replay.{replay, RecoveryError}
use suwappu_db.State.Store.InMemory.{InMemoryBalanceStore}
use suwappu_db.Recovery.Binding.{block_hash_binds}
use suwappu_db.Recovery.Codec.{encode_block, decode_block}
use suwappu_db.State.Canonical.{State}
use suwappu_db.Tree.Preimages.{Collision}
use suwappu_db.Recovery.RoundTrip.{decode_block-encode_block, IsEncodableBlock}
use suwappu_db.Recovery.Index.{put_keeps, IsIndexed}
use suwappu_db.Recovery.Chain.{replay_verifies, recorded_root, chain_binds, IsChain}
use suwappu_db.Recovery.Store.{
  blocks_from, in_memory_blocks, get_by_height, get_by_hash, InMemoryBlockStore,
}
use suwappu_db.Collections.BTreeMap
use suwappu_db.Collections.HashMap
use suwappu_db.Bundle.Registry
use suwappu_db.Recovery.Store
use suwappu_db.Recovery.Block.{
  BlockHash, hashed_block, genesis_parent, block_hash, Block, block_hash_eq,
}
use suwappu_db.State.Store.InMemory.{in_memory}
use suwappu_db.Prelude.{replicate, ℕ, ◌≡◌, ◌≢◌, ◌⊎◌, refl, [], ◌∷◌, some, ok, arith, List, Result}
use suwappu_db.Tests.Data.{alice, bob, carol, ledger, toy_hash}
use suwappu_db.Bridge.Intent.{transfer, call}

abbrev first_block : Block
first_block = record {
  height = 0;
  parent = genesis_parent;
  state_root = record { bytes = replicate 32 7 };
  intents = transfer alice bob 30 ∷ [];
}

abbrev second_block : Block
second_block = record {
  height = 1;
  parent = block_hash toy_hash first_block;
  state_root = record { bytes = replicate 32 9 };
  intents = call bob carol 5 (1 ∷ 2 ∷ []) ∷ [];
}

first_block-IsEncodableBlock : IsEncodableBlock first_block
first_block-IsEncodableBlock =
    (omega arith, refl, refl, omega arith, ((refl, refl, omega arith), tt))

second_block-IsEncodableBlock : IsEncodableBlock second_block
unfolding block_hash
second_block-IsEncodableBlock = (
  omega arith,
  toy_hash.length-digest (hashed_block first_block),
  refl,
  omega arith,
  ((refl, refl, omega arith, omega arith), tt),
)

decode_block-encode_block_example : decode_block (encode_block second_block) ≡ some second_block
decode_block-encode_block_example =
    decode_block-encode_block second_block second_block-IsEncodableBlock

block_hash_binds_example : Collision toy_hash ⊎ (first_block ≡ first_block)
block_hash_binds_example =
    block_hash_binds toy_hash first_block first_block first_block-IsEncodableBlock
      first_block-IsEncodableBlock refl

abbrev two_blocks : List Block
two_blocks = first_block ∷ second_block ∷ []

two_blocks-IsChain : IsChain toy_hash 0 genesis_parent two_blocks
two_blocks-IsChain = ((refl, refl, ((refl, refl, tt))))

chain_binds_example :
    Collision toy_hash ⊎ ((genesis_parent ≡ genesis_parent) × (two_blocks ≡ two_blocks))
chain_binds_example =
    chain_binds toy_hash 0 0 genesis_parent genesis_parent two_blocks two_blocks two_blocks-IsChain
      two_blocks-IsChain (first_block-IsEncodableBlock, (second_block-IsEncodableBlock, tt))
      (first_block-IsEncodableBlock, (second_block-IsEncodableBlock, tt)) refl refl

new-IsIndexed : IsIndexed toy_hash Store.new
unfolding HashMap.lookup BTreeMap.lookup
new-IsIndexed = record { hashed = λ hash block l. cc l; found = λ height hash l. cc l }

put_keeps_example :
    Collision toy_hash
    ⊎ ((next : InMemoryBlockStore) × (Store.put toy_hash Store.new first_block ≡ ok next)
        × IsIndexed toy_hash next
        × (get_by_hash next (block_hash toy_hash first_block) ≡ ok (some first_block))
        × (get_by_height next 0 ≡ ok (some first_block))
        × ((hash : BlockHash)
            → block_hash toy_hash first_block ≢ hash
            → get_by_hash next hash ≡ get_by_hash Store.new hash)
        × ((height : ℕ) → 0 ≢ height → get_by_height next height ≡ get_by_height Store.new height))
put_keeps_example =
    put_keeps toy_hash Store.new first_block new-IsIndexed first_block-IsEncodableBlock

abbrev recorded : InMemoryBlockStore
recorded = record {
  by_hash =
      (block_hash toy_hash first_block, first_block)
      ∷ (block_hash toy_hash second_block, second_block)
      ∷ [];
  by_height = (0, block_hash toy_hash first_block) ∷ (1, block_hash toy_hash second_block) ∷ [];
}

abbrev one_by_one : ℕ → ℕ → List ℕ
one_by_one height iteration = []

replay_verifies_example :
    (final : State InMemoryBalanceStore) × (result : Result RecoveryError (Unit {0})) × (replay
        toy_hash Registry.new
        (in_memory_blocks toy_hash)
        one_by_one
        recorded
        ledger
        0
      ≡ some (final, result))
    × (result ≡ ok tt
        → IsChain toy_hash 0 genesis_parent (blocks_from recorded 0 recorded.by_height)
          × (root toy_hash (from_state final)
              ≡ recorded_root
                  (root toy_hash (from_state ledger))
                  (blocks_from recorded 0 recorded.by_height)))
replay_verifies_example = replay_verifies toy_hash Registry.new one_by_one recorded ledger
