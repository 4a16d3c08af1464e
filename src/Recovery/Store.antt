-- ===== src/Recovery/Store.antt =====
-- The trait `BlockStore` and `InMemoryBlockStore` of
-- crates/suwappudb-bridge/src/recovery/store.rs.
use suwappu_db.Tree.Commit.{Blake3}
use suwappu_db.Recovery.Block.{block_hash, Block, BlockHash}
use suwappu_db.Recovery.Block.{block_hash_eq}
use suwappu_db.Prelude.{
  nat_ord, nat_beq, true, ℕ, List, [], ◌∷◌, Option, none, some, Result, ok, err, length,
  if◌then◌else◌, leb, last?, Bool,
}
use suwappu_db.Collections.BTreeMap
use suwappu_db.Collections.BTreeMap.{BTreeMap}
use suwappu_db.Collections.HashMap
use suwappu_db.Collections.HashMap.{HashMap}

-- `Backend` holds the text of the backend's error.
pub data BlockStoreError : Type 0 where
  backend : List ℕ → BlockStoreError

-- The trait. A store that is written is returned.
pub record BlockStore (B : Type 0) : Type 0 where
  pub put : B → Block → Result BlockStoreError B
  pub get_by_hash : B → BlockHash → Result BlockStoreError (Option Block)
  pub get_by_height : B → ℕ → Result BlockStoreError (Option Block)
  pub latest : B → Result BlockStoreError (Option Block)
  pub len : B → Result BlockStoreError ℕ
  pub iter_from : B → ℕ → Result BlockStoreError (List Block)

-- `is_empty`, the default method of the trait.
unfoldable pub is_empty : {B : Type 0} → BlockStore B → B → Bool
is_empty s store = elim (s.len store) [ err e ↦ true | ok n ↦ nat_beq n 0 ]

pub record InMemoryBlockStore : Type 0 where
  pub by_hash : HashMap BlockHash Block
  pub by_height : BTreeMap ℕ BlockHash

abbrev pub new : InMemoryBlockStore
new = record { by_hash = []; by_height = [] }

-- `.and_then(|h| self.by_hash.get(h).cloned())`.
abbrev pub block_of : InMemoryBlockStore → Option BlockHash → Option Block
block_of store none = none
block_of store (some hash) = HashMap.lookup hash store.by_hash

abbrev hash_of : Option (ℕ × BlockHash) → Option BlockHash
hash_of none = none
hash_of (some e) = some e.1

-- `by_height.range(from..).filter_map(…)`.
unfoldable pub blocks_from : InMemoryBlockStore → ℕ → BTreeMap ℕ BlockHash → List Block
blocks_from store from [] = []
blocks_from store from ((height, hash) ∷ rest) =
    let behind = blocks_from store from rest in
    if leb from height
    then elim (HashMap.lookup hash store.by_hash) [ none ↦ behind | some block ↦ block ∷ behind ]
    else behind

module _ (h : Blake3) where
  unfoldable pub put : InMemoryBlockStore → Block → Result BlockStoreError InMemoryBlockStore
  put store block =
      let hash = block_hash h block in
      ok (record {
        by_height = BTreeMap.insert block.height hash store.by_height;
        by_hash = HashMap.insert hash block store.by_hash;
      })

unfoldable pub get_by_hash : InMemoryBlockStore → BlockHash → Result BlockStoreError (Option Block)
get_by_hash store hash = ok (HashMap.lookup hash store.by_hash)

unfoldable pub get_by_height : InMemoryBlockStore → ℕ → Result BlockStoreError (Option Block)
get_by_height store height = ok (block_of store (BTreeMap.lookup height store.by_height))

unfoldable pub latest : InMemoryBlockStore → Result BlockStoreError (Option Block)
latest store = ok (block_of store (hash_of (last? store.by_height)))

unfoldable pub len : InMemoryBlockStore → Result BlockStoreError ℕ
len store = ok (length store.by_hash)

unfoldable pub iter_from : InMemoryBlockStore → ℕ → Result BlockStoreError (List Block)
unfolding blocks_from
iter_from store from = ok (blocks_from store from store.by_height)

-- `InMemoryBlockStore` as a `BlockStore`.
abbrev pub in_memory_blocks : Blake3 → BlockStore InMemoryBlockStore
in_memory_blocks h = record {
  put = put h;
  get_by_hash = get_by_hash;
  get_by_height = get_by_height;
  latest = latest;
  len = len;
  iter_from = iter_from;
}
