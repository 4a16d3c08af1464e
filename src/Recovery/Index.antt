-- ===== src/Recovery/Index.antt =====
-- The two indices of `InMemoryBlockStore` stay consistent.
use suwappu_db.Recovery.Binding.{block_hash_binds}
use suwappu_db.Collections.BTreeMap.{BTreeMap}
use suwappu_db.Collections.HashMap.{HashMap}
use suwappu_db.Tree.Preimages.{Collision}
use suwappu_db.Recovery.RoundTrip.{IsEncodableBlock}
use suwappu_db.Recovery.Store.{get_by_height, get_by_hash, block_of, put, InMemoryBlockStore}
use suwappu_db.Tree.Commit.{Blake3}
use suwappu_db.Recovery.Block.{block_hash, Block, BlockHash, block_hash_eq}
use suwappu_db.Prelude.{
  refl, ok, Option-cases, ap, beq_ne, beq_refl, sym, ◌∙◌, subst, ◌≢◌, beq-cases, nat_ord, ℕ, ◌≡◌,
  ◌⊎◌, inl, inr, some, arith,
}
use suwappu_db.Collections.BTreeMap
use suwappu_db.Collections.HashMap

lookup-stored :
    (key : BlockHash) (block : Block) (m : HashMap BlockHash Block)
    → HashMap.lookup key (HashMap.insert key block m) ≡ some block
lookup-stored key block m = HashMap.lookup-insert key key block m ∙ ground (arith, beq_refl key)

lookup_other :
    (key other : BlockHash) (block : Block) (m : HashMap BlockHash Block)
    → key ≢ other
    → HashMap.lookup other (HashMap.insert key block m) ≡ HashMap.lookup other m
lookup_other key other block m ne =
    HashMap.lookup-insert key other block m ∙ ground (arith, beq_ne key other ne)

height_stored :
    (height : ℕ) (key : BlockHash) (m : BTreeMap ℕ BlockHash)
    → BTreeMap.lookup height (BTreeMap.insert height key m) ≡ some key
height_stored height key m = BTreeMap.lookup-insert height height key m ∙ ground arith

height_other :
    (height other : ℕ) (key : BlockHash) (m : BTreeMap ℕ BlockHash)
    → height ≢ other
    → BTreeMap.lookup other (BTreeMap.insert height key m) ≡ BTreeMap.lookup other m
height_other height other key m ne = BTreeMap.lookup-insert height other key m ∙ ground (arith, ne)

nat_cases : (m n : ℕ) → (m ≡ n) ⊎ (m ≢ n)
nat_cases m n = ground arith

module _ (h : Blake3) where
  -- Every hash leads to the block that has it, and every height to a block that has that height.
  pub record IsIndexed (store : InMemoryBlockStore) : Type 0 where
    pub hashed :
        (hash : BlockHash) (block : Block)
        → HashMap.lookup hash store.by_hash ≡ some block
        → (block_hash h block ≡ hash) × IsEncodableBlock block
    pub found :
        (height : ℕ) (hash : BlockHash)
        → BTreeMap.lookup height store.by_height ≡ some hash
        → (block : Block) × (HashMap.lookup hash store.by_hash ≡ some block)
          × (block.height ≡ height)

  abbrev pub stored : InMemoryBlockStore → Block → InMemoryBlockStore
  stored store block = record {
    by_height = BTreeMap.insert block.height (block_hash h block) store.by_height;
    by_hash = HashMap.insert (block_hash h block) block store.by_hash;
  }

  hashed-stored :
      (store : InMemoryBlockStore) (block : Block)
      → IsIndexed store
      → IsEncodableBlock block
      → (hash : BlockHash) (found : Block)
      → HashMap.lookup hash (stored store block).by_hash ≡ some found
      → (block_hash h found ≡ hash) × IsEncodableBlock found
  hashed-stored store block i e hash found l = elim (beq-cases (block_hash h block) hash) [
    | inl same ↦
        let this : block ≡ found = cc (
          subst (λ k. HashMap.lookup k (stored store block).by_hash ≡ some found) (sym same) l,
          lookup-stored (block_hash h block) block store.by_hash,
        ) in
        subst (λ (c : Block). (block_hash h c ≡ hash) × IsEncodableBlock c) this (same, e)
    | inr differ ↦
        i.hashed hash found
          (sym (lookup_other (block_hash h block) hash block store.by_hash differ.1) ∙ l)
  ]

  -- A block that is held under the hash of this one is this one.
  abbrev IsUnclashed : InMemoryBlockStore → Block → Type 0
  IsUnclashed store block =
      (old : Block) → HashMap.lookup (block_hash h block) store.by_hash ≡ some old → block ≡ old

  unclashed :
      (store : InMemoryBlockStore) (block : Block)
      → IsIndexed store
      → IsEncodableBlock block
      → Collision h ⊎ IsUnclashed store block
  unclashed store block i e =
      elim (Option-cases (HashMap.lookup (block_hash h block) store.by_hash)) [
        | inl missing ↦ inr (λ old l. cc (missing, l))
        | inr (held, at) ↦
            let was = i.hashed (block_hash h block) held at in
            elim (block_hash_binds h block held e was.1 (sym was.0)) [
              | inl collision ↦ inl collision
              | inr same ↦ inr (λ old l. cc (same, at, l))
            ]
      ]

  found-stored :
      (store : InMemoryBlockStore) (block : Block)
      → IsIndexed store
      → IsUnclashed store block
      → (height : ℕ) (hash : BlockHash) → BTreeMap.lookup height store.by_height ≡ some hash
      → (c : Block) × (HashMap.lookup hash (stored store block).by_hash ≡ some c)
        × (c.height ≡ height)
  found-stored store block i u height hash l =
      let (old, held, high) = i.found height hash l in
      elim (beq-cases (block_hash h block) hash) [
        | inr differ ↦
            (old, lookup_other (block_hash h block) hash block store.by_hash differ.1 ∙ held, high)
        | inl same ↦ (
          block,
          subst (λ k. HashMap.lookup k (stored store block).by_hash ≡ some block) same
              (lookup-stored (block_hash h block) block store.by_hash),
          ap (λ (c : Block). c.height)
                (u old (ap (λ k. HashMap.lookup k store.by_hash) same ∙ held))
              ∙ high,
        )
      ]

  stored-IsIndexed :
      (store : InMemoryBlockStore) (block : Block)
      → IsIndexed store
      → IsEncodableBlock block
      → IsUnclashed store block
      → IsIndexed (stored store block)
  stored-IsIndexed store block i e u = record {
    hashed = hashed-stored store block i e;
    found = λ height hash l. elim (nat_cases block.height height) [
      | inl same ↦
          let key : block_hash h block ≡ hash = cc (
            subst (λ n. BTreeMap.lookup n (stored store block).by_height ≡ some hash) (sym same) l,
            height_stored block.height (block_hash h block) store.by_height,
          ) in
          (
            block,
            subst (λ k. HashMap.lookup k (stored store block).by_hash ≡ some block) key
                (lookup-stored (block_hash h block) block store.by_hash),
            same,
          )
      | inr differ ↦
          found-stored store block i u height hash
            (sym (height_other block.height height (block_hash h block) store.by_height differ) ∙ l)
    ];
  }

  -- What another height points to is found as before.
  kept_at :
      (store : InMemoryBlockStore) (block : Block)
      → IsIndexed store
      → IsUnclashed store block
      → (height : ℕ)
      → block_of (stored store block) (BTreeMap.lookup height store.by_height)
        ≡ block_of store (BTreeMap.lookup height store.by_height)
  kept_at store block i u height = elim (Option-cases (BTreeMap.lookup height store.by_height)) [
    | inl missing ↦ rw missing refl
    | inr (hash, at) ↦ rw at (elim (beq-cases (block_hash h block) hash) [
      | inr differ ↦ lookup_other (block_hash h block) hash block store.by_hash differ.1
      | inl same ↦
          let (old, held, high) = i.found height hash at in
          let this = u old (ap (λ k. HashMap.lookup k store.by_hash) same ∙ held) in
          subst (λ k. HashMap.lookup k (stored store block).by_hash ≡ some block) same
            (lookup-stored (block_hash h block) block store.by_hash)
          ∙ ap some this
          ∙ sym held
    ])
  ]

  -- If a store leads from every hash to the block with it and from every height to a block with it,
  -- and a block has fields of their sizes, then two inputs of the hash function with one digest are at
  -- hand, or putting the block keeps this, the block is found under its hash and its height, and what
  -- was held under another hash or pointed to by another height is still there.
  pub put_keeps :
      (store : InMemoryBlockStore) (block : Block)
      → IsIndexed store
      → IsEncodableBlock block
      → Collision h
        ⊎ ((next : InMemoryBlockStore) × (put h store block ≡ ok next)
            × IsIndexed next
            × (get_by_hash next (block_hash h block) ≡ ok (some block))
            × (get_by_height next block.height ≡ ok (some block))
            × ((hash : BlockHash)
                → block_hash h block ≢ hash
                → get_by_hash next hash ≡ get_by_hash store hash)
            × ((height : ℕ)
                → block.height ≢ height
                → get_by_height next height ≡ get_by_height store height))
  unfolding put get_by_hash get_by_height
  put_keeps store block i e = elim (unclashed store block i e) [
    | inl collision ↦ inl collision
    | inr u ↦ inr (
      stored store block,
      refl,
      stored-IsIndexed store block i e u,
      ap ok (lookup-stored (block_hash h block) block store.by_hash),
      ap (λ o. ok (block_of (stored store block) o))
            (height_stored block.height (block_hash h block) store.by_height)
          ∙ ap ok (lookup-stored (block_hash h block) block store.by_hash),
      (λ hash ne. ap ok (lookup_other (block_hash h block) hash block store.by_hash ne)),
      (λ height ne.
          ap (λ o. ok (block_of (stored store block) o))
            (height_other block.height height (block_hash h block) store.by_height ne)
          ∙ ap ok (kept_at store block i u height)),
    )
  ]
