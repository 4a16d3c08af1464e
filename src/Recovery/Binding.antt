-- ===== src/Recovery/Binding.antt =====
-- A block hash commits to the block.
use suwappu_db.Tree.Preimages.{append-injective, preimage, Collision}
use suwappu_db.Recovery.RoundTrip.{decode_block-encode_block, fields, IsEncodableBlock}
use suwappu_db.Tree.Commit.{Blake3}
use suwappu_db.Recovery.Codec.{
  decode_block, block_encoding_version, encode_block, encode_intent, encode_intents,
}
use suwappu_db.Recovery.Block.{
  tag_block, Block, hashed_intents, block_hash, hashed_block, hashed_intent,
}
use suwappu_db.Prelude.{◌≡◌, ◌⊎◌, inl, inr, List, [], ◌∷◌, ◌++◌, refl, ap, sym, ◌∙◌}
use suwappu_db.Bridge.Intent.{Intent, transfer, call, deploy_module}

hashed_intent-eq : (intent : Intent) → hashed_intent intent ≡ encode_intent intent
unfolding hashed_intent encode_intent
hashed_intent-eq (transfer from to amount) = refl
hashed_intent-eq (call caller target value calldata) = refl
hashed_intent-eq (deploy_module account name code) = refl

hashed_intents-eq : (intents : List Intent) → hashed_intents intents ≡ encode_intents intents
unfolding hashed_intents encode_intents
hashed_intents-eq [] = refl
hashed_intents-eq (intent ∷ intents) = cc (hashed_intent-eq intent, hashed_intents-eq intents)

-- What is hashed is what is stored, behind another prefix.
hashed_block-eq : (block : Block) → hashed_block block ≡ tag_block ++ fields block
unfolding hashed_block
hashed_block-eq block = rw (hashed_intents-eq block.intents) refl

-- If two blocks whose fields have their sizes have one hash, then two inputs of the hash function with
-- one digest are at hand, or the blocks are the same.
pub block_hash_binds :
    (h : Blake3) (b c : Block)
    → IsEncodableBlock b
    → IsEncodableBlock c
    → block_hash h b ≡ block_hash h c
    → Collision h ⊎ (b ≡ c)
unfolding block_hash encode_block
block_hash_binds h b c hb hc e =
    elim (preimage h (hashed_block b) (hashed_block c) (ap (λ x. x.bytes) e)) [
      | inl collision ↦ inl collision
      | inr same ↦
          let parts =
            append-injective tag_block (fields b) tag_block (fields c) refl
              (sym (hashed_block-eq b) ∙ same ∙ hashed_block-eq c) in
          let stored = ap (λ xs. block_encoding_version ∷ xs) parts.1 in
          let whole =
            sym (decode_block-encode_block b hb)
            ∙ ap decode_block stored
            ∙ decode_block-encode_block c hc in
          inr (cc whole)
    ]
