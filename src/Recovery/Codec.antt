-- ===== src/Recovery/Codec.antt =====
-- The stored form of a block: `encode_block`, `decode_block` and the `Cursor` of
-- crates/suwappudb-bridge/src/recovery/store.rs. The source keeps a buffer and a position in it, the
-- model the bytes from that position on.
use suwappu_db.Recovery.Block.{join, Block, len_bytes}
use suwappu_db.Prelude.{
  ℕ, ◌*◌, ◌+◌, List, [], ◌∷◌, ◌++◌, Option, none, some, length, leb, nat_beq, if◌then◌else◌, take,
  drop, Result, ok, err, zero, suc,
}
use suwappu_db.Bridge.Intent.{Intent, transfer, call, deploy_module}
use suwappu_db.State.Move.Types.{IdentifierError, new_identifier, Identifier}
use suwappu_db.Tree.Commit.{be_bytes}

abbrev pub block_encoding_version : ℕ
block_encoding_version = 1

unfoldable pub encode_intent : Intent → List ℕ
encode_intent (transfer from to amount) =
    join ((0 ∷ []) ∷ from.bytes ∷ to.bytes ∷ be_bytes 16 amount ∷ [])
encode_intent (call caller target value calldata) = join (
    (1 ∷ [])
    ∷ caller.bytes
    ∷ target.bytes
    ∷ be_bytes 16 value
    ∷ len_bytes (length calldata)
    ∷ calldata
    ∷ [])
encode_intent (deploy_module account name code) = join (
    (2 ∷ [])
    ∷ account.bytes
    ∷ len_bytes (length name.name)
    ∷ name.name
    ∷ len_bytes (length code)
    ∷ code
    ∷ [])

unfoldable pub encode_intents : List Intent → List ℕ
unfolding encode_intent
encode_intents [] = []
encode_intents (intent ∷ intents) = encode_intent intent ++ encode_intents intents

unfoldable pub encode_block : Block → List ℕ
unfolding encode_intents
encode_block block = join (
    (block_encoding_version ∷ [])
    ∷ be_bytes 8 block.height
    ∷ block.parent.bytes
    ∷ block.state_root.bytes
    ∷ len_bytes (length block.intents)
    ∷ encode_intents block.intents
    ∷ [])

-- A read of the cursor: the value and the bytes behind it, or none.
abbrev pub Cursor {ℓ} : Type ℓ → Type ℓ
Cursor A = List ℕ → Option (A × List ℕ)

abbrev pub pure {ℓ} : {A : Type ℓ} → A → Cursor A
pure a rest = some (a, rest)

infixl 1 ◌>>=◌ ◌>>◌
unfoldable pub ◌>>=◌ {ℓ κ} : {A : Type ℓ} {B : Type κ} → Cursor A → (A → Cursor B) → Cursor B
(p >>= f) rest = elim (p rest) [ none ↦ none | some r ↦ f r.0 r.1 ]

abbrev pub ◌>>◌ {ℓ κ} : {A : Type ℓ} {B : Type κ} → Cursor A → Cursor B → Cursor B
p >> q = p >>= λ _. q

abbrev pub fail {ℓ} : {A : Type ℓ} → Cursor A
fail rest = none

-- `Cursor::bytes`.
unfoldable pub bytes : ℕ → Cursor (List ℕ)
bytes n rest = if leb n (length rest) then some (take n rest, drop n rest) else none

-- `from_be_bytes`, on top of the bytes that were read before.
unfoldable pub from_be_bytes : ℕ → List ℕ → ℕ
from_be_bytes n [] = n
from_be_bytes n (b ∷ bs) = from_be_bytes (n * 256 + b) bs

-- `Cursor::u32`, `u64` and `u128`, by their width.
unfoldable pub word : ℕ → Cursor ℕ
unfolding bytes from_be_bytes
word width = do bs ← bytes width; pure (from_be_bytes 0 bs)

-- `Cursor::byte`.
unfoldable pub byte : Cursor ℕ
byte = word 1

abbrev pub ok_or_none : Result IdentifierError Identifier → Cursor Identifier
ok_or_none (ok name) = pure name
ok_or_none (err e) = fail

-- The fields behind the tag. Bytes that are not UTF-8 hold one that `Identifier::new` refuses, so the
-- test for UTF-8 before it decides nothing.
unfoldable pub decode_tagged : ℕ → Cursor Intent
decode_tagged tag =
    if nat_beq tag 0
    then (do
      from ← bytes 20
      to ← bytes 20
      amount ← word 16
      pure (transfer (record { bytes = from }) (record { bytes = to }) amount))
    else if nat_beq tag 1
    then (do
      caller ← bytes 20
      target ← bytes 20
      value ← word 16
      len ← word 4
      calldata ← bytes len
      pure (call (record { bytes = caller }) (record { bytes = target }) value calldata))
    else if nat_beq tag 2
    then (do
      account ← bytes 32
      name_len ← word 4
      name_bytes ← bytes name_len
      name ← ok_or_none (new_identifier name_bytes)
      bytes_len ← word 4
      code ← bytes bytes_len
      pure (deploy_module (record { bytes = account }) name code))
    else fail

unfoldable pub decode_intent : Cursor Intent
unfolding decode_tagged
decode_intent = do tag ← byte; decode_tagged tag

-- `for _ in 0..n { intents.push(decode_intent(&mut cur)?); }`.
unfoldable pub decode_intents : ℕ → Cursor (List Intent)
unfolding decode_intent
decode_intents zero = pure []
decode_intents (suc n) = do
  intent ← decode_intent
  intents ← decode_intents n
  pure (intent ∷ intents)

unfoldable pub decode_body : Cursor Block
unfolding decode_intents
decode_body = do
  height ← word 8
  parent ← bytes 32
  state_root ← bytes 32
  n ← word 4
  intents ← decode_intents n
  pure (record {
    height = height;
    parent = record { bytes = parent };
    state_root = record { bytes = state_root };
    intents = intents;
  })

-- The block, if the cursor is at the end.
abbrev pub at_eof : Option (Block × List ℕ) → Option Block
at_eof none = none
at_eof (some (block, [])) = some block
at_eof (some (block, b ∷ bs)) = none

unfoldable pub decode_block : List ℕ → Option Block
unfolding decode_body
decode_block input = at_eof (
    (do version ← byte; if nat_beq version block_encoding_version then decode_body else fail) input)
