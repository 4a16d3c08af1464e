-- ===== src/Recovery/RoundTrip.antt =====
-- What was encoded decodes, and nothing is left of the input.
use mathlib.Core.List.{append-nil, append_assoc}
use suwappu_db.Tree.Preimages.{quotient-lt}
use suwappu_db.Tree.Commit.{be_bytes}
use suwappu_db.State.Move.Types.{new_identifier, Identifier}
use suwappu_db.Recovery.Codec.{
  at_eof, fail, block_encoding_version, encode_intent, pure, ok_or_none, word, encode_intents, byte,
  encode_block, ◌>>=◌, decode_tagged, bytes, decode_block, decode_body, Cursor, from_be_bytes,
  decode_intents, decode_intent,
}
use suwappu_db.Recovery.Block.{join, len_bytes, u32_mod, Block}
use suwappu_db.Tree.Preimages.{length-be_bytes}
use suwappu_db.Prelude.{
  take-append, drop-append, nat_beq, length-append, true, leb, ◌∙◌, ◌-◌, subst, ap, ℕ, zero, suc,
  ◌≡◌, ◌<◌, ◌^◌, ◌*◌, ◌+◌, ◌/◌, ◌%◌, List, [], ◌∷◌, ◌++◌, some, refl, arith, length, All, ok,
  u128_mod, u64_mod, ltb, if◌then◌else◌,
}
use suwappu_db.Bridge.Intent.{Intent, transfer, call, deploy_module}

-- In front of any further input, the cursor reads the value off the bytes.
abbrev pub Reads {ℓ} : {A : Type ℓ} → Cursor A → List ℕ → A → Type ℓ
Reads p printed a = (rest : List ℕ) → p (printed ++ rest) ≡ some (a, rest)

Reads-bind {ℓ κ} :
    {A : Type ℓ} {B : Type κ} (p : Cursor A) (f : A → Cursor B) (xs ys : List ℕ) (a : A) (c : B)
    → Reads p xs a
    → Reads (f a) ys c
    → Reads (p >>= f) (xs ++ ys) c
unfolding ◌>>=◌
Reads-bind p f xs ys a c hp hf rest =
    rw (append_assoc xs ys rest) (rw (hp (ys ++ rest), ◌>>=◌) (hf rest))

Reads-pure {ℓ} : {A : Type ℓ} (a : A) → Reads (pure a) [] a
Reads-pure a rest = refl

bytes-Reads : (n : ℕ) (xs : List ℕ) → length xs ≡ n → Reads (bytes n) xs xs
unfolding bytes
bytes-Reads n xs e =
    subst (λ n. Reads (bytes n) xs xs) e
      (λ rest. rw (fits xs rest, take-append xs rest, drop-append xs rest) refl)
  where
    fits : (xs rest : List ℕ) → leb (length xs) (length (xs ++ rest)) ≡ true
    fits xs rest = rw (length-append xs rest) (ground arith)

from_be_bytes-append :
    (n b : ℕ) (bs : List ℕ) → from_be_bytes n (bs ++ b ∷ []) ≡ from_be_bytes n bs * 256 + b
unfolding from_be_bytes
from_be_bytes-append n b [] = refl
from_be_bytes-append n b (c ∷ bs) = from_be_bytes-append (n * 256 + c) b bs

pub from_be_bytes-be_bytes :
    (width n : ℕ) → n < 256 ^ width → from_be_bytes 0 (be_bytes width n) ≡ n
unfolding from_be_bytes be_bytes
from_be_bytes-be_bytes zero n h = omega (arith, h)
from_be_bytes-be_bytes (suc width) n h =
    let high = from_be_bytes-be_bytes width (n / 256) (quotient-lt width n h) in
    from_be_bytes-append 0 (n % 256) (be_bytes width (n / 256)) ∙ omega (arith, high)

word-Reads : (width n : ℕ) → n < 256 ^ width → Reads (word width) (be_bytes width n) n
unfolding word ◌>>=◌
word-Reads width n h rest =
    rw (bytes-Reads width (be_bytes width n) (length-be_bytes width n) rest, ◌>>=◌)
      (ap (λ v. some (v, rest)) (from_be_bytes-be_bytes width n h))

len-Reads : (n : ℕ) → n < u32_mod → Reads (word 4) (len_bytes n) n
len-Reads n h = rw (fits n h) (word-Reads 4 n (omega (arith, h)))
  where
    fits : (n : ℕ) → n < u32_mod → (if ltb n u32_mod then n else u32_mod - 1) ≡ n
    fits n h = ground (arith, h)

-- What an intent has in memory: addresses of their length, words that fit, names that were checked,
-- and fewer bytes than a length can say.
abbrev pub IsEncodable : Intent → Type 0
IsEncodable (transfer from to amount) =
    (length from.bytes ≡ 20) × (length to.bytes ≡ 20) × (amount < u128_mod)
IsEncodable (call caller target value calldata) =
    (length caller.bytes ≡ 20)
    × (length target.bytes ≡ 20)
    × (value < u128_mod)
    × (length calldata < u32_mod)
IsEncodable (deploy_module account name code) =
    (length account.bytes ≡ 32)
    × (new_identifier name.name ≡ ok name)
    × (length name.name < u32_mod)
    × (length code < u32_mod)

abbrev pub IsEncodableBlock : Block → Type 0
IsEncodableBlock block =
    (block.height < u64_mod)
    × (length block.parent.bytes ≡ 32)
    × (length block.state_root.bytes ≡ 32)
    × (length block.intents < u32_mod)
    × All IsEncodable block.intents

identifier-Reads :
    (name : Identifier)
    → new_identifier name.name ≡ ok name
    → Reads (ok_or_none (new_identifier name.name)) [] name
identifier-Reads name h = rw h (λ rest. refl)

byte-Reads : (b : ℕ) → b < 256 → Reads byte (b ∷ []) b
unfolding byte be_bytes
byte-Reads b h =
    subst (λ bs. Reads (word 1) bs b) (ap (λ c. c ∷ []) (omega (arith, h)))
      (word-Reads 1 b (omega (arith, h)))

decode_intent-Reads :
    (intent : Intent) → IsEncodable intent → Reads decode_intent (encode_intent intent) intent
unfolding decode_intent decode_tagged encode_intent
decode_intent-Reads (transfer from to amount) h =
    let whole = transfer from to amount in
    Reads-bind byte decode_tagged (0 ∷ []) _ 0 whole (byte-Reads 0 (omega arith)) (
      Reads-bind (bytes 20) _ from.bytes _ from.bytes whole (bytes-Reads 20 from.bytes h.0) (
        Reads-bind (bytes 20) _ to.bytes _ to.bytes whole (bytes-Reads 20 to.bytes h.1) (
          Reads-bind (word 16) _ (be_bytes 16 amount) [] amount whole
            (word-Reads 16 amount (omega (arith, h.2))) (Reads-pure whole))))
decode_intent-Reads (call caller target value calldata) h =
    let whole = call caller target value calldata in
    let len = length calldata in
    Reads-bind byte decode_tagged (1 ∷ []) _ 1 whole (byte-Reads 1 (omega arith)) (
      Reads-bind (bytes 20) _ caller.bytes _ caller.bytes whole (bytes-Reads 20 caller.bytes h.0) (
        Reads-bind (bytes 20) _ target.bytes _ target.bytes whole (bytes-Reads 20 target.bytes h.1)
          (Reads-bind (word 16) _ (be_bytes 16 value) _ value whole
            (word-Reads 16 value (omega (arith, h.2)))
            (Reads-bind (word 4) _ (len_bytes len) _ len whole (len-Reads len h.3) (
              Reads-bind (bytes len) _ calldata [] calldata whole (bytes-Reads len calldata refl)
                (Reads-pure whole))))))
decode_intent-Reads (deploy_module account name code) h =
    let whole = deploy_module account name code in
    let name_len = length name.name in
    let code_len = length code in
    Reads-bind byte decode_tagged (2 ∷ []) _ 2 whole (byte-Reads 2 (omega arith)) (
      Reads-bind (bytes 32) _ account.bytes _ account.bytes whole (bytes-Reads 32 account.bytes h.0)
        (Reads-bind (word 4) _ (len_bytes name_len) _ name_len whole (len-Reads name_len h.2) (
          Reads-bind (bytes name_len) _ name.name _ name.name whole
            (bytes-Reads name_len name.name refl)
            (Reads-bind (ok_or_none (new_identifier name.name)) _ [] _ name whole
              (identifier-Reads name h.1)
              (Reads-bind (word 4) _ (len_bytes code_len) _ code_len whole (len-Reads code_len h.3)
                (Reads-bind (bytes code_len) _ code [] code whole (bytes-Reads code_len code refl)
                  (Reads-pure whole)))))))

decode_intents-Reads :
    (intents : List Intent)
    → All IsEncodable intents
    → Reads (decode_intents (length intents)) (encode_intents intents) intents
unfolding decode_intents encode_intents ◌>>=◌
decode_intents-Reads [] h = λ rest. refl
decode_intents-Reads (intent ∷ intents) h = λ rest.
    let read = decode_intents-Reads intents h.1 rest in
    rw (append_assoc (encode_intent intent) (encode_intents intents) rest) (
      rw (decode_intent-Reads intent h.0 (encode_intents intents ++ rest), ◌>>=◌)
        (rw (read, ◌>>=◌) refl))

-- The encoding behind the version.
abbrev pub fields : Block → List ℕ
fields block = join (
    be_bytes 8 block.height
    ∷ block.parent.bytes
    ∷ block.state_root.bytes
    ∷ len_bytes (length block.intents)
    ∷ encode_intents block.intents
    ∷ [])

decode_body-Reads :
    (block : Block) → IsEncodableBlock block → Reads decode_body (fields block) block
unfolding decode_body
decode_body-Reads block h =
    let count = length block.intents in
    Reads-bind (word 8) _ (be_bytes 8 block.height) _ block.height block
      (word-Reads 8 block.height (omega (arith, h.0)))
      (Reads-bind (bytes 32) _ block.parent.bytes _ block.parent.bytes block
        (bytes-Reads 32 block.parent.bytes h.1)
        (Reads-bind (bytes 32) _ block.state_root.bytes _ block.state_root.bytes block
          (bytes-Reads 32 block.state_root.bytes h.2)
          (Reads-bind (word 4) _ (len_bytes count) _ count block (len-Reads count h.3) (
            Reads-bind (decode_intents count) _ (encode_intents block.intents) [] block.intents
              block (decode_intents-Reads block.intents h.4) (Reads-pure block)))))

-- A block whose fields have the sizes that they have in memory, with fewer than 2 ^ 32 intents and
-- bytes in each, is decoded from its stored form.
pub decode_block-encode_block :
    (block : Block) → IsEncodableBlock block → decode_block (encode_block block) ≡ some block
unfolding decode_block encode_block
decode_block-encode_block block h =
    let body = fields block in
    let whole =
      Reads-bind byte
        (λ version. if nat_beq version block_encoding_version then decode_body else fail)
        (block_encoding_version ∷ []) body block_encoding_version block
        (byte-Reads block_encoding_version (omega arith)) (decode_body-Reads block h) [] in
    ap at_eof (
      subst
        (λ input.
          (byte >>= λ version. if nat_beq version block_encoding_version then decode_body else fail)
            input
          ≡ some (block, []))
        (append-nil (block_encoding_version ∷ body)) whole)
