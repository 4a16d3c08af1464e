-- ===== src/State/Snapshot/RoundTrip.antt =====
-- The bytes that `from_state` builds are parsed back.
use suwappu_db.Tree.Preimages.{quotient-lt}
use mathlib.Core.List.{append-nil, append_assoc}
use suwappu_db.State.Address.{Address}
use suwappu_db.State.Snapshot.{
  at_end, DecodedBody, truncated_bytes_payload, snapshot_magic_v2, truncated_bytes_header,
  read_body, parse_v2_body, read_blobs, encode_v2, u32_bytes, encode_blobs, truncated_balance_entry,
  truncated_length_prefix, ◌>>=◌, SnapshotError, from_le_bytes, BalanceSlot, encode_balances, pure,
  read_bytes, Reader, read_balances, take_u32, balance_entry, le_bytes,
}
use suwappu_db.Prelude.{
  some, sym, u128_mod, ◌∙◌, false, subst, ap, ℕ, zero, suc, ◌≡◌, ◌<◌, ◌^◌, ◌/◌, List, [], ◌∷◌, ◌++◌,
  All, refl, arith, ltb, take, drop, length, map, take-append, drop-append, length-append, ok,
}

abbrev pub Reads {ℓ} : {A : Type ℓ} → Reader A → List ℕ → A → Type ℓ
Reads p printed a = (rest : List ℕ) → p (printed ++ rest) ≡ ok (a, rest)

Reads-bind {ℓ κ} :
    {A : Type ℓ} {B : Type κ} (p : Reader A) (f : A → Reader B) (xs ys : List ℕ) (a : A) (c : B)
    → Reads p xs a
    → Reads (f a) ys c
    → Reads (p >>= f) (xs ++ ys) c
unfolding ◌>>=◌
Reads-bind p f xs ys a c hp hf rest =
    rw (append_assoc xs ys rest) (rw (hp (ys ++ rest), ◌>>=◌) (hf rest))

Reads-pure {ℓ} : {A : Type ℓ} (a : A) → Reads (pure a) [] a
Reads-pure a rest = refl

read_bytes-Reads :
    (n : ℕ) (e : SnapshotError) (xs : List ℕ) → length xs ≡ n → Reads (read_bytes n e) xs xs
unfolding read_bytes
read_bytes-Reads n e xs l =
    subst (λ n. Reads (read_bytes n e) xs xs) l
      (λ rest. rw (fits xs rest, take-append xs rest, drop-append xs rest) refl)
  where
    fits : (xs rest : List ℕ) → ltb (length (xs ++ rest)) (length xs) ≡ false
    fits xs rest = rw (length-append xs rest) (ground arith)

length-le_bytes : (width n : ℕ) → length (le_bytes width n) ≡ width
unfolding le_bytes
length-le_bytes zero n = refl
length-le_bytes (suc width) n = ap suc (length-le_bytes width (n / 256))

pub from_le_bytes-le_bytes : (width n : ℕ) → n < 256 ^ width → from_le_bytes (le_bytes width n) ≡ n
unfolding from_le_bytes le_bytes
from_le_bytes-le_bytes zero n h = omega (arith, h)
from_le_bytes-le_bytes (suc width) n h =
    omega (arith, from_le_bytes-le_bytes width (n / 256) (quotient-lt width n h))

take_u32-Reads : (n : ℕ) → n < 2 ^ 32 → Reads take_u32 (le_bytes 4 n) n
unfolding take_u32 ◌>>=◌
take_u32-Reads n h rest =
    rw (read_bytes-Reads 4 truncated_length_prefix (le_bytes 4 n) (length-le_bytes 4 n) rest, ◌>>=◌)
      (ap (λ v. ok (v, rest)) (from_le_bytes-le_bytes 4 n (omega (arith, h))))

-- Twenty bytes and what stands behind them.
split_at :
    (a : Address) (xs : List ℕ)
    → length a.bytes ≡ 20
    → (take 20 (a.bytes ++ xs) ≡ a.bytes) × (drop 20 (a.bytes ++ xs) ≡ xs)
split_at a xs l =
    subst (λ n. (take n (a.bytes ++ xs) ≡ a.bytes) × (drop n (a.bytes ++ xs) ≡ xs)) l
      (take-append a.bytes xs, drop-append a.bytes xs)

abbrev pub amount_of : Address × BalanceSlot → Address × ℕ
amount_of e = (e.0, e.1.canonical)

abbrev pub IsWritable : Address × BalanceSlot → Type 0
IsWritable e = (length e.0.bytes ≡ 20) × (e.1.canonical < u128_mod)

abbrev pub IsWritableBlob : Address × List ℕ → Type 0
IsWritableBlob e = (length e.0.bytes ≡ 20) × (length e.1 < 2 ^ 32)

balance_entry-Reads :
    (e : Address × BalanceSlot)
    → IsWritable e
    → balance_entry (e.0.bytes ++ le_bytes 16 e.1.canonical) ≡ amount_of e
unfolding balance_entry
balance_entry-Reads e h =
    let halves = split_at e.0 (le_bytes 16 e.1.canonical) h.0 in
    let amount = from_le_bytes-le_bytes 16 e.1.canonical (omega (arith, h.1)) in
    rw (halves.0, halves.1, amount) refl

read_balances-Reads :
    (es : List (Address × BalanceSlot))
    → All IsWritable es
    → Reads (read_balances (length es)) (encode_balances es) (map amount_of es)
unfolding read_balances encode_balances ◌>>=◌
read_balances-Reads [] h = λ rest. refl
read_balances-Reads (e ∷ es) h = λ rest.
    let piece = e.0.bytes ++ le_bytes 16 e.1.canonical in
    let size =
      length-append e.0.bytes (le_bytes 16 e.1.canonical)
      ∙ omega (arith, h.0.0, length-le_bytes 16 e.1.canonical) in
    let first =
      read_bytes-Reads 36 truncated_balance_entry piece size (encode_balances es ++ rest) in
    let shape =
      append_assoc e.0.bytes (le_bytes 16 e.1.canonical ++ encode_balances es) rest
      ∙ ap (λ ys. e.0.bytes ++ ys)
          (append_assoc (le_bytes 16 e.1.canonical) (encode_balances es) rest)
      ∙ sym (append_assoc e.0.bytes (le_bytes 16 e.1.canonical) (encode_balances es ++ rest)) in
    rw shape (
      rw (first, ◌>>=◌)
        (rw (read_balances-Reads es h.1 rest, ◌>>=◌, balance_entry-Reads e h.0) refl))

-- One blob with its address and its length.
abbrev piece_of : Address × List ℕ → List ℕ
piece_of e = e.0.bytes ++ le_bytes 4 (length e.1)

-- The bytes of the blobs, if every length fits.
unfoldable pub blobs_bytes : List (Address × List ℕ) → List ℕ
blobs_bytes [] = []
blobs_bytes (e ∷ es) = e.0.bytes ++ (le_bytes 4 (length e.1) ++ (e.1 ++ blobs_bytes es))

u32_bytes-some : (n : ℕ) → n < 2 ^ 32 → u32_bytes n ≡ some (le_bytes 4 n)
u32_bytes-some n h = ground (arith, h)

encode_blobs-some :
    (es : List (Address × List ℕ)) → All IsWritableBlob es → encode_blobs es ≡ some (blobs_bytes es)
unfolding encode_blobs blobs_bytes
encode_blobs-some [] h = refl
encode_blobs-some (e ∷ es) h = rw (encode_blobs-some es h.1, u32_bytes-some (length e.1) h.0.1) refl

read_blobs-Reads :
    (es : List (Address × List ℕ))
    → All IsWritableBlob es
    → Reads (read_blobs (length es)) (blobs_bytes es) es
unfolding read_blobs blobs_bytes ◌>>=◌
read_blobs-Reads [] h = λ rest. refl
read_blobs-Reads (e ∷ es) h = λ rest.
    let len = le_bytes 4 (length e.1) in
    let behind = e.1 ++ (blobs_bytes es ++ rest) in
    let size : length (e.0.bytes ++ len) ≡ 24 =
      length-append e.0.bytes len ∙ omega (arith, h.0.0, length-le_bytes 4 (length e.1)) in
    let first = read_bytes-Reads 24 truncated_bytes_header (e.0.bytes ++ len) size behind in
    let halves = split_at e.0 len h.0.0 in
    let count = from_le_bytes-le_bytes 4 (length e.1) (omega (arith, h.0.1)) in
    let second =
      read_bytes-Reads (length e.1) truncated_bytes_payload e.1 refl (blobs_bytes es ++ rest) in
    let shape =
      append_assoc e.0.bytes (len ++ (e.1 ++ blobs_bytes es)) rest
      ∙ ap (λ ys. e.0.bytes ++ ys)
          (append_assoc len (e.1 ++ blobs_bytes es) rest
            ∙ ap (λ ys. len ++ ys) (append_assoc e.1 (blobs_bytes es) rest))
      ∙ sym (append_assoc e.0.bytes len behind) in
    rw shape (
      rw (first, ◌>>=◌)
        (rw (halves.1, count)
          (rw (second, ◌>>=◌) (rw (read_blobs-Reads es h.1 rest, ◌>>=◌, halves.0) refl))))

-- What `from_state` builds of entries that fit.
abbrev pub body_of : List (Address × BalanceSlot) → List (Address × List ℕ) → List ℕ
body_of balances blobs =
    le_bytes 4 (length balances)
    ++ (encode_balances balances ++ (le_bytes 4 (length blobs) ++ blobs_bytes blobs))

module _ (balances : List (Address × BalanceSlot)) (blobs : List (Address × List ℕ))
    (few : length balances < 2 ^ 32) (few_blobs : length blobs < 2 ^ 32)
    (fit : All IsWritable balances) (fit_blobs : All IsWritableBlob blobs) where
  pub encode_v2-some : encode_v2 balances blobs ≡ some (snapshot_magic_v2 ++ body_of balances blobs)
  unfolding encode_v2
  encode_v2-some =
      rw
        (
          u32_bytes-some (length balances) few,
          u32_bytes-some (length blobs) few_blobs,
          encode_blobs-some blobs fit_blobs,
        )
        refl

  pub parse-encode :
      parse_v2_body (snapshot_magic_v2 ++ body_of balances blobs)
      ≡ ok (record { balances = map amount_of balances; bytes = blobs })
  unfolding parse_v2_body read_body
  parse-encode =
      let decoded : DecodedBody = record { balances = map amount_of balances; bytes = blobs } in
      let whole : Reads read_body
          (le_bytes 4 (length balances)
            ++ (encode_balances balances
                ++ (le_bytes 4 (length blobs) ++ (blobs_bytes blobs ++ []))))
          decoded =
        Reads-bind take_u32 _ (le_bytes 4 (length balances)) _ (length balances) decoded
          (take_u32-Reads (length balances) few)
          (Reads-bind (read_balances (length balances)) _ (encode_balances balances) _
            (map amount_of balances) decoded (read_balances-Reads balances fit)
            (Reads-bind take_u32 _ (le_bytes 4 (length blobs)) _ (length blobs) decoded
              (take_u32-Reads (length blobs) few_blobs)
              (Reads-bind (read_blobs (length blobs)) _ (blobs_bytes blobs) [] blobs decoded
                (read_blobs-Reads blobs fit_blobs) (Reads-pure decoded)))) in
      let read =
        subst
          (λ bs.
            Reads read_body
              (le_bytes 4 (length balances)
                ++ (encode_balances balances ++ (le_bytes 4 (length blobs) ++ bs)))
              decoded)
          (append-nil (blobs_bytes blobs)) whole in
      ap at_end (
        subst (λ ys. read_body ys ≡ ok (decoded, [])) (append-nil (body_of balances blobs))
          (read []))
