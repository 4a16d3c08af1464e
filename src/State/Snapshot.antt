-- ===== src/State/Snapshot.antt =====
-- crates/suwappudb-state/src/snapshot.rs: the binary form of a snapshot, and its restore. The position
-- in the body is the list of the bytes behind it. An `expect` that fails is none. The text of an error
-- is a constructor with what was formatted.
pub mod RoundTrip
pub mod Sorting
pub mod Restored
use Prim.Native.Nat.Ordering.{gt}
use suwappu_db.Prelude.{
  nat_ord, ℕ, zero, suc, ◌+◌, ◌-◌, ◌*◌, ◌/◌, ◌%◌, ◌^◌, List, [], ◌∷◌, ◌++◌, Option, none, some,
  Bool, true, false, ◌&&◌, not, if◌then◌else◌, ltb, leb, nat_beq, length, take, drop, map,
  replicate, Result, ok, err, ◌==◌, list_beq, list_eq, nat_eq, lex,
}
use suwappu_db.State.Address.{Address, address_ord}
use suwappu_db.State.Canonical.{State, entries, bytes_entries, apply, set_balance, set_bytes}
use suwappu_db.State.Slot.{BalanceSlot}
use suwappu_db.State.Store.Interface.{BalanceStore}
use suwappu_db.Tree.Commit.{Commitment}

abbrev pub snapshot_entry_bytes : ℕ
snapshot_entry_bytes = 36

-- b"SUWAPPU\x01" and b"SUWAPPU\x02".
abbrev magic : ℕ → List ℕ
magic version = b'S' ∷ b'U' ∷ b'W' ∷ b'A' ∷ b'P' ∷ b'P' ∷ b'U' ∷ version ∷ []

abbrev pub snapshot_magic_v1 : List ℕ
snapshot_magic_v1 = magic 1

abbrev pub snapshot_magic_v2 : List ℕ
snapshot_magic_v2 = magic 2

pub data SnapshotError : Type 0 where
  too_short : SnapshotError
  magic_mismatch : SnapshotError
  -- what was got
  unknown_magic : List ℕ → SnapshotError
  -- the length of the body
  v1_body_length : ℕ → SnapshotError
  truncated_length_prefix truncated_balance_entry : SnapshotError
  truncated_bytes_header truncated_bytes_payload : SnapshotError
  trailing_bytes : ℕ → SnapshotError
  invalid_timestamp_or_empty : SnapshotError
  -- expected, got
  anchor_mismatch : List ℕ → Option (List ℕ) → SnapshotError

pub record DecodedBody : Type 0 where
  pub balances : List (Address × ℕ)
  pub bytes : List (Address × List ℕ)

-- `from_le_bytes` and `to_le_bytes`, the least significant byte first.
unfoldable pub from_le_bytes : List ℕ → ℕ
from_le_bytes [] = 0
from_le_bytes (b ∷ bs) = b + 256 * from_le_bytes bs

unfoldable pub le_bytes : ℕ → ℕ → List ℕ
le_bytes zero n = []
le_bytes (suc width) n = n % 256 ∷ le_bytes width (n / 256)

-- A read of the body: what was read and the bytes behind it, or an error.
abbrev pub Reader {ℓ} : Type ℓ → Type ℓ
Reader A = List ℕ → Result SnapshotError (A × List ℕ)

abbrev pub pure {ℓ} : {A : Type ℓ} → A → Reader A
pure a rest = ok (a, rest)

infixl 1 ◌>>=◌
unfoldable pub ◌>>=◌ {ℓ κ} : {A : Type ℓ} {B : Type κ} → Reader A → (A → Reader B) → Reader B
(p >>= f) rest = elim (p rest) [ err e ↦ err e | ok r ↦ f r.0 r.1 ]

-- The bounds check with its error, the bytes, and the position behind them.
unfoldable pub read_bytes : ℕ → SnapshotError → Reader (List ℕ)
read_bytes n e rest = if ltb (length rest) n then err e else ok (take n rest, drop n rest)

unfoldable pub take_u32 : Reader ℕ
unfolding read_bytes from_le_bytes
take_u32 = do n ← read_bytes 4 truncated_length_prefix; pure (from_le_bytes n)

abbrev pub address_of : List ℕ → Address
address_of chunk = record { bytes = take 20 chunk }

unfoldable pub balance_entry : List ℕ → Address × ℕ
unfolding from_le_bytes
balance_entry chunk = (address_of chunk, from_le_bytes (drop 20 chunk))

unfoldable pub read_balances : ℕ → Reader (List (Address × ℕ))
unfolding balance_entry
read_balances zero = pure []
read_balances (suc n) = do
  chunk ← read_bytes snapshot_entry_bytes truncated_balance_entry
  balances ← read_balances n
  pure (balance_entry chunk ∷ balances)

unfoldable pub read_blobs : ℕ → Reader (List (Address × List ℕ))
unfolding from_le_bytes
read_blobs zero = pure []
read_blobs (suc n) = do
  header ← read_bytes 24 truncated_bytes_header
  payload ← read_bytes (from_le_bytes (drop 20 header)) truncated_bytes_payload
  blobs ← read_blobs n
  pure ((address_of header, payload) ∷ blobs)

unfoldable pub read_body : Reader DecodedBody
unfolding read_balances read_blobs
read_body = do
  bal_count ← take_u32
  balances ← read_balances bal_count
  byt_count ← take_u32
  bytes ← read_blobs byt_count
  pure (record { balances = balances; bytes = bytes })

-- `cur != body.len()`.
abbrev pub at_end : Result SnapshotError (DecodedBody × List ℕ) → Result SnapshotError DecodedBody
at_end (err e) = err e
at_end (ok (body, [])) = ok body
at_end (ok (body, b ∷ bs)) = err (trailing_bytes (length (b ∷ bs)))

unfoldable pub parse_v2_body : List ℕ → Result SnapshotError DecodedBody
unfolding read_body
parse_v2_body enc = at_end (read_body (drop 8 enc))

pub record StateSnapshot : Type 0 where
  pub height : ℕ
  pub state_root : Commitment
  pub encoded_state : List ℕ
  pub timestamp : ℕ
  pub anchor_hash : Option (List ℕ)

-- `StateSnapshot::new`; `now` is the clock.
abbrev pub new : ℕ → ℕ → Commitment → List ℕ → Option (List ℕ) → StateSnapshot
new now height state_root encoded_state anchor_hash = record {
  height = height;
  state_root = state_root;
  encoded_state = encoded_state;
  timestamp = now;
  anchor_hash = anchor_hash;
}

abbrev anchor_size : Option (List ℕ) → ℕ
anchor_size none = 0
anchor_size (some hash) = 32

unfoldable pub size_bytes : StateSnapshot → ℕ
size_bytes s = 8 + 32 + 8 + anchor_size s.anchor_hash + length s.encoded_state

abbrev is_empty : List ℕ → Bool
is_empty [] = true
is_empty (x ∷ xs) = false

-- `is_valid`, at the time `now`.
unfoldable pub is_valid : ℕ → StateSnapshot → ℕ → Bool
is_valid now s max_age_secs =
    if nat_beq s.height 0
    then false
    else if ltb now s.timestamp
    then false
    else if ltb max_age_secs (now - s.timestamp)
    then false
    else not (is_empty s.encoded_state)

unfoldable pub verify_anchor : StateSnapshot → List ℕ → Bool
verify_anchor s anchor_hash = elim s.anchor_hash [ none ↦ false | some own ↦ own == anchor_hash ]

unfoldable pub with_state_root : StateSnapshot → Commitment → StateSnapshot
with_state_root s root = record s { state_root = root }

-- `sort_by_key` by the address, which is stable.
unfoldable pub insert_by_address :
    {A : Type 0} → Address × A → List (Address × A) → List (Address × A)
insert_by_address e [] = e ∷ []
insert_by_address e (f ∷ fs) = elim (lex e.0.bytes f.0.bytes) [
  | gt ↦ f ∷ insert_by_address e fs
  | _ ↦ e ∷ f ∷ fs
]

unfoldable pub sort_by_address : {A : Type 0} → List (Address × A) → List (Address × A)
unfolding insert_by_address
sort_by_address [] = []
sort_by_address (e ∷ es) = insert_by_address e (sort_by_address es)

-- `u32::try_from(n).expect(…).to_le_bytes()`.
abbrev pub u32_bytes : ℕ → Option (List ℕ)
u32_bytes n = if ltb n (2 ^ 32) then some (le_bytes 4 n) else none

unfoldable pub encode_balances : List (Address × BalanceSlot) → List ℕ
unfolding le_bytes
encode_balances [] = []
encode_balances ((addr, slot) ∷ rest) =
    addr.bytes ++ (le_bytes 16 slot.canonical ++ encode_balances rest)

abbrev pub blob_piece : Address → List ℕ → Option (List ℕ) → Option (List ℕ) → Option (List ℕ)
blob_piece addr payload none behind = none
blob_piece addr payload (some len) none = none
blob_piece addr payload (some len) (some behind) = some (addr.bytes ++ (len ++ (payload ++ behind)))

unfoldable pub encode_blobs : List (Address × List ℕ) → Option (List ℕ)
unfolding le_bytes
encode_blobs [] = some []
encode_blobs ((addr, payload) ∷ rest) =
    blob_piece addr payload (u32_bytes (length payload)) (encode_blobs rest)

abbrev pub joined : List ℕ → Option (List ℕ) → Option (List ℕ) → Option (List ℕ) → Option (List ℕ)
joined balances (some n) (some m) (some blobs) =
    some (snapshot_magic_v2 ++ (n ++ (balances ++ (m ++ blobs))))
joined balances _ _ _ = none

-- The bytes that `from_state` builds.
unfoldable pub encode_v2 : List (Address × BalanceSlot) → List (Address × List ℕ) → Option (List ℕ)
unfolding encode_balances encode_blobs
encode_v2 balances bytes =
    joined (encode_balances balances) (u32_bytes (length balances)) (u32_bytes (length bytes))
      (encode_blobs bytes)

module _ {S : Type 0} ⦃b : BalanceStore S⦄ where
  unfoldable pub from_state : ℕ → State S → ℕ → Option (List ℕ) → Option StateSnapshot
  unfolding encode_v2 sort_by_address
  from_state now state height anchor_hash =
      elim (encode_v2 (sort_by_address (entries state)) (sort_by_address (bytes_entries state))) [
        | none ↦ none
        | some encoded ↦
            some (new now height (record { bytes = replicate 32 0 }) encoded anchor_hash)
      ]

  unfoldable pub apply_balances : List (Address × ℕ) → State S → State S
  apply_balances [] state = state
  apply_balances ((addr, bal) ∷ rest) state =
      apply_balances rest (apply state (set_balance addr bal))

  unfoldable pub apply_blobs : List (Address × List ℕ) → State S → State S
  apply_blobs [] state = state
  apply_blobs ((addr, payload) ∷ rest) state =
      apply_blobs rest (apply state (set_bytes addr payload))

-- `body.chunks_exact(SNAPSHOT_ENTRY_BYTES)`, as many as the count says.
unfoldable pub chunks_exact : ℕ → List ℕ → List (List ℕ)
chunks_exact zero body = []
chunks_exact (suc n) body =
    take snapshot_entry_bytes body ∷ chunks_exact n (drop snapshot_entry_bytes body)

-- `body.len() % SNAPSHOT_ENTRY_BYTES == 0`.
abbrev pub has_whole_entries : List ℕ → Bool
has_whole_entries body = nat_beq (length body % snapshot_entry_bytes) 0

unfoldable pub validate_encoding : StateSnapshot → Result SnapshotError (Unit {0})
unfolding parse_v2_body
validate_encoding s =
    let enc = s.encoded_state in
    if ltb (length enc) 8
    then err too_short
    else if list_beq (take 8 enc) snapshot_magic_v1
    then (if has_whole_entries (drop 8 enc) then ok tt else err (v1_body_length (length enc - 8)))
    else if list_beq (take 8 enc) snapshot_magic_v2
    then elim (parse_v2_body enc) [ err e ↦ err e | ok body ↦ ok tt ]
    else err (unknown_magic (take 8 enc))

module _ {S : Type 0} ⦃b : BalanceStore S⦄ where
  abbrev restore_v1 : List ℕ → State S → State S × Result SnapshotError ℕ
  restore_v1 body state =
      let count = length body / snapshot_entry_bytes in
      if has_whole_entries body
      then (apply_balances (map balance_entry (chunks_exact count body)) state, ok count)
      else (state, err (v1_body_length (length body)))

  abbrev pub restore_v2 :
      Result SnapshotError DecodedBody → State S → State S × Result SnapshotError ℕ
  restore_v2 (err e) state = (state, err e)
  restore_v2 (ok decoded) state = (
    apply_blobs decoded.bytes (apply_balances decoded.balances state),
    ok (length decoded.balances + length decoded.bytes),
  )

  unfoldable pub restore_into_state : StateSnapshot → State S → State S × Result SnapshotError ℕ
  unfolding parse_v2_body apply_balances apply_blobs balance_entry chunks_exact
  restore_into_state s state =
      let enc = s.encoded_state in
      if ltb (length enc) 8
      then (state, err too_short)
      else if list_beq (take 8 enc) snapshot_magic_v1
      then restore_v1 (drop 8 enc) state
      else if list_beq (take 8 enc) snapshot_magic_v2
      then restore_v2 (parse_v2_body enc) state
      else (state, err magic_mismatch)

abbrev balances_in : Result SnapshotError DecodedBody → Option ℕ
balances_in (err e) = none
balances_in (ok body) = some (length body.balances)

abbrev blobs_in : Result SnapshotError DecodedBody → Option ℕ
blobs_in (err e) = none
blobs_in (ok body) = some (length body.bytes)

unfoldable pub entry_count : StateSnapshot → Option ℕ
unfolding parse_v2_body
entry_count s =
    let enc = s.encoded_state in
    if ltb (length enc) 8
    then none
    else if list_beq (take 8 enc) snapshot_magic_v1
    then (if has_whole_entries (drop 8 enc)
        then some ((length enc - 8) / snapshot_entry_bytes)
        else none)
    else if list_beq (take 8 enc) snapshot_magic_v2
    then balances_in (parse_v2_body enc)
    else none

unfoldable pub bytes_entry_count : StateSnapshot → Option ℕ
unfolding parse_v2_body
bytes_entry_count s =
    let enc = s.encoded_state in
    if ltb (length enc) 8
    then none
    else if list_beq (take 8 enc) snapshot_magic_v1
    then some 0
    else if list_beq (take 8 enc) snapshot_magic_v2
    then blobs_in (parse_v2_body enc)
    else none

-- `SnapshotManager`, without the directory and the names of the files in it.
pub record SnapshotManager : Type 0 where
  pub snapshot_interval : ℕ
  pub max_age_secs : ℕ
  pub max_snapshots : ℕ

abbrev pub new_manager : ℕ → SnapshotManager
new_manager snapshot_interval = record {
  snapshot_interval = snapshot_interval;
  max_age_secs = 7 * 24 * 60 * 60;
  max_snapshots = 3;
}

-- `height % 0` panics, and it is evaluated for a positive height only.
unfoldable pub should_snapshot : SnapshotManager → ℕ → Option Bool
should_snapshot m zero = some false
should_snapshot m (suc height) =
    if nat_beq m.snapshot_interval 0
    then none
    else some (nat_beq (suc height % m.snapshot_interval) 0)

unfoldable pub validate_snapshot :
    ℕ → SnapshotManager → StateSnapshot → Option (List ℕ) → Result SnapshotError (Unit {0})
unfolding is_valid verify_anchor
validate_snapshot now m snapshot expected =
    if is_valid now snapshot m.max_age_secs
    then elim expected [
      | none ↦ ok tt
      | some anchor ↦
          if verify_anchor snapshot anchor
          then ok tt
          else err (anchor_mismatch anchor snapshot.anchor_hash)
    ]
    else err invalid_timestamp_or_empty
