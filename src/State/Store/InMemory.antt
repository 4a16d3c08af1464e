-- ===== src/State/Store/InMemory.antt =====
-- `InMemoryBalanceStore`: a hash map of slots and an ordered map of byte blobs.
use suwappu_db.Prelude.{
  is_eq-cmp, ◌∙◌, ◌==◌, if◌then◌else◌, refl, ◌≡◌, length, ℕ, List, [], ◌∷◌, Option, arith,
}
use suwappu_db.Collections.BTreeMap
use suwappu_db.Collections.BTreeMap.{BTreeMap}
use suwappu_db.Collections.HashMap
use suwappu_db.Collections.HashMap.{HashMap, or_else}
use suwappu_db.State.Address.{Address, address_eq, address_ord}
use suwappu_db.State.Slot
use suwappu_db.State.Slot.{BalanceSlot}
use suwappu_db.State.Store.Interface.{BalanceStore, stored}

pub record InMemoryBalanceStore : Type 0 where
  pub slots : HashMap Address BalanceSlot
  pub bytes : BTreeMap Address (List ℕ)

abbrev pub new : InMemoryBalanceStore
new = record { slots = []; bytes = [] }

-- `self.slots.get(addr).copied().unwrap_or_default()`.
unfoldable pub get : InMemoryBalanceStore → Address → BalanceSlot
get s addr = or_else (HashMap.lookup addr s.slots) Slot.default

unfoldable pub set : InMemoryBalanceStore → Address → BalanceSlot → InMemoryBalanceStore
set s addr slot = record s { slots = HashMap.insert addr slot s.slots }

unfoldable pub len : InMemoryBalanceStore → ℕ
len s = length s.slots

unfoldable pub entries : InMemoryBalanceStore → List (Address × BalanceSlot)
entries s = s.slots

unfoldable pub get_bytes : InMemoryBalanceStore → Address → Option (List ℕ)
get_bytes s addr = BTreeMap.lookup addr s.bytes

-- An empty blob removes the entry.
unfoldable pub set_bytes : InMemoryBalanceStore → Address → List ℕ → InMemoryBalanceStore
set_bytes s addr [] = record s { bytes = BTreeMap.remove addr s.bytes }
set_bytes s addr (x ∷ xs) = record s { bytes = BTreeMap.insert addr (x ∷ xs) s.bytes }

unfoldable pub bytes_entries : InMemoryBalanceStore → List (Address × List ℕ)
bytes_entries s = s.bytes

pub get-set :
    (s : InMemoryBalanceStore) (a b : Address) (v : BalanceSlot)
    → get (set s a v) b ≡ (if a == b then v else get s b)
unfolding get set
get-set s a b v = ground (arith, HashMap.lookup-insert a b v s.slots)

pub get-set_bytes :
    (s : InMemoryBalanceStore) (a b : Address) (w : List ℕ) → get (set_bytes s a w) b ≡ get s b
unfolding get set_bytes
get-set_bytes s a b [] = refl
get-set_bytes s a b (x ∷ xs) = refl

pub get_bytes-set :
    (s : InMemoryBalanceStore) (a b : Address) (v : BalanceSlot)
    → get_bytes (set s a v) b ≡ get_bytes s b
unfolding get_bytes set
get_bytes-set s a b v = refl

pub get_bytes-set_bytes :
    (s : InMemoryBalanceStore) (a b : Address) (w : List ℕ)
    → get_bytes (set_bytes s a w) b ≡ (if a == b then stored w else get_bytes s b)
unfolding get_bytes set_bytes
get_bytes-set_bytes s a b [] = BTreeMap.lookup-remove a b s.bytes ∙ rw (is_eq-cmp b a)
get_bytes-set_bytes s a b (x ∷ xs) =
    BTreeMap.lookup-insert a b (x ∷ xs) s.bytes ∙ rw (is_eq-cmp b a)

pub get-entries :
    (s : InMemoryBalanceStore) (a : Address)
    → or_else (HashMap.lookup a (entries s)) Slot.default ≡ get s a
unfolding get entries
get-entries s a = refl

-- The in-memory store keeps the contracts of the interface.
instance abbrev pub in_memory : BalanceStore InMemoryBalanceStore
in_memory = record {
  get = get;
  set = set;
  len = len;
  entries = entries;
  get_bytes = get_bytes;
  set_bytes = set_bytes;
  bytes_entries = bytes_entries;
  get-set_new = λ s a b v. get-set s a b (Slot.new v);
  get-set_bytes = get-set_bytes;
  get_bytes-set = get_bytes-set;
  get_bytes-set_bytes = get_bytes-set_bytes;
  get-entries = get-entries;
}

-- If the blobs come out in strictly ascending order of their addresses, they do after any write of a
-- blob.
pub bytes_entries-IsSorted :
    (s : InMemoryBalanceStore) (a : Address) (w : List ℕ)
    → BTreeMap.IsSorted (bytes_entries s)
    → BTreeMap.IsSorted (bytes_entries (set_bytes s a w))
unfolding bytes_entries set_bytes
bytes_entries-IsSorted s a [] h = BTreeMap.remove-IsSorted a s.bytes h
bytes_entries-IsSorted s a (x ∷ xs) h = BTreeMap.insert-IsSorted a (x ∷ xs) s.bytes h
