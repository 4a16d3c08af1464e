-- ===== src/Occ/MvStore/Versions.antt =====
-- The versioned store as a function from an address and an index to the slot written there.
use suwappu_db.Prelude.{
  sym, ℕ, zero, suc, ◌≡◌, ◌≤◌, ◌<◌, [], ◌∷◌, Option, none, some, true, if◌then◌else◌, ◌&&◌, nat_ord,
  nat_beq, ◌==◌, arith, refl, Bool-cases, inl, inr, ltb,
}
use suwappu_db.Collections.BTreeMap
use suwappu_db.Collections.BTreeMap.{Above, IsSorted}
use suwappu_db.Collections.HashMap
use suwappu_db.Collections.HashMap.{HashMap, IsDistinct, or_else}
use suwappu_db.Occ.MvStore
use suwappu_db.Occ.MvStore.{
  MvStore, TxnIdx, PerAddress, at, visible, write, clear_writes, remove_version, retain_written,
  null,
}
use suwappu_db.State.Address.{Address, address_eq, address_beq_iff}
use suwappu_db.State.Slot.{BalanceSlot}

unfoldable pub version_at : MvStore → Address → TxnIdx → Option BalanceSlot
version_at mv addr idx = BTreeMap.lookup idx (at mv addr)

-- The highest entry of a function below a bound.
abbrev pub below : (ℕ → Option BalanceSlot) → ℕ → Option (ℕ × BalanceSlot)
below f zero = none
below f (suc n) = elim (f n) [ some s ↦ some (n, s) | none ↦ below f n ]

abbrev AllSorted : HashMap Address PerAddress → Type 0
AllSorted [] = Unit
AllSorted ((a, m) ∷ rest) = IsSorted m × AllSorted rest

-- Each address stands once, with its versions in ascending order.
pub record IsValid (mv : MvStore) : Type 0 where
  pub distinct : IsDistinct mv.versions
  pub sorted : AllSorted mv.versions

pub new-IsValid : IsValid MvStore.new
new-IsValid = record { distinct = tt; sorted = tt }

pub version_at-new : (a : Address) (k : ℕ) → version_at MvStore.new a k ≡ none
unfolding version_at at HashMap.lookup BTreeMap.lookup
version_at-new a k = refl

pub below_cong :
    (f g : ℕ → Option BalanceSlot) (n : ℕ) → ((k : ℕ) → k < n → f k ≡ g k) → below f n ≡ below g n
below_cong f g zero h = refl
below_cong f g (suc n) h =
    let here = h n (omega arith) in
    let rest = below_cong f g n (λ k l. h k (omega arith)) in ground arith

pub below-none :
    (f : ℕ → Option BalanceSlot) (n : ℕ) → ((k : ℕ) → k < n → f k ≡ none) → below f n ≡ none
below-none f zero h = refl
below-none f (suc n) h =
    let here = h n (omega arith) in
    let rest = below-none f n (λ k l. h k (omega arith)) in ground arith

lookup-Above : (j k : ℕ) (m : PerAddress) → Above j m → k ≤ j → BTreeMap.lookup k m ≡ none
unfolding BTreeMap.lookup
lookup-Above j k [] a h = refl
lookup-Above j k ((i, w) ∷ m) a h = ground (arith, lookup-Above j k m)

-- A function with one entry more, below all the others.
below_first :
    (f g : ℕ → Option BalanceSlot) (j : ℕ) (w : BalanceSlot) (n : ℕ)
    → ((k : ℕ) → k ≤ j → f k ≡ none)
    → ((k : ℕ) → g k ≡ (if nat_beq k j then some w else f k))
    → below g n
      ≡ (if ltb j n then elim (below f n) [ none ↦ some (j, w) | some e ↦ some e ] else none)
below_first f g j w zero low h = ground arith
below_first f g j w (suc n) low h =
    let rest = below_first f g j w n low h in
    let here = h n in
    let under = λ (p : n ≤ j). low n p in
    let empty = λ (p : n ≤ j). below-none f n (λ k l. low k (omega arith)) in
    ground (arith, here, rest, under, empty)

last_below-eq-below :
    (m : PerAddress) (n : ℕ)
    → IsSorted m
    → BTreeMap.last_below n m ≡ below (λ k. BTreeMap.lookup k m) n
unfolding BTreeMap.last_below BTreeMap.lookup
last_below-eq-below [] n s = sym (below-none (λ k. none) n (λ k l. refl))
last_below-eq-below ((j, w) ∷ m) n s =
    let rest = last_below-eq-below m n s.1 in
    let first =
      below_first (λ k. BTreeMap.lookup k m) (λ k. BTreeMap.lookup k ((j, w) ∷ m)) j w n
        (λ k l. lookup-Above j k m s.0 l) (λ k. unfold BTreeMap.lookup in refl) in
    ground (arith, rest, first)

lookup-AllSorted :
    (a : Address) (m : HashMap Address PerAddress)
    → AllSorted m
    → IsSorted (or_else (HashMap.lookup a m) [])
unfolding HashMap.lookup
lookup-AllSorted a [] s = tt
lookup-AllSorted a ((c, p) ∷ m) s = elim (Bool-cases (c == a)) [
  | inl e ↦ rw e s.0
  | inr e ↦ rw e (lookup-AllSorted a m s.1)
]

pub at-IsSorted : (mv : MvStore) (a : Address) → IsValid mv → IsSorted (at mv a)
unfolding at
at-IsSorted mv a h = lookup-AllSorted a mv.versions h.sorted

-- In a well-formed versioned store, what a reader at an index sees of an address is the version with
-- the highest index below its own, and nothing if there is none.
pub visible-eq-below :
    (mv : MvStore) (a : Address) (n : ℕ) → IsValid mv → visible mv a n ≡ below (version_at mv a) n
unfolding visible version_at
visible-eq-below mv a n h = last_below-eq-below (at mv a) n (at-IsSorted mv a h)

pub version_at-write :
    (mv : MvStore) (a c : Address) (s : BalanceSlot) (i k : ℕ)
    → version_at (write mv a s i) c k
      ≡ (if (a == c) && nat_beq k i then some s else version_at mv c k)
unfolding version_at write at
version_at-write mv a c s i k = ground (
  arith,
  address_beq_iff a c,
  HashMap.lookup-insert a c (BTreeMap.insert i s (at mv a)) mv.versions,
  BTreeMap.lookup-insert i k s (at mv a),
)

AllSorted-insert :
    (a : Address) (p : PerAddress) (m : HashMap Address PerAddress)
    → IsSorted p
    → AllSorted m
    → AllSorted (HashMap.insert a p m)
unfolding HashMap.insert
AllSorted-insert a p [] s h = (s, tt)
AllSorted-insert a p ((c, q) ∷ m) s h = ground (arith, AllSorted-insert a p m)

pub write-IsValid :
    (mv : MvStore) (a : Address) (s : BalanceSlot) (i : ℕ) → IsValid mv → IsValid (write mv a s i)
unfolding write
write-IsValid mv a s i h = record {
  distinct = HashMap.insert-IsDistinct a (BTreeMap.insert i s (at mv a)) mv.versions h.distinct;
  sorted =
      AllSorted-insert a (BTreeMap.insert i s (at mv a)) mv.versions
        (BTreeMap.insert-IsSorted i s (at mv a) (at-IsSorted mv a h)) h.sorted;
}

abbrev cleared : ℕ → HashMap Address PerAddress → HashMap Address PerAddress
cleared i m = retain_written (remove_version i m)

cleared_missing :
    (i : ℕ) (a : Address) (m : HashMap Address PerAddress)
    → HashMap.lookup a m ≡ none
    → HashMap.lookup a (cleared i m) ≡ none
unfolding HashMap.lookup remove_version retain_written
cleared_missing i a [] h = refl
cleared_missing i a ((c, p) ∷ m) h = ground (arith, cleared_missing i a m)

null_lem : (m : PerAddress) → null m ≡ true → m ≡ []
unfolding null
null_lem [] h = refl
null_lem (e ∷ m) h = cc

lookup-cleared :
    (i : ℕ) (a : Address) (m : HashMap Address PerAddress)
    → IsDistinct m
    → or_else (HashMap.lookup a (cleared i m)) []
      ≡ BTreeMap.remove i (or_else (HashMap.lookup a m) [])
unfolding HashMap.lookup remove_version retain_written BTreeMap.remove
lookup-cleared i a [] d = refl
lookup-cleared i a ((c, p) ∷ m) d =
    let gone = cleared_missing i c m d.0 in
    ground
      (arith, gone, lookup-cleared i a m d.1, null_lem (BTreeMap.remove i p), address_beq_iff c a)

pub version_at-clear_writes :
    (mv : MvStore) (a : Address) (i k : ℕ)
    → IsValid mv
    → version_at (clear_writes mv i) a k ≡ (if nat_beq k i then none else version_at mv a k)
unfolding version_at clear_writes at
version_at-clear_writes mv a i k h =
    rw (lookup-cleared i a mv.versions h.distinct)
      (BTreeMap.lookup-remove i k (or_else (HashMap.lookup a mv.versions) []))

IsDistinct-cleared :
    (i : ℕ) (m : HashMap Address PerAddress) → IsDistinct m → IsDistinct (cleared i m)
unfolding remove_version retain_written
IsDistinct-cleared i [] d = tt
IsDistinct-cleared i ((c, p) ∷ m) d =
    let gone = cleared_missing i c m d.0 in ground (arith, gone, IsDistinct-cleared i m d.1)

AllSorted-cleared : (i : ℕ) (m : HashMap Address PerAddress) → AllSorted m → AllSorted (cleared i m)
unfolding remove_version retain_written
AllSorted-cleared i [] s = tt
AllSorted-cleared i ((c, p) ∷ m) s =
    ground (arith, BTreeMap.remove-IsSorted i p s.0, AllSorted-cleared i m s.1)

pub clear_writes-IsValid : (mv : MvStore) (i : ℕ) → IsValid mv → IsValid (clear_writes mv i)
unfolding clear_writes
clear_writes-IsValid mv i h = record {
  distinct = IsDistinct-cleared i mv.versions h.distinct;
  sorted = AllSorted-cleared i mv.versions h.sorted;
}
