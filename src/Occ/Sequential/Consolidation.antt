-- ===== src/Occ/Sequential/Consolidation.antt =====
-- `MvStore::finalise` and the consolidation of the block executor: the highest version of each
-- address is what a reader behind the block sees.
use suwappu_db.Prelude.{
  ℕ, ◌≡◌, ◌≤◌, ◌<◌, refl, ap, sym, ◌∙◌, Option, none, some, arith, [], ◌∷◌, List, last?, nat_ord,
}
use suwappu_db.Bundle.Registry.{ContractRegistry}
use suwappu_db.Collections.BTreeMap
use suwappu_db.Collections.HashMap
use suwappu_db.Collections.HashMap.{HashMap, IsDistinct, or_else}
use suwappu_db.Occ.BlockExecutor.{consolidate}
use suwappu_db.Occ.MvStore.{MvStore, TxnIdx, PerAddress, read, finalise, highest, visible, at}
use suwappu_db.Occ.MvStore.Versions.{IsValid, version_at}
use suwappu_db.Occ.Sequential.Reads.{seen, IsFresh}
use suwappu_db.State.Address.{Address, address_eq, address_beq_iff}
use suwappu_db.State.Canonical.{
  State, balance_of, apply, set_balance, balance_of-set_balance, balance_of-slot_of,
}
use suwappu_db.State.Slot.{BalanceSlot}
use suwappu_db.State.Store.Interface.{BalanceStore}

abbrev slot_in : Option (ℕ × BalanceSlot) → Option BalanceSlot
slot_in none = none
slot_in (some e) = some e.1

abbrev or_first : ℕ × BalanceSlot → Option (ℕ × BalanceSlot) → Option (ℕ × BalanceSlot)
or_first e none = some e
or_first e (some f) = some f

last?_lem : (e : ℕ × BalanceSlot) (m : PerAddress) → last? (e ∷ m) ≡ or_first e (last? m)
last?_lem e [] = refl
last?_lem e (f ∷ m) = ground (arith, last?_lem f m)

last_below-first :
    (n j : ℕ) (w : BalanceSlot) (m : PerAddress)
    → j < n
    → BTreeMap.last_below n ((j, w) ∷ m) ≡ or_first (j, w) (BTreeMap.last_below n m)
unfolding BTreeMap.last_below
last_below-first n j w m h = ground arith

key_below :
    (n j : ℕ) (w : BalanceSlot) (m : PerAddress)
    → ((k : ℕ) → n ≤ k → BTreeMap.lookup k ((j, w) ∷ m) ≡ none)
    → j < n
unfolding BTreeMap.lookup
key_below n j w m h = ground (arith, h j)

lookup_behind :
    (j k : ℕ) (w : BalanceSlot) (m : PerAddress)
    → BTreeMap.lookup k ((j, w) ∷ m) ≡ none
    → BTreeMap.lookup k m ≡ none
unfolding BTreeMap.lookup
lookup_behind j k w m h = ground arith

last?-eq-last_below :
    (n : ℕ) (m : PerAddress)
    → ((k : ℕ) → n ≤ k → BTreeMap.lookup k m ≡ none)
    → last? m ≡ BTreeMap.last_below n m
last?-eq-last_below n [] h = unfold BTreeMap.last_below in refl
last?-eq-last_below n ((j, w) ∷ m) h =
    last?_lem (j, w) m
    ∙ ap (or_first (j, w)) (last?-eq-last_below n m (λ k l. lookup_behind j k w m (h k l)))
    ∙ sym (last_below-first n j w m (key_below n j w m h))

lookup-highest-none :
    (a : Address) (m : HashMap Address PerAddress)
    → HashMap.lookup a m ≡ none
    → HashMap.lookup a (highest m) ≡ none
unfolding HashMap.lookup highest
lookup-highest-none a [] h = refl
lookup-highest-none a ((c, p) ∷ m) h = ground (arith, lookup-highest-none a m)

IsDistinct-highest : (m : HashMap Address PerAddress) → IsDistinct m → IsDistinct (highest m)
unfolding highest
IsDistinct-highest [] d = tt
IsDistinct-highest ((c, p) ∷ m) d =
    let gone = lookup-highest-none c m d.0 in ground (arith, gone, IsDistinct-highest m d.1)

lookup-highest :
    (a : Address) (m : HashMap Address PerAddress)
    → IsDistinct m
    → HashMap.lookup a (highest m) ≡ slot_in (last? (or_else (HashMap.lookup a m) []))
unfolding HashMap.lookup highest
lookup-highest a [] d = refl
lookup-highest a ((c, p) ∷ m) d =
    let gone = lookup-highest-none c m d.0 in
    ground (arith, gone, lookup-highest a m d.1, address_beq_iff c a)

module _ {S : Type 0} ⦃b : BalanceStore S⦄ (registry : ContractRegistry S) (st : State S) where
  balance_of-consolidate :
      (cur : State S) (a : Address) (ws : List (Address × BalanceSlot))
      → IsDistinct ws
      → balance_of (consolidate registry st cur ws) a
        ≡ elim (HashMap.lookup a ws) [ some s ↦ s.canonical | none ↦ balance_of cur a ]
  unfolding consolidate HashMap.lookup
  balance_of-consolidate cur a [] d = refl
  balance_of-consolidate cur a ((c, s) ∷ ws) d =
      let rest = balance_of-consolidate (apply cur (set_balance c s.canonical)) a ws d.1 in
      ground (arith, rest, d.0, address_beq_iff c a, balance_of-set_balance cur c a s.canonical)

  -- The consolidated state holds of each address what a transaction behind the block would see.
  pub consolidate-eq-seen :
      (mv : MvStore) (n : TxnIdx) (a : Address)
      → IsValid mv
      → IsFresh mv n
      → balance_of (consolidate registry st st (finalise mv)) a ≡ (seen st mv a n).canonical
  unfolding finalise seen read visible at version_at
  consolidate-eq-seen mv n a v fresh =
      let whole =
        balance_of-consolidate st a (highest mv.versions)
          (IsDistinct-highest mv.versions v.distinct) in
      let found = lookup-highest a mv.versions v.distinct in
      let top = last?-eq-last_below n (or_else (HashMap.lookup a mv.versions) []) (fresh a) in
      ground (arith, whole, found, top, balance_of-slot_of st a)
