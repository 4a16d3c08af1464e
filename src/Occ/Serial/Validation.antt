-- ===== src/Occ/Serial/Validation.antt =====
-- The validator: a run whose reads are all consistent with the store is settled there, and a run is
-- consistent if nothing below its index was written while it ran.
use suwappu_db.Occ.MvStore.Versions.{visible-eq-below}
use suwappu_db.Occ.Serial.Steps.{read-IsRead, below-at}
use suwappu_db.Occ.Serial.{
  nothing, clearing, put, writing, entry, reading, AgreesBelow, written, done, Txn, Speculation,
  slot_of, Within, Writes, version_at, IsValid, Origin, eval, Records, Ran,
}
use suwappu_db.State.Canonical.{State}
use suwappu_db.Occ.Txn.{is_valid, ReadEntry, still_consistent, all_consistent}
use suwappu_db.State.Store.Interface.{BalanceStore}
use suwappu_db.Occ.MvStore.{
  visible, snapshot, version, highest_writer_below, read, fall_through, writer, MvStore, ReadSource,
  TxnIdx,
}
use suwappu_db.State.Slot.{BalanceSlot}
use suwappu_db.Prelude.{
  ◌≡◌, refl, arith, [], ◌∷◌, ◌++◌, ◌&&◌, true, List, Option, none, some, ap, sym, ◌∙◌,
}
use suwappu_db.State.Address.{Address, address_eq}

all_consistent-append :
    (mv : MvStore) (i : TxnIdx) (xs ys : List ReadEntry)
    → all_consistent mv i (xs ++ ys) ≡ (all_consistent mv i xs && all_consistent mv i ys)
unfolding all_consistent
all_consistent-append mv i [] ys = refl
all_consistent-append mv i (e ∷ xs) ys = ground (arith, all_consistent-append mv i xs ys)

still_consistent-own :
    (canonical : BalanceSlot) (o : Option (TxnIdx × BalanceSlot))
    → still_consistent (fall_through canonical o).1 (writer o) ≡ true
still_consistent-own canonical none = refl
still_consistent-own canonical (some (v, s)) = ground arith

consistent-read :
    (f : TxnIdx → Option BalanceSlot) (canonical slot : BalanceSlot) (src : ReadSource)
    (o : Option (TxnIdx × BalanceSlot))
    → still_consistent src (writer o) ≡ true
    → ((v : TxnIdx) → src ≡ version v → f v ≡ some slot)
    → (src ≡ snapshot → slot ≡ canonical)
    → ((v : TxnIdx) (s : BalanceSlot) → o ≡ some (v, s) → f v ≡ some s)
    → fall_through canonical o ≡ (slot, src)
consistent-read f canonical slot snapshot none e at base top =
    ap (λ s. (s, snapshot)) (sym (base refl))
consistent-read f canonical slot snapshot (some (v, s)) e at base top = cc e
consistent-read f canonical slot (version v) none e at base top = cc e
consistent-read f canonical slot (version v) (some (k, s)) e at base top =
    let found = at v refl in let here = top k s refl in ground (arith, e, found, here)

module _ {S : Type 0} ⦃b : BalanceStore S⦄ (st : State S) where
  Origin-version :
      (last : MvStore) (a : Address) (slot : BalanceSlot) (src : ReadSource)
      → Origin st last a slot src
      → ((v : TxnIdx) → src ≡ version v → version_at last a v ≡ some slot)
        × (src ≡ snapshot → slot ≡ slot_of st a)
  Origin-version last a slot snapshot h = ((λ v e. cc e), (λ e. h))
  Origin-version last a slot (version k) h =
      ((λ v e. rw (sym (version-injective k v e)) h), (λ e. cc e))
    where
      version-injective : (k v : TxnIdx) → version k ≡ version v → k ≡ v
      version-injective k v e = cc e

  consistent-eq-read :
      (mv last : MvStore) (a : Address) (i : TxnIdx) (slot : BalanceSlot) (src : ReadSource)
      → IsValid mv
      → Within mv last
      → Origin st last a slot src
      → still_consistent src (highest_writer_below mv a i) ≡ true
      → read mv st a i ≡ (slot, src)
  unfolding read highest_writer_below
  consistent-eq-read mv last a i slot src v w o e =
      let origin = Origin-version last a slot src o in
      consistent-read (version_at last a) (slot_of st a) slot src (visible mv a i) e origin.0
        origin.1
        (λ k s top.
          w a k s (below-at (version_at mv a) i k s (sym (visible-eq-below mv a i v) ∙ top)).0)

  module _ (i : TxnIdx) where
    -- What was read before is consistent if all of the read set is.
    consistent_before :
        (first last mv : MvStore) (reads : List ReadEntry) (w : Writes) (p : Speculation Txn)
        (txn : Txn)
        → Records i reads p
        → Ran st first last i p w txn
        → is_valid txn mv ≡ true
        → all_consistent mv i reads ≡ true
    unfolding Records Ran is_valid
    consistent_before first last mv reads w (done t) txn h ran e = cc (h.0, h.1, ran.0, e)
    consistent_before first last mv reads w (reading a k) txn h (slot, src, r, ran) e =
        let rest =
          consistent_before first last mv (reads ++ entry a src ∷ []) w (k slot src) txn
            (h slot src) ran e in
        ground (arith, rest, all_consistent-append mv i reads (entry a src ∷ []))
    consistent_before first last mv reads w (writing a s m) txn h ran e =
        consistent_before first last mv reads (put a s w) m txn h ran e
    consistent_before first last mv reads w (clearing m) txn h ran e =
        consistent_before first last mv reads nothing m txn h ran e

    pub is_valid-eval :
        (first last mv : MvStore) (reads : List ReadEntry) (w : Writes) (p : Speculation Txn)
        (txn : Txn)
        → IsValid mv
        → Within mv last
        → Records i reads p
        → Ran st first last i p w txn
        → is_valid txn mv ≡ true
        → eval (λ a. read mv st a i) p w ≡ (txn, written last i)
    unfolding Records Ran eval all_consistent
    is_valid-eval first last mv reads w (done t) txn v x h ran e = cc (ran.0, ran.1)
    is_valid-eval first last mv reads w (reading a k) txn v x h (slot, src, r, ran) e =
        let before =
          consistent_before first last mv (reads ++ entry a src ∷ []) w (k slot src) txn
            (h slot src) ran e in
        let own : still_consistent src (highest_writer_below mv a i) ≡ true =
          ground (arith, before, all_consistent-append mv i reads (entry a src ∷ [])) in
        rw (consistent-eq-read mv last a i slot src v x r.origin own) (
          is_valid-eval first last mv (reads ++ entry a src ∷ []) w (k slot src) txn v x
            (h slot src) ran e)
    is_valid-eval first last mv reads w (writing a s m) txn v x h ran e =
        is_valid-eval first last mv reads (put a s w) m txn v x h ran e
    is_valid-eval first last mv reads w (clearing m) txn v x h ran e =
        is_valid-eval first last mv reads nothing m txn v x h ran e

    -- Nothing below the index was written while the run read.
    pub quiet-is_valid :
        (first last : MvStore) (reads : List ReadEntry) (w : Writes) (p : Speculation Txn)
        (txn : Txn)
        → AgreesBelow i first last
        → Records i reads p
        → Ran st first last i p w txn
        → all_consistent last i reads ≡ true
        → is_valid txn last ≡ true
    unfolding Records Ran is_valid all_consistent read highest_writer_below
    quiet-is_valid first last reads w (done t) txn q h ran e = cc (h.0, h.1, ran.0, e)
    quiet-is_valid first last reads w (reading a k) txn q h (slot, src, r, ran) e =
        let own = still_consistent-own (slot_of st a) (visible last a i) in
        let same = ap (λ u. u.1) (r.exact q) in
        quiet-is_valid first last (reads ++ entry a src ∷ []) w (k slot src) txn q (h slot src) ran
          (ground (arith, own, same, e, all_consistent-append last i reads (entry a src ∷ [])))
    quiet-is_valid first last reads w (writing a s m) txn q h ran e =
        quiet-is_valid first last reads (put a s w) m txn q h ran e
    quiet-is_valid first last reads w (clearing m) txn q h ran e =
        quiet-is_valid first last reads nothing m txn q h ran e

    -- A settled run is accounted for by every later store.
    pub Ran-settled :
        (first last : MvStore) (w : Writes) (p : Speculation Txn) (txn : Txn)
        → IsValid first
        → IsValid last
        → Within first last
        → written first i ≡ written last i
        → eval (λ a. read first st a i) p w ≡ (txn, written first i)
        → Ran st first last i p w txn
    unfolding Ran eval
    Ran-settled first last w (done t) txn v u x same e =
        (sym (ap (λ r. r.0) e), ap (λ r. r.1) e ∙ same)
    Ran-settled first last w (reading a k) txn v u x same e = (
      (read first st a i).0,
      (read first st a i).1,
      read-IsRead st first first last a i v u (λ c j s h. h) x,
      Ran-settled first last w (k (read first st a i).0 (read first st a i).1) txn v u x same e,
    )
    Ran-settled first last w (writing a s m) txn v u x same e =
        Ran-settled first last (put a s w) m txn v u x same e
    Ran-settled first last w (clearing m) txn v u x same e =
        Ran-settled first last nothing m txn v u x same e
