-- ===== src/Occ/Serial/Steps.antt =====
-- One call of a run, and the whole run: what they do to the store, and that what happens between them
-- and the end of the pass leaves the reads as they were made.
use suwappu_db.Occ.Speculation.{step}
use suwappu_db.Occ.MvStore.Versions.{
  below_cong, visible-eq-below, version_at-clear_writes, version_at-write, version_at,
  write-IsValid, clear_writes-IsValid, IsValid, below,
}
use suwappu_db.State.Store.Interface.{BalanceStore}
use suwappu_db.Occ.MvStore.{visible, fall_through, clear_writes, write, read, MvStore, TxnIdx}
use suwappu_db.Occ.Serial.{
  clearing, writing, reading, slot_of, done, Speculation, put, Ran, IsRead, Origin, WritesOnce,
  IsMove, nothing, AgreesBelow, Within, Address, State, written,
}
use suwappu_db.State.Slot.{BalanceSlot}
use suwappu_db.Prelude.{
  ◌≢◌, zero, suc, suc, ◌<◌, sym, subst, ◌∙◌, ap, fun_ext, ℕ, ◌≡◌, refl, Option, none, some, arith,
}
use suwappu_db.State.Address.{address_eq, address_beq_iff}

pub below-at :
    (f : ℕ → Option BalanceSlot) (n v : ℕ) (s : BalanceSlot)
    → below f n ≡ some (v, s)
    → (f v ≡ some s) × (v < n)
below-at f zero v s h = cc h
below-at f (suc n) v s h = ground (arith, below-at f n v s)

pub written-write :
    (mv : MvStore) (a : Address) (s : BalanceSlot) (i : TxnIdx)
    → written (write mv a s i) i ≡ put a s (written mv i)
unfolding written
written-write mv a s i = fun_ext λ c. version_at-write mv a c s i i ∙ ground arith

pub written-clear :
    (mv : MvStore) (i : TxnIdx) → IsValid mv → written (clear_writes mv i) i ≡ nothing
unfolding written
written-clear mv i v = fun_ext λ c. version_at-clear_writes mv c i i v ∙ ground arith

pub written-clear_other :
    (mv : MvStore) (i k : TxnIdx)
    → IsValid mv
    → k ≢ i
    → written mv k ≡ written (clear_writes mv i) k
unfolding written
written-clear_other mv i k v ne = fun_ext λ c. ground (arith, version_at-clear_writes mv c i k v)

pub Within-clear : (mv : MvStore) (i : TxnIdx) → IsValid mv → Within (clear_writes mv i) mv
Within-clear mv i v a k s h = ground (arith, version_at-clear_writes mv a i k v)

pub IsMove-refl : (i : TxnIdx) (mv : MvStore) → IsValid mv → IsMove i mv mv
IsMove-refl i mv v = record { valid = v; others = λ k ne. refl; within = λ a k s h. h }

IsMove-write :
    (mv : MvStore) (a : Address) (s : BalanceSlot) (i : TxnIdx)
    → IsValid mv
    → written mv i a ≡ none
    → IsMove i mv (write mv a s i)
unfolding written
IsMove-write mv a s i v free = record {
  valid = write-IsValid mv a s i v;
  others = λ k ne. fun_ext λ c. ground (arith, version_at-write mv a c s i k);
  within = λ c k t h. ground (arith, version_at-write mv a c s i k, address_beq_iff a c, free);
}

IsMove-clear :
    (mv : MvStore) (i : TxnIdx)
    → IsValid mv
    → written mv i ≡ nothing
    → IsMove i mv (clear_writes mv i)
unfolding written
IsMove-clear mv i v free = record {
  valid = clear_writes-IsValid mv i v;
  others = λ k ne. written-clear_other mv i k v ne;
  within = λ c k t h.
      let gone = ap (λ w. w c) free in ground (arith, version_at-clear_writes mv c i k v, gone);
}

squeezed :
    (x y z : Option BalanceSlot)
    → ((s : BalanceSlot) → x ≡ some s → y ≡ some s)
    → ((s : BalanceSlot) → y ≡ some s → z ≡ some s)
    → x ≡ z
    → z ≡ y
squeezed x (some s) z below above e = above s refl
squeezed none none z below above e = sym e
squeezed (some s) none z below above e = cc (below s refl)

module _ {S : Type 0} ⦃b : BalanceStore S⦄ (st : State S) where
  -- A read sees only what stands below its index.
  pub read_cong :
      (mv later : MvStore) (a : Address) (i : TxnIdx)
      → IsValid mv
      → IsValid later
      → AgreesBelow i mv later
      → read mv st a i ≡ read later st a i
  unfolding read written
  read_cong mv later a i v w agree = ap (fall_through (slot_of st a)) (
      visible-eq-below mv a i v
      ∙ below_cong (version_at mv a) (version_at later a) i (λ k l. ap (λ u. u a) (agree k l))
      ∙ sym (visible-eq-below later a i w))

  AgreesBelow-between :
      (first mv last : MvStore) (i : TxnIdx)
      → Within first mv
      → Within mv last
      → AgreesBelow i first last
      → AgreesBelow i last mv
  unfolding written
  AgreesBelow-between first mv last i w v agree k l = fun_ext λ a.
      squeezed (version_at first a k) (version_at mv a k) (version_at last a k) (w a k) (v a k)
        (ap (λ u. u a) (agree k l))

  Origin-read :
      (mv last : MvStore) (a : Address) (i : TxnIdx)
      → IsValid mv
      → Within mv last
      → Origin st last a (read mv st a i).0 (read mv st a i).1
  unfolding read
  Origin-read mv last a i v w = found (visible mv a i) (sym (visible-eq-below mv a i v))
    where
      found :
          (o : Option (TxnIdx × BalanceSlot))
          → below (version_at mv a) i ≡ o
          → Origin st last a (fall_through (slot_of st a) o).0 (fall_through (slot_of st a) o).1
      found none e = refl
      found (some (k, s)) e = w a k s (below-at (version_at mv a) i k s e).0

  pub read-IsRead :
      (first mv last : MvStore) (a : Address) (i : TxnIdx)
      → IsValid mv
      → IsValid last
      → Within first mv
      → Within mv last
      → IsRead st first last i a (read mv st a i).0 (read mv st a i).1
  read-IsRead first mv last a i v u w x = record {
    origin = Origin-read mv last a i v x;
    exact = λ agree. read_cong last mv a i u v (AgreesBelow-between first mv last i w x agree);
  }

  module _ {A : Type 0} (i : TxnIdx) where
    pub step-IsMove :
        (p : Speculation A) (mv : MvStore)
        → IsValid mv
        → WritesOnce (written mv i) p
        → IsMove i mv (step st i p mv).1
    unfolding step WritesOnce
    step-IsMove (done t) mv v once = IsMove-refl i mv v
    step-IsMove (reading a k) mv v once = IsMove-refl i mv v
    step-IsMove (writing a s m) mv v once = IsMove-write mv a s i v once.0
    step-IsMove (clearing m) mv v once = IsMove-clear mv i v once.0

    pub step-WritesOnce :
        (p : Speculation A) (mv : MvStore)
        → IsValid mv
        → WritesOnce (written mv i) p
        → WritesOnce (written (step st i p mv).1 i) (step st i p mv).0
    unfolding step WritesOnce
    step-WritesOnce (done t) mv v once = tt
    step-WritesOnce (reading a k) mv v once = once (read mv st a i).0 (read mv st a i).1
    step-WritesOnce (writing a s m) mv v once = rw (written-write mv a s i) once.1
    step-WritesOnce (clearing m) mv v once = rw (written-clear mv i v) once.1

    -- If the rest of the run gives a result, so does the run with this call before it.
    pub Ran-step :
        (first mv last : MvStore) (p : Speculation A) (txn : A)
        → IsValid mv
        → IsValid last
        → Within first mv
        → Within mv last
        → Ran st first last i (step st i p mv).0 (written (step st i p mv).1 i) txn
        → Ran st first last i p (written mv i) txn
    unfolding step Ran
    Ran-step first mv last (done t) txn v u w x ran = ran
    Ran-step first mv last (reading a k) txn v u w x ran =
        ((read mv st a i).0, (read mv st a i).1, read-IsRead first mv last a i v u w x, ran)
    Ran-step first mv last (writing a s m) txn v u w x ran =
        subst (λ f. Ran st first last i m f txn) (written-write mv a s i) ran
    Ran-step first mv last (clearing m) txn v u w x ran =
        subst (λ f. Ran st first last i m f txn) (written-clear mv i v) ran
