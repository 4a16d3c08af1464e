-- ===== src/Occ/Serial/Loop.antt =====
-- The loop of the block executor: under every schedule it ends within as many iterations as the block
-- has transactions, with the result of running the block in order.
use suwappu_db.Occ.Serial.Ranges.{
  range_from-IsOut, AllAt-intro, range_from-All, range_from-AreDistinct, range_from-high,
  range_from-low, length-range_from, none_pending,
}
use suwappu_db.Occ.Sequential.Collapse.{clear_all-IsFresh}
use suwappu_db.Occ.MvStore.Versions.{version_at-new, new-IsValid}
use suwappu_db.Occ.Sequential.Reads.{IsFresh}
use native.Mathlib.Nat.{zero-add}
use suwappu_db.Occ.Serial.InOrder.{
  sequential-IsBehind, sequential_cong, sequential-Settled, IsPrefix, Runs,
}
use suwappu_db.Occ.Serial.Invariant.{pass-IsConsistent, passed, IsConsistent}
use suwappu_db.Occ.Serial.{none, Option, some, IsValid, version_at, Address, written}
use suwappu_db.Bridge.Intent.{Intent}
use suwappu_db.State.Canonical.{State}
use suwappu_db.Bundle.Registry.{ContractRegistry}
use suwappu_db.Occ.Txn.{Txn}
use suwappu_db.Occ.Serial.Pending.{validate_from-eq}
use suwappu_db.Occ.Serial.Indexed.{AllAt-imp}
use suwappu_db.State.Store.Interface.{BalanceStore}
use suwappu_db.Occ.BlockExecutor.{
  clear_all, loop, collapse, unrun, store_runs, sequential, Run, speculate, start, iterate,
  range_from,
}
use suwappu_db.Occ.MvStore.{MvStore, TxnIdx}
use suwappu_db.Occ.MvStore
use suwappu_db.Prelude.{
  Option-cases, subst, inr, inl, map, fun_ext, length-map, ◌∙◌, ◌⊎◌, get_elem?, ap, List, ℕ, ◌≡◌,
  ◌≤◌, ◌<◌, ◌+◌, refl, arith, suc, zero, [], ◌∷◌, sym, length,
}

lt_or_le : (m n : ℕ) → (m < n) ⊎ (n ≤ m)
lt_or_le m n = ground arith

-- The two ways on in a turn of the loop with something pending.
turn_calm {ℓ} :
    {A : Type ℓ} (p : List TxnIdx) (o : Option Address) (i : TxnIdx) (is : List TxnIdx)
    (stop on trip : A)
    → p ≡ i ∷ is
    → o ≡ none
    → elim p [ [] ↦ stop | _ ∷ _ ↦ elim o [ none ↦ on | some _ ↦ trip ] ] ≡ on
turn_calm p o i is stop on trip e calm = rw (e, calm) refl

turn_trips {ℓ} :
    {A : Type ℓ} (p : List TxnIdx) (o : Option Address) (i : TxnIdx) (is : List TxnIdx)
    (hot : Address) (stop on trip : A)
    → p ≡ i ∷ is
    → o ≡ some hot
    → elim p [ [] ↦ stop | _ ∷ _ ↦ elim o [ none ↦ on | some _ ↦ trip ] ] ≡ trip
turn_trips p o i is hot stop on trip e trips = rw (e, trips) refl

module _ {S : Type 0} ⦃b : BalanceStore S⦄ (registry : ContractRegistry S) (st : State S)
    (block : List Intent) where
  -- The block run in order on an empty versioned store.
  abbrev pub in_order : List Txn × MvStore
  in_order = sequential registry st 0 block MvStore.new

  -- The run has the transactions of running the block in order, and the versions.
  pub record IsSerial (s : Run) : Type 0 where
    pub same_txns : s.txns ≡ in_order.0
    pub same_versions : (a : Address) (k : ℕ) → version_at s.mv a k ≡ version_at in_order.1 a k
    pub valid : IsValid s.mv
    pub fresh : IsFresh s.mv (length block)

  pub start-IsConsistent :
      IsConsistent registry st block 0
        (start registry st block).mv
        (start registry st block).txns
        (start registry st block).pending
  unfolding start written
  start-IsConsistent =
      let n = length block in
      let size = length-map unrun (range_from 0 n) ∙ length-range_from 0 n in
      record {
        valid = new-IsValid;
        fresh = λ a k l. version_at-new a k;
        count = size;
        low = range_from-low 0 n;
        high = range_from-high 0 n n (omega arith);
        apart = range_from-AreDistinct 0 n;
        unwritten = range_from-All _ 0 n (λ j. fun_ext λ a. version_at-new a j);
        settled =
            AllAt-intro 0 (map unrun (range_from 0 n))
              (λ i txn l h out. absurd (range_from-IsOut i 0 n l (omega (arith, h, size)) out));
      }

  iterate-IsConsistent :
      (m : TxnIdx) (choices : List ℕ) (s : Run)
      → IsConsistent registry st block m s.mv s.txns s.pending
      → IsConsistent registry st block
          (suc m)
          (iterate registry st block choices s).mv
          (iterate registry st block choices s).txns
          (iterate registry st block choices s).pending
  unfolding iterate
  iterate-IsConsistent m choices s c =
      let pass = passed registry st block m s.mv s.txns s.pending c choices in
      let checked =
        validate_from-eq 0 (store_runs pass.0 s.txns)
          (record { mv = pass.1; next_pending = []; aborts = s.aborts; aborts_by_addr = [] }) in
      rw (checked.0, checked.1)
        (pass-IsConsistent registry st block m s.mv s.txns s.pending c choices)

  Runs-speculate :
      (lo : TxnIdx) (intents : List Intent)
      → ((j : ℕ) → get_elem? block (j + lo) ≡ get_elem? intents j)
      → Runs registry st (speculate registry st block) lo intents
  unfolding speculate
  Runs-speculate lo [] e = tt
  Runs-speculate lo (intent ∷ intents) e = (
    rw (sym (ap (get_elem? block) (zero-add lo)) ∙ e 0, speculate) refl,
    Runs-speculate (suc lo) intents (λ j. ap (get_elem? block) (omega arith) ∙ e (suc j)),
  )

  settled-IsSerial :
      (m : TxnIdx) (s : Run) → IsConsistent registry st block m s.mv s.txns [] → IsSerial s
  unfolding written
  settled-IsSerial m s c =
      let runs = Runs-speculate 0 block (λ j. ap (get_elem? block) (omega arith)) in
      let empty : IsPrefix registry st s.mv 0 MvStore.new = record {
        valid = new-IsValid;
        below = λ k l. absurd (omega (arith, l));
        above = λ k l. fun_ext λ a. version_at-new a k;
      } in
      let whole =
        sequential-Settled registry st s.mv MvStore.new 0 block s.txns (speculate registry st block)
          c.valid empty runs c.count (AllAt-imp 0 s.txns (λ i txn l p. p tt) c.settled) in
      record {
        same_txns = sym whole.0;
        same_versions = λ a k. elim (lt_or_le k (length block)) [
          | inl l ↦ sym (ap (λ w. w a) (whole.1.below k (omega (arith, l))))
          | inr l ↦ c.fresh a k l ∙ sym (ap (λ w. w a) (whole.1.above k (omega (arith, l))))
        ];
        valid = c.valid;
        fresh = c.fresh;
      }

  -- The circuit breaker gives the result of the order too, whatever versions it finds in the block.
  collapse-IsSerial :
      (s : Run)
      → IsValid s.mv
      → IsFresh s.mv (length block)
      → IsSerial (collapse registry st block s)
  unfolding collapse written
  collapse-IsSerial s v fresh =
      let n = length block in
      let cleared = clear_all-IsFresh 0 n s.mv v (λ a k l. fresh a k (ground (arith, l))) in
      let from = clear_all (range_from 0 n) s.mv in
      let empty : IsPrefix registry st MvStore.new 0 from = record {
        valid = cleared.0;
        below = λ k l. absurd (omega (arith, l));
        above = λ k l. fun_ext λ a. cleared.1 a k l;
      } in
      let same =
        sequential_cong registry st from MvStore.new 0 block new-IsValid empty
          (λ k. fun_ext λ a. cleared.1 a k (omega arith) ∙ sym (version_at-new a k)) in
      let end = sequential-IsBehind registry st from 0 block empty.valid empty.above in
      record {
        same_txns = same.0;
        same_versions = λ a k. ap (λ w. w a) (same.1 k);
        valid = end.0;
        fresh = λ a k l. ap (λ w. w a) (end.1 k (omega (arith, l)));
      }

  -- One turn of the loop, given what the turns behind it give.
  loop-continue :
      (fuel m : ℕ) (choices : ℕ → List ℕ) (s : Run)
      → IsConsistent registry st block m s.mv s.txns s.pending
      → (let next = iterate registry st block (choices s.iterations) s in
          IsConsistent registry st block (suc m) next.mv next.txns next.pending)
      → ((last : Run) × (loop registry st fuel block choices
              (iterate registry st block (choices s.iterations) s)
            ≡ some last)
          × IsSerial last)
      → (last : Run) × (loop registry st (suc fuel) block choices s ≡ some last) × IsSerial last
  unfolding loop
  loop-continue fuel m choices s c kept rest = pending_cases s.pending refl
    where
      next : Run
      next = iterate registry st block (choices s.iterations) s

      pending_cases :
          (is : List TxnIdx)
          → s.pending ≡ is
          → (last : Run) × (loop registry st (suc fuel) block choices s ≡ some last) × IsSerial last
      pending_cases [] e = (
        s,
        rw e refl,
        settled-IsSerial m s (subst (λ is. IsConsistent registry st block m s.mv s.txns is) e c),
      )
      pending_cases (i ∷ is) e = elim (Option-cases next.collapsed_hot_addr) [
        | inl calm ↦ (
          rest.0,
          turn_calm s.pending next.collapsed_hot_addr i is (some s)
                (loop registry st fuel block choices next) (some (collapse registry st block next))
                e calm
              ∙ rest.1,
          rest.2,
        )
        | inr (hot, trips) ↦ (
          collapse registry st block next,
          turn_trips s.pending next.collapsed_hot_addr i is hot (some s)
              (loop registry st fuel block choices next) (some (collapse registry st block next)) e
              trips,
          collapse-IsSerial next kept.valid kept.fresh,
        )
      ]

  -- Whatever the schedules of the iterations: with as much fuel as there are transactions that may
  -- be pending, the loop ends, and its result is that of the order.
  pub loop-IsSerial :
      (fuel m : ℕ) (choices : ℕ → List ℕ) (s : Run)
      → IsConsistent registry st block m s.mv s.txns s.pending
      → length block ≤ m + fuel
      → (last : Run) × (loop registry st fuel block choices s ≡ some last) × IsSerial last
  unfolding loop
  loop-IsSerial zero m choices s c l =
      let none = none_pending m (length block) s.pending c.low c.high (omega (arith, l)) in
      (
        s,
        rw none refl,
        settled-IsSerial m s (subst (λ is. IsConsistent registry st block m s.mv s.txns is) none c),
      )
  loop-IsSerial (suc fuel) m choices s c l =
      let next = iterate registry st block (choices s.iterations) s in
      let kept = iterate-IsConsistent m (choices s.iterations) s c in
      loop-continue fuel m choices s c kept
        (loop-IsSerial fuel (suc m) choices next kept (omega (arith, l)))
