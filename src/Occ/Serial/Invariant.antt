-- ===== src/Occ/Serial/Invariant.antt =====
-- What holds before every iteration of the loop, and that an iteration keeps it, one index further.
use suwappu_db.Occ.Txn.{all_consistent}
use suwappu_db.Occ.Serial.Validation.{quiet-is_valid, Ran-settled}
use suwappu_db.Occ.Serial.Iteration.{refused-Settled, low-refused, AreSettledBut}
use suwappu_db.Occ.Sequential.Reads.{IsFresh}
use suwappu_db.Occ.Serial.Discipline.{IsOrderly-execute_one, IsOrderly}
use suwappu_db.Occ.Serial.Schedules.{RanAll-par_iter, par_iter-IsPass}
use suwappu_db.Occ.Schedule.{par_iter, Thread}
use suwappu_db.Occ.Serial.Passes.{AreReady, RanAll, IsGoing, IsElsewhere, AreApart}
use suwappu_db.Occ.Serial.Pending.{IsOut-below, invalid_from-IsRefused, invalid_from, AreDistinct}
use suwappu_db.Occ.Serial.{Ran, IsValid, nothing, WritesOnce, Txn, written, Records}
use suwappu_db.Occ.Speculation.{Speculation}
use suwappu_db.Occ.Serial.Indexed.{AllAt-imp, AllAt-store_runs, length-store_runs, AllAt, IsOut}
use suwappu_db.Occ.MvStore.{MvStore, TxnIdx}
use suwappu_db.Occ.BlockExecutor.{store_runs, speculate, threads}
use suwappu_db.Bridge.Intent.{Intent}
use suwappu_db.State.Canonical.{State}
use suwappu_db.Bundle.Registry.{ContractRegistry}
use suwappu_db.State.Store.Interface.{BalanceStore}
use suwappu_db.Prelude.{
  ap, inr, ◌∙◌, inl, get_elem?, subst, All-imp, Option-cases, List, ℕ, ◌≡◌, ◌≤◌, ◌<◌, refl, arith,
  suc, [], ◌∷◌, All, sym, map, length,
}

module _ {S : Type 0} ⦃b : BalanceStore S⦄ (registry : ContractRegistry S) (st : State S)
    (block : List Intent) where
  abbrev pub prog : TxnIdx → Speculation Txn
  prog = speculate registry st block

  pub IsOrderly-speculate : (i : TxnIdx) → IsOrderly i [] nothing (speculate registry st block i)
  unfolding speculate Records WritesOnce
  IsOrderly-speculate i = elim (Option-cases (get_elem? block i)) [
    | inl e ↦ rw (e, speculate) ((refl, refl), tt)
    | inr (intent, e) ↦ rw (e, speculate) (IsOrderly-execute_one registry st intent i)
  ]

  IsElsewhere-threads :
      (k : TxnIdx) (is : List TxnIdx) → IsOut k is → IsElsewhere k (threads registry st block is)
  unfolding threads
  IsElsewhere-threads k [] h = tt
  IsElsewhere-threads k (i ∷ is) h = (h.0, IsElsewhere-threads k is h.1)

  AreApart-threads : (is : List TxnIdx) → AreDistinct is → AreApart (threads registry st block is)
  unfolding threads
  AreApart-threads [] d = tt
  AreApart-threads (i ∷ is) d = (IsElsewhere-threads i is d.0, AreApart-threads is d.1)

  AreReady-threads :
      (mv : MvStore) (is : List TxnIdx)
      → All (λ j. written mv j ≡ nothing) is
      → AreReady mv (threads registry st block is)
  unfolding threads
  AreReady-threads mv [] h = tt
  AreReady-threads mv (i ∷ is) h = (
    subst (λ w. WritesOnce w (prog i)) (sym h.0) (IsOrderly-speculate i).1,
    AreReady-threads mv is h.1,
  )

  -- The runs of the pass stand at the pending indices, each with its result.
  RanAll-threads :
      (first last : MvStore) (is : List TxnIdx) (runs : List (TxnIdx × Txn))
      → All (λ j. written first j ≡ nothing) is
      → RanAll st first first last (threads registry st block is) runs
      → (map (λ r. r.0) runs ≡ is) × All (λ r. Ran st first last r.0 (prog r.0) nothing r.1) runs
  unfolding threads
  RanAll-threads first last [] [] h ran = (refl, tt)
  RanAll-threads first last [] (r ∷ runs) h ran = absurd ran
  RanAll-threads first last (i ∷ is) [] h ran = absurd ran
  RanAll-threads first last (i ∷ is) (r ∷ runs) h ran =
      let rest = RanAll-threads first last is runs h.1 ran.2 in
      (
        cc (ran.0, rest.0),
        (
          subst (λ j. Ran st first last j (prog j) nothing r.1) (sym ran.0)
              (subst (λ w. Ran st first last i (prog i) w r.1) h.0 ran.1),
          rest.1,
        ),
      )

  -- The indices below `m` are not pending. Each transaction that is not pending is settled.
  pub record IsConsistent (m : TxnIdx) (mv : MvStore) (txns : List Txn) (pending : List TxnIdx)
      : Type 0 where
    pub valid : IsValid mv
    pub fresh : IsFresh mv (length block)
    pub count : length txns ≡ length block
    pub low : All (λ j. m ≤ j) pending
    pub high : All (λ j. j < length block) pending
    pub apart : AreDistinct pending
    pub unwritten : All (λ j. written mv j ≡ nothing) pending
    pub settled : AreSettledBut st prog IsOrderly-speculate (pending, mv) 0 txns

  module _ (m : TxnIdx) (mv : MvStore) (txns : List Txn) (pending : List TxnIdx)
      (c : IsConsistent m mv txns pending) (choices : List ℕ) where
    abbrev ts : List Thread
    ts = threads registry st block pending

    abbrev pub passed : List (TxnIdx × Txn) × MvStore
    passed = par_iter st choices ts mv

    going : IsGoing mv ts
    going = record {
      valid = c.valid;
      apart = AreApart-threads pending c.apart;
      ready = AreReady-threads mv pending c.unwritten;
    }

    keeps_low : (k : TxnIdx) → IsOut k pending → written mv k ≡ written passed.1 k
    keeps_low k out =
        (par_iter-IsPass st choices ts mv going).keeps k (IsElsewhere-threads k pending out)

    -- Every transaction, old or new, is accounted for by the store behind the pass.
    all-Ran :
        AllAt (λ i txn. Ran st mv passed.1 i (prog i) nothing txn) 0 (store_runs passed.0 txns)
    all-Ran =
        let pass = par_iter-IsPass st choices ts mv going in
        let runs =
          RanAll-threads mv passed.1 pending passed.0 c.unwritten
            (RanAll-par_iter st choices ts mv mv going (λ a k s h. h)) in
        AllAt-store_runs (λ i txn. Ran st mv passed.1 i (prog i) nothing txn) passed.0 txns
          (AllAt-imp 0 txns
            (λ i txn l p out.
              let elsewhere = subst (λ is. IsOut i is) runs.0 out in
              Ran-settled st i mv passed.1 nothing (prog i) txn c.valid pass.valid pass.within
                (keeps_low i elsewhere) (p elsewhere))
            c.settled)
          runs.1

    pub pass-IsConsistent :
        IsConsistent
          (suc m)
          (invalid_from 0 (store_runs passed.0 txns) passed.1).1
          (store_runs passed.0 txns)
          (invalid_from 0 (store_runs passed.0 txns) passed.1).0
    unfolding written
    pass-IsConsistent =
        let pass = par_iter-IsPass st choices ts mv going in
        let new = store_runs passed.0 txns in
        let size = length-store_runs passed.0 txns ∙ c.count in
        let r = invalid_from-IsRefused 0 new passed.1 pass.valid in
        let high : All (λ j. j < length block) (invalid_from 0 new passed.1).0 =
          All-imp (λ j h. omega (arith, h, size)) _ r.high in
        record {
          valid = r.valid;
          fresh = λ a k l.
              ap (λ w. w a)
                (sym
                  (keeps_low k (out_above k pending l c.high) ∙ r.keeps k (out_above k _ l high)))
              ∙ c.fresh a k l;
          count = size;
          low = low-refused st prog IsOrderly-speculate m 0 new passed.1 pass.valid (
              AllAt-imp 0 new
                (λ i txn l ran below.
                  quiet-is_valid st i mv passed.1 [] nothing (prog i) txn
                    (λ k g. keeps_low k (IsOut-below k m pending (omega (arith, g, below)) c.low))
                    (IsOrderly-speculate i).0 ran (unfold all_consistent in refl))
                all-Ran);
          high = high;
          apart = r.apart;
          unwritten = r.unwritten;
          settled =
              refused-Settled st prog IsOrderly-speculate mv passed.1 0 new passed.1 pass.valid
                (λ a k s h. h) (λ k l. refl) all-Ran;
        }
      where
        out_above :
            (k : TxnIdx) (is : List TxnIdx)
            → length block ≤ k
            → All (λ j. j < length block) is
            → IsOut k is
        out_above k is l = All-imp (λ j h e. omega (arith, l, h, e)) is
