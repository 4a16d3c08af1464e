-- ===== src/Occ/Serial/Schedules.antt =====
-- `par_iter` under a list of choices: its advances, then the runs that are left.
use suwappu_db.Occ.Speculation.{run}
use suwappu_db.Occ.Txn.{Txn}
use suwappu_db.Occ.Serial.{IsValid, Within}
use suwappu_db.Occ.Serial.Runs.{Ran-run, run-IsMove}
use suwappu_db.Occ.Serial.Passes.{
  RanAll-keep, Keeps, RanAll-advance, AreReady-keep, IsElsewhere-keep, RanAll, advance-IsAdvance,
  IsGoing,
}
use suwappu_db.Occ.MvStore.{TxnIdx, MvStore}
use suwappu_db.Occ.Schedule.{advance, par_iter, Thread, drain}
use suwappu_db.State.Canonical.{State}
use suwappu_db.State.Store.Interface.{BalanceStore}
use suwappu_db.Prelude.{◌∙◌, List, ℕ, refl, [], ◌∷◌}

module _ {S : Type 0} ⦃b : BalanceStore S⦄ (st : State S) where
  -- A pass leads from one store to another and gives its runs.
  pub record IsPass (ts : List Thread) (mv : MvStore) (rs : List (TxnIdx × Txn)) (last : MvStore)
      : Type 0 where
    pub valid : IsValid last
    pub within : Within mv last
    pub keeps : Keeps ts mv last

  IsGoing-run :
      (t : Thread) (ts : List Thread) (mv : MvStore)
      → IsGoing mv (t ∷ ts)
      → IsGoing (run st t.idx t.rest mv).1 ts
  IsGoing-run t ts mv g =
      let move = run-IsMove st t.idx t.rest mv g.valid g.ready.0 in
      let same = IsElsewhere-keep t.idx mv (run st t.idx t.rest mv).1 ts move.others g.apart.0 in
      record {
        valid = move.valid;
        apart = g.apart.1;
        ready = AreReady-keep mv (run st t.idx t.rest mv).1 ts same g.ready.1;
      }

  drain-IsPass :
      (ts : List Thread) (mv : MvStore)
      → IsGoing mv ts
      → IsPass ts mv (drain st ts mv).0 (drain st ts mv).1
  unfolding drain
  drain-IsPass [] mv g = record { valid = g.valid; within = λ a k s h. h; keeps = λ k e. refl }
  drain-IsPass (t ∷ ts) mv g =
      let move = run-IsMove st t.idx t.rest mv g.valid g.ready.0 in
      let rest = drain-IsPass ts (run st t.idx t.rest mv).1 (IsGoing-run t ts mv g) in
      record {
        valid = rest.valid;
        within = λ a k s h. rest.within a k s (move.within a k s h);
        keeps = λ k e. move.others k e.0 ∙ rest.keeps k e.1;
      }

  RanAll-drain :
      (ts : List Thread) (first mv : MvStore)
      → IsGoing mv ts
      → Within first mv
      → RanAll st first mv (drain st ts mv).1 ts (drain st ts mv).0
  unfolding drain
  RanAll-drain [] first mv g w = tt
  RanAll-drain (t ∷ ts) first mv g w =
      let next = (run st t.idx t.rest mv).1 in
      let move = run-IsMove st t.idx t.rest mv g.valid g.ready.0 in
      let onward = IsGoing-run t ts mv g in
      let rest = drain-IsPass ts next onward in
      let same = IsElsewhere-keep t.idx mv next ts move.others g.apart.0 in
      (
        refl,
        Ran-run st t.idx first mv (drain st ts next).1 t.rest g.valid rest.valid g.ready.0 w
            rest.within (rest.keeps t.idx g.apart.0),
        RanAll-keep st first mv next (drain st ts next).1 ts (drain st ts next).0 same
            (RanAll-drain ts first next onward (λ a k s h. move.within a k s (w a k s h))),
      )

  pub par_iter-IsPass :
      (choices : List ℕ) (ts : List Thread) (mv : MvStore)
      → IsGoing mv ts
      → IsPass ts mv (par_iter st choices ts mv).0 (par_iter st choices ts mv).1
  unfolding par_iter
  par_iter-IsPass [] ts mv g = drain-IsPass ts mv g
  par_iter-IsPass (c ∷ choices) ts mv g =
      let step = advance-IsAdvance st c ts mv g in
      let rest = par_iter-IsPass choices (advance st c ts mv).0 (advance st c ts mv).1 step.going in
      record {
        valid = rest.valid;
        within = λ a k s h. rest.within a k s (step.within a k s h);
        keeps = λ k e. step.keeps k e ∙ rest.keeps k (step.elsewhere k e);
      }

  -- Whatever the schedule, each run of the pass ends with a result that the last store accounts for.
  pub RanAll-par_iter :
      (choices : List ℕ) (ts : List Thread) (first mv : MvStore)
      → IsGoing mv ts
      → Within first mv
      → RanAll st first mv (par_iter st choices ts mv).1 ts (par_iter st choices ts mv).0
  unfolding par_iter
  RanAll-par_iter [] ts first mv g w = RanAll-drain ts first mv g w
  RanAll-par_iter (c ∷ choices) ts first mv g w =
      let step = advance-IsAdvance st c ts mv g in
      let us = (advance st c ts mv).0 in
      let next = (advance st c ts mv).1 in
      let rest = par_iter-IsPass choices us next step.going in
      RanAll-advance st c ts first mv (par_iter st choices us next).1
        (par_iter st choices us next).0 g rest.valid w rest.within
        (RanAll-par_iter choices us first next step.going
          (λ a k s h. step.within a k s (w a k s h)))
