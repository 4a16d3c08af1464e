-- ===== src/Occ/Schedule.antt =====
-- The parallel pass of the block executor: `pending.par_iter().map(execute_one).collect()`. A
-- schedule is a list of choices, each the position of the run that makes its next call of the store.
-- When the choices end, the runs that are left finish one after the other. Every interleaving of the
-- calls of the runs is given by some list of choices.
use suwappu_db.Prelude.{ℕ, zero, suc, List, [], ◌∷◌}
use suwappu_db.Occ.MvStore.{MvStore, TxnIdx}
use suwappu_db.Occ.Speculation.{Speculation, run, step}
use suwappu_db.Occ.Txn.{Txn}
use suwappu_db.State.Canonical.{State}
use suwappu_db.State.Store.Interface.{BalanceStore}

pub record Thread : Type 0 where
  pub idx : TxnIdx
  pub rest : Speculation Txn

module _ {S : Type 0} ⦃b : BalanceStore S⦄ (st : State S) where
  -- The run at a position makes one call. A position without a run makes none.
  unfoldable pub advance : ℕ → List Thread → MvStore → List Thread × MvStore
  advance c [] mv = ([], mv)
  advance zero (t ∷ ts) mv =
      let (rest, mv') = step st t.idx t.rest mv in (record t { rest = rest } ∷ ts, mv')
  advance (suc c) (t ∷ ts) mv = let (ts', mv') = advance c ts mv in (t ∷ ts', mv')

  unfoldable pub drain : List Thread → MvStore → List (TxnIdx × Txn) × MvStore
  drain [] mv = ([], mv)
  drain (t ∷ ts) mv =
      let (txn, mv') = run st t.idx t.rest mv in
      let (runs, mv'') = drain ts mv' in ((t.idx, txn) ∷ runs, mv'')

  unfoldable pub par_iter : List ℕ → List Thread → MvStore → List (TxnIdx × Txn) × MvStore
  par_iter [] ts mv = drain ts mv
  par_iter (c ∷ choices) ts mv = let (ts', mv') = advance c ts mv in par_iter choices ts' mv'
