-- ===== src/Occ/Serial/Runs.antt =====
-- A whole run on a store that no other run touches.
use suwappu_db.Occ.Serial.Steps.{
  written-clear, read_cong, written-write, step-IsMove, Ran-step, step-WritesOnce, IsMove-refl,
}
use suwappu_db.Occ.Speculation.{step, run}
use suwappu_db.Occ.Serial.{
  clearing, writing, reading, done, Within, written, WritesOnce, IsValid, BalanceSlot, Speculation,
  Address, Ran, AgreesBelow, eval, IsMove,
}
use suwappu_db.State.Canonical.{State}
use suwappu_db.Occ.MvStore.{clear_writes, write, read, ReadSource, MvStore, TxnIdx}
use suwappu_db.State.Store.Interface.{BalanceStore}
use suwappu_db.Prelude.{sym, ap, arith, ◌∙◌, ◌≡◌, refl}

pub IsMove-trans :
    (i : TxnIdx) (mv next last : MvStore) → IsMove i mv next → IsMove i next last → IsMove i mv last
IsMove-trans i mv next last f g = record {
  valid = g.valid;
  others = λ k ne. f.others k ne ∙ g.others k ne;
  within = λ a k s h. g.within a k s (f.within a k s h);
}

pub IsMove-AgreesBelow :
    (i : TxnIdx) (mv later : MvStore) → IsMove i mv later → AgreesBelow i mv later
IsMove-AgreesBelow i mv later f k l = f.others k (λ e. omega (arith, l, e))

module _ {S : Type 0} ⦃b : BalanceStore S⦄ (st : State S) {A : Type 0} (i : TxnIdx) where
  pub run-IsMove :
      (p : Speculation A) (mv : MvStore)
      → IsValid mv
      → WritesOnce (written mv i) p
      → IsMove i mv (run st i p mv).1
  unfolding run step
  run-IsMove (done t) mv v once = IsMove-refl i mv v
  run-IsMove (reading a k) mv v once =
      run-IsMove (k (read mv st a i).0 (read mv st a i).1) mv v
        (step-WritesOnce st i (reading a k) mv v once)
  run-IsMove (writing a s m) mv v once =
      let first = step-IsMove st i (writing a s m) mv v once in
      IsMove-trans i mv (write mv a s i) _ first
        (run-IsMove m (write mv a s i) first.valid (step-WritesOnce st i (writing a s m) mv v once))
  run-IsMove (clearing m) mv v once =
      let first = step-IsMove st i (clearing m) mv v once in
      IsMove-trans i mv (clear_writes mv i) _ first
        (run-IsMove m (clear_writes mv i) first.valid (step-WritesOnce st i (clearing m) mv v once))

  -- A run gives what its program gives against the reads of the store.
  pub run-eval :
      (answer : Address → BalanceSlot × ReadSource) (p : Speculation A) (mv : MvStore)
      → IsValid mv
      → WritesOnce (written mv i) p
      → ((a : Address) → answer a ≡ read mv st a i)
      → eval answer p (written mv i) ≡ ((run st i p mv).0, written (run st i p mv).1 i)
  unfolding run eval step
  run-eval answer (done t) mv v once e = refl
  run-eval answer (reading a k) mv v once e = rw (e a) (
      run-eval answer (k (read mv st a i).0 (read mv st a i).1) mv v
        (step-WritesOnce st i (reading a k) mv v once) e)
  run-eval answer (writing a s m) mv v once e =
      let first = step-IsMove st i (writing a s m) mv v once in
      let same = IsMove-AgreesBelow i mv (write mv a s i) first in
      ap (eval answer m) (sym (written-write mv a s i))
      ∙ run-eval answer m (write mv a s i) first.valid
          (step-WritesOnce st i (writing a s m) mv v once)
          (λ c. e c ∙ read_cong st mv (write mv a s i) c i v first.valid same)
  run-eval answer (clearing m) mv v once e =
      let first = step-IsMove st i (clearing m) mv v once in
      let same = IsMove-AgreesBelow i mv (clear_writes mv i) first in
      ap (eval answer m) (sym (written-clear mv i v))
      ∙ run-eval answer m (clear_writes mv i) first.valid
          (step-WritesOnce st i (clearing m) mv v once)
          (λ c. e c ∙ read_cong st mv (clear_writes mv i) c i v first.valid same)

  -- The end of the run stands in the last store, and nothing else is written at its index.
  pub Ran-run :
      (first mv last : MvStore) (p : Speculation A)
      → IsValid mv
      → IsValid last
      → WritesOnce (written mv i) p
      → Within first mv
      → Within (run st i p mv).1 last
      → written (run st i p mv).1 i ≡ written last i
      → Ran st first last i p (written mv i) (run st i p mv).0
  unfolding run step Ran
  Ran-run first mv last (done t) v u once w x e = (refl, e)
  Ran-run first mv last (reading a k) v u once w x e =
      let onward = step-WritesOnce st i (reading a k) mv v once in
      let whole = run-IsMove (k (read mv st a i).0 (read mv st a i).1) mv v onward in
      Ran-step st i first mv last (reading a k) _ v u w (λ c j s h. x c j s (whole.within c j s h))
        (Ran-run first mv last (k (read mv st a i).0 (read mv st a i).1) v u onward w x e)
  Ran-run first mv last (writing a s m) v u once w x e =
      let next = step-IsMove st i (writing a s m) mv v once in
      let whole = run-IsMove (writing a s m) mv v once in
      Ran-step st i first mv last (writing a s m) _ v u w
        (λ c j t h. x c j t (whole.within c j t h))
        (Ran-run first (write mv a s i) last m next.valid u
          (step-WritesOnce st i (writing a s m) mv v once)
          (λ c j t h. next.within c j t (w c j t h)) x e)
  Ran-run first mv last (clearing m) v u once w x e =
      let next = step-IsMove st i (clearing m) mv v once in
      let whole = run-IsMove (clearing m) mv v once in
      Ran-step st i first mv last (clearing m) _ v u w (λ c j t h. x c j t (whole.within c j t h))
        (Ran-run first (clear_writes mv i) last m next.valid u
          (step-WritesOnce st i (clearing m) mv v once) (λ c j t h. next.within c j t (w c j t h)) x
          e)
