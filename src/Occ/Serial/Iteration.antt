-- ===== src/Occ/Serial/Iteration.antt =====
-- One iteration of the block executor: the parallel pass and the validation pass keep every
-- transaction that is not pending settled, and the lowest pending one is settled next.
use suwappu_db.Occ.Serial.Validation.{is_valid-eval}
use suwappu_db.Occ.MvStore.Versions.{clear_writes-IsValid}
use suwappu_db.Occ.Serial.Steps.{written-clear_other, Within-clear, read_cong}
use suwappu_db.Occ.Serial.Indexed.{AllAt-imp, IsOut, AllAt}
use suwappu_db.Occ.Serial.Pending.{
  invalid_from-stale, invalid_from-valid, IsOut-below, invalid_from-IsRefused, invalid_from,
}
use suwappu_db.Occ.Serial.{Settled, Ran, eval, written, Within, AgreesBelow, List, IsValid, nothing}
use suwappu_db.Occ.Serial.Discipline.{IsOrderly}
use suwappu_db.Occ.Txn.{is_valid, Txn}
use suwappu_db.Occ.Speculation.{Speculation}
use suwappu_db.Occ.MvStore.{clear_writes, read, MvStore, TxnIdx}
use suwappu_db.State.Canonical.{State}
use suwappu_db.State.Store.Interface.{BalanceStore}
use suwappu_db.Prelude.{
  subst, All-imp, ◌∙◌, inr, inl, Bool-cases, false, fun_ext, Bool, ap, true, ◌≡◌, ◌≤◌, refl, arith,
  suc, [], ◌∷◌, All, sym,
}

module _ {S : Type 0} ⦃b : BalanceStore S⦄ (st : State S) (prog : TxnIdx → Speculation Txn)
    (orderly : (i : TxnIdx) → IsOrderly i [] nothing (prog i)) where
  -- Clearing higher indices leaves a settled run settled.
  eval-keep :
      (mv later : MvStore) (i : TxnIdx)
      → IsValid mv
      → IsValid later
      → AgreesBelow i mv later
      → eval (λ a. read later st a i) (prog i) nothing ≡ eval (λ a. read mv st a i) (prog i) nothing
  eval-keep mv later i v u agree =
      ap (λ f. eval f (prog i) nothing) (fun_ext λ a. sym (read_cong st mv later a i v u agree))

  -- Every transaction that is not refused is settled in the store that is left.
  abbrev pub AreSettledBut : List TxnIdx × MvStore → TxnIdx → List Txn → Type 0
  AreSettledBut r = AllAt (λ i txn. IsOut i r.0 → Settled st r.1 i (prog i) txn)

  pub refused-Settled :
      (first last : MvStore) (idx : TxnIdx) (txns : List Txn) (mv : MvStore)
      → IsValid mv
      → Within mv last
      → ((k : TxnIdx) → idx ≤ k → written mv k ≡ written last k)
      → AllAt (λ i txn. Ran st first last i (prog i) nothing txn) idx txns
      → AreSettledBut (invalid_from idx txns mv) idx txns
  refused-Settled first last idx [] mv v w same h = tt
  refused-Settled first last idx (txn ∷ txns) mv v w same h = elim (Bool-cases (is_valid txn mv)) [
    | inl e ↦
        let r = invalid_from-IsRefused (suc idx) txns mv v in
        let below : AgreesBelow idx mv (invalid_from (suc idx) txns mv).1 =
          λ k l. r.keeps k (IsOut-below k (suc idx) _ (omega (arith, l)) r.low) in
        subst (λ r. AreSettledBut r idx (txn ∷ txns)) (sym (invalid_from-valid idx txn txns mv e))
          (
            (λ out.
                eval-keep mv (invalid_from (suc idx) txns mv).1 idx v r.valid below
                ∙ is_valid-eval st idx first last mv [] nothing (prog idx) txn v w (orderly idx).0
                    h.0 e
                ∙ ap (λ u. (txn, u)) (sym (same idx (omega arith)) ∙ r.keeps idx out)),
            refused-Settled first last (suc idx) txns mv v w (λ k l. same k (omega (arith, l))) h.1,
          )
    | inr e ↦
        subst (λ r. AreSettledBut r idx (txn ∷ txns)) (sym (invalid_from-stale idx txn txns mv e))
          (
            (λ out. absurd (out.0 refl)),
            AllAt-imp (suc idx) txns (λ i t l p out. p out.1)
                (refused-Settled first last (suc idx) txns (clear_writes mv idx)
                  (clear_writes-IsValid mv idx v)
                  (λ a k s g. w a k s (Within-clear mv idx v a k s g))
                  (λ k l.
                    sym (written-clear_other mv idx k v (λ q. omega (arith, q, l)))
                    ∙ same k (omega (arith, l)))
                  h.1),
          )
  ]

  -- The transactions up to an index are valid, so none of them is refused.
  pub low-refused :
      (m idx : TxnIdx) (txns : List Txn) (mv : MvStore)
      → IsValid mv
      → AllAt (λ i txn. i ≤ m → is_valid txn mv ≡ true) idx txns
      → All (λ j. suc m ≤ j) (invalid_from idx txns mv).0
  unfolding invalid_from
  low-refused m idx [] mv v h = tt
  low-refused m idx (txn ∷ txns) mv v h = elim (Bool-cases (is_valid txn mv)) [
    | inl e ↦ rw e (low-refused m (suc idx) txns mv v h.1)
    | inr e ↦ rw e (
        let r =
          invalid_from-IsRefused (suc idx) txns (clear_writes mv idx)
            (clear_writes-IsValid mv idx v) in
        let above = refused_above m idx (is_valid txn mv) e h.0 in
        (above, All-imp (λ j l. omega (arith, l, above)) _ r.low))
  ]
    where
      refused_above : (m idx : TxnIdx) (c : Bool) → c ≡ false → (idx ≤ m → c ≡ true) → suc m ≤ idx
      refused_above m idx c e f = ground (arith, f)
