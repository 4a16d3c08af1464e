-- ===== src/Occ/Serial/InOrder.antt =====
-- The block run in order: it is what a store gives in which every transaction is settled, and it
-- depends on the versions of its first store only.
use suwappu_db.Occ.Serial.Runs.{run-eval, run-IsMove}
use suwappu_db.Occ.Serial.Steps.{read_cong}
use suwappu_db.Occ.Serial.Discipline.{IsOrderly-execute_one}
use suwappu_db.Occ.Execute.{execute_one}
use suwappu_db.Occ.Serial.Indexed.{AllAt}
use suwappu_db.Occ.Serial.{WritesOnce, Settled, nothing, eval, Txn, AgreesBelow, written, IsMove}
use suwappu_db.Occ.MvStore.Versions.{IsValid}
use suwappu_db.Occ.Speculation.{run, Speculation}
use suwappu_db.Bridge.Intent.{Intent}
use suwappu_db.Occ.BlockExecutor.{sequential}
use suwappu_db.Occ.MvStore.{read, MvStore, TxnIdx}
use suwappu_db.State.Canonical.{State}
use suwappu_db.Bundle.Registry.{ContractRegistry}
use suwappu_db.State.Store.Interface.{BalanceStore}
use suwappu_db.Prelude.{
  ◌≢◌, fun_ext, ap, inr, subst, ◌∙◌, inl, ◌⊎◌, List, ℕ, ◌≡◌, ◌≤◌, ◌+◌, refl, arith, suc, [], ◌∷◌,
  sym, length,
}

nat_cases : (m n : ℕ) → (m ≡ n) ⊎ (m ≢ n)
nat_cases m n = ground arith

module _ {S : Type 0} ⦃b : BalanceStore S⦄ (registry : ContractRegistry S) (st : State S) where
  -- One transaction on a store without versions at its index.
  alone_evals :
      (cur : MvStore) (i : TxnIdx) (intent : Intent)
      → IsValid cur
      → written cur i ≡ nothing
      → IsMove i cur (run st i (execute_one registry st intent i) cur).1
        × (eval (λ a. read cur st a i) (execute_one registry st intent i) nothing ≡ (
          (run st i (execute_one registry st intent i) cur).0,
          written (run st i (execute_one registry st intent i) cur).1 i,
        ))
  alone_evals cur i intent v e =
      let p = execute_one registry st intent i in
      let once =
        subst (λ w. WritesOnce w p) (sym e) (IsOrderly-execute_one registry st intent i).1 in
      (
        run-IsMove st i p cur v once,
        ap (eval (λ a. read cur st a i) p) (sym e)
            ∙ run-eval st i (λ a. read cur st a i) p cur v once (λ a. refl),
      )

  alone_cong :
      (cur mv : MvStore) (i : TxnIdx) (p : Speculation Txn)
      → IsValid cur
      → IsValid mv
      → AgreesBelow i cur mv
      → eval (λ a. read cur st a i) p nothing ≡ eval (λ a. read mv st a i) p nothing
  alone_cong cur mv i p v u agree =
      ap (λ f. eval f p nothing) (fun_ext λ a. read_cong st cur mv a i v u agree)

  -- The programs that a block runs, from an index on.
  abbrev pub Runs : (TxnIdx → Speculation Txn) → TxnIdx → List Intent → Type 0
  Runs prog lo [] = Unit
  Runs prog lo (intent ∷ block) =
      (prog lo ≡ execute_one registry st intent lo) × Runs prog (suc lo) block

  -- A store that has run so far: the versions of the other store below the index, none from it on.
  pub record IsPrefix (mv : MvStore) (lo : TxnIdx) (cur : MvStore) : Type 0 where
    pub valid : IsValid cur
    pub below : AgreesBelow lo cur mv
    pub above : (k : ℕ) → lo ≤ k → written cur k ≡ nothing

  IsPrefix-next :
      (mv cur later : MvStore) (lo : TxnIdx)
      → IsPrefix mv lo cur
      → IsMove lo cur later
      → written later lo ≡ written mv lo
      → IsPrefix mv (suc lo) later
  IsPrefix-next mv cur later lo p move e = record {
    valid = move.valid;
    below = λ k l. elim (nat_cases k lo) [
      | inl same ↦ subst (λ j. written later j ≡ written mv j) (sym same) e
      | inr ne ↦ sym (move.others k ne) ∙ p.below k (omega (arith, l, ne))
    ];
    above = λ k l. sym (move.others k (λ q. omega (arith, q, l))) ∙ p.above k (omega (arith, l));
  }

  -- If every transaction is settled in a store, running the block in order gives the same
  -- transactions and the same versions.
  pub sequential-Settled :
      (mv cur : MvStore) (lo : TxnIdx) (block : List Intent) (txns : List Txn)
      (prog : TxnIdx → Speculation Txn)
      → IsValid mv
      → IsPrefix mv lo cur
      → Runs prog lo block
      → length txns ≡ length block
      → AllAt (λ i txn. Settled st mv i (prog i) txn) lo txns
      → ((sequential registry st lo block cur).0 ≡ txns)
        × IsPrefix mv (length block + lo) (sequential registry st lo block cur).1
  unfolding sequential
  sequential-Settled mv cur lo [] [] prog v p runs size h =
      (refl, subst (λ n. IsPrefix mv n cur) (omega arith) p)
  sequential-Settled mv cur lo [] (txn ∷ txns) prog v p runs size h = absurd (omega (arith, size))
  sequential-Settled mv cur lo (intent ∷ block) [] prog v p runs size h =
      absurd (omega (arith, size))
  sequential-Settled mv cur lo (intent ∷ block) (txn ∷ txns) prog v p runs size h =
      let first = alone_evals cur lo intent p.valid (p.above lo (omega arith)) in
      let same =
        sym first.1
        ∙ alone_cong cur mv lo (execute_one registry st intent lo) p.valid v p.below
        ∙ ap (λ q. eval (λ a. read mv st a lo) q nothing) (sym runs.0)
        ∙ h.0 in
      let next = (run st lo (execute_one registry st intent lo) cur).1 in
      let rest =
        sequential-Settled mv next (suc lo) block txns prog v
          (IsPrefix-next mv cur next lo p first.0 (ap (λ r. r.1) same)) runs.1 (omega (arith, size))
          h.1 in
      (
        cc (ap (λ r. r.0) same, rest.0),
        subst (λ n. IsPrefix mv n (sequential registry st lo (intent ∷ block) cur).1) (omega arith)
            rest.1,
      )

  -- Two stores with the same versions, none of them at the indices to come, give the same.
  pub sequential_cong :
      (one two : MvStore) (lo : TxnIdx) (block : List Intent)
      → IsValid two
      → IsPrefix two lo one
      → ((k : ℕ) → written one k ≡ written two k)
      → ((sequential registry st lo block one).0 ≡ (sequential registry st lo block two).0)
        × ((k : ℕ)
            → written (sequential registry st lo block one).1 k
              ≡ written (sequential registry st lo block two).1 k)
  unfolding sequential
  sequential_cong one two lo [] v p same = (refl, same)
  sequential_cong one two lo (intent ∷ block) v p same =
      let q = execute_one registry st intent lo in
      let free = p.above lo (omega arith) in
      let first = alone_evals one lo intent p.valid free in
      let second = alone_evals two lo intent v (sym (same lo) ∙ free) in
      let equal = sym first.1 ∙ alone_cong one two lo q p.valid v p.below ∙ second.1 in
      let next = (run st lo q one).1 in
      let other = (run st lo q two).1 in
      let agree : (k : ℕ) → written next k ≡ written other k = λ k. elim (nat_cases k lo) [
        | inl e ↦ subst (λ j. written next j ≡ written other j) (sym e) (ap (λ r. r.1) equal)
        | inr ne ↦ sym (first.0.others k ne) ∙ same k ∙ second.0.others k ne
      ] in
      let onward : IsPrefix other (suc lo) next = record {
        valid = first.0.valid;
        below = λ k l. agree k;
        above =
            λ k l. sym (first.0.others k (λ e. omega (arith, e, l))) ∙ p.above k (omega (arith, l));
      } in
      let rest = sequential_cong next other (suc lo) block second.0.valid onward agree in
      (cc (ap (λ r. r.0) equal, rest.0), rest.1)

  -- The versions of a block run in order stand at its indices.
  pub sequential-IsBehind :
      (cur : MvStore) (lo : TxnIdx) (block : List Intent)
      → IsValid cur
      → ((k : ℕ) → lo ≤ k → written cur k ≡ nothing)
      → IsValid (sequential registry st lo block cur).1
        × ((k : ℕ)
            → length block + lo ≤ k
            → written (sequential registry st lo block cur).1 k ≡ nothing)
  unfolding sequential
  sequential-IsBehind cur lo [] v above = (v, (λ k l. above k (omega (arith, l))))
  sequential-IsBehind cur lo (intent ∷ block) v above =
      let first = alone_evals cur lo intent v (above lo (omega arith)) in
      let rest =
        sequential-IsBehind (run st lo (execute_one registry st intent lo) cur).1 (suc lo) block
          first.0.valid
          (λ k l. sym (first.0.others k (λ e. omega (arith, e, l))) ∙ above k (omega (arith, l))) in
      (rest.0, (λ k l. rest.1 k (omega (arith, l))))
