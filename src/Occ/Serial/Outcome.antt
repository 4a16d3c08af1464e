-- ===== src/Occ/Serial/Outcome.antt =====
-- What `BlockExecutor::execute_with_registry` and `execute` return.
use suwappu_db.Occ.Serial.Steps.{read_cong}
use suwappu_db.Occ.Sequential.Consolidation.{consolidate-eq-seen}
use suwappu_db.Bundle.Executor.{canonical_intent}
use suwappu_db.Occ.MvStore.{finalise}
use suwappu_db.Occ.Sequential.Submits.{sequential-Follows, Follows, submit_block, IsBetweenTwo}
use suwappu_db.Occ.MvStore.Versions.{version_at-new, version_at, new-IsValid}
use suwappu_db.Occ.Serial.InOrder.{sequential-IsBehind}
use suwappu_db.State.Move.Tx.{CanonicalTransfer}
use suwappu_db.Occ.Serial.Loop.{start-IsConsistent, loop-IsSerial, IsSerial, in_order}
use suwappu_db.Tree.Commit.{Blake3}
use suwappu_db.Occ.BlockExecutor.{
  outcome_of, sequential, consolidate, start, BlockReport, loop, empty_report, report_of, Run,
  execute, execute_with_registry,
}
use suwappu_db.Occ.Sequential.Reads.{seen_unwritten, seen}
use suwappu_db.Bridge.Intent.{Intent}
use suwappu_db.Occ.Serial.{Txn, some, nothing, Address, IsValid, written}
use suwappu_db.State.Canonical.{balance_of-slot_of, balance_of, State}
use suwappu_db.Bundle.Registry.{ContractRegistry}
use suwappu_db.State.Store.Interface.{BalanceStore}
use suwappu_db.Occ.MvStore
use suwappu_db.Bundle.Registry
use suwappu_db.Prelude.{
  length-map, ◌∙◌, ap, fun_ext, All, ℕ, ◌≡◌, ◌≤◌, ◌+◌, ◌*◌, refl, arith, [], ◌∷◌, sym, length, map,
  List,
}

module _ {S : Type 0} ⦃b : BalanceStore S⦄ (registry : ContractRegistry S) (st : State S) where
  -- Whatever the schedule of each iteration, with at least as much fuel as the block has intents the
  -- loop ends without its panic, and its transactions and the versions that it leaves are those of
  -- running the intents one after the other.
  pub loop_serializes :
      (fuel : ℕ) (block : List Intent) (choices : ℕ → List ℕ)
      → length block ≤ fuel
      → (last : Run) × (loop registry st fuel block choices (start registry st block) ≡ some last)
        × (last.txns ≡ (sequential registry st 0 block MvStore.new).0)
        × ((a : Address) (k : ℕ)
            → version_at last.mv a k
              ≡ version_at (sequential registry st 0 block MvStore.new).1 a k)
  loop_serializes fuel block choices l =
      let (last, ends, serial) =
        loop-IsSerial registry st block fuel 0 choices (start registry st block)
          (start-IsConsistent registry st block) (omega (arith, l)) in
      (last, ends, serial.same_txns, serial.same_versions)

  order-IsBehind :
      (block : List Intent)
      → IsValid (in_order registry st block).1
        × ((k : ℕ) → length block + 0 ≤ k → written (in_order registry st block).1 k ≡ nothing)
  unfolding written
  order-IsBehind block =
      sequential-IsBehind registry st MvStore.new 0 block new-IsValid
        (λ k l. fun_ext λ a. version_at-new a k)

  seen_serial :
      (block : List Intent) (last : Run) (a : Address)
      → IsSerial registry st block last
      → balance_of (consolidate registry st st (finalise last.mv)) a
        ≡ (seen st (in_order registry st block).1 a (length block)).canonical
  unfolding seen written
  seen_serial block last a serial =
      consolidate-eq-seen registry st last.mv (length block) a serial.valid serial.fresh
      ∙ ap (λ r. r.0.canonical)
          (read_cong st last.mv (in_order registry st block).1 a (length block) serial.valid
            (order-IsBehind block).0 (λ k l. fun_ext λ c. serial.same_versions c k))

  -- Whatever the schedule of each iteration, the executor returns a state and a report, the outcomes
  -- are those of running the intents one after the other, and every balance is what a transaction
  -- behind that run would see.
  pub execute_with_registry_serializes :
      (h : Blake3) (choices : ℕ → List ℕ) (block : List Intent)
      → (final : State S) × (report : BlockReport) × (execute_with_registry registry st h choices
            block
          ≡ some (final, report))
        × (report.outcomes
            ≡ map
                (λ (t : Txn). outcome_of t.rejected)
                (sequential registry st 0 block MvStore.new).0)
        × ((a : Address)
            → balance_of final a
              ≡ (seen st (sequential registry st 0 block MvStore.new).1 a (length block)).canonical)
  unfolding execute_with_registry report_of empty_report sequential
  execute_with_registry_serializes h choices [] = (
    st,
    empty_report registry st h,
    refl,
    refl,
    (λ a. sym (
        ap (λ s. s.canonical)
          (seen_unwritten st MvStore.new a 0 new-IsValid (λ c k l. version_at-new c k))
        ∙ balance_of-slot_of st a)),
  )
  execute_with_registry_serializes h choices (intent ∷ intents) =
      let block = intent ∷ intents in
      let (last, ends, serial) =
        loop-IsSerial registry st block (2 * length block + 4) 0 choices (start registry st block)
          (start-IsConsistent registry st block) (omega arith) in
      (
        (report_of registry st h last).0,
        (report_of registry st h last).1,
        rw (ends, execute_with_registry) refl,
        ap (map (λ t. outcome_of t.rejected)) serial.same_txns,
        (λ a. seen_serial block last a serial),
      )

module _ {S : Type 0} ⦃b : BalanceStore S⦄ (st : State S) where
  -- Whatever the schedule of each iteration, on every block of transfers, each
  -- between two different addresses, the executor returns a state and a report: its outcomes are those
  -- of submitting the transfers to the bridge in order, and so is every balance.
  pub execute_submits :
      (h : Blake3) (choices : ℕ → List ℕ) (ts : List CanonicalTransfer)
      → All IsBetweenTwo ts
      → (final : State S) × (report : BlockReport) × (execute h choices st (map canonical_intent ts)
          ≡ some (final, report))
        × (report.outcomes ≡ (submit_block st ts).0)
        × ((a : Address) → balance_of final a ≡ balance_of (submit_block st ts).1 a)
  unfolding execute
  execute_submits h choices ts two =
      let (final, report, runs, outcomes, balances) =
        execute_with_registry_serializes Registry.new st h choices (map canonical_intent ts) in
      let last = (sequential Registry.new st 0 (map canonical_intent ts) MvStore.new).1 in
      let f = sequential-Follows Registry.new st st MvStore.new 0 ts two (new_Follows) in
      (
        final,
        report,
        runs,
        outcomes ∙ f.0,
        (λ a.
            balances a
            ∙ ap (λ n. (seen st last a n).canonical) (omega (arith, length-map canonical_intent ts))
            ∙ f.1.reflects a),
      )
    where
      new_Follows : Follows st MvStore.new 0 st
      new_Follows = record {
        valid = new-IsValid;
        fresh = λ a k l. version_at-new a k;
        reflects = λ a.
            ap (λ s. s.canonical)
              (seen_unwritten st MvStore.new a 0 new-IsValid (λ c k l. version_at-new c k))
            ∙ balance_of-slot_of st a;
      }
