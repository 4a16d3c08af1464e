-- ===== src/Occ/Sequential/Collapse.antt =====
-- The circuit breaker of the block executor runs the block as the bridge would.
use suwappu_db.Prelude.{
  length-map, ℕ, zero, suc, ◌+◌, ◌≡◌, ◌≤◌, ◌<◌, ◌⊎◌, ap, ◌∙◌, none, some, arith, List, map, length,
  All, u128_mod, ok,
}
use suwappu_db.Bridge.Intent.{transfer, amount_overflow}
use suwappu_db.Bridge.Submit.{submit}
use suwappu_db.Bridge.Transfers.{submit_otherwise}
use suwappu_db.Bundle.Executor.{canonical_intent}
use suwappu_db.Bundle.Registry.{ContractRegistry}
use suwappu_db.Occ.BlockExecutor.{Run, collapse, clear_all, range_from, consolidate, outcome_of}
use suwappu_db.Occ.MvStore
use suwappu_db.Occ.MvStore.{MvStore, TxnIdx, finalise, clear_writes, read}
use suwappu_db.Occ.MvStore.Versions.{
  new-IsValid, version_at-new, IsValid, version_at, clear_writes-IsValid, version_at-clear_writes,
}
use suwappu_db.Occ.Sequential.Consolidation.{consolidate-eq-seen}
use suwappu_db.Occ.Sequential.Reads.{IsFresh, seen_unwritten}
use suwappu_db.Occ.Sequential.Submits.{IsBetweenTwo, submit_block, Follows, sequential-Follows}
use suwappu_db.Occ.Sequential.Transfer.{alone, run_overflow}
use suwappu_db.Occ.Txn.{Txn}
use suwappu_db.State.Address.{Address, address_eq}
use suwappu_db.State.Canonical.{State, balance_of, balance_of-slot_of}
use suwappu_db.State.Move.Tx.{CanonicalTransfer}
use suwappu_db.State.Store.Interface.{BalanceStore}

-- No version stands before `lo`, nor from `hi` on.
abbrev pub IsWrittenWithin : MvStore → ℕ → ℕ → Type 0
IsWrittenWithin mv lo hi = (a : Address) (k : ℕ) → (k < lo) ⊎ (hi ≤ k) → version_at mv a k ≡ none

pub clear_all-IsFresh :
    (lo count : ℕ) (mv : MvStore)
    → IsValid mv
    → IsWrittenWithin mv lo (lo + count)
    → IsValid (clear_all (range_from lo count) mv) × IsFresh (clear_all (range_from lo count) mv) 0
unfolding clear_all range_from
clear_all-IsFresh lo zero mv v h = (v, (λ a k l. h a k (ground arith)))
clear_all-IsFresh lo (suc count) mv v h =
    clear_all-IsFresh (lo + 1) count (clear_writes mv lo) (clear_writes-IsValid mv lo v)
      (λ a k l. version_at-clear_writes mv a lo k v ∙ ground (arith, l, h a k))

module _ {S : Type 0} ⦃b : BalanceStore S⦄ (registry : ContractRegistry S) (st : State S) where
  cleared_Follows : (mv : MvStore) → IsValid mv → IsFresh mv 0 → Follows st mv 0 st
  cleared_Follows mv v fresh = record {
    valid = v;
    fresh = fresh;
    reflects =
        λ a. ap (λ s. s.canonical) (seen_unwritten st mv a 0 v fresh) ∙ balance_of-slot_of st a;
  }

  -- When the circuit breaker trips on a block of transfers, each between two different addresses,
  -- whatever versions the parallel iterations have left at the indices of the block: the outcomes
  -- are those of submitting the transfers to the bridge in order, and so is every balance after the
  -- consolidation.
  pub collapse_submits :
      (s : Run) (ts : List CanonicalTransfer)
      → All IsBetweenTwo ts
      → IsValid s.mv
      → IsFresh s.mv (length ts)
      → (map
            (λ (t : Txn). outcome_of t.rejected)
            (collapse registry st (map canonical_intent ts) s).txns
          ≡ (submit_block st ts).0)
        × ((a : Address)
            → balance_of
                (consolidate registry st st
                  (finalise (collapse registry st (map canonical_intent ts) s).mv))
                a
              ≡ balance_of (submit_block st ts).1 a)
  unfolding collapse
  collapse_submits s ts two v fresh = rw (length-map canonical_intent ts) (
      let mv = clear_all (range_from 0 (length ts)) s.mv in
      let empty = clear_all-IsFresh 0 (length ts) s.mv v (λ a k l. fresh a k (ground (arith, l))) in
      let f = sequential-Follows registry st st mv 0 ts two (cleared_Follows mv empty.0 empty.1) in
      (
        f.0,
        (λ a.
            consolidate-eq-seen registry st _ (length ts + 0) a f.1.valid f.1.fresh
            ∙ f.1.reflects a),
      ))

-- A self-transfer that is covered, and whose sum with the balance is no `u128`, is accepted by the
-- bridge without effect and refused by the block executor for an overflow.
pub self_transfer_differs :
    {S : Type 0} ⦃b : BalanceStore S⦄ (st : State S) (a : Address) (amount : ℕ) (idx : TxnIdx)
    → amount ≤ balance_of st a
    → u128_mod ≤ balance_of st a + amount
    → (submit st (transfer a a amount) ≡ (st, ok tt))
      × ((alone st MvStore.new a a amount idx).0.rejected ≡ some amount_overflow)
self_transfer_differs st a amount idx enough over =
    let reads =
      ap (λ s. s.canonical)
        (seen_unwritten st MvStore.new a idx new-IsValid (λ c k l. version_at-new c k))
      ∙ balance_of-slot_of st a in
    (
      (submit_otherwise st a a amount).2 enough,
      ap (λ r. r.0.rejected)
          (run_overflow st MvStore.new a a amount idx (rw reads enough) (rw reads over)),
    )
