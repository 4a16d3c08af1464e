-- ===== src/Occ/Sequential/Submits.antt =====
-- A run in order follows the bridge: the outcomes and the balances of submitting the transfers.
use suwappu_db.Occ.Txn.{Txn}
use suwappu_db.Bundle.Registry.{ContractRegistry}
use suwappu_db.Occ.Execute.{execute_one}
use suwappu_db.Prelude.{
  subst, length, map, All, ℕ, suc, ◌+◌, ◌-◌, ◌≡◌, ◌≢◌, ◌≤◌, ◌<◌, ◌⊎◌, inl, inr, refl, arith, [],
  ◌∷◌, u128_mod, List, Result, ok, err,
}
use suwappu_db.Bridge.Intent.{RejectReason, TxOutcome, transfer}
use suwappu_db.Bridge.Submit.{submit}
use suwappu_db.Bridge.Transfers.{submit_moves, submit_otherwise}
use suwappu_db.Bundle.Executor.{canonical_intent}
use suwappu_db.Occ.BlockExecutor.{sequential, outcome_of}
use suwappu_db.Occ.MvStore.{MvStore, TxnIdx, write}
use suwappu_db.Occ.MvStore.Versions.{IsValid, write-IsValid}
use suwappu_db.Occ.Sequential.Reads.{seen, IsFresh, IsFresh-write, seen_next, seen-two_writes}
use suwappu_db.Occ.Sequential.Transfer.{alone, run_uncovered, run_overflow, run_settles}
use suwappu_db.State.Address.{Address, address_eq, address_beq_iff}
use suwappu_db.State.Canonical.{State, balance_of}
use suwappu_db.State.Move.Tx.{CanonicalTransfer}
use suwappu_db.State.Slot
use suwappu_db.State.Slot.{BalanceSlot}
use suwappu_db.State.Store.Interface.{BalanceStore}

abbrev pub settled : Result RejectReason (Unit {0}) → TxOutcome
settled (ok _) = TxOutcome.committed
settled (err reason) = TxOutcome.rejected reason

lt_or_le : (m n : ℕ) → (m < n) ⊎ (n ≤ m)
lt_or_le m n = ground arith

-- The condition under which the bridge and the block executor agree on every transfer.
abbrev pub IsBetweenTwo : CanonicalTransfer → Type 0
IsBetweenTwo t = t.from ≢ t.to

module _ {S : Type 0} ⦃b : BalanceStore S⦄ where
  -- The transfers submitted to the bridge one after the other.
  unfoldable pub submit_block : State S → List CanonicalTransfer → List TxOutcome × State S
  submit_block cur [] = ([], cur)
  submit_block cur (t ∷ ts) =
      let (next, result) = submit cur (canonical_intent t) in
      let (outcomes, last) = submit_block next ts in (settled result ∷ outcomes, last)

  -- What a transaction at the index would see is the state, and nothing is written from there on.
  pub record Follows (st : State S) (mv : MvStore) (idx : TxnIdx) (cur : State S) : Type 0 where
    pub valid : IsValid mv
    pub fresh : IsFresh mv idx
    pub reflects : (a : Address) → (seen st mv a idx).canonical ≡ balance_of cur a

  Follows-next :
      (st cur : State S) (mv : MvStore) (idx : TxnIdx)
      → Follows st mv idx cur
      → Follows st mv (suc idx) cur
  Follows-next st cur mv idx f = record {
    valid = f.valid;
    fresh = λ a k l. f.fresh a k (omega arith);
    reflects = λ a.
        let unwritten = f.fresh a idx (omega arith) in
        ground (arith, unwritten, seen_next st mv a idx f.valid, f.reflects a);
  }

  Follows-two_writes :
      (st cur : State S) (mv : MvStore) (from to : Address) (amount : ℕ) (idx : TxnIdx)
      → from ≢ to
      → amount ≤ balance_of cur from
      → balance_of cur to + amount < u128_mod
      → Follows st mv idx cur
      → Follows st
          (write
            (write mv from (Slot.new ((seen st mv from idx).canonical - amount)) idx)
            to
            (Slot.new ((seen st mv to idx).canonical + amount))
            idx)
          (suc idx)
          (submit cur (transfer from to amount)).0
  Follows-two_writes st cur mv from to amount idx ne h o f =
      let s = Slot.new ((seen st mv from idx).canonical - amount) in
      let t = Slot.new ((seen st mv to idx).canonical + amount) in
      record {
        valid = write-IsValid _ to t idx (write-IsValid mv from s idx f.valid);
        fresh =
            IsFresh-write (write mv from s idx) to t idx
              (IsFresh-write mv from s idx (λ a k l. f.fresh a k (omega arith)));
        reflects = λ a. ground (
          arith,
          address_beq_iff to a,
          address_beq_iff from a,
          f.reflects a,
          f.reflects from,
          f.reflects to,
          seen-two_writes st mv a from to s t idx f.valid f.fresh,
          submit_moves cur from to a amount ne h o,
        );
      }

  transfer_Follows :
      (st cur : State S) (mv : MvStore) (from to : Address) (amount : ℕ) (idx : TxnIdx)
      → from ≢ to
      → Follows st mv idx cur
      → (outcome_of (alone st mv from to amount idx).0.rejected
          ≡ settled (submit cur (transfer from to amount)).1)
        × Follows st
            (alone st mv from to amount idx).1
            (suc idx)
            (submit cur (transfer from to amount)).0
  transfer_Follows st cur mv from to amount idx ne f =
      let refused = submit_otherwise cur from to amount in
      let here = f.reflects from in
      let there = f.reflects to in
      let onward = Follows-next st cur mv idx f in
      elim (lt_or_le (balance_of cur from) amount) [
        | inl less ↦
            let ran = run_uncovered st mv from to amount idx (rw here less) in
            rw (ran, refused.0 less) (refl, onward)
        | inr enough ↦ elim (lt_or_le (balance_of cur to + amount) u128_mod) [
          | inr over ↦
              let ran = run_overflow st mv from to amount idx (rw here enough) (rw there over) in
              rw (ran, refused.1 enough ne over) (refl, onward)
          | inl fits ↦
              let ran = run_settles st mv from to amount idx ne (rw here enough) (rw there fits) in
              let moved = submit_moves cur from to from amount ne enough fits in
              rw (ran.0, ran.1, moved.0)
                (refl, Follows-two_writes st cur mv from to amount idx ne enough fits f)
        ]
      ]

  pub sequential-Follows :
      (registry : ContractRegistry S) (st cur : State S) (mv : MvStore) (idx : TxnIdx)
      (ts : List CanonicalTransfer)
      → All IsBetweenTwo ts
      → Follows st mv idx cur
      → (map
            (λ (t : Txn). outcome_of t.rejected)
            (sequential registry st idx (map canonical_intent ts) mv).0
          ≡ (submit_block cur ts).0)
        × Follows st
            (sequential registry st idx (map canonical_intent ts) mv).1
            (length ts + idx)
            (submit_block cur ts).1
  unfolding sequential submit_block execute_one
  sequential-Follows registry st cur mv idx [] two f =
      (refl, subst (λ n. Follows st mv n cur) (omega arith) f)
  sequential-Follows registry st cur mv idx (t ∷ ts) two f =
      let first = transfer_Follows st cur mv t.from t.to t.amount idx two.0 f in
      let rest =
        sequential-Follows registry st (submit cur (canonical_intent t)).0
          (alone st mv t.from t.to t.amount idx).1 (suc idx) ts two.1 first.1 in
      (
        cc (first.0, rest.0),
        subst
            (λ n.
              Follows st (sequential registry st idx (map canonical_intent (t ∷ ts)) mv).1 n
                (submit_block cur (t ∷ ts)).1)
            (omega arith) rest.1,
      )
