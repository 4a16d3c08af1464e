-- ===== src/Occ/Sequential/Reads.antt =====
-- What a reader of the versioned store sees after the writes of the transaction before it.
use suwappu_db.Occ.MvStore.Versions.{below-none, IsValid}
use suwappu_db.State.Slot.{BalanceSlot}
use suwappu_db.State.Address.{Address}
use suwappu_db.Occ.MvStore.{write, TxnIdx, read, MvStore}
use suwappu_db.State.Store.Interface.{BalanceStore}
use suwappu_db.Prelude.{ℕ, suc, ◌≡◌, ◌≤◌, ◌<◌, sym, ap, ◌∙◌, none, some, arith, if◌then◌else◌, ◌==◌}
use suwappu_db.Occ.MvStore.{MvStore, TxnIdx, read, write, fall_through}
use suwappu_db.Occ.MvStore.Versions.{
  version_at, below, below_cong, IsValid, visible-eq-below, write-IsValid, version_at-write,
}
use suwappu_db.State.Address.{Address, address_eq}
use suwappu_db.State.Slot.{BalanceSlot}
use suwappu_db.State.Store.Interface.{BalanceStore}
use suwappu_db.State.Canonical.{State, slot_of}

-- No transaction from an index on has written.
abbrev pub IsFresh : MvStore → TxnIdx → Type 0
IsFresh mv idx = (a : Address) (k : ℕ) → idx ≤ k → version_at mv a k ≡ none

pub IsFresh-write :
    (mv : MvStore) (c : Address) (s : BalanceSlot) (idx : TxnIdx)
    → ((a : Address) (k : ℕ) → idx < k → version_at mv a k ≡ none)
    → (a : Address) (k : ℕ) → idx < k
    → version_at (write mv c s idx) a k ≡ none
IsFresh-write mv c s idx fresh a k l = version_at-write mv c a s idx k ∙ ground (arith, fresh a k l)

module _ {S : Type 0} ⦃b : BalanceStore S⦄ (st : State S) where
  unfoldable pub seen : MvStore → Address → TxnIdx → BalanceSlot
  seen mv a idx = (read mv st a idx).0

  seen-eq-below :
      (mv : MvStore) (a : Address) (idx : TxnIdx)
      → IsValid mv
      → seen mv a idx ≡ (fall_through (slot_of st a) (below (version_at mv a) idx)).0
  unfolding seen read
  seen-eq-below mv a idx v =
      ap (λ e. (fall_through (slot_of st a) e).0) (visible-eq-below mv a idx v)

  -- The next index sees the version at this one, if there is one.
  pub seen_next :
      (mv : MvStore) (a : Address) (idx : TxnIdx)
      → IsValid mv
      → seen mv a (suc idx) ≡ elim (version_at mv a idx) [ some s ↦ s | none ↦ seen mv a idx ]
  seen_next mv a idx v =
      let here = seen-eq-below mv a idx v in
      let next = seen-eq-below mv a (suc idx) v in ground (arith, here, next)

  -- A transaction does not see its own writes.
  pub seen-write :
      (mv : MvStore) (a c : Address) (s : BalanceSlot) (idx : TxnIdx)
      → IsValid mv
      → seen (write mv c s idx) a idx ≡ seen mv a idx
  seen-write mv a c s idx v =
      seen-eq-below (write mv c s idx) a idx (write-IsValid mv c s idx v)
      ∙ ap (λ e. (fall_through (slot_of st a) e).0)
          (below_cong (version_at (write mv c s idx) a) (version_at mv a) idx
            (λ k l. version_at-write mv c a s idx k ∙ ground arith))
      ∙ sym (seen-eq-below mv a idx v)

  -- After the two writes of a transfer: the next index sees them, and the older slots elsewhere.
  pub seen-two_writes :
      (mv : MvStore) (a from to : Address) (s t : BalanceSlot) (idx : TxnIdx)
      → IsValid mv
      → IsFresh mv idx
      → seen (write (write mv from s idx) to t idx) a (suc idx)
        ≡ (if to == a then t else if from == a then s else seen mv a idx)
  seen-two_writes mv a from to s t idx v fresh =
      let one = write mv from s idx in
      let valid = write-IsValid mv from s idx v in
      let unwritten = fresh a idx (omega arith) in
      ground (
        arith,
        seen_next (write one to t idx) a idx (write-IsValid one to t idx valid),
        seen-write one a to t idx valid,
        seen-write mv a from s idx v,
        version_at-write one to a t idx idx,
        version_at-write mv from a s idx idx,
      )

  -- With no version below it, an index sees the state.
  pub seen_unwritten :
      (mv : MvStore) (a : Address) (idx : TxnIdx)
      → IsValid mv
      → IsFresh mv 0
      → seen mv a idx ≡ slot_of st a
  seen_unwritten mv a idx v fresh =
      seen-eq-below mv a idx v
      ∙ ap (λ e. (fall_through (slot_of st a) e).0)
          (below-none (version_at mv a) idx (λ k l. fresh a k (omega arith)))
