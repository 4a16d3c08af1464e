-- ===== src/Bundle/Residue.antt =====
-- What a reverted bundle leaves behind besides the balances. Writing the snapshot back gives every
-- recorded address an entry in the store, with a fresh nonce.
use suwappu_db.Bundle.Snapshot.Restore.{collect_snapshot-CoversSteps}
use suwappu_db.Bridge.Intent.{RejectReason, TxOutcome}
use suwappu_db.Bundle.Atomicity.{IsReverted}
use suwappu_db.Bundle.Types.{BundleResult, BundleStep, is_empty}
use suwappu_db.Bundle.Executor.{attempt, run_steps, proceed, execute}
use suwappu_db.Prelude.{
  err, All-imp, ok, ◌++◌, ◌+◌, Result, All, List, ℕ, ◌∙◌, ◌≡◌, [], ◌∷◌, arith, refl, Bool-cases,
  inl, inr, true, if◌then◌else◌, ◌==◌,
}
use suwappu_db.Bundle.Snapshot.{collect_snapshot, recorded, restore_snapshot}
use suwappu_db.Collections.HashMap
use suwappu_db.Collections.HashMap.{HashMap}
use suwappu_db.State.Address.{Address, address_eq}
use suwappu_db.State.Canonical.{State, apply, set_balance, entries}
use suwappu_db.State.Slot
use suwappu_db.State.Slot.{Balance}
use suwappu_db.State.Store.InMemory
use suwappu_db.State.Store.InMemory.{InMemoryBalanceStore, in_memory}

abbrev Held : Type 0
Held = State InMemoryBalanceStore

-- The store holds an entry for the address, if only of a zero balance.
abbrev pub HasEntry : Held → Address → Type 0
HasEntry st a = HashMap.contains_key a (entries st) ≡ true

HasEntry-apply :
    (st : Held) (a c : Address) (v : Balance)
    → HashMap.contains_key c (entries (apply st (set_balance a v)))
      ≡ (if a == c then true else HashMap.contains_key c (entries st))
unfolding entries apply InMemory.entries InMemory.set HashMap.contains_key
HasEntry-apply st a c v = ground (arith, HashMap.lookup-insert a c (Slot.new v) st.store.slots)

HasEntry-restore_kept :
    (st : Held) (snap : HashMap Address Balance) (c : Address)
    → HasEntry st c
    → HasEntry (restore_snapshot st snap) c
unfolding restore_snapshot
HasEntry-restore_kept st [] c h = h
HasEntry-restore_kept st ((a, v) ∷ snap) c h =
    HasEntry-restore_kept (apply st (set_balance a v)) snap c
      (ground (arith, HasEntry-apply st a c v))

HasEntry-restore :
    (st : Held) (snap : HashMap Address Balance) (c : Address)
    → HashMap.contains_key c snap ≡ true
    → HasEntry (restore_snapshot st snap) c
unfolding restore_snapshot HashMap.contains_key HashMap.lookup
HasEntry-restore st [] c h = cc
HasEntry-restore st ((a, v) ∷ snap) c h = elim (Bool-cases (a == c)) [
  | inl e ↦
      HasEntry-restore_kept (apply st (set_balance a v)) snap c
        (HasEntry-apply st a c v ∙ rw e refl)
  | inr e ↦ HasEntry-restore (apply st (set_balance a v)) snap c (rw (HashMap.contains_key, e) at h)
]

proceed-HasEntry :
    (snap : HashMap Address Balance) (cur : Held) (idx : ℕ) (outcomes : List TxOutcome)
    (rest : Held × BundleResult) (r : Result RejectReason (Unit {0})) (c : Address)
    → HashMap.contains_key c snap ≡ true
    → (IsReverted rest.1.outcome → HasEntry rest.0 c)
    → IsReverted (proceed snap cur idx outcomes rest r).1.outcome
    → HasEntry (proceed snap cur idx outcomes rest r).0 c
unfolding proceed
proceed-HasEntry snap cur idx outcomes rest (ok _) c k later h = later h
proceed-HasEntry snap cur idx outcomes rest (err reason) c k later h = HasEntry-restore cur snap c k

run_steps-HasEntry :
    (snap : HashMap Address Balance) (cur : Held) (idx : ℕ) (steps : List BundleStep)
    (outcomes : List TxOutcome) (c : Address)
    → HashMap.contains_key c snap ≡ true
    → IsReverted (run_steps snap cur idx steps outcomes).1.outcome
    → HasEntry (run_steps snap cur idx steps outcomes).0 c
unfolding run_steps
run_steps-HasEntry snap cur idx [] outcomes c k h = absurd h
run_steps-HasEntry snap cur idx (step ∷ steps) outcomes c k h =
    proceed-HasEntry snap (attempt cur step).0 idx outcomes _ (attempt cur step).1 c k
      (run_steps-HasEntry snap (attempt cur step).0 (idx + 1) steps
        (outcomes ++ TxOutcome.committed ∷ []) c k)
      h

-- After a reverted bundle the in-memory store holds an entry for every address that the first step
-- names, whether or not it held one before the call.
pub execute_leaves_entries :
    (st : Held) (step : BundleStep) (steps : List BundleStep)
    → IsReverted (execute st (record { steps = step ∷ steps })).1.outcome
    → All (HasEntry (execute st (record { steps = step ∷ steps })).0) (recorded step)
unfolding execute is_empty
execute_leaves_entries st step steps h =
    let snap = collect_snapshot st (step ∷ steps) in
    All-imp (λ c k. run_steps-HasEntry snap st 0 (step ∷ steps) [] c k h) (recorded step)
      (collect_snapshot-CoversSteps st (step ∷ steps)).0
