-- ===== src/Bundle/Snapshot/Restore.antt =====
-- What a snapshot records, and what writing it back restores.
use suwappu_db.Prelude.{
  inr, inl, Bool-cases, refl, ◌∙◌, List, [], ◌∷◌, ◌≡◌, ◌==◌, arith, All, true, false,
}
use suwappu_db.Collections.HashMap
use suwappu_db.Collections.HashMap.{HashMap, lookup, or_insert, lookup-or_insert, or_else}
use suwappu_db.Bundle.Types.{BundleStep}
use suwappu_db.State.Address.{Address, address_eq, address_beq_iff}
use suwappu_db.State.Canonical.{
  State, balance_of, bytes_of, apply, set_balance, balance_of-set_balance, bytes_of-set_balance,
}
use suwappu_db.State.Slot.{Balance}
use suwappu_db.State.Store.Interface.{BalanceStore}
use suwappu_db.Bundle.Snapshot.{
  recorded, record_all, snapshot_from, collect_snapshot, restore_snapshot,
}

-- Every address of the list is recorded.
abbrev pub Covers : HashMap Address Balance → List Address → Type 0
Covers snap addrs = All (λ a. HashMap.contains_key a snap ≡ true) addrs

-- A recorded address stays recorded.
or_insert-keeps :
    (a c : Address) (v : Balance) (snap : HashMap Address Balance)
    → HashMap.contains_key c snap ≡ true
    → HashMap.contains_key c (or_insert a v snap) ≡ true
unfolding HashMap.contains_key
or_insert-keeps a c v snap h = ground (arith, lookup-or_insert a c v snap, address_beq_iff a c)

or_insert-records :
    (a : Address) (v : Balance) (snap : HashMap Address Balance)
    → HashMap.contains_key a (or_insert a v snap) ≡ true
unfolding HashMap.contains_key
or_insert-records a v snap = ground (arith, lookup-or_insert a a v snap, address_beq_iff a a)

-- The snapshot records every address that it means to record for each step.
abbrev pub CoversSteps : HashMap Address Balance → List BundleStep → Type 0
CoversSteps snap steps = All (λ s. Covers snap (recorded s)) steps

module _ {S : Type 0} ⦃b : BalanceStore S⦄ where
  -- Every recorded balance is the balance of `st`.
  abbrev pub AgreesWith : State S → HashMap Address Balance → Type 0
  AgreesWith st snap = All (λ e. e.1 ≡ balance_of st e.0) snap

  or_insert-AgreesWith :
      (st : State S) (a : Address) (snap : HashMap Address Balance)
      → AgreesWith st snap
      → AgreesWith st (or_insert a (balance_of st a) snap)
  unfolding or_insert
  or_insert-AgreesWith st a [] h = (refl, tt)
  or_insert-AgreesWith st a ((c, v) ∷ snap) h = ground (arith, or_insert-AgreesWith st a snap)

  record_all-AgreesWith :
      (st : State S) (addrs : List Address) (snap : HashMap Address Balance)
      → AgreesWith st snap
      → AgreesWith st (record_all st addrs snap)
  unfolding record_all
  record_all-AgreesWith st [] snap h = h
  record_all-AgreesWith st (a ∷ rest) snap h =
      record_all-AgreesWith st rest _ (or_insert-AgreesWith st a snap h)

  snapshot_from-AgreesWith :
      (st : State S) (steps : List BundleStep) (snap : HashMap Address Balance)
      → AgreesWith st snap
      → AgreesWith st (snapshot_from st steps snap)
  unfolding snapshot_from
  snapshot_from-AgreesWith st [] snap h = h
  snapshot_from-AgreesWith st (s ∷ steps) snap h =
      snapshot_from-AgreesWith st steps _ (record_all-AgreesWith st (recorded s) snap h)

  pub collect_snapshot-AgreesWith :
      (st : State S) (steps : List BundleStep) → AgreesWith st (collect_snapshot st steps)
  unfolding collect_snapshot
  collect_snapshot-AgreesWith st steps = snapshot_from-AgreesWith st steps [] tt

  record_all-keeps :
      (st : State S) (addrs : List Address) (c : Address) (snap : HashMap Address Balance)
      → HashMap.contains_key c snap ≡ true
      → HashMap.contains_key c (record_all st addrs snap) ≡ true
  unfolding record_all
  record_all-keeps st [] c snap h = h
  record_all-keeps st (a ∷ rest) c snap h =
      record_all-keeps st rest c _ (or_insert-keeps a c (balance_of st a) snap h)

  record_all-Covers :
      (st : State S) (addrs : List Address) (snap : HashMap Address Balance)
      → Covers (record_all st addrs snap) addrs
  unfolding record_all
  record_all-Covers st [] snap = tt
  record_all-Covers st (a ∷ rest) snap = (
    record_all-keeps st rest a _ (or_insert-records a (balance_of st a) snap),
    record_all-Covers st rest _,
  )

  snapshot_from-keeps :
      (st : State S) (steps : List BundleStep) (c : Address) (snap : HashMap Address Balance)
      → HashMap.contains_key c snap ≡ true
      → HashMap.contains_key c (snapshot_from st steps snap) ≡ true
  unfolding snapshot_from
  snapshot_from-keeps st [] c snap h = h
  snapshot_from-keeps st (s ∷ steps) c snap h =
      snapshot_from-keeps st steps c _ (record_all-keeps st (recorded s) c snap h)

  snapshot_from-Covers_all :
      (st : State S) (steps : List BundleStep) (addrs : List Address)
      (snap : HashMap Address Balance)
      → Covers snap addrs
      → Covers (snapshot_from st steps snap) addrs
  snapshot_from-Covers_all st steps [] snap h = tt
  snapshot_from-Covers_all st steps (a ∷ rest) snap h =
      (snapshot_from-keeps st steps a snap h.0, snapshot_from-Covers_all st steps rest snap h.1)

  snapshot_from-CoversSteps :
      (st : State S) (steps : List BundleStep) (snap : HashMap Address Balance)
      → CoversSteps (snapshot_from st steps snap) steps
  unfolding snapshot_from
  snapshot_from-CoversSteps st [] snap = tt
  snapshot_from-CoversSteps st (s ∷ steps) snap = (
    snapshot_from-Covers_all st steps (recorded s) _ (record_all-Covers st (recorded s) snap),
    snapshot_from-CoversSteps st steps _,
  )

  pub collect_snapshot-CoversSteps :
      (st : State S) (steps : List BundleStep) → CoversSteps (collect_snapshot st steps) steps
  unfolding collect_snapshot
  collect_snapshot-CoversSteps st steps = snapshot_from-CoversSteps st steps []

  -- Writing a snapshot of `st` back keeps every balance that agrees with `st` ...
  restore_snapshot-agree :
      (st cur : State S) (snap : HashMap Address Balance) (c : Address)
      → AgreesWith st snap
      → balance_of cur c ≡ balance_of st c
      → balance_of (restore_snapshot cur snap) c ≡ balance_of st c
  unfolding restore_snapshot
  restore_snapshot-agree st cur [] c h e = e
  restore_snapshot-agree st cur ((a, v) ∷ snap) c h e =
      restore_snapshot-agree st (apply cur (set_balance a v)) snap c h.1
        (ground (arith, balance_of-set_balance cur a c v, address_beq_iff a c, h.0))

  -- ... and makes every recorded one agree.
  restore_snapshot-recorded :
      (st cur : State S) (snap : HashMap Address Balance) (c : Address)
      → AgreesWith st snap
      → HashMap.contains_key c snap ≡ true
      → balance_of (restore_snapshot cur snap) c ≡ balance_of st c
  unfolding restore_snapshot HashMap.contains_key HashMap.lookup
  restore_snapshot-recorded st cur [] c h k = cc
  restore_snapshot-recorded st cur ((a, v) ∷ snap) c h k = elim (Bool-cases (a == c)) [
    | inl e ↦
        restore_snapshot-agree st (apply cur (set_balance a v)) snap c h.1
          (ground (arith, balance_of-set_balance cur a c v, address_beq_iff a c, h.0))
    | inr e ↦
        restore_snapshot-recorded st (apply cur (set_balance a v)) snap c h.1
          (rw (HashMap.contains_key, e) at k)
  ]

  -- A restored snapshot gives back the balances of `st` if the rest was never changed.
  pub restore_snapshot_lem :
      (st cur : State S) (snap : HashMap Address Balance) (c : Address)
      → AgreesWith st snap
      → (HashMap.contains_key c snap ≡ false → balance_of cur c ≡ balance_of st c)
      → balance_of (restore_snapshot cur snap) c ≡ balance_of st c
  restore_snapshot_lem st cur snap c h rest = elim (Bool-cases (HashMap.contains_key c snap)) [
    | inl k ↦ restore_snapshot-recorded st cur snap c h k
    | inr k ↦ restore_snapshot-agree st cur snap c h (rest k)
  ]

  pub bytes_of-restore_snapshot :
      (cur : State S) (snap : HashMap Address Balance) (c : Address)
      → bytes_of (restore_snapshot cur snap) c ≡ bytes_of cur c
  unfolding restore_snapshot
  bytes_of-restore_snapshot cur [] c = refl
  bytes_of-restore_snapshot cur ((a, v) ∷ snap) c =
      bytes_of-restore_snapshot (apply cur (set_balance a v)) snap c
      ∙ bytes_of-set_balance cur a c v
