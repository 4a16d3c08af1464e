-- ===== src/Tests/Occ.antt =====
-- The versioned store and the block executor at concrete inputs.
use suwappu_db.Occ.Serial.Outcome.{
  execute_with_registry_serializes, execute_submits, loop_serializes,
}
use suwappu_db.Prelude.{
  List, ℕ, ◌≢◌, ◌≤◌, ◌-◌, ◌+◌, ◌^◌, arith, [], ◌∷◌, map, ok, u128_mod, ◌≡◌, refl, some, nat_ord,
}
use suwappu_db.Collections.BTreeMap
use suwappu_db.Collections.HashMap
use suwappu_db.Occ.MvStore
use suwappu_db.Occ.MvStore.{MvStore, visible, write}
use suwappu_db.Occ.MvStore.Versions.{
  new-IsValid, IsValid, below, version_at, visible-eq-below, write-IsValid,
}
use suwappu_db.State.Slot
use suwappu_db.Bridge.Intent.{transfer, amount_overflow}
use suwappu_db.Bridge.Submit.{submit}
use suwappu_db.Bundle.Executor.{canonical_intent}
use suwappu_db.Bundle.Registry
use suwappu_db.Occ.BlockExecutor.{
  execute, sequential, execute_with_registry, start, loop, BlockReport, Run, collapse, consolidate,
  outcome_of,
}
use suwappu_db.Occ.MvStore.{finalise}
use suwappu_db.Occ.MvStore.Versions.{version_at-new}
use suwappu_db.Occ.Sequential.Collapse.{collapse_submits, self_transfer_differs}
use suwappu_db.Occ.Sequential.Reads.{seen, IsFresh, IsFresh-write}
use suwappu_db.Occ.Sequential.Submits.{submit_block}
use suwappu_db.Occ.Sequential.Transfer.{alone}
use suwappu_db.Occ.Txn.{Txn}
use suwappu_db.State.Address.{Address, address_eq, address_beq_iff}
use suwappu_db.State.Canonical.{State, balance_of}
use suwappu_db.State.Move.Tx.{CanonicalTransfer}
use suwappu_db.State.Store.InMemory
use suwappu_db.State.Store.InMemory.{InMemoryBalanceStore, in_memory}
use suwappu_db.Tests.Data.{toy_hash, alice, bob, carol, ledger}

abbrev two_versions : MvStore
two_versions = write (write MvStore.new alice (Slot.new 10) 1) alice (Slot.new 20) 3

two_versions-IsValid : IsValid two_versions
two_versions-IsValid =
    write-IsValid _ alice (Slot.new 20) 3 (write-IsValid _ alice (Slot.new 10) 1 new-IsValid)

reader_sees_the_highest : visible two_versions alice 3 ≡ some (1, Slot.new 10)
unfolding visible write BTreeMap.last_below BTreeMap.insert HashMap.lookup HashMap.insert
reader_sees_the_highest = refl

visible-eq-below_example : visible two_versions alice 3 ≡ below (version_at two_versions alice) 3
visible-eq-below_example = visible-eq-below two_versions alice 3 two_versions-IsValid

alice-ne-bob : alice ≢ bob
alice-ne-bob e = cc ((address_beq_iff alice bob).1 e)

bob-ne-carol : bob ≢ carol
bob-ne-carol e = cc ((address_beq_iff bob carol).1 e)

abbrev pay_bob : CanonicalTransfer
pay_bob = record { from = alice; to = bob; amount = 30 }

abbrev pay_carol : CanonicalTransfer
pay_carol = record { from = bob; to = carol; amount = 60 }

-- Two versions that the parallel iterations left behind.
abbrev stale : Run
stale = record {
  mv = write (write MvStore.new alice (Slot.new 10) 0) bob (Slot.new 20) 1;
  txns = [];
  pending = 1 ∷ [];
  iterations = 1;
  aborts = 1;
  collapsed_hot_addr = some bob;
}

stale-IsFresh : IsFresh stale.mv 2
stale-IsFresh a k l =
    IsFresh-write (write MvStore.new alice (Slot.new 10) 0) bob (Slot.new 20) 1
      (λ c j h.
        IsFresh-write MvStore.new alice (Slot.new 10) 0 (λ d i g. version_at-new d i) c j
          (omega arith))
      a k l

collapse_submits_example :
    (map
        (λ (t : Txn). outcome_of t.rejected)
        (collapse Registry.new ledger (map canonical_intent (pay_bob ∷ pay_carol ∷ [])) stale).txns
      ≡ (submit_block ledger (pay_bob ∷ pay_carol ∷ [])).0)
    × ((a : Address)
        → balance_of
            (consolidate Registry.new ledger ledger (
              finalise
                (collapse Registry.new ledger
                  (map canonical_intent (pay_bob ∷ pay_carol ∷ []))
                  stale).mv))
            a
          ≡ balance_of (submit_block ledger (pay_bob ∷ pay_carol ∷ [])).1 a)
collapse_submits_example =
    collapse_submits Registry.new ledger stale (pay_bob ∷ pay_carol ∷ [])
      (alice-ne-bob, (bob-ne-carol, tt))
      (write-IsValid _ bob (Slot.new 20) 1
        (write-IsValid MvStore.new alice (Slot.new 10) 0 new-IsValid))
      stale-IsFresh

-- Alice holds all that a word can hold.
abbrev rich : State InMemoryBalanceStore
rich = record { store = record { slots = (alice, Slot.new (2 ^ 128 - 1)) ∷ []; bytes = [] } }

rich_covers : 1 ≤ balance_of rich alice
unfolding balance_of InMemory.get HashMap.lookup
rich_covers = omega arith

rich_overflows : u128_mod ≤ balance_of rich alice + 1
unfolding balance_of InMemory.get HashMap.lookup
rich_overflows = omega arith

self_transfer_differs_example :
    (submit rich (transfer alice alice 1) ≡ (rich, ok tt))
    × ((alone rich MvStore.new alice alice 1 0).0.rejected ≡ some amount_overflow)
self_transfer_differs_example = self_transfer_differs rich alice 1 0 rich_covers rich_overflows

-- Both runs of the pass go on in turns, the second first.
abbrev in_turns : ℕ → List ℕ
in_turns iteration = 1 ∷ 0 ∷ 1 ∷ 0 ∷ []

loop_serializes_example :
    (last : Run) × (loop Registry.new ledger 2
        (map canonical_intent (pay_bob ∷ pay_carol ∷ []))
        in_turns
        (start Registry.new ledger (map canonical_intent (pay_bob ∷ pay_carol ∷ [])))
      ≡ some last)
    × (last.txns
        ≡ (sequential Registry.new ledger 0
            (map canonical_intent (pay_bob ∷ pay_carol ∷ []))
            MvStore.new).0)
    × ((a : Address) (k : ℕ)
        → version_at last.mv a k
          ≡ version_at
              (sequential Registry.new ledger 0
                (map canonical_intent (pay_bob ∷ pay_carol ∷ []))
                MvStore.new).1
              a
              k)
loop_serializes_example =
    loop_serializes Registry.new ledger 2 (map canonical_intent (pay_bob ∷ pay_carol ∷ [])) in_turns
      (omega arith)

execute_with_registry_serializes_example :
    (final : State InMemoryBalanceStore) × (report : BlockReport) × (execute_with_registry
        Registry.new ledger toy_hash in_turns
        (map canonical_intent (pay_bob ∷ pay_carol ∷ []))
      ≡ some (final, report))
    × (report.outcomes
        ≡ map
            (λ (t : Txn). outcome_of t.rejected)
            (sequential Registry.new ledger 0
              (map canonical_intent (pay_bob ∷ pay_carol ∷ []))
              MvStore.new).0)
    × ((a : Address)
        → balance_of final a
          ≡ (seen ledger
              (sequential Registry.new ledger 0
                (map canonical_intent (pay_bob ∷ pay_carol ∷ []))
                MvStore.new).1
              a
              2).canonical)
execute_with_registry_serializes_example =
    execute_with_registry_serializes Registry.new ledger toy_hash in_turns
      (map canonical_intent (pay_bob ∷ pay_carol ∷ []))

execute_submits_example :
    (final : State InMemoryBalanceStore) × (report : BlockReport) × (execute toy_hash in_turns
        ledger
        (map canonical_intent (pay_bob ∷ pay_carol ∷ []))
      ≡ some (final, report))
    × (report.outcomes ≡ (submit_block ledger (pay_bob ∷ pay_carol ∷ [])).0)
    × ((a : Address)
        → balance_of final a ≡ balance_of (submit_block ledger (pay_bob ∷ pay_carol ∷ [])).1 a)
execute_submits_example =
    execute_submits ledger toy_hash in_turns (pay_bob ∷ pay_carol ∷ [])
      (alice-ne-bob, (bob-ne-carol, tt))
