-- ===== src/Tests/Tree.antt =====
-- The tree properties at a tree of two addresses.
use suwappu_db.Prelude.{
  ◌⊎◌, subst, sym, ap, ◌∙◌, arith, ◌≡◌, refl, none, some, true, if◌then◌else◌, ◌==◌,
}
use suwappu_db.Collections.HashMap
use suwappu_db.State.Address.{address_eq}
use suwappu_db.State.Slot
use suwappu_db.State.Slot.{IsU128, BalanceSlot}
use suwappu_db.Tree.Absence.{forged_absence, verify-forged_absence}
use suwappu_db.Tree.Completeness.{verify-proof}
use suwappu_db.Tree.FromState.{get-from_entries}
use suwappu_db.Tree.Inclusion.{verify_included}
use suwappu_db.Tree.Openings.{proof-HasLength}
use suwappu_db.Tree.Preimages.{Collision}
use suwappu_db.Tree.Node.{get_child, put_child}
use suwappu_db.Tree.Ops.{
  from_entries, get, get_path, update, update_path, update_all, root, proof, verify,
}
use suwappu_db.Tree.Reads.{get-update}
use suwappu_db.Tests.Data.{alice, bob, carol, ledger_entries, toy_hash}

slot_of_some : (s t : BalanceSlot) → some s ≡ some t → s ≡ t
slot_of_some s t e = ap (λ o. HashMap.or_else o s) e

alice_held : get (from_entries ledger_entries) alice ≡ some (Slot.new 100)
unfolding get get_path from_entries update_all update update_path get_child put_child
alice_held = refl

get-update_example :
    get (update (from_entries ledger_entries) carol (Slot.new 5)) alice
    ≡ (if carol == alice then some (Slot.new 5) else get (from_entries ledger_entries) alice)
get-update_example = get-update (from_entries ledger_entries) carol alice (Slot.new 5) refl refl

get-from_entries_example : get (from_entries ledger_entries) bob ≡ HashMap.lookup bob ledger_entries
unfolding HashMap.lookup
get-from_entries_example =
    get-from_entries ledger_entries bob (refl, (refl, tt)) (refl, (refl, tt)) refl

verify-proof_example :
    verify toy_hash
      (root toy_hash (from_entries ledger_entries))
      alice
      (get (from_entries ledger_entries) alice)
      (proof toy_hash (from_entries ledger_entries) alice)
    ≡ true
verify-proof_example = verify-proof toy_hash ledger_entries alice (refl, (refl, tt)) refl

-- Alice's hundred can be denied.
verify-forged_absence_example :
    verify toy_hash
      (root toy_hash (from_entries ledger_entries))
      alice
      none
      (forged_absence toy_hash (from_entries ledger_entries) alice)
    ≡ true
verify-forged_absence_example =
    verify-forged_absence toy_hash ledger_entries alice (Slot.new 100) (refl, (refl, tt)) refl
      alice_held

alice_fits : (t : BalanceSlot) → get (from_entries ledger_entries) alice ≡ some t → IsU128 t
alice_fits t e = subst IsU128 (slot_of_some _ t (sym alice_held ∙ e)) (omega arith)

verify_included_example :
    Collision toy_hash
    ⊎ ((t : BalanceSlot) × (get (from_entries ledger_entries) alice ≡ some t) × (t.canonical ≡ 100))
verify_included_example =
    verify_included toy_hash (from_entries ledger_entries) alice (Slot.new 100)
      (proof toy_hash (from_entries ledger_entries) alice) (omega arith) alice_fits
      (proof-HasLength toy_hash (from_entries ledger_entries) alice)
      (ap
          (λ o.
            verify toy_hash (root toy_hash (from_entries ledger_entries)) alice o
              (proof toy_hash (from_entries ledger_entries) alice))
          (sym alice_held)
        ∙ verify-proof toy_hash ledger_entries alice (refl, (refl, tt)) refl)
