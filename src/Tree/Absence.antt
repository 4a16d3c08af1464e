-- ===== src/Tree/Absence.antt =====
-- `StateTree::verify` and absence. The verifier does not ask that the last step of an absence proof
-- leaves the byte of the address out of its siblings.
use suwappu_db.Tree.Reads.{get_path-empty}
use suwappu_db.Prelude.{ℕ, ◌≡◌, List, [], ◌∷◌, none, some, true, length, arith, refl}
use suwappu_db.State.Address.{Address, IsEvmShaped}
use suwappu_db.State.Slot.{BalanceSlot}
use suwappu_db.Tree.Commit.{Blake3, commit_node, commitments}
use suwappu_db.Tree.Completeness.{verify_folded}
use suwappu_db.Tree.Node.{Node, empty, leaf, internal, Children}
use suwappu_db.Tree.Ops.{
  StateTree, from_entries, get, root, Proof, ProofStep, verify, promoted, path_matches, reconstruct,
}
use suwappu_db.Tree.Shape.{from_entries-IsShaped, IsEmptyOrShaped, AllEvmShaped}

abbrev first_byte : List ℕ → ℕ
first_byte [] = 0
first_byte (b ∷ bs) = b

module _ (h : Blake3) where
  -- One step at the root, with the commitments of all its children as the siblings.
  forged_step : StateTree → Address → ProofStep
  forged_step tree addr = record {
    byte = first_byte addr.bytes;
    siblings = commitments h (promoted tree.root_node);
  }

  pub forged_absence : StateTree → Address → Proof
  unfolding forged_step
  forged_absence tree addr = record { path = forged_step tree addr ∷ []; slot = none }

  spells_first :
      (step : ProofStep) (bytes : List ℕ)
      → length bytes ≡ 20
      → step.byte ≡ first_byte bytes
      → path_matches (step ∷ []) bytes ≡ true
  unfolding path_matches
  spells_first step [] e q = absurd (omega arith)
  spells_first step (b ∷ bs) e q = ground arith

  forged_internal :
      (children : Children) (addr : Address)
      → IsEvmShaped addr
      → verify h
          (commit_node h (internal children))
          addr
          none
          (forged_absence (record { root_node = internal children }) addr)
        ≡ true
  unfolding forged_absence
  forged_internal children addr e =
      verify_folded h (commit_node h (internal children)) addr none
        (record { byte = first_byte addr.bytes; siblings = commitments h children }) []
        (spells_first (record { byte = first_byte addr.bytes; siblings = commitments h children })
          addr.bytes e refl)
        (λ q. ground arith) (unfold reconstruct commit_node in refl)

  forged_node :
      (node : Node) (addr : Address) (slot : BalanceSlot)
      → IsEvmShaped addr
      → IsEmptyOrShaped 20 node
      → get (record { root_node = node }) addr ≡ some slot
      → verify h
          (root h (record { root_node = node }))
          addr
          none
          (forged_absence (record { root_node = node }) addr)
        ≡ true
  unfolding root get
  forged_node empty addr slot e s held = cc (get_path-empty addr.bytes)
  forged_node (leaf t) addr slot e s held = absurd s
  forged_node (internal children) addr slot e s held = forged_internal children addr e

  -- Absence proofs do not establish absence. For every address that a built tree holds, a proof can
  -- be made, from the commitments of the children of the root alone, that `verify` accepts for the
  -- absence of that address.
  pub verify-forged_absence :
      (entries : List (Address × BalanceSlot)) (addr : Address) (slot : BalanceSlot)
      → AllEvmShaped entries
      → IsEvmShaped addr
      → get (from_entries entries) addr ≡ some slot
      → verify h
          (root h (from_entries entries))
          addr
          none
          (forged_absence (from_entries entries) addr)
        ≡ true
  verify-forged_absence entries addr slot a e held =
      forged_node (from_entries entries).root_node addr slot e (from_entries-IsShaped entries a)
        held
