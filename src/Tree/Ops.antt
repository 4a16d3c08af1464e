-- ===== src/Tree/Ops.antt =====
-- `StateTree` of crates/suwappudb-state/src/tree/ops.rs. The source walks `addr_bytes` by a depth;
-- here the functions take the bytes that are left at that depth.
use suwappu_db.Prelude.{
  ℕ, List, [], ◌∷◌, Option, none, some, Bool, true, false, not, ◌&&◌, if◌then◌else◌, nat_beq,
  length, ◌==◌, nat_eq, nat_ord,
}
use suwappu_db.Collections.BTreeMap
use suwappu_db.Collections.BTreeMap.{BTreeMap}
use suwappu_db.State.Address.{Address}
use suwappu_db.State.Canonical
use suwappu_db.State.Canonical.{State}
use suwappu_db.State.Slot.{BalanceSlot, slot_eq}
use suwappu_db.State.Store.Interface.{BalanceStore}
use suwappu_db.Tree.Commit.{
  Blake3, Commitment, commitment_eq, commit_node, empty_commitment, internal_commitment,
}
use suwappu_db.Tree.Node.{Node, empty, leaf, internal, Children, nil, cons, get_child, put_child}

pub record StateTree : Type 0 where
  pub root_node : Node

abbrev pub new : StateTree
new = record { root_node = empty }

-- A node that is not internal is replaced by an internal node without children.
abbrev pub promoted : Node → Children
promoted (internal children) = children
promoted empty = nil
promoted (leaf slot) = nil

-- The entry of the byte, inserted empty if it is missing.
abbrev pub or_empty : Option Node → Node
or_empty none = empty
or_empty (some node) = node

unfoldable pub update_path : Node → List ℕ → BalanceSlot → Node
update_path node [] slot = leaf slot
update_path node (byte ∷ rest) slot =
    let children = promoted node in
    internal (put_child byte (update_path (or_empty (get_child byte children)) rest slot) children)

abbrev pub slot_of_leaf : Node → Option BalanceSlot
slot_of_leaf (leaf slot) = some slot
slot_of_leaf empty = none
slot_of_leaf (internal children) = none

-- The child behind a byte, if the node is internal and has it.
abbrev pub child_at : Node → ℕ → Option Node
child_at (internal children) byte = get_child byte children
child_at empty byte = none
child_at (leaf slot) byte = none

unfoldable pub get_path : Node → List ℕ → Option BalanceSlot
get_path node [] = slot_of_leaf node
get_path node (byte ∷ rest) = elim (child_at node byte) [
  | none ↦ none
  | some child ↦ get_path child rest
]

unfoldable pub update : StateTree → Address → BalanceSlot → StateTree
update tree addr slot = record { root_node = update_path tree.root_node addr.bytes slot }

unfoldable pub get : StateTree → Address → Option BalanceSlot
get tree addr = get_path tree.root_node addr.bytes

unfoldable pub update_all : StateTree → List (Address × BalanceSlot) → StateTree
update_all tree [] = tree
update_all tree ((addr, slot) ∷ entries) = update_all (update tree addr slot) entries

unfoldable pub from_entries : List (Address × BalanceSlot) → StateTree
unfolding update_all
from_entries entries = update_all new entries

unfoldable pub from_state : {S : Type 0} ⦃b : BalanceStore S⦄ → State S → StateTree
from_state st = from_entries (Canonical.entries st)

pub record ProofStep : Type 0 where
  pub byte : ℕ
  pub siblings : BTreeMap ℕ Commitment

pub record Proof : Type 0 where
  pub path : List ProofStep
  pub slot : Option BalanceSlot

-- The bytes of the path against the address, a path that is too long included.
unfoldable pub path_matches : List ProofStep → List ℕ → Bool
path_matches [] bytes = true
path_matches (step ∷ steps) [] = false
path_matches (step ∷ steps) (byte ∷ bytes) = nat_beq step.byte byte && path_matches steps bytes

abbrev pub same_slot : Option BalanceSlot → Option BalanceSlot → Bool
same_slot none none = true
same_slot (some a) (some b) = a == b
same_slot _ _ = false

abbrev pub equals_root : Option Commitment → Commitment → Bool
equals_root none r = false
equals_root (some c) r = c == r

abbrev pub is_some : Option BalanceSlot → Bool
is_some none = false
is_some (some slot) = true

module _ (h : Blake3) where
  unfoldable pub root : StateTree → Commitment
  root tree = commit_node h tree.root_node

  -- The commitments of all children but the one of the byte, in key order.
  unfoldable pub siblings_of : ℕ → Children → BTreeMap ℕ Commitment
  siblings_of byte nil = []
  siblings_of byte (cons k child rest) =
      let others = siblings_of byte rest in
      if nat_beq k byte then others else (k, commit_node h child) ∷ others

  -- The steps that are pushed at a node, and the slot that is found.
  unfoldable pub collect_proof : Node → List ℕ → List ProofStep × Option BalanceSlot
  collect_proof node [] = ([], slot_of_leaf node)
  collect_proof empty (byte ∷ rest) = ([], none)
  collect_proof (leaf slot) (byte ∷ rest) = ([], none)
  collect_proof (internal children) (byte ∷ rest) =
      let step : ProofStep = record { byte = byte; siblings = siblings_of byte children } in
      elim (get_child byte children) [
        | none ↦ (step ∷ [], none)
        | some child ↦ let (steps, slot) = collect_proof child rest in (step ∷ steps, slot)
      ]

  unfoldable pub proof : StateTree → Address → Proof
  proof tree addr =
      let (path, slot) = collect_proof tree.root_node addr.bytes in
      record { path = path; slot = slot }

  -- `combined.insert(step.byte, c)` if there is a commitment from below, and the hash of the result.
  unfoldable pub fold_step : Option Commitment → ProofStep → Commitment
  fold_step none step = internal_commitment h step.siblings
  fold_step (some c) step = internal_commitment h (BTreeMap.insert step.byte c step.siblings)

  -- The loop `for step in proof.path.iter().rev()`: the last step is folded first.
  unfoldable pub reconstruct : List ProofStep → Option Commitment → Option Commitment
  unfolding fold_step
  reconstruct [] current = current
  reconstruct (step ∷ steps) current = some (fold_step (reconstruct steps current) step)

  abbrev pub leaf_commitment : Option BalanceSlot → Option Commitment
  leaf_commitment none = none
  leaf_commitment (some slot) = some (commit_node h (leaf slot))

  verify_path : Commitment → Option BalanceSlot → List ProofStep → Bool
  verify_path r none [] = r == empty_commitment h
  verify_path r (some slot) [] = false
  verify_path r slot (step ∷ steps) =
      equals_root (reconstruct (step ∷ steps) (leaf_commitment slot)) r

  -- `StateTree::verify`, its early returns in order.
  unfoldable pub verify : Commitment → Address → Option BalanceSlot → Proof → Bool
  unfolding path_matches verify_path reconstruct
  verify r addr slot_opt p =
      if not (same_slot p.slot slot_opt)
      then false
      else if not (path_matches p.path addr.bytes)
      then false
      else if is_some p.slot && not (nat_beq (length p.path) (length addr.bytes))
      then false
      else verify_path r p.slot p.path
