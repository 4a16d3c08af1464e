-- ===== src/Tree/Inclusion.antt =====
-- Soundness of inclusion proofs: `StateTree::verify` of crates/suwappudb-state/src/tree/ops.rs
-- accepts a slot for an address only if the tree holds its balance, or a collision of the hash
-- function is at hand.
use suwappu_db.Prelude.{
  ℕ, ◌≡◌, ◌⊎◌, inl, inr, refl, sym, ap, ◌∙◌, List, [], ◌∷◌, length, Option, none, some, true, arith,
  nat_ord, All,
}
use suwappu_db.Collections.BTreeMap
use suwappu_db.Collections.HashMap.{or_else}
use suwappu_db.Collections.BTreeMap.{BTreeMap}
use suwappu_db.State.Address.{Address}
use suwappu_db.State.Slot.{IsU128, BalanceSlot, slot_eq, slot_beq_iff}
use suwappu_db.Tree.Commit.{
  Blake3, Commitment, commitment_eq, commitment_beq_iff, hash, commit_node, internal_commitment,
}
use suwappu_db.Tree.Node.{Node, Children, leaf, internal, get_child}
use suwappu_db.Tree.Ops.{
  Proof, StateTree, get, root, ProofStep, path_matches, reconstruct, fold_step, verify, get_path,
}
use suwappu_db.Tree.Openings.{Holds, leaf_Holds, child_of_fold, length-commit_node}
use suwappu_db.Tree.Preimages.{be_bytes-injective, Collision, HasLength}

same_commitment : (x y : Commitment) → some x ≡ some y → x ≡ y
same_commitment x y e = ap (λ o. or_else o x) e

module _ (h : Blake3) where
  reconstruct_lem :
      (steps : List ProofStep) (c : Commitment)
      → length c.bytes ≡ 32
      → (d : Commitment) × (reconstruct h steps (some c) ≡ some d) × (length d.bytes ≡ 32)
  unfolding reconstruct internal_commitment hash
  reconstruct_lem [] c l = (c, refl, l)
  reconstruct_lem (step ∷ steps) c l =
      let below = reconstruct_lem steps c l in rw (below.1) (_, refl, h.length-digest _)

  nothing-folded : (c : Commitment) → some c ≡ reconstruct h [] (some c)
  unfolding reconstruct
  nothing-folded c = refl

  fold-eq :
      (step : ProofStep) (steps : List ProofStep) (c d e : Commitment)
      → reconstruct h steps (some c) ≡ some d
      → reconstruct h (step ∷ steps) (some c) ≡ some e
      → internal_commitment h (BTreeMap.insert step.byte d step.siblings) ≡ e
  unfolding reconstruct
  fold-eq step steps c d e below whole =
      same_commitment _ e (ap (λ o. some (fold_step h o step)) (sym below) ∙ whole)

  get_path-internal :
      (children : Children) (byte : ℕ) (bytes : List ℕ) (child : Node)
      → get_child byte children ≡ some child
      → get_path (internal children) (byte ∷ bytes) ≡ get_path child bytes
  unfolding get_path
  get_path-internal children byte bytes child e = rw (e, get_path) refl

  reconstruct-Holds :
      (steps : List ProofStep) (bytes : List ℕ) (node : Node) (slot : BalanceSlot)
      → path_matches steps bytes ≡ true
      → length steps ≡ length bytes
      → All (λ (s : ProofStep). HasLength 32 s.siblings) steps
      → reconstruct h steps (some (commit_node h (leaf slot))) ≡ some (commit_node h node)
      → Collision h ⊎ Holds h node bytes slot
  unfolding path_matches
  reconstruct-Holds [] [] node slot m l a e =
      leaf_Holds h node slot (same_commitment _ _ (nothing-folded (commit_node h (leaf slot)) ∙ e))
  reconstruct-Holds [] (byte ∷ bytes) node slot m l a e = ground (arith, l)
  reconstruct-Holds (step ∷ steps) [] node slot m l a e = ground (arith, l)
  reconstruct-Holds (step ∷ steps) (byte ∷ bytes) node slot m l a e =
      let below =
        reconstruct_lem steps (commit_node h (leaf slot)) (length-commit_node h (leaf slot)) in
      let same : step.byte ≡ byte = ground (arith, m) in
      let matches : path_matches steps bytes ≡ true = ground (arith, m) in
      elim (child_of_fold h node step.byte below.0 step.siblings below.2 a.0
        (fold-eq step steps _ below.0 _ below.1 e)) [
          | inl x ↦ inl x
          | inr (children, child, inside, got, commits) ↦
              elim (reconstruct-Holds steps bytes child slot matches (omega (arith, l)) a.1
                (below.1 ∙ ap some (sym commits))) [
                  | inl x ↦ inl x
                  | inr (t, reads, amount) ↦ inr (
                    t,
                    ap (λ n. get_path n (byte ∷ bytes)) inside
                        ∙ get_path-internal children byte bytes child
                            (ap (λ i. get_child i children) (sym same) ∙ got)
                        ∙ reads,
                    amount,
                  )
                ]
        ]

  accepted_parts :
      (r : Commitment) (addr : Address) (slot : BalanceSlot) (path : List ProofStep)
      (found : Option BalanceSlot)
      → verify h r addr (some slot) (record { path = path; slot = found }) ≡ true
      → (path_matches path addr.bytes ≡ true)
        × (length path ≡ length addr.bytes)
        × (reconstruct h path (some (commit_node h (leaf slot))) ≡ some r)
  unfolding verify
  accepted_parts r addr slot path none e = cc
  accepted_parts r addr slot [] (some s) e = ground (arith, e)
  accepted_parts r addr slot (step ∷ steps) (some s) e =
      let c = fold_step h (reconstruct h steps (some (commit_node h (leaf s)))) step in
      ground (arith, e, slot_beq_iff s slot, commitment_beq_iff c r)

  -- An accepted inclusion proof is right. If a proof whose sibling commitments have 32 bytes is
  -- accepted against the root of a tree for a slot at an address, and the amounts of that slot and of
  -- what the tree reads there are words of 128 bits, then two inputs with one digest are at hand, or
  -- the tree reads a slot with the same amount there.
  pub verify_included :
      (tree : StateTree) (addr : Address) (slot : BalanceSlot) (p : Proof)
      → IsU128 slot
      → ((t : BalanceSlot) → get tree addr ≡ some t → IsU128 t)
      → All (λ (s : ProofStep). HasLength 32 s.siblings) p.path
      → verify h (root h tree) addr (some slot) p ≡ true
      → Collision h
        ⊎ ((t : BalanceSlot) × (get tree addr ≡ some t) × (t.canonical ≡ slot.canonical))
  unfolding root get
  verify_included tree addr slot p fits held lengths accepted =
      let parts = accepted_parts (root h tree) addr slot p.path p.slot accepted in
      elim (reconstruct-Holds p.path addr.bytes tree.root_node slot parts.0 parts.1 lengths
        parts.2) [
          | inl x ↦ inl x
          | inr (t, reads, bytes) ↦ inr (
            t,
            reads,
            sym (
                be_bytes-injective 16 slot.canonical t.canonical (omega arith)
                  (omega (arith, held t reads)) bytes),
          )
        ]
