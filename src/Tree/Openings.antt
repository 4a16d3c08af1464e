-- ===== src/Tree/Openings.antt =====
-- What the commitment of a node determines of the node, up to a collision of the hash function: the
-- tags of crates/suwappudb-state/src/tree/commit.rs keep the three kinds of node apart.
use suwappu_db.Prelude.{
  Option-cases, All, get_elem?, Bool, ◌≢◌, ℕ, ◌≡◌, ◌⊎◌, inl, inr, refl, sym, ap, ◌∙◌, List, [], ◌∷◌,
  length, Option, some, true, false, Bool-cases, arith, nat_beq, nat_ord,
}
use suwappu_db.Collections.BTreeMap
use suwappu_db.Collections.BTreeMap.{BTreeMap}
use suwappu_db.State.Slot.{BalanceSlot, slot_eq}
use suwappu_db.Tree.Commit.{
  Blake3, Commitment, commitment_eq, be_bytes, hash, tag_leaf, tag_internal, commit_node,
  commitments, internal_commitment, empty_commitment,
}
use suwappu_db.Tree.Node.{Node, Children, empty, leaf, internal, nil, cons, get_child}
use suwappu_db.State.Address.{Address}
use suwappu_db.Tree.Ops.{StateTree, proof, get_path}
use suwappu_db.Tree.Ops.{ProofStep, siblings_of, collect_proof}
use suwappu_db.Tree.Preimages.{Collision, preimage, append-injective, HasLength, chunks-injective}

-- The byte in which the three tags differ.
abbrev mark : List ℕ → Option ℕ
mark bytes = get_elem? bytes 15

abbrev same_mark : Option ℕ → Option ℕ → Bool
same_mark (some i) (some j) = nat_beq i j
same_mark _ _ = true

apart : (xs ys : List ℕ) → same_mark (mark xs) (mark ys) ≡ false → xs ≢ ys
apart xs ys h e = let same = ap mark e in ground (arith, h, same)

insert-HasLength :
    (n byte : ℕ) (c : Commitment) (m : BTreeMap ℕ Commitment)
    → length c.bytes ≡ n
    → HasLength n m
    → HasLength n (BTreeMap.insert byte c m)
unfolding BTreeMap.insert
insert-HasLength n byte c [] h a = (h, tt)
insert-HasLength n byte c ((k, d) ∷ m) h a = ground (arith, h, a, insert-HasLength n byte c m h)

lookup-insert_self :
    (byte : ℕ) (c : Commitment) (m : BTreeMap ℕ Commitment)
    → BTreeMap.lookup byte (BTreeMap.insert byte c m) ≡ some c
lookup-insert_self byte c m = ground (arith, BTreeMap.lookup-insert byte byte c m)

module _ (h : Blake3) where
  pub length-commit_node : (node : Node) → length (commit_node h node).bytes ≡ 32
  unfolding commit_node hash empty_commitment internal_commitment
  length-commit_node empty = h.length-digest _
  length-commit_node (leaf slot) = h.length-digest _
  length-commit_node (internal children) = h.length-digest _

  commitments-HasLength : (children : Children) → HasLength 32 (commitments h children)
  unfolding commit_node
  commitments-HasLength nil = tt
  commitments-HasLength (cons k node rest) = (length-commit_node node, commitments-HasLength rest)

  -- The child whose commitment stands at a byte.
  child_of_lookup :
      (byte : ℕ) (children : Children) (c : Commitment)
      → BTreeMap.lookup byte (commitments h children) ≡ some c
      → (child : Node) × (get_child byte children ≡ some child) × (commit_node h child ≡ c)
  unfolding commit_node BTreeMap.lookup get_child
  child_of_lookup byte nil c e = cc
  child_of_lookup byte (cons k node rest) c e = elim (Bool-cases (nat_beq k byte)) [
    | inl same ↦ rw same (node, refl, ground (arith, e, same))
    | inr differ ↦ rw differ (child_of_lookup byte rest c (ground (arith, e, differ)))
  ]

  -- The node holds a slot at the bytes, with the committed amount.
  abbrev pub Holds : Node → List ℕ → BalanceSlot → Type 0
  Holds node bytes slot =
      (t : BalanceSlot) × (get_path node bytes ≡ some t)
      × (be_bytes 16 slot.canonical ≡ be_bytes 16 t.canonical)

  pub leaf_Holds :
      (node : Node) (slot : BalanceSlot)
      → commit_node h (leaf slot) ≡ commit_node h node
      → Collision h ⊎ Holds node [] slot
  unfolding commit_node hash empty_commitment internal_commitment get_path
  leaf_Holds empty slot e = elim (preimage h _ _ (ap (λ c. c.bytes) e)) [
    | inl x ↦ inl x
    | inr same ↦ elim (apart _ _ refl same) [ ]
  ]
  leaf_Holds (leaf t) slot e = elim (preimage h _ _ (ap (λ c. c.bytes) e)) [
    | inl x ↦ inl x
    | inr same ↦ inr (t, refl, (append-injective tag_leaf _ tag_leaf _ refl same).1)
  ]
  leaf_Holds (internal children) slot e = elim (preimage h _ _ (ap (λ c. c.bytes) e)) [
    | inl x ↦ inl x
    | inr same ↦ elim (apart _ _ refl same) [ ]
  ]

  -- The child that an internal commitment has at a byte.
  pub child_of_fold :
      (node : Node) (byte : ℕ) (c : Commitment) (siblings : BTreeMap ℕ Commitment)
      → length c.bytes ≡ 32
      → HasLength 32 siblings
      → internal_commitment h (BTreeMap.insert byte c siblings) ≡ commit_node h node
      → Collision h
        ⊎ ((children : Children) × (child : Node) × (node ≡ internal children)
            × (get_child byte children ≡ some child)
            × (commit_node h child ≡ c))
  unfolding commit_node hash empty_commitment internal_commitment
  child_of_fold empty byte c siblings l a e = elim (preimage h _ _ (ap (λ c. c.bytes) e)) [
    | inl x ↦ inl x
    | inr same ↦ elim (apart _ _ refl same) [ ]
  ]
  child_of_fold (leaf t) byte c siblings l a e = elim (preimage h _ _ (ap (λ c. c.bytes) e)) [
    | inl x ↦ inl x
    | inr same ↦ elim (apart _ _ refl same) [ ]
  ]
  child_of_fold (internal children) byte c siblings l a e =
      elim (preimage h _ _ (ap (λ c. c.bytes) e)) [
        | inl x ↦ inl x
        | inr same ↦
            let fed = (append-injective tag_internal _ tag_internal _ refl same).1 in
            let entries =
              chunks-injective 32 _ (commitments h children)
                (insert-HasLength 32 byte c siblings l a) (commitments-HasLength children) fed in
            let found = child_of_lookup byte children c (
              ap (λ m. BTreeMap.lookup byte m) (sym entries)
              ∙ lookup-insert_self byte c siblings) in
            inr (children, found.0, refl, found.1, found.2)
      ]

  siblings_of-HasLength :
      (byte : ℕ) (children : Children) → HasLength 32 (siblings_of h byte children)
  unfolding siblings_of
  siblings_of-HasLength byte nil = tt
  siblings_of-HasLength byte (cons k child rest) =
      ground (arith, length-commit_node child, siblings_of-HasLength byte rest)

  collect_proof-HasLength :
      (node : Node) (bytes : List ℕ)
      → All (λ (s : ProofStep). HasLength 32 s.siblings) (collect_proof h node bytes).0
  unfolding collect_proof
  collect_proof-HasLength node [] = tt
  collect_proof-HasLength empty (byte ∷ bytes) = tt
  collect_proof-HasLength (leaf slot) (byte ∷ bytes) = tt
  collect_proof-HasLength (internal children) (byte ∷ bytes) =
      elim (Option-cases (get_child byte children)) [
        | inl e ↦ rw (e, collect_proof) (siblings_of-HasLength byte children, tt)
        | inr (child, e) ↦
            rw (e, collect_proof)
              (siblings_of-HasLength byte children, collect_proof-HasLength child bytes)
      ]

  pub proof-HasLength :
      (tree : StateTree) (addr : Address)
      → All (λ (s : ProofStep). HasLength 32 s.siblings) (proof h tree addr).path
  unfolding proof
  proof-HasLength tree addr = collect_proof-HasLength tree.root_node addr.bytes
