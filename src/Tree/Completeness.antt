-- ===== src/Tree/Completeness.antt =====
-- Every proof that `StateTree::proof` produces is accepted by `StateTree::verify`.
use suwappu_db.Tree.Reads.{from_entries-IsSorted}
use suwappu_db.State.Address.{IsEvmShaped, Address}
use suwappu_db.Collections.BTreeMap.{BTreeMap}
use suwappu_db.Prelude.{
  ◌≢◌, inr, inl, Option-cases, subst, ℕ_discrete, ◌<◌, nat_ord, ◌≤◌, ℕ, zero, suc, ◌≡◌, List, [],
  ◌∷◌, Option, none, some, true, length, arith, refl,
}
use suwappu_db.Collections.BTreeMap
use suwappu_db.State.Slot.{slot_beq_iff, BalanceSlot, slot_eq}
use suwappu_db.Tree.Commit.{
  empty_commitment, commitment_beq_iff, Blake3, Commitment, commitment_eq, commit_node, commitments,
}
use suwappu_db.Tree.Node.{
  Node, empty, leaf, internal, Children, nil, cons, get_child, Above, IsSorted, AreSorted,
  get_child-IsSorted,
}
use suwappu_db.Tree.Ops.{
  from_entries, get, proof, same_slot, verify, root, is_some, get_path, ProofStep, collect_proof,
  siblings_of, reconstruct, path_matches, leaf_commitment,
}
use suwappu_db.Tree.Shape.{
  from_entries-IsShaped, AllEvmShaped, IsEmptyOrShaped, IsShaped, get_child-IsShaped,
}

insert_later :
    (byte : ℕ) (c : Commitment) (k : ℕ) (x : Commitment) (m : BTreeMap ℕ Commitment)
    → k < byte
    → BTreeMap.insert byte c ((k, x) ∷ m) ≡ (k, x) ∷ BTreeMap.insert byte c m
unfolding BTreeMap.insert
insert_later byte c k x m h = ground arith

module _ (h : Blake3) where
  get_child-Above :
      (byte low : ℕ) (children : Children)
      → Above low children
      → byte ≤ low
      → get_child byte children ≡ none
  unfolding get_child
  get_child-Above byte low nil a l = refl
  get_child-Above byte low (cons k node rest) a l = ground (arith, get_child-Above byte low rest)

  lt_of_found :
      (byte low : ℕ) (children : Children) (child : Node)
      → Above low children
      → get_child byte children ≡ some child
      → low < byte
  unfolding get_child
  lt_of_found byte low nil child a e = cc
  lt_of_found byte low (cons k node rest) child a e =
      ground (arith, lt_of_found byte low rest child)

  -- Without a child behind the byte the siblings are all the children.
  siblings-missing :
      (byte : ℕ) (children : Children)
      → get_child byte children ≡ none
      → siblings_of h byte children ≡ commitments h children
  unfolding get_child siblings_of commit_node
  siblings-missing byte nil e = refl
  siblings-missing byte (cons k node rest) e = ground (arith, siblings-missing byte rest)

  insert_first :
      (byte : ℕ) (c : Commitment) (children : Children)
      → Above byte children
      → BTreeMap.insert byte c (commitments h children) ≡ (byte, c) ∷ commitments h children
  unfolding BTreeMap.insert commit_node
  insert_first byte c nil a = refl
  insert_first byte c (cons k node rest) a = ground arith

  -- Put back among its siblings, the commitment of the child gives all the children.
  insert-siblings :
      (byte : ℕ) (children : Children) (child : Node)
      → AreSorted children
      → get_child byte children ≡ some child
      → BTreeMap.insert byte (commit_node h child) (siblings_of h byte children)
        ≡ commitments h children
  unfolding get_child siblings_of commit_node
  insert-siblings byte nil child s e = cc
  insert-siblings byte (cons k node rest) child s e = elim (ℕ_discrete k byte) [
    | yes same ↦
        let gone : get_child byte rest ≡ none = get_child-Above byte k rest s.0 (omega arith) in
        let others = siblings-missing byte rest gone in
        let above : Above byte rest = subst (λ x. Above x rest) same s.0 in
        let first = insert_first byte (commit_node h child) rest above in
        ground (arith, others, first)
    | no other ↦
        let deeper : get_child byte rest ≡ some child = ground arith in
        let over : k < byte = lt_of_found byte k rest child s.0 deeper in
        let rec = insert-siblings byte rest child s.2 deeper in
        let later =
          insert_later byte (commit_node h child) k (commit_node h node) (siblings_of h byte rest)
            over in
        ground (arith, rec, later)
  ]

  -- The steps and the slot of a proof, at a node of the shape: the slot is the one that a read finds,
  -- the steps spell the bytes, they reach the leaf if there is a slot, and they fold to the
  -- commitment of the node.
  record IsComplete (node : Node) (bytes : List ℕ) (p : List ProofStep × Option BalanceSlot)
      : Type 0 where
    reads : p.1 ≡ get_path node bytes
    spells : path_matches p.0 bytes ≡ true
    reaches : is_some p.1 ≡ true → length p.0 ≡ length bytes
    folds : reconstruct h p.0 (leaf_commitment h p.1) ≡ some (commit_node h node)

  leaf_IsComplete :
      (slot : BalanceSlot) → IsComplete (leaf slot) [] (collect_proof h (leaf slot) [])
  unfolding collect_proof get_path path_matches reconstruct
  leaf_IsComplete slot = record { reads = refl; spells = refl; reaches = λ e. refl; folds = refl }

  missing_IsComplete :
      (children : Children) (b : ℕ) (bs : List ℕ)
      → get_child b children ≡ none
      → IsComplete (internal children) (b ∷ bs) (collect_proof h (internal children) (b ∷ bs))
  unfolding collect_proof get_path path_matches reconstruct commit_node
  missing_IsComplete children b bs e =
      let all = siblings-missing b children e in
      record {
        reads = ground arith;
        spells = ground arith;
        reaches = λ some_slot. ground arith;
        folds = ground (arith, all);
      }

  found_IsComplete :
      (children : Children) (b : ℕ) (bs : List ℕ) (child : Node)
      → AreSorted children
      → get_child b children ≡ some child
      → IsComplete child bs (collect_proof h child bs)
      → IsComplete (internal children) (b ∷ bs) (collect_proof h (internal children) (b ∷ bs))
  unfolding collect_proof get_path path_matches reconstruct commit_node
  found_IsComplete children b bs child o e c =
      let all = insert-siblings b children child o e in
      record {
        reads = ground (arith, c.reads);
        spells = ground (arith, c.spells);
        reaches = λ some_slot. ground (arith, c.reaches);
        folds = ground (arith, all, c.folds);
      }

  collect_proof-IsComplete :
      (d : ℕ) (node : Node) (bytes : List ℕ)
      → length bytes ≡ d
      → IsShaped d node
      → IsSorted node
      → IsComplete node bytes (collect_proof h node bytes)
  collect_proof-IsComplete zero (leaf slot) [] e s o = leaf_IsComplete slot
  collect_proof-IsComplete zero (leaf slot) (b ∷ bs) e s o = absurd (omega arith)
  collect_proof-IsComplete (suc d) (internal children) [] e s o = absurd (omega arith)
  collect_proof-IsComplete (suc d) (internal children) (b ∷ bs) e s o =
      elim (Option-cases (get_child b children)) [
        | inl missing ↦ missing_IsComplete children b bs missing
        | inr (child, found) ↦ found_IsComplete children b bs child o found (
            collect_proof-IsComplete d child bs (omega arith)
              (get_child-IsShaped d b children child s found)
              (get_child-IsSorted b children child o found))
      ]
  collect_proof-IsComplete zero empty bytes e s o = absurd s
  collect_proof-IsComplete zero (internal children) bytes e s o = absurd s
  collect_proof-IsComplete (suc d) empty bytes e s o = absurd s
  collect_proof-IsComplete (suc d) (leaf slot) bytes e s o = absurd s

  same_slot_refl : (o : Option BalanceSlot) → same_slot o o ≡ true
  same_slot_refl none = refl
  same_slot_refl (some slot) = (slot_beq_iff slot slot).1 refl

  -- A path with steps that folds to a commitment is accepted against it.
  pub verify_folded :
      (r : Commitment) (addr : Address) (slot : Option BalanceSlot) (step : ProofStep)
      (steps : List ProofStep)
      → path_matches (step ∷ steps) addr.bytes ≡ true
      → (is_some slot ≡ true → length (step ∷ steps) ≡ length addr.bytes)
      → reconstruct h (step ∷ steps) (leaf_commitment h slot) ≡ some r
      → verify h r addr slot (record { path = step ∷ steps; slot = slot }) ≡ true
  unfolding verify
  verify_folded r addr slot step steps spells reaches folds =
      let same = same_slot_refl slot in
      let self = (commitment_beq_iff r r).1 refl in
      ground (arith, same, self, spells, reaches, folds)

  verify_empty :
      (addr : Address)
      → verify h (commit_node h empty) addr none (record { path = []; slot = none }) ≡ true
  unfolding verify commit_node
  verify_empty addr =
      let self = (commitment_beq_iff (empty_commitment h) (empty_commitment h)).1 refl in self

  verify_collected :
      (children : Children) (addr : Address) (steps : List ProofStep) (slot : Option BalanceSlot)
      → steps ≢ []
      → IsComplete (internal children) addr.bytes (steps, slot)
      → verify h
          (commit_node h (internal children))
          addr
          (get_path (internal children) addr.bytes)
          (record { path = steps; slot = slot })
        ≡ true
  verify_collected children addr [] slot ne c = absurd (ne refl)
  verify_collected children addr (step ∷ steps) slot ne c =
      subst
        (λ o.
          verify h (commit_node h (internal children)) addr o
            (record { path = step ∷ steps; slot = slot })
          ≡ true)
        c.reads
        (verify_folded (commit_node h (internal children)) addr slot step steps c.spells c.reaches
          c.folds)

  steps_of_internal :
      (children : Children) (bytes : List ℕ)
      → length bytes ≡ 20
      → (collect_proof h (internal children) bytes).0 ≢ []
  unfolding collect_proof
  steps_of_internal children [] e q = omega arith
  steps_of_internal children (b ∷ bs) e q = ground arith

  empty_collects :
      (bytes : List ℕ) → (collect_proof h empty bytes ≡ ([], none)) × (get_path empty bytes ≡ none)
  unfolding collect_proof get_path
  empty_collects [] = (refl, refl)
  empty_collects (b ∷ bs) = (refl, refl)

  pub verify_node :
      (node : Node) (addr : Address)
      → IsEvmShaped addr
      → IsEmptyOrShaped 20 node
      → IsSorted node
      → verify h
          (commit_node h node)
          addr
          (get_path node addr.bytes)
          (proof h (record { root_node = node }) addr)
        ≡ true
  unfolding proof
  verify_node empty addr e s o =
      let c = empty_collects addr.bytes in rw (c.0, c.1) (verify_empty addr)
  verify_node (leaf slot) addr e s o = absurd s
  verify_node (internal children) addr e s o =
      verify_collected children addr _ _ (steps_of_internal children addr.bytes e)
        (collect_proof-IsComplete 20 (internal children) addr.bytes e s o)

  -- Completeness: in a tree that is built from entries, the proof that is produced for an address is
  -- accepted against the root for what a read of that address finds, whether it is a slot or none. All
  -- addresses have twenty bytes.
  pub verify-proof :
      (entries : List (Address × BalanceSlot)) (addr : Address)
      → AllEvmShaped entries
      → IsEvmShaped addr
      → verify h
          (root h (from_entries entries))
          addr
          (get (from_entries entries) addr)
          (proof h (from_entries entries) addr)
        ≡ true
  unfolding root get
  verify-proof entries addr a e =
      verify_node (from_entries entries).root_node addr e (from_entries-IsShaped entries a)
        (from_entries-IsSorted entries)
