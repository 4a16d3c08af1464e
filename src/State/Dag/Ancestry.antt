-- ===== src/State/Dag/Ancestry.antt =====
-- `ancestors_of` and `descendants_of` against the steps between the blocks.
use suwappu_db.Collections.BTreeMap
use suwappu_db.Collections.BTreeMap.{BTreeMap}
use suwappu_db.State.Dag.{
  BlockHash, DagBlock, DagStore, edges, parents_of, children_of, ancestors_of, descendants_of,
}
use suwappu_db.State.Dag.Hashes.{◌∈◌, mem_left, mem_right, mem_nil}
use suwappu_db.State.Dag.Descent.{no_return}
use suwappu_db.State.Dag.Layers.{IsLayered}
use suwappu_db.State.Dag.Walk.{Reaches, walk-reaches, one_step, further}
use suwappu_db.Prelude.{
  ◌≡◌, ◌↔◌, inl, inr, List, [], ◌∷◌, ◌++◌, refl, arith, true, false, Bool, list_eq, nat_eq,
  list_ord, nat_ord, length, subst, length-append, some, Option-cases, is_eq, if◌then◌else◌,
}

-- All the hashes that the lists of a map name.
abbrev pub listing {ℓ} : {A : Type ℓ} → (A → List BlockHash) → BTreeMap BlockHash A → List BlockHash
listing targets [] = []
listing targets ((hash, a) ∷ rest) = targets a ++ listing targets rest

module _ {ℓ} {A : Type ℓ} (targets : A → List BlockHash) where
  pub length-listing : (m : BTreeMap BlockHash A) → length (listing targets m) ≡ edges targets m
  length-listing [] = refl
  length-listing ((hash, a) ∷ rest) =
      omega (arith, length-append (targets a) (listing targets rest), length-listing rest)

  listing-lookup :
      (m : BTreeMap BlockHash A) (h g : BlockHash) (a : A)
      → BTreeMap.lookup h m ≡ some a
      → g ∈ targets a
      → g ∈ listing targets m
  unfolding BTreeMap.lookup
  listing-lookup [] h g a found i = cc found
  listing-lookup ((k, b) ∷ m) h g a found i =
      at_key (is_eq (list_ord.cmp h k)) found (listing-lookup m h g a)
    where
      at_key :
          (c : Bool)
          → (if c then some b else BTreeMap.lookup h m) ≡ some a
          → (BTreeMap.lookup h m ≡ some a → g ∈ targets a → g ∈ listing targets m)
          → g ∈ targets b ++ listing targets m
      at_key true q rest =
          mem_left g (targets b) (listing targets m)
            (subst (λ c. g ∈ targets c) {x = a} {y = b} (cc q) i)
      at_key false q rest = mem_right g (targets b) (listing targets m) (rest q i)

pub parents_of-listed :
    (s : DagStore) (h g : BlockHash)
    → g ∈ parents_of s h
    → g ∈ listing (λ (b : DagBlock). b.parent_hashes) s.blocks
unfolding parents_of
parents_of-listed s h g i = elim (Option-cases (BTreeMap.lookup h s.blocks)) [
  | inl missing ↦
      let empty : parents_of s h ≡ [] = rw (missing, parents_of) refl in
      absurd (mem_nil g (subst (λ l. g ∈ l) empty i))
  | inr found ↦
      let same : parents_of s h ≡ found.0.parent_hashes = rw (found.1, parents_of) refl in
      listing-lookup (λ (b : DagBlock). b.parent_hashes) s.blocks h g found.0 found.1
        (subst (λ l. g ∈ l) same i)
]

children_of-listed :
    (s : DagStore) (h g : BlockHash) → g ∈ children_of s h → g ∈ listing (λ hs. hs) s.children
unfolding children_of
children_of-listed s h g i = elim (Option-cases (BTreeMap.lookup h s.children)) [
  | inl missing ↦
      let empty : children_of s h ≡ [] = rw (missing, children_of) refl in
      absurd (mem_nil g (subst (λ l. g ∈ l) empty i))
  | inr found ↦
      let same : children_of s h ≡ found.0 = rw (found.1, children_of) refl in
      listing-lookup (λ (hs : List BlockHash). hs) s.children h g found.0 found.1
        (subst (λ l. g ∈ l) same i)
]

walks_reach :
    (s : DagStore) (start : BlockHash)
    → ((found : List BlockHash) × (ancestors_of s start ≡ some found)
        × ((g : BlockHash) → (g ∈ found) ↔ Reaches (parents_of s) start g))
      × ((found : List BlockHash) × (descendants_of s start ≡ some found)
          × ((g : BlockHash) → (g ∈ found) ↔ Reaches (children_of s) start g))
unfolding ancestors_of descendants_of
walks_reach s start = (
  walk-reaches (parents_of s) start (listing (λ (b : DagBlock). b.parent_hashes) s.blocks)
      (parents_of-listed s) (edges (λ (b : DagBlock). b.parent_hashes) s.blocks)
      (omega (arith, length-listing (λ (b : DagBlock). b.parent_hashes) s.blocks)),
  walk-reaches (children_of s) start (listing (λ hs. hs) s.children) (children_of-listed s)
      (edges (λ hs. hs) s.children)
      (omega (arith, length-listing (λ (hs : List BlockHash). hs) s.children)),
)

-- The steps in the other direction.
before :
    (next : BlockHash → List BlockHash) (g h a : BlockHash)
    → h ∈ next g
    → Reaches next h a
    → Reaches next g a
before next g h _ i (one_step a j) = further h a (one_step h i) j
before next g h _ i (further b a r j) = further b a (before next g h b i r) j

Reaches-converse :
    (f back : BlockHash → List BlockHash) (a d : BlockHash)
    → ((h g : BlockHash) → g ∈ f h → h ∈ back g)
    → Reaches f a d
    → Reaches back d a
Reaches-converse f back a _ inverse (one_step d i) = one_step a (inverse a d i)
Reaches-converse f back a _ inverse (further h d r i) =
    before back d h a (inverse h d i) (Reaches-converse f back a h inverse r)

-- The children index names exactly the blocks that name the parent.
abbrev pub IsIndexed : DagStore → Type 0
IsIndexed s = (h g : BlockHash) → (g ∈ children_of s h) ↔ (h ∈ parents_of s g)

-- For every store, both searches end with the fuel that they have: `ancestors_of` gives the hashes that
-- one step or more from a block to a parent reach from the start, and `descendants_of` those that one
-- step or more to a listed child reach. So the start itself is among them exactly when such steps lead
-- back to it, as for a block that is its own parent. If every parent of every block is in the store
-- with a smaller height, the start is not among its ancestors, and, if moreover the children index is
-- exact, not among its descendants.
pub searches_reach :
    (s : DagStore) (start : BlockHash)
    → ((found : List BlockHash) × (ancestors_of s start ≡ some found)
        × ((g : BlockHash) → (g ∈ found) ↔ Reaches (parents_of s) start g)
        × (IsLayered s → ¬ (start ∈ found)))
      × ((found : List BlockHash) × (descendants_of s start ≡ some found)
          × ((g : BlockHash) → (g ∈ found) ↔ Reaches (children_of s) start g)
          × (IsLayered s → IsIndexed s → ¬ (start ∈ found)))
searches_reach s start =
    let (above, up, reach_up) = (walks_reach s start).0 in
    let (below, down, reach_down) = (walks_reach s start).1 in
    (
      (above, up, reach_up, (λ layered i. no_return s layered start ((reach_up start).0 i))),
      (
        below,
        down,
        reach_down,
        (λ layered indexed i. no_return s layered start (
            Reaches-converse (children_of s) (parents_of s) start start (λ h g. (indexed h g).0)
              ((reach_down start).0 i))),
      ),
    )

-- Under an exact children index, a block is among the descendants of another if and only if the other
-- is among its ancestors, and both searches return.
pub IsIndexed-searches :
    (s : DagStore) (a d : BlockHash)
    → IsIndexed s
    → (below : List BlockHash) × (above : List BlockHash) × (descendants_of s a ≡ some below)
      × (ancestors_of s d ≡ some above)
      × ((d ∈ below) ↔ (a ∈ above))
IsIndexed-searches s a d indexed =
    let (below, down, reach_down) = (walks_reach s a).1 in
    let (above, up, reach_up) = (walks_reach s d).0 in
    (
      below,
      above,
      down,
      up,
      (
        (λ i. (reach_up a).1 (
            Reaches-converse (children_of s) (parents_of s) a d (λ h g. (indexed h g).0)
              ((reach_down d).0 i))),
        (λ i. (reach_down d).1 (
            Reaches-converse (parents_of s) (children_of s) d a (λ h g. (indexed g h).1)
              ((reach_up a).0 i))),
      ),
    )
