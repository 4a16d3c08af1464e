-- ===== src/Tree/Reads.antt =====
-- Reading the tree after updates, and the shape that updates keep.
use mathlib.Core.Path.{sym, ap, ap₂}
use suwappu_db.Prelude.{
  inr, ◌∙◌, inl, beq-cases, subst, ℕ_discrete, ℕ, ◌≡◌, ◌≢◌, List, [], ◌∷◌, Option, none, some,
  if◌then◌else◌, nat_beq, length, ◌==◌, arith, refl,
}
use suwappu_db.State.Address.{Address-ext, Address, address_eq, address_beq_iff, IsEvmShaped}
use suwappu_db.State.Slot.{BalanceSlot}
use suwappu_db.Tree.Node.{
  Node, empty, leaf, internal, Children, get_child, get_child-put_child, IsSorted, AreSorted,
  put_child-AreSorted, get_child-IsSorted,
}
use suwappu_db.Tree.Ops.{
  StateTree, new, update, get, update_path, get_path, promoted, or_empty, update_all, from_entries,
  child_at,
}

child_at-update_path :
    (node : Node) (byte other : ℕ) (rest : List ℕ) (slot : BalanceSlot)
    → child_at (update_path node (byte ∷ rest) slot) other ≡ (
        if nat_beq byte other
        then some (update_path (or_empty (get_child byte (promoted node))) rest slot)
        else get_child other (promoted node))
unfolding update_path
child_at-update_path node byte other rest slot =
    get_child-put_child byte other
      (update_path (or_empty (get_child byte (promoted node))) rest slot) (promoted node)

get_path-update_path_self :
    (node : Node) (bytes : List ℕ) (slot : BalanceSlot)
    → get_path (update_path node bytes slot) bytes ≡ some slot
unfolding get_path
get_path-update_path_self node [] slot = unfold update_path in refl
get_path-update_path_self node (byte ∷ rest) slot = ground (
  arith,
  child_at-update_path node byte byte rest slot,
  get_path-update_path_self (or_empty (get_child byte (promoted node))) rest slot,
)

pub get_path-empty : (bytes : List ℕ) → get_path empty bytes ≡ none
unfolding get_path
get_path-empty [] = refl
get_path-empty (byte ∷ rest) = refl

get_path-leaf :
    (s : BalanceSlot) (byte : ℕ) (rest : List ℕ) → get_path (leaf s) (byte ∷ rest) ≡ none
unfolding get_path
get_path-leaf s byte rest = refl

get_path-promoted :
    (node : Node) (byte : ℕ) (rest : List ℕ)
    → get_path (internal (promoted node)) (byte ∷ rest) ≡ get_path node (byte ∷ rest)
unfolding get_path get_child
get_path-promoted empty byte rest = refl
get_path-promoted (leaf s) byte rest = refl
get_path-promoted (internal children) byte rest = refl

get_path-or_empty :
    (children : Children) (byte : ℕ) (rest : List ℕ)
    → get_path (or_empty (get_child byte children)) rest
      ≡ get_path (internal children) (byte ∷ rest)
unfolding get_path
get_path-or_empty children byte rest = ground (arith, get_path-empty rest)

abbrev enter : Option Node → List ℕ → Option BalanceSlot
enter none rest = none
enter (some child) rest = get_path child rest

get_path-enter :
    (node : Node) (byte : ℕ) (rest : List ℕ)
    → get_path node (byte ∷ rest) ≡ enter (child_at node byte) rest
unfolding get_path
get_path-enter node byte rest = ground arith

-- A node whose child behind a byte reads like the entry of another node reads like that node.
below_byte :
    (node updated : Node) (b : ℕ) (rest : List ℕ) (child : Node)
    → child_at updated b ≡ some child
    → get_path child rest ≡ get_path (or_empty (get_child b (promoted node))) rest
    → (o : ℕ) → b ≡ o
    → get_path updated (o ∷ rest) ≡ get_path node (o ∷ rest)
below_byte node updated b rest child here same o e =
    let whole : get_path updated (b ∷ rest) ≡ get_path node (b ∷ rest) =
      get_path-enter updated b rest
      ∙ ap (λ c. enter c rest) here
      ∙ same
      ∙ get_path-or_empty (promoted node) b rest
      ∙ get_path-promoted node b rest in
    subst (λ c. get_path updated (c ∷ rest) ≡ get_path node (c ∷ rest)) e whole

-- A node whose child behind a byte is that of another node reads like that node there.
beside :
    (node updated : Node) (o : ℕ) (rest : List ℕ)
    → child_at updated o ≡ get_child o (promoted node)
    → get_path updated (o ∷ rest) ≡ get_path node (o ∷ rest)
beside node updated o rest here =
    get_path-enter updated o rest
    ∙ ap (λ c. enter c rest) here
    ∙ sym (get_path-enter (internal (promoted node)) o rest)
    ∙ get_path-promoted node o rest

get_path-update_path_ne :
    (node : Node) (bytes others : List ℕ) (slot : BalanceSlot)
    → length bytes ≡ length others
    → bytes ≢ others
    → get_path (update_path node bytes slot) others ≡ get_path node others
get_path-update_path_ne node [] [] slot e ne = absurd (ne refl)
get_path-update_path_ne node [] (o ∷ os) slot e ne = absurd (omega arith)
get_path-update_path_ne node (b ∷ bs) [] slot e ne = absurd (omega arith)
get_path-update_path_ne node (b ∷ bs) (o ∷ os) slot e ne = elim (ℕ_discrete b o) [
  | yes same ↦
      let deeper : bs ≢ os = λ q. ne (ap₂ (λ (x : ℕ) (xs : List ℕ). x ∷ xs) same q) in
      let entry = or_empty (get_child b (promoted node)) in
      below_byte node (update_path node (b ∷ bs) slot) b os (update_path entry bs slot)
        (child_at-update_path node b b bs slot ∙ ground arith)
        (get_path-update_path_ne entry bs os slot (omega arith) deeper) o same
  | no other ↦
      beside node (update_path node (b ∷ bs) slot) o os
        (child_at-update_path node b o bs slot ∙ ground arith)
]

-- The tree as a map from addresses of twenty bytes: an update is read back, and no other address
-- reads differently.
pub get-update :
    (tree : StateTree) (a c : Address) (slot : BalanceSlot)
    → IsEvmShaped a
    → IsEvmShaped c
    → get (update tree a slot) c ≡ (if a == c then some slot else get tree c)
unfolding get update
get-update tree a c slot ha hc = elim (beq-cases a c) [
  | inl e ↦ rw ((address_beq_iff a c).1 e) (
      subst
        (λ (x : Address). get_path (update_path tree.root_node a.bytes slot) x.bytes ≡ some slot) e
        (get_path-update_path_self tree.root_node a.bytes slot))
  | inr n ↦ rw (n.0) (
      get_path-update_path_ne tree.root_node a.bytes c.bytes slot (omega arith)
        (λ q. n.1 (Address-ext a c q)))
]

promoted_sorted : (node : Node) → IsSorted node → AreSorted (promoted node)
promoted_sorted empty s = tt
promoted_sorted (leaf slot) s = tt
promoted_sorted (internal children) s = s

or_empty-IsSorted :
    (o : Option Node) → ((node : Node) → o ≡ some node → IsSorted node) → IsSorted (or_empty o)
or_empty-IsSorted none h = tt
or_empty-IsSorted (some node) h = h node refl

entry-IsSorted :
    (byte : ℕ) (children : Children)
    → AreSorted children
    → IsSorted (or_empty (get_child byte children))
entry-IsSorted byte children s =
    or_empty-IsSorted (get_child byte children)
      (λ node e. get_child-IsSorted byte children node s e)

update_path-IsSorted :
    (node : Node) (bytes : List ℕ) (slot : BalanceSlot)
    → IsSorted node
    → IsSorted (update_path node bytes slot)
unfolding update_path
update_path-IsSorted node [] slot s = tt
update_path-IsSorted node (b ∷ bs) slot s =
    put_child-AreSorted b (update_path (or_empty (get_child b (promoted node))) bs slot)
      (promoted node)
      (update_path-IsSorted (or_empty (get_child b (promoted node))) bs slot
        (entry-IsSorted b (promoted node) (promoted_sorted node s)))
      (promoted_sorted node s)

update_all-IsSorted :
    (tree : StateTree) (entries : List (Address × BalanceSlot))
    → IsSorted tree.root_node
    → IsSorted (update_all tree entries).root_node
unfolding update_all update
update_all-IsSorted tree [] s = s
update_all-IsSorted tree ((a, slot) ∷ entries) s =
    update_all-IsSorted (update tree a slot) entries
      (update_path-IsSorted tree.root_node a.bytes slot s)

-- Every tree that is built from entries keeps the bytes of each internal node in ascending order.
pub from_entries-IsSorted :
    (entries : List (Address × BalanceSlot)) → IsSorted (from_entries entries).root_node
unfolding from_entries
from_entries-IsSorted entries = update_all-IsSorted new entries tt
