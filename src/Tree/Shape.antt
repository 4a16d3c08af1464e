-- ===== src/Tree/Shape.antt =====
-- The shape that every built tree has: internal nodes down to the length of the addresses, and
-- leaves there.
use Prim.Native.Nat.{compare, Ordering}
use Prim.Native.Nat.Ordering.{lt, eq, gt}
use suwappu_db.Prelude.{
  inr, subst, inl, nat_beq, Bool-cases, ℕ, zero, suc, ◌≡◌, List, [], ◌∷◌, Option, none, some,
  length, arith, refl, All,
}
use suwappu_db.State.Address.{Address, IsEvmShaped}
use suwappu_db.State.Slot.{BalanceSlot}
use suwappu_db.Tree.Node.{
  placed, Node, empty, leaf, internal, Children, nil, cons, get_child, put_child,
}
use suwappu_db.Tree.Ops.{
  StateTree, new, update, update_path, promoted, or_empty, update_all, from_entries,
}

abbrev mutual
  pub IsShaped : ℕ → Node → Type 0
  IsShaped zero (leaf slot) = Unit
  IsShaped (suc d) (internal children) = AreShaped d children
  IsShaped _ _ = ⊥

  pub AreShaped : ℕ → Children → Type 0
  AreShaped d nil = Unit
  AreShaped d (cons k node rest) = IsShaped d node × AreShaped d rest

-- The node is the empty one, or it has the shape.
abbrev pub IsEmptyOrShaped : ℕ → Node → Type 0
IsEmptyOrShaped d empty = Unit
IsEmptyOrShaped d (leaf slot) = IsShaped d (leaf slot)
IsEmptyOrShaped d (internal children) = IsShaped d (internal children)

pub get_child-IsShaped :
    (d byte : ℕ) (children : Children) (node : Node)
    → AreShaped d children
    → get_child byte children ≡ some node
    → IsShaped d node
unfolding get_child
get_child-IsShaped d byte nil node s h = cc
get_child-IsShaped d byte (cons k child rest) node s h = elim (Bool-cases (nat_beq k byte)) [
  | inl e ↦ let same : child ≡ node = ground arith in subst (IsShaped d) same s.0
  | inr e ↦ get_child-IsShaped d byte rest node s.1 (ground arith)
]

placed-AreShaped :
    (d : ℕ) (o : Ordering) (byte : ℕ) (n : Node) (k : ℕ) (node : Node) (rest later : Children)
    → IsShaped d n
    → IsShaped d node
    → AreShaped d rest
    → AreShaped d later
    → AreShaped d (placed o byte n k node rest later)
placed-AreShaped d lt byte n k node rest later a b r l = (a, (b, r))
placed-AreShaped d eq byte n k node rest later a b r l = (a, r)
placed-AreShaped d gt byte n k node rest later a b r l = (b, l)

put_child-AreShaped :
    (d byte : ℕ) (n : Node) (children : Children)
    → IsShaped d n
    → AreShaped d children
    → AreShaped d (put_child byte n children)
unfolding put_child
put_child-AreShaped d byte n nil h s = (h, tt)
put_child-AreShaped d byte n (cons k node rest) h s =
    placed-AreShaped d (compare byte k) byte n k node rest (put_child byte n rest) h s.0 s.1
      (put_child-AreShaped d byte n rest h s.1)

promoted-AreShaped :
    (d : ℕ) (node : Node) → IsEmptyOrShaped (suc d) node → AreShaped d (promoted node)
promoted-AreShaped d empty s = tt
promoted-AreShaped d (leaf slot) s = absurd s
promoted-AreShaped d (internal children) s = s

weaken : (d : ℕ) (node : Node) → IsShaped d node → IsEmptyOrShaped d node
weaken d empty s = tt
weaken d (leaf slot) s = s
weaken d (internal children) s = s

or_empty-IsEmptyOrShaped :
    (d : ℕ) (o : Option Node)
    → ((node : Node) → o ≡ some node → IsShaped d node)
    → IsEmptyOrShaped d (or_empty o)
or_empty-IsEmptyOrShaped d none h = tt
or_empty-IsEmptyOrShaped d (some node) h = weaken d node (h node refl)

-- An update along a path of the remaining length gives a node of that shape.
update_path-IsShaped :
    (d : ℕ) (node : Node) (bytes : List ℕ) (slot : BalanceSlot)
    → length bytes ≡ d
    → IsEmptyOrShaped d node
    → IsShaped d (update_path node bytes slot)
unfolding update_path
update_path-IsShaped zero node [] slot e s = tt
update_path-IsShaped (suc d) node [] slot e s = absurd (omega arith)
update_path-IsShaped zero node (b ∷ bs) slot e s = absurd (omega arith)
update_path-IsShaped (suc d) node (b ∷ bs) slot e s =
    let children = promoted node in
    let shaped = promoted-AreShaped d node s in
    put_child-AreShaped d b (update_path (or_empty (get_child b children)) bs slot) children
      (update_path-IsShaped d (or_empty (get_child b children)) bs slot (omega arith) (
        or_empty-IsEmptyOrShaped d (get_child b children)
          (λ child found. get_child-IsShaped d b children child shaped found)))
      shaped

abbrev pub AllEvmShaped : List (Address × BalanceSlot) → Type 0
AllEvmShaped entries = All (λ e. IsEvmShaped e.0) entries

update_all-IsShaped :
    (tree : StateTree) (entries : List (Address × BalanceSlot))
    → AllEvmShaped entries
    → IsEmptyOrShaped 20 tree.root_node
    → IsEmptyOrShaped 20 (update_all tree entries).root_node
unfolding update_all update
update_all-IsShaped tree [] a s = s
update_all-IsShaped tree ((addr, slot) ∷ entries) a s =
    update_all-IsShaped (update tree addr slot) entries a.1 (
      weaken 20 (update_path tree.root_node addr.bytes slot)
        (update_path-IsShaped 20 tree.root_node addr.bytes slot a.0 s))

pub from_entries-IsShaped :
    (entries : List (Address × BalanceSlot))
    → AllEvmShaped entries
    → IsEmptyOrShaped 20 (from_entries entries).root_node
unfolding from_entries
from_entries-IsShaped entries a = update_all-IsShaped new entries a tt
