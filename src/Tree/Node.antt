-- ===== src/Tree/Node.antt =====
-- `Node` of crates/suwappudb-state/src/tree/types.rs. The ordered map of an internal node is the
-- data type `Children`, in ascending order of the byte.
use Prim.Native.Nat.{compare, Ordering}
use Prim.Native.Nat.Ordering.{lt, eq, gt}
use suwappu_db.Prelude.{
  inr, subst, inl, refl, Bool-cases, ℕ, Option, none, some, nat_beq, if◌then◌else◌, ◌≡◌, ◌<◌, arith,
}
use suwappu_db.State.Slot.{BalanceSlot}

mutual
  pub data Node : Type 0 where
    empty : Node
    leaf : BalanceSlot → Node
    internal : Children → Node

  pub data Children : Type 0 where
    nil : Children
    cons : ℕ → Node → Children → Children

-- `children.get(&byte)`.
unfoldable pub get_child : ℕ → Children → Option Node
get_child byte nil = none
get_child byte (cons k node rest) = if nat_beq k byte then some node else get_child byte rest

-- The order of the byte and the first key, with the children where it is equal or after.
abbrev pub placed : Ordering → ℕ → Node → ℕ → Node → Children → Children → Children
placed lt byte new k node rest later = cons byte new (cons k node rest)
placed eq byte new k node rest later = cons byte new rest
placed gt byte new k node rest later = cons k node later

-- The write of the entry of `byte`, which is there afterwards.
unfoldable pub put_child : ℕ → Node → Children → Children
put_child byte new nil = cons byte new nil
put_child byte new (cons k node rest) =
    placed (compare byte k) byte new k node rest (put_child byte new rest)

-- Every byte of the map is above `byte`.
abbrev pub Above : ℕ → Children → Type 0
Above byte nil = Unit
Above byte (cons k node rest) = (byte < k) × Above byte rest

abbrev mutual
  -- At each internal node the bytes ascend.
  pub IsSorted : Node → Type 0
  IsSorted empty = Unit
  IsSorted (leaf slot) = Unit
  IsSorted (internal children) = AreSorted children

  pub AreSorted : Children → Type 0
  AreSorted nil = Unit
  AreSorted (cons k node rest) = Above k rest × IsSorted node × AreSorted rest

pub get_child-put_child :
    (byte other : ℕ) (new : Node) (children : Children)
    → get_child other (put_child byte new children)
      ≡ (if nat_beq byte other then some new else get_child other children)
unfolding get_child put_child
get_child-put_child byte other new nil = refl
get_child-put_child byte other new (cons k node rest) =
    ground (arith, get_child-put_child byte other new rest)

Above-put_child :
    (low byte : ℕ) (new : Node) (children : Children)
    → low < byte
    → Above low children
    → Above low (put_child byte new children)
unfolding put_child
Above-put_child low byte new nil h a = (h, tt)
Above-put_child low byte new (cons k node rest) h a =
    ground (arith, Above-put_child low byte new rest)

Above-trans : (low k : ℕ) (children : Children) → low < k → Above k children → Above low children
Above-trans low k nil h a = tt
Above-trans low k (cons j node rest) h a = (omega arith, Above-trans low k rest h a.1)

pub put_child-AreSorted :
    (byte : ℕ) (new : Node) (children : Children)
    → IsSorted new
    → AreSorted children
    → AreSorted (put_child byte new children)
unfolding put_child
put_child-AreSorted byte new nil h s = (tt, h, tt)
put_child-AreSorted byte new (cons k node rest) h s = ground (
  arith,
  put_child-AreSorted byte new rest,
  Above-put_child k byte new rest,
  Above-trans byte k rest,
)

pub get_child-IsSorted :
    (byte : ℕ) (children : Children) (node : Node)
    → AreSorted children
    → get_child byte children ≡ some node
    → IsSorted node
unfolding get_child
get_child-IsSorted byte nil node s h = cc
get_child-IsSorted byte (cons k child rest) node s h = elim (Bool-cases (nat_beq k byte)) [
  | inl e ↦ let same : child ≡ node = ground arith in subst IsSorted same s.1
  | inr e ↦ get_child-IsSorted byte rest node s.2 (ground arith)
]
