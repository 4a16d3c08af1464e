-- ===== src/State/Dag/Hashes.antt =====
-- The hash sets of the searches: membership, and how many hashes a set without repetitions can have.
use suwappu_db.State.Dag.{BlockHash, contains_hash, remove_hash}
use suwappu_db.Prelude.{
  inl, sym, ◌≡◌, ◌≢◌, ◌<◌, ◌≤◌, ◌⊎◌, inr, List, [], ◌∷◌, ◌++◌, arith, true, false, list_beq_iff,
  list_eq, nat_eq, length, subst,
}

infix 50 ◌∈◌
-- The hash is in the list.
abbrev pub ◌∈◌ : BlockHash → List BlockHash → Type 0
h ∈ hs = contains_hash h hs ≡ true

pub mem_head : (h : BlockHash) (hs : List BlockHash) → h ∈ h ∷ hs
unfolding contains_hash
mem_head h hs = ground (arith, list_beq_iff h h)

pub mem_behind : (g h : BlockHash) (hs : List BlockHash) → g ∈ hs → g ∈ h ∷ hs
unfolding contains_hash
mem_behind g h hs i = ground (arith, i)

pub mem_cons : (g h : BlockHash) (hs : List BlockHash) → g ∈ h ∷ hs → (h ≡ g) ⊎ g ∈ hs
unfolding contains_hash
mem_cons g h hs i = ground (arith, list_beq_iff h g, i)

pub mem_left : (g : BlockHash) (xs ys : List BlockHash) → g ∈ xs → g ∈ xs ++ ys
unfolding contains_hash
mem_left g [] ys i = cc i
mem_left g (x ∷ xs) ys i = ground (arith, mem_left g xs ys)

pub mem_right : (g : BlockHash) (xs ys : List BlockHash) → g ∈ ys → g ∈ xs ++ ys
unfolding contains_hash
mem_right g [] ys i = i
mem_right g (x ∷ xs) ys i = ground (arith, mem_right g xs ys i)

pub mem_append : (g : BlockHash) (xs ys : List BlockHash) → g ∈ xs ++ ys → g ∈ xs ⊎ g ∈ ys
unfolding contains_hash
mem_append g [] ys i = inr i
mem_append g (x ∷ xs) ys i = ground (arith, mem_append g xs ys, i)

pub mem_nil : (g : BlockHash) → ¬ (g ∈ [])
unfolding contains_hash
mem_nil g i = cc i

pub mem_cons_false :
    (g h : BlockHash) (hs : List BlockHash)
    → contains_hash g (h ∷ hs) ≡ false
    → (h ≢ g) × (contains_hash g hs ≡ false)
unfolding contains_hash
mem_cons_false g h hs lacks = ground (arith, list_beq_iff h g, lacks)

pub cons_misses :
    (g h : BlockHash) (hs : List BlockHash)
    → h ≢ g
    → contains_hash g hs ≡ false
    → contains_hash g (h ∷ hs) ≡ false
unfolding contains_hash
cons_misses g h hs differs lacks = ground (arith, list_beq_iff h g, lacks)

-- A list that is given one more hash at its end.
pub mem_last : (g h : BlockHash) (hs : List BlockHash) → g ∈ hs ++ h ∷ [] → g ∈ hs ⊎ (h ≡ g)
mem_last g h hs i = elim (mem_append g hs (h ∷ []) i) [
  | inl old ↦ inl old
  | inr one ↦ elim (mem_cons g h [] one) [
    | inl same ↦ inr same
    | inr never ↦ absurd (mem_nil g never)
  ]
]

-- No hash is in the list twice.
abbrev pub IsDistinct : List BlockHash → Type 0
IsDistinct [] = Unit
IsDistinct (h ∷ hs) = (contains_hash h hs ≡ false) × IsDistinct hs

remove_hash_keeps : (g h : BlockHash) (hs : List BlockHash) → h ≢ g → g ∈ hs → g ∈ remove_hash h hs
unfolding contains_hash remove_hash
remove_hash_keeps g h [] differ i = i
remove_hash_keeps g h (k ∷ hs) differ i =
    ground (arith, list_beq_iff k g, list_beq_iff k h, remove_hash_keeps g h hs differ, i)

length-remove_hash : (h : BlockHash) (hs : List BlockHash) → length (remove_hash h hs) ≤ length hs
unfolding remove_hash
length-remove_hash h [] = omega arith
length-remove_hash h (k ∷ hs) = ground (arith, length-remove_hash h hs)

remove_hash_shorter :
    (h : BlockHash) (hs : List BlockHash) → h ∈ hs → length (remove_hash h hs) < length hs
unfolding contains_hash remove_hash
remove_hash_shorter h [] i = cc i
remove_hash_shorter h (k ∷ hs) i =
    ground (arith, length-remove_hash h hs, remove_hash_shorter h hs, i)

pub length-IsDistinct :
    (hs all : List BlockHash)
    → IsDistinct hs
    → ((g : BlockHash) → g ∈ hs → g ∈ all)
    → length hs ≤ length all
length-IsDistinct [] all distinct part = omega arith
length-IsDistinct (h ∷ hs) all distinct part =
    let shorter = remove_hash_shorter h all (part h (mem_head h hs)) in
    let rest = length-IsDistinct hs (remove_hash h all) distinct.1 (λ g i.
      remove_hash_keeps g h all
        (λ e. let other = subst (λ k. k ∈ hs) (sym e) i in cc (other, distinct.0))
        (part g (mem_behind g h hs i))) in
    omega (arith, shorter, rest)
