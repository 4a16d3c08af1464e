-- ===== src/State/Dag.antt =====
-- crates/suwappudb-state/src/dag.rs: blocks with any earlier blocks as parents. A hash set is a list
-- without repetitions. Each search runs on fuel, and none says that the fuel was not enough.
pub mod Layers
pub mod Validation
pub mod Hashes
pub mod Queue
pub mod Walk
pub mod Descent
pub mod Ancestry
pub mod Index
pub mod Route
pub mod Search
pub mod FindPath
use suwappu_db.Prelude.{
  ℕ, zero, suc, ◌+◌, List, [], ◌∷◌, ◌++◌, Option, none, some, Bool, true, false, not, if◌then◌else◌,
  leb, nat_beq, length, Result, ok, err, ◌==◌, nat_ord, nat_eq, list_eq, list_ord, map,
}
use suwappu_db.Collections.BTreeMap
use suwappu_db.Collections.BTreeMap.{BTreeMap}
use suwappu_db.Collections.HashMap
use suwappu_db.Collections.HashMap.{HashMap, or_else}

-- `type BlockHash = [u8; 32]`.
abbrev pub BlockHash : Type 0
BlockHash = List ℕ

pub record DagBlock : Type 0 where
  pub height : ℕ
  pub state_root : List ℕ
  pub parent_hashes : List BlockHash
  pub timestamp : ℕ

abbrev pub new_block : ℕ → List ℕ → BlockHash → ℕ → DagBlock
new_block height state_root parent_hash timestamp = record {
  height = height;
  state_root = state_root;
  parent_hashes = parent_hash ∷ [];
  timestamp = timestamp;
}

abbrev pub genesis : List ℕ → ℕ → DagBlock
genesis state_root timestamp = record {
  height = 0;
  state_root = state_root;
  parent_hashes = [];
  timestamp = timestamp;
}

pub record DagStore : Type 0 where
  pub blocks : BTreeMap BlockHash DagBlock
  pub children : BTreeMap BlockHash (List BlockHash)

abbrev pub new : DagStore
new = record { blocks = []; children = [] }

unfoldable pub contains_hash : BlockHash → List BlockHash → Bool
contains_hash hash [] = false
contains_hash hash (h ∷ hs) = if h == hash then true else contains_hash hash hs

-- `if !entry.contains(&hash) { entry.push(hash); }`.
abbrev pub push_new : BlockHash → List BlockHash → List BlockHash
push_new hash entry = if contains_hash hash entry then entry else entry ++ hash ∷ []

unfoldable pub add_children :
    BlockHash
    → List BlockHash
    → BTreeMap BlockHash (List BlockHash)
    → BTreeMap BlockHash (List BlockHash)
unfolding contains_hash
add_children hash [] children = children
add_children hash (parent ∷ parents) children =
    add_children hash parents (
      BTreeMap.insert parent (push_new hash (or_else (BTreeMap.lookup parent children) []))
        children)

unfoldable pub put : DagStore → BlockHash → DagBlock → DagStore
unfolding add_children
put s hash block = record {
  children = add_children hash block.parent_hashes s.children;
  blocks = BTreeMap.insert hash block s.blocks;
}

unfoldable pub get : DagStore → BlockHash → Option DagBlock
get s hash = BTreeMap.lookup hash s.blocks

unfoldable pub contains : DagStore → BlockHash → Bool
contains s hash = elim (BTreeMap.lookup hash s.blocks) [ none ↦ false | some block ↦ true ]

unfoldable pub len : DagStore → ℕ
len s = length s.blocks

unfoldable pub is_empty : DagStore → Bool
is_empty s = nat_beq (length s.blocks) 0

unfoldable pub children_of : DagStore → BlockHash → List BlockHash
children_of s parent = or_else (BTreeMap.lookup parent s.children) []

-- `self.blocks.get(&current)`, and no parent where the block is missing.
unfoldable pub parents_of : DagStore → BlockHash → List BlockHash
parents_of s hash = elim (BTreeMap.lookup hash s.blocks) [
  | none ↦ []
  | some block ↦ block.parent_hashes
]

-- `for p in … { if visited.insert(*p) { queue.push_back(*p); } }`.
unfoldable pub enqueue :
    List BlockHash → List BlockHash → List BlockHash → List BlockHash × List BlockHash
unfolding contains_hash
enqueue [] queue visited = (queue, visited)
enqueue (p ∷ ps) queue visited =
    if contains_hash p visited
    then enqueue ps queue visited
    else enqueue ps (queue ++ p ∷ []) (p ∷ visited)

-- The loop of `ancestors_of` and `descendants_of`.
unfoldable pub breadth_first :
    (BlockHash → List BlockHash)
    → ℕ
    → List BlockHash
    → List BlockHash
    → List BlockHash
    → Option (List BlockHash)
unfolding enqueue
breadth_first next fuel [] visited out = some out
breadth_first next zero (current ∷ queue) visited out = none
breadth_first next (suc fuel) (current ∷ queue) visited out =
    let (queue', visited') = enqueue (next current) queue visited in
    breadth_first next fuel queue' visited' (out ++ current ∷ [])

-- As many hashes as there are in the lists of a map.
abbrev pub edges {ℓ} : {A : Type ℓ} → (A → List BlockHash) → BTreeMap BlockHash A → ℕ
edges targets [] = 0
edges targets ((hash, a) ∷ rest) = length (targets a) + edges targets rest

unfoldable pub ancestors_of : DagStore → BlockHash → Option (List BlockHash)
unfolding breadth_first parents_of
ancestors_of s start =
    let (queue, visited) = enqueue (parents_of s start) [] [] in
    breadth_first (parents_of s) (edges (λ (b : DagBlock). b.parent_hashes) s.blocks) queue visited
      []

unfoldable pub descendants_of : DagStore → BlockHash → Option (List BlockHash)
unfolding breadth_first children_of
descendants_of s start =
    let (queue, visited) = enqueue (children_of s start) [] [] in
    breadth_first (children_of s) (edges (λ hs. hs) s.children) queue visited []

-- The parents in `find_path`: the target stops the walk, with the map as it is then.
pub data Found : Type 0 where
  target : HashMap BlockHash BlockHash → Found
  onward : List BlockHash → List BlockHash → HashMap BlockHash BlockHash → Found

unfoldable pub walk_parents :
    BlockHash
    → BlockHash
    → List BlockHash
    → List BlockHash
    → List BlockHash
    → HashMap BlockHash BlockHash
    → Found
unfolding contains_hash
walk_parents to current [] queue visited parent_map = onward queue visited parent_map
walk_parents to current (parent ∷ parents) queue visited parent_map =
    if parent == to
    then target parent_map
    else if contains_hash parent visited
    then walk_parents to current parents queue visited parent_map
    else walk_parents to current parents (queue ++ parent ∷ []) (parent ∷ visited)
        (HashMap.insert parent current parent_map)

-- The path back from a node, nearest first, without the start.
unfoldable pub trace_back : ℕ → HashMap BlockHash BlockHash → BlockHash → Option (List BlockHash)
trace_back zero parent_map node = none
trace_back (suc fuel) parent_map node = elim (HashMap.lookup node parent_map) [
  | none ↦ some []
  | some prev ↦ elim (trace_back fuel parent_map prev) [
    | none ↦ none
    | some path ↦ some (node ∷ path)
  ]
]

abbrev pub reverse_onto : List BlockHash → List BlockHash → List BlockHash
reverse_onto [] done = done
reverse_onto (h ∷ hs) done = reverse_onto hs (h ∷ done)

abbrev pub whole_path :
    BlockHash → BlockHash → Option (List BlockHash) → Option (Option (List BlockHash))
whole_path from to none = none
whole_path from to (some back) = some (some (reverse_onto (to ∷ back ++ from ∷ []) []))

unfoldable pub search_path :
    DagStore
    → BlockHash
    → BlockHash
    → ℕ
    → List BlockHash
    → List BlockHash
    → HashMap BlockHash BlockHash
    → Option (Option (List BlockHash))
unfolding walk_parents trace_back parents_of
search_path s from to fuel [] visited parent_map = some none
search_path s from to zero (current ∷ queue) visited parent_map = none
search_path s from to (suc fuel) (current ∷ queue) visited parent_map =
    elim (walk_parents to current (parents_of s current) queue visited parent_map) [
      | target parent_map' ↦
          whole_path from to (trace_back (suc (length parent_map')) parent_map' current)
      | onward queue' visited' parent_map' ↦ search_path s from to fuel queue' visited' parent_map'
    ]

unfoldable pub find_path : DagStore → BlockHash → BlockHash → Option (Option (List BlockHash))
unfolding search_path
find_path s from to =
    if from == to
    then some (some (from ∷ []))
    else search_path s from to (suc (edges (λ (b : DagBlock). b.parent_hashes) s.blocks))
        (from ∷ []) (from ∷ []) []

unfoldable pub is_reachable : DagStore → BlockHash → BlockHash → Option Bool
unfolding find_path
is_reachable s from to = elim (find_path s from to) [
  | none ↦ none
  | some none ↦ some false
  | some (some path) ↦ some true
]

unfoldable pub at_height : ℕ → BTreeMap BlockHash DagBlock → List (BlockHash × DagBlock)
at_height height [] = []
at_height height ((hash, block) ∷ rest) =
    let others = at_height height rest in
    if nat_beq block.height height then (hash, block) ∷ others else others

unfoldable pub blocks_at_height : DagStore → ℕ → List (BlockHash × DagBlock)
unfolding at_height
blocks_at_height s height = at_height height s.blocks

-- `max_by_key` gives the last of the highest.
unfoldable pub highest :
    Option (BlockHash × DagBlock) → BTreeMap BlockHash DagBlock → Option (BlockHash × DagBlock)
highest best [] = best
highest none (e ∷ rest) = highest (some e) rest
highest (some best) (e ∷ rest) =
    highest (if leb best.1.height e.1.height then some e else some best) rest

unfoldable pub max_height_block : DagStore → Option (BlockHash × DagBlock)
unfolding highest
max_height_block s = highest none s.blocks

abbrev pub is_nil : List BlockHash → Bool
is_nil [] = true
is_nil (h ∷ hs) = false

unfoldable pub tips_among : DagStore → BTreeMap BlockHash DagBlock → List BlockHash
unfolding children_of
tips_among s [] = []
tips_among s ((hash, block) ∷ rest) =
    let others = tips_among s rest in if is_nil (children_of s hash) then hash ∷ others else others

unfoldable pub tips : DagStore → List BlockHash
unfolding tips_among
tips s = tips_among s s.blocks

pub data DagError : Type 0 where
  -- block, parent
  missing_parent : BlockHash → BlockHash → DagError
  -- height of the block, height of the parent
  height_not_above : ℕ → ℕ → DagError
  cycle_from : BlockHash → DagError

-- The first loop of `validate`, over the parents of one block and over the blocks.
unfoldable pub check_parents : DagStore → BlockHash → DagBlock → List BlockHash → Option DagError
check_parents s hash block [] = none
check_parents s hash block (parent ∷ parents) =
    let rest = check_parents s hash block parents in
    elim (BTreeMap.lookup parent s.blocks) [
      | none ↦ some (missing_parent hash parent)
      | some p ↦
          if leb block.height p.height then some (height_not_above block.height p.height) else rest
    ]

unfoldable pub check_blocks : DagStore → BTreeMap BlockHash DagBlock → Option DagError
unfolding check_parents
check_blocks s [] = none
check_blocks s ((hash, block) ∷ rest) =
    let behind = check_blocks s rest in
    elim (check_parents s hash block block.parent_hashes) [ none ↦ behind | some e ↦ some e ]

-- What a search for cycles has seen: the visited hashes and the stack of the recursion.
pub record Seen : Type 0 where
  pub visited : List BlockHash
  pub rec_stack : List BlockHash

unfoldable pub remove_hash : BlockHash → List BlockHash → List BlockHash
remove_hash hash [] = []
remove_hash hash (h ∷ hs) = let rest = remove_hash hash hs in if h == hash then rest else h ∷ rest

-- The loop over the parents, given the recursive call.
unfoldable pub dfs_parents :
    (BlockHash → Seen → Option (Bool × Seen)) → List BlockHash → Seen → Option (Bool × Seen)
unfolding contains_hash
dfs_parents visit [] seen = some (false, seen)
dfs_parents visit (parent ∷ parents) seen =
    if contains_hash parent seen.visited
    then (if contains_hash parent seen.rec_stack
        then some (true, seen)
        else dfs_parents visit parents seen)
    else elim (visit parent seen) [
      | none ↦ none
      | some (true, seen') ↦ some (true, seen')
      | some (false, seen') ↦ dfs_parents visit parents seen'
    ]

-- A set that is given a hash.
abbrev pub with_hash : BlockHash → List BlockHash → List BlockHash
with_hash hash hs = if contains_hash hash hs then hs else hash ∷ hs

abbrev pub leave : BlockHash → Option (Bool × Seen) → Option (Bool × Seen)
leave node none = none
leave node (some (true, seen)) = some (true, seen)
leave node (some (false, seen)) =
    some (false, record seen { rec_stack = remove_hash node seen.rec_stack })

unfoldable pub dfs_cycle : DagStore → ℕ → BlockHash → Seen → Option (Bool × Seen)
unfolding dfs_parents remove_hash parents_of
dfs_cycle s zero node seen = none
dfs_cycle s (suc fuel) node seen = leave node (
    dfs_parents (dfs_cycle s fuel) (parents_of s node)
      (record { visited = with_hash node seen.visited; rec_stack = with_hash node seen.rec_stack }))

-- `has_cycle_from`, of a block of the store. Behind the first loop the heights fall along any path,
-- so the depth of the recursion is at most the height.
unfoldable pub has_cycle_from : DagStore → BlockHash → DagBlock → Option (Bool × Seen)
unfolding dfs_cycle
has_cycle_from s hash block =
    dfs_cycle s (suc block.height) hash (record { visited = []; rec_stack = [] })

unfoldable pub check_cycles :
    DagStore → BTreeMap BlockHash DagBlock → Option (Result DagError (Unit {0}))
unfolding has_cycle_from
check_cycles s [] = some (ok tt)
check_cycles s ((hash, block) ∷ rest) =
    let behind = check_cycles s rest in
    elim (has_cycle_from s hash block) [
      | none ↦ none
      | some (true, seen) ↦ some (err (cycle_from hash))
      | some (false, seen) ↦ behind
    ]

unfoldable pub validate : DagStore → Option (Result DagError (Unit {0}))
unfolding check_blocks check_cycles
validate s = elim (check_blocks s s.blocks) [
  | none ↦ check_cycles s s.blocks
  | some e ↦ some (err e)
]
