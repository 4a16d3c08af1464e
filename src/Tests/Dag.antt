-- ===== src/Tests/Dag.antt =====
-- A store of three blocks: a genesis block, one above it, and one above both.
use suwappu_db.Collections.BTreeMap
use suwappu_db.Collections.HashMap
use suwappu_db.Prelude.{List, [], ◌∷◌, ◌≡◌, ◌≢◌, ◌↔◌, none, some, refl, ok, err, list_ord, nat_ord}
use suwappu_db.State.Dag.{
  DagStore, DagBlock, BlockHash, new, put, genesis, validate, cycle_from, find_path, ancestors_of,
  descendants_of, tips, max_height_block, height_not_above,
}
use suwappu_db.State.Dag.{parents_of, children_of, get}
use suwappu_db.State.Dag.Hashes.{◌∈◌}
use suwappu_db.State.Dag.Walk.{Reaches}
use suwappu_db.State.Dag.Ancestry.{searches_reach, IsIndexed}
use suwappu_db.State.Dag.Index.{put_all, AreFresh, descendants_of-ancestors_of}
use suwappu_db.State.Dag.FindPath.{find_path-Answers, Answers}
use suwappu_db.State.Dag.Layers.{IsLayered}
use suwappu_db.State.Dag.Validation.{validate_decides}

abbrev merge : DagBlock
merge = record {
  height = 2;
  state_root = [];
  parent_hashes = (1 ∷ []) ∷ (2 ∷ []) ∷ [];
  timestamp = 9;
}

abbrev second : DagBlock
second = record { height = 1; state_root = []; parent_hashes = (1 ∷ []) ∷ []; timestamp = 8 }

abbrev diamond : DagStore
diamond = put (put (put new (2 ∷ []) second) (3 ∷ []) merge) (1 ∷ []) (genesis [] 7)

diamond-path : find_path diamond (3 ∷ []) (1 ∷ []) ≡ some (some ((3 ∷ []) ∷ (1 ∷ []) ∷ []))
unfolding find_path put BTreeMap.lookup BTreeMap.insert HashMap.lookup
diamond-path = refl

diamond-ancestors : ancestors_of diamond (3 ∷ []) ≡ some ((1 ∷ []) ∷ (2 ∷ []) ∷ [])
unfolding ancestors_of put BTreeMap.lookup BTreeMap.insert
diamond-ancestors = refl

diamond-descendants : descendants_of diamond (1 ∷ []) ≡ some ((2 ∷ []) ∷ (3 ∷ []) ∷ [])
unfolding descendants_of put BTreeMap.lookup BTreeMap.insert
diamond-descendants = refl

diamond-tips : tips diamond ≡ (3 ∷ []) ∷ []
unfolding tips put BTreeMap.lookup BTreeMap.insert
diamond-tips = refl

diamond-highest : max_height_block diamond ≡ some ((3 ∷ []), merge)
unfolding max_height_block put BTreeMap.lookup BTreeMap.insert
diamond-highest = refl

diamond-validate : validate diamond ≡ some (ok tt)
unfolding validate put BTreeMap.lookup BTreeMap.insert
diamond-validate = refl

-- A block that is its own parent is refused by the heights.
loop_refused : validate (put new (1 ∷ []) second) ≡ some (err (height_not_above 1 1))
unfolding validate put BTreeMap.lookup BTreeMap.insert
loop_refused = refl

-- Both searches from it give the block itself.
loop-ancestors : ancestors_of (put new (1 ∷ []) second) (1 ∷ []) ≡ some ((1 ∷ []) ∷ [])
unfolding ancestors_of put BTreeMap.lookup BTreeMap.insert
loop-ancestors = refl

loop-descendants : descendants_of (put new (1 ∷ []) second) (1 ∷ []) ≡ some ((1 ∷ []) ∷ [])
unfolding descendants_of put BTreeMap.lookup BTreeMap.insert
loop-descendants = refl

diamond-IsSorted : BTreeMap.IsSorted diamond.blocks
unfolding put BTreeMap.insert
diamond-IsSorted = ((refl, (refl, tt)), ((refl, tt), (tt, tt)))

validate_decides_example :
    (validate diamond ≢ none)
    × ((validate diamond ≡ some (ok tt)) ↔ IsLayered diamond)
    × ((hash : BlockHash) → validate diamond ≢ some (err (cycle_from hash)))
validate_decides_example = validate_decides diamond diamond-IsSorted

find_path-Answers_example : Answers diamond (3 ∷ []) (1 ∷ []) (find_path diamond (3 ∷ []) (1 ∷ []))
find_path-Answers_example = find_path-Answers diamond (3 ∷ []) (1 ∷ [])

searches_reach_example :
    ((found : List BlockHash) × (ancestors_of diamond (2 ∷ []) ≡ some found)
      × ((g : BlockHash) → (g ∈ found) ↔ Reaches (parents_of diamond) (2 ∷ []) g)
      × (IsLayered diamond → ¬ ((2 ∷ []) ∈ found)))
    × ((found : List BlockHash) × (descendants_of diamond (2 ∷ []) ≡ some found)
        × ((g : BlockHash) → (g ∈ found) ↔ Reaches (children_of diamond) (2 ∷ []) g)
        × (IsLayered diamond → IsIndexed diamond → ¬ ((2 ∷ []) ∈ found)))
searches_reach_example = searches_reach diamond (2 ∷ [])

abbrev entries : List (BlockHash × DagBlock)
entries = ((2 ∷ []), second) ∷ ((3 ∷ []), merge) ∷ ((1 ∷ []), genesis [] 7) ∷ []

entries-AreFresh : AreFresh new entries
unfolding get put BTreeMap.lookup BTreeMap.insert
entries-AreFresh = (refl, (refl, (refl, tt)))

descendants_of-ancestors_of_example :
    (below : List BlockHash) × (above : List BlockHash) × (descendants_of
        (put_all new entries)
        (1 ∷ [])
      ≡ some below)
    × (ancestors_of (put_all new entries) (3 ∷ []) ≡ some above)
    × (((3 ∷ []) ∈ below) ↔ ((1 ∷ []) ∈ above))
descendants_of-ancestors_of_example =
    descendants_of-ancestors_of entries (1 ∷ []) (3 ∷ []) entries-AreFresh
