-- ===== src/State/Dag/Validation.antt =====
-- `validate` accepts the stores whose blocks lie above their parents, and no others: behind its
-- first loop, the search for cycles finds none and has fuel enough.
use suwappu_db.Collections.BTreeMap
use suwappu_db.Collections.BTreeMap.{BTreeMap}
use suwappu_db.State.Dag.{
  DagBlock, DagStore, BlockHash, DagError, cycle_from, missing_parent, height_not_above,
  has_cycle_from, missing_parent, height_not_above, check_cycles, check_blocks, check_parents,
  validate, Seen, check_blocks,
}
use suwappu_db.State.Dag.Layers.{IsLayered, check_blocks-none, dfs_cycle-none}
use suwappu_db.Prelude.{
  Bool, ℕ, suc, ◌≡◌, ◌≢◌, ◌↔◌, inl, inr, List, [], ◌∷◌, Option, none, some, refl, arith, ok, err,
  true, false, list_ord, nat_ord, Option-cases, subst, leb, if◌then◌else◌,
}

has_cycle_from-none :
    (s : DagStore) (hash : BlockHash) (block : DagBlock)
    → IsLayered s
    → BTreeMap.lookup hash s.blocks ≡ some block
    → (after : Seen) × (has_cycle_from s hash block ≡ some (false, after))
unfolding has_cycle_from
has_cycle_from-none s hash block layered held =
    let (after, ran, part) =
      dfs_cycle-none s layered (suc block.height) hash block
        (record { visited = []; rec_stack = [] }) held (omega arith) (λ r h. absurd (cc h)) in
    (after, ran)

check_cycles-ok :
    (s : DagStore) (entries : BTreeMap BlockHash DagBlock)
    → IsLayered s
    → BTreeMap.Holds s.blocks entries
    → check_cycles s entries ≡ some (ok tt)
unfolding check_cycles
check_cycles-ok s [] layered held = refl
check_cycles-ok s ((hash, block) ∷ entries) layered held =
    let (after, ran) = has_cycle_from-none s hash block layered held.0 in
    rw (ran, check_cycles) (check_cycles-ok s entries layered held.1)

-- The error is one of the first loop.
abbrev IsNoCycle : DagError → Type 0
IsNoCycle e = (hash : BlockHash) → e ≢ cycle_from hash

either-IsNoCycle :
    (o rest : Option DagError) (e : DagError)
    → ((d : DagError) → o ≡ some d → IsNoCycle d)
    → (rest ≡ some e → IsNoCycle e)
    → elim o [ none ↦ rest | some d ↦ some d ] ≡ some e
    → IsNoCycle e
either-IsNoCycle none rest e here behind h = behind h
either-IsNoCycle (some d) rest e here behind h =
    subst IsNoCycle {x = d} {y = e} (cc h) (here d refl)

parent_error :
    (hash parent : BlockHash) (height : ℕ) (o : Option DagBlock) (rest : Option DagError)
    (e : DagError)
    → (rest ≡ some e → IsNoCycle e)
    → elim o [
      | none ↦ some (missing_parent hash parent)
      | some p ↦ if leb height p.height then some (height_not_above height p.height) else rest
    ]
      ≡ some e
    → IsNoCycle e
parent_error hash parent height none rest e behind h = (λ r q. cc (h, q))
parent_error hash parent height (some p) rest e behind h = by_test (leb height p.height) h
  where
    by_test :
        (c : Bool)
        → (if c then some (height_not_above height p.height) else rest) ≡ some e
        → IsNoCycle e
    by_test true h' r q = cc (h', q)
    by_test false h' r q = behind h' r q

check_parents-IsNoCycle :
    (s : DagStore) (hash : BlockHash) (block : DagBlock) (parents : List BlockHash) (e : DagError)
    → check_parents s hash block parents ≡ some e
    → IsNoCycle e
unfolding check_parents
check_parents-IsNoCycle s hash block [] e h = cc h
check_parents-IsNoCycle s hash block (parent ∷ parents) e h =
    parent_error hash parent block.height (BTreeMap.lookup parent s.blocks)
      (check_parents s hash block parents) e (check_parents-IsNoCycle s hash block parents e) h

check_blocks-IsNoCycle :
    (s : DagStore) (entries : BTreeMap BlockHash DagBlock) (e : DagError)
    → check_blocks s entries ≡ some e
    → IsNoCycle e
unfolding check_blocks
check_blocks-IsNoCycle s [] e h = cc h
check_blocks-IsNoCycle s ((hash, block) ∷ entries) e h =
    either-IsNoCycle (check_parents s hash block block.parent_hashes) (check_blocks s entries) e
      (check_parents-IsNoCycle s hash block block.parent_hashes)
      (check_blocks-IsNoCycle s entries e) h

-- For a store with its blocks in ascending order of their hashes, `validate` returns: it accepts the
-- store if and only if every parent of every block is in the store with a smaller height, and
-- otherwise gives an error of the first loop, never that of a cycle.
pub validate_decides :
    (s : DagStore)
    → BTreeMap.IsSorted s.blocks
    → (validate s ≢ none)
      × ((validate s ≡ some (ok tt)) ↔ IsLayered s)
      × ((hash : BlockHash) → validate s ≢ some (err (cycle_from hash)))
unfolding validate
validate_decides s sorted =
    let layers = check_blocks-none s s.blocks in
    elim (Option-cases (check_blocks s s.blocks)) [
      | inl h ↦
          let layered : IsLayered s = layers.0 h in
          let run : validate s ≡ some (ok tt) =
            rw (h, validate)
              (check_cycles-ok s s.blocks layered (BTreeMap.IsSorted-Holds s.blocks sorted)) in
          ((λ q. cc (q, run)), ((λ q. layered), (λ q. run)), (λ hash q. cc (q, run)))
      | inr h ↦
          let (e, found) = h in
          let run : validate s ≡ some (err e) = rw (found, validate) refl in
          let other = check_blocks-IsNoCycle s s.blocks e found in
          (
            (λ q. cc (q, run)),
            ((λ q. cc (q, run)), (λ q. let clear = layers.1 q in cc (clear, found))),
            (λ hash q. other hash (cc (q, run))),
          )
    ]
