-- ===== src/State/Dag/FindPath.antt =====
-- `find_path` returns, with a route where there is one and without where there is none.
use suwappu_db.Collections.HashMap
use suwappu_db.Collections.HashMap.{HashMap}
use suwappu_db.State.Dag.{
  BlockHash, DagBlock, DagStore, Found, target, onward, contains_hash, parents_of, walk_parents,
  search_path, find_path, edges, trace_back, whole_path, reverse_onto,
}
use suwappu_db.State.Dag.Hashes.{
  ◌∈◌, mem_head, mem_behind, mem_cons, mem_nil, length-IsDistinct, cons_misses,
}
use suwappu_db.State.Dag.Route.{Route, arrived, descend, origin, trace_back-Trace, Trace-Route}
use suwappu_db.State.Dag.Search.{Searching, Searching-enter, Walked, walk_parents-Walked, IsTraced}
use suwappu_db.State.Dag.Ancestry.{listing, length-listing, parents_of-listed}
use suwappu_db.Prelude.{
  ℕ, zero, suc, ◌+◌, ◌≡◌, ◌≢◌, ◌≤◌, inl, inr, List, [], ◌∷◌, ◌++◌, refl, arith, true, ◌==◌,
  beq-cases, list_beq_iff, list_eq, nat_eq, length, subst, Option, none, some,
}

-- A route from the first hash to the second, or none where there is no route.
abbrev pub IsAnswer : DagStore → BlockHash → BlockHash → Option (List BlockHash) → Type 0
IsAnswer s from to none = (route : List BlockHash) → ¬ Route s from to route
IsAnswer s from to (some route) = Route s from to route

abbrev pub Answers : DagStore → BlockHash → BlockHash → Option (Option (List BlockHash)) → Type 0
Answers s from to result =
    (answer : Option (List BlockHash)) × (result ≡ some answer) × IsAnswer s from to answer

module _ (s : DagStore) (from to : BlockHash) (all : List BlockHash) where
  -- A finished search has seen all that can be reached.
  finished :
      (visited out : List BlockHash) (m : HashMap BlockHash BlockHash) (a b : BlockHash)
      (route : List BlockHash)
      → Searching s from to all [] [] visited out m
      → Route s a b route
      → a ∈ visited
      → b ∈ visited
  finished visited out m _ _ _ w (arrived a) seen = seen
  finished visited out m _ _ _ w (descend a b c rest named route) seen = elim (w.placed a seen) [
    | inr never ↦ absurd (mem_nil a never)
    | inl done ↦ elim (w.closed a b done named) [
      | inl next ↦ finished visited out m b c rest w route next
      | inr never ↦ absurd (mem_nil b never)
    ]
  ]

  found :
      (current : BlockHash) (m : HashMap BlockHash BlockHash)
      → IsTraced s from to all m current
      → to ∈ parents_of s current
      → Answers s from to (whole_path from to (trace_back (suc (length m)) m current))
  found current m traced named =
      let (path, trace, short) = traced in
      let run =
        trace_back-Trace s from m current path (suc (length m)) trace (omega (arith, short)) in
      rw run (
        some (reverse_onto (to ∷ path ++ from ∷ []) []),
        refl,
        Trace-Route s from m current to to path (to ∷ []) trace named (arrived to),
      )

  module _ (listed : (h g : BlockHash) → g ∈ parents_of s h → g ∈ all) where
    search_path-Answers :
        (fuel : ℕ) (queue visited out : List BlockHash) (m : HashMap BlockHash BlockHash)
        → length all ≤ fuel + length out
        → Searching s from to all [] queue visited out m
        → Answers s from to (search_path s from to fuel queue visited m)
    unfolding search_path Walked
    search_path-Answers fuel [] visited out m enough w = (
      none,
      refl,
      (λ route r.
          let seen = finished visited out m from to route w r w.origin_known in
          let lacks = w.missed in cc (seen, lacks)),
    )
    search_path-Answers zero (current ∷ queue) visited out m enough w =
        absurd (omega (arith, enough, w.lengths, length-IsDistinct visited all w.distinct w.within))
    search_path-Answers (suc fuel) (current ∷ queue) visited out m enough w =
        let here = w.known current (mem_head current queue) in
        continue (walk_parents to current (parents_of s current) queue visited m)
          (walk_parents-Walked s from to all current (parents_of s current) queue visited
            (current ∷ out) m (λ g i. i) (listed current) here
            (Searching-enter s from to all current queue visited out m w))
          (λ queue' visited' m' w'.
            search_path-Answers fuel queue' visited' (current ∷ out) m' (omega (arith, enough)) w')
      where
        continue :
            (f : Found)
            → Walked s from to all current (current ∷ out) f
            → ((queue' visited' : List BlockHash) (m' : HashMap BlockHash BlockHash)
                → Searching s from to all [] queue' visited' (current ∷ out) m'
                → Answers s from to (search_path s from to fuel queue' visited' m'))
            → Answers s from to (elim f [
              | target m' ↦ whole_path from to (trace_back (suc (length m')) m' current)
              | onward queue' visited' m' ↦ search_path s from to fuel queue' visited' m'
            ])
        continue (target m') walked rest = found current m' walked.0 walked.1
        continue (onward queue' visited' m') walked rest = rest queue' visited' m' walked

-- Before the first round, with the start in the queue.
Searching-start :
    (s : DagStore) (from to : BlockHash) (all : List BlockHash)
    → from ≢ to
    → Searching s from to (from ∷ all) [] (from ∷ []) (from ∷ []) [] []
unfolding contains_hash HashMap.lookup
Searching-start s from to all differs =
    let only : (g : BlockHash) → g ∈ from ∷ [] → from ≡ g = λ g i. elim (mem_cons g from [] i) [
      | inl same ↦ same
      | inr never ↦ absurd (mem_nil g never)
    ] in
    record {
      distinct = (refl, tt);
      lengths = omega arith;
      within = λ g i. subst (λ h. h ∈ from ∷ all) (only g i) (mem_head from all);
      traced = λ g i.
          subst (λ h. IsTraced s from to (from ∷ all) [] h) (only g i)
            ([], origin refl, omega arith);
      unmapped = λ g lacks. refl;
      origin_known = mem_head from [];
      placed = λ g i. inr i;
      known = λ g i. i;
      out_known = λ g i. absurd (mem_nil g i);
      closed = λ h g i j. absurd (mem_nil h i);
      missed = cons_misses to from [] differs refl;
    }

-- `find_path` always returns: either a list that starts at the first hash, goes from each block to
-- one of its parents and ends at the second hash, or nothing, and then there is no such list.
pub find_path-Answers :
    (s : DagStore) (from to : BlockHash) → Answers s from to (find_path s from to)
unfolding find_path
find_path-Answers s from to = elim (beq-cases from to) [
  | inl same ↦
      let hit : (from == to) ≡ true = (list_beq_iff from to).1 same in
      rw (hit, find_path)
        (some (from ∷ []), refl, subst (λ k. Route s from k (from ∷ [])) same (arrived from))
  | inr miss ↦
      let all = listing (λ (b : DagBlock). b.parent_hashes) s.blocks in
      let long = length-listing (λ (b : DagBlock). b.parent_hashes) s.blocks in
      rw (miss.0, find_path)
        (search_path-Answers s from to (from ∷ all)
          (λ h g i. mem_behind g from all (parents_of-listed s h g i))
          (suc (edges (λ (b : DagBlock). b.parent_hashes) s.blocks)) (from ∷ []) (from ∷ []) [] []
          (omega (arith, long)) (Searching-start s from to all miss.1))
]
