-- ===== src/State/Dag/Search.antt =====
-- The loop of `find_path` over the parents of one block.
use suwappu_db.Collections.HashMap
use suwappu_db.Collections.HashMap.{HashMap}
use suwappu_db.State.Dag.{
  BlockHash, DagStore, Found, target, onward, contains_hash, parents_of, walk_parents,
}
use suwappu_db.State.Dag.Hashes.{
  cons_misses, mem_cons_false, ◌∈◌, mem_head, mem_behind, mem_cons, mem_left, mem_right, mem_last,
  mem_nil, IsDistinct,
}
use suwappu_db.State.Dag.Route.{Trace, back, Trace-insert}
use suwappu_db.Prelude.{
  suc, ◌+◌, ◌≡◌, ◌≢◌, ◌≤◌, ◌⊎◌, inl, inr, List, [], ◌∷◌, ◌++◌, refl, arith, true, false, ◌==◌,
  beq_ne, beq_refl, beq-cases, list_beq_iff, list_eq, nat_eq, length, length-append, subst, none,
  some, sym, Bool-cases,
}

module _ (s : DagStore) (from to : BlockHash) (all : List BlockHash) where
  -- The map leads back from the hash, in no more steps than it has entries.
  abbrev pub IsTraced : HashMap BlockHash BlockHash → BlockHash → Type 0
  IsTraced m g = (path : List BlockHash) × Trace s from m g path × (length path ≤ length m)

  -- While the parents `rest` of the last of the blocks in `out` are still to be looked at.
  pub record Searching (rest queue visited out : List BlockHash) (m : HashMap BlockHash BlockHash)
      : Type 0 where
    pub distinct : IsDistinct visited
    pub lengths : length out + length queue ≡ length visited
    pub within : (g : BlockHash) → g ∈ visited → g ∈ all
    pub traced : (g : BlockHash) → g ∈ visited → IsTraced m g
    pub unmapped : (g : BlockHash) → contains_hash g visited ≡ false → HashMap.lookup g m ≡ none
    pub origin_known : from ∈ visited
    pub placed : (g : BlockHash) → g ∈ visited → g ∈ out ⊎ g ∈ queue
    pub known : (g : BlockHash) → g ∈ queue → g ∈ visited
    pub out_known : (g : BlockHash) → g ∈ out → g ∈ visited
    pub closed : (h g : BlockHash) → h ∈ out → g ∈ parents_of s h → g ∈ visited ⊎ g ∈ rest
    pub missed : contains_hash to visited ≡ false

  pub Searching-enter :
      (current : BlockHash) (queue visited out : List BlockHash) (m : HashMap BlockHash BlockHash)
      → Searching [] (current ∷ queue) visited out m
      → Searching (parents_of s current) queue visited (current ∷ out) m
  Searching-enter current queue visited out m w = record {
    distinct = w.distinct;
    lengths = omega (arith, w.lengths);
    within = w.within;
    traced = w.traced;
    unmapped = w.unmapped;
    origin_known = w.origin_known;
    placed = λ g i. elim (w.placed g i) [
      | inl done ↦ inl (mem_behind g current out done)
      | inr waits ↦ elim (mem_cons g current queue waits) [
        | inl same ↦ inl (subst (λ h. h ∈ current ∷ out) same (mem_head current out))
        | inr behind ↦ inr behind
      ]
    ];
    known = λ g i. w.known g (mem_behind g current queue i);
    out_known = λ g i. elim (mem_cons g current out i) [
      | inl same ↦ subst (λ h. h ∈ visited) same (w.known current (mem_head current queue))
      | inr old ↦ w.out_known g old
    ];
    closed = λ h g i j. elim (mem_cons h current out i) [
      | inl same ↦ inr (subst (λ k. g ∈ parents_of s k) (sym same) j)
      | inr old ↦ elim (w.closed h g old j) [
        | inl in_visited ↦ inl in_visited
        | inr never ↦ absurd (mem_nil g never)
      ]
    ];
    missed = w.missed;
  }

  Searching-seen :
      (p : BlockHash) (rest queue visited out : List BlockHash) (m : HashMap BlockHash BlockHash)
      → p ∈ visited
      → Searching (p ∷ rest) queue visited out m
      → Searching rest queue visited out m
  Searching-seen p rest queue visited out m seen w = record {
    distinct = w.distinct;
    lengths = w.lengths;
    within = w.within;
    traced = w.traced;
    unmapped = w.unmapped;
    origin_known = w.origin_known;
    placed = w.placed;
    known = w.known;
    out_known = w.out_known;
    closed = λ h g i j. elim (w.closed h g i j) [
      | inl old ↦ inl old
      | inr left ↦ elim (mem_cons g p rest left) [
        | inl same ↦ inl (subst (λ k. k ∈ visited) same seen)
        | inr later ↦ inr later
      ]
    ];
    missed = w.missed;
  }

  Searching-fresh :
      (current p : BlockHash) (rest queue visited out : List BlockHash)
      (m : HashMap BlockHash BlockHash)
      → contains_hash p visited ≡ false
      → p ≢ to
      → p ∈ parents_of s current
      → current ∈ visited
      → p ∈ all
      → Searching (p ∷ rest) queue visited out m
      → Searching rest (queue ++ p ∷ []) (p ∷ visited) out (HashMap.insert p current m)
  Searching-fresh current p rest queue visited out m fresh differs named here listed w =
      let unmapped' = w.unmapped p fresh in
      let away : p ≢ from =
        λ e. let seen = subst (λ h. h ∈ visited) (sym e) w.origin_known in cc (seen, fresh) in
      let longer : length (HashMap.insert p current m) ≡ suc (length m) =
        HashMap.length-insert p current m unmapped' in
      let step : HashMap.lookup p (HashMap.insert p current m) ≡ some current =
        rw (HashMap.lookup-insert p p current m, beq_refl p) refl in
      record {
        distinct = (fresh, w.distinct);
        lengths = omega (arith, w.lengths, length-append queue (p ∷ []));
        within = λ g i. elim (mem_cons g p visited i) [
          | inl same ↦ subst (λ h. h ∈ all) same listed
          | inr old ↦ w.within g old
        ];
        traced = λ g i. elim (mem_cons g p visited i) [
          | inl same ↦
              let (path, trace, short) = w.traced current here in
              subst (λ h. IsTraced (HashMap.insert p current m) h) same
                (
                  p ∷ path,
                  back p current path step named
                      (Trace-insert s from p current m current path unmapped' away trace),
                  omega (arith, short, longer),
                )
          | inr old ↦
              let (path, trace, short) = w.traced g old in
              (
                path,
                Trace-insert s from p current m g path unmapped' away trace,
                omega (arith, short, longer),
              )
        ];
        unmapped = λ g lacks.
            let apart = mem_cons_false g p visited lacks in
            rw (HashMap.lookup-insert p g current m, beq_ne p g apart.0) (w.unmapped g apart.1);
        origin_known = mem_behind from p visited w.origin_known;
        placed = λ g i. elim (mem_cons g p visited i) [
          | inl same ↦
              inr (mem_right g queue (p ∷ []) (subst (λ h. h ∈ p ∷ []) same (mem_head p [])))
          | inr old ↦ elim (w.placed g old) [
            | inl done ↦ inl done
            | inr waits ↦ inr (mem_left g queue (p ∷ []) waits)
          ]
        ];
        known = λ g i. elim (mem_last g p queue i) [
          | inl old ↦ mem_behind g p visited (w.known g old)
          | inr same ↦ subst (λ h. h ∈ p ∷ visited) same (mem_head p visited)
        ];
        out_known = λ g i. mem_behind g p visited (w.out_known g i);
        closed = λ h g i j. elim (w.closed h g i j) [
          | inl old ↦ inl (mem_behind g p visited old)
          | inr left ↦ elim (mem_cons g p rest left) [
            | inl same ↦ inl (subst (λ k. k ∈ p ∷ visited) same (mem_head p visited))
            | inr later ↦ inr later
          ]
        ];
        missed = cons_misses to p visited differs w.missed;
      }

  -- What the walk over the parents of a block gives: a trace of the block beside the target, or the
  -- loop's state with no parent left.
  unfoldable pub Walked : BlockHash → List BlockHash → Found → Type 0
  Walked current out (target m) = IsTraced m current × to ∈ parents_of s current
  Walked current out (onward queue visited m) = Searching [] queue visited out m

  pub walk_parents-Walked :
      (current : BlockHash) (rest queue visited out : List BlockHash)
      (m : HashMap BlockHash BlockHash)
      → ((g : BlockHash) → g ∈ rest → g ∈ parents_of s current)
      → ((g : BlockHash) → g ∈ parents_of s current → g ∈ all)
      → current ∈ visited
      → Searching rest queue visited out m
      → Walked current out (walk_parents to current rest queue visited m)
  unfolding walk_parents Walked
  walk_parents-Walked current [] queue visited out m part listed here w = w
  walk_parents-Walked current (p ∷ rest) queue visited out m part listed here w =
      let named = part p (mem_head p rest) in
      let later : (g : BlockHash) → g ∈ rest → g ∈ parents_of s current =
        λ g i. part g (mem_behind g p rest i) in
      elim (beq-cases p to) [
        | inl same ↦
            let hit : (p == to) ≡ true = (list_beq_iff p to).1 same in
            rw (hit, walk_parents)
              (w.traced current here, subst (λ h. h ∈ parents_of s current) same named)
        | inr miss ↦ elim (Bool-cases (contains_hash p visited)) [
          | inl seen ↦
              rw (miss.0, seen, walk_parents)
                (walk_parents-Walked current rest queue visited out m later listed here
                  (Searching-seen p rest queue visited out m seen w))
          | inr fresh ↦
              rw (miss.0, fresh, walk_parents)
                (walk_parents-Walked current rest (queue ++ p ∷ []) (p ∷ visited) out
                  (HashMap.insert p current m) later listed (mem_behind current p visited here)
                  (Searching-fresh current p rest queue visited out m fresh miss.1 named here
                    (listed p named) w))
        ]
      ]
