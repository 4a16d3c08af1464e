-- ===== src/State/Dag/Walk.antt =====
-- The breadth-first walk of `ancestors_of` and `descendants_of`: it ends, and it gives the hashes that
-- are reached by one step or more.
use suwappu_db.State.Dag.{BlockHash, enqueue, breadth_first}
use suwappu_db.State.Dag.Hashes.{
  mem_nil, mem_last, ◌∈◌, mem_head, mem_behind, mem_cons, mem_left, mem_right, IsDistinct,
  length-IsDistinct,
}
use suwappu_db.State.Dag.Queue.{Enqueued, enqueue-Enqueued}
use suwappu_db.Prelude.{
  sym, ℕ, zero, suc, ◌+◌, ◌≡◌, ◌≤◌, ◌↔◌, ◌⊎◌, inl, inr, List, [], ◌∷◌, ◌++◌, refl, arith, list_eq,
  nat_eq, length, subst, length-append, some,
}

-- One step or more lead from the start to the hash.
pub data Reaches (next : BlockHash → List BlockHash) (start : BlockHash) : BlockHash → Type 0 where
  one_step : (h : BlockHash) → h ∈ next start → Reaches next start h
  further : (h g : BlockHash) → Reaches next start h → g ∈ next h → Reaches next start g

module _ (next : BlockHash → List BlockHash) (start : BlockHash) (all : List BlockHash) where
  -- Between two rounds of the loop.
  pub record Walking (fuel : ℕ) (queue visited out : List BlockHash) : Type 0 where
    distinct : IsDistinct visited
    fuelled : length all ≤ fuel + length out
    lengths : length out + length queue ≡ length visited
    within : (g : BlockHash) → g ∈ visited → g ∈ all
    reached : (g : BlockHash) → g ∈ visited → Reaches next start g
    placed : (g : BlockHash) → g ∈ visited → g ∈ out ⊎ g ∈ queue
    known : (g : BlockHash) → g ∈ queue → g ∈ visited
    out_known : (g : BlockHash) → g ∈ out → g ∈ visited
    started : (g : BlockHash) → g ∈ next start → g ∈ visited
    closed : (h g : BlockHash) → h ∈ out → g ∈ next h → g ∈ visited

  module _ (listed : (h g : BlockHash) → g ∈ next h → g ∈ all) where
    Walking-next :
        (fuel : ℕ) (current : BlockHash) (queue visited out : List BlockHash)
        (r : List BlockHash × List BlockHash)
        → Walking (suc fuel) (current ∷ queue) visited out
        → Enqueued (next current) queue visited r
        → Walking fuel r.0 r.1 (out ++ current ∷ [])
    Walking-next fuel current queue visited out r w e =
        let here : current ∈ visited = w.known current (mem_head current queue) in
        let long = length-append out (current ∷ []) in
        let last : current ∈ out ++ current ∷ [] =
          mem_right current out (current ∷ []) (mem_head current []) in
        record {
          distinct = e.distinct w.distinct;
          fuelled = omega (arith, w.fuelled, long);
          lengths = omega (arith, w.lengths, e.lengths, long);
          within = λ g i. elim (e.only g i) [
            | inl old ↦ w.within g old
            | inr new ↦ listed current g new
          ];
          reached = λ g i. elim (e.only g i) [
            | inl old ↦ w.reached g old
            | inr new ↦ further current g (w.reached current here) new
          ];
          placed = λ g i. elim (e.new_queued g i) [
            | inl old ↦ elim (w.placed g old) [
              | inl done ↦ inl (mem_left g out (current ∷ []) done)
              | inr waits ↦ elim (mem_cons g current queue waits) [
                | inl same ↦ inl (subst (λ h. h ∈ out ++ current ∷ []) same last)
                | inr behind ↦ inr (e.queued g behind)
              ]
            ]
            | inr new ↦ inr new
          ];
          known = λ g i. elim (e.queue_only g i) [
            | inl old ↦ e.keeps g (w.known g (mem_behind g current queue old))
            | inr new ↦ e.takes g new
          ];
          out_known = λ g i. elim (mem_last g current out i) [
            | inl old ↦ e.keeps g (w.out_known g old)
            | inr same ↦ e.keeps g (subst (λ h. h ∈ visited) same here)
          ];
          started = λ g i. e.keeps g (w.started g i);
          closed = λ h g i j. elim (mem_last h current out i) [
            | inl old ↦ e.keeps g (w.closed h g old j)
            | inr same ↦ e.takes g (subst (λ k. g ∈ next k) (sym same) j)
          ];
        }

    -- All that the walk can reach is in the output when the queue is empty.
    Walking-complete :
        (fuel : ℕ) (visited out : List BlockHash) (g : BlockHash)
        → Walking fuel [] visited out
        → Reaches next start g
        → g ∈ visited
    Walking-complete fuel visited out _ w (one_step g i) = w.started g i
    Walking-complete fuel visited out _ w (further h g r i) =
        elim (w.placed h (Walking-complete fuel visited out h w r)) [
          | inl done ↦ w.closed h g done i
          | inr never ↦ absurd (mem_nil h never)
        ]

    pub breadth_first-reaches :
        (fuel : ℕ) (queue visited out : List BlockHash)
        → Walking fuel queue visited out
        → (result : List BlockHash) × (breadth_first next fuel queue visited out ≡ some result)
          × ((g : BlockHash) → (g ∈ result) ↔ Reaches next start g)
    unfolding breadth_first
    breadth_first-reaches fuel [] visited out w = (
      out,
      refl,
      (λ g. (
        (λ i. w.reached g (w.out_known g i)),
        (λ r. elim (w.placed g (Walking-complete fuel visited out g w r)) [
          | inl done ↦ done
          | inr never ↦ absurd (mem_nil g never)
        ]),
      )),
    )
    breadth_first-reaches zero (current ∷ queue) visited out w =
        absurd
          (omega (arith, w.fuelled, w.lengths, length-IsDistinct visited all w.distinct w.within))
    breadth_first-reaches (suc fuel) (current ∷ queue) visited out w =
        let r : List BlockHash × List BlockHash = enqueue (next current) queue visited in
        breadth_first-reaches fuel r.0 r.1 (out ++ current ∷ []) (
          Walking-next fuel current queue visited out r w
            (enqueue-Enqueued (next current) queue visited))

    -- The walk from the start, as the source begins it.
    pub walk-reaches :
        (fuel : ℕ)
        → length all ≤ fuel
        → (result : List BlockHash) × (breadth_first next fuel
              (enqueue (next start) [] []).0
              (enqueue (next start) [] []).1
              []
            ≡ some result)
          × ((g : BlockHash) → (g ∈ result) ↔ Reaches next start g)
    walk-reaches fuel enough =
        let r : List BlockHash × List BlockHash = enqueue (next start) [] [] in
        let e = enqueue-Enqueued (next start) [] [] in
        let first : (g : BlockHash) → g ∈ r.1 → g ∈ next start =
          λ g i. elim (e.only g i) [ inl never ↦ absurd (mem_nil g never) | inr new ↦ new ] in
        breadth_first-reaches fuel r.0 r.1 [] (record {
          distinct = e.distinct tt;
          fuelled = omega (arith, enough);
          lengths = omega (arith, e.lengths);
          within = λ g i. listed start g (first g i);
          reached = λ g i. one_step g (first g i);
          placed = λ g i. elim (e.new_queued g i) [
            | inl never ↦ absurd (mem_nil g never)
            | inr new ↦ inr new
          ];
          known = λ g i. elim (e.queue_only g i) [
            | inl never ↦ absurd (mem_nil g never)
            | inr new ↦ e.takes g new
          ];
          out_known = λ g i. absurd (mem_nil g i);
          started = e.takes;
          closed = λ h g i j. absurd (mem_nil h i);
        })
