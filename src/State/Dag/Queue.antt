-- ===== src/State/Dag/Queue.antt =====
-- What the inner loop of `ancestors_of` and `descendants_of` does to the queue and the visited hashes.
use suwappu_db.State.Dag.{BlockHash, contains_hash, enqueue}
use suwappu_db.State.Dag.Hashes.{
  ◌∈◌, mem_head, mem_behind, mem_cons, mem_left, mem_right, mem_append, IsDistinct,
}
use suwappu_db.Prelude.{
  ◌+◌, ◌≡◌, ◌⊎◌, inl, inr, List, [], ◌∷◌, ◌++◌, arith, false, Bool-cases, list_eq, nat_eq, length,
  subst, length-append,
}

-- What `enqueue` does to a queue and the visited hashes.
pub record Enqueued (ps queue visited : List BlockHash) (r : List BlockHash × List BlockHash)
    : Type 0 where
  pub distinct : IsDistinct visited → IsDistinct r.1
  pub lengths : length r.0 + length visited ≡ length queue + length r.1
  pub keeps : (g : BlockHash) → g ∈ visited → g ∈ r.1
  pub takes : (g : BlockHash) → g ∈ ps → g ∈ r.1
  pub only : (g : BlockHash) → g ∈ r.1 → g ∈ visited ⊎ g ∈ ps
  pub queued : (g : BlockHash) → g ∈ queue → g ∈ r.0
  pub new_queued : (g : BlockHash) → g ∈ r.1 → g ∈ visited ⊎ g ∈ r.0
  pub queue_only : (g : BlockHash) → g ∈ r.0 → g ∈ queue ⊎ g ∈ ps

seen_parent :
    (p : BlockHash) (ps queue visited : List BlockHash) (r : List BlockHash × List BlockHash)
    → p ∈ visited
    → Enqueued ps queue visited r
    → Enqueued (p ∷ ps) queue visited r
seen_parent p ps queue visited r seen rest = record {
  distinct = rest.distinct;
  lengths = rest.lengths;
  keeps = rest.keeps;
  takes = λ g i. elim (mem_cons g p ps i) [
    | inl same ↦ rest.keeps g (subst (λ h. h ∈ visited) same seen)
    | inr i' ↦ rest.takes g i'
  ];
  only = λ g i. elim (rest.only g i) [ inl i' ↦ inl i' | inr i' ↦ inr (mem_behind g p ps i') ];
  queued = rest.queued;
  new_queued = rest.new_queued;
  queue_only =
      λ g i. elim (rest.queue_only g i) [ inl i' ↦ inl i' | inr i' ↦ inr (mem_behind g p ps i') ];
}

fresh_parent :
    (p : BlockHash) (ps queue visited : List BlockHash) (r : List BlockHash × List BlockHash)
    → contains_hash p visited ≡ false
    → Enqueued ps (queue ++ p ∷ []) (p ∷ visited) r
    → Enqueued (p ∷ ps) queue visited r
unfolding contains_hash
fresh_parent p ps queue visited r fresh rest = record {
  distinct = λ d. rest.distinct (fresh, d);
  lengths = omega (arith, rest.lengths, length-append queue (p ∷ []));
  keeps = λ g i. rest.keeps g (mem_behind g p visited i);
  takes = λ g i. elim (mem_cons g p ps i) [
    | inl same ↦ rest.keeps g (subst (λ h. h ∈ p ∷ visited) same (mem_head p visited))
    | inr i' ↦ rest.takes g i'
  ];
  only = λ g i. elim (rest.only g i) [
    | inl i' ↦ elim (mem_cons g p visited i') [
      | inl same ↦ inr (subst (λ h. h ∈ p ∷ ps) same (mem_head p ps))
      | inr old ↦ inl old
    ]
    | inr i' ↦ inr (mem_behind g p ps i')
  ];
  queued = λ g i. rest.queued g (mem_left g queue (p ∷ []) i);
  new_queued = λ g i. elim (rest.new_queued g i) [
    | inl i' ↦ elim (mem_cons g p visited i') [
      | inl same ↦ inr (
          rest.queued g (mem_right g queue (p ∷ []) (subst (λ h. h ∈ p ∷ []) same (mem_head p []))))
      | inr old ↦ inl old
    ]
    | inr i' ↦ inr i'
  ];
  queue_only = λ g i. elim (rest.queue_only g i) [
    | inl i' ↦ elim (mem_append g queue (p ∷ []) i') [
      | inl old ↦ inl old
      | inr one ↦ elim (mem_cons g p [] one) [
        | inl same ↦ inr (subst (λ h. h ∈ p ∷ ps) same (mem_head p ps))
        | inr never ↦ inr (mem_behind g p ps (cc never))
      ]
    ]
    | inr i' ↦ inr (mem_behind g p ps i')
  ];
}

pub enqueue-Enqueued :
    (ps queue visited : List BlockHash) → Enqueued ps queue visited (enqueue ps queue visited)
unfolding enqueue
enqueue-Enqueued [] queue visited = record {
  distinct = λ d. d;
  lengths = omega arith;
  keeps = λ g i. i;
  takes = λ g i. cc i;
  only = λ g i. inl i;
  queued = λ g i. i;
  new_queued = λ g i. inl i;
  queue_only = λ g i. inl i;
}
enqueue-Enqueued (p ∷ ps) queue visited = elim (Bool-cases (contains_hash p visited)) [
  | inl seen ↦
      rw (seen, enqueue)
        (seen_parent p ps queue visited (enqueue ps queue visited) seen
          (enqueue-Enqueued ps queue visited))
  | inr fresh ↦
      rw (fresh, enqueue)
        (fresh_parent p ps queue visited (enqueue ps (queue ++ p ∷ []) (p ∷ visited)) fresh
          (enqueue-Enqueued ps (queue ++ p ∷ []) (p ∷ visited)))
]
