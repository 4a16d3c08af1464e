-- ===== src/State/Dag/Layers.antt =====
-- The two searches of `validate` over stores whose blocks lie above their parents.
use suwappu_db.Collections.BTreeMap.{BTreeMap}
use suwappu_db.State.Dag.{
  leave, parents_of, missing_parent, DagError, dfs_parents, Seen, dfs_cycle, check_blocks,
  height_not_above, check_parents, DagBlock, DagStore, with_hash, remove_hash, BlockHash,
  contains_hash,
}
use suwappu_db.Collections.BTreeMap
use suwappu_db.Prelude.{
  Option, is_eq, subst, Bool, leb, ap, list_beq_iff, ℕ, zero, suc, ◌≡◌, ◌≢◌, ◌<◌, ◌≤◌, ◌↔◌, ◌⊎◌,
  inl, inr, List, [], ◌∷◌, All, none, some, refl, arith, true, false, Bool-cases, if◌then◌else◌,
  list_eq, nat_eq, list_ord, nat_ord,
}

contains-with_hash :
    (r node : BlockHash) (hs : List BlockHash)
    → contains_hash r (with_hash node hs) ≡ true
    → (node ≡ r) ⊎ (contains_hash r hs ≡ true)
unfolding contains_hash
contains-with_hash r node hs h = ground (arith, list_beq_iff node r, h)

contains-remove_hash :
    (r node : BlockHash) (hs : List BlockHash)
    → contains_hash r (remove_hash node hs) ≡ true
    → (node ≢ r) × (contains_hash r hs ≡ true)
unfolding contains_hash remove_hash
contains-remove_hash r node [] h = cc h
contains-remove_hash r node (k ∷ hs) h =
    ground (arith, list_beq_iff k node, list_beq_iff k r, contains-remove_hash r node hs, h)

pub lookup-All {ℓ} :
    (P : DagBlock → Type ℓ) (m : BTreeMap BlockHash DagBlock) (hash : BlockHash) (block : DagBlock)
    → All (λ e. P e.1) m
    → BTreeMap.lookup hash m ≡ some block
    → P block
unfolding BTreeMap.lookup
lookup-All P [] hash block h e = cc e
lookup-All P ((k, b) ∷ m) hash block h e =
    at_key (is_eq (list_ord.cmp hash k)) e (lookup-All P m hash block h.1)
  where
    at_key :
        (c : Bool)
        → (if c then some b else BTreeMap.lookup hash m) ≡ some block
        → (BTreeMap.lookup hash m ≡ some block → P block)
        → P block
    at_key true q rest = subst P (cc q) h.0
    at_key false q rest = rest q

-- The hash leads to a block below the height.
abbrev pub IsBelow : DagStore → ℕ → BlockHash → Type 0
IsBelow s height hash =
    (block : DagBlock) × (BTreeMap.lookup hash s.blocks ≡ some block) × (block.height < height)

-- Every parent of every block is in the store, with a smaller height.
abbrev pub IsLayered : DagStore → Type 0
IsLayered s = All (λ e. All (IsBelow s e.1.height) e.1.parent_hashes) s.blocks

judged :
    (hash parent : BlockHash) (height : ℕ) (o : Option DagBlock) (rest : Option DagError)
    → (elim o [
      | none ↦ some (missing_parent hash parent)
      | some p ↦ if leb height p.height then some (height_not_above height p.height) else rest
    ]
        ≡ none)
      ↔ (((p : DagBlock) × (o ≡ some p) × (p.height < height)) × (rest ≡ none))
judged hash parent height none rest = ((λ e. cc e), (λ h. cc h.0.1))
judged hash parent height (some p) rest = (
  (λ e. ((p, refl, ground (arith, e)), ground (arith, e))),
  (λ h.
      let (q, same, low) = h.0 in
      let same' : q ≡ p = cc same in
      let below = subst (λ (c : DagBlock). c.height < height) {x = q} {y = p} same' low in
      ground (arith, below, h.1)),
)

check_parents-none :
    (s : DagStore) (hash : BlockHash) (block : DagBlock) (parents : List BlockHash)
    → (check_parents s hash block parents ≡ none) ↔ All (IsBelow s block.height) parents
unfolding check_parents
check_parents-none s hash block [] = ((λ e. tt), (λ h. refl))
check_parents-none s hash block (parent ∷ parents) =
    let here =
      judged hash parent block.height (BTreeMap.lookup parent s.blocks)
        (check_parents s hash block parents) in
    let rest = check_parents-none s hash block parents in
    ((λ e. ((here.0 e).0, rest.0 (here.0 e).1)), (λ h. here.1 (h.0, rest.1 h.1)))

first_error :
    (o rest : Option DagError)
    → (elim o [ none ↦ rest | some e ↦ some e ] ≡ none) ↔ ((o ≡ none) × (rest ≡ none))
first_error none rest = ((λ e. (refl, e)), (λ h. h.1))
first_error (some e) rest = ((λ q. cc q), (λ h. cc h.0))

pub check_blocks-none :
    (s : DagStore) (bs : BTreeMap BlockHash DagBlock)
    → (check_blocks s bs ≡ none) ↔ All (λ e. All (IsBelow s e.1.height) e.1.parent_hashes) bs
unfolding check_blocks
check_blocks-none s [] = ((λ e. tt), (λ h. refl))
check_blocks-none s ((hash, block) ∷ bs) =
    let here = check_parents-none s hash block block.parent_hashes in
    let rest = check_blocks-none s bs in
    let both = first_error (check_parents s hash block block.parent_hashes) (check_blocks s bs) in
    ((λ e. (here.0 (both.0 e).0, rest.0 (both.0 e).1)), (λ h. both.1 (here.1 h.0, rest.1 h.1)))

module _ (s : DagStore) where
  -- The hash leads to a block above the height.
  abbrev IsAbove : ℕ → BlockHash → Type 0
  IsAbove height hash =
      (block : DagBlock) × (BTreeMap.lookup hash s.blocks ≡ some block) × (height ≤ block.height)

  abbrev AreAbove : ℕ → List BlockHash → Type 0
  AreAbove height hs = (r : BlockHash) → contains_hash r hs ≡ true → IsAbove height r

  abbrev IsPart : List BlockHash → List BlockHash → Type 0
  IsPart xs ys = (r : BlockHash) → contains_hash r xs ≡ true → contains_hash r ys ≡ true

  -- The search from a block below the height finds no cycle and leaves the stack as it was.
  abbrev FindsNone : (BlockHash → Seen → Option (Bool × Seen)) → ℕ → Type 0
  FindsNone visit height =
      (p : BlockHash) (block : DagBlock) (seen : Seen)
      → BTreeMap.lookup p s.blocks ≡ some block
      → block.height < height
      → AreAbove (suc block.height) seen.rec_stack
      → (after : Seen) × (visit p seen ≡ some (false, after))
        × IsPart after.rec_stack seen.rec_stack

  dfs_parents-none :
      (visit : BlockHash → Seen → Option (Bool × Seen)) (height : ℕ) (parents : List BlockHash)
      (seen : Seen)
      → FindsNone visit height
      → All (IsBelow s height) parents
      → AreAbove height seen.rec_stack
      → (after : Seen) × (dfs_parents visit parents seen ≡ some (false, after))
        × IsPart after.rec_stack seen.rec_stack
  unfolding dfs_parents
  dfs_parents-none visit height [] seen none_found low high = (seen, refl, (λ r h. h))
  dfs_parents-none visit height (parent ∷ parents) seen none_found low high =
      let (block, held, below) = low.0 in
      elim (Bool-cases (contains_hash parent seen.visited)) [
        | inl was ↦ elim (Bool-cases (contains_hash parent seen.rec_stack)) [
          | inl on ↦
              let (other, at, above) = high parent on in
              let same : block ≡ other = cc (held, at) in
              absurd (omega (arith, below, above, ap (λ (c : DagBlock). c.height) same))
          | inr off ↦
              let (after, ran, part) =
                dfs_parents-none visit height parents seen none_found low.1 high in
              (after, rw (was, off) ran, part)
        ]
        | inr fresh ↦
            let (next, ran, part) = none_found parent block seen held below (λ r on.
              let (other, at, above) = high r on in (other, at, omega (arith, above, below))) in
            let (after, goes, rest) =
              dfs_parents-none visit height parents next none_found low.1
                (λ r on. high r (part r on)) in
            (after, rw (fresh, ran) goes, (λ r on. part r (rest r on)))
      ]

  parents-held :
      (p : BlockHash) (block : DagBlock)
      → BTreeMap.lookup p s.blocks ≡ some block
      → parents_of s p ≡ block.parent_hashes
  unfolding parents_of
  parents-held p block held = rw (held, parents_of) refl

  pub dfs_cycle-none : IsLayered s → (fuel : ℕ) → FindsNone (dfs_cycle s fuel) fuel
  unfolding dfs_cycle
  dfs_cycle-none layered zero p block seen held low high = absurd (omega (arith, low))
  dfs_cycle-none layered (suc fuel) p block seen held low high =
      let entered : Seen = record {
        visited = with_hash p seen.visited;
        rec_stack = with_hash p seen.rec_stack;
      } in
      let parents =
        lookup-All (λ c. All (IsBelow s c.height) c.parent_hashes) s.blocks p block layered held in
      let (after, ran, part) =
        dfs_parents-none (dfs_cycle s fuel) block.height block.parent_hashes entered
          (λ q c seen' at below above.
            dfs_cycle-none layered fuel q c seen' at (omega (arith, below, low)) above)
          parents
          (λ r on. elim (contains-with_hash r p seen.rec_stack on) [
            | inl same ↦
                (block, subst (λ k. BTreeMap.lookup k s.blocks ≡ some block) same held, omega arith)
            | inr deep ↦ let (other, at, above) = high r deep in (other, at, omega (arith, above))
          ]) in
      (
        record after { rec_stack = remove_hash p after.rec_stack },
        rw (parents-held p block held) (ap (leave p) ran),
        (λ r on.
            let kept = contains-remove_hash r p after.rec_stack on in
            elim (contains-with_hash r p seen.rec_stack (part r kept.1)) [
              | inl same ↦ absurd (kept.0 same)
              | inr deep ↦ deep
            ]),
      )
