-- ===== src/State/Dag/Descent.antt =====
-- In a store whose blocks lie above their parents no steps lead from a block back to it.
use suwappu_db.Collections.BTreeMap
use suwappu_db.State.Dag.{BlockHash, DagBlock, DagStore, parents_of}
use suwappu_db.State.Dag.Hashes.{◌∈◌, mem_cons, mem_nil}
use suwappu_db.State.Dag.Layers.{IsBelow, IsLayered, lookup-All}
use suwappu_db.State.Dag.Walk.{Reaches, one_step, further}
use suwappu_db.Prelude.{
  ◌≡◌, List, [], ◌∷◌, inl, inr, All, refl, arith, list_eq, nat_eq, list_ord, nat_ord, subst, some,
  Option-cases, ap,
}

All-mem : (P : BlockHash → Type 0) (g : BlockHash) (hs : List BlockHash) → All P hs → g ∈ hs → P g
All-mem P g [] all i = absurd (mem_nil g i)
All-mem P g (h ∷ hs) all i = elim (mem_cons g h hs i) [
  | inl same ↦ subst P same all.0
  | inr later ↦ All-mem P g hs all.1 later
]

module _ (s : DagStore) (layered : IsLayered s) where
  -- The first hash is of a block, and the second of a block below it.
  abbrev Falls : BlockHash → BlockHash → Type 0
  Falls h g =
      (block : DagBlock) × (BTreeMap.lookup h s.blocks ≡ some block) × IsBelow s block.height g

  Falls-parent : (h g : BlockHash) → g ∈ parents_of s h → Falls h g
  unfolding parents_of
  Falls-parent h g i = elim (Option-cases (BTreeMap.lookup h s.blocks)) [
    | inl missing ↦
        let empty : parents_of s h ≡ [] = rw (missing, parents_of) refl in
        absurd (mem_nil g (subst (λ l. g ∈ l) empty i))
    | inr (block, held) ↦
        let same : parents_of s h ≡ block.parent_hashes = rw (held, parents_of) refl in
        let below =
          lookup-All (λ c. All (IsBelow s c.height) c.parent_hashes) s.blocks h block layered
            held in
        (
          block,
          held,
          All-mem (IsBelow s block.height) g block.parent_hashes below (subst (λ l. g ∈ l) same i),
        )
  ]

  Falls-trans : (h g f : BlockHash) → Falls h g → Falls g f → Falls h f
  Falls-trans h g f (block, held, (mid, at, low)) (mid', at', (last, end, lower)) =
      let same : mid ≡ mid' = cc (at, at') in
      let heights = ap (λ (c : DagBlock). c.height) same in
      (block, held, (last, end, omega (arith, low, lower, heights)))

  Falls-Reaches : (h g : BlockHash) → Reaches (parents_of s) h g → Falls h g
  Falls-Reaches h _ (one_step g i) = Falls-parent h g i
  Falls-Reaches h _ (further f g r i) = Falls-trans h f g (Falls-Reaches h f r) (Falls-parent f g i)

  pub no_return : (h : BlockHash) → ¬ Reaches (parents_of s) h h
  no_return h r =
      let (block, held, (other, at, low)) = Falls-Reaches h h r in
      let same : block ≡ other = cc (held, at) in
      absurd (omega (arith, low, ap (λ (c : DagBlock). c.height) same))
