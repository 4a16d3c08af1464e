-- ===== src/State/Dag/Route.antt =====
-- The routes from a block down to its ancestors, and the trace that `find_path` follows back.
use suwappu_db.Collections.HashMap
use suwappu_db.Collections.HashMap.{HashMap}
use suwappu_db.State.Dag.{BlockHash, DagStore, parents_of, trace_back, reverse_onto}
use suwappu_db.State.Dag.Hashes.{◌∈◌}
use suwappu_db.Prelude.{
  ℕ, zero, suc, ◌≡◌, ◌≢◌, ◌<◌, List, [], ◌∷◌, ◌++◌, refl, arith, beq_ne, list_eq, nat_eq, length,
  subst, none, some,
}

-- The list leads from the first hash to the second, from each block to one of its parents.
pub data Route (s : DagStore) : BlockHash → BlockHash → List BlockHash → Type 0 where
  arrived : (a : BlockHash) → Route s a a (a ∷ [])
  descend :
      (a b c : BlockHash) (rest : List BlockHash)
      → b ∈ parents_of s a
      → Route s b c rest
      → Route s a c (a ∷ rest)

-- The map leads from the hash back to the start, with the hashes on the way.
pub data Trace (s : DagStore) (from : BlockHash) (m : HashMap BlockHash BlockHash)
    : BlockHash → List BlockHash → Type 0 where
  origin : HashMap.lookup from m ≡ none → Trace s from m from []
  back :
      (g p : BlockHash) (path : List BlockHash)
      → HashMap.lookup g m ≡ some p
      → g ∈ parents_of s p
      → Trace s from m p path
      → Trace s from m g (g ∷ path)

module _ (s : DagStore) (from : BlockHash) where
  lookup-fresh :
      (k c g : BlockHash) (m : HashMap BlockHash BlockHash)
      → k ≢ g
      → HashMap.lookup g (HashMap.insert k c m) ≡ HashMap.lookup g m
  lookup-fresh k c g m differs = rw (HashMap.lookup-insert k g c m, beq_ne k g differs) refl

  pub Trace-insert :
      (k c : BlockHash) (m : HashMap BlockHash BlockHash) (g : BlockHash) (path : List BlockHash)
      → HashMap.lookup k m ≡ none
      → k ≢ from
      → Trace s from m g path
      → Trace s from (HashMap.insert k c m) g path
  Trace-insert k c m _ _ fresh differs (origin ends) =
      origin (rw (lookup-fresh k c from m differs) ends)
  Trace-insert k c m _ _ fresh differs (back g p path step named rest) =
      let other : k ≢ g =
        λ e. let same = subst (λ h. HashMap.lookup h m ≡ none) e fresh in cc (same, step) in
      back g p path (rw (lookup-fresh k c g m other) step) named
        (Trace-insert k c m p path fresh differs rest)

  pub trace_back-Trace :
      (m : HashMap BlockHash BlockHash) (g : BlockHash) (path : List BlockHash) (fuel : ℕ)
      → Trace s from m g path
      → length path < fuel
      → trace_back fuel m g ≡ some path
  unfolding trace_back
  trace_back-Trace m g path zero t enough = absurd (omega (arith, enough))
  trace_back-Trace m _ _ (suc fuel) (origin ends) enough = rw (ends, trace_back) refl
  trace_back-Trace m _ _ (suc fuel) (back g p path step named rest) enough =
      rw (step, trace_back-Trace m p path fuel rest (omega (arith, enough)), trace_back) refl

  -- The trace, turned around, leads from the start to the end of what is already done.
  pub Trace-Route :
      (m : HashMap BlockHash BlockHash) (g x to : BlockHash) (path done : List BlockHash)
      → Trace s from m g path
      → x ∈ parents_of s g
      → Route s x to done
      → Route s from to (reverse_onto (path ++ from ∷ []) done)
  Trace-Route m _ x to _ done (origin ends) named route = descend from x to done named route
  Trace-Route m _ x to _ done (back g p path step above rest) named route =
      Trace-Route m p g to path (g ∷ done) rest above (descend g x to done named route)
