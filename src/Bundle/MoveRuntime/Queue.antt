-- ===== src/Bundle/MoveRuntime/Queue.antt =====
-- The queue of deployments that a bundle flushes into the module store when it commits.
use suwappu_db.Prelude.{[], ◌∷◌, ◌++◌, none, some, false, ◌||◌, ◌==◌, ◌≡◌, refl, arith}
use suwappu_db.Bundle.MoveRuntime.{Deploys, is_queued, flush}
use suwappu_db.Collections.HashMap
use suwappu_db.Collections.HashMap.{HashMap}
use suwappu_db.State.Move.ModuleStore.{ModuleStore}
use suwappu_db.State.Move.Types.{ModuleId, module_id_eq, module_id_beq_iff, CompiledModule}

lookup-unqueued :
    (id : ModuleId) (queue : Deploys) → is_queued id queue ≡ false → HashMap.lookup id queue ≡ none
unfolding HashMap.lookup is_queued
lookup-unqueued id [] h = refl
lookup-unqueued id ((j, c) ∷ queue) h = ground (arith, lookup-unqueued id queue)

is_queued-append :
    (id j : ModuleId) (c : CompiledModule) (queue : Deploys)
    → is_queued id (queue ++ (j, c) ∷ []) ≡ (is_queued id queue || j == id)
unfolding is_queued
is_queued-append id j c [] = ground arith
is_queued-append id j c ((i, d) ∷ queue) = ground (arith, is_queued-append id j c queue)

module _ {M : Type 0} ⦃m : ModuleStore M⦄ where
  -- A queue that the store can take: each module is free, and none stands twice.
  abbrev pub IsFree : M → Deploys → Type 0
  IsFree store [] = Unit
  IsFree store ((id, c) ∷ queue) =
      (m.contains store id ≡ false) × (is_queued id queue ≡ false) × IsFree store queue

  IsFree-put :
      (store : M) (id : ModuleId) (c : CompiledModule) (queue : Deploys)
      → m.contains store id ≡ false
      → is_queued id queue ≡ false
      → IsFree store queue
      → IsFree (m.put store id c).0 queue
  unfolding is_queued
  IsFree-put store id c [] h q f = tt
  IsFree-put store id c ((j, d) ∷ queue) h q f =
      let contained = m.contains-get (m.put store id c).0 j in
      let before = m.contains-get store j in
      let got = m.get-put store id j c h in
      let rest = IsFree-put store id c queue h in
      ground
        (arith, contained, before, got, rest, f, module_id_beq_iff id j, module_id_beq_iff j id)

  -- Flushing a free queue adds each of its modules, and changes no other.
  pub get-flush :
      (store : M) (queue : Deploys) (id : ModuleId)
      → IsFree store queue
      → m.get (flush store queue) id
        ≡ elim (HashMap.lookup id queue) [ some c ↦ some c | none ↦ m.get store id ]
  unfolding flush HashMap.lookup
  get-flush store [] id f = refl
  get-flush store ((j, c) ∷ queue) id f =
      let rest = get-flush (m.put store j c).0 queue id (IsFree-put store j c queue f.0 f.1 f.2) in
      let got = m.get-put store j id c f.0 in
      let gone = lookup-unqueued j queue f.1 in
      ground (arith, rest, got, gone, module_id_beq_iff j id)

  pub IsFree-append :
      (store : M) (id : ModuleId) (c : CompiledModule) (queue : Deploys)
      → m.contains store id ≡ false
      → is_queued id queue ≡ false
      → IsFree store queue
      → IsFree store (queue ++ (id, c) ∷ [])
  unfolding is_queued
  IsFree-append store id c [] h q f = (h, refl, tt)
  IsFree-append store id c ((j, d) ∷ queue) h q f =
      let more = is_queued-append j id c queue in
      ground (
        arith,
        more,
        f,
        IsFree-append store id c queue h,
        module_id_beq_iff id j,
        module_id_beq_iff j id,
      )
