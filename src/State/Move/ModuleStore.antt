-- ===== src/State/Move/ModuleStore.antt =====
-- `trait ModuleStore` and `InMemoryModuleStore` of crates/suwappudb-state/src/vm/executor.rs. The
-- ordered map of the store is never walked, so it is an association list here.
use suwappu_db.Prelude.{
  ℕ, List, [], Option, none, some, Bool, true, false, Result, ok, err, ◌==◌, if◌then◌else◌, ◌≡◌,
  refl, arith,
}
use suwappu_db.Collections.HashMap
use suwappu_db.Collections.HashMap.{HashMap}
use suwappu_db.State.Move.Types.{ModuleId, module_id_eq, CompiledModule}

pub data ModuleStoreError : Type 0 where
  already_exists : ModuleId → ModuleStoreError
  backend : List ℕ → ModuleStoreError

-- The interface, with the contract of `put`: it refuses an identifier that is there, and changes
-- no other entry.
pub record ModuleStore (M : Type 0) : Type 0 where
  pub get : M → ModuleId → Option CompiledModule
  pub put : M → ModuleId → CompiledModule → M × Result ModuleStoreError (Unit {0})
  pub contains : M → ModuleId → Bool
  pub put_free :
      (m : M) (i : ModuleId) (c : CompiledModule) → contains m i ≡ false → (put m i c).1 ≡ ok tt
  pub get-put :
      (m : M) (i j : ModuleId) (c : CompiledModule)
      → contains m i ≡ false
      → get (put m i c).0 j ≡ (if i == j then some c else get m j)
  pub put_taken :
      (m : M) (i : ModuleId) (c : CompiledModule)
      → contains m i ≡ true
      → put m i c ≡ (m, err (already_exists i))
  pub contains-get :
      (m : M) (i : ModuleId) → contains m i ≡ elim (get m i) [ none ↦ false | some _ ↦ true ]

pub record InMemoryModuleStore : Type 0 where
  pub modules : HashMap ModuleId CompiledModule

abbrev pub new : InMemoryModuleStore
new = record { modules = [] }

unfoldable pub get : InMemoryModuleStore → ModuleId → Option CompiledModule
get s id = HashMap.lookup id s.modules

unfoldable pub contains : InMemoryModuleStore → ModuleId → Bool
contains s id = HashMap.contains_key id s.modules

unfoldable pub put :
    InMemoryModuleStore
    → ModuleId
    → CompiledModule
    → InMemoryModuleStore × Result ModuleStoreError (Unit {0})
put s id module_bytes =
    if HashMap.contains_key id s.modules
    then (s, err (already_exists id))
    else (record { modules = HashMap.insert id module_bytes s.modules }, ok tt)

pub in_memory_put_free :
    (m : InMemoryModuleStore) (i : ModuleId) (c : CompiledModule)
    → contains m i ≡ false
    → (put m i c).1 ≡ ok tt
unfolding contains put
in_memory_put_free m i c h = ground arith

pub in_memory_get-put :
    (m : InMemoryModuleStore) (i j : ModuleId) (c : CompiledModule)
    → contains m i ≡ false
    → get (put m i c).0 j ≡ (if i == j then some c else get m j)
unfolding contains put get
in_memory_get-put m i j c h = ground (arith, HashMap.lookup-insert i j c m.modules)

pub in_memory_put_taken :
    (m : InMemoryModuleStore) (i : ModuleId) (c : CompiledModule)
    → contains m i ≡ true
    → put m i c ≡ (m, err (already_exists i))
unfolding contains put
in_memory_put_taken m i c h = ground arith

pub in_memory_contains-get :
    (m : InMemoryModuleStore) (i : ModuleId)
    → contains m i ≡ elim (get m i) [ none ↦ false | some _ ↦ true ]
unfolding contains get HashMap.contains_key
in_memory_contains-get m i = refl

-- The in-memory module store keeps the contract.
instance abbrev pub in_memory_modules : ModuleStore InMemoryModuleStore
in_memory_modules = record {
  get = get;
  put = put;
  contains = contains;
  put_free = in_memory_put_free;
  get-put = in_memory_get-put;
  put_taken = in_memory_put_taken;
  contains-get = in_memory_contains-get;
}
