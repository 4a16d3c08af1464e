-- ===== src/Tests/MoveRuntime.antt =====
-- The properties of a bundle with a Move runtime at concrete inputs.
use suwappu_db.Prelude.{ℕ, List, [], ◌∷◌, ◌≡◌, ◌≢◌, refl, none, some, ok, err}
use suwappu_db.Bundle.Atomicity.{IsReverted}
use suwappu_db.Bundle.Executor.{execute}
use suwappu_db.Bundle.MoveRuntime.{MoveExecutor, execute_with_move_runtime}
use suwappu_db.Bundle.MoveRuntime.Escape.{execute_with_move_runtime_escapes}
use suwappu_db.Bundle.MoveRuntime.Modules.{deployed, execute_with_move_runtime_modules}
use suwappu_db.Bundle.MoveRuntime.Transfers.{execute_with_move_runtime-eq-execute}
use suwappu_db.Bundle.MoveRuntime.Queue.{IsFree}
use suwappu_db.Bundle.Types.{Bundle, BundleStep, evm, move_call, deploy_module, committed}
use suwappu_db.Collections.HashMap
use suwappu_db.State.Address.{address_eq, address_beq_iff, to_evm, from_evm}
use suwappu_db.State.Canonical.{balance_of}
use suwappu_db.State.Move.ModuleStore
use suwappu_db.State.Move.ModuleStore.{InMemoryModuleStore, in_memory_modules}
use suwappu_db.State.Move.Types.{
  Identifier, ModuleId, module_id_eq, MoveCall, MoveBalanceView, MoveOutcome, ResourceWrite,
  out_of_gas,
}
use suwappu_db.State.Nonce
use suwappu_db.State.Store.InMemory.{in_memory}
use suwappu_db.Tests.Data.{alice, bob, carol, ledger}

abbrev coin : Identifier
coin = record { name = b'c' ∷ b'o' ∷ b'i' ∷ b'n' ∷ [] }

abbrev coin_id : ModuleId
coin_id = record { address = from_evm alice; name = coin }

abbrev call_with : List (List ℕ) → MoveCall
call_with arguments = record {
  caller = from_evm alice;
  module_id = coin_id;
  function = coin;
  type_arguments = [];
  arguments = arguments;
}

abbrev gift : ResourceWrite
gift = record { addr = from_evm carol; coin_value = record { amount = 5 }; nonce = Nonce.default }

abbrev gives : MoveOutcome
gives = record { return_values = []; events = []; resource_writes = gift ∷ [] }

-- A call without arguments runs out of gas, and any other gives five to Carol.
abbrev toy_executor : MoveExecutor InMemoryModuleStore
toy_executor = record {
  execute = λ call store session. elim call.arguments [ [] ↦ err out_of_gas | x ∷ xs ↦ ok gives ];
}

abbrev view : MoveBalanceView
view = record { coin_value = λ a. record { amount = 0 }; nonce = λ a. Nonce.default }

abbrev pay : BundleStep
pay = evm (record { from = alice; to = bob; value = 30 })

abbrev deploying : Bundle
deploying = record { steps = pay ∷ deploy_module (from_evm alice) coin (7 ∷ []) ∷ [] }

execute_with_move_runtime_modules_example :
    (IsReverted
        (execute_with_move_runtime toy_executor view ledger ModuleStore.new deploying).1.outcome
      → (execute_with_move_runtime toy_executor view ledger ModuleStore.new deploying).0.1
        ≡ ModuleStore.new)
    × ((execute_with_move_runtime toy_executor view ledger ModuleStore.new deploying).1.outcome
          ≡ committed
        → IsFree ModuleStore.new (deployed deploying.steps)
          × ((id : ModuleId)
              → ModuleStore.get
                  (execute_with_move_runtime toy_executor view ledger ModuleStore.new deploying).0.1
                  id
                ≡ elim (HashMap.lookup id (deployed deploying.steps)) [
                  | some c ↦ some c
                  | none ↦ ModuleStore.get ModuleStore.new id
                ]))
execute_with_move_runtime_modules_example =
    execute_with_move_runtime_modules toy_executor view ledger ModuleStore.new deploying

execute_with_move_runtime-eq-execute_example :
    execute_with_move_runtime toy_executor view ledger ModuleStore.new
      (record { steps = pay ∷ pay ∷ [] })
    ≡ (
      ((execute ledger (record { steps = pay ∷ pay ∷ [] })).0, ModuleStore.new),
      (execute ledger (record { steps = pay ∷ pay ∷ [] })).1,
    )
execute_with_move_runtime-eq-execute_example =
    execute_with_move_runtime-eq-execute toy_executor view ledger ModuleStore.new
      (record { steps = pay ∷ pay ∷ [] }) (tt, (tt, tt))

carol-ne-alice : to_evm (from_evm carol) ≢ to_evm (from_evm alice)
unfolding to_evm from_evm
carol-ne-alice e = cc ((address_beq_iff carol alice).1 e)

abbrev escaping : Bundle
escaping = record { steps = move_call (call_with ([] ∷ [])) ∷ move_call (call_with []) ∷ [] }

execute_with_move_runtime_escapes_example :
    IsReverted
      (execute_with_move_runtime toy_executor view ledger ModuleStore.new escaping).1.outcome
    × (balance_of
          (execute_with_move_runtime toy_executor view ledger ModuleStore.new escaping).0.0
          (to_evm gift.addr)
        ≡ 5)
execute_with_move_runtime_escapes_example =
    execute_with_move_runtime_escapes toy_executor view ledger ModuleStore.new (call_with ([] ∷ []))
      (call_with []) gives gift out_of_gas refl refl refl carol-ne-alice carol-ne-alice
