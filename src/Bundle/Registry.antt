-- ===== src/Bundle/Registry.antt =====
-- crates/suwappudb-bridge/src/bundle/registry.rs: contracts as generators of bundles. What a
-- generator computes is the code of a contract, and any function here.
use suwappu_db.Prelude.{ℕ, List, [], Option, Bool, nat_beq, length}
use suwappu_db.Bundle.Types.{Bundle}
use suwappu_db.Collections.HashMap
use suwappu_db.Collections.HashMap.{HashMap}
use suwappu_db.State.Address.{Address, address_eq}
use suwappu_db.State.Canonical.{State}

pub record CallCtx (S : Type 0) : Type 0 where
  pub caller : Address
  pub target : Address
  pub value : ℕ
  pub calldata : List ℕ
  pub state : State S
  pub depth : ℕ

abbrev pub BundleGenerator : Type 0 → Type 0
BundleGenerator S = CallCtx S → Bundle

pub record ContractRegistry (S : Type 0) : Type 0 where
  pub by_address : HashMap Address (BundleGenerator S)

module _ {S : Type 0} where
  abbrev pub new : ContractRegistry S
  new = record { by_address = [] }

  unfoldable pub register : ContractRegistry S → Address → BundleGenerator S → ContractRegistry S
  register r addr gen = record { by_address = HashMap.insert addr gen r.by_address }

  unfoldable pub get : ContractRegistry S → Address → Option (BundleGenerator S)
  get r addr = HashMap.lookup addr r.by_address

  unfoldable pub len : ContractRegistry S → ℕ
  len r = length r.by_address

  unfoldable pub is_empty : ContractRegistry S → Bool
  is_empty r = nat_beq (length r.by_address) 0
