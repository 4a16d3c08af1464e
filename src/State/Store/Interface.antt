-- ===== src/State/Store/Interface.antt =====
-- `trait BalanceStore`: two columns keyed by address, with the contracts that its documentation
-- states. `get-set_new` is the round trip and the independence of addresses, `get-entries` the
-- default-zero contract of the snapshot, and the other laws say that the columns are independent
-- and that an empty blob clears its entry. The round trip is asked of slots with a fresh nonce, which
-- are all that the state writes. `S` is the type of the store.
use suwappu_db.Prelude.{ℕ, List, [], ◌∷◌, Option, none, some, ◌==◌, if◌then◌else◌, ◌≡◌}
use suwappu_db.Collections.HashMap.{lookup, or_else}
use suwappu_db.State.Address.{Address, address_eq}
use suwappu_db.State.Slot
use suwappu_db.State.Slot.{BalanceSlot}

-- What a write of `bytes` leaves to be read.
abbrev pub stored : List ℕ → Option (List ℕ)
stored [] = none
stored (x ∷ xs) = some (x ∷ xs)

pub record BalanceStore (S : Type 0) : Type 0 where
  pub get : S → Address → BalanceSlot
  pub set : S → Address → BalanceSlot → S
  pub len : S → ℕ
  pub entries : S → List (Address × BalanceSlot)
  pub get_bytes : S → Address → Option (List ℕ)
  pub set_bytes : S → Address → List ℕ → S
  pub bytes_entries : S → List (Address × List ℕ)
  pub get-set_new :
      (s : S) (a b : Address) (v : ℕ)
      → get (set s a (Slot.new v)) b ≡ (if a == b then Slot.new v else get s b)
  pub get-set_bytes : (s : S) (a b : Address) (w : List ℕ) → get (set_bytes s a w) b ≡ get s b
  pub get_bytes-set :
      (s : S) (a b : Address) (v : BalanceSlot) → get_bytes (set s a v) b ≡ get_bytes s b
  pub get_bytes-set_bytes :
      (s : S) (a b : Address) (w : List ℕ)
      → get_bytes (set_bytes s a w) b ≡ (if a == b then stored w else get_bytes s b)
  pub get-entries : (s : S) (a : Address) → or_else (lookup a (entries s)) Slot.default ≡ get s a
