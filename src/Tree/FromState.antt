-- ===== src/Tree/FromState.antt =====
-- The tree that is built from the entries of a state, against those entries.
use suwappu_db.Prelude.{◌∙◌, ◌≡◌, List, [], ◌∷◌, Option, none, some, arith, refl}
use suwappu_db.Collections.HashMap
use suwappu_db.Collections.HashMap.{IsDistinct}
use suwappu_db.State.Address.{Address, address_eq, address_beq_iff, IsEvmShaped}
use suwappu_db.State.Slot.{BalanceSlot}
use suwappu_db.Tree.Ops.{StateTree, new, update, get, update_all, from_entries}
use suwappu_db.Tree.Reads.{get-update, get_path-empty}
use suwappu_db.Tree.Shape.{AllEvmShaped}

abbrev or_from : Option BalanceSlot → Option BalanceSlot → Option BalanceSlot
or_from none other = other
or_from (some slot) other = some slot

get-update_all :
    (tree : StateTree) (entries : List (Address × BalanceSlot)) (a : Address)
    → AllEvmShaped entries
    → IsDistinct entries
    → IsEvmShaped a
    → get (update_all tree entries) a ≡ or_from (HashMap.lookup a entries) (get tree a)
unfolding update_all HashMap.lookup
get-update_all tree [] a s d e = refl
get-update_all tree ((c, slot) ∷ entries) a s d e =
    let rest = get-update_all (update tree c slot) entries a s.1 d.1 e in
    let here = get-update tree c a slot s.0 e in
    ground (arith, rest, here, d.0, address_beq_iff c a)

get-new : (a : Address) → get new a ≡ none
unfolding get
get-new a = get_path-empty a.bytes

-- A tree that is built from entries with distinct addresses of twenty bytes reads every such address
-- as the entries do: each entry is found, and an address without one reads as none.
pub get-from_entries :
    (entries : List (Address × BalanceSlot)) (a : Address)
    → AllEvmShaped entries
    → IsDistinct entries
    → IsEvmShaped a
    → get (from_entries entries) a ≡ HashMap.lookup a entries
unfolding from_entries
get-from_entries entries a s d e = get-update_all new entries a s d e ∙ ground (arith, get-new a)
