-- ===== src/State/Snapshot/Sorting.antt =====
-- `sort_by_key` changes the order of distinct entries only.
use Prim.Native.Nat.{Ordering}
use suwappu_db.Collections.HashMap.{IsDistinct}
use suwappu_db.State.Snapshot.{insert_by_address, sort_by_address}
use Prim.Native.Nat.Ordering.{gt}
use suwappu_db.Collections.HashMap
use suwappu_db.State.Address.{Address, address_eq, address_beq_iff}
use Prim.Native.Nat.{Ordering}
use suwappu_db.Prelude.{
  lex, nat_ord, ap, ◌∙◌, length, suc, ◌≡◌, List, [], ◌∷◌, All, none, some, refl, arith,
  if◌then◌else◌, ◌==◌,
}

module _ {A : Type 0} where
  length-insert_by_address :
      (e : Address × A) (fs : List (Address × A))
      → length (insert_by_address e fs) ≡ suc (length fs)
  unfolding insert_by_address
  length-insert_by_address e [] = refl
  length-insert_by_address e (f ∷ fs) = ground (arith, length-insert_by_address e fs)

  All-insert_by_address {ℓ} :
      (P : Address × A → Type ℓ) (e : Address × A) (fs : List (Address × A))
      → P e
      → All P fs
      → All P (insert_by_address e fs)
  unfolding insert_by_address
  All-insert_by_address P e [] p h = (p, tt)
  All-insert_by_address P e (f ∷ fs) p h =
      ordered (lex e.0.bytes f.0.bytes) (All-insert_by_address P e fs p h.1)
    where
      ordered :
          (o : Ordering)
          → All P (insert_by_address e fs)
          → All P (elim o [ gt ↦ f ∷ insert_by_address e fs | _ ↦ e ∷ f ∷ fs ])
      ordered gt rest = (h.0, rest)
      ordered _ rest = (p, h)

  lookup-insert_by_address :
      (key : Address) (e : Address × A) (fs : List (Address × A))
      → HashMap.lookup e.0 fs ≡ none
      → HashMap.lookup key (insert_by_address e fs)
        ≡ (if e.0 == key then some e.1 else HashMap.lookup key fs)
  unfolding insert_by_address HashMap.lookup
  lookup-insert_by_address key e [] h = refl
  lookup-insert_by_address key e (f ∷ fs) h = ground (
    arith,
    address_beq_iff e.0 key,
    address_beq_iff f.0 key,
    address_beq_iff f.0 e.0,
    lookup-insert_by_address key e fs,
    h,
  )

  IsDistinct-insert_by_address :
      (e : Address × A) (fs : List (Address × A))
      → HashMap.lookup e.0 fs ≡ none
      → IsDistinct fs
      → IsDistinct (insert_by_address e fs)
  unfolding insert_by_address HashMap.lookup
  IsDistinct-insert_by_address e [] h d = (refl, tt)
  IsDistinct-insert_by_address e (f ∷ fs) h d = ground (
    arith,
    address_beq_iff f.0 e.0,
    address_beq_iff e.0 f.0,
    IsDistinct-insert_by_address e fs,
    lookup-insert_by_address f.0 e fs,
    h,
    d,
  )

  pub length-sort_by_address : (es : List (Address × A)) → length (sort_by_address es) ≡ length es
  unfolding sort_by_address
  length-sort_by_address [] = refl
  length-sort_by_address (e ∷ es) =
      length-insert_by_address e (sort_by_address es) ∙ ap suc (length-sort_by_address es)

  pub All-sort_by_address {ℓ} :
      (P : Address × A → Type ℓ) (es : List (Address × A)) → All P es → All P (sort_by_address es)
  unfolding sort_by_address
  All-sort_by_address P [] h = tt
  All-sort_by_address P (e ∷ es) h =
      All-insert_by_address P e (sort_by_address es) h.0 (All-sort_by_address P es h.1)

  pub lookup-sort_by_address :
      (key : Address) (es : List (Address × A))
      → IsDistinct es
      → HashMap.lookup key (sort_by_address es) ≡ HashMap.lookup key es
  unfolding sort_by_address HashMap.lookup
  lookup-sort_by_address key [] d = refl
  lookup-sort_by_address key (e ∷ es) d =
      lookup-insert_by_address key e (sort_by_address es) (lookup-sort_by_address e.0 es d.1 ∙ d.0)
      ∙ ground (arith, lookup-sort_by_address key es d.1)

  pub IsDistinct-sort_by_address :
      (es : List (Address × A)) → IsDistinct es → IsDistinct (sort_by_address es)
  unfolding sort_by_address
  IsDistinct-sort_by_address [] d = tt
  IsDistinct-sort_by_address (e ∷ es) d =
      IsDistinct-insert_by_address e (sort_by_address es) (lookup-sort_by_address e.0 es d.1 ∙ d.0)
        (IsDistinct-sort_by_address es d.1)
