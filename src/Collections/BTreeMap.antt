-- ===== src/Collections/BTreeMap.antt =====
-- `std::collections::BTreeMap` as an association list in ascending order of its keys.
use Prim.Native.Nat.Ordering.{lt, eq, gt}
use suwappu_db.Prelude.{
  ◌≡◌, refl, List, [], ◌∷◌, Option, none, some, arith, if◌then◌else◌, Ord, ◌≺◌, is_eq, All,
}

abbrev pub BTreeMap {ℓ κ} : Type ℓ → Type κ → Type (ℓ ⊔ κ)
BTreeMap K V = List (K × V)

module _ {ℓ κ} {K : Type ℓ} {V : Type κ} ⦃o : Ord K⦄ where
  unfoldable pub lookup : K → BTreeMap K V → Option V
  lookup k [] = none
  lookup k ((j, v) ∷ m) = if is_eq (o.cmp k j) then some v else lookup k m

  unfoldable pub insert : K → V → BTreeMap K V → BTreeMap K V
  insert k v [] = (k, v) ∷ []
  insert k v ((j, w) ∷ m) = elim (o.cmp k j) [
    | lt ↦ (k, v) ∷ (j, w) ∷ m
    | eq ↦ (k, v) ∷ m
    | gt ↦ (j, w) ∷ insert k v m
  ]

  unfoldable pub remove : K → BTreeMap K V → BTreeMap K V
  remove k [] = []
  remove k ((j, w) ∷ m) = let rest = remove k m in if is_eq (o.cmp k j) then rest else (j, w) ∷ rest

  -- `m.range(..bound).next_back()`: the last entry with a key below the bound.
  unfoldable pub last_below : K → BTreeMap K V → Option (K × V)
  last_below bound [] = none
  last_below bound ((j, w) ∷ m) = elim (o.cmp j bound) [
    | lt ↦ elim (last_below bound m) [ none ↦ some (j, w) | some e ↦ some e ]
    | _ ↦ none
  ]

  -- Every key of the map is above `k`.
  abbrev pub Above : K → BTreeMap K V → Type 0
  Above k m = All (λ e. k ≺ e.0) m

  abbrev pub IsSorted : BTreeMap K V → Type 0
  IsSorted [] = Unit
  IsSorted ((k, v) ∷ m) = Above k m × IsSorted m

  Above-trans : (j k : K) (m : BTreeMap K V) → j ≺ k → Above k m → Above j m
  Above-trans j k [] h a = tt
  Above-trans j k ((i, w) ∷ m) h a = (o.lt_trans j k i h a.0, Above-trans j k m h a.1)

  Above-insert : (j k : K) (v : V) (m : BTreeMap K V) → j ≺ k → Above j m → Above j (insert k v m)
  unfolding insert
  Above-insert j k v [] h a = (h, tt)
  Above-insert j k v ((i, w) ∷ m) h a = ground (arith, Above-insert j k v m)

  Above-remove : (j k : K) (m : BTreeMap K V) → Above j m → Above j (remove k m)
  unfolding remove
  Above-remove j k [] a = tt
  Above-remove j k ((i, w) ∷ m) a = ground (arith, Above-remove j k m)

  pub insert-IsSorted : (k : K) (v : V) (m : BTreeMap K V) → IsSorted m → IsSorted (insert k v m)
  unfolding insert
  insert-IsSorted k v [] s = (tt, tt)
  insert-IsSorted k v ((j, w) ∷ m) s = ground (
    arith,
    insert-IsSorted k v m,
    Above-insert j k v m,
    Above-trans k j m,
    o.lt_of_gt k j,
    o.eq_of_cmp k j,
  )

  pub remove-IsSorted : (k : K) (m : BTreeMap K V) → IsSorted m → IsSorted (remove k m)
  unfolding remove
  remove-IsSorted k [] s = tt
  remove-IsSorted k ((j, w) ∷ m) s = ground (arith, remove-IsSorted k m, Above-remove j k m)

  pub lookup-insert :
      (k j : K) (v : V) (m : BTreeMap K V)
      → lookup j (insert k v m) ≡ (if is_eq (o.cmp j k) then some v else lookup j m)
  unfolding lookup insert
  lookup-insert k j v [] = refl
  lookup-insert k j v ((i, w) ∷ m) = ground (
    arith,
    o.eq_of_cmp j k,
    o.eq_of_cmp k i,
    o.eq_of_cmp j i,
    o.cmp_refl k,
    o.cmp_refl j,
    lookup-insert k j v m,
  )

  pub lookup-remove :
      (k j : K) (m : BTreeMap K V)
      → lookup j (remove k m) ≡ (if is_eq (o.cmp j k) then none else lookup j m)
  unfolding lookup remove
  lookup-remove k j [] = ground arith
  lookup-remove k j ((i, w) ∷ m) = ground (
    arith,
    o.eq_of_cmp j k,
    o.eq_of_cmp k i,
    o.eq_of_cmp j i,
    o.cmp_refl k,
    o.cmp_refl j,
    lookup-remove k j m,
  )

  -- Every entry of the list is what the map has under its key.
  abbrev pub Holds : BTreeMap K V → BTreeMap K V → Type κ
  Holds m entries = All (λ e. lookup e.0 m ≡ some e.1) entries

  Holds-behind :
      (k : K) (v : V) (m entries : BTreeMap K V)
      → Above k entries
      → Holds m entries
      → Holds ((k, v) ∷ m) entries
  unfolding lookup
  Holds-behind k v m [] above held = tt
  Holds-behind k v m ((j, w) ∷ entries) above held =
      (rw (o.gt_of_lt k j above.0) held.0, Holds-behind k v m entries above.1 held.1)

  pub IsSorted-Holds : (m : BTreeMap K V) → IsSorted m → Holds m m
  unfolding lookup
  IsSorted-Holds [] s = tt
  IsSorted-Holds ((k, v) ∷ m) s =
      (rw (o.cmp_refl k) refl, Holds-behind k v m m s.0 (IsSorted-Holds m s.1))
