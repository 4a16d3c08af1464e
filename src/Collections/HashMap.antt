-- ===== src/Collections/HashMap.antt =====
-- `std::collections::HashMap` as an association list. A walk over a map takes the order of the list,
-- which is one of those that the source leaves open.
use suwappu_db.Prelude.{
  ◌≡◌, refl, List, [], ◌∷◌, Option, none, some, arith, if◌then◌else◌, Eq, ◌==◌, Bool, true, false,
  length, suc,
}

abbrev pub HashMap {ℓ κ} : Type ℓ → Type κ → Type (ℓ ⊔ κ)
HashMap K V = List (K × V)

abbrev pub or_else {ℓ} : {V : Type ℓ} → Option V → V → V
or_else none value = value
or_else (some present) value = present

module _ {ℓ κ} {K : Type ℓ} {V : Type κ} ⦃e : Eq K⦄ where
  unfoldable pub lookup : K → HashMap K V → Option V
  lookup key [] = none
  lookup key ((other, value) ∷ m) = if other == key then some value else lookup key m

  unfoldable pub insert : K → V → HashMap K V → HashMap K V
  insert key value [] = (key, value) ∷ []
  insert key value ((other, present) ∷ m) =
      if other == key then (key, value) ∷ m else (other, present) ∷ insert key value m

  -- `m.entry(k).or_insert_with(|| v)`: an entry that is there stays.
  unfoldable pub or_insert : K → V → HashMap K V → HashMap K V
  or_insert key value [] = (key, value) ∷ []
  or_insert key value ((other, present) ∷ m) =
      if other == key then (other, present) ∷ m else (other, present) ∷ or_insert key value m

  unfoldable pub contains_key : K → HashMap K V → Bool
  unfolding lookup
  contains_key key m = elim (lookup key m) [ none ↦ false | some _ ↦ true ]

  pub lookup-insert :
      (key other : K) (value : V) (m : HashMap K V)
      → lookup other (insert key value m) ≡ (if key == other then some value else lookup other m)
  unfolding lookup insert
  lookup-insert key other value [] = refl
  lookup-insert key other value ((first, present) ∷ m) = ground (
    arith,
    e.beq_iff key other,
    e.beq_iff first key,
    e.beq_iff first other,
    lookup-insert key other value m,
  )

  pub length-insert :
      (key : K) (value : V) (m : HashMap K V)
      → lookup key m ≡ none
      → length (insert key value m) ≡ suc (length m)
  unfolding lookup insert
  length-insert key value [] h = refl
  length-insert key value ((other, present) ∷ m) h = ground (arith, length-insert key value m, h)

  pub lookup-or_insert :
      (key other : K) (value : V) (m : HashMap K V)
      → lookup other (or_insert key value m)
        ≡ (if key == other then some (or_else (lookup other m) value) else lookup other m)
  unfolding lookup or_insert
  lookup-or_insert key other value [] = refl
  lookup-or_insert key other value ((first, present) ∷ m) = ground (
    arith,
    e.beq_iff key other,
    e.beq_iff first key,
    e.beq_iff first other,
    lookup-or_insert key other value m,
  )

  -- No key stands twice.
  abbrev pub IsDistinct : HashMap K V → Type κ
  IsDistinct [] = Unit
  IsDistinct ((key, value) ∷ m) = (lookup key m ≡ none) × IsDistinct m

  pub insert-IsDistinct :
      (key : K) (value : V) (m : HashMap K V) → IsDistinct m → IsDistinct (insert key value m)
  unfolding lookup insert
  insert-IsDistinct key value [] d = (refl, tt)
  insert-IsDistinct key value ((other, present) ∷ m) d = ground (
    arith,
    insert-IsDistinct key value m,
    lookup-insert key other value m,
    e.beq_iff other key,
    e.beq_iff key other,
  )
