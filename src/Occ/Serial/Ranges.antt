-- ===== src/Occ/Serial/Ranges.antt =====
-- The pending indices at the start, and bounds on the indices of a pass.
use suwappu_db.Occ.Txn.{Txn}
use suwappu_db.Occ.Serial.Indexed.{AllAt, IsOut}
use suwappu_db.Occ.Serial.Pending.{IsOut-below, AreDistinct}
use suwappu_db.Occ.MvStore.{TxnIdx}
use suwappu_db.Occ.BlockExecutor.{range_from}
use suwappu_db.Prelude.{
  All-imp, ap, All, List, ℕ, ◌≡◌, ◌≤◌, ◌<◌, ◌+◌, refl, arith, suc, zero, [], ◌∷◌, length,
}

pub range_from-low : (lo count : ℕ) → All (λ j. lo ≤ j) (range_from lo count)
unfolding range_from
range_from-low lo zero = tt
range_from-low lo (suc count) =
    (omega arith, All-imp (λ j h. omega (arith, h)) _ (range_from-low (lo + 1) count))

pub range_from-high : (lo count n : ℕ) → lo + count ≤ n → All (λ j. j < n) (range_from lo count)
unfolding range_from
range_from-high lo zero n l = tt
range_from-high lo (suc count) n l =
    (omega (arith, l), range_from-high (lo + 1) count n (omega (arith, l)))

pub range_from-AreDistinct : (lo count : ℕ) → AreDistinct (range_from lo count)
unfolding range_from
range_from-AreDistinct lo zero = tt
range_from-AreDistinct lo (suc count) = (
  IsOut-below lo (lo + 1) _ (omega arith) (range_from-low (lo + 1) count),
  range_from-AreDistinct (lo + 1) count,
)

pub length-range_from : (lo count : ℕ) → length (range_from lo count) ≡ count
unfolding range_from
length-range_from lo zero = refl
length-range_from lo (suc count) = ap suc (length-range_from (lo + 1) count)

pub range_from-All {ℓ} :
    (P : ℕ → Type ℓ) (lo count : ℕ) → ((j : ℕ) → P j) → All P (range_from lo count)
unfolding range_from
range_from-All P lo zero f = tt
range_from-All P lo (suc count) f = (f lo, range_from-All P (lo + 1) count f)

pub range_from-IsOut :
    (i lo count : ℕ) → lo ≤ i → i < lo + count → IsOut i (range_from lo count) → ⊥
unfolding range_from
range_from-IsOut i lo zero l h out = omega (arith, l, h)
range_from-IsOut i lo (suc count) l h out =
    range_from-IsOut i (lo + 1) count (ground (arith, l, out.0)) (omega (arith, h)) out.1

pub AllAt-intro {ℓ} :
    {P : TxnIdx → Txn → Type ℓ} (lo : TxnIdx) (txns : List Txn)
    → ((i : TxnIdx) (txn : Txn) → lo ≤ i → i < lo + length txns → P i txn)
    → AllAt P lo txns
AllAt-intro lo [] f = tt
AllAt-intro lo (txn ∷ txns) f = (
  f lo txn (omega arith) (omega arith),
  AllAt-intro (suc lo) txns (λ i t l h. f i t (omega (arith, l)) (omega (arith, h))),
)

pub none_pending :
    (m n : ℕ) (is : List TxnIdx) → All (λ j. m ≤ j) is → All (λ j. j < n) is → n ≤ m → is ≡ []
none_pending m n [] low high l = refl
none_pending m n (i ∷ is) low high l = absurd (omega (arith, low.0, high.0, l))
