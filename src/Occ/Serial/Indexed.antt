-- ===== src/Occ/Serial/Indexed.antt =====
-- The transactions of a block with their indices: what `store_runs` of
-- crates/suwappudb-bridge/src/occ/block_executor.rs replaces.
use suwappu_db.Occ.Txn.{Txn}
use suwappu_db.Occ.MvStore.{TxnIdx}
use suwappu_db.Occ.BlockExecutor.{store_runs, set_txn}
use suwappu_db.Prelude.{
  ap, ◌∙◌, length, map, subst, List, ℕ, ◌≡◌, ◌≢◌, ◌≤◌, ◌+◌, refl, arith, suc, zero, [], ◌∷◌, All,
}

-- Every transaction has the property at its index, counted from the first one's.
abbrev pub AllAt {ℓ} : (TxnIdx → Txn → Type ℓ) → TxnIdx → List Txn → Type ℓ
AllAt P lo [] = Unit
AllAt P lo (txn ∷ txns) = P lo txn × AllAt P (suc lo) txns

abbrev pub IsOut : TxnIdx → List TxnIdx → Type 0
IsOut i = All (λ j. i ≢ j)

pub AllAt-imp {ℓ κ} :
    {P : TxnIdx → Txn → Type ℓ} {Q : TxnIdx → Txn → Type κ} (lo : TxnIdx) (txns : List Txn)
    → ((i : TxnIdx) (txn : Txn) → lo ≤ i → P i txn → Q i txn)
    → AllAt P lo txns
    → AllAt Q lo txns
AllAt-imp lo [] f h = tt
AllAt-imp lo (txn ∷ txns) f h =
    (f lo txn (omega arith) h.0, AllAt-imp (suc lo) txns (λ i t l p. f i t (omega arith) p) h.1)

AllAt-set_txn {ℓ κ} :
    {P : TxnIdx → Txn → Type ℓ} {Q : TxnIdx → Txn → Type κ} (lo j : TxnIdx) (new : Txn)
    (txns : List Txn)
    → ((i : TxnIdx) (txn : Txn) → i ≢ j + lo → P i txn → Q i txn)
    → Q (j + lo) new
    → AllAt P lo txns
    → AllAt Q lo (set_txn j new txns)
unfolding set_txn
AllAt-set_txn lo j new [] f q h = tt
AllAt-set_txn {Q = Q} lo zero new (txn ∷ txns) f q h = (
  subst (λ n. Q n new) (omega arith) q,
  AllAt-imp (suc lo) txns (λ i t l p. f i t (λ e. omega (arith, e, l)) p) h.1,
)
AllAt-set_txn {Q = Q} lo (suc j) new (txn ∷ txns) f q h = (
  f lo txn (λ e. omega (arith, e)) h.0,
  AllAt-set_txn (suc lo) j new txns (λ i t ne p. f i t (λ e. ne (omega (arith, e))) p)
      (subst (λ n. Q n new) (omega arith) q) h.1,
)

-- What the runs have at their own indices, and the other transactions at theirs.
pub AllAt-store_runs {ℓ} :
    (P : TxnIdx → Txn → Type ℓ) (runs : List (TxnIdx × Txn)) (txns : List Txn)
    → AllAt (λ i txn. IsOut i (map (λ r. r.0) runs) → P i txn) 0 txns
    → All (λ r. P r.0 r.1) runs
    → AllAt P 0 (store_runs runs txns)
unfolding store_runs
AllAt-store_runs P [] txns h q = AllAt-imp 0 txns (λ i txn l p. p tt) h
AllAt-store_runs P (r ∷ runs) txns h q =
    AllAt-store_runs P runs (set_txn r.0 r.1 txns)
      (AllAt-set_txn 0 r.0 r.1 txns (λ i txn ne p out. p ((λ e. ne (omega (arith, e))), out))
        (λ out. subst (λ n. P n r.1) (omega arith) q.0) h)
      q.1

length-set_txn : (i : ℕ) (txn : Txn) (txns : List Txn) → length (set_txn i txn txns) ≡ length txns
unfolding set_txn
length-set_txn i txn [] = refl
length-set_txn zero txn (t ∷ ts) = refl
length-set_txn (suc i) txn (t ∷ ts) = ap suc (length-set_txn i txn ts)

pub length-store_runs :
    (runs : List (TxnIdx × Txn)) (txns : List Txn) → length (store_runs runs txns) ≡ length txns
unfolding store_runs
length-store_runs [] txns = refl
length-store_runs (r ∷ runs) txns =
    length-store_runs runs (set_txn r.0 r.1 txns) ∙ length-set_txn r.0 r.1 txns
