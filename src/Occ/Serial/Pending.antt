-- ===== src/Occ/Serial/Pending.antt =====
-- The validation pass: which indices it gives back as pending, and what stands for the others.
use suwappu_db.Occ.Serial.Steps.{Within-clear, written-clear_other, written-clear}
use mathlib.Core.List.{append_assoc, append-nil}
use suwappu_db.Occ.Serial.{Within, nothing, written}
use suwappu_db.Occ.Txn.{is_valid, Txn}
use suwappu_db.Occ.Serial.Indexed.{IsOut}
use suwappu_db.Occ.MvStore.Versions.{clear_writes-IsValid, IsValid}
use suwappu_db.Occ.MvStore.{clear_writes, MvStore, TxnIdx}
use suwappu_db.Occ.BlockExecutor.{Validation, abort_txn, validate_from}
use suwappu_db.Prelude.{
  true, false, inr, inl, Bool-cases, ◌∙◌, length, All-imp, List, ℕ, ◌≡◌, ◌≤◌, ◌<◌, ◌+◌, refl, arith,
  suc, [], ◌∷◌, ◌++◌, All, sym, if◌then◌else◌,
}

-- The indices that the pass refuses, and the store without what they wrote.
unfoldable pub invalid_from : TxnIdx → List Txn → MvStore → List TxnIdx × MvStore
invalid_from idx [] mv = ([], mv)
invalid_from idx (txn ∷ txns) mv =
    let (refused, cleared) = invalid_from (suc idx) txns (clear_writes mv idx) in
    if is_valid txn mv then invalid_from (suc idx) txns mv else (idx ∷ refused, cleared)

pub invalid_from-valid :
    (idx : TxnIdx) (txn : Txn) (txns : List Txn) (mv : MvStore)
    → is_valid txn mv ≡ true
    → invalid_from idx (txn ∷ txns) mv ≡ invalid_from (suc idx) txns mv
unfolding invalid_from
invalid_from-valid idx txn txns mv e = rw e refl

pub invalid_from-stale :
    (idx : TxnIdx) (txn : Txn) (txns : List Txn) (mv : MvStore)
    → is_valid txn mv ≡ false
    → invalid_from idx (txn ∷ txns) mv ≡ (
      idx ∷ (invalid_from (suc idx) txns (clear_writes mv idx)).0,
      (invalid_from (suc idx) txns (clear_writes mv idx)).1,
    )
unfolding invalid_from
invalid_from-stale idx txn txns mv e = rw e refl

pub validate_from-eq :
    (idx : TxnIdx) (txns : List Txn) (v : Validation)
    → ((validate_from idx txns v).mv ≡ (invalid_from idx txns v.mv).1)
      × ((validate_from idx txns v).next_pending ≡ v.next_pending ++ (invalid_from idx txns v.mv).0)
unfolding validate_from invalid_from abort_txn
validate_from-eq idx [] v = (refl, sym (append-nil v.next_pending))
validate_from-eq idx (txn ∷ txns) v = elim (Bool-cases (is_valid txn v.mv)) [
  | inl e ↦ rw (e, validate_from) (validate_from-eq (suc idx) txns v)
  | inr e ↦
      rw (e, validate_from)
        (let rest = validate_from-eq (suc idx) txns (abort_txn idx txn v) in
          (rest.0, rest.1 ∙ append_assoc v.next_pending (idx ∷ []) _))
]

abbrev pub AreDistinct : List TxnIdx → Type 0
AreDistinct [] = Unit
AreDistinct (i ∷ is) = IsOut i is × AreDistinct is

-- What the pass does to a store: it clears what the refused indices wrote, and nothing else.
pub record IsRefused (idx count : ℕ) (mv : MvStore) (refused : List TxnIdx) (later : MvStore)
    : Type 0 where
  pub valid : IsValid later
  pub low : All (λ j. idx ≤ j) refused
  pub high : All (λ j. j < idx + count) refused
  pub apart : AreDistinct refused
  pub unwritten : All (λ j. written later j ≡ nothing) refused
  pub keeps : (k : TxnIdx) → IsOut k refused → written mv k ≡ written later k
  pub within : Within later mv

pub IsOut-below : (k idx : TxnIdx) (is : List TxnIdx) → k < idx → All (λ j. idx ≤ j) is → IsOut k is
IsOut-below k idx is l = All-imp (λ j h e. omega (arith, l, h, e)) is

pub invalid_from-IsRefused :
    (idx : TxnIdx) (txns : List Txn) (mv : MvStore)
    → IsValid mv
    → IsRefused idx (length txns) mv (invalid_from idx txns mv).0 (invalid_from idx txns mv).1
unfolding invalid_from
invalid_from-IsRefused idx [] mv v = record {
  valid = v;
  low = tt;
  high = tt;
  apart = tt;
  unwritten = tt;
  keeps = λ k out. refl;
  within = λ a k s h. h;
}
invalid_from-IsRefused idx (txn ∷ txns) mv v = elim (Bool-cases (is_valid txn mv)) [
  | inl e ↦ rw e (accepted txns (invalid_from-IsRefused (suc idx) txns mv v))
  | inr e ↦ rw e (
      refuses txns (
        invalid_from-IsRefused (suc idx) txns (clear_writes mv idx)
          (clear_writes-IsValid mv idx v)))
]
  where
    accepted :
        {is : List TxnIdx} {later : MvStore} (txns : List Txn)
        → IsRefused (suc idx) (length txns) mv is later
        → IsRefused idx (suc (length txns)) mv is later
    accepted {is} txns r = record {
      valid = r.valid;
      low = All-imp (λ j h. omega (arith, h)) is r.low;
      high = All-imp (λ j h. omega (arith, h)) is r.high;
      apart = r.apart;
      unwritten = r.unwritten;
      keeps = r.keeps;
      within = r.within;
    }

    refuses :
        {is : List TxnIdx} {later : MvStore} (txns : List Txn)
        → IsRefused (suc idx) (length txns) (clear_writes mv idx) is later
        → IsRefused idx (suc (length txns)) mv (idx ∷ is) later
    refuses {is} txns r =
        let out = IsOut-below idx (suc idx) is (omega arith) r.low in
        record {
          valid = r.valid;
          low = (omega arith, All-imp (λ j h. omega (arith, h)) is r.low);
          high = (omega arith, All-imp (λ j h. omega (arith, h)) is r.high);
          apart = (out, r.apart);
          unwritten = (sym (r.keeps idx out) ∙ written-clear mv idx v, r.unwritten);
          keeps = λ k o. written-clear_other mv idx k v o.0 ∙ r.keeps k o.1;
          within = λ a k s h. Within-clear mv idx v a k s (r.within a k s h);
        }
