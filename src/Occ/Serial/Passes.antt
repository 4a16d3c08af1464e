-- ===== src/Occ/Serial/Passes.antt =====
-- The parallel pass under any schedule: each of its runs ends with a result that the store behind the
-- pass accounts for.
use suwappu_db.Occ.Speculation.{step}
use suwappu_db.Occ.Serial.Steps.{step-WritesOnce, Ran-step, step-IsMove}
use suwappu_db.Occ.Serial.{Ran, WritesOnce, written, Within}
use suwappu_db.Occ.MvStore.Versions.{IsValid}
use suwappu_db.Occ.Txn.{Txn}
use suwappu_db.State.Canonical.{State}
use suwappu_db.Occ.Schedule.{advance, Thread}
use suwappu_db.State.Store.Interface.{BalanceStore}
use suwappu_db.Occ.MvStore.{TxnIdx, MvStore}
use suwappu_db.Prelude.{[], ◌∷◌, subst, sym, ◌∷◌, ◌≢◌, All, List, ℕ, ◌≡◌, refl, suc, zero}

abbrev pub IsElsewhere : TxnIdx → List Thread → Type 0
IsElsewhere k = All (λ t. k ≢ t.idx)

abbrev pub AreApart : List Thread → Type 0
AreApart [] = Unit
AreApart (t ∷ ts) = IsElsewhere t.idx ts × AreApart ts

abbrev pub AreReady : MvStore → List Thread → Type 0
AreReady mv = All (λ t. WritesOnce (written mv t.idx) t.rest)

-- The runs that are left of a pass, and a store that they may go on with.
pub record IsGoing (mv : MvStore) (ts : List Thread) : Type 0 where
  pub valid : IsValid mv
  pub apart : AreApart ts
  pub ready : AreReady mv ts

-- Other indices keep what they have written.
abbrev pub Keeps : List Thread → MvStore → MvStore → Type 0
Keeps ts mv later = (k : TxnIdx) → IsElsewhere k ts → written mv k ≡ written later k

pub IsElsewhere-keep :
    (i : TxnIdx) (mv later : MvStore) (ts : List Thread)
    → ((k : TxnIdx) → k ≢ i → written mv k ≡ written later k)
    → IsElsewhere i ts
    → All (λ t. written mv t.idx ≡ written later t.idx) ts
IsElsewhere-keep i mv later [] same h = tt
IsElsewhere-keep i mv later (t ∷ ts) same h =
    (same t.idx (λ e. h.0 (sym e)), IsElsewhere-keep i mv later ts same h.1)

pub AreReady-keep :
    (mv later : MvStore) (ts : List Thread)
    → All (λ t. written mv t.idx ≡ written later t.idx) ts
    → AreReady mv ts
    → AreReady later ts
AreReady-keep mv later [] same h = tt
AreReady-keep mv later (t ∷ ts) same h =
    (subst (λ w. WritesOnce w t.rest) same.0 h.0, AreReady-keep mv later ts same.1 h.1)

module _ {S : Type 0} ⦃b : BalanceStore S⦄ (st : State S) where
  -- Each run ends with its result.
  abbrev pub RanAll : MvStore → MvStore → MvStore → List Thread → List (TxnIdx × Txn) → Type 0
  RanAll first mv last [] [] = Unit
  RanAll first mv last [] (r ∷ rs) = ⊥
  RanAll first mv last (t ∷ ts) [] = ⊥
  RanAll first mv last (t ∷ ts) (r ∷ rs) =
      (r.0 ≡ t.idx)
      × Ran st first last t.idx t.rest (written mv t.idx) r.1
      × RanAll first mv last ts rs

  pub RanAll-keep :
      (first mv later last : MvStore) (ts : List Thread) (rs : List (TxnIdx × Txn))
      → All (λ t. written mv t.idx ≡ written later t.idx) ts
      → RanAll first later last ts rs
      → RanAll first mv last ts rs
  RanAll-keep first mv later last [] [] same h = tt
  RanAll-keep first mv later last [] (r ∷ rs) same h = h
  RanAll-keep first mv later last (t ∷ ts) [] same h = h
  RanAll-keep first mv later last (t ∷ ts) (r ∷ rs) same h = (
    h.0,
    subst (λ w. Ran st first last t.idx t.rest w r.1) (sym same.0) h.1,
    RanAll-keep first mv later last ts rs same.1 h.2,
  )

  pub record IsAdvance (ts : List Thread) (mv : MvStore) (us : List Thread) (later : MvStore)
      : Type 0 where
    pub going : IsGoing later us
    pub within : Within mv later
    pub keeps : Keeps ts mv later
    pub elsewhere : (k : TxnIdx) → IsElsewhere k ts → IsElsewhere k us

  pub advance-IsAdvance :
      (c : ℕ) (ts : List Thread) (mv : MvStore)
      → IsGoing mv ts
      → IsAdvance ts mv (advance st c ts mv).0 (advance st c ts mv).1
  unfolding advance
  advance-IsAdvance c [] mv g = record {
    going = g;
    within = λ a k s h. h;
    keeps = λ k e. refl;
    elsewhere = λ k e. e;
  }
  advance-IsAdvance zero (t ∷ ts) mv g =
      let move = step-IsMove st t.idx t.rest mv g.valid g.ready.0 in
      let same = IsElsewhere-keep t.idx mv (step st t.idx t.rest mv).1 ts move.others g.apart.0 in
      record {
        going = record {
          valid = move.valid;
          apart = g.apart;
          ready = (
            step-WritesOnce st t.idx t.rest mv g.valid g.ready.0,
            AreReady-keep mv (step st t.idx t.rest mv).1 ts same g.ready.1,
          );
        };
        within = move.within;
        keeps = λ k e. move.others k e.0;
        elsewhere = λ k e. e;
      }
  advance-IsAdvance (suc c) (t ∷ ts) mv g =
      let rest =
        advance-IsAdvance c ts mv
          (record { valid = g.valid; apart = g.apart.1; ready = g.ready.1 }) in
      record {
        going = record {
          valid = rest.going.valid;
          apart = (rest.elsewhere t.idx g.apart.0, rest.going.apart);
          ready = (
            subst (λ w. WritesOnce w t.rest) (rest.keeps t.idx g.apart.0) g.ready.0,
            rest.going.ready,
          );
        };
        within = rest.within;
        keeps = λ k e. rest.keeps k e.1;
        elsewhere = λ k e. (e.0, rest.elsewhere k e.1);
      }

  pub RanAll-advance :
      (c : ℕ) (ts : List Thread) (first mv last : MvStore) (rs : List (TxnIdx × Txn))
      → IsGoing mv ts
      → IsValid last
      → Within first mv
      → Within (advance st c ts mv).1 last
      → RanAll first (advance st c ts mv).1 last (advance st c ts mv).0 rs
      → RanAll first mv last ts rs
  unfolding advance
  RanAll-advance c [] first mv last rs g u w x h = h
  RanAll-advance c (t ∷ ts) first mv last [] g u w x h = nobody c h
    where
      nobody :
          (c : ℕ)
          → RanAll first (advance st c (t ∷ ts) mv).1 last (advance st c (t ∷ ts) mv).0 []
          → ⊥
      nobody zero h = h
      nobody (suc c) h = h
  RanAll-advance zero (t ∷ ts) first mv last (r ∷ rs) g u w x h =
      let move = step-IsMove st t.idx t.rest mv g.valid g.ready.0 in
      let same = IsElsewhere-keep t.idx mv (step st t.idx t.rest mv).1 ts move.others g.apart.0 in
      (
        h.0,
        Ran-step st t.idx first mv last t.rest r.1 g.valid u w
            (λ a k s e. x a k s (move.within a k s e)) h.1,
        RanAll-keep first mv (step st t.idx t.rest mv).1 last ts rs same h.2,
      )
  RanAll-advance (suc c) (t ∷ ts) first mv last (r ∷ rs) g u w x h =
      let others : IsGoing mv ts = record {
        valid = g.valid;
        apart = g.apart.1;
        ready = g.ready.1;
      } in
      let rest = advance-IsAdvance c ts mv others in
      (
        h.0,
        subst (λ v. Ran st first last t.idx t.rest v r.1) (sym (rest.keeps t.idx g.apart.0)) h.1,
        RanAll-advance c ts first mv last rs others u w x h.2,
      )
