-- ===== src/Occ/Speculation.antt =====
-- A speculative run as the sequence of its calls of the versioned store. Each call takes the lock
-- once, so the calls of several runs may interleave in any order between these steps.
use suwappu_db.Occ.MvStore.{MvStore, TxnIdx, ReadSource, read, write, clear_writes}
use suwappu_db.State.Address.{Address}
use suwappu_db.State.Canonical.{State}
use suwappu_db.State.Slot.{BalanceSlot}
use suwappu_db.State.Store.Interface.{BalanceStore}

pub data Speculation (A : Type 0) : Type 0 where
  done : A → Speculation A
  reading : Address → (BalanceSlot → ReadSource → Speculation A) → Speculation A
  writing : Address → BalanceSlot → Speculation A → Speculation A
  clearing : Speculation A → Speculation A

infixl 5 ◌>>=◌ ◌>>◌
unfoldable pub ◌>>=◌ : {A B : Type 0} → Speculation A → (A → Speculation B) → Speculation B
done a >>= f = f a
reading a k >>= f = reading a (λ slot src. k slot src >>= f)
writing a slot m >>= f = writing a slot (m >>= f)
clearing m >>= f = clearing (m >>= f)

abbrev pub ◌>>◌ : {A B : Type 0} → Speculation A → Speculation B → Speculation B
m >> n = m >>= λ _. n

abbrev pub mv_read : Address → Speculation (BalanceSlot × ReadSource)
mv_read a = reading a (λ slot src. done (slot, src))

abbrev pub mv_write : Address → BalanceSlot → Speculation (Unit {0})
mv_write a slot = writing a slot (done tt)

abbrev pub mv_clear_writes : Speculation (Unit {0})
mv_clear_writes = clearing (done tt)

module _ {S : Type 0} ⦃b : BalanceStore S⦄ (st : State S) (idx : TxnIdx) where
  -- A run to its end with no other run in between.
  unfoldable pub run : {A : Type 0} → Speculation A → MvStore → A × MvStore
  run (done a) mv = (a, mv)
  run (reading a k) mv = let (slot, src) = read mv st a idx in run (k slot src) mv
  run (writing a slot m) mv = run m (write mv a slot idx)
  run (clearing m) mv = run m (clear_writes mv idx)

  -- The next call of a run.
  unfoldable pub step : {A : Type 0} → Speculation A → MvStore → Speculation A × MvStore
  step (done a) mv = (done a, mv)
  step (reading a k) mv = let (slot, src) = read mv st a idx in (k slot src, mv)
  step (writing a slot m) mv = (m, write mv a slot idx)
  step (clearing m) mv = (m, clear_writes mv idx)
