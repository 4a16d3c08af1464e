-- ===== src/Occ/Serial/Discipline.antt =====
-- The runs of `execute_one` record each read, and write each address at most once.
use suwappu_db.Occ.Txn.{WriteEntry}
use suwappu_db.Bundle.Registry
use suwappu_db.Collections.HashMap
use suwappu_db.State.Slot
use suwappu_db.Prelude.{Option-cases, ◌⊎◌, ◌-◌, ◌==◌, if◌then◌else◌, arith}
use suwappu_db.State.Address.{address_eq, address_beq_iff}
use suwappu_db.Bridge.Intent.{
  deploy_module, insufficient_balance, call, transfer, amount_overflow, Intent, RejectReason,
}
use suwappu_db.Occ.Speculation.{◌>>=◌}
use suwappu_db.Collections.HashMap.{IsDistinct, HashMap}
use suwappu_db.Bundle.Types.{BundleStep}
use suwappu_db.Bundle.Registry.{ContractRegistry}
use suwappu_db.State.Address.{Address}
use suwappu_db.Occ.MvStore.{ReadSource, TxnIdx}
use suwappu_db.Occ.Serial.{
  put, done, Txn, Speculation, BalanceSlot, Writes, nothing, WritesOnce, State, ReadEntry, Records,
}
use suwappu_db.Occ.Execute.{
  record_of, step_transfer, local_after, entry, execute_call, execute_one, settle_step, local_or_mv,
  publish_transfer, publish_local, execute_steps, reject, execute_transfer_into, one_step,
}
use suwappu_db.Prelude.{
  checked_add, inl, ltb, inr, Bool-cases, ℕ, ◌≡◌, refl, List, [], ◌∷◌, ◌++◌, Option, none, some,
}

-- What every run of the executor keeps, with the reads made and the addresses written so far.
abbrev pub IsOrderly : TxnIdx → List ReadEntry → Writes → Speculation Txn → Type 0
IsOrderly i reads w p = Records i reads p × WritesOnce w p

IsOrderly-publish_transfer :
    (from to : Address) (balance amount : ℕ) (i : TxnIdx) (reads : List ReadEntry) (sum : Option ℕ)
    → IsOrderly i reads nothing (publish_transfer from to balance amount i reads sum)
unfolding publish_transfer Records WritesOnce ◌>>=◌
IsOrderly-publish_transfer from to balance amount i reads none = ((refl, refl), tt)
IsOrderly-publish_transfer from to balance amount i reads (some sum) =
    elim (Bool-cases (from == to)) [
      | inl e ↦ rw e ((refl, refl), (refl, tt))
      | inr e ↦ rw e ((refl, refl), (refl, (rw e refl, tt)))
    ]

IsOrderly-covered :
    (from to : Address) (amount : ℕ) (i : TxnIdx) (reads : List ReadEntry)
    (slot other : BalanceSlot)
    → IsOrderly i reads nothing (
        if ltb slot.canonical amount
        then done (record_of i reads [] (some insufficient_balance))
        else publish_transfer from to slot.canonical amount i reads
            (checked_add other.canonical amount))
unfolding Records WritesOnce
IsOrderly-covered from to amount i reads slot other =
    elim (Bool-cases (ltb slot.canonical amount)) [
      | inl e ↦ rw e ((refl, refl), tt)
      | inr e ↦ rw e (
          IsOrderly-publish_transfer from to slot.canonical amount i reads
            (checked_add other.canonical amount))
    ]

IsOrderly-execute_transfer_into :
    (from to : Address) (amount : ℕ) (i : TxnIdx)
    → IsOrderly i [] nothing (execute_transfer_into from to amount i)
unfolding execute_transfer_into Records WritesOnce ◌>>=◌
IsOrderly-execute_transfer_into from to amount i =
    let tail =
      λ (slot : BalanceSlot) (src : ReadSource) (other : BalanceSlot) (source : ReadSource).
        IsOrderly-covered from to amount i (entry from src ∷ entry to source ∷ []) slot other in
    (
      (λ slot src other source. (tail slot src other source).0),
      (λ slot src other source. (tail slot src other source).1),
    )

IsOrderly-publish_local :
    (i : TxnIdx) (reads : List ReadEntry) (local : HashMap Address BalanceSlot)
    (writes : List WriteEntry) (w : Writes)
    → IsDistinct local
    → ((a : Address) → (HashMap.lookup a local ≡ none) ⊎ (w a ≡ none))
    → IsOrderly i reads w (publish_local i reads local writes)
unfolding publish_local Records WritesOnce ◌>>=◌ HashMap.lookup
IsOrderly-publish_local i reads [] writes w d free = ((refl, refl), tt)
IsOrderly-publish_local i reads ((a, s) ∷ local) writes w d free =
    let rest =
      IsOrderly-publish_local i reads local (writes ++ record { addr = a; value = s } ∷ [])
        (put a s w) d.1 (λ c. ground (arith, free c, d.0, address_beq_iff a c)) in
    (rest.0, (ground (arith, free a, address_beq_iff a a), rest.1))

IsOrderly-reject :
    (i : TxnIdx) (reads : List ReadEntry) (reason : RejectReason)
    → IsOrderly i reads nothing (reject i reads reason)
unfolding reject Records WritesOnce ◌>>=◌
IsOrderly-reject i reads reason = ((refl, refl), (refl, tt))

-- A read of a bundle, whether or not its local writes hide it.
IsOrderly-local_or_mv :
    (i : TxnIdx) (a : Address) (local : HashMap Address BalanceSlot) (reads : List ReadEntry)
    (next : BalanceSlot × List ReadEntry → Speculation Txn)
    → ((r : BalanceSlot × List ReadEntry) → IsOrderly i r.1 nothing (next r))
    → IsOrderly i reads nothing (local_or_mv a local reads >>= next)
unfolding local_or_mv Records WritesOnce ◌>>=◌
IsOrderly-local_or_mv i a local reads next h = elim (Option-cases (HashMap.lookup a local)) [
  | inr (slot, e) ↦ rw (e, ◌>>=◌, local_or_mv) (h (slot, reads))
  | inl e ↦
      rw (e, ◌>>=◌, local_or_mv)
        (
          (λ slot src. (h (slot, reads ++ entry a src ∷ [])).0),
          (λ slot src. (h (slot, reads ++ entry a src ∷ [])).1),
        )
]

-- The rest of a bundle, for every state of its local writes.
abbrev IsOrderlyRest :
    TxnIdx → (HashMap Address BalanceSlot → List ReadEntry → Speculation Txn) → Type 0
IsOrderlyRest i rest =
    (local : HashMap Address BalanceSlot) (reads : List ReadEntry)
    → IsDistinct local
    → IsOrderly i reads nothing (rest local reads)

IsDistinct-local_after :
    (from to : Address) (balance amount sum : ℕ) (local : HashMap Address BalanceSlot)
    → IsDistinct local
    → IsDistinct (local_after from to balance amount sum local)
IsDistinct-local_after from to balance amount sum local d =
    let one = λ (s : BalanceSlot). HashMap.insert-IsDistinct from s local d in
    elim (Bool-cases (from == to)) [
      | inl e ↦ rw e (one (Slot.new balance))
      | inr e ↦ rw e (
          HashMap.insert-IsDistinct to (Slot.new sum)
            (HashMap.insert from (Slot.new (balance - amount)) local) (one _))
    ]

IsOrderly-settle_step :
    (from to : Address) (amount : ℕ) (i : TxnIdx) (local : HashMap Address BalanceSlot)
    (rest : HashMap Address BalanceSlot → List ReadEntry → Speculation Txn) (balance : ℕ)
    (reads : List ReadEntry) (sum : Option ℕ)
    → IsDistinct local
    → IsOrderlyRest i rest
    → IsOrderly i reads nothing (settle_step from to amount i local rest balance reads sum)
unfolding settle_step
IsOrderly-settle_step from to amount i local rest balance reads none d h =
    IsOrderly-reject i reads amount_overflow
IsOrderly-settle_step from to amount i local rest balance reads (some sum) d h =
    h (local_after from to balance amount sum local) reads
      (IsDistinct-local_after from to balance amount sum local d)

IsOrderly-one_step :
    (i : TxnIdx) (moved : Option (Address × Address × ℕ)) (local : HashMap Address BalanceSlot)
    (reads : List ReadEntry) (rest : HashMap Address BalanceSlot → List ReadEntry → Speculation Txn)
    → IsDistinct local
    → IsOrderlyRest i rest
    → IsOrderly i reads nothing (one_step i moved local reads rest)
unfolding one_step
IsOrderly-one_step i none local reads rest d h = h local reads d
IsOrderly-one_step i (some (from, to, amount)) local reads rest d h =
    IsOrderly-local_or_mv i from local reads _ (λ r. IsOrderly-local_or_mv i to local r.1 _ (λ s.
      elim (Bool-cases (ltb r.0.canonical amount)) [
        | inl e ↦ rw e (IsOrderly-reject i s.1 insufficient_balance)
        | inr e ↦ rw e (
            IsOrderly-settle_step from to amount i local rest r.0.canonical s.1
              (checked_add s.0.canonical amount) d h)
      ]))

IsOrderly-execute_steps :
    (i : TxnIdx) (steps : List BundleStep) → IsOrderlyRest i (execute_steps i steps)
unfolding execute_steps
IsOrderly-execute_steps i [] local reads d =
    IsOrderly-publish_local i reads local [] nothing d (λ a. inr refl)
IsOrderly-execute_steps i (step ∷ steps) local reads d =
    IsOrderly-one_step i (step_transfer step) local reads (execute_steps i steps) d
      (IsOrderly-execute_steps i steps)

module _ {S : Type 0} (registry : ContractRegistry S) (st : State S) where
  pub IsOrderly-execute_one :
      (intent : Intent) (i : TxnIdx) → IsOrderly i [] nothing (execute_one registry st intent i)
  unfolding execute_one execute_call Records WritesOnce
  IsOrderly-execute_one (transfer from to amount) i =
      IsOrderly-execute_transfer_into from to amount i
  IsOrderly-execute_one (call caller target value calldata) i =
      elim (Option-cases (Registry.get registry target)) [
        | inl e ↦ rw (e, execute_call) (IsOrderly-execute_transfer_into caller target value i)
        | inr (generate, e) ↦ rw (e, execute_call) (IsOrderly-execute_steps i _ [] [] tt)
      ]
  IsOrderly-execute_one (deploy_module account name bytes) i = ((refl, refl), tt)
