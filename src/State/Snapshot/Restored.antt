-- ===== src/State/Snapshot/Restored.antt =====
-- A state that is restored from a snapshot holds what the captured state held.
use suwappu_db.State.Snapshot.Sorting.{
  lookup-sort_by_address, IsDistinct-sort_by_address, All-sort_by_address, length-sort_by_address,
}
use suwappu_db.Collections.HashMap.{IsDistinct}
use suwappu_db.State.Snapshot.RoundTrip.{
  body_of, parse-encode, encode_v2-some, IsWritableBlob, IsWritable, amount_of,
}
use suwappu_db.State.Slot.{BalanceSlot}
use suwappu_db.State.Canonical.{
  balance_of-set_balance, balance_of-set_bytes, bytes_of-set_balance, bytes_of-set_bytes,
  set_balance, bytes_entries, set_bytes, entries, apply, bytes_of, balance_of, State,
}
use suwappu_db.State.Snapshot.{
  parse_v2_body, restore_v2, snapshot_magic_v2, sort_by_address, StateSnapshot, restore_into_state,
  from_state, apply_balances, apply_blobs,
}
use suwappu_db.State.Store.Interface.{stored, BalanceStore}
use suwappu_db.Collections.HashMap
use suwappu_db.State.Address.{Address, address_eq, address_beq_iff}
use suwappu_db.State.Snapshot
use suwappu_db.Prelude.{
  false, ltb, length-map, ap, replicate, Option, ◌∙◌, ℕ, ◌≡◌, ◌<◌, ◌+◌, ◌^◌, List, [], ◌∷◌, ◌++◌,
  All, none, some, refl, arith, length, map, ok,
}

lookup-amount_of :
    (a : Address) (es : List (Address × BalanceSlot))
    → HashMap.lookup a (map amount_of es)
      ≡ elim (HashMap.lookup a es) [ none ↦ none | some s ↦ some s.canonical ]
unfolding HashMap.lookup
lookup-amount_of a [] = refl
lookup-amount_of a (e ∷ es) = ground (arith, lookup-amount_of a es)

IsDistinct-amount_of :
    (es : List (Address × BalanceSlot)) → IsDistinct es → IsDistinct (map amount_of es)
IsDistinct-amount_of [] d = tt
IsDistinct-amount_of (e ∷ es) d =
    (lookup-amount_of e.0 es ∙ rw d.0 refl, IsDistinct-amount_of es d.1)

module _ {S : Type 0} ⦃b : BalanceStore S⦄ where
  balance_of-apply_balances :
      (ws : List (Address × ℕ)) (st : State S) (a : Address)
      → IsDistinct ws
      → balance_of (apply_balances ws st) a
        ≡ elim (HashMap.lookup a ws) [ none ↦ balance_of st a | some v ↦ v ]
  unfolding apply_balances HashMap.lookup
  balance_of-apply_balances [] st a d = refl
  balance_of-apply_balances ((c, v) ∷ ws) st a d =
      let rest = balance_of-apply_balances ws (apply st (set_balance c v)) a d.1 in
      ground (arith, rest, d.0, address_beq_iff c a, balance_of-set_balance st c a v)

  bytes_of-apply_balances :
      (ws : List (Address × ℕ)) (st : State S) (a : Address)
      → bytes_of (apply_balances ws st) a ≡ bytes_of st a
  unfolding apply_balances
  bytes_of-apply_balances [] st a = refl
  bytes_of-apply_balances ((c, v) ∷ ws) st a =
      bytes_of-apply_balances ws (apply st (set_balance c v)) a ∙ bytes_of-set_balance st c a v

  bytes_of-apply_blobs :
      (ws : List (Address × List ℕ)) (st : State S) (a : Address)
      → IsDistinct ws
      → bytes_of (apply_blobs ws st) a
        ≡ elim (HashMap.lookup a ws) [ none ↦ bytes_of st a | some w ↦ stored w ]
  unfolding apply_blobs HashMap.lookup
  bytes_of-apply_blobs [] st a d = refl
  bytes_of-apply_blobs ((c, w) ∷ ws) st a d =
      let rest = bytes_of-apply_blobs ws (apply st (set_bytes c w)) a d.1 in
      ground (arith, rest, d.0, address_beq_iff c a, bytes_of-set_bytes st c a w)

  balance_of-apply_blobs :
      (ws : List (Address × List ℕ)) (st : State S) (a : Address)
      → balance_of (apply_blobs ws st) a ≡ balance_of st a
  unfolding apply_blobs
  balance_of-apply_blobs [] st a = refl
  balance_of-apply_blobs ((c, w) ∷ ws) st a =
      balance_of-apply_blobs ws (apply st (set_bytes c w)) a ∙ balance_of-set_bytes st c a w

  restore_body :
      (snapshot : StateSnapshot) (body : List ℕ)
      → snapshot.encoded_state ≡ snapshot_magic_v2 ++ body
      → (target : State S)
      → restore_into_state snapshot target
        ≡ restore_v2 (parse_v2_body (snapshot_magic_v2 ++ body)) target
  unfolding restore_into_state
  restore_body snapshot body e target = rw e (rw (long body) refl)
    where
      long : (body : List ℕ) → ltb (length (snapshot_magic_v2 ++ body)) 8 ≡ false
      long body = ground arith

  -- The entries of the state fit the format: each address once and of twenty bytes, amounts that are
  -- a u128, and fewer entries and bytes of each blob than a u32 counts.
  pub record IsCapturable (st : State S) : Type 0 where
    pub distinct : IsDistinct (entries st)
    pub distinct_blobs : IsDistinct (bytes_entries st)
    pub writable : All IsWritable (entries st)
    pub writable_blobs : All IsWritableBlob (bytes_entries st)
    pub few : length (entries st) < 2 ^ 32
    pub few_blobs : length (bytes_entries st) < 2 ^ 32

  -- If the entries of a state fit the format, a snapshot of it can be taken, and whatever state it is
  -- restored into: the restore counts all entries, the balance of every address that has an entry in
  -- the captured state and the blob of every address that has one are those of the entry, and the
  -- other balances and blobs are those of the state that was restored into.
  pub restore-from_state :
      (now height : ℕ) (anchor : Option (List ℕ)) (st target : State S)
      → IsCapturable st
      → (snapshot : StateSnapshot) × (restored : State S) × (from_state now st height anchor
          ≡ some snapshot)
        × (restore_into_state snapshot target
            ≡ (restored, ok (length (entries st) + length (bytes_entries st))))
        × ((a : Address)
            → balance_of restored a ≡ elim (HashMap.lookup a (entries st)) [
              | none ↦ balance_of target a
              | some s ↦ s.canonical
            ])
        × ((a : Address)
            → bytes_of restored a ≡ elim (HashMap.lookup a (bytes_entries st)) [
              | none ↦ bytes_of target a
              | some w ↦ stored w
            ])
  unfolding from_state restore_into_state
  restore-from_state now height anchor st target c =
      let es = sort_by_address (entries st) in
      let bs = sort_by_address (bytes_entries st) in
      let size = length-sort_by_address (entries st) in
      let size_blobs = length-sort_by_address (bytes_entries st) in
      let few : length es < 2 ^ 32 = omega (arith, size, c.few) in
      let few_blobs : length bs < 2 ^ 32 = omega (arith, size_blobs, c.few_blobs) in
      let fit = All-sort_by_address IsWritable (entries st) c.writable in
      let fit_blobs = All-sort_by_address IsWritableBlob (bytes_entries st) c.writable_blobs in
      let wrote = encode_v2-some es bs few few_blobs fit fit_blobs in
      let read = parse-encode es bs few few_blobs fit fit_blobs in
      let amounts = map amount_of es in
      let balanced = apply_balances amounts target in
      let d = IsDistinct-sort_by_address (entries st) c.distinct in
      let d_blobs = IsDistinct-sort_by_address (bytes_entries st) c.distinct_blobs in
      let snapshot =
        Snapshot.new now height (record { bytes = replicate 32 0 })
          (snapshot_magic_v2 ++ body_of es bs) anchor in
      (
        snapshot,
        apply_blobs bs balanced,
        rw (wrote, from_state) refl,
        restore_body snapshot (body_of es bs) refl target
            ∙ ap (λ r. restore_v2 r target) read
            ∙ ap (λ n. (apply_blobs bs balanced, ok n))
                (omega (arith, size, size_blobs, length-map amount_of es)),
        (λ a.
            balance_of-apply_blobs bs balanced a
            ∙ balance_of-apply_balances amounts target a (IsDistinct-amount_of es d)
            ∙ ground
                (arith, lookup-amount_of a es, lookup-sort_by_address a (entries st) c.distinct)),
        (λ a.
            bytes_of-apply_blobs bs balanced a d_blobs
            ∙ ground (
              arith,
              bytes_of-apply_balances amounts target a,
              lookup-sort_by_address a (bytes_entries st) c.distinct_blobs,
            )),
      )
