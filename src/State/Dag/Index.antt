-- ===== src/State/Dag/Index.antt =====
-- `put` keeps the children index exact for a hash that is not in the store.
use suwappu_db.Collections.BTreeMap
use suwappu_db.Collections.BTreeMap.{BTreeMap}
use suwappu_db.Collections.HashMap.{or_else}
use suwappu_db.State.Dag.{
  BlockHash, DagBlock, DagStore, contains_hash, push_new, add_children, put, new, get, parents_of,
  children_of, ancestors_of, descendants_of,
}
use suwappu_db.State.Dag.Hashes.{
  ◌∈◌, mem_left, mem_right, mem_nil, mem_head, mem_behind, mem_cons, mem_last,
}
use suwappu_db.State.Dag.Ancestry.{IsIndexed, IsIndexed-searches}
use suwappu_db.Prelude.{
  ◌≡◌, ◌↔◌, ◌⊎◌, inl, inr, List, [], ◌∷◌, ◌++◌, refl, true, is_eq-cmp, list_beq_iff, list_eq,
  nat_eq, list_ord, nat_ord, subst, none, some, is_eq, if◌then◌else◌, sym, Bool-cases,
}

mem_push_new :
    (g hash : BlockHash) (hs : List BlockHash) → (g ∈ push_new hash hs) ↔ (g ∈ hs ⊎ (hash ≡ g))
mem_push_new g hash hs = elim (Bool-cases (contains_hash hash hs)) [
  | inl has ↦ (
    (λ i. inl (subst (λ l. g ∈ l) {x = push_new hash hs} {y = hs} (rw has refl) i)),
    (λ c. rw has (elim c [ inl i ↦ i | inr same ↦ subst (λ h. h ∈ hs) same has ])),
  )
  | inr lacks ↦ (
    (λ i.
        mem_last g hash hs
          (subst (λ l. g ∈ l) {x = push_new hash hs} {y = hs ++ hash ∷ []} (rw lacks refl) i)),
    (λ c. rw lacks (elim c [
      | inl i ↦ mem_left g hs (hash ∷ []) i
      | inr same ↦ mem_right g hs (hash ∷ []) (subst (λ h. h ∈ hash ∷ []) same (mem_head hash []))
    ])),
  )
]

abbrev kids : BlockHash → BTreeMap BlockHash (List BlockHash) → List BlockHash
kids h m = or_else (BTreeMap.lookup h m) []

kids-insert :
    (h parent : BlockHash) (hs : List BlockHash) (m : BTreeMap BlockHash (List BlockHash))
    → kids h (BTreeMap.insert parent hs m)
      ≡ (if is_eq (list_ord.cmp h parent) then hs else kids h m)
kids-insert h parent hs m = elim (Bool-cases (is_eq (list_ord.cmp h parent))) [
  | inl same ↦ rw (BTreeMap.lookup-insert parent h hs m, same) refl
  | inr differs ↦ rw (BTreeMap.lookup-insert parent h hs m, differs) refl
]

is_eq-same : (h parent : BlockHash) → (is_eq (list_ord.cmp h parent) ≡ true) ↔ (parent ≡ h)
is_eq-same h parent = rw (is_eq-cmp h parent) (list_beq_iff parent h)

-- One round of the loop of `put`.
kids-push :
    (g h hash parent : BlockHash) (m : BTreeMap BlockHash (List BlockHash))
    → (g ∈ kids h (BTreeMap.insert parent (push_new hash (kids parent m)) m))
      ↔ (g ∈ kids h m ⊎ ((hash ≡ g) × (parent ≡ h)))
kids-push g h hash parent m =
    let entry = push_new hash (kids parent m) in
    let pushed = mem_push_new g hash (kids parent m) in
    elim (Bool-cases (is_eq (list_ord.cmp h parent))) [
      | inl here ↦
          let same : parent ≡ h = (is_eq-same h parent).0 here in
          let now : kids h (BTreeMap.insert parent entry m) ≡ entry =
            rw (kids-insert h parent entry m, here) refl in
          (
            (λ i. elim (pushed.0 (subst (λ l. g ∈ l) now i)) [
              | inl old ↦ inl (subst (λ k. g ∈ kids k m) same old)
              | inr added ↦ inr (added, same)
            ]),
            (λ c.
                subst (λ l. g ∈ l) (sym now)
                  (pushed.1 (elim c [
                    | inl old ↦ inl (subst (λ k. g ∈ kids k m) (sym same) old)
                    | inr added ↦ inr added.0
                  ]))),
          )
      | inr other ↦
          let now : kids h (BTreeMap.insert parent entry m) ≡ kids h m =
            rw (kids-insert h parent entry m, other) refl in
          (
            (λ i. inl (subst (λ l. g ∈ l) now i)),
            (λ c.
                subst (λ l. g ∈ l) (sym now)
                  (elim c [
                    | inl old ↦ old
                    | inr added ↦
                        let hit = (is_eq-same h parent).1 added.1 in absurd (cc (hit, other))
                  ])),
          )
    ]

kids-add_children :
    (g h hash : BlockHash) (parents : List BlockHash) (m : BTreeMap BlockHash (List BlockHash))
    → (g ∈ kids h (add_children hash parents m)) ↔ (g ∈ kids h m ⊎ ((hash ≡ g) × h ∈ parents))
unfolding add_children
kids-add_children g h hash [] m =
    ((λ i. inl i), (λ c. elim c [ inl old ↦ old | inr added ↦ absurd (mem_nil h added.1) ]))
kids-add_children g h hash (parent ∷ parents) m =
    let next = BTreeMap.insert parent (push_new hash (kids parent m)) m in
    let rest = kids-add_children g h hash parents next in
    let round = kids-push g h hash parent m in
    (
      (λ i. elim (rest.0 i) [
        | inl now ↦ elim (round.0 now) [
          | inl old ↦ inl old
          | inr added ↦
              inr (added.0, subst (λ k. k ∈ parent ∷ parents) added.1 (mem_head parent parents))
        ]
        | inr later ↦ inr (later.0, mem_behind h parent parents later.1)
      ]),
      (λ c. rest.1 (elim c [
        | inl old ↦ inl (round.1 (inl old))
        | inr added ↦ elim (mem_cons h parent parents added.1) [
          | inl same ↦ inl (round.1 (inr (added.0, same)))
          | inr later ↦ inr (added.0, later)
        ]
      ])),
    )

parents_of-put :
    (s : DagStore) (hash g : BlockHash) (block : DagBlock)
    → parents_of (put s hash block) g
      ≡ (if is_eq (list_ord.cmp g hash) then block.parent_hashes else parents_of s g)
unfolding parents_of put
parents_of-put s hash g block = elim (Bool-cases (is_eq (list_ord.cmp g hash))) [
  | inl same ↦
      let found : BTreeMap.lookup g (put s hash block).blocks ≡ some block =
        rw (BTreeMap.lookup-insert hash g block s.blocks, same) refl in
      rw (found, same, parents_of) refl
  | inr other ↦
      let found : BTreeMap.lookup g (put s hash block).blocks ≡ BTreeMap.lookup g s.blocks =
        rw (BTreeMap.lookup-insert hash g block s.blocks, other) refl in
      rw (found, other, parents_of) refl
]

children_of-put :
    (s : DagStore) (hash g h : BlockHash) (block : DagBlock)
    → (g ∈ children_of (put s hash block) h)
      ↔ (g ∈ children_of s h ⊎ ((hash ≡ g) × h ∈ block.parent_hashes))
unfolding children_of put
children_of-put s hash g h block = kids-add_children g h hash block.parent_hashes s.children

pub new-IsIndexed : IsIndexed new
unfolding children_of parents_of BTreeMap.lookup
new-IsIndexed h g = ((λ i. absurd (mem_nil g i)), (λ i. absurd (mem_nil h i)))

pub put-IsIndexed :
    (s : DagStore) (hash : BlockHash) (block : DagBlock)
    → get s hash ≡ none
    → IsIndexed s
    → IsIndexed (put s hash block)
unfolding get parents_of
put-IsIndexed s hash block fresh indexed h g =
    let kids' = children_of-put s hash g h block in
    let orphan : parents_of s hash ≡ [] = rw (fresh, parents_of) refl in
    elim (Bool-cases (is_eq (list_ord.cmp g hash))) [
      | inl here ↦
          let same : hash ≡ g = (is_eq-same g hash).0 here in
          let now : parents_of (put s hash block) g ≡ block.parent_hashes =
            rw (parents_of-put s hash g block, here) refl in
          (
            (λ i.
                subst (λ l. h ∈ l) (sym now)
                  (elim (kids'.0 i) [
                    | inl old ↦
                        let named =
                          subst (λ k. h ∈ parents_of s k) (sym same) ((indexed h g).0 old) in
                        absurd (mem_nil h (subst (λ l. h ∈ l) orphan named))
                    | inr added ↦ added.1
                  ])),
            (λ i. kids'.1 (inr (same, subst (λ l. h ∈ l) now i))),
          )
      | inr other ↦
          let now : parents_of (put s hash block) g ≡ parents_of s g =
            rw (parents_of-put s hash g block, other) refl in
          (
            (λ i.
                subst (λ l. h ∈ l) (sym now)
                  (elim (kids'.0 i) [
                    | inl old ↦ (indexed h g).0 old
                    | inr added ↦
                        let hit = (is_eq-same g hash).1 added.0 in absurd (cc (hit, other))
                  ])),
            (λ i. kids'.1 (inl ((indexed h g).1 (subst (λ l. h ∈ l) now i)))),
          )
    ]

-- Calls of `put` in order, each with a hash that is not in the store yet.
abbrev pub put_all : DagStore → List (BlockHash × DagBlock) → DagStore
put_all s [] = s
put_all s ((hash, block) ∷ entries) = put_all (put s hash block) entries

abbrev pub AreFresh : DagStore → List (BlockHash × DagBlock) → Type 0
AreFresh s [] = Unit
AreFresh s ((hash, block) ∷ entries) = (get s hash ≡ none) × AreFresh (put s hash block) entries

put_all-IsIndexed :
    (s : DagStore) (entries : List (BlockHash × DagBlock))
    → AreFresh s entries
    → IsIndexed s
    → IsIndexed (put_all s entries)
put_all-IsIndexed s [] fresh indexed = indexed
put_all-IsIndexed s ((hash, block) ∷ entries) fresh indexed =
    put_all-IsIndexed (put s hash block) entries fresh.1
      (put-IsIndexed s hash block fresh.0 indexed)

-- In the store that is built by puts of blocks under hashes that are not in it yet, in any order of
-- the blocks, for any two hashes both searches return, and the second hash is among the descendants of
-- the first if and only if the first is among the ancestors of the second.
pub descendants_of-ancestors_of :
    (entries : List (BlockHash × DagBlock)) (a d : BlockHash)
    → AreFresh new entries
    → (below : List BlockHash) × (above : List BlockHash) × (descendants_of (put_all new entries) a
        ≡ some below)
      × (ancestors_of (put_all new entries) d ≡ some above)
      × ((d ∈ below) ↔ (a ∈ above))
descendants_of-ancestors_of entries a d fresh =
    IsIndexed-searches (put_all new entries) a d (put_all-IsIndexed new entries fresh new-IsIndexed)
