-- ===== src/Tree/Preimages.antt =====
-- What a digest of tree bytes determines, up to a collision of the hash function: the serialisation
-- of crates/suwappudb-state/src/tree/commit.rs is injective.
use native.Mathlib.Nat.{pow-suc}
use suwappu_db.Prelude.{
  ℕ, zero, suc, ◌*◌, ◌^◌, ◌/◌, ◌%◌, ◌<◌, ◌≡◌, ◌≢◌, ◌⊎◌, inl, inr, refl, sym, ◌∙◌, List, [], ◌∷◌,
  ◌++◌, length, length-append, arith, beq-cases, nat_eq, list_eq, nat_ord, All,
}
use suwappu_db.Tree.Commit.{Blake3, Commitment, be_bytes, chunks}

-- Two inputs with one digest.
abbrev pub Collision : Blake3 → Type 0
Collision h = (x : List ℕ) × (y : List ℕ) × (x ≢ y) × (h.digest x ≡ h.digest y)

pub preimage : (h : Blake3) (x y : List ℕ) → h.digest x ≡ h.digest y → Collision h ⊎ (x ≡ y)
preimage h x y e = elim (beq-cases x y) [
  | inl same ↦ inr same
  | inr differ ↦ inl (x, y, differ.1, e)
]

pub append-injective :
    {A : Type 0} (xs ys us vs : List A)
    → length xs ≡ length us
    → xs ++ ys ≡ us ++ vs
    → (xs ≡ us) × (ys ≡ vs)
append-injective [] ys [] vs l e = (refl, e)
append-injective [] ys (u ∷ us) vs l e = ground (arith, l)
append-injective (x ∷ xs) ys [] vs l e = ground (arith, l)
append-injective (x ∷ xs) ys (u ∷ us) vs l e =
    let rest = append-injective xs ys us vs (omega (arith, l)) (ground (arith, e)) in
    ground (arith, rest, e)

pub length-be_bytes : (width n : ℕ) → length (be_bytes width n) ≡ width
unfolding be_bytes
length-be_bytes zero n = refl
length-be_bytes (suc width) n =
    length-append (be_bytes width (n / 256)) ((n % 256) ∷ [])
    ∙ omega (arith, length-be_bytes width (n / 256))

pub quotient-lt : (width n : ℕ) → n < 256 ^ suc width → n / 256 < 256 ^ width
quotient-lt width n h =
    let power : 256 ^ suc width ≡ 256 ^ width * 256 = pow-suc 256 width in
    let bound : n < 256 ^ width * 256 = rw (sym power) h in omega arith

-- The bytes of a word determine it.
pub be_bytes-injective :
    (width n m : ℕ)
    → n < 256 ^ width
    → m < 256 ^ width
    → be_bytes width n ≡ be_bytes width m
    → n ≡ m
unfolding be_bytes
be_bytes-injective zero n m hn hm e = omega arith
be_bytes-injective (suc width) n m hn hm e =
    let parts =
      append-injective (be_bytes width (n / 256)) _ (be_bytes width (m / 256)) _
        (length-be_bytes width (n / 256) ∙ sym (length-be_bytes width (m / 256))) e in
    let high =
      be_bytes-injective width (n / 256) (m / 256) (quotient-lt width n hn) (quotient-lt width m hm)
        parts.0 in
    let low : n % 256 ≡ m % 256 = ground (arith, parts.1) in omega arith

abbrev pub HasLength : ℕ → List (ℕ × Commitment) → Type 0
HasLength n entries = All (λ e. length e.1.bytes ≡ n) entries

-- Chunks of one length determine the entries.
pub chunks-injective :
    (n : ℕ) (xs ys : List (ℕ × Commitment))
    → HasLength n xs
    → HasLength n ys
    → chunks xs ≡ chunks ys
    → xs ≡ ys
unfolding chunks
chunks-injective n [] [] hx hy e = refl
chunks-injective n [] (y ∷ ys) hx hy e = cc
chunks-injective n (x ∷ xs) [] hx hy e = cc
chunks-injective n ((j, c) ∷ xs) ((k, d) ∷ ys) hx hy e =
    let tail : c.bytes ++ chunks xs ≡ d.bytes ++ chunks ys = ground (arith, e) in
    let parts = append-injective c.bytes (chunks xs) d.bytes (chunks ys) (hx.0 ∙ sym hy.0) tail in
    let rest = chunks-injective n xs ys hx.1 hy.1 parts.1 in ground (arith, e, parts.0, rest)
