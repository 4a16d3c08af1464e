-- ===== src/Prelude/Classes.antt =====
-- Interfaces of keys: equality as the derived `PartialEq`, and order as the derived `Ord`.
use Prim.Native.Nat.{ℕ, compare, Ordering}
use Prim.Native.Nat.Ordering.{lt, eq, gt}
use mathlib.Core.Path.{◌≡◌, refl}
use mathlib.Core.Logic.{◌↔◌, ◌⊎◌, ◌≢◌}
use mathlib.Core.Bool.{Bool, true, false, ◌&&◌}
use mathlib.Core.List.{List, [], ◌∷◌}
use native.Mathlib.Omega.{arith}
use suwappu_db.Prelude.Tests.{nat_beq, nat_beq_iff}

pub record Eq {ℓ} (K : Type ℓ) : Type ℓ where
  pub beq : K → K → Bool
  pub beq_iff : (x y : K) → (beq x y ≡ true) ↔ (x ≡ y)

instance abbrev pub nat_eq : Eq ℕ
nat_eq = record { beq_iff = nat_beq_iff; beq = nat_beq }

module _ {ℓ} {A : Type ℓ} ⦃e : Eq A⦄ where
  infix 50 ◌==◌
  abbrev pub ◌==◌ : A → A → Bool
  x == y = e.beq x y

  pub beq_refl : (a : A) → (a == a) ≡ true
  beq_refl a = (e.beq_iff a a).1 refl

  -- A test between two values decides their equation.
  pub beq-cases : (a b : A) → (a ≡ b) ⊎ (((a == b) ≡ false) × (a ≢ b))
  beq-cases a b = ground (arith, e.beq_iff a b)

  pub beq_ne : (a b : A) → a ≢ b → (a == b) ≡ false
  beq_ne a b h = ground (arith, e.beq_iff a b)

  abbrev pub list_beq : List A → List A → Bool
  list_beq [] [] = true
  list_beq (x ∷ xs) (y ∷ ys) = (x == y) && list_beq xs ys
  list_beq _ _ = false

  pub list_beq_iff : (xs ys : List A) → (list_beq xs ys ≡ true) ↔ (xs ≡ ys)
  list_beq_iff [] [] = ground arith
  list_beq_iff (x ∷ xs) (y ∷ ys) = ground (arith, e.beq_iff x y, list_beq_iff xs ys)
  list_beq_iff [] (y ∷ ys) = ground arith
  list_beq_iff (x ∷ xs) [] = ground arith

  instance abbrev pub list_eq : Eq (List A)
  list_eq = record { beq = list_beq; beq_iff = list_beq_iff }

-- A total order given by a comparison, with the laws that the `Ord` trait asks for.
pub record Ord {ℓ} (K : Type ℓ) : Type ℓ where
  pub cmp : K → K → Ordering
  pub lt_trans : (x y z : K) → cmp x y ≡ lt → cmp y z ≡ lt → cmp x z ≡ lt
  pub lt_of_gt : (x y : K) → cmp x y ≡ gt → cmp y x ≡ lt
  pub gt_of_lt : (x y : K) → cmp x y ≡ lt → cmp y x ≡ gt
  pub eq_of_cmp : (x y : K) → cmp x y ≡ eq → x ≡ y
  pub cmp_refl : (x : K) → cmp x x ≡ eq

module _ {ℓ} {K : Type ℓ} ⦃o : Ord K⦄ where
  infix 50 ◌≺◌
  abbrev pub ◌≺◌ : K → K → Type 0
  x ≺ y = o.cmp x y ≡ lt

-- The two keys compare as equal.
abbrev pub is_eq : Ordering → Bool
is_eq eq = true
is_eq _ = false

pub nat_cmp_refl : (a : ℕ) → compare a a ≡ eq
nat_cmp_refl a = ground arith

pub nat_eq_of_cmp : (a b : ℕ) → compare a b ≡ eq → a ≡ b
nat_eq_of_cmp a b h = ground arith

pub nat_lt_of_gt : (a b : ℕ) → compare a b ≡ gt → compare b a ≡ lt
nat_lt_of_gt a b h = ground arith

pub nat_gt_of_lt : (a b : ℕ) → compare a b ≡ lt → compare b a ≡ gt
nat_gt_of_lt a b h = ground arith

pub nat_lt_trans : (a b c : ℕ) → compare a b ≡ lt → compare b c ≡ lt → compare a c ≡ lt
nat_lt_trans a b c h k = ground arith

instance abbrev pub nat_ord : Ord ℕ
nat_ord = record {
  cmp = compare;
  cmp_refl = nat_cmp_refl;
  eq_of_cmp = nat_eq_of_cmp;
  lt_of_gt = nat_lt_of_gt;
  gt_of_lt = nat_gt_of_lt;
  lt_trans = nat_lt_trans;
}

module _ {ℓ} {A : Type ℓ} ⦃o : Ord A⦄ where
  -- Sequences compare lexicographically.
  abbrev pub lex : List A → List A → Ordering
  lex [] [] = eq
  lex [] (y ∷ ys) = lt
  lex (x ∷ xs) [] = gt
  lex (x ∷ xs) (y ∷ ys) = elim (o.cmp x y) [ lt ↦ lt | gt ↦ gt | eq ↦ lex xs ys ]

  pub lex_refl : (xs : List A) → lex xs xs ≡ eq
  lex_refl [] = refl
  lex_refl (x ∷ xs) = ground (arith, o.cmp_refl x, lex_refl xs)

  pub eq_of_lex : (xs ys : List A) → lex xs ys ≡ eq → xs ≡ ys
  eq_of_lex [] [] h = refl
  eq_of_lex [] (y ∷ ys) h = cc
  eq_of_lex (x ∷ xs) [] h = cc
  eq_of_lex (x ∷ xs) (y ∷ ys) h = ground (arith, o.eq_of_cmp x y, eq_of_lex xs ys)

  pub lex-lt_of_gt : (xs ys : List A) → lex xs ys ≡ gt → lex ys xs ≡ lt
  lex-lt_of_gt [] [] h = cc
  lex-lt_of_gt [] (y ∷ ys) h = cc
  lex-lt_of_gt (x ∷ xs) [] h = refl
  lex-lt_of_gt (x ∷ xs) (y ∷ ys) h =
      ground (arith, o.eq_of_cmp x y, o.cmp_refl x, o.lt_of_gt x y, lex-lt_of_gt xs ys)

  pub lex-gt_of_lt : (xs ys : List A) → lex xs ys ≡ lt → lex ys xs ≡ gt
  lex-gt_of_lt [] [] h = cc
  lex-gt_of_lt [] (y ∷ ys) h = refl
  lex-gt_of_lt (x ∷ xs) [] h = cc
  lex-gt_of_lt (x ∷ xs) (y ∷ ys) h =
      ground (arith, o.eq_of_cmp x y, o.cmp_refl x, o.gt_of_lt x y, lex-gt_of_lt xs ys)

  pub lex_trans : (xs ys zs : List A) → lex xs ys ≡ lt → lex ys zs ≡ lt → lex xs zs ≡ lt
  lex_trans [] [] zs h k = cc
  lex_trans [] (y ∷ ys) [] h k = cc
  lex_trans [] (y ∷ ys) (z ∷ zs) h k = refl
  lex_trans (x ∷ xs) [] zs h k = cc
  lex_trans (x ∷ xs) (y ∷ ys) [] h k = cc
  lex_trans (x ∷ xs) (y ∷ ys) (z ∷ zs) h k =
      ground (arith, o.eq_of_cmp x y, o.eq_of_cmp y z, o.lt_trans x y z, lex_trans xs ys zs)

  instance abbrev pub list_ord : Ord (List A)
  list_ord = record {
    cmp = lex;
    cmp_refl = lex_refl;
    eq_of_cmp = eq_of_lex;
    lt_of_gt = lex-lt_of_gt;
    gt_of_lt = lex-gt_of_lt;
    lt_trans = lex_trans;
  }

-- The derived `==` and the derived `cmp` agree.
pub is_eq-cmp {ℓ} : {A : Type ℓ} ⦃e : Eq A⦄ ⦃o : Ord A⦄ (a b : A) → is_eq (o.cmp a b) ≡ (b == a)
is_eq-cmp ⦃e⦄ ⦃o⦄ a b = ground (arith, e.beq_iff b a, o.eq_of_cmp a b, o.cmp_refl a)
