-- ===== src/Base/Order.antt =====
-- Rust's `Ord`: comparison into `Ordering` with its laws, derived for lists by lexicographic order,
-- as for `Vec<T>` and, over code points, for `String`.
use Prim.Native.Nat.{ℕ, compare, Ordering}
use mathlib.Core.Path.{◌≡◌, refl}
use mathlib.Core.Logic.{◌↔◌, ◌≢◌}
use mathlib.Core.Bool.{Bool, true, false}
use mathlib.Core.List.{List, [], ◌∷◌}
use native.Mathlib.Omega.{arith}

abbrev pub swap : Ordering → Ordering
swap Ordering.lt = Ordering.gt
swap Ordering.eq = Ordering.eq
swap Ordering.gt = Ordering.lt

-- `Ordering::then_with`
abbrev pub then_with : Ordering → Ordering → Ordering
then_with Ordering.eq o = o
then_with Ordering.lt o = Ordering.lt
then_with Ordering.gt o = Ordering.gt

pub record Ord {ℓ} (A : Type ℓ) : Type ℓ where
  pub cmp : A → A → Ordering
  pub cmp_refl : (a : A) → cmp a a ≡ Ordering.eq
  pub cmp_eq : (a b : A) → cmp a b ≡ Ordering.eq → a ≡ b
  pub cmp_swap : (a b : A) → cmp b a ≡ swap (cmp a b)
  pub cmp_trans :
      (a b c : A) → cmp a b ≡ Ordering.lt → cmp b c ≡ Ordering.lt → cmp a c ≡ Ordering.lt

pub compare_refl : (a : ℕ) → compare a a ≡ Ordering.eq
compare_refl a = ground arith

pub compare_eq : (a b : ℕ) → compare a b ≡ Ordering.eq → a ≡ b
compare_eq a b h = ground arith

pub compare-swap : (a b : ℕ) → compare b a ≡ swap (compare a b)
compare-swap a b = ground arith

pub compare_trans :
    (a b c : ℕ) → compare a b ≡ Ordering.lt → compare b c ≡ Ordering.lt → compare a c ≡ Ordering.lt
compare_trans a b c h k = ground arith

instance abbrev pub nat_ord : Ord ℕ
nat_ord = record {
  cmp = compare;
  cmp_refl = compare_refl;
  cmp_eq = compare_eq;
  cmp_swap = compare-swap;
  cmp_trans = compare_trans;
}

module _ {ℓ} {A : Type ℓ} ⦃o : Ord A⦄ where
  infix 50 ◌==◌
  abbrev pub ◌==◌ : A → A → Bool
  a == b = elim (o.cmp a b) [ Ordering.eq ↦ true | _ ↦ false ]

  abbrev pub lex : List A → List A → Ordering
  lex [] [] = Ordering.eq
  lex [] (y ∷ ys) = Ordering.lt
  lex (x ∷ xs) [] = Ordering.gt
  lex (x ∷ xs) (y ∷ ys) = then_with (o.cmp x y) (lex xs ys)

  pub lex_refl : (xs : List A) → lex xs xs ≡ Ordering.eq
  lex_refl [] = refl
  lex_refl (x ∷ xs) = ground (arith, o.cmp_refl x, lex_refl xs)

  pub lex_eq : (xs ys : List A) → lex xs ys ≡ Ordering.eq → xs ≡ ys
  lex_eq [] [] h = refl
  lex_eq [] (y ∷ ys) h = cc
  lex_eq (x ∷ xs) [] h = cc
  lex_eq (x ∷ xs) (y ∷ ys) h = ground (arith, o.cmp_eq x y, lex_eq xs ys)

  pub lex-swap : (xs ys : List A) → lex ys xs ≡ swap (lex xs ys)
  lex-swap [] [] = refl
  lex-swap [] (y ∷ ys) = refl
  lex-swap (x ∷ xs) [] = refl
  lex-swap (x ∷ xs) (y ∷ ys) = ground (arith, o.cmp_swap x y, lex-swap xs ys)

  pub lex_trans :
      (xs ys zs : List A)
      → lex xs ys ≡ Ordering.lt
      → lex ys zs ≡ Ordering.lt
      → lex xs zs ≡ Ordering.lt
  lex_trans [] [] zs h k = cc
  lex_trans [] (y ∷ ys) [] h k = cc
  lex_trans [] (y ∷ ys) (z ∷ zs) h k = refl
  lex_trans (x ∷ xs) [] zs h k = cc
  lex_trans (x ∷ xs) (y ∷ ys) [] h k = cc
  lex_trans (x ∷ xs) (y ∷ ys) (z ∷ zs) h k =
      ground (arith, lex_trans xs ys zs, o.cmp_trans x y z, o.cmp_eq x y, o.cmp_eq y z)

  instance abbrev pub list_ord : Ord (List A)
  list_ord = record {
    cmp = lex;
    cmp_refl = lex_refl;
    cmp_eq = lex_eq;
    cmp_swap = lex-swap;
    cmp_trans = lex_trans;
  }

  pub ==_iff : (a b : A) → ((a == b) ≡ true) ↔ (a ≡ b)
  ==_iff a b = (λ h. ground (arith, o.cmp_eq a b), λ h. ground (arith, o.cmp_refl a, h))

  pub ==_refl : (a : A) → (a == a) ≡ true
  ==_refl a = ground (arith, o.cmp_refl a)

  pub cmp-gt_of_lt : (a b : A) → o.cmp a b ≡ Ordering.lt → o.cmp b a ≡ Ordering.gt
  cmp-gt_of_lt a b h = ground (arith, o.cmp_swap a b)

  pub cmp-lt_irrefl : (a : A) → o.cmp a a ≢ Ordering.lt
  cmp-lt_irrefl a h = ground (arith, o.cmp_refl a)

  -- A strict comparison after a weak one.
  pub cmp_trans_le :
      (a b c : A) → o.cmp a b ≢ Ordering.gt → o.cmp b c ≡ Ordering.lt → o.cmp a c ≡ Ordering.lt
  cmp_trans_le a b c h k = ground (arith, o.cmp_trans a b c, o.cmp_eq a b)
