-- ===== src/Remote/Pigeons.antt =====
-- A list of different numbers below a bound is no longer than the bound.
use mtpx.Base.{
  ℕ, zero, suc, ◌≤◌, ◌<◌, ◌≡◌, nat_eq, nat_eq_iff, Bool, true, false, Bool-cases, inl, inr, List,
  [], ◌∷◌, length, Elem, All, Distinct, if◌then◌else◌, refl, sym, subst, arith,
}

without : ℕ → List ℕ → List ℕ
without n [] = []
without n (x ∷ xs) = let rest = without n xs in if nat_eq x n then rest else x ∷ rest

Elem-without : (a n : ℕ) (xs : List ℕ) → Elem a (without n xs) → Elem a xs
unfolding without
Elem-without a n [] h = h
Elem-without a n (x ∷ xs) h = pick (nat_eq x n) (Elem-without a n xs) h
  where
    pick :
        (b : Bool)
        → (Elem a (without n xs) → Elem a xs)
        → Elem a (if b then without n xs else x ∷ without n xs)
        → Elem a (x ∷ xs)
    pick true more m = inr (more m)
    pick false more (inl e) = inl e
    pick false more (inr m) = inr (more m)

Distinct-without : (n : ℕ) (xs : List ℕ) → Distinct xs → Distinct (without n xs)
unfolding without
Distinct-without n [] h = tt
Distinct-without n (x ∷ xs) h = elim (Bool-cases (nat_eq x n)) [
  | inl same ↦ rw same (Distinct-without n xs h.1)
  | inr other ↦ rw other (λ m. h.0 (Elem-without x n xs m), Distinct-without n xs h.1)
]

below-without : (n : ℕ) (xs : List ℕ) → All (λ x. x < suc n) xs → All (λ x. x < n) (without n xs)
unfolding without
below-without n [] h = tt
below-without n (x ∷ xs) h = elim (Bool-cases (nat_eq x n)) [
  | inl same ↦ rw same (below-without n xs h.1)
  | inr other ↦ rw other (ground (arith, h.0, other), below-without n xs h.1)
]

length-without_absent : (n : ℕ) (xs : List ℕ) → (Elem n xs → ⊥) → length (without n xs) ≡ length xs
unfolding without
length-without_absent n [] h = refl
length-without_absent n (x ∷ xs) h = elim (Bool-cases (nat_eq x n)) [
  | inl same ↦ absurd (h (inl (sym ((nat_eq_iff x n).0 same))))
  | inr other ↦ rw other (omega (arith, length-without_absent n xs (λ m. h (inr m))))
]

length-without : (n : ℕ) (xs : List ℕ) → Distinct xs → length xs ≤ suc (length (without n xs))
unfolding without
length-without n [] h = omega arith
length-without n (x ∷ xs) h = elim (Bool-cases (nat_eq x n)) [
  | inl same ↦ rw same (
      omega (
        arith,
        length-without_absent n xs (subst (λ a. Elem a xs → ⊥) ((nat_eq_iff x n).0 same) h.0),
      ))
  | inr other ↦ rw other (omega (arith, length-without n xs h.1))
]

pub length-below : (n : ℕ) (xs : List ℕ) → Distinct xs → All (λ x. x < n) xs → length xs ≤ n
length-below n [] d h = omega arith
length-below zero (x ∷ xs) d h = absurd (omega (arith, h.0))
length-below (suc n) (x ∷ xs) d h = omega (
  arith,
  length-without n (x ∷ xs) d,
  length-below n (without n (x ∷ xs)) (Distinct-without n (x ∷ xs) d) (below-without n (x ∷ xs) h),
)
