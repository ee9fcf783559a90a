-- ===== src/Path/Subtree.antt =====
-- Path order and prefixes, for crates/mtpx-core/src/path.rs: in path order a directory is followed
-- at once by everything beneath it.
use mtpx.Base.{
  ◌≡◌, ◌≢◌, refl, true, false, [], ◌∷◌, Ordering, arith, nat_ord, list_ord, lex, lex_refl, lex_eq,
  lex-swap, lex_trans,
}
use mtpx.Path.RelPath.{RelPath, starts_with}

abbrev pub cmp_path : RelPath → RelPath → Ordering
cmp_path = lex

pub starts_with_refl : (p : RelPath) → starts_with p p ≡ true
unfolding starts_with
starts_with_refl [] = refl
starts_with_refl (s ∷ ss) = ground (arith, lex_refl s, starts_with_refl ss)

pub starts_with_trans :
    (a b c : RelPath) → starts_with a b ≡ true → starts_with b c ≡ true → starts_with a c ≡ true
unfolding starts_with
starts_with_trans a b [] h k = refl
starts_with_trans a [] (z ∷ zs) h k = cc
starts_with_trans [] (y ∷ ys) (z ∷ zs) h k = cc
starts_with_trans (x ∷ xs) (y ∷ ys) (z ∷ zs) h k =
    ground (arith, starts_with_trans xs ys zs, lex_eq x y)

-- An ancestor comes first.
pub starts_with-cmp : (a p : RelPath) → starts_with a p ≡ true → cmp_path p a ≢ Ordering.gt
unfolding starts_with
starts_with-cmp [] [] h = λ e. cc
starts_with-cmp (x ∷ xs) [] h = λ e. cc
starts_with-cmp [] (q ∷ qs) h = λ e. cc
starts_with-cmp (x ∷ xs) (q ∷ qs) h = ground (arith, lex_eq x q, lex_refl q, starts_with-cmp xs qs)

-- Once the order has left a subtree it does not come back.
pub starts_with_gone :
    (p a b : RelPath)
    → cmp_path p a ≡ Ordering.lt
    → starts_with a p ≡ false
    → cmp_path a b ≡ Ordering.lt
    → starts_with b p ≡ false
unfolding starts_with
starts_with_gone [] a b h k l = cc
starts_with_gone (q ∷ qs) [] b h k l = cc
starts_with_gone (q ∷ qs) (x ∷ xs) [] h k l = refl
starts_with_gone (q ∷ qs) (x ∷ xs) (y ∷ ys) h k l = ground (
  arith,
  starts_with_gone qs xs ys,
  lex_eq x y,
  lex_eq q x,
  lex_eq y q,
  lex-swap x y,
  lex_refl q,
  lex_trans q x y,
)
