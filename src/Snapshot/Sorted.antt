-- ===== src/Snapshot/Sorted.antt =====
-- `Snapshot::new` leaves every path once, in order, for crates/mtpx-core/src/entry.rs.
use mtpx.Base.{
  ◌≡◌, ◌≢◌, refl, List, [], ◌∷◌, Ordering, arith, All, All-map, lex_refl, lex_eq, lex-swap,
  lex_trans, nat_ord, list_ord, ◌==◌, Bool-cases, inl, inr,
}
use mtpx.Std.Text.{Str}
use mtpx.Path.RelPath.{RelPath}
use mtpx.Path.Subtree.{cmp_path}
use mtpx.Entry.{Entry}
use mtpx.Snapshot.{SkippedEntry, insert, sort, dedup_after, dedup, new}

-- Every entry comes strictly before those behind it.
abbrev pub IsSorted : List Entry → Type 0
IsSorted [] = Unit
IsSorted (x ∷ xs) = All (λ y. cmp_path x.path y.path ≡ Ordering.lt) xs × IsSorted xs

-- No entry comes after one behind it.
abbrev IsWeaklySorted : List Entry → Type 0
IsWeaklySorted [] = Unit
IsWeaklySorted (x ∷ xs) = All (λ y. cmp_path x.path y.path ≢ Ordering.gt) xs × IsWeaklySorted xs

insert-All : (P : Entry → Type 0) (x : Entry) (l : List Entry) → P x → All P l → All P (insert x l)
unfolding insert
insert-All P x [] p h = (p, tt)
insert-All P x (y ∷ ys) p h =
    elim (cmp_path y.path x.path)
      as (λ o.
        All P (elim o as (λ _. List Entry) [ Ordering.lt ↦ y ∷ insert x ys | _ ↦ x ∷ y ∷ ys ])) [
          | Ordering.lt ↦ (h.0, insert-All P x ys p h.1)
          | Ordering.eq ↦ (p, h)
          | Ordering.gt ↦ (p, h)
        ]

le_trans_path :
    (a b c : RelPath)
    → cmp_path a b ≢ Ordering.gt
    → cmp_path b c ≢ Ordering.gt
    → cmp_path a c ≢ Ordering.gt
le_trans_path a b c h k = λ e. ground (arith, lex_trans a b c, lex_eq a b, lex_eq b c, lex_refl a)

le_all :
    (a b : RelPath) (l : List Entry)
    → cmp_path a b ≢ Ordering.gt
    → All (λ y. cmp_path b y.path ≢ Ordering.gt) l
    → All (λ y. cmp_path a y.path ≢ Ordering.gt) l
le_all a b l h = All-map _ _ (λ y k. le_trans_path a b y.path h k) l

insert-IsWeaklySorted :
    (x : Entry) (l : List Entry) → IsWeaklySorted l → IsWeaklySorted (insert x l)
unfolding insert
insert-IsWeaklySorted x [] h = (tt, tt)
insert-IsWeaklySorted x (y ∷ ys) h =
    (elim (cmp_path y.path x.path)
        as (λ o.
          cmp_path y.path x.path ≡ o
          → IsWeaklySorted
              (elim o as (λ _. List Entry) [ Ordering.lt ↦ y ∷ insert x ys | _ ↦ x ∷ y ∷ ys ])) [
                | Ordering.lt ↦
                    λ e. (insert-All _ x ys (λ k. cc) h.0, insert-IsWeaklySorted x ys h.1)
                | Ordering.eq ↦ λ e. in_front (ground (arith, lex-swap y.path x.path))
                | Ordering.gt ↦ λ e. in_front (ground (arith, lex-swap y.path x.path))
              ])
      refl
  where
    in_front : cmp_path x.path y.path ≢ Ordering.gt → IsWeaklySorted (x ∷ y ∷ ys)
    in_front k = ((k, le_all x.path y.path ys k h.0), h)

sort-IsWeaklySorted : (l : List Entry) → IsWeaklySorted (sort l)
unfolding sort
sort-IsWeaklySorted [] = tt
sort-IsWeaklySorted (x ∷ xs) = insert-IsWeaklySorted x (sort xs) (sort-IsWeaklySorted xs)

lt_all :
    (a b : RelPath) (l : List Entry)
    → cmp_path a b ≡ Ordering.lt
    → All (λ y. cmp_path b y.path ≡ Ordering.lt) l
    → All (λ y. cmp_path a y.path ≡ Ordering.lt) l
lt_all a b l h = All-map _ _ (λ y k. lex_trans a b y.path h k) l

dedup_after-IsSorted :
    (first : Entry) (l : List Entry)
    → All (λ y. cmp_path first.path y.path ≢ Ordering.gt) l
    → IsWeaklySorted l
    → IsSorted (first ∷ dedup_after first l)
unfolding dedup_after
dedup_after-IsSorted first [] h k = (tt, tt)
dedup_after-IsSorted first (later ∷ rest) h k = elim (Bool-cases (later.path == first.path)) [
  | inl same ↦ rw same (dedup_after-IsSorted first rest h.1 k.1)
  | inr differ ↦
      let tail = dedup_after-IsSorted later rest k.0 k.1 in
      let less : cmp_path first.path later.path ≡ Ordering.lt =
        ground (arith, lex-swap first.path later.path) in
      rw differ ((less, lt_all first.path later.path _ less tail.0), tail)
]

dedup-IsSorted : (l : List Entry) → IsWeaklySorted l → IsSorted (dedup l)
unfolding dedup
dedup-IsSorted [] h = tt
dedup-IsSorted (x ∷ xs) h = dedup_after-IsSorted x xs h.0 h.1

-- The entries of a new snapshot are in strict path order, so no path occurs twice.
pub new-IsSorted :
    (label : Str) (entries : List Entry) (skipped : List SkippedEntry)
    → IsSorted (new label entries skipped).entries
unfolding new
new-IsSorted label entries skipped = dedup-IsSorted (sort entries) (sort-IsWeaklySorted entries)
