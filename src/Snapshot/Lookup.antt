-- ===== src/Snapshot/Lookup.antt =====
-- The binary search of a snapshot finds what a walk through the listing finds, for
-- crates/mtpx-core/src/entry.rs.
use mtpx.Base.{
  ℕ, zero, suc, ◌/◌, ◌≡◌, ◌≤◌, ◌<◌, length-take, refl, List, [], ◌∷◌, ◌++◌, Ordering, arith, All,
  All-map, All-split, lex_refl, lex_eq, lex-swap, lex_trans, nat_ord, list_ord, if◌then◌else◌, ◌==◌,
  Option, none, some, length, take, drop, take-append-drop, length-append, ap, ◌∙◌,
}
use mtpx.Std.Text.{Str}
use mtpx.Path.RelPath.{RelPath}
use mtpx.Path.Subtree.{cmp_path}
use mtpx.Entry.{Entry}
use mtpx.Snapshot.{
  Snapshot, SkippedEntry, insert, sort, dedup_after, dedup, new, binary_search, get,
}
use mtpx.Snapshot.Sorted.{IsSorted, new-IsSorted}

-- The first entry of a listing that has the path.
unfoldable pub find : RelPath → List Entry → Option Entry
find path [] = none
find path (e ∷ es) = if e.path == path then some e else find path es

-- The first of two that is there.
abbrev first_some : Option Entry → Option Entry → Option Entry
first_some (some e) o = some e
first_some none o = o

find-append :
    (path : RelPath) (l r : List Entry)
    → find path (l ++ r) ≡ first_some (find path l) (find path r)
unfolding find
find-append path [] r = refl
find-append path (e ∷ es) r = ground (arith, find-append path es r)

find-none_before :
    (path : RelPath) (l : List Entry)
    → All (λ y. cmp_path y.path path ≡ Ordering.lt) l
    → find path l ≡ none
unfolding find
find-none_before path [] h = refl
find-none_before path (e ∷ es) h = ground (arith, find-none_before path es h.1)

find-none_behind :
    (path : RelPath) (l : List Entry)
    → All (λ y. cmp_path path y.path ≡ Ordering.lt) l
    → find path l ≡ none
unfolding find
find-none_behind path [] h = refl
find-none_behind path (e ∷ es) h =
    ground (arith, find-none_behind path es h.1, lex-swap path e.path)

find-insert :
    (path : RelPath) (x : Entry) (l : List Entry)
    → find path (insert x l) ≡ (if x.path == path then some x else find path l)
unfolding find insert
find-insert path x [] = refl
find-insert path x (y ∷ ys) =
    ground (arith, find-insert path x ys, lex_eq x.path path, lex_eq y.path path, lex_refl path)

find-sort : (path : RelPath) (l : List Entry) → find path (sort l) ≡ find path l
unfolding find sort
find-sort path [] = refl
find-sort path (x ∷ xs) = ground (arith, find-insert path x (sort xs), find-sort path xs)

find-dedup_after :
    (path : RelPath) (first : Entry) (l : List Entry)
    → find path (first ∷ dedup_after first l) ≡ find path (first ∷ l)
unfolding find dedup_after
find-dedup_after path first [] = refl
find-dedup_after path first (later ∷ rest) = ground (
  arith,
  find-dedup_after path first rest,
  find-dedup_after path later rest,
  lex_eq later.path first.path,
)

find-dedup : (path : RelPath) (l : List Entry) → find path (dedup l) ≡ find path l
unfolding dedup
find-dedup path [] = refl
find-dedup path (x ∷ xs) = find-dedup_after path x xs

-- A sorted listing around one of its entries.
IsSorted-around :
    (l : List Entry) (e : Entry) (r : List Entry)
    → IsSorted (l ++ (e ∷ r))
    → IsSorted l
      × All (λ y. cmp_path y.path e.path ≡ Ordering.lt) l
      × All (λ y. cmp_path e.path y.path ≡ Ordering.lt) r
      × IsSorted r
IsSorted-around [] e r h = (tt, tt, h.0, h.1)
IsSorted-around (x ∷ xs) e r h =
    let (sl, before, behind, sr) = IsSorted-around xs e r h.1 in
    let (hl, hr) = All-split _ xs (e ∷ r) h.0 in ((hl, sl), (hr.0, before), behind, sr)

find-around_eq :
    (path : RelPath) (l : List Entry) (e : Entry) (r : List Entry)
    → IsSorted (l ++ (e ∷ r))
    → cmp_path e.path path ≡ Ordering.eq
    → find path (l ++ (e ∷ r)) ≡ some e
unfolding find
find-around_eq path l e r h k =
    let (sl, before, behind, sr) = IsSorted-around l e r h in
    let same : e.path ≡ path = lex_eq e.path path k in
    let none_before = find-none_before path l (rw same at before) in
    ground (arith, find-append path l (e ∷ r))

find-around_lt :
    (path : RelPath) (l : List Entry) (e : Entry) (r : List Entry)
    → IsSorted (l ++ (e ∷ r))
    → cmp_path e.path path ≡ Ordering.lt
    → find path (l ++ (e ∷ r)) ≡ find path r
unfolding find
find-around_lt path l e r h k =
    let (sl, before, behind, sr) = IsSorted-around l e r h in
    let none_before =
      find-none_before path l (All-map _ _ (λ y j. lex_trans y.path e.path path j k) l before) in
    ground (arith, find-append path l (e ∷ r))

find-around_gt :
    (path : RelPath) (l : List Entry) (e : Entry) (r : List Entry)
    → IsSorted (l ++ (e ∷ r))
    → cmp_path e.path path ≡ Ordering.gt
    → find path (l ++ (e ∷ r)) ≡ find path l
unfolding find
find-around_gt path l e r h k =
    let (sl, before, behind, sr) = IsSorted-around l e r h in
    let less : cmp_path path e.path ≡ Ordering.lt = ground (arith, lex-swap e.path path) in
    let none_behind =
      find-none_behind path r (All-map _ _ (λ y j. lex_trans path e.path y.path less j) r behind) in
    ground (arith, find-append path l (e ∷ r))

-- One probe at the head of the right part; `search` is the rest of the search.
probe :
    (search : List Entry → Option Entry) (path : RelPath) (left right : List Entry)
    → IsSorted (left ++ right)
    → length left ≡ length (left ++ right) / 2
    → ((part : List Entry)
        → IsSorted part
        → length part < length (left ++ right)
        → search part ≡ find path part)
    → (elim right [
      | [] ↦ none
      | e ∷ rest ↦ elim (cmp_path e.path path) [
        | Ordering.eq ↦ some e
        | Ordering.lt ↦ search rest
        | Ordering.gt ↦ search left
      ]
    ])
      ≡ find path (left ++ right)
unfolding find
probe search path [] [] h k ih = refl
probe search path (x ∷ xs) [] h k ih = absurd (omega (arith, length-append xs []))
probe search path left (e ∷ rest) h k ih =
    let (sl, before, behind, sr) = IsSorted-around left e rest h in
    ground (
      arith,
      find-around_eq path left e rest h,
      find-around_lt path left e rest h,
      find-around_gt path left e rest h,
      ih left sl (omega (arith, length-append left (e ∷ rest))),
      ih rest sr (omega (arith, length-append left (e ∷ rest))),
    )

binary_search-eq_find :
    (fuel : ℕ) (l : List Entry) (path : RelPath)
    → IsSorted l
    → length l ≤ fuel
    → binary_search fuel l path ≡ find path l
unfolding binary_search
binary_search-eq_find zero [] path h k = unfold find in refl
binary_search-eq_find zero (x ∷ xs) path h k = absurd (omega arith)
binary_search-eq_find (suc fuel) l path h k =
    let m = length l / 2 in
    let whole = take-append-drop m l in
    probe (λ part. binary_search fuel part path) path (take m l) (drop m l) (rw whole h)
      (rw whole (length-take m l (omega arith)))
      (λ part s less. binary_search-eq_find fuel part path s (shorter part (rw whole at less)))
    ∙ ap (find path) whole
  where
    shorter : (part : List Entry) → length part < length l → length part ≤ fuel
    shorter part less = omega arith

-- In a sorted snapshot the binary search finds what the walk finds.
pub get-eq_find :
    (s : Snapshot) (path : RelPath) → IsSorted s.entries → get s path ≡ find path s.entries
unfolding get
get-eq_find s path h = binary_search-eq_find _ s.entries path h (omega arith)

-- A lookup in a new snapshot finds the first entry that was given for its path.
pub get-new :
    (label : Str) (entries : List Entry) (skipped : List SkippedEntry) (path : RelPath)
    → get (new label entries skipped) path ≡ find path entries
get-new label entries skipped path =
    get-eq_find (new label entries skipped) path (new-IsSorted label entries skipped)
    ∙ unfold new in (find-dedup path (sort entries) ∙ find-sort path entries)
