-- ===== src/Planner/Index.antt =====
-- What the destination's index finds, for crates/mtpx-core/src/planner.rs.
use mtpx.Base.{
  ◌≡◌, ◌⊎◌, inl, inr, refl, ap, sym, ◌∙◌, true, false, Bool-cases, List, [], ◌∷◌, map, Option, none,
  some, Option-cases, if◌then◌else◌, ◌==◌, ==_iff, nat_ord, list_ord,
}
use mtpx.Std.Text.{Str}
use mtpx.Path.RelPath.{RelPath}
use mtpx.Entry.{Entry}
use mtpx.Snapshot
use mtpx.Snapshot.{SkippedEntry}
use mtpx.Snapshot.Lookup.{find, get-new}
use mtpx.Planner.{
  HashMap, NameFolding, exact, case_insensitive, lookup, or_insert, fold, index_entries, new_index,
  get,
}

-- The first of two that is there.
abbrev or_else : {A : Type 0} → Option A → Option A → Option A
or_else none o = o
or_else (some a) o = some a

or_else-none : {A : Type 0} (o : Option A) → or_else o none ≡ o
or_else-none none = refl
or_else-none (some a) = refl

-- The first entry whose path is this one in lower case.
abbrev first_folded : (Str → Str) → List Str → List Entry → Option Entry
first_folded lower key [] = none
first_folded lower key (e ∷ es) =
    if map lower e.path == key then some e else first_folded lower key es

lookup-cons :
    {V : Type 0} (k j : List Str) (v : V) (m : HashMap V)
    → lookup k ((j, v) ∷ m) ≡ (if j == k then some v else lookup k m)
unfolding lookup
lookup-cons k j v m = refl

or_insert-of_none :
    {V : Type 0} (j : List Str) (v : V) (m : HashMap V)
    → lookup j m ≡ none
    → or_insert j v m ≡ (j, v) ∷ m
unfolding or_insert
or_insert-of_none j v m h = rw (or_insert, h) refl

or_insert-of_some :
    {V : Type 0} (j : List Str) (v w : V) (m : HashMap V)
    → lookup j m ≡ some w
    → or_insert j v m ≡ m
unfolding or_insert
or_insert-of_some j v w m h = rw (or_insert, h) refl

lookup-or_insert :
    {V : Type 0} (k j : List Str) (v : V) (m : HashMap V)
    → lookup k (or_insert j v m) ≡ or_else (lookup k m) (if j == k then some v else none)
lookup-or_insert k j v m = elim (Option-cases (lookup j m)) [
  | inl fresh ↦
      ap (lookup k) (or_insert-of_none j v m fresh)
      ∙ lookup-cons k j v m
      ∙ elim (Bool-cases (j == k)) [
        | inl same ↦
            let at : j ≡ k = (==_iff j k).0 same in
            let none_there : lookup k m ≡ none = ap (λ x. lookup x m) (sym at) ∙ fresh in
            rw (same, none_there) refl
        | inr other ↦ rw other (sym (or_else-none (lookup k m)))
      ]
  | inr (w, taken) ↦ ap (lookup k) (or_insert-of_some j v w m taken) ∙ elim (Bool-cases (j == k)) [
    | inl same ↦
        let at : j ≡ k = (==_iff j k).0 same in
        let there : lookup k m ≡ some w = ap (λ x. lookup x m) (sym at) ∙ taken in rw there refl
    | inr other ↦ rw other (sym (or_else-none (lookup k m)))
  ]
]

lookup-index_entries :
    (lower : Str → Str) (key : List Str) (es : List Entry) (index : HashMap Entry)
    → lookup key (index_entries lower es index)
      ≡ or_else (lookup key index) (first_folded lower key es)
unfolding index_entries fold
lookup-index_entries lower key [] index = elim (Option-cases (lookup key index)) [
  | inl e ↦ rw e refl
  | inr (x, e) ↦ rw e refl
]
lookup-index_entries lower key (e ∷ es) index =
    lookup-index_entries lower key es (or_insert (map lower e.path) e index)
    ∙ ap (λ o. or_else o (first_folded lower key es))
        (lookup-or_insert key (map lower e.path) e index)
    ∙ merged (lookup key index) (Bool-cases (map lower e.path == key))
  where
    merged :
        (o : Option Entry)
        → (map lower e.path == key ≡ true) ⊎ (map lower e.path == key ≡ false)
        → or_else
            (or_else o (if map lower e.path == key then some e else none))
            (first_folded lower key es)
          ≡ or_else o (if map lower e.path == key then some e else first_folded lower key es)
    merged (some x) b = refl
    merged none (inl same) = rw same refl
    merged none (inr other) = rw other refl

-- What a path finds in a destination with these entries.
abbrev pub found_at :
    (Str → Str) → NameFolding → Str → List Entry → List SkippedEntry → RelPath → Option Entry
found_at lower exact label entries skipped path = find path entries
found_at lower case_insensitive label entries skipped path =
    first_folded lower (map lower path) (Snapshot.new label entries skipped).entries

-- In the index of a snapshot of the destination a path finds the first entry that was given for it; on a
-- destination that takes no account of case, the first entry of the snapshot, in its order, whose path is
-- the same in lower case, segment by segment.
pub get-new_index :
    (lower : Str → Str) (folding : NameFolding) (label : Str) (entries : List Entry)
    (skipped : List SkippedEntry) (path : RelPath)
    → get lower (new_index lower (Snapshot.new label entries skipped) folding) path
      ≡ found_at lower folding label entries skipped path
unfolding get new_index fold
get-new_index lower exact label entries skipped path = get-new label entries skipped path
get-new_index lower case_insensitive label entries skipped path =
    lookup-index_entries lower (map lower path) (Snapshot.new label entries skipped).entries []
