-- ===== src/Snapshot.antt =====
-- The sorted listing of one root, from crates/mtpx-core/src/entry.rs.
pub mod Sorted
pub mod Lookup
use mtpx.Base.{
  ℕ, zero, suc, ◌/◌, Bool, true, false, List, [], ◌∷◌, length, take, drop, Option, none, some,
  Ordering, if◌then◌else◌, ◌==◌, nat_ord, list_ord,
}
use mtpx.Std.Text.{Str}
use mtpx.Path.RelPath.{RelPath}
use mtpx.Path.Subtree.{cmp_path}
use mtpx.Entry.{Entry, EntryKind, file, dir, kind_eq}

pub record SkippedEntry : Type 0 where
  pub parent : RelPath
  pub reason : Str

pub record Snapshot : Type 0 where
  pub label : Str
  pub entries : List Entry
  pub skipped : List SkippedEntry

-- One step of the stable `sort_by`: in front of the first entry that is not smaller.
insert : Entry → List Entry → List Entry
insert x [] = x ∷ []
insert x (y ∷ ys) =
    let rest = insert x ys in
    elim (cmp_path y.path x.path) [ Ordering.lt ↦ y ∷ rest | _ ↦ x ∷ y ∷ ys ]

-- `slice::sort_by` on the path
sort : List Entry → List Entry
sort [] = []
sort (x ∷ xs) = insert x (sort xs)

-- `Vec::dedup_by` on the path, behind the entry that was kept last
dedup_after : Entry → List Entry → List Entry
dedup_after first [] = []
dedup_after first (later ∷ rest) =
    if later.path == first.path then dedup_after first rest else later ∷ dedup_after later rest

dedup : List Entry → List Entry
unfolding dedup_after
dedup [] = []
dedup (x ∷ xs) = x ∷ dedup_after x xs

unfoldable pub new : Str → List Entry → List SkippedEntry → Snapshot
unfolding insert sort dedup
new label entries skipped = record {
  label = label;
  entries = dedup (sort entries);
  skipped = skipped;
}

-- `slice::binary_search_by` on the path, over the part of the slice that is left.
binary_search : ℕ → List Entry → RelPath → Option Entry
binary_search zero entries path = none
binary_search (suc fuel) entries path =
    let middle = length entries / 2 in
    elim (drop middle entries) [
      | [] ↦ none
      | e ∷ right ↦ elim (cmp_path e.path path) [
        | Ordering.eq ↦ some e
        | Ordering.lt ↦ binary_search fuel right path
        | Ordering.gt ↦ binary_search fuel (take middle entries) path
      ]
    ]

unfoldable pub get : Snapshot → RelPath → Option Entry
unfolding binary_search
get s path = binary_search (length s.entries) s.entries path

filter_kind : EntryKind → List Entry → List Entry
filter_kind kind [] = []
filter_kind kind (e ∷ es) =
    let rest = filter_kind kind es in if kind_eq e.kind kind then e ∷ rest else rest

unfoldable pub files : Snapshot → List Entry
unfolding filter_kind
files s = filter_kind file s.entries

unfoldable pub dirs : Snapshot → List Entry
unfolding filter_kind
dirs s = filter_kind dir s.entries

abbrev pub len : Snapshot → ℕ
len s = length s.entries
