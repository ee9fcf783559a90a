-- ===== src/Remote/Named.antt =====
-- What the listing of a folder names, for crates/mtpx-core/src/internal/mtp/scan.rs.
use mtpx.Base.{
  ◌+◌, ◌≡◌, ◌⊎◌, inl, inr, refl, ap, sym, subst, ◌∙◌, Bool, true, false, List, [], ◌∷◌, ◌++◌,
  length, map, Result, ok, err, ◌==◌, ==_iff, nat_ord, list_ord, Elem, All, All-map, Distinct,
  All-not-Elem-map, Bool-cases, then-eq_ok, arith, if◌then◌else◌,
}
use mtpx.Std.Text.{Str}
use mtpx.Path.RelPath.{RelPath, join}
use mtpx.Path.Segment.{PathError, validate_segment, IsValid}
use mtpx.Partial.{is_reserved_name}
use mtpx.Remote.Storage.{ObjectInfo, Storage}
use mtpx.Remote.Listing.{
  Object, Listing, has_name, repeated_from, repeated_names, reserved_name, child_path,
  unless_repeat, with_child, classify_zip, classify,
}

-- A name that an object may have beneath a folder.
abbrev pub IsAdmitted : Str → Type 0
IsAdmitted name = IsValid name × (is_reserved_name name ≡ false)

-- The path is the folder's, with one more segment that is admitted.
abbrev pub IsNamed : RelPath → Str → RelPath → Type 0
IsNamed parent name path = (path ≡ parent ++ (name ∷ [])) × IsAdmitted name

-- The first of the objects that has its name.
abbrev pub IsFirst : {Date : Type 0} → ObjectInfo Date → List (ObjectInfo Date) → Type 0
IsFirst info [] = ⊥
IsFirst info (x ∷ objects) = (info ≡ x) ⊎ ((x.filename ≡ info.filename → ⊥) × IsFirst info objects)

has_name-skip :
    (name x : Str) (seen : List Str) → has_name name (x ∷ seen) ≡ false → has_name name seen ≡ false
has_name-skip name x seen h = ground arith

has_name-ne : (name x : Str) (seen : List Str) → has_name name (x ∷ seen) ≡ false → x ≡ name → ⊥
has_name-ne name x seen h e =
    let same : (x == name) ≡ true = (==_iff x name).1 e in absurd (ground (arith, same))

has_name-fresh :
    (name x : Str) (seen : List Str)
    → (x ≡ name → ⊥)
    → has_name name seen ≡ false
    → has_name name (x ∷ seen) ≡ false
has_name-fresh name x seen ne h = elim (Bool-cases (x == name)) [
  | inl same ↦ absurd (ne ((==_iff x name).0 same))
  | inr other ↦ rw other h
]

module _ {Other : Type 0} (storage : Storage Other) (parent : RelPath) where
  unless_repeat-ok :
      (is_repeat : Bool) (r : Result RelPath PathError) (path : RelPath)
      → unless_repeat storage is_repeat r ≡ ok path
      → (is_repeat ≡ false) × (r ≡ ok path)
  unless_repeat-ok is_repeat (err e) path h = absurd (cc h)
  unless_repeat-ok true (ok p) path h = absurd (cc h)
  unless_repeat-ok false (ok p) path h = (refl, ap ok (cc h))

  child_path-IsNamed :
      (info : Object storage) (is_repeat : Bool) (path : RelPath)
      → child_path storage parent info is_repeat ≡ ok path
      → (is_repeat ≡ false) × IsNamed parent info.filename path
  unfolding child_path join
  child_path-IsNamed info is_repeat path h = checked (is_reserved_name info.filename) refl h
    where
      checked :
          (reserved : Bool)
          → is_reserved_name info.filename ≡ reserved
          → (if reserved
              then err reserved_name
              else unless_repeat storage is_repeat (join parent info.filename))
            ≡ ok path
          → (is_repeat ≡ false) × IsNamed parent info.filename path
      checked true e h = absurd (cc h)
      checked false e h =
          let (once, joined) = unless_repeat-ok is_repeat (join parent info.filename) path h in
          let (valid, same) =
            then-eq_ok (validate_segment info.filename) (ok (parent ++ (info.filename ∷ [])))
              joined in
          (once, (cc same, (valid, e)))

  child_path-of_admitted :
      (info : Object storage)
      → IsAdmitted info.filename
      → child_path storage parent info false ≡ ok (parent ++ (info.filename ∷ []))
  unfolding child_path join
  child_path-of_admitted info h = rw (h.1, h.0) refl

  -- A child, by the names that came before the objects.
  abbrev IsChild : List Str → List (Object storage) → RelPath × Object storage → Type 0
  IsChild seen objects (path, info) =
      IsNamed parent info.filename path
      × (has_name info.filename seen ≡ false)
      × IsFirst info objects

  abbrev pub name_of : RelPath × Object storage → Str
  name_of (path, info) = info.filename

  -- The children have names of their own, and every object is a child or counted as skipped; the first
  -- of a name is a child.
  record IsClassified (seen : List Str) (objects : List (Object storage))
      (listing : Listing storage) : Type 0 where
    named : All (IsChild seen objects) listing.children
    distinct : Distinct (map name_of listing.children)
    counted : length listing.children + length listing.skipped ≡ length objects
    complete :
        (info : Object storage)
        → IsAdmitted info.filename
        → has_name info.filename seen ≡ false
        → IsFirst info objects
        → Elem (parent ++ (info.filename ∷ []), info) listing.children

  IsChild-later :
      (seen : List Str) (info : Object storage) (objects : List (Object storage))
      (c : RelPath × Object storage)
      → IsChild (info.filename ∷ seen) objects c
      → IsChild seen (info ∷ objects) c
  IsChild-later seen info objects (path, x) (named, fresh, first) = (
    named,
    has_name-skip x.filename info.filename seen fresh,
    inr (has_name-ne x.filename info.filename seen fresh, first),
  )

  with_child-IsClassified :
      (seen : List Str) (info : Object storage) (objects : List (Object storage))
      (rest : Listing storage) (r : Result RelPath Str)
      → child_path storage parent info (has_name info.filename seen) ≡ r
      → IsClassified (info.filename ∷ seen) objects rest
      → IsClassified seen (info ∷ objects) (with_child storage parent info r rest)
  with_child-IsClassified seen info objects rest (ok path) e k =
      let (fresh, named) = child_path-IsNamed info (has_name info.filename seen) path e in
      record {
        named = (
          (named, fresh, inl refl),
          All-map _ _ (IsChild-later seen info objects) rest.children k.named,
        );
        distinct = (
          All-not-Elem-map name_of info.filename rest.children (
              All-map _ _ (λ c h. has_name-ne (name_of c) info.filename seen h.1) rest.children
                k.named),
          k.distinct,
        );
        counted = omega (arith, k.counted);
        complete = λ x admitted free first. elim first [
          | inl same ↦
              inl (
                ap (λ y. (parent ++ (y.filename ∷ []), y)) same ∙ ap (λ p. (p, info)) (sym named.0))
          | inr (ne, later) ↦
              inr
                (k.complete x admitted (has_name-fresh x.filename info.filename seen ne free) later)
        ];
      }
  with_child-IsClassified seen info objects rest (err reason) e k = record {
    named = All-map _ _ (IsChild-later seen info objects) rest.children k.named;
    distinct = k.distinct;
    counted = omega (arith, k.counted);
    complete = λ x admitted free first. elim first [
      | inl same ↦ absurd (refuted x same admitted free)
      | inr (ne, later) ↦
          k.complete x admitted (has_name-fresh x.filename info.filename seen ne free) later
    ];
  }
    where
      refuted :
          (x : Object storage)
          → x ≡ info
          → IsAdmitted x.filename
          → has_name x.filename seen ≡ false
          → ⊥
      refuted x same admitted free =
          let admitted' : IsAdmitted info.filename =
            subst (λ y. IsAdmitted y.filename) same admitted in
          let free' : has_name info.filename seen ≡ false =
            subst (λ y. has_name y.filename seen ≡ false) same free in
          let found = child_path-of_admitted info admitted' in
          cc (found, e, ap (child_path storage parent info) free')

  classify_zip-IsClassified :
      (seen : List Str) (objects : List (Object storage))
      → IsClassified seen objects (classify_zip storage parent objects (repeated_from seen objects))
  unfolding classify_zip repeated_from
  classify_zip-IsClassified seen [] = record {
    named = tt;
    distinct = tt;
    counted = refl;
    complete = λ x admitted free first. first;
  }
  classify_zip-IsClassified seen (info ∷ objects) =
      with_child-IsClassified seen info objects _
        (child_path storage parent info (has_name info.filename seen)) refl
        (classify_zip-IsClassified (info.filename ∷ seen) objects)

  -- What the listing of a folder is, of which the device described the objects.
  pub record IsListing (objects : List (Object storage)) (listing : Listing storage) : Type 0 where
    pub named :
        All
          (λ (path, info). IsNamed parent info.filename path × IsFirst info objects)
          listing.children
    pub distinct : Distinct (map name_of listing.children)
    pub counted : length listing.children + length listing.skipped ≡ length objects
    pub complete :
        (info : Object storage)
        → IsAdmitted info.filename
        → IsFirst info objects
        → Elem (parent ++ (info.filename ∷ []), info) listing.children

  -- The children of a classified folder are the objects that are the first with their name, where
  -- the name is valid and not reserved: each of these is a child, beneath the folder and by its own
  -- name, no two children share a name, and every other object is counted as skipped.
  pub classify-IsListing :
      (objects : List (Object storage)) → IsListing objects (classify storage parent objects)
  unfolding classify repeated_names
  classify-IsListing objects =
      let k = classify_zip-IsClassified [] objects in
      record {
        named = All-map _ _ (λ c (named, fresh, first). (named, first)) _ k.named;
        distinct = k.distinct;
        counted = k.counted;
        complete = λ info admitted first. k.complete info admitted refl first;
      }
