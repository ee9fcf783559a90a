-- ===== src/Remote/Listing.antt =====
-- Listing one folder, from crates/mtpx-core/src/internal/mtp/scan.rs.
use mtpx.Base.{
  ℕ, Bool, any, map, List, [], ◌∷◌, ◌++◌, Option, Result, ok, err, if◌then◌else◌, ◌==◌, nat_ord,
  list_ord,
}
use mtpx.Std.Text.{Str, codes}
use mtpx.Path.RelPath.{RelPath, join}
use mtpx.Path.Segment.{PathError}
use mtpx.Mtp.{MtpError}
use mtpx.Snapshot.{SkippedEntry}
use mtpx.Partial.{is_reserved_name}
use mtpx.Error.{Error, from_mtp}
use mtpx.Remote.Storage.{ObjectInfo, Collection, Storage}

abbrev pub duplicate_name : Str
duplicate_name = codes "duplicate name in folder"

abbrev pub reserved_name : Str
reserved_name = codes "name ends with a suffix mtpx reserves for transfers in progress"

abbrev pub listed_twice : Str
listed_twice = codes "folder listed twice"

-- Whether a hash set has the name.
abbrev pub has_name : Str → List Str → Bool
has_name name seen = any (λ s. s == name) seen

module _ {Date : Type 0} where
  unfoldable pub repeated_from : List Str → List (ObjectInfo Date) → List Bool
  repeated_from seen [] = []
  repeated_from seen (info ∷ objects) =
      has_name info.filename seen ∷ repeated_from (info.filename ∷ seen) objects

  unfoldable pub repeated_names : List (ObjectInfo Date) → List Bool
  unfolding repeated_from
  repeated_names objects = repeated_from [] objects

module _ {Other : Type 0} (storage : Storage Other) where
  abbrev pub Object : Type 0
  Object = ObjectInfo storage.Date

  pub record Listing : Type 0 where
    pub children : List (RelPath × Object)
    pub skipped : List SkippedEntry

  abbrev pub unless_repeat : Bool → Result RelPath PathError → Result RelPath Str
  unless_repeat is_repeat (err reason) = err (storage.path_error_text reason)
  unless_repeat is_repeat (ok path) = if is_repeat then err duplicate_name else ok path

  unfoldable pub child_path : RelPath → Object → Bool → Result RelPath Str
  child_path parent info is_repeat =
      if is_reserved_name info.filename
      then err reserved_name
      else unless_repeat is_repeat (join parent info.filename)

  abbrev pub with_child : RelPath → Object → Result RelPath Str → Listing → Listing
  with_child parent info (ok path) l = record l { children = (path, info) ∷ l.children }
  with_child parent info (err reason) l = record l {
    skipped = (record { parent = parent; reason = reason }) ∷ l.skipped;
  }

  -- The loop of `classify` over the objects, zipped with whether each repeats a name.
  unfoldable pub classify_zip : RelPath → List Object → List Bool → Listing
  classify_zip parent (info ∷ objects) (is_repeat ∷ repeated) =
      with_child parent info (child_path parent info is_repeat)
        (classify_zip parent objects repeated)
  classify_zip parent _ _ = record { children = []; skipped = [] }

  unfoldable pub classify : RelPath → List Object → Listing
  classify parent objects = classify_zip parent objects (repeated_names objects)

  abbrev pub refused_entry : RelPath → MtpError Other → SkippedEntry
  refused_entry parent e = record { parent = parent; reason = storage.error_text e }

  abbrev pub listed :
      RelPath
      → Result (Collection Other storage.Date) (MtpError Other)
      → Result Listing (Error Other)
  listed parent (err e) = err (from_mtp e)
  listed parent (ok collection) =
      let listing = classify parent collection.objects in
      ok (record listing {
        skipped = listing.skipped ++ map (refused_entry parent) collection.refused;
      })

  unfoldable pub list_folder :
      Option ℕ → RelPath → storage.World → Result Listing (Error Other) × storage.World
  list_folder parent parent_path w =
      let (collection, w') = storage.collect_objects parent w in (listed parent_path collection, w')
