-- ===== src/Remote/Pick.antt =====
-- A walk of a single file, from crates/mtpx-core/src/internal/mtp/scan.rs.
use mtpx.Base.{
  ℕ, Bool, not, ◌&&◌, List, [], ◌∷◌, Option, none, some, Result, ok, err, if◌then◌else◌, ◌==◌,
  nat_ord, list_ord,
}
use mtpx.Std.Text.{Str}
use mtpx.Mtp.{MtpError}
use mtpx.Path.RelPath.{RelPath, root}
use mtpx.Path.RelPath
use mtpx.Path.Segment.{PathError}
use mtpx.Error.{Error, from_mtp}
use mtpx.Remote.Storage.{Storage}
use mtpx.Remote.Listing.{Object, Listing, list_folder}
use mtpx.Remote.Walk.{Walked, entry_from, ensure_live}

module _ {Other : Type 0} (storage : Storage Other) where
  -- The object is a file of the name.
  abbrev pub is_file_named : Str → Object storage → Bool
  is_file_named name info = info.filename == name && not info.is_folder

  abbrev pub revalidated :
      Object storage
      → Result (Object storage) (MtpError Other)
      → Result (Option (Object storage)) (Error Other)
  revalidated known (ok fresh) =
      ok (if is_file_named known.filename fresh then some fresh else none)
  revalidated known (err e) = if storage.is_stale_handle e then ok none else err (from_mtp e)

  unfoldable pub revalidate :
      Object storage
      → storage.World
      → Result (Option (Object storage)) (Error Other) × storage.World
  revalidate known w =
      let (fresh, w') = storage.get_object_info known.handle w in (revalidated known fresh, w')

  unfoldable pub find_named : Str → List (RelPath × Object storage) → Option (Object storage)
  find_named name [] = none
  find_named name ((path, info) ∷ children) =
      let rest = find_named name children in if is_file_named name info then some info else rest

  -- The path of one segment, for `?`.
  abbrev pub named :
      {A : Type 0}
      → (RelPath → Result A (Error Other))
      → Result RelPath PathError
      → Result A (Error Other)
  named f (ok path) = f path
  named f (err e) = err (Error.invalid_path e)

  abbrev pub or_vanished : Str → Option (Object storage) → Result (Object storage) (Error Other)
  or_vanished name (some info) = ok info
  or_vanished name none = named (λ path. err (Error.source_vanished path)) (RelPath.new (name ∷ []))

  abbrev pub found_in :
      Str → Result (Listing storage) (Error Other) → Result (Object storage) (Error Other)
  found_in name (err e) = err e
  found_in name (ok listing) = or_vanished name (find_named name listing.children)

  unfoldable pub find_file :
      Option ℕ → Str → storage.World → Result (Object storage) (Error Other) × storage.World
  find_file parent name w =
      let (listing, w') = list_folder storage parent root w in (found_in name listing, w')

  abbrev pub walked_one : Object storage → RelPath → Walked
  walked_one info path = record {
    entries = entry_from storage path info ∷ [];
    handles = (path, info.handle) ∷ [];
    skipped = [];
  }

  abbrev pub picked :
      Object storage
      → Result (Object storage) (Error Other)
      → storage.World
      → Result Walked (Error Other) × storage.World
  picked known (err e) w = (err e, w)
  picked known (ok info) w = (
    named (λ path. ok (walked_one info path)) (RelPath.new (known.filename ∷ [])),
    storage.on_found 1 w,
  )

  abbrev pub or_listed :
      Option ℕ
      → Object storage
      → Result (Option (Object storage)) (Error Other)
      → storage.World
      → Result (Object storage) (Error Other) × storage.World
  or_listed parent known (err e) w = (err e, w)
  or_listed parent known (ok (some fresh)) w = (ok fresh, w)
  or_listed parent known (ok none) w = find_file parent known.filename w

  abbrev pub pick_live :
      Option ℕ
      → Object storage
      → Result (Unit {0}) (Error Other)
      → storage.World
      → Result Walked (Error Other) × storage.World
  pick_live parent known (err e) w = (err e, w)
  pick_live parent known (ok _) w =
      let (fresh, w1) = revalidate known w in
      let (info, w2) = or_listed parent known fresh w1 in picked known info w2

  unfoldable pub pick_file :
      Option ℕ → Object storage → storage.World → Result Walked (Error Other) × storage.World
  pick_file parent known w =
      let (live, w') = ensure_live storage w in pick_live parent known live w'
