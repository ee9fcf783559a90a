-- ===== src/Remote/Open.antt =====
-- Locating the root of a device side, from crates/mtpx-core/src/internal/mtp/open.rs.
use mtpx.Base.{
  ℕ, suc, nat_eq, List, [], ◌∷◌, Option, none, some, Result, ok, err, if◌then◌else◌, ◌==◌, nat_ord,
  list_ord,
}
use mtpx.Std.Text.{Str}
use mtpx.Mtp.{MtpError}
use mtpx.Path.RelPath.{split_last_segment}
use mtpx.Path.DevicePath.{DevicePath}
use mtpx.Error.{Error, from_mtp}
use mtpx.Remote.Storage.{Storage, ListingItem, object, undescribed}
use mtpx.Remote.Listing.{Object}

module _ {Other : Type 0} (storage : Storage Other) where
  -- The folder to list under, and the file itself when the root is a file.
  pub record Target : Type 0 where
    pub folder : Option ℕ
    pub file : Option (Object storage)

  unfoldable pub target_found : Option ℕ → Object storage → Target
  target_found parent info =
      if info.is_folder
      then record { folder = some info.handle; file = none }
      else record { folder = parent; file = some info }

  abbrev pub Items : Type 0
  Items = List (Result (ListingItem Other storage.Date) (MtpError Other))

  unfoldable pub not_found : DevicePath → ℕ → Error Other
  not_found root skipped =
      if nat_eq skipped 0
      then Error.remote_path_not_found root
      else Error.remote_path_undescribed root skipped

  -- The loop of `find_child`, after `skipped` objects that were not described.
  unfoldable pub find_item : Str → DevicePath → ℕ → Items → Result (Object storage) (Error Other)
  find_item name root skipped [] = err (not_found root skipped)
  find_item name root skipped (err e ∷ items) = err (from_mtp e)
  find_item name root skipped (ok (object info) ∷ items) =
      let rest = find_item name root skipped items in
      if info.filename == name then ok info else rest
  find_item name root skipped (ok (undescribed e) ∷ items) = find_item name root (suc skipped) items

  abbrev pub find_in :
      Str → DevicePath → Result Items (MtpError Other) → Result (Object storage) (Error Other)
  find_in name root (err e) = err (from_mtp e)
  find_in name root (ok items) = find_item name root 0 items

  unfoldable pub find_child :
      Option ℕ
      → Str
      → DevicePath
      → storage.World
      → Result (Object storage) (Error Other) × storage.World
  find_child parent name root w =
      let (items, w') = storage.list_objects_stream parent w in (find_in name root items, w')

  -- The folder of a segment before the last.
  abbrev pub entered : DevicePath → Result (Object storage) (Error Other) → Result ℕ (Error Other)
  entered root (err e) = err e
  entered root (ok found) =
      if found.is_folder then ok found.handle else err (Error.not_a_directory root)

  unfoldable pub enter_all :
      DevicePath
      → List Str
      → Option ℕ
      → storage.World
      → Result (Option ℕ) (Error Other) × storage.World
  enter_all root [] folder w = (ok folder, w)
  enter_all root (segment ∷ segments) folder w =
      let (found, w') = find_child folder segment root w in
      elim (entered root found) [
        | err e ↦ (err e, w')
        | ok handle ↦ enter_all root segments (some handle) w'
      ]

  abbrev pub target_of :
      Option ℕ → Result (Object storage) (Error Other) → Result Target (Error Other)
  target_of folder (err e) = err e
  target_of folder (ok found) = ok (target_found folder found)

  abbrev pub locate_last :
      DevicePath
      → Option (List Str × Str)
      → storage.World
      → Result Target (Error Other) × storage.World
  locate_last root none w = (ok (record { folder = none; file = none }), w)
  locate_last root (some (folders, last)) w =
      let (folder, w1) = enter_all root folders none w in
      elim folder [
        | err e ↦ (err e, w1)
        | ok folder ↦
            let (found, w2) = find_child folder last root w1 in (target_of folder found, w2)
      ]

  unfoldable pub locate_root :
      DevicePath → storage.World → Result Target (Error Other) × storage.World
  locate_root root w = locate_last root (split_last_segment root.path.rel) w
