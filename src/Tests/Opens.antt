-- ===== src/Tests/Opens.antt =====
-- crates/mtpx-core/src/internal/mtp/open.rs on a small device.
use mtpx.Base.{ℕ, ◌≡◌, refl, ap, List, [], ◌∷◌, map, Option, none, some, Result, ok, err}
use mtpx.Std.Text.{Str, codes}
use mtpx.Error.{Error}
use mtpx.Path.RelPath.{split_last_segment}
use mtpx.Path.DevicePath.{DevicePath}
use mtpx.Path.DevicePath
use mtpx.Remote.Storage.{ObjectInfo, ListingItem, object}
use mtpx.Remote.Open.{Target, target_found, find_item, find_child, enter_all, locate_root}
use mtpx.Remote.Opened.{IsListed, unbroken, lead, locate_root-lead}
use mtpx.Tests.Walks.{device, objects_in, streamed}

abbrev at : List Str → DevicePath
at segments = record { storage = DevicePath.default; path = record { rel = segments } }

abbrev items_in : Option ℕ → List (ListingItem ⊥ ℕ)
items_in folder = map object (objects_in folder)

streamed-unbroken :
    (objects : List (ObjectInfo ℕ)) → streamed objects ≡ unbroken (map object objects)
streamed-unbroken [] = refl
streamed-unbroken (info ∷ objects) = ap (◌∷◌ (ok (object info))) (streamed-unbroken objects)

device-IsListed : IsListed device items_in
device-IsListed = record { streamed = λ folder w. ap ok (streamed-unbroken (objects_in folder)) }

abbrev photo : DevicePath
photo = at (codes "DCIM" ∷ codes "a.jpg" ∷ [])

abbrev folder_of : Result (Target device) (Error ⊥) → Option ℕ
folder_of (ok target) = target.folder
folder_of (err e) = none

photo_located : folder_of (locate_root device photo tt).0 ≡ some 1
unfolding locate_root split_last_segment enter_all find_child find_item target_found
photo_located = refl

locate_root-lead_example :
    (locate_root device photo tt).0 ≡ lead device items_in photo none photo.path.rel
locate_root-lead_example = locate_root-lead device items_in photo device-IsListed tt
