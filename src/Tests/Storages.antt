-- ===== src/Tests/Storages.antt =====
-- crates/mtpx-core/src/device/mod.rs on two storages and two devices.
use mtpx.Base.{ℕ, ◌≡◌, refl, inl, false, List, [], ◌∷◌, none, some, Result, ok, Elem}
use mtpx.Std.Text.{Str, codes, is_empty}
use mtpx.Discovery.{DeviceSummary}
use mtpx.Path.DevicePath
use mtpx.Error.{Error}
use mtpx.Device.{StorageInfo, select_storage, is_named, matches, unique_serial}
use mtpx.Device.Storages.{IsSelection, select_storage-IsSelection}
use mtpx.Device.Serial.{unique_serial-IsUnique}

abbrev internal : StorageInfo
internal = record {
  description = codes "Internal";
  volume_identifier = codes "vol0";
  free_space = 5;
  total_capacity = 9;
}

abbrev card : StorageInfo
card = record {
  description = codes "Card";
  volume_identifier = codes "vol1";
  free_space = 5;
  total_capacity = 9;
}

abbrev infos : List StorageInfo
infos = internal ∷ card ∷ []

abbrev by_volume : Result StorageInfo (Error ⊥)
by_volume = select_storage (λ s. s) infos (DevicePath.named (codes "vol1"))

card_selected : by_volume ≡ ok card
unfolding select_storage is_named
card_selected = refl

select_storage-IsSelection_example :
    IsSelection
      (λ s. s)
      {Other = ⊥}
      (DevicePath.named (codes "vol1"))
      infos
      (select_storage (λ s. s) infos (DevicePath.named (codes "vol1")))
select_storage-IsSelection_example =
    select_storage-IsSelection (λ s. s) ⊥ infos (DevicePath.named (codes "vol1"))

abbrev attached : Str → ℕ → DeviceSummary
attached serial location = record {
  serial = some serial;
  label = codes "phone";
  vendor_id = 1;
  product_id = 2;
  location_id = location;
  speed = none;
}

abbrev devices : List DeviceSummary
devices = attached (codes "A1") 1 ∷ attached (codes "B2") 2 ∷ []

-- Of two units with one serial, it picks none.
shared_serial :
    unique_serial (attached (codes "X") 1 ∷ attached (codes "X") 2 ∷ []) (attached (codes "X") 1)
    ≡ none
unfolding unique_serial matches
shared_serial = refl

unique_serial-IsUnique_example :
    ((attached (codes "A1") 1).serial ≡ some (codes "A1"))
    × (is_empty (codes "A1") ≡ false)
    × ((d : DeviceSummary)
        → Elem d devices
        → d.serial ≡ some (codes "A1")
        → d ≡ attached (codes "A1") 1)
unfolding unique_serial matches
unique_serial-IsUnique_example =
    unique_serial-IsUnique devices (attached (codes "A1") 1) (codes "A1") refl (inl refl)
