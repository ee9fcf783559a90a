-- ===== src/Device.antt =====
-- What an open device answers for itself, from crates/mtpx-core/src/device/mod.rs. `str::to_lowercase`
-- is the parameter `lower`.
pub mod Serial
pub mod Storages
use mtpx.Base.{
  ℕ, zero, suc, nat_eq, Bool, true, false, ◌||◌, not, List, [], ◌∷◌, Option, none, some, Result, ok,
  err, if◌then◌else◌, ◌==◌, nat_ord, list_ord,
}
use mtpx.Std.Text.{Str, is_empty}
use mtpx.Std.Numbers.{to_string}
use mtpx.Discovery.{DeviceSummary, StorageSummary}
use mtpx.Path.DevicePath.{StorageSelector}
use mtpx.Path.DevicePath
use mtpx.Error.{Error}
use mtpx.Error

-- What the `mtp-rs` crate says of a storage.
pub record StorageInfo : Type 0 where
  pub description : Str
  pub volume_identifier : Str
  pub free_space : ℕ
  pub total_capacity : ℕ

unfoldable pub storage_summary : ℕ → StorageInfo → StorageSummary
storage_summary index info = record {
  index = index;
  name = info.description;
  free = info.free_space;
  total = info.total_capacity;
}

-- `enumerate`, from an index on
abbrev pub storages_from : ℕ → List StorageInfo → List StorageSummary
storages_from index [] = []
storages_from index (info ∷ infos) = storage_summary index info ∷ storages_from (suc index) infos

unfoldable pub storages : List StorageInfo → List StorageSummary
storages infos = storages_from 0 infos

-- `slice::get`
abbrev pub nth : ℕ → List StorageInfo → Option StorageInfo
nth n [] = none
nth zero (info ∷ infos) = some info
nth (suc n) (info ∷ infos) = nth n infos

abbrev pub find : (StorageInfo → Bool) → List StorageInfo → Option StorageInfo
find p [] = none
find p (info ∷ infos) = let rest = find p infos in if p info then some info else rest

module _ {Other : Type 0} where
  unfoldable pub storage_not_found : List StorageInfo → Str → Error Other
  storage_not_found infos wanted = Error.storage_not_found wanted (storages infos)

  unfoldable pub only_storage : List StorageInfo → Result StorageInfo (Error Other)
  only_storage [] = err Error.no_storage
  only_storage (only ∷ []) = ok only
  only_storage infos = err (Error.storage_required (storages infos))

  abbrev pub found_or :
      List StorageInfo → Str → Option StorageInfo → Result StorageInfo (Error Other)
  found_or infos wanted none = err (storage_not_found infos wanted)
  found_or infos wanted (some info) = ok info

module _ (lower : Str → Str) where
  unfoldable pub is_named : Str → StorageInfo → Bool
  is_named name info =
      let wanted = lower name in
      lower info.description == wanted || lower info.volume_identifier == wanted

  unfoldable pub select_storage :
      {Other : Type 0} → List StorageInfo → StorageSelector → Result StorageInfo (Error Other)
  select_storage infos DevicePath.default = only_storage infos
  select_storage infos (DevicePath.index i) = found_or infos (to_string i) (nth i infos)
  select_storage infos (DevicePath.named name) = found_or infos name (find (is_named name) infos)

-- The serial that a sidecar is keyed by, from the MTP serial.
unfoldable pub identity_serial : Str → DeviceSummary → Str
identity_serial mtp summary =
    if not (is_empty mtp) then mtp else elim summary.serial [ none ↦ [] | some serial ↦ serial ]

abbrev pub has_serial : Str → DeviceSummary → Bool
has_serial wanted device = elim device.serial [ none ↦ false | some s ↦ s == wanted ]

unfoldable pub matches : Str → List DeviceSummary → ℕ
matches serial [] = 0
matches serial (d ∷ devices) =
    let rest = matches serial devices in if has_serial serial d then suc rest else rest

abbrev pub nonempty : Option Str → Option Str
nonempty none = none
nonempty (some serial) = if not (is_empty serial) then some serial else none

abbrev pub if_unique : List DeviceSummary → Option Str → Option Str
if_unique devices none = none
if_unique devices (some serial) = if nat_eq (matches serial devices) 1 then some serial else none

unfoldable pub unique_serial : List DeviceSummary → DeviceSummary → Option Str
unique_serial devices chosen = if_unique devices (nonempty chosen.serial)
