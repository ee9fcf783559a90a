-- ===== src/Error.antt =====
-- The error type of the crate, from crates/mtpx-core/src/error.rs.
use mtpx.Base.{ℕ, Bool, false, Option, none, List}
use mtpx.Std.Text.{Str}
use mtpx.Mtp.{MtpError}
use mtpx.Mtp
use mtpx.Path.Segment.{PathError}
use mtpx.Path.RelPath.{RelPath}
use mtpx.Path.DevicePath.{DevicePath}
use mtpx.Discovery.{DeviceSummary, StorageSummary, ExclusiveHolder}

-- `io::ErrorKind`: the kinds that the sources name, and any other
pub data IoErrorKind : Type 0 where
  not_found is_a_directory invalid_data storage_full read_only_filesystem other_kind : IoErrorKind

pub record IoError : Type 0 where
  pub kind : IoErrorKind
  pub message : Str

pub data Error (Other : Type 0) : Type 0 where
  no_device : Error Other
  ambiguous_device : List DeviceSummary → Error Other
  device_not_found : Str → List DeviceSummary → Error Other
  storage_required : List StorageSummary → Error Other
  no_storage : Error Other
  storage_not_found : Str → List StorageSummary → Error Other
  exclusive_access : Option ExclusiveHolder → Error Other
  permission_denied : Error Other
  device_unresponsive : Error Other
  remote_path_not_found : DevicePath → Error Other
  remote_path_undescribed : DevicePath → ℕ → Error Other
  not_a_directory : DevicePath → Error Other
  local_not_a_directory : Str → Error Other
  invalid_path : PathError → Error Other
  conflicts : List RelPath → Error Other
  source_vanished : RelPath → Error Other
  length_mismatch : RelPath → ℕ → ℕ → Error Other
  disconnected : Error Other
  cancelled : Error Other
  unsupported : Str → Error Other
  mtp : MtpError Other → Error Other
  local_io : Str → Str → IoError → Error Other
  io : IoError → Error Other

-- `From<MtpError>` lifts the variants that callers react to.
unfoldable pub from_mtp : {Other : Type 0} → MtpError Other → Error Other
from_mtp Mtp.disconnected = disconnected
from_mtp Mtp.cancelled = cancelled
from_mtp Mtp.no_device = no_device
from_mtp Mtp.exclusive_access = exclusive_access none
from_mtp Mtp.permission_denied = permission_denied
from_mtp Mtp.device_reset = mtp Mtp.device_reset
from_mtp (Mtp.other e) = mtp (Mtp.other e)

-- `is_stale_handle`; the test on an MTP error is the library's.
unfoldable pub is_stale_handle : {Other : Type 0} → (MtpError Other → Bool) → Error Other → Bool
is_stale_handle stale (mtp e) = stale e
is_stale_handle stale no_device = false
is_stale_handle stale _ = false
