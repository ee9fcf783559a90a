-- ===== src/Exit.antt =====
-- Exit codes, from crates/mtpx/src/exit.rs and the end of crates/mtpx/src/main.rs.
pub mod Success
use mtpx.Base.{ℕ, List, [], ◌∷◌, Result, ok, err, if◌then◌else◌}
use mtpx.Plan.{Plan}
use mtpx.Event.{Report}
use mtpx.Error.{Error}
use mtpx.Error

abbrev pub success : ℕ
success = 0

abbrev pub generic : ℕ
generic = 1

abbrev pub usage : ℕ
usage = 2

abbrev pub no_device : ℕ
no_device = 3

abbrev pub access_denied : ℕ
access_denied = 4

abbrev pub not_found : ℕ
not_found = 5

abbrev pub transfer_failed : ℕ
transfer_failed = 6

abbrev pub conflicts : ℕ
conflicts = 7

abbrev pub interrupted : ℕ
interrupted = 130

-- What a command produced when it did not fail.
pub data Outcome : Type 0 where
  done : Outcome
  dry_run : Plan → Outcome
  transferred : Report → Outcome

unfoldable pub code_for_error : {Other : Type 0} → Error Other → ℕ
code_for_error Error.no_device = no_device
code_for_error (Error.device_not_found selector available) = no_device
code_for_error (Error.ambiguous_device devices) = no_device
code_for_error Error.device_unresponsive = no_device
code_for_error Error.disconnected = no_device
code_for_error Error.no_storage = no_device
code_for_error (Error.exclusive_access holder) = access_denied
code_for_error Error.permission_denied = access_denied
code_for_error (Error.remote_path_not_found path) = not_found
code_for_error (Error.remote_path_undescribed path skipped) = not_found
code_for_error (Error.not_a_directory path) = not_found
code_for_error (Error.local_not_a_directory path) = not_found
code_for_error (Error.storage_required available) = not_found
code_for_error (Error.storage_not_found selector available) = not_found
code_for_error (Error.conflicts paths) = conflicts
code_for_error Error.cancelled = interrupted
code_for_error (Error.invalid_path e) = usage
code_for_error _ = generic

-- An interrupt wins over failed files.
unfoldable pub code_for_report : Report → ℕ
code_for_report report =
    if report.interrupted
    then interrupted
    else elim report.failed [ [] ↦ success | file ∷ files ↦ transfer_failed ]

unfoldable pub code_for_outcome : Outcome → ℕ
code_for_outcome (transferred report) = code_for_report report
code_for_outcome done = success
code_for_outcome (dry_run plan) = success

-- The end of `main`
unfoldable pub code_for_result : {Other : Type 0} → Result Outcome (Error Other) → ℕ
code_for_result (ok outcome) = code_for_outcome outcome
code_for_result (err error) = code_for_error error
