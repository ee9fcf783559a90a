-- ===== src/Event.antt =====
-- Progress events and the final report, from crates/mtpx-core/src/event.rs.
use mtpx.Base.{ℕ, Bool, false, List, []}
use mtpx.Std.Text.{Str}
use mtpx.Path.RelPath.{RelPath}
use mtpx.Snapshot.{SkippedEntry}
use mtpx.Plan.{PlanSummary, SkipReason}

pub data Side : Type 0 where
  source dest : Side

pub data Hint : Type 0 where
  slow_link : (bytes : ℕ) → Hint
  device_skipped_objects : List SkippedEntry → Hint
  stale_partials : (count bytes : ℕ) → Hint

pub record FailedFile : Type 0 where
  pub path : RelPath
  pub error : Str

-- Times are milliseconds.
pub record Report : Type 0 where
  pub copied : ℕ
  pub bytes : ℕ
  pub skipped : ℕ
  pub failed : List FailedFile
  pub elapsed : ℕ
  pub interrupted : Bool

abbrev pub empty_report : Report
empty_report = record {
  copied = 0;
  bytes = 0;
  skipped = 0;
  failed = [];
  elapsed = 0;
  interrupted = false;
}

pub data ProgressEvent : Type 0 where
  scan_started : Side → ProgressEvent
  scan_progress : Side → (found : ℕ) → ProgressEvent
  scan_finished : Side → (entries skipped : ℕ) → ProgressEvent
  plan_ready : PlanSummary → List Hint → ProgressEvent
  file_started : RelPath → (size resume_from : ℕ) → ProgressEvent
  file_progress : RelPath → (bytes : ℕ) → ProgressEvent
  file_finished : RelPath → (bytes elapsed : ℕ) → ProgressEvent
  file_failed : RelPath → (error : Str) → (will_retry : Bool) → ProgressEvent
  skipped : RelPath → SkipReason → ProgressEvent
  interrupted : (remaining_files : ℕ) → ProgressEvent
  finished : Report → ProgressEvent
  aborted : Report → (remaining_files : ℕ) → ProgressEvent
