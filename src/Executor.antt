-- ===== src/Executor.antt =====
-- Running a plan, from crates/mtpx-core/src/internal/executor.rs. An awaited event is appended to
-- `events`; a `FileProgress` that the channel had no room for is dropped.
pub mod Trace
pub mod Accounting
pub mod Ending
pub mod Done
pub mod Waiting
use mtpx.Base.{
  ℕ, zero, suc, ◌+◌, ◌-◌, ◌*◌, ◌^◌, ◌%◌, min, ltb, Bool, true, false, List, [], ◌∷◌, ◌++◌, Option,
  Result, ok, err, if◌then◌else◌,
}
use mtpx.Std.Text.{Str}
use mtpx.Path.RelPath.{RelPath}
use mtpx.Entry.{ModifiedTime}
use mtpx.Mtp
use mtpx.Error.{Error, IoError, IoErrorKind}
use mtpx.Error
use mtpx.Plan
use mtpx.Plan.{Action, Plan, SkipReason}
use mtpx.Event
use mtpx.Event.{ProgressEvent, Report, FailedFile, empty_report}
use mtpx.Endpoint.{Env, WriteRequest, Chunk}

abbrev pub max_read_retries : ℕ
max_read_retries = 3

-- Milliseconds.
abbrev pub retry_backoff : ℕ
retry_backoff = 500

abbrev pub cancel_poll : ℕ
cancel_poll = 100

-- `u64` subtraction of a release build.
abbrev pub sub_u64 : ℕ → ℕ → ℕ
sub_u64 a b = (a + 2 ^ 64 - b) % 2 ^ 64

unfoldable pub destination_is_unwritable : IoError → Bool
destination_is_unwritable e = elim e.kind [
  | IoErrorKind.storage_full ↦ true
  | IoErrorKind.read_only_filesystem ↦ true
  | _ ↦ false
]

abbrev is_device_reset : {Other : Type 0} → Mtp.MtpError Other → Bool
is_device_reset Mtp.device_reset = true
is_device_reset _ = false

-- The errors after which no further endpoint call can succeed.
unfoldable pub aborts_batch : {Other : Type 0} → Error Other → Bool
unfolding destination_is_unwritable
aborts_batch Error.disconnected = true
aborts_batch Error.no_device = true
aborts_batch Error.permission_denied = true
aborts_batch (Error.exclusive_access holder) = true
aborts_batch (Error.mtp e) = is_device_reset e
aborts_batch (Error.io e) = destination_is_unwritable e
aborts_batch (Error.local_io op path e) = destination_is_unwritable e
aborts_batch _ = false

unfoldable pub remaining_copies : List Action → ℕ
remaining_copies [] = 0
remaining_copies (Plan.copy path size modified resume_from reason ∷ rest) =
    suc (remaining_copies rest)
remaining_copies (Plan.mkdir path ∷ rest) = remaining_copies rest
remaining_copies (Plan.skip path reason ∷ rest) = remaining_copies rest

abbrev pub request : RelPath → ℕ → Option ModifiedTime → ℕ → WriteRequest
request path size modified resume_from = record {
  path = path;
  expected_size = size;
  resume_from = resume_from;
  modified = modified;
}

-- Why a run stops before the last action.
pub data Stop (Other : Type 0) : Type 0 where
  interrupted : Stop Other
  aborted : Error Other → Stop Other

-- The reports of the chunks that passed.
progress : RelPath → ℕ → List Chunk → List ProgressEvent
progress path so_far [] = []
progress path so_far (c ∷ cs) =
    let passed = (so_far + c.len) % 2 ^ 64 in
    let rest = progress path passed cs in
    if c.reported then Event.file_progress path passed ∷ rest else rest

module _ {Other : Type 0} (env : Env Other) where
  open env use {World, Stream}

  -- The world, and the events so far.
  pub record State : Type 0 where
    pub world : World
    pub events : List ProgressEvent

  abbrev pub StepResult : Type 0
  StepResult = Result (Unit {0}) (Stop Other)

  unfoldable pub emit : ProgressEvent → State → State
  emit event s = record s { events = s.events ++ (event ∷ []) }

  -- A call of the environment, on the state's world.
  unfoldable pub call : {A : Type 0} → (World → A × World) → State → A × State
  call f s = let (a, w) = f s.world in (a, record s { world = w })

  -- The loop of `back_off`, on fuel. Where that ends it has waited long enough, if the clock moves on.
  back_off_until : ℕ → ℕ → State → Result (Unit {0}) (Error Other) × State
  back_off_until zero deadline s = (ok tt, s)
  back_off_until (suc fuel) deadline s =
      let (hit, s1) = call env.is_cancelled s in
      let s2 : State = record s1 {
        world = env.sleep (min cancel_poll (deadline - env.now s1.world)) s1.world;
      } in
      let rest = back_off_until fuel deadline s2 in
      if ltb (env.now s.world) deadline
      then (if hit then (err Error.cancelled, s1) else rest)
      else (ok tt, s)

  -- The clock moves on with every sleep, so a round for every millisecond is enough.
  unfoldable pub back_off : ℕ → State → Result (Unit {0}) (Error Other) × State
  unfolding back_off_until
  back_off backoff s = back_off_until (suc backoff) (env.now s.world + backoff) s

  unfoldable pub report_and_back_off :
      RelPath → Mtp.MtpError Other → ℕ → State → Result (Unit {0}) (Error Other) × State
  report_and_back_off path error backoff s =
      let (hit, s1) = call env.is_cancelled s in
      if hit
      then (err Error.cancelled, s1)
      else back_off backoff
          (emit (Event.file_failed path (env.to_string (Error.mtp error)) true) s1)

  -- The MTP error of an outcome that is worth another attempt.
  abbrev pub retryable : {A : Type 0} → Result A (Error Other) → Option (Mtp.MtpError Other)
  retryable (err (Error.mtp e)) = if env.is_retryable e then Option.some e else Option.none
  retryable _ = Option.none

  -- The attempts that are left, and the last one.
  unfoldable pub read_attempts : ℕ → ℕ → RelPath → ℕ → State → Result Stream (Error Other) × State
  read_attempts zero backoff path offset s = call (env.read path offset) s
  read_attempts (suc left) backoff path offset s =
      let (outcome, s1) = call (env.read path offset) s in
      elim (retryable outcome) [
        | Option.none ↦ (outcome, s1)
        | Option.some e ↦
            let (waited, s2) = report_and_back_off path e backoff s1 in
            elim waited [
              | err error ↦ (err error, s2)
              | ok _ ↦ read_attempts left (backoff * 2) path offset s2
            ]
      ]

  abbrev pub read_with_retry : RelPath → ℕ → State → Result Stream (Error Other) × State
  read_with_retry = read_attempts max_read_retries retry_backoff

  -- `dest.write` on the stream that reports every chunk
  unfoldable pub write_reporting :
      WriteRequest → Stream → State → Result (Unit {0}) (Error Other) × State
  unfolding progress
  write_reporting request stream s =
      let (result, chunks, w) = env.write request stream s.world in
      (
        result,
        record { world = w; events = s.events ++ progress request.path request.resume_from chunks },
      )

  unfoldable pub settle : WriteRequest → State → Result WriteRequest (Error Other) × State
  settle request s =
      let (offset, s1) = call (env.resume_offset request.path request.resume_from) s in
      elim offset [
        | err error ↦ (err error, s1)
        | ok resume_from ↦ (
          ok (record request { resume_from = resume_from }),
          emit (Event.file_started request.path request.expected_size resume_from) s1,
        )
      ]

  unfoldable pub copy_one : WriteRequest → State → Result ℕ (Error Other) × State
  copy_one request s =
      let (raw, s1) = read_with_retry request.path request.resume_from s in
      elim raw [
        | err error ↦ (err error, s1)
        | ok stream ↦
            let since = env.now s1.world in
            let bytes = sub_u64 request.expected_size request.resume_from in
            let (written, s2) = write_reporting request stream s1 in
            elim written [
              | err error ↦ (err error, s2)
              | ok _ ↦ (
                ok bytes,
                emit (Event.file_finished request.path bytes (env.now s2.world - since)) s2,
              )
            ]
      ]

  abbrev pub is_cancelled_error : Error Other → Bool
  is_cancelled_error Error.cancelled = true
  is_cancelled_error _ = false

  abbrev pub push_failed : Report → RelPath → Str → Report
  push_failed report path message = record report {
    failed = report.failed ++ (record { path = path; error = message } ∷ []);
  }

  unfoldable pub fail : RelPath → Error Other → Report → State → (StepResult × Report) × State
  fail path error report s =
      let message = env.to_string error in
      let report' = push_failed report path message in
      if is_cancelled_error error
      then ((err interrupted, report), s)
      else if aborts_batch error
      then ((err (aborted error), report'), s)
      else ((ok tt, report'), emit (Event.file_failed path message false) s)

  unfoldable pub mkdir : RelPath → Report → State → (StepResult × Report) × State
  mkdir path report s =
      let (made, s1) = call (env.mkdir path) s in
      elim made [ ok _ ↦ ((ok tt, report), s1) | err error ↦ fail path error report s1 ]

  unfoldable pub skip : RelPath → SkipReason → Report → State → (StepResult × Report) × State
  skip path reason report s =
      ((ok tt, record report { skipped = report.skipped + 1 }), emit (Event.skipped path reason) s)

  unfoldable pub copy : WriteRequest → Report → State → (StepResult × Report) × State
  copy request report s =
      let (settled, s1) = settle request s in
      elim settled [
        | err error ↦ fail request.path error report s1
        | ok request' ↦
            let (copied, s2) = copy_one request' s1 in
            elim copied [
              | err error ↦ fail request.path error report s2
              | ok bytes ↦ (
                (
                  ok tt,
                  record report {
                    copied = report.copied + 1;
                    bytes = (report.bytes + bytes) % 2 ^ 64;
                  },
                ),
                s2,
              )
            ]
      ]

  -- What a step does when the run is not cancelled.
  unfoldable pub perform : Action → Report → State → (StepResult × Report) × State
  perform (Plan.mkdir path) report s = mkdir path report s
  perform (Plan.skip path reason) report s = skip path reason report s
  perform (Plan.copy path size modified resume_from reason) report s =
      copy (request path size modified resume_from) report s

  unfoldable pub step : Action → Report → State → (StepResult × Report) × State
  step action report s =
      let (hit, s1) = call env.is_cancelled s in
      if hit then ((err interrupted, report), s1) else perform action report s1

  abbrev pub timed : Report → ℕ → State → Report
  timed report since s = record report { elapsed = env.now s.world - since }

  unfoldable pub finish : Report → ℕ → State → Report × State
  finish report since s =
      let report' = timed report since s in (report', emit (Event.finished report') s)

  unfoldable pub interrupt : Report → ℕ → ℕ → State → Report × State
  interrupt report since remaining s =
      finish (record report { interrupted = true }) since (emit (Event.interrupted remaining) s)

  unfoldable pub abort : Report → ℕ → ℕ → State → State
  abort report since remaining s = emit (Event.aborted (timed report since s) remaining) s

  -- What a stop makes of the run.
  unfoldable pub stop_run :
      Stop Other → ℕ → Report → ℕ → State → Result Report (Error Other) × State
  stop_run interrupted remaining report since s =
      let (report', s') = interrupt report since remaining s in (ok report', s')
  stop_run (aborted error) remaining report since s = (err error, abort report since remaining s)

  -- The loop of `run` over the actions that are left.
  unfoldable pub run_from : ℕ → List Action → Report → State → Result Report (Error Other) × State
  run_from since [] report s = let (report', s') = finish report since s in (ok report', s')
  run_from since (a ∷ rest) report s =
      let ((outcome, report'), s') = step a report s in
      elim outcome [
        | ok _ ↦ run_from since rest report' s'
        | err stop ↦ stop_run stop (remaining_copies (a ∷ rest)) report' since s'
      ]

  unfoldable pub run : Plan → State → Result Report (Error Other) × State
  run plan s = run_from (env.now s.world) plan.actions empty_report s
