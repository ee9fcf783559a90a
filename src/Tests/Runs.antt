-- ===== src/Tests/Runs.antt =====
-- crates/mtpx-core/src/internal/executor.rs on a concrete environment.
use mtpx.Base.{
  arith, ℕ, ◌+◌, ◌≡◌, refl, true, false, [], ◌∷◌, none, ok, err, Result, ◌==◌, nat_ord, list_ord,
  if◌then◌else◌,
}
use mtpx.Std.Text.{Str, codes}
use mtpx.Path.RelPath.{RelPath}
use mtpx.Error.{Error}
use mtpx.Plan
use mtpx.Plan.{Plan, new_plan}
use mtpx.Event
use mtpx.Event.{Report, empty_report}
use mtpx.Endpoint.{Env}
use mtpx.Executor.{
  State, run, run_from, step, perform, skip, copy, settle, copy_one, emit, call, fail,
  read_attempts, write_reporting, remaining_copies, stop_run, abort, aborts_batch, finish, mkdir,
}
use mtpx.Exit.{code_for_result, code_for_outcome, code_for_report}
use mtpx.Exit.Success.{outcome, IsComplete, run-IsComplete}
use mtpx.Executor.{back_off}
use mtpx.Executor.Waiting.{IsClock, IsWaited, back_off-IsWaited}
use mtpx.Executor.Ending.{IsTraced, run-IsTraced}

abbrev at : Str → RelPath
at name = name ∷ []

-- Reading `gone` finds nothing, and reading `pulled` finds no device.
abbrev read_outcome : RelPath → Result (Unit {0}) (Error ⊥)
read_outcome path =
    if path == at (codes "gone")
    then err (Error.source_vanished path)
    else if path == at (codes "pulled")
    then err Error.disconnected
    else ok tt

-- The world is a clock, and every write takes 7 ms and reports one of two chunks.
abbrev device : Env ⊥
device = record {
  World = ℕ;
  Stream = Unit {0};
  is_cancelled = λ w. (false, w);
  resume_offset = λ path offset w. (ok offset, w);
  read = λ path offset w. (read_outcome path, w);
  write = λ request stream w. (
    ok tt,
    record { len = 2; reported = false } ∷ record { len = 3; reported = true } ∷ [],
    w + 7,
  );
  mkdir = λ path w. (ok tt, w);
  now = λ w. w;
  sleep = λ n w. w + n;
  is_retryable = λ e. false;
  to_string = λ e. codes "no";
}

abbrev planned : Plan
planned = new_plan (
    Plan.mkdir (at (codes "d"))
    ∷ Plan.skip (at (codes "same")) Plan.identical
    ∷ Plan.copy (at (codes "a")) 9 none 4 Plan.new
    ∷ Plan.copy (at (codes "gone")) 1 none 0 Plan.new
    ∷ Plan.copy (at (codes "pulled")) 2 none 0 Plan.new
    ∷ Plan.copy (at (codes "b")) 3 none 0 Plan.size_differs
    ∷ [])

abbrev start : State device
start = record { world = 100; events = [] }

abbrev last_report : Report
last_report = record {
  copied = 1;
  bytes = 5;
  skipped = 1;
  failed =
      record { path = at (codes "gone"); error = codes "no" }
      ∷ record { path = at (codes "pulled"); error = codes "no" }
      ∷ [];
  elapsed = 7;
  interrupted = false;
}

planned_runs : run device planned start ≡ (
  err Error.disconnected,
  record {
    world = 107;
    events =
        Event.skipped (at (codes "same")) Plan.identical
        ∷ Event.file_started (at (codes "a")) 9 4
        ∷ Event.file_progress (at (codes "a")) 9
        ∷ Event.file_finished (at (codes "a")) 5 7
        ∷ Event.file_started (at (codes "gone")) 1 0
        ∷ Event.file_failed (at (codes "gone")) (codes "no") false
        ∷ Event.file_started (at (codes "pulled")) 2 0
        ∷ Event.aborted last_report 2
        ∷ [];
  },
)
unfolding run run_from step perform skip copy settle copy_one emit call fail read_attempts
    write_reporting remaining_copies stop_run abort aborts_batch finish mkdir new_plan
planned_runs = refl

run-IsTraced_example : IsTraced device empty_report planned.actions start (run device planned start)
run-IsTraced_example = run-IsTraced device planned start

abbrev short : Plan
short = new_plan (
    Plan.skip (at (codes "same")) Plan.identical
    ∷ Plan.copy (at (codes "a")) 9 none 4 Plan.new
    ∷ Plan.copy (at (codes "b")) 3 none 0 Plan.size_differs
    ∷ [])

short_succeeds : code_for_result (outcome (run device short start).0) ≡ 0
unfolding run run_from step perform skip copy settle copy_one emit call fail read_attempts
    write_reporting finish new_plan code_for_result code_for_outcome code_for_report
short_succeeds = refl

run-IsComplete_example : IsComplete device short.actions (run device short start).0
run-IsComplete_example = run-IsComplete device short start short_succeeds

device-IsClock : IsClock device
device-IsClock = record { slept = λ n w. omega arith; polled = λ w. omega arith }

back_off-IsWaited_example : IsWaited device 600 start.world (back_off device 500 start)
back_off-IsWaited_example = back_off-IsWaited device 500 start device-IsClock
