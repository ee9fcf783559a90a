-- ===== src/Exit/Success.antt =====
-- What exit code 0 of a transfer means, for crates/mtpx/src/exit.rs and
-- crates/mtpx-core/src/internal/executor.rs.
use mtpx.Base.{◌≡◌, ◌≢◌, inl, inr, ap, length, All, List, [], Result, ok, err, arith}
use mtpx.Error.{Error}
use mtpx.Plan.{Action, Plan}
use mtpx.Plan.Totals.{copies, skips, total}
use mtpx.Event.{Report, ProgressEvent, empty_report}
use mtpx.Endpoint.{Env}
use mtpx.Executor.{State, run}
use mtpx.Executor.Accounting.{settled_files}
use mtpx.Executor.Ending.{IsEnding, run-IsTraced}
use mtpx.Executor.Done.{IsDone, IsAllDone, run-IsAllDone}
use mtpx.Exit.{
  Outcome, transferred, code_for_error, code_for_report, code_for_outcome, code_for_result,
}

-- What a transfer's result is to the command.
abbrev pub outcome : {Other : Type 0} → Result Report (Error Other) → Result Outcome (Error Other)
outcome (ok report) = ok (transferred report)
outcome (err e) = err e

-- The report counts every planned copy as copied and every planned skip as skipped, and the calls of
-- every action have succeeded.
abbrev pub IsComplete :
    {Other : Type 0} (env : Env Other) → List Action → Result Report (Error Other) → Type 0
IsComplete env actions (ok report) =
    (report.copied ≡ total copies actions)
    × (report.skipped ≡ total skips actions)
    × (report.failed ≡ [])
    × All (IsDone env) actions
IsComplete env actions (err e) = ⊥

code_for_error-ne_zero : {Other : Type 0} (e : Error Other) → code_for_error e ≢ 0
unfolding code_for_error
code_for_error-ne_zero e = ground arith

ending-IsComplete :
    {Other : Type 0} (env : Env Other) (actions : List Action) (r : Result Report (Error Other))
    (last : List ProgressEvent)
    → IsEnding empty_report actions r last
    → IsAllDone env empty_report actions r
    → code_for_result (outcome r) ≡ 0
    → IsComplete env actions r
unfolding code_for_result code_for_outcome code_for_report
ending-IsComplete env actions (ok report) last (inl (i, e, full)) did h =
    let none_failed : report.failed ≡ [] = ground arith in
    let settled : settled_files report ≡ report.copied = rw none_failed (omega arith) in
    (omega arith, omega arith, none_failed, (did i).1 (ap length none_failed))
ending-IsComplete env actions (ok report) last (inr (n, i, e, cut)) did h = absurd (ground arith)
ending-IsComplete env actions (err error) last ending did h =
    absurd (code_for_error-ne_zero error h)

-- When a transfer exits with 0, its run returned a report that counts every planned copy as copied and
-- every planned skip as skipped, and no failure. Every planned directory was made by a call that
-- succeeded; and for every planned copy the destination said where to resume, the source was read from
-- there, and the destination's write of that stream, with the planned size and time, succeeded.
pub run-IsComplete :
    {Other : Type 0} (env : Env Other) (plan : Plan) (s : State env)
    → code_for_result (outcome (run env plan s).0) ≡ 0
    → IsComplete env plan.actions (run env plan s).0
run-IsComplete env plan s h =
    let traced = run-IsTraced env plan s in
    ending-IsComplete env plan.actions (run env plan s).0 traced.last traced.ending
      (run-IsAllDone env plan s) h
