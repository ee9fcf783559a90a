-- ===== src/Executor/Accounting.antt =====
-- What a step makes of the report, for crates/mtpx-core/src/internal/executor.rs.
use mtpx.Base.{
  ℕ, ◌^◌, ◌%◌, ◌+◌, ◌≤◌, ◌≡◌, inl, inr, refl, subst, sym, true, [], ◌∷◌, length, length-append,
  Option, ok, err, Result-cases, Bool-cases, arith,
}
use mtpx.Path.RelPath.{RelPath}
use mtpx.Error.{Error}
use mtpx.Plan
use mtpx.Plan.{Action, SkipReason, CopyReason}
use mtpx.Entry.{ModifiedTime}
use mtpx.Plan.Totals.{copies, skips}
use mtpx.Event.{Report}
use mtpx.Endpoint.{Env}
use mtpx.Executor.{
  State, interrupted, aborted, call, settle, copy_one, fail, mkdir, skip, copy, perform, step,
  request, aborts_batch, StepResult, is_cancelled_error,
}

-- Files that were copied or have failed.
abbrev pub settled_files : Report → ℕ
settled_files report = report.copied + length report.failed

module _ {Other : Type 0} (env : Env Other) where
  -- How a step on an action changes the report, for each way that it ends.
  abbrev pub IsCounted : Action → Report → StepResult env → Report → Type 0
  IsCounted a report (ok u) report' =
      (report'.interrupted ≡ report.interrupted)
      × (report'.skipped ≡ report.skipped + skips a)
      × (report'.copied ≤ report.copied + copies a)
      × (settled_files report + copies a ≤ settled_files report')
      × (settled_files report' + skips a ≤ settled_files report + 1)
  IsCounted a report (err interrupted) report' = report' ≡ report
  IsCounted a report (err (aborted e)) report' =
      (aborts_batch e ≡ true)
      × (report'.skipped ≡ report.skipped)
      × (report'.copied ≡ report.copied)
      × (length report'.failed ≡ length report.failed + 1)

  fail-IsCounted :
      (a : Action) (path : RelPath) (e : Error Other) (report : Report) (s : State env)
      → skips a ≡ 0
      → copies a ≤ 1
      → IsCounted a report (fail env path e report s).0.0 (fail env path e report s).0.1
  unfolding fail
  fail-IsCounted a path e report s h k =
      let counted =
        length-append report.failed (record { path = path; error = env.to_string e } ∷ []) in
      elim (Bool-cases (is_cancelled_error env e)) [
        | inl quit ↦ rw quit refl
        | inr other ↦ elim (Bool-cases (aborts_batch e)) [
          | inl fatal ↦ rw (other, fatal) (fatal, refl, refl, omega arith)
          | inr mild ↦ rw (other, mild) (refl, omega arith, omega arith, omega arith, omega arith)
        ]
      ]

  becomes :
      (a : Action) (report : Report) (x y : (StepResult env × Report) × State env)
      → y ≡ x
      → IsCounted a report x.0.0 x.0.1
      → IsCounted a report y.0.0 y.0.1
  becomes a report x y e h = subst (λ z. IsCounted a report z.0.0 z.0.1) (sym e) h

  mkdir-IsCounted :
      (path : RelPath) (report : Report) (s : State env)
      → IsCounted
          (Plan.mkdir path)
          report
          (mkdir env path report s).0.0
          (mkdir env path report s).0.1
  unfolding mkdir
  mkdir-IsCounted path report s =
      let (made, s1) = call env (env.mkdir path) s in
      elim (Result-cases made) [
        | inl (u, done) ↦
            becomes (Plan.mkdir path) report ((ok tt, report), s1) (mkdir env path report s)
              (ground arith) (refl, omega arith, omega arith, omega arith, omega arith)
        | inr (e, failed) ↦
            becomes (Plan.mkdir path) report (fail env path e report s1) (mkdir env path report s)
              (ground arith) (fail-IsCounted (Plan.mkdir path) path e report s1 refl (omega arith))
      ]

  copy-IsCounted :
      (path : RelPath) (size : ℕ) (modified : Option ModifiedTime) (offset : ℕ)
      (reason : CopyReason) (report : Report) (s : State env)
      → let q = request path size modified offset in
        IsCounted
          (Plan.copy path size modified offset reason)
          report
          (copy env q report s).0.0
          (copy env q report s).0.1
  unfolding copy
  copy-IsCounted path size modified offset reason report s =
      let q = request path size modified offset in
      let a = Plan.copy path size modified offset reason in
      let (ready, s1) = settle env q s in
      elim (Result-cases ready) [
        | inr (e, failed) ↦
            becomes a report (fail env path e report s1) (copy env q report s) (ground arith)
              (fail-IsCounted a path e report s1 refl (omega arith))
        | inl (q', found) ↦
            let (copied, s2) = copy_one env q' s1 in
            elim (Result-cases copied) [
              | inl (n, done) ↦
                  let report' : Report = record report {
                    copied = report.copied + 1;
                    bytes = (report.bytes + n) % 2 ^ 64;
                  } in
                  becomes a report ((ok tt, report'), s2) (copy env q report s) (ground arith)
                    (refl, omega arith, omega arith, omega arith, omega arith)
              | inr (e, failed) ↦
                  becomes a report (fail env path e report s2) (copy env q report s) (ground arith)
                    (fail-IsCounted a path e report s2 refl (omega arith))
            ]
      ]

  perform-IsCounted :
      (a : Action) (report : Report) (s : State env)
      → IsCounted a report (perform env a report s).0.0 (perform env a report s).0.1
  unfolding perform
  perform-IsCounted (Plan.mkdir path) report s = mkdir-IsCounted path report s
  perform-IsCounted (Plan.skip path reason) report s =
      unfold skip in (refl, omega arith, omega arith, omega arith, omega arith)
  perform-IsCounted (Plan.copy path size modified offset reason) report s =
      copy-IsCounted path size modified offset reason report s

  pub step-IsCounted :
      (a : Action) (report : Report) (s : State env)
      → IsCounted a report (step env a report s).0.0 (step env a report s).0.1
  unfolding step
  step-IsCounted a report s =
      let (hit, s1) = call env env.is_cancelled s in
      elim (Bool-cases hit) [
        | inl quit ↦ rw quit refl
        | inr on ↦ rw on (perform-IsCounted a report s1)
      ]
