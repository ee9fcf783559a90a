-- ===== src/Executor/Done.antt =====
-- What the calls of a step have done, for crates/mtpx-core/src/internal/executor.rs.
use mtpx.Base.{
  ℕ, ◌^◌, ◌%◌, zero, suc, ◌+◌, ◌*◌, ◌≤◌, ◌≡◌, ◌⊎◌, inl, inr, refl, sym, subst, false, List, [], ◌∷◌,
  length, length-append, Option, Option-cases, Result, ok, err, Result-cases, Bool-cases, All,
  arith,
}
use mtpx.Path.RelPath.{RelPath}
use mtpx.Entry.{ModifiedTime}
use mtpx.Error.{Error}
use mtpx.Plan
use mtpx.Plan.{Action, CopyReason, Plan}
use mtpx.Event.{Report, empty_report}
use mtpx.Endpoint.{Env, WriteRequest}
use mtpx.Executor.{
  State, Stop, interrupted, aborted, call, retryable, report_and_back_off, read_attempts, settle,
  write_reporting, copy_one, fail, mkdir, skip, copy, perform, step, request, aborts_batch,
  StepResult, is_cancelled_error, interrupt, finish, stop_run, run_from, run, remaining_copies,
}

module _ {Other : Type 0} (env : Env Other) where
  -- A copy asked where to resume, read the file from there, and the destination's write of what was
  -- read succeeded, for the file's size and time; a directory was made.
  abbrev pub IsDone : Action → Type 0
  IsDone (Plan.copy path size modified offset reason) =
      (from : ℕ) × (w1 : env.World) × ((env.resume_offset path offset w1).0 ≡ ok from)
      × (stream : env.Stream) × (w2 : env.World) × ((env.read path from w2).0 ≡ ok stream)
      × (w3 : env.World) × ((env.write (request path size modified from) stream w3).0 ≡ ok tt)
  IsDone (Plan.mkdir path) = (w : env.World) × ((env.mkdir path w).0 ≡ ok tt)
  IsDone (Plan.skip path reason) = Unit

  read_attempts-ok :
      (left backoff : ℕ) (path : RelPath) (offset : ℕ) (s : State env) (stream : env.Stream)
      → (read_attempts env left backoff path offset s).0 ≡ ok stream
      → (w : env.World) × ((env.read path offset w).0 ≡ ok stream)
  unfolding read_attempts call
  read_attempts-ok zero backoff path offset s stream h = (s.world, h)
  read_attempts-ok (suc left) backoff path offset s stream h =
      let (outcome, s1) = call env (env.read path offset) s in
      elim (Option-cases (retryable env outcome)) [
        | inl last ↦ (s.world, ground (arith, h, last))
        | inr (e, again) ↦
            let (waited, s2) = report_and_back_off env path e backoff s1 in
            elim (Result-cases waited) [
              | inl (u, on) ↦
                  read_attempts-ok left (backoff * 2) path offset s2 stream
                    (ground (arith, h, again, on))
              | inr (x, quit) ↦ absurd (ground (arith, h, again, quit))
            ]
      ]

  copy_one-ok :
      (q : WriteRequest) (s : State env) (n : ℕ)
      → (copy_one env q s).0 ≡ ok n
      → (stream : env.Stream) × (w : env.World) × ((env.read q.path q.resume_from w).0 ≡ ok stream)
        × (w' : env.World) × ((env.write q stream w').0 ≡ ok tt)
  unfolding copy_one write_reporting
  copy_one-ok q s n h =
      let (raw, s1) = read_attempts env 3 500 q.path q.resume_from s in
      elim (Result-cases raw) [
        | inr (e, failed) ↦ absurd (ground (arith, h, failed))
        | inl (stream, found) ↦
            let (w, was_read) = read_attempts-ok 3 500 q.path q.resume_from s stream found in
            elim (Result-cases (env.write q stream s1.world).0) [
              | inl (u, wrote) ↦ (stream, w, was_read, s1.world, wrote)
              | inr (e, failed) ↦ absurd (ground (arith, h, found, failed))
            ]
      ]

  settle-ok :
      (q q' : WriteRequest) (s : State env)
      → (settle env q s).0 ≡ ok q'
      → (from : ℕ) × ((env.resume_offset q.path q.resume_from s.world).0 ≡ ok from)
        × (q' ≡ record q { resume_from = from })
  unfolding settle call
  settle-ok q q' s h = elim (Result-cases (env.resume_offset q.path q.resume_from s.world).0) [
    | inl (from, found) ↦ (from, found, ground (arith, h, found))
    | inr (e, failed) ↦ absurd (ground (arith, h, failed))
  ]

  -- A step that goes on has done its action, or has one more failure.
  abbrev pub IsTold : Action → Report → StepResult env → Report → Type 0
  IsTold a report (ok u) report' =
      (IsDone a × (length report'.failed ≡ length report.failed))
      ⊎ (length report'.failed ≡ length report.failed + 1)
  IsTold a report (err stop) report' = Unit

  told :
      (a : Action) (report : Report) (x y : (StepResult env × Report) × State env)
      → y ≡ x
      → IsTold a report x.0.0 x.0.1
      → IsTold a report y.0.0 y.0.1
  told a report x y e h = subst (λ z. IsTold a report z.0.0 z.0.1) (sym e) h

  fail-IsTold :
      (a : Action) (path : RelPath) (e : Error Other) (report : Report) (s : State env)
      → IsTold a report (fail env path e report s).0.0 (fail env path e report s).0.1
  unfolding fail
  fail-IsTold a path e report s = elim (Bool-cases (is_cancelled_error env e)) [
    | inl quit ↦ rw quit tt
    | inr other ↦ elim (Bool-cases (aborts_batch e)) [
      | inl fatal ↦ rw (other, fatal) tt
      | inr mild ↦
          rw (other, mild)
            (inr
              (length-append report.failed (record { path = path; error = env.to_string e } ∷ [])))
    ]
  ]

  copy-IsTold :
      (path : RelPath) (size : ℕ) (modified : Option ModifiedTime) (offset : ℕ)
      (reason : CopyReason) (report : Report) (s : State env)
      → let q = request path size modified offset in
        IsTold
          (Plan.copy path size modified offset reason)
          report
          (copy env q report s).0.0
          (copy env q report s).0.1
  unfolding copy
  copy-IsTold path size modified offset reason report s =
      let q = request path size modified offset in
      let a = Plan.copy path size modified offset reason in
      let (ready, s1) = settle env q s in
      elim (Result-cases ready) [
        | inr (e, failed) ↦
            told a report (fail env path e report s1) (copy env q report s) (ground arith)
              (fail-IsTold a path e report s1)
        | inl (q', found) ↦
            let (from, resumes, same) = settle-ok q q' s found in
            let (copied, s2) = copy_one env q' s1 in
            elim (Result-cases copied) [
              | inl (n, done) ↦
                  let (stream, w2, was_read, w3, wrote) = copy_one-ok q' s1 n done in
                  let report' : Report = record report {
                    copied = report.copied + 1;
                    bytes = (report.bytes + n) % 2 ^ 64;
                  } in
                  let its : (env.read path from w2).0 ≡ ok stream =
                    subst (λ (x : WriteRequest). (env.read x.path x.resume_from w2).0 ≡ ok stream)
                      same was_read in
                  let kept : (env.write (request path size modified from) stream w3).0 ≡ ok tt =
                    subst (λ x. (env.write x stream w3).0 ≡ ok tt) same wrote in
                  told a report ((ok tt, report'), s2) (copy env q report s) (ground arith)
                    (inl ((from, s.world, resumes, stream, w2, its, w3, kept), refl))
              | inr (e, failed) ↦
                  told a report (fail env path e report s2) (copy env q report s) (ground arith)
                    (fail-IsTold a path e report s2)
            ]
      ]

  mkdir-IsTold :
      (path : RelPath) (report : Report) (s : State env)
      → IsTold (Plan.mkdir path) report (mkdir env path report s).0.0 (mkdir env path report s).0.1
  unfolding mkdir call
  mkdir-IsTold path report s =
      let (made, s1) = call env (env.mkdir path) s in
      elim (Result-cases made) [
        | inl (u, done) ↦
            told (Plan.mkdir path) report ((ok tt, report), s1) (mkdir env path report s)
              (ground arith) (inl ((s.world, done), refl))
        | inr (e, failed) ↦
            told (Plan.mkdir path) report (fail env path e report s1) (mkdir env path report s)
              (ground arith) (fail-IsTold (Plan.mkdir path) path e report s1)
      ]

  perform-IsTold :
      (a : Action) (report : Report) (s : State env)
      → IsTold a report (perform env a report s).0.0 (perform env a report s).0.1
  unfolding perform
  perform-IsTold (Plan.mkdir path) report s = mkdir-IsTold path report s
  perform-IsTold (Plan.skip path reason) report s = unfold skip in inl (tt, refl)
  perform-IsTold (Plan.copy path size modified offset reason) report s =
      copy-IsTold path size modified offset reason report s

  step-IsTold :
      (a : Action) (report : Report) (s : State env)
      → IsTold a report (step env a report s).0.0 (step env a report s).0.1
  unfolding step
  step-IsTold a report s =
      let (hit, s1) = call env env.is_cancelled s in
      elim (Bool-cases hit) [ inl quit ↦ rw quit tt | inr on ↦ rw on (perform-IsTold a report s1) ]

  -- Where a run is not interrupted and has no more failures, it has done every action.
  abbrev pub IsAllDone : Report → List Action → Result Report (Error Other) → Type 0
  IsAllDone start l (err e) = Unit
  IsAllDone start l (ok report) =
      report.interrupted ≡ false
      → (length start.failed ≤ length report.failed)
        × (length report.failed ≡ length start.failed → All IsDone l)

  stop_run-IsAllDone :
      (start report : Report) (l : List Action) (stop : Stop Other) (n since : ℕ) (s : State env)
      → IsAllDone start l (stop_run env stop n report since s).0
  unfolding stop_run interrupt finish
  stop_run-IsAllDone start report l interrupted n since s = λ h. absurd (cc h)
  stop_run-IsAllDone start report l (aborted e) n since s = tt

  IsAllDone-step :
      (start mid : Report) (a : Action) (l : List Action) (r : Result Report (Error Other))
      → IsTold a start (ok tt) mid
      → IsAllDone mid l r
      → IsAllDone start (a ∷ l) r
  IsAllDone-step start mid a l (err e) t k = tt
  IsAllDone-step start mid a l (ok report) (inl (done, same)) k =
      λ h. let (grows, rest) = k h in (omega arith, λ e. (done, rest (omega arith)))
  IsAllDone-step start mid a l (ok report) (inr more) k =
      λ h. let (grows, rest) = k h in (omega arith, λ e. absurd (omega arith))

  run_from-IsAllDone :
      (since : ℕ) (l : List Action) (report : Report) (s : State env)
      → IsAllDone report l (run_from env since l report s).0
  unfolding run_from
  run_from-IsAllDone since [] report s = unfold finish in λ h. (omega arith, λ e. tt)
  run_from-IsAllDone since (a ∷ rest) report s =
      let ((outcome, report'), s') = step env a report s in
      let told_it = step-IsTold a report s in
      elim (Result-cases outcome) [
        | inl (u, o) ↦
            let t = subst (λ x. IsTold a report x report') o told_it in
            let same : run_from env since (a ∷ rest) report s ≡ run_from env since rest report' s' =
              rw (o, run_from) refl in
            subst (λ x. IsAllDone report (a ∷ rest) x.0) (sym same)
              (IsAllDone-step report report' a rest _ t (run_from-IsAllDone since rest report' s'))
        | inr (stop, o) ↦
            let same : run_from env since (a ∷ rest) report s
                ≡ stop_run env stop (remaining_copies (a ∷ rest)) report' since s' =
              rw (o, run_from) refl in
            subst (λ x. IsAllDone report (a ∷ rest) x.0) (sym same)
              (stop_run-IsAllDone report report' (a ∷ rest) stop _ since s')
      ]

  pub run-IsAllDone :
      (plan : Plan) (s : State env) → IsAllDone empty_report plan.actions (run env plan s).0
  unfolding run
  run-IsAllDone plan s = run_from-IsAllDone _ plan.actions empty_report s
