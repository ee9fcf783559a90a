-- ===== src/Executor/Trace.antt =====
-- The events of a run, for crates/mtpx-core/src/internal/executor.rs: what comes before the last one.
use mtpx.Base.{
  ◌%◌, ◌^◌, ℕ, zero, suc, ◌+◌, ◌-◌, ◌*◌, min, ◌≡◌, inl, inr, refl, ap, ◌∙◌, true, false, List, [],
  ◌∷◌, ◌++◌, Result-cases, Option-cases, All, All-append, append-nil, append_assoc, arith,
}
use mtpx.Path.RelPath.{RelPath}
use mtpx.Mtp
use mtpx.Error.{Error}
use mtpx.Plan
use mtpx.Plan.{Action, Plan, SkipReason}
use mtpx.Event
use mtpx.Event.{ProgressEvent, Report}
use mtpx.Endpoint.{Env, WriteRequest, Chunk}
use mtpx.Executor.{
  State, emit, call, back_off_until, back_off, report_and_back_off, read_attempts, progress,
  write_reporting, settle, copy_one, fail, mkdir, skip, copy, perform, step, request,
  max_read_retries, retry_backoff, cancel_poll, sub_u64, retryable, read_with_retry,
}

-- The events that end nothing.
abbrev pub IsInner : ProgressEvent → Type 0
IsInner (Event.interrupted remaining) = ⊥
IsInner (Event.finished report) = ⊥
IsInner (Event.aborted report remaining) = ⊥
IsInner (Event.scan_started side) = Unit
IsInner (Event.scan_progress side found) = Unit
IsInner (Event.scan_finished side entries skipped) = Unit
IsInner (Event.plan_ready summary hints) = Unit
IsInner (Event.file_started path size resume_from) = Unit
IsInner (Event.file_progress path bytes) = Unit
IsInner (Event.file_finished path bytes elapsed) = Unit
IsInner (Event.file_failed path error will_retry) = Unit
IsInner (Event.skipped path reason) = Unit

progress-IsInner : (path : RelPath) (n : ℕ) (cs : List Chunk) → All IsInner (progress path n cs)
unfolding progress
progress-IsInner path n [] = tt
progress-IsInner path n (c ∷ cs) = ground (arith, progress-IsInner path ((n + c.len) % 2 ^ 64) cs)

module _ {Other : Type 0} (env : Env Other) where
  -- The second state has the events of the first, and inner ones behind them.
  pub record Extends (s s' : State env) : Type 0 where
    pub more : List ProgressEvent
    pub events : s'.events ≡ s.events ++ more
    pub inner : All IsInner more

  Extends-refl : (s : State env) → Extends s s
  Extends-refl s = record { more = []; events = rw append-nil; inner = tt }

  pub Extends-trans : (s t u : State env) → Extends s t → Extends t u → Extends s u
  Extends-trans s t u h k = record {
    more = h.more ++ k.more;
    events = k.events ∙ ap (λ l. l ++ k.more) h.events ∙ append_assoc _ h.more k.more;
    inner = All-append _ h.more k.more h.inner k.inner;
  }

  Extends-emit : (s : State env) (e : ProgressEvent) → IsInner e → Extends s (emit env e s)
  unfolding emit
  Extends-emit s e h = record { more = e ∷ []; events = refl; inner = (h, tt) }

  Extends-call :
      {A : Type 0} (f : env.World → A × env.World) (s : State env) → Extends s (call env f s).1
  unfolding call
  Extends-call f s = record { more = []; events = rw append-nil; inner = tt }

  -- An emission behind what a state has.
  Extends-emit_after :
      (s t : State env) (e : ProgressEvent) → IsInner e → Extends s t → Extends s (emit env e t)
  Extends-emit_after s t e h k = Extends-trans s t _ k (Extends-emit t e h)

  back_off_until-Extends :
      (fuel deadline : ℕ) (s : State env) → Extends s (back_off_until env fuel deadline s).1
  unfolding back_off_until
  back_off_until-Extends zero deadline s = Extends-refl s
  back_off_until-Extends (suc fuel) deadline s =
      let s1 = (call env env.is_cancelled s).1 in
      let looked = Extends-call env.is_cancelled s in
      let unchanged = Extends-refl s in
      let s2 : State env = record s1 {
        world = env.sleep (min cancel_poll (deadline - env.now s1.world)) s1.world;
      } in
      let slept : Extends s s2 = record {
        more = looked.more;
        events = looked.events;
        inner = looked.inner;
      } in
      let again = Extends-trans s s2 _ slept (back_off_until-Extends fuel deadline s2) in
      ground (arith, unchanged, looked, again)

  back_off-Extends : (n : ℕ) (s : State env) → Extends s (back_off env n s).1
  unfolding back_off
  back_off-Extends n s = back_off_until-Extends (suc n) (env.now s.world + n) s

  report_and_back_off-Extends :
      (path : RelPath) (e : Mtp.MtpError Other) (n : ℕ) (s : State env)
      → Extends s (report_and_back_off env path e n s).1
  unfolding report_and_back_off
  report_and_back_off-Extends path e n s =
      let s1 = (call env env.is_cancelled s).1 in
      let looked = Extends-call env.is_cancelled s in
      let failed = Event.file_failed path (env.to_string (Error.mtp e)) true in
      let told = Extends-emit_after s s1 failed tt looked in
      let waited =
        Extends-trans s (emit env failed s1) _ told (back_off-Extends n (emit env failed s1)) in
      ground (arith, looked, waited)

  read_attempts-Extends :
      (left n : ℕ) (path : RelPath) (offset : ℕ) (s : State env)
      → Extends s (read_attempts env left n path offset s).1
  unfolding read_attempts
  read_attempts-Extends zero n path offset s = Extends-call (env.read path offset) s
  read_attempts-Extends (suc left) n path offset s =
      let (outcome, s1) = call env (env.read path offset) s in
      let tried = Extends-call (env.read path offset) s in
      let waited = λ (e : Mtp.MtpError Other).
        Extends-trans s s1 _ tried (report_and_back_off-Extends path e n s1) in
      let again = λ (e : Mtp.MtpError Other).
        Extends-trans s (report_and_back_off env path e n s1).1 _ (waited e) (
          read_attempts-Extends left (n * 2) path offset (report_and_back_off env path e n s1).1) in
      elim (Option-cases (retryable env outcome)) [
        | inl over ↦ ground (arith, tried)
        | inr (e, more) ↦
            let given_up = waited e in
            let retried = again e in
            elim (Result-cases (report_and_back_off env path e n s1).0) [
              | inl (a, done) ↦ ground (arith, retried)
              | inr (error, failed) ↦ ground (arith, given_up)
            ]
      ]

  write_reporting-Extends :
      (q : WriteRequest) (stream : env.Stream) (s : State env)
      → Extends s (write_reporting env q stream s).1
  unfolding write_reporting
  write_reporting-Extends q stream s = record {
    more = progress q.path q.resume_from (env.write q stream s.world).1;
    events = refl;
    inner = progress-IsInner q.path q.resume_from (env.write q stream s.world).1;
  }

  settle-Extends : (q : WriteRequest) (s : State env) → Extends s (settle env q s).1
  unfolding settle
  settle-Extends q s =
      let (offset, s1) = call env (env.resume_offset q.path q.resume_from) s in
      let probed = Extends-call (env.resume_offset q.path q.resume_from) s in
      elim (Result-cases offset) [
        | inl (n, found) ↦
            let told =
              Extends-emit_after s s1 (Event.file_started q.path q.expected_size n) tt probed in
            ground (arith, told)
        | inr (e, failed) ↦ ground (arith, probed)
      ]

  copy_one-Extends : (q : WriteRequest) (s : State env) → Extends s (copy_one env q s).1
  unfolding copy_one
  copy_one-Extends q s =
      let (raw, s1) = read_with_retry env q.path q.resume_from s in
      let opened = read_attempts-Extends max_read_retries retry_backoff q.path q.resume_from s in
      elim (Result-cases raw) [
        | inr (e, failed) ↦ ground (arith, opened)
        | inl (stream, ready) ↦
            let (written, s2) = write_reporting env q stream s1 in
            let streamed = Extends-trans s s1 s2 opened (write_reporting-Extends q stream s1) in
            let told =
              Extends-emit_after s s2
                (Event.file_finished q.path (sub_u64 q.expected_size q.resume_from)
                  (env.now s2.world - env.now s1.world))
                tt streamed in
            elim (Result-cases written) [
              | inl (u, done) ↦ ground (arith, told)
              | inr (e, failed) ↦ ground (arith, streamed)
            ]
      ]

  fail-Extends :
      (path : RelPath) (e : Error Other) (report : Report) (s : State env)
      → Extends s (fail env path e report s).1
  unfolding fail
  fail-Extends path e report s =
      let unchanged = Extends-refl s in
      let told = Extends-emit s (Event.file_failed path (env.to_string e) false) tt in
      ground (arith, unchanged, told)

  mkdir-Extends :
      (path : RelPath) (report : Report) (s : State env) → Extends s (mkdir env path report s).1
  unfolding mkdir
  mkdir-Extends path report s =
      let (made, s1) = call env (env.mkdir path) s in
      let called = Extends-call (env.mkdir path) s in
      elim (Result-cases made) [
        | inl (u, done) ↦ ground (arith, called)
        | inr (e, failed) ↦
            let told = Extends-trans s s1 _ called (fail-Extends path e report s1) in
            ground (arith, told)
      ]

  skip-Extends :
      (path : RelPath) (reason : SkipReason) (report : Report) (s : State env)
      → Extends s (skip env path reason report s).1
  unfolding skip
  skip-Extends path reason report s = Extends-emit s (Event.skipped path reason) tt

  copy-Extends :
      (q : WriteRequest) (report : Report) (s : State env) → Extends s (copy env q report s).1
  unfolding copy
  copy-Extends q report s =
      let (settled, s1) = settle env q s in
      let probed = settle-Extends q s in
      elim (Result-cases settled) [
        | inr (e, failed) ↦
            let told = Extends-trans s s1 _ probed (fail-Extends q.path e report s1) in
            ground (arith, told)
        | inl (q', ready) ↦
            let (copied, s2) = copy_one env q' s1 in
            let ran = Extends-trans s s1 s2 probed (copy_one-Extends q' s1) in
            elim (Result-cases copied) [
              | inl (n, done) ↦ ground (arith, ran)
              | inr (e, failed) ↦
                  let told = Extends-trans s s2 _ ran (fail-Extends q.path e report s2) in
                  ground (arith, told)
            ]
      ]

  perform-Extends :
      (a : Action) (report : Report) (s : State env) → Extends s (perform env a report s).1
  unfolding perform
  perform-Extends (Plan.mkdir path) report s = mkdir-Extends path report s
  perform-Extends (Plan.skip path reason) report s = skip-Extends path reason report s
  perform-Extends (Plan.copy path size modified resume_from reason) report s =
      copy-Extends (request path size modified resume_from) report s

  pub step-Extends :
      (a : Action) (report : Report) (s : State env) → Extends s (step env a report s).1
  unfolding step
  step-Extends a report s =
      let s1 = (call env env.is_cancelled s).1 in
      let looked = Extends-call env.is_cancelled s in
      let ran = Extends-trans s s1 _ looked (perform-Extends a report s1) in
      ground (arith, looked, ran)
