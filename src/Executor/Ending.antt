-- ===== src/Executor/Ending.antt =====
-- How a run ends, for crates/mtpx-core/src/internal/executor.rs: its last events, and its totals.
use mtpx.Base.{
  ℕ, ◌+◌, ◌≤◌, ◌≡◌, ◌⊎◌, inl, inr, refl, ap, subst, ◌∙◌, sym, true, false, List, [], ◌∷◌, ◌++◌,
  length, append_assoc, Result, ok, err, Result-cases, arith, All, All-append,
}
use mtpx.Error.{Error}
use mtpx.Plan
use mtpx.Plan.{Action, Plan}
use mtpx.Plan.Totals.{copies, skips, total}
use mtpx.Event
use mtpx.Event.{ProgressEvent, Report, empty_report}
use mtpx.Endpoint.{Env}
use mtpx.Executor.{
  State, Stop, interrupted, aborted, emit, step, finish, interrupt, abort, stop_run, run_from, run,
  aborts_batch, remaining_copies, timed,
}
use mtpx.Executor.Trace.{IsInner, Extends, step-Extends}
use mtpx.Executor.Accounting.{IsCounted, step-IsCounted, settled_files}

-- The totals of a run over all its actions, from a report at its start: every skip is counted once,
-- every copy is counted as copied or failed, and nothing else but a directory can fail.
abbrev pub IsFull : Report → List Action → Report → Type 0
IsFull start l report =
    (report.skipped ≡ start.skipped + total skips l)
    × (report.copied ≤ start.copied + total copies l)
    × (settled_files start + total copies l ≤ settled_files report)
    × (settled_files report + total skips l ≤ settled_files start + length l)

-- The totals of a run that stopped at an action, with so many failures for that action: those of a run
-- over the actions before it, and `n` is the number of copies from that action on.
abbrev pub IsCut : Report → List Action → ℕ → Report → ℕ → Type 0
IsCut start l here report n =
    (before : List Action) × (a : Action) × (after : List Action) × (l ≡ before ++ (a ∷ after))
    × (n ≡ total copies (a ∷ after))
    × (report.skipped ≡ start.skipped + total skips before)
    × (report.copied ≤ start.copied + total copies before)
    × (settled_files start + total copies before + here ≤ settled_files report)
    × (settled_files report + total skips before ≤ settled_files start + length before + here)

-- The last events of a run, for each result.
abbrev pub IsEnding :
    {Other : Type 0}
    → Report
    → List Action
    → Result Report (Error Other)
    → List ProgressEvent
    → Type 0
IsEnding start l (ok report) last =
    ((report.interrupted ≡ false) × (last ≡ Event.finished report ∷ []) × IsFull start l report)
    ⊎ ((n : ℕ) × (report.interrupted ≡ true)
        × (last ≡ Event.interrupted n ∷ Event.finished report ∷ [])
        × IsCut start l 0 report n)
IsEnding start l (err e) last =
    (report : Report) × (n : ℕ) × (aborts_batch e ≡ true)
    × (last ≡ Event.aborted report n ∷ [])
    × IsCut start l 1 report n

remaining_copies-eq_total : (l : List Action) → remaining_copies l ≡ total copies l
unfolding remaining_copies
remaining_copies-eq_total [] = refl
remaining_copies-eq_total (Plan.mkdir path ∷ l) = omega (arith, remaining_copies-eq_total l)
remaining_copies-eq_total (Plan.skip path reason ∷ l) = omega (arith, remaining_copies-eq_total l)
remaining_copies-eq_total (Plan.copy path size modified offset reason ∷ l) =
    omega (arith, remaining_copies-eq_total l)

IsCut-step :
    (a : Action) (l : List Action) (start mid : Report) (here : ℕ) (report : Report) (n : ℕ)
    → (mid.skipped ≡ start.skipped + skips a)
    → (mid.copied ≤ start.copied + copies a)
    → (settled_files start + copies a ≤ settled_files mid)
    → (settled_files mid + skips a ≤ settled_files start + 1)
    → IsCut mid l here report n
    → IsCut start (a ∷ l) here report n
IsCut-step a l start mid here report n h1 h2 h3 h4 (before, b, after, e, left, k1, k2, k3, k4) = (
  a ∷ before,
  b,
  after,
  ap (λ x. a ∷ x) e,
  left,
  omega arith,
  omega arith,
  omega arith,
  omega arith,
)

-- An action in front of the totals of the rest.
IsEnding-step :
    {Other : Type 0} (a : Action) (l : List Action) (start mid : Report)
    (r : Result Report (Error Other)) (last : List ProgressEvent)
    → (mid.skipped ≡ start.skipped + skips a)
    → (mid.copied ≤ start.copied + copies a)
    → (settled_files start + copies a ≤ settled_files mid)
    → (settled_files mid + skips a ≤ settled_files start + 1)
    → IsEnding mid l r last
    → IsEnding start (a ∷ l) r last
IsEnding-step a l start mid (ok report) last h1 h2 h3 h4 (inl (i, e, f)) = inl (i, e, omega arith)
IsEnding-step a l start mid (ok report) last h1 h2 h3 h4 (inr (n, i, e, f)) =
    inr (n, i, e, IsCut-step a l start mid 0 report n h1 h2 h3 h4 f)
IsEnding-step a l start mid (err e) last h1 h2 h3 h4 (report, n, fatal, k, f) =
    (report, n, fatal, k, IsCut-step a l start mid 1 report n h1 h2 h3 h4 f)

module _ {Other : Type 0} (env : Env Other) where
  -- The events that a run adds: inner ones, and then its last ones.
  pub record IsTraced (start : Report) (l : List Action) (s : State env)
      (r : Result Report (Error Other) × State env) : Type 0 where
    pub more : List ProgressEvent
    pub last : List ProgressEvent
    pub events : r.1.events ≡ s.events ++ (more ++ last)
    pub inner : All IsInner more
    pub ending : IsEnding start l r.0 last

  stop_run-IsTraced :
      (a : Action) (l : List Action) (stop : Stop Other) (report report' : Report) (since : ℕ)
      (s : State env)
      → IsCounted env a report (err stop) report'
      → IsTraced report (a ∷ l) s (stop_run env stop (remaining_copies (a ∷ l)) report' since s)
  unfolding stop_run interrupt finish abort emit
  stop_run-IsTraced a l interrupted report report' since s h = record {
    more = [];
    last = _ ∷ _ ∷ [];
    events = append_assoc s.events _ _;
    inner = tt;
    ending = inr (
      remaining_copies (a ∷ l),
      refl,
      refl,
      subst
          (λ (x : Report).
            IsCut report (a ∷ l) 0 (record x { interrupted = true }) (remaining_copies (a ∷ l)))
          (sym h)
          (
            [],
            a,
            l,
            refl,
            remaining_copies-eq_total (a ∷ l),
            omega arith,
            omega arith,
            omega arith,
            omega arith,
          ),
    );
  }
  stop_run-IsTraced a l (aborted e) report report' since s h = record {
    more = [];
    last = _ ∷ [];
    events = refl;
    inner = tt;
    ending = (
      timed env report' since s,
      remaining_copies (a ∷ l),
      h.0,
      refl,
      (
        [],
        a,
        l,
        refl,
        remaining_copies-eq_total (a ∷ l),
        omega (arith, h),
        omega (arith, h),
        omega (arith, h),
        omega (arith, h),
      ),
    );
  }

  -- The events of a step in front of a run.
  IsTraced-after :
      (start : Report) (l : List Action) (s t : State env)
      (r : Result Report (Error Other) × State env)
      → Extends env s t
      → IsTraced start l t r
      → IsTraced start l s r
  IsTraced-after start l s t r h k = record {
    more = h.more ++ k.more;
    last = k.last;
    events =
        k.events
        ∙ ap (λ x. x ++ (k.more ++ k.last)) h.events
        ∙ append_assoc s.events h.more (k.more ++ k.last)
        ∙ ap (λ x. s.events ++ x) (sym (append_assoc h.more k.more k.last));
    inner = All-append _ h.more k.more h.inner k.inner;
    ending = k.ending;
  }

  IsTraced-step :
      (start mid : Report) (a : Action) (l : List Action) (s : State env)
      (r : Result Report (Error Other) × State env)
      → IsCounted env a start (ok tt) mid
      → IsTraced mid l s r
      → IsTraced start (a ∷ l) s r
  IsTraced-step start mid a l s r c k = record {
    more = k.more;
    last = k.last;
    events = k.events;
    inner = k.inner;
    ending = IsEnding-step a l start mid r.0 k.last c.1 c.2 c.3 c.4 k.ending;
  }

  run_from-IsTraced :
      (since : ℕ) (l : List Action) (report : Report) (s : State env)
      → report.interrupted ≡ false
      → IsTraced report l s (run_from env since l report s)
  unfolding run_from
  run_from-IsTraced since [] report s h =
      unfold finish emit in
      record {
        more = [];
        last = _ ∷ [];
        events = refl;
        inner = tt;
        ending = inl (h, refl, omega arith);
      }
  run_from-IsTraced since (a ∷ rest) report s h =
      let ((outcome, report'), s') = step env a report s in
      let counted = step-IsCounted env a report s in
      let ran = step-Extends env a report s in
      elim (Result-cases outcome) [
        | inl (u, o) ↦
            let c = subst (λ x. IsCounted env a report x report') o counted in
            let next = run_from-IsTraced since rest report' s' (c.0 ∙ h) in
            subst (IsTraced report (a ∷ rest) s) (sym (rw (o, run_from) refl)) (
              IsTraced-after report (a ∷ rest) s s' _ ran
                (IsTraced-step report report' a rest s' _ c next))
        | inr (stop, o) ↦
            let c = subst (λ x. IsCounted env a report x report') o counted in
            subst (IsTraced report (a ∷ rest) s) (sym (rw (o, run_from) refl)) (
              IsTraced-after report (a ∷ rest) s s' _ ran
                (stop_run-IsTraced a rest stop report report' since s' c))
      ]

-- A run ends in one of three ways, and its events say which. If it returns a report that is not
-- interrupted, the last event is `Finished` with that report, in which every planned skip is counted
-- once and every planned copy is counted as copied or failed. If the report is interrupted, the last
-- events are `Interrupted` with a number of copies and `Finished`. If it returns an error, that error
-- aborts a batch, and the last event is `Aborted` with a number of copies. In these two cases the run
-- stopped at an action: every skip before it is counted once, every copy before it is counted as copied
-- or failed, an error is one more failure, and the number is that of the copies from that action on,
-- itself included. No other event ends anything.
pub run-IsTraced :
    {Other : Type 0} (env : Env Other) (plan : Plan) (s : State env)
    → IsTraced env empty_report plan.actions s (run env plan s)
unfolding run
run-IsTraced env plan s = run_from-IsTraced env _ plan.actions empty_report s refl
