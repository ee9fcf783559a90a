-- ===== src/Planner/Coverage.antt =====
-- What the planner leaves out: nothing. For crates/mtpx-core/src/planner.rs.
use mtpx.Base.{
  ◌≡◌, inl, inr, refl, ap, ◌∙◌, List, [], ◌∷◌, ◌++◌, append-nil, append_assoc, Option, none, some,
  Bool-cases, arith, Result, ok,
}
use mtpx.Std.Text.{Str}
use mtpx.Path.RelPath.{RelPath}
use mtpx.Entry.{Entry, file, dir, kind-cases}
use mtpx.Snapshot.{Snapshot}
use mtpx.Options.{ConflictPolicy, TransferOptions}
use mtpx.Error.{Error}
use mtpx.Plan
use mtpx.Plan.{Action, mkdir, Plan, SkipReason, new_plan, kind_conflict, name_collision}
use mtpx.Planner.{
  Partials, DestIndex, NameFolding, Decider, get, lookup, collides, decide_conflict, decide_file,
  decide_dir, place_dir, place, claim, refuse, decide, decide_all, new_decider, new_index,
  into_plan, decided, plan, skip,
}
use mtpx.Planner.Steps.{blocked-cases, decide-of_none, decide-of_under, decide-of_past, plan-eq_ok}

-- The action copies the entry as the source lists it, or skips it.
abbrev pub IsOf : Entry → Action → Type 0
IsOf e (Plan.copy path size modified resume_from reason) =
    (e.kind ≡ file) × (path ≡ e.path) × (size ≡ e.size) × (modified ≡ e.modified)
IsOf e (Plan.skip path reason) = path ≡ e.path
IsOf e (mkdir path) = ⊥

-- What one entry adds to the directories that are made and to the other actions, by what the
-- destination has at its path.
pub data Share (at : RelPath → Option Entry) (e : Entry) : List Action → List Action → Type 0 where
  made : e.kind ≡ dir → at e.path ≡ none → Share at e (mkdir e.path ∷ []) []
  there : (x : Entry) → e.kind ≡ dir → at e.path ≡ some x → x.kind ≡ dir → Share at e [] []
  acted : (a : Action) → IsOf e a → Share at e [] (a ∷ [])

-- Every entry adds its share, in the order of the entries.
pub data Covers (IsShare : Entry → List Action → List Action → Type 0)
    : List Entry → List Action → List Action → Type 0 where
  done : Covers IsShare [] [] []
  next :
      {e : Entry} {es : List Entry} {m m' f f' : List Action}
      → IsShare e m f
      → Covers IsShare es m' f'
      → Covers IsShare (e ∷ es) (m ++ m') (f ++ f')

module _ (lower : Str → Str) (dest : DestIndex) (partials : Partials)
    (policy : ConflictPolicy) where
  -- What stands behind the lists of the first state in those of the second.
  pub record IsShared (d d' : Decider) (e : Entry) : Type 0 where
    pub m : List Action
    pub f : List Action
    pub mkdirs : d'.mkdirs ≡ d.mkdirs ++ m
    pub files : d'.files ≡ d.files ++ f
    pub share : Share (get lower dest) e m f

  push_share :
      (d : Decider) (e : Entry) (a : Action)
      → IsOf e a
      → IsShared d (record d { files = d.files ++ (a ∷ []) }) e
  push_share d e a h = record {
    m = [];
    f = a ∷ [];
    mkdirs = rw append-nil;
    files = refl;
    share = acted a h;
  }

  refuse-IsShared : (d : Decider) (e : Entry) (r : SkipReason) → IsShared d (refuse d e r) e
  unfolding refuse
  refuse-IsShared d e r =
      let s = push_share d e (skip e r) refl in
      record {
        m = s.m;
        f = s.f;
        mkdirs = ground (arith, s.mkdirs);
        files = ground (arith, s.files);
        share = s.share;
      }

  decide_file-IsOf :
      (e : Entry) (o : Option Entry)
      → e.kind ≡ file
      → IsOf e (decide_file e o (lookup e.path partials) policy)
  unfolding decide_file decide_conflict
  decide_file-IsOf e o k = ground (arith, k)

  place_dir-IsShared :
      (d : Decider) (e : Entry) (o : Option Entry)
      → e.kind ≡ dir
      → get lower dest e.path ≡ o
      → IsShared d (place_dir lower dest partials policy d e o) e
  unfolding place_dir decide_dir
  place_dir-IsShared d e none k g = record {
    m = mkdir e.path ∷ [];
    f = [];
    mkdirs = refl;
    files = rw append-nil;
    share = made k g;
  }
  place_dir-IsShared d e (some x) k g = elim (kind-cases x.kind) [
    | inl at ↦ rw at (refuse-IsShared d e kind_conflict)
    | inr at ↦ rw at (record {
      m = [];
      f = [];
      mkdirs = rw append-nil;
      files = rw append-nil;
      share = there x k g at;
    })
  ]

  place-IsShared : (d : Decider) (e : Entry) → IsShared d (place lower dest partials policy d e) e
  unfolding place
  place-IsShared d e = elim (kind-cases e.kind) [
    | inl k ↦
        let s = push_share d e _ (decide_file-IsOf e (get lower dest e.path) k) in
        record {
          m = s.m;
          f = s.f;
          mkdirs = ground (arith, s.mkdirs);
          files = ground (arith, s.files);
          share = s.share;
        }
    | inr k ↦
        let s = place_dir-IsShared d e (get lower dest e.path) k refl in
        record {
          m = s.m;
          f = s.f;
          mkdirs = ground (arith, s.mkdirs);
          files = ground (arith, s.files);
          share = s.share;
        }
  ]

  pub claim-IsShared :
      (d : Decider) (e : Entry) → IsShared d (claim lower dest partials policy d e) e
  unfolding claim
  claim-IsShared d e =
      let d' : Decider = record d { claims = (collides lower d.claims e).0 } in
      elim (Bool-cases (collides lower d.claims e).1) [
        | inl hit ↦
            let s = refuse-IsShared d' e name_collision in
            rw hit
              (record { m = s.m; f = s.f; mkdirs = s.mkdirs; files = s.files; share = s.share })
        | inr free ↦
            let s = place-IsShared d' e in
            rw free
              (record { m = s.m; f = s.f; mkdirs = s.mkdirs; files = s.files; share = s.share })
      ]

  decide-IsShared : (d : Decider) (e : Entry) → IsShared d (decide lower dest partials policy d e) e
  decide-IsShared d e = elim (blocked-cases d e) [
    | inl free ↦ rw (decide-of_none lower dest partials policy d e free) (claim-IsShared d e)
    | inr (inl (p, r, at, under)) ↦
        rw (decide-of_under lower dest partials policy d e p r at under)
          (push_share d e (skip e r) refl)
    | inr (inr (p, r, at, past)) ↦
        let s = claim-IsShared (record d { blocked = none }) e in
        rw (decide-of_past lower dest partials policy d e p r at past)
          (record { m = s.m; f = s.f; mkdirs = s.mkdirs; files = s.files; share = s.share })
  ]

  record IsCovered (d d' : Decider) (es : List Entry) : Type 0 where
    pub m : List Action
    pub f : List Action
    pub mkdirs : d'.mkdirs ≡ d.mkdirs ++ m
    pub files : d'.files ≡ d.files ++ f
    covers : Covers (Share (get lower dest)) es m f

  decide_all-IsCovered :
      (d : Decider) (es : List Entry) → IsCovered d (decide_all lower dest partials policy d es) es
  unfolding decide_all
  decide_all-IsCovered d [] = record {
    m = [];
    f = [];
    mkdirs = rw append-nil;
    files = rw append-nil;
    covers = done;
  }
  decide_all-IsCovered d (e ∷ es) =
      let s = decide-IsShared d e in
      let t = decide_all-IsCovered (decide lower dest partials policy d e) es in
      record {
        m = s.m ++ t.m;
        f = s.f ++ t.f;
        mkdirs = t.mkdirs ∙ ap (λ l. l ++ t.m) s.mkdirs ∙ append_assoc d.mkdirs s.m t.m;
        files = t.files ∙ ap (λ l. l ++ t.f) s.files ∙ append_assoc d.files s.f t.f;
        covers = next s.share t.covers;
      }

-- A plan that is made covers the source: the directories to make come first, then the other
-- actions, both in the order of the source. Every file has exactly one action, a copy of the file
-- as it is listed or a skip; a directory is made where the destination has nothing, or skipped, or the
-- destination has a directory there already.
pub plan-Covers :
    {Other : Type 0} (lower : Str → Str) (source dest : Snapshot) (folding : NameFolding)
    (partials : Partials) (opts : TransferOptions) {p : Plan}
    → ◌≡◌ {A = Result Plan (Error Other)} (plan lower source dest folding partials opts) (ok p)
    → (m f : List Action) × (p.actions ≡ m ++ f)
      × Covers (Share (get lower (new_index lower dest folding))) source.entries m f
unfolding decided into_plan new_plan
plan-Covers lower source dest folding partials opts h =
    let (made', none_found) = plan-eq_ok lower source dest folding partials opts h in
    let c =
      decide_all-IsCovered lower (new_index lower dest folding) partials opts.conflict
        (new_decider lower folding) source.entries in
    (c.m, c.f, rw (made', c.mkdirs, c.files) refl, c.covers)
