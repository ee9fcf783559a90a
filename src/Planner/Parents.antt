-- ===== src/Planner/Parents.antt =====
-- The directories above a copy, for crates/mtpx-core/src/planner.rs.
use mtpx.Base.{
  ◌≡◌, ◌⊎◌, inl, inr, refl, ◌∙◌, sym, subst, true, List, [], ◌++◌, All, All-append, All-map,
  nat_ord, list_ord, arith, Result, ok,
}
use mtpx.Std.Text.{Str}
use mtpx.Path.RelPath.{RelPath, starts_with}
use mtpx.Entry.{Entry, dir}
use mtpx.Snapshot.{Snapshot}
use mtpx.Snapshot.Sorted.{IsSorted}
use mtpx.Options.{ConflictPolicy, TransferOptions}
use mtpx.Error.{Error}
use mtpx.Plan
use mtpx.Plan.{Action, mkdir, Plan, SkipReason, new_plan, kind_conflict, name_collision}
use mtpx.Planner.{
  Partials, DestIndex, NameFolding, new_decider, new_index, into_plan, decided, plan,
}
use mtpx.Planner.Steps.{plan-eq_ok}
use mtpx.Planner.Subtrees.{decide_remembering, decide_all-eq_remembering}
use mtpx.Planner.Above.{IsUnder, reason_above-trans, IsFree, IsMkdir, HasDir}
use mtpx.Planner.Placed.{HasDir-append, decide_remembering-IsPlaced}

-- The directories above every copy of a plan.
abbrev pub HasParents : (Str → Str) → DestIndex → List Entry → List Action → Action → Type 0
HasParents lower dest source actions (Plan.copy path size modified resume_from reason) =
    All (λ e. e.kind ≡ dir → starts_with path e.path ≡ true → HasDir lower dest e.path actions)
      source
HasParents lower dest source actions (mkdir path) = Unit
HasParents lower dest source actions (Plan.skip path reason) = Unit

HasParents-IsFree :
    (lower : Str → Str) (dest : DestIndex) (actions : List Action)
    (all : List (RelPath × SkipReason)) (source : List Entry)
    → All (λ e. e.kind ≡ dir → HasDir lower dest e.path actions ⊎ IsUnder all e.path) source
    → (a : Action) → IsFree all a
    → HasParents lower dest source actions a
HasParents-IsFree lower dest actions all source dirs (mkdir path) h = tt
HasParents-IsFree lower dest actions all source dirs (Plan.skip path reason) h = tt
HasParents-IsFree lower dest actions all source dirs
      (Plan.copy path size modified resume_from reason) h =
    All-map _ _
      (λ e d k above. elim (d k) [
        | inl has ↦ has
        | inr under ↦
            let (r, at) = reason_above-trans all e.path path above under in
            absurd (ground (arith, h, at))
      ])
      source dirs

IsMkdir-HasParents :
    (lower : Str → Str) (dest : DestIndex) (source : List Entry) (actions : List Action)
    (a : Action)
    → IsMkdir a
    → HasParents lower dest source actions a
IsMkdir-HasParents lower dest source actions (mkdir path) h = tt
IsMkdir-HasParents lower dest source actions (Plan.skip path reason) h = tt
IsMkdir-HasParents lower dest source actions (Plan.copy path size modified resume_from reason) h =
    absurd h

remembering-HasParents :
    (lower : Str → Str) (dest : DestIndex) (folding : NameFolding) (partials : Partials)
    (policy : ConflictPolicy) (source : List Entry)
    → IsSorted source
    → let actions =
        (into_plan (
          decide_remembering lower dest partials policy
            (new_decider lower folding)
            []
            source)).actions in
      All (HasParents lower dest source actions) actions
unfolding into_plan new_plan
remembering-HasParents lower dest folding partials policy source sorted =
    let start = new_decider lower folding in
    let d' = decide_remembering lower dest partials policy start [] source in
    let k = decide_remembering-IsPlaced lower dest partials policy start [] source refl sorted in
    let actions = d'.mkdirs ++ d'.files in
    let dirs =
      All-map _ (λ e. e.kind ≡ dir → HasDir lower dest e.path actions ⊎ IsUnder k.all e.path)
        (λ e d i. elim (d i) [
          | inl has ↦ inl (HasDir-append lower dest partials policy e.path d'.mkdirs d'.files has)
          | inr under ↦ inr under
        ])
        source k.dirs in
    All-append _ d'.mkdirs d'.files
      (subst (All (HasParents lower dest source actions)) (sym k.mkdirs)
        (All-map _ _ (IsMkdir-HasParents lower dest source actions) k.m k.only))
      (subst (All (HasParents lower dest source actions)) (sym k.files)
        (All-map _ _ (HasParents-IsFree lower dest actions k.all source dirs) k.f k.copies))

-- Where the source lists its entries in path order, every directory of the source above a copied
-- file is a directory of the destination already or is made by the plan.
pub plan-HasParents :
    {Other : Type 0} (lower : Str → Str) (source dest : Snapshot) (folding : NameFolding)
    (partials : Partials) (opts : TransferOptions) {p : Plan}
    → IsSorted source.entries
    → ◌≡◌ {A = Result Plan (Error Other)} (plan lower source dest folding partials opts) (ok p)
    → All (HasParents lower (new_index lower dest folding) source.entries p.actions) p.actions
unfolding decided
plan-HasParents lower source dest folding partials opts {p} sorted h =
    let index = new_index lower dest folding in
    let (made', none_found) = plan-eq_ok lower source dest folding partials opts h in
    let same =
      made'
      ∙ decide_all-eq_remembering lower index folding partials opts.conflict source.entries
          sorted in
    subst (λ (x : Plan). All (HasParents lower index source.entries x.actions) x.actions) (sym same)
      (remembering-HasParents lower index folding partials opts.conflict source.entries sorted)
