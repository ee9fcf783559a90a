-- ===== src/Planner/Steps.antt =====
-- The three ways of one step of the planner, for crates/mtpx-core/src/planner.rs.
use mtpx.Base.{
  ◌≡◌, ◌⊎◌, inl, inr, Bool, true, false, [], ◌∷◌, ◌++◌, none, some, Bool-cases, Option-cases,
  Result, ok, arith,
}
use mtpx.Std.Text.{Str}
use mtpx.Path.RelPath.{RelPath, starts_with}
use mtpx.Entry.{Entry}
use mtpx.Snapshot.{Snapshot}
use mtpx.Options
use mtpx.Options.{ConflictPolicy, TransferOptions}
use mtpx.Error.{Error}
use mtpx.Plan.{SkipReason, Plan}
use mtpx.Planner.{
  Partials, DestIndex, NameFolding, Decider, claim, decide, skip, decided, plan, new_index,
  refused_or, collect_conflicts,
}

-- No directory blocks the entry, or one does, or the entry lies past its subtree.
abbrev pub Blocked : Decider → Entry → Bool → Type 0
Blocked d e under =
    (p : RelPath) × (r : SkipReason) × (d.blocked ≡ some (p, r)) × (starts_with e.path p ≡ under)

pub blocked-cases :
    (d : Decider) (e : Entry) → (d.blocked ≡ none) ⊎ (Blocked d e true ⊎ Blocked d e false)
blocked-cases d e = elim (Option-cases d.blocked) [
  | inl free ↦ inl free
  | inr ((p, r), at) ↦ elim (Bool-cases (starts_with e.path p)) [
    | inl under ↦ inr (inl (p, r, at, under))
    | inr past ↦ inr (inr (p, r, at, past))
  ]
]

module _ (lower : Str → Str) (dest : DestIndex) (partials : Partials) (policy : ConflictPolicy)
    (d : Decider) (e : Entry) where
  pub decide-of_none :
      d.blocked ≡ none
      → decide lower dest partials policy d e ≡ claim lower dest partials policy d e
  unfolding decide
  decide-of_none h = ground arith

  pub decide-of_under :
      (p : RelPath) (r : SkipReason)
      → d.blocked ≡ some (p, r)
      → starts_with e.path p ≡ true
      → decide lower dest partials policy d e ≡ record d { files = d.files ++ (skip e r ∷ []) }
  unfolding decide
  decide-of_under p r h k = ground arith

  pub decide-of_past :
      (p : RelPath) (r : SkipReason)
      → d.blocked ≡ some (p, r)
      → starts_with e.path p ≡ false
      → decide lower dest partials policy d e
        ≡ claim lower dest partials policy (record d { blocked = none }) e
  unfolding decide
  decide-of_past p r h k = ground arith

-- A plan that is made is the planner's pass; under `fail` there was no conflict.
pub plan-eq_ok :
    {Other : Type 0} (lower : Str → Str) (source dest : Snapshot) (folding : NameFolding)
    (partials : Partials) (opts : TransferOptions) {p : Plan}
    → ◌≡◌ {A = Result Plan (Error Other)} (plan lower source dest folding partials opts) (ok p)
    → (p ≡ decided lower source (new_index lower dest folding) folding partials opts.conflict)
      × (opts.conflict ≡ Options.fail
          → collect_conflicts lower source (new_index lower dest folding) folding ≡ [])
unfolding plan refused_or
plan-eq_ok lower source dest folding partials opts h = (ground arith, λ k. ground arith)
