-- ===== src/Planner/Sound.antt =====
-- Every action of a plan has its reason in the two snapshots, for crates/mtpx-core/src/planner.rs.
use mtpx.Base.{
  ◌≡◌, inl, inr, refl, List, [], ◌∷◌, ◌++◌, Option, none, some, All, All-append, Elem,
  Elem-append_right, ◌≢◌, ◌⊎◌, ◌∙◌, sym, subst, true, append-nil, append_assoc, Bool-cases, arith,
  Result, ok,
}
use mtpx.Std.Text.{Str}
use mtpx.Path.RelPath.{RelPath, starts_with}
use mtpx.Entry.{Entry, dir, kind-cases}
use mtpx.Snapshot.{Snapshot}
use mtpx.Options.{ConflictPolicy, TransferOptions}
use mtpx.Error.{Error}
use mtpx.Plan.{
  Action, mkdir, SkipReason, identical, conflict, kind_conflict, name_collision, Plan, new_plan,
}
use mtpx.Planner.Steps.{blocked-cases, decide-of_none, decide-of_under, decide-of_past, plan-eq_ok}
use mtpx.Planner.{
  Partials, DestIndex, Decider, get, lookup, decide_file, decide_dir, refuse, place_dir, place,
  claim, decide, decide_all, collides, into_plan, new_decider, skip, NameFolding, plan, decided,
  new_index,
}
use mtpx.Planner.Justified.{IsOther, IsRepeat, IsJustified, decide_file-IsJustified}
use mtpx.Planner.Claimed.{IsClaimed, IsClaimed-more, collides-IsClaimed, collides-owned}

module _ (lower : Str → Str) (source : List Entry) (dest : DestIndex) (folding : NameFolding)
    (partials : Partials) (policy : ConflictPolicy) where
  abbrev Justified : Action → Type 0
  Justified = IsJustified lower source dest folding partials policy

  -- The fault that a reason to refuse names.
  abbrev IsFault : SkipReason → Entry → Type 0
  IsFault identical e = ⊥
  IsFault conflict e = ⊥
  IsFault kind_conflict e = IsOther lower source dest folding partials policy e
  IsFault name_collision e = IsRepeat lower source dest folding partials policy e

  -- The slot holds a directory of the source that has the fault.
  abbrev IsHeld : Option (RelPath × SkipReason) → Type 0
  IsHeld none = Unit
  IsHeld (some (prefix, reason)) =
      (p : Entry) × Elem p source × (p.path ≡ prefix) × (p.kind ≡ dir) × IsFault reason p

  skip-IsJustified :
      (e p : Entry) (r : SkipReason)
      → Elem e source
      → Elem p source
      → (p ≡ e) ⊎ ((p.kind ≡ dir) × (starts_with e.path p.path ≡ true))
      → IsFault r p
      → Justified (skip e r)
  skip-IsJustified e p identical m n at h = absurd h
  skip-IsJustified e p conflict m n at h = absurd h
  skip-IsJustified e p kind_conflict m n at h = (e, m, refl, p, n, at, h)
  skip-IsJustified e p name_collision m n at h = (e, m, refl, p, n, at, h)

  -- A state after the entries `before`.
  record IsSound (before : List Entry) (d : Decider) : Type 0 where
    mkdirs : All Justified d.mkdirs
    files : All Justified d.files
    held : IsHeld d.blocked
    claims : IsClaimed lower folding before d.claims

  push_file :
      (before : List Entry) (d : Decider) (a : Action)
      → Justified a
      → IsSound before d
      → IsSound before (record d { files = d.files ++ (a ∷ []) })
  push_file before d a h s = record {
    mkdirs = s.mkdirs;
    files = All-append _ d.files (a ∷ []) s.files (h, tt);
    held = s.held;
    claims = s.claims;
  }

  refuse-IsSound :
      (before : List Entry) (d : Decider) (e : Entry) (r : SkipReason)
      → Elem e source
      → IsFault r e
      → IsSound before d
      → IsSound before (refuse d e r)
  unfolding refuse
  refuse-IsSound before d e r m h s =
      let s' = push_file before d (skip e r) (skip-IsJustified e e r m m (inl refl) h) s in
      elim (kind-cases e.kind) [
        | inl k ↦
            let same : refuse d e r ≡ record d { files = d.files ++ (skip e r ∷ []) } =
              ground (arith, k) in
            subst (IsSound before) (sym same) s'
        | inr k ↦
            let same : refuse d e r
                ≡ record d { blocked = some (e.path, r); files = d.files ++ (skip e r ∷ []) } =
              ground (arith, k) in
            subst (IsSound before) (sym same) (record {
              mkdirs = s'.mkdirs;
              files = s'.files;
              held = (e, m, refl, k, h);
              claims = s'.claims;
            })
      ]

  place_dir-IsSound :
      (before : List Entry) (d : Decider) (e : Entry) (o : Option Entry)
      → Elem e source
      → e.kind ≡ dir
      → get lower dest e.path ≡ o
      → IsSound before d
      → IsSound before (place_dir lower dest partials policy d e o)
  unfolding place_dir decide_dir
  place_dir-IsSound before d e none m k g s = record {
    mkdirs = All-append _ d.mkdirs (mkdir e.path ∷ []) s.mkdirs ((e, m, refl, k, g), tt);
    files = s.files;
    held = s.held;
    claims = s.claims;
  }
  place_dir-IsSound before d e (some x) m k g s = elim (kind-cases x.kind) [
    | inl at ↦
        let other : x.kind ≢ e.kind = λ h. ground arith in
        rw at (refuse-IsSound before d e kind_conflict m (x, g, other) s)
    | inr at ↦ rw at s
  ]

  place-IsSound :
      (before : List Entry) (d : Decider) (e : Entry)
      → Elem e source
      → IsSound before d
      → IsSound before (place lower dest partials policy d e)
  unfolding place
  place-IsSound before d e m s = elim (kind-cases e.kind) [
    | inl k ↦
        let o = get lower dest e.path in
        let a = decide_file e o (lookup e.path partials) policy in
        let justified =
          decide_file-IsJustified lower source dest folding partials policy e m k o refl in
        let same : place lower dest partials policy d e ≡ record d { files = d.files ++ (a ∷ []) } =
          ground (arith, k) in
        subst (IsSound before) (sym same) (push_file before d a justified s)
    | inr k ↦
        let o = get lower dest e.path in
        let same : place lower dest partials policy d e
            ≡ place_dir lower dest partials policy d e o =
          ground (arith, k) in
        subst (IsSound before) (sym same) (place_dir-IsSound before d e o m k refl s)
  ]

  claim-IsSound :
      (before after : List Entry) (d : Decider) (e : Entry)
      → source ≡ before ++ (e ∷ after)
      → Elem e source
      → IsSound before d
      → IsSound (before ++ (e ∷ [])) (claim lower dest partials policy d e)
  unfolding claim
  claim-IsSound before after d e here m s =
      let d' : Decider = record d { claims = (collides lower d.claims e).0 } in
      let s' : IsSound (before ++ (e ∷ [])) d' = record {
        mkdirs = s.mkdirs;
        files = s.files;
        held = s.held;
        claims = collides-IsClaimed lower folding before e d.claims s.claims;
      } in
      elim (Bool-cases (collides lower d.claims e).1) [
        | inl hit ↦
            let (folds, (q, before_it, same, is_file)) =
              collides-owned lower folding before e d.claims s.claims hit in
            rw hit (
              refuse-IsSound (before ++ (e ∷ [])) d' e name_collision m
                (folds, before, after, here, q, before_it, same, is_file) s')
        | inr free ↦ rw free (place-IsSound (before ++ (e ∷ [])) d' e m s')
      ]

  decide-IsSound :
      (before after : List Entry) (d : Decider) (e : Entry)
      → source ≡ before ++ (e ∷ after)
      → Elem e source
      → IsSound before d
      → IsSound (before ++ (e ∷ [])) (decide lower dest partials policy d e)
  decide-IsSound before after d e here m s = elim (blocked-cases d e) [
    | inl free ↦
        rw (decide-of_none lower dest partials policy d e free)
          (claim-IsSound before after d e here m s)
    | inr (inl (p, r, at, under)) ↦
        let (f, n, its_path, is_dir, fault) = subst IsHeld at s.held in
        let beneath : starts_with e.path f.path ≡ true =
          subst (λ q. starts_with e.path q ≡ true) (sym its_path) under in
        rw (decide-of_under lower dest partials policy d e p r at under) (
          push_file (before ++ (e ∷ [])) d (skip e r)
            (skip-IsJustified e f r m n (inr (is_dir, beneath)) fault)
            (record {
              mkdirs = s.mkdirs;
              files = s.files;
              held = s.held;
              claims = IsClaimed-more lower folding before e d.claims s.claims;
            }))
    | inr (inr (p, r, at, past)) ↦ rw (decide-of_past lower dest partials policy d e p r at past) (
        claim-IsSound before after (record d { blocked = none }) e here m
          (record { mkdirs = s.mkdirs; files = s.files; held = tt; claims = s.claims }))
  ]

  decide_all-IsSound :
      (before : List Entry) (d : Decider) (es : List Entry)
      → source ≡ before ++ es
      → IsSound before d
      → IsSound source (decide_all lower dest partials policy d es)
  unfolding decide_all
  decide_all-IsSound before d [] here s =
      subst (λ l. IsSound l d) (sym (here ∙ append-nil before)) s
  decide_all-IsSound before d (e ∷ es) here s =
      let m : Elem e source =
        subst (Elem e) (sym here) (Elem-append_right e before (e ∷ es) (inl refl)) in
      decide_all-IsSound (before ++ (e ∷ [])) (decide lower dest partials policy d e) es
        (here ∙ sym (append_assoc before (e ∷ []) es)) (decide-IsSound before es d e here m s)

  decided-IsJustified :
      All Justified
        (into_plan
          (decide_all lower dest partials policy (new_decider lower folding) source)).actions
  unfolding into_plan new_plan
  decided-IsJustified =
      let s = decide_all-IsSound [] (new_decider lower folding) source refl (record {
        mkdirs = tt;
        files = tt;
        held = tt;
        claims = record { folding_is = refl; owned = tt };
      }) in
      All-append _ _ _ s.mkdirs s.files

-- Every action of a plan that is made has its reason: a directory is made for a directory of the
-- source where the destination has nothing; a file is copied where the destination has nothing or,
-- unless the policy is `skip`, a file of another size; the offset is at most the size, and is zero
-- or what a partial with the file's size and time holds; a file is skipped as identical where the
-- destination has a file of its size, and as a conflict only under `skip`, where the sizes differ. An
-- entry is skipped as a kind conflict where the destination has something of another kind at its path,
-- or at the path of a directory of the source above it; and as a name collision where the destination
-- takes no account of case and the entry, or a directory of the source above it, has the path, but for
-- its case, of an entry further up, one of the two being a file.
pub plan-IsJustified :
    {Other : Type 0} (lower : Str → Str) (source dest : Snapshot) (folding : NameFolding)
    (partials : Partials) (opts : TransferOptions) {p : Plan}
    → ◌≡◌ {A = Result Plan (Error Other)} (plan lower source dest folding partials opts) (ok p)
    → All
        (IsJustified lower source.entries
          (new_index lower dest folding)
          folding
          partials
          opts.conflict)
        p.actions
unfolding decided
plan-IsJustified lower source dest folding partials opts {p} h =
    let made = (plan-eq_ok lower source dest folding partials opts h).0 in
    rw made (
      decided-IsJustified lower source.entries (new_index lower dest folding) folding partials
        opts.conflict)
