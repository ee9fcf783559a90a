-- ===== src/Planner/Refusal.antt =====
-- The policy `fail`, for crates/mtpx-core/src/planner.rs: what a plan holds that was not refused.
use mtpx.Base.{
  ◌≡◌, inl, inr, refl, ap, subst, ◌∙◌, sym, false, not, List, [], ◌∷◌, ◌++◌, Option, none, some, ℕ,
  append-nil, append_assoc, nat_eq_iff, arith, Result, ok,
}
use mtpx.Std.Text.{Str}
use mtpx.Path.RelPath.{RelPath}
use mtpx.Entry.{Entry, file, dir, kind_eq, kind-cases}
use mtpx.Snapshot.{Snapshot}
use mtpx.Options
use mtpx.Options.{ConflictPolicy, TransferOptions}
use mtpx.Error.{Error}
use mtpx.Plan
use mtpx.Plan.{Action, mkdir, Plan, new_plan, identical}
use mtpx.Planner.{
  Partials, DestIndex, NameFolding, Claims, Decider, get, lookup, collides, is_some_conflict,
  conflicts_from, collect_conflicts, decide_file, decide_dir, place_dir, place, claim, skip, copy,
  resume_offset, decide_all, new_decider, new_index, into_plan, decided, plan,
}
use mtpx.Planner.Steps.{decide-of_none, plan-eq_ok}
use mtpx.Planner.Justified.{IsResumable, resume_offset-IsResumable}
use mtpx.Planner.Coverage.{Covers, done, next}

-- What one entry adds to a plan that overwrites nothing and leaves nothing behind: a directory is made
-- where the destination has nothing, or it is there; a file is copied where the destination has
-- nothing, or skipped where the destination has a file of its size.
pub data PlainShare (at : RelPath → Option Entry) (partials : Partials) (e : Entry)
    : List Action → List Action → Type 0 where
  plain_made : e.kind ≡ dir → at e.path ≡ none → PlainShare at partials e (mkdir e.path ∷ []) []
  plain_there :
      (x : Entry)
      → e.kind ≡ dir
      → at e.path ≡ some x
      → x.kind ≡ dir
      → PlainShare at partials e [] []
  plain_copied :
      (offset : ℕ)
      → e.kind ≡ file
      → at e.path ≡ none
      → IsResumable (lookup e.path partials) e.size e.modified offset
      → PlainShare at partials e [] (Plan.copy e.path e.size e.modified offset Plan.new ∷ [])
  plain_kept :
      (x : Entry)
      → e.kind ≡ file
      → at e.path ≡ some x
      → x.kind ≡ file
      → x.size ≡ e.size
      → PlainShare at partials e [] (Plan.skip e.path identical ∷ [])

module _ (lower : Str → Str) (dest : DestIndex) (partials : Partials)
    (policy : ConflictPolicy) where
  abbrev IsPlainShare : Entry → List Action → List Action → Type 0
  IsPlainShare = PlainShare (get lower dest) partials

  -- A step that nothing blocks, and that blocks nothing.
  record IsPlainStep (c : Claims) (d d' : Decider) (e : Entry) : Type 0 where
    claims : d'.claims ≡ c
    blocked : d'.blocked ≡ none
    m : List Action
    f : List Action
    mkdirs : d'.mkdirs ≡ d.mkdirs ++ m
    files : d'.files ≡ d.files ++ f
    share : IsPlainShare e m f

  place_file-IsPlain :
      (d : Decider) (e : Entry) (o : Option Entry)
      → e.kind ≡ file
      → get lower dest e.path ≡ o
      → is_some_conflict lower e o ≡ false
      → d.blocked ≡ none
      → IsPlainStep d.claims d
          (record d { files = d.files ++ (decide_file e o (lookup e.path partials) policy ∷ []) })
          e
  unfolding decide_file is_some_conflict
  place_file-IsPlain d e none k g h free = record {
    claims = refl;
    blocked = free;
    m = [];
    f = copy e Plan.new (resume_offset e (lookup e.path partials)) ∷ [];
    mkdirs = rw append-nil;
    files = refl;
    share = plain_copied _ k g (resume_offset-IsResumable e (lookup e.path partials));
  }
  place_file-IsPlain d e (some x) k g h free =
      let alike : not (kind_eq x.kind e.kind) ≡ false = ground arith in
      let its_kind : x.kind ≡ file = ground arith in
      let its_size : x.size ≡ e.size = ground (arith, nat_eq_iff e.size x.size) in
      rw (alike, h)
        (record {
          claims = refl;
          blocked = free;
          m = [];
          f = skip e identical ∷ [];
          mkdirs = rw append-nil;
          files = refl;
          share = plain_kept x k g its_kind its_size;
        })

  place_dir-IsPlain :
      (d : Decider) (e : Entry) (o : Option Entry)
      → e.kind ≡ dir
      → get lower dest e.path ≡ o
      → is_some_conflict lower e o ≡ false
      → d.blocked ≡ none
      → IsPlainStep d.claims d (place_dir lower dest partials policy d e o) e
  unfolding place_dir decide_dir is_some_conflict
  place_dir-IsPlain d e none k g h free = record {
    claims = refl;
    blocked = free;
    m = mkdir e.path ∷ [];
    f = [];
    mkdirs = refl;
    files = rw append-nil;
    share = plain_made k g;
  }
  place_dir-IsPlain d e (some x) k g h free =
      let its_kind : x.kind ≡ dir = ground arith in
      rw its_kind (record {
        claims = refl;
        blocked = free;
        m = [];
        f = [];
        mkdirs = rw append-nil;
        files = rw append-nil;
        share = plain_there x k g its_kind;
      })

  place-IsPlain :
      (d : Decider) (e : Entry)
      → is_some_conflict lower e (get lower dest e.path) ≡ false
      → d.blocked ≡ none
      → IsPlainStep d.claims d (place lower dest partials policy d e) e
  unfolding place
  place-IsPlain d e h free = elim (kind-cases e.kind) [
    | inl k ↦
        let same : place lower dest partials policy d e ≡ record d {
          files =
              d.files
              ++ (decide_file e (get lower dest e.path) (lookup e.path partials) policy ∷ []);
        } =
          ground (arith, k) in
        subst (λ x. IsPlainStep d.claims d x e) (sym same)
          (place_file-IsPlain d e (get lower dest e.path) k refl h free)
    | inr k ↦
        let same : place lower dest partials policy d e
            ≡ place_dir lower dest partials policy d e (get lower dest e.path) =
          ground (arith, k) in
        subst (λ x. IsPlainStep d.claims d x e) (sym same)
          (place_dir-IsPlain d e (get lower dest e.path) k refl h free)
  ]

  claim-IsPlain :
      (d : Decider) (e : Entry)
      → (collides lower d.claims e).1 ≡ false
      → is_some_conflict lower e (get lower dest e.path) ≡ false
      → d.blocked ≡ none
      → IsPlainStep (collides lower d.claims e).0 d (claim lower dest partials policy d e) e
  unfolding claim
  claim-IsPlain d e once h free =
      let d1 : Decider = record d { claims = (collides lower d.claims e).0 } in
      let k = place-IsPlain d1 e h free in
      rw once (record {
        claims = k.claims;
        blocked = k.blocked;
        m = k.m;
        f = k.f;
        mkdirs = k.mkdirs;
        files = k.files;
        share = k.share;
      })

  record IsPlainPass (d d' : Decider) (es : List Entry) : Type 0 where
    pub m : List Action
    pub f : List Action
    pub mkdirs : d'.mkdirs ≡ d.mkdirs ++ m
    pub files : d'.files ≡ d.files ++ f
    pub covers : Covers IsPlainShare es m f

  IsPlainPass-cons :
      (c : Claims) (d d1 d' : Decider) (e : Entry) (es : List Entry)
      → IsPlainStep c d d1 e
      → IsPlainPass d1 d' es
      → IsPlainPass d d' (e ∷ es)
  IsPlainPass-cons c d d1 d' e es s t = record {
    m = s.m ++ t.m;
    f = s.f ++ t.f;
    mkdirs = t.mkdirs ∙ ap (λ l. l ++ t.m) s.mkdirs ∙ append_assoc d.mkdirs s.m t.m;
    files = t.files ∙ ap (λ l. l ++ t.f) s.files ∙ append_assoc d.files s.f t.f;
    covers = next s.share t.covers;
  }

  decide_all-IsPlain :
      (d : Decider) (es : List Entry)
      → conflicts_from lower dest d.claims es ≡ []
      → d.blocked ≡ none
      → IsPlainPass d (decide_all lower dest partials policy d es) es
  unfolding decide_all conflicts_from
  decide_all-IsPlain d [] h free = record {
    m = [];
    f = [];
    mkdirs = rw append-nil;
    files = rw append-nil;
    covers = done;
  }
  decide_all-IsPlain d (e ∷ es) h free =
      let once : (collides lower d.claims e).1 ≡ false = ground arith in
      let alike : is_some_conflict lower e (get lower dest e.path) ≡ false = ground arith in
      let rest : conflicts_from lower dest (collides lower d.claims e).0 es ≡ [] = ground arith in
      let s = claim-IsPlain d e once alike free in
      let c = claim lower dest partials policy d e in
      let t =
        decide_all-IsPlain c es
          (subst (λ x. conflicts_from lower dest x es ≡ []) (sym s.claims) rest) s.blocked in
      subst (λ (x : Decider). IsPlainPass d (decide_all lower dest partials policy x es) (e ∷ es))
        (sym (decide-of_none lower dest partials policy d e free))
        (IsPlainPass-cons (collides lower d.claims e).0 d c _ e es s t)

-- Under `fail` a plan that is made overwrites nothing and leaves nothing of the source behind. Every
-- entry of the source has its share of it, the directories to make first, both in the order of the
-- source: a directory is made where the destination has nothing, or the destination has a directory
-- there; a file is copied as new, as it is listed, where the destination has nothing, or it is skipped
-- as identical where the destination has a file of its size.
pub plan-IsPlain :
    {Other : Type 0} (lower : Str → Str) (source dest : Snapshot) (folding : NameFolding)
    (partials : Partials) (opts : TransferOptions) {p : Plan}
    → opts.conflict ≡ Options.fail
    → ◌≡◌ {A = Result Plan (Error Other)} (plan lower source dest folding partials opts) (ok p)
    → (m f : List Action) × (p.actions ≡ m ++ f)
      × Covers (PlainShare (get lower (new_index lower dest folding)) partials) source.entries m f
unfolding decided into_plan new_plan collect_conflicts
plan-IsPlain lower source dest folding partials opts k h =
    let (made', none_found) = plan-eq_ok lower source dest folding partials opts h in
    let c =
      decide_all-IsPlain lower (new_index lower dest folding) partials opts.conflict
        (new_decider lower folding) source.entries (none_found k) refl in
    (c.m, c.f, rw (made', c.mkdirs, c.files) refl, c.covers)
