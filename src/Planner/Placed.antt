-- ===== src/Planner/Placed.antt =====
-- What the planner has done once the entries are decided, for crates/mtpx-core/src/planner.rs.
use mtpx.Base.{
  ◌≡◌, ◌⊎◌, inl, inr, refl, ap, ◌∙◌, sym, subst, List, [], ◌∷◌, ◌++◌, append-nil, append_assoc,
  Option, none, some, Bool-cases, Option-cases, All, All-append, nat_ord, list_ord,
  Elem-append_left, Elem-append_right, Ordering, arith,
}
use mtpx.Std.Text.{Str}
use mtpx.Path.RelPath.{RelPath}
use mtpx.Path.Subtree.{cmp_path}
use mtpx.Entry.{Entry, file, dir, kind-cases}
use mtpx.Snapshot.Sorted.{IsSorted}
use mtpx.Options.{ConflictPolicy}
use mtpx.Plan.{Action, mkdir, SkipReason, kind_conflict, name_collision}
use mtpx.Planner.{
  Partials, DestIndex, Decider, get, collides, decide_dir, place_dir, place, claim, refuse, skip,
}
use mtpx.Planner.Coverage.{claim-IsShared}
use mtpx.Planner.Subtrees.{reason_above, claim-blocked, claim-refusal, decide_remembering}
use mtpx.Planner.Above.{
  IsUnder, under_more, none_behind, under_self, IsFree, Share-IsFree, IsMkdir, Share-IsMkdir,
  HasDir,
}

module _ (lower : Str → Str) (dest : DestIndex) (partials : Partials)
    (policy : ConflictPolicy) where
  claim_file :
      (d : Decider) (e : Entry)
      → d.blocked ≡ none
      → e.kind ≡ file
      → (claim lower dest partials policy d e).blocked ≡ none
  unfolding claim place refuse
  claim_file d e h k = ground (arith, k)

  place_dir-HasDir :
      (d : Decider) (e : Entry) (o : Option Entry)
      → e.kind ≡ dir
      → get lower dest e.path ≡ o
      → let c = place_dir lower dest partials policy d e o in
        HasDir lower dest e.path c.mkdirs ⊎ ((r : SkipReason) × (c.blocked ≡ some (e.path, r)))
  unfolding place_dir decide_dir refuse
  place_dir-HasDir d e none k g =
      inl (inr (Elem-append_right (mkdir e.path) d.mkdirs (mkdir e.path ∷ []) (inl refl)))
  place_dir-HasDir d e (some x) k g = elim (kind-cases x.kind) [
    | inl at ↦ inr (kind_conflict, rw (at, k) refl)
    | inr at ↦ inl (inl (x, g, at))
  ]

  claim_dir :
      (d : Decider) (e : Entry)
      → e.kind ≡ dir
      → let c = claim lower dest partials policy d e in
        HasDir lower dest e.path c.mkdirs ⊎ ((r : SkipReason) × (c.blocked ≡ some (e.path, r)))
  unfolding claim place refuse
  claim_dir d e k = elim (Bool-cases (collides lower d.claims e).1) [
    | inl hit ↦ inr (name_collision, rw (hit, k) refl)
    | inr free ↦
        let d' : Decider = record d { claims = (collides lower d.claims e).0 } in
        let o = get lower dest e.path in
        let same : claim lower dest partials policy d e
            ≡ place_dir lower dest partials policy d' e o =
          ground (arith, k, free) in
        subst
          (λ (c : Decider).
            HasDir lower dest e.path c.mkdirs ⊎ ((r : SkipReason) × (c.blocked ≡ some (e.path, r))))
          (sym same) (place_dir-HasDir d' e o k refl)
  ]

  -- What the remembering planner leaves of a state and the entries that are left: every directory
  -- that it remembers, and what it adds to the actions.
  pub record IsPlaced (d : Decider) (refused : List (RelPath × SkipReason)) (es : List Entry)
      (d' : Decider) : Type 0 where
    pub all : List (RelPath × SkipReason)
    pub grows : (p : RelPath) → IsUnder refused p → IsUnder all p
    pub behind :
        (p : RelPath)
        → All (λ e. cmp_path p e.path ≡ Ordering.lt) es
        → reason_above refused p ≡ none
        → reason_above all p ≡ none
    pub m : List Action
    pub f : List Action
    pub mkdirs : d'.mkdirs ≡ d.mkdirs ++ m
    pub files : d'.files ≡ d.files ++ f
    pub only : All IsMkdir m
    pub copies : All (IsFree all) f
    pub dirs : All (λ e. e.kind ≡ dir → HasDir lower dest e.path d'.mkdirs ⊎ IsUnder all e.path) es

  pub HasDir-append :
      (path : RelPath) (l r : List Action)
      → HasDir lower dest path l
      → HasDir lower dest path (l ++ r)
  HasDir-append path l r (inl h) = inl h
  HasDir-append path l r (inr h) = inr (Elem-append_left (mkdir path) l r h)

  place_skipped :
      (d : Decider) (refused : List (RelPath × SkipReason)) (e : Entry) (r : SkipReason)
      (es : List Entry) (d' : Decider)
      → reason_above refused e.path ≡ some r
      → IsPlaced (record d { files = d.files ++ (skip e r ∷ []) }) refused es d'
      → IsPlaced d refused (e ∷ es) d'
  place_skipped d refused e r es d' h k = record {
    all = k.all;
    grows = k.grows;
    behind = λ p b n. k.behind p b.1 n;
    m = k.m;
    f = skip e r ∷ k.f;
    mkdirs = k.mkdirs;
    files = k.files ∙ append_assoc d.files (skip e r ∷ []) k.f;
    only = k.only;
    copies = (tt, k.copies);
    dirs = (λ i. inr (k.grows e.path (r, h)), k.dirs);
  }

  -- A step on an entry that nothing blocks, which refused no directory.
  place_free :
      (d : Decider) (refused : List (RelPath × SkipReason)) (e : Entry) (es : List Entry)
      (d' : Decider)
      → let c = claim lower dest partials policy d e in
        c.blocked ≡ none
        → reason_above refused e.path ≡ none
        → All (λ x. cmp_path e.path x.path ≡ Ordering.lt) es
        → IsPlaced (record c { blocked = none }) refused es d'
        → IsPlaced d refused (e ∷ es) d'
  place_free d refused e es d' free h before k =
      let s = claim-IsShared lower dest partials policy d e in
      record {
        all = k.all;
        grows = k.grows;
        behind = λ p b n. k.behind p b.1 n;
        m = s.m ++ k.m;
        f = s.f ++ k.f;
        mkdirs = k.mkdirs ∙ ap (λ l. l ++ k.m) s.mkdirs ∙ append_assoc d.mkdirs s.m k.m;
        files = k.files ∙ ap (λ l. l ++ k.f) s.files ∙ append_assoc d.files s.f k.f;
        only = All-append IsMkdir s.m k.m (Share-IsMkdir (get lower dest) e s.m s.f s.share) k.only;
        copies =
            All-append _ s.f k.f
              (Share-IsFree (get lower dest) k.all e s.m s.f (λ i. k.behind e.path before h)
                s.share)
              k.copies;
        dirs = (
          λ i. elim (claim_dir d e i) [
            | inl there' ↦ inl (rw (k.mkdirs) (HasDir-append e.path _ k.m there'))
            | inr (r, held) ↦ absurd (ground (arith, free, held))
          ],
          k.dirs,
        );
      }

  -- A step that refused a directory.
  place_held :
      (d : Decider) (refused : List (RelPath × SkipReason)) (e : Entry) (r : SkipReason)
      (es : List Entry) (d' : Decider)
      → let c = claim lower dest partials policy d e in
        d.blocked ≡ none
        → c.blocked ≡ some (e.path, r)
        → IsPlaced (record c { blocked = none }) ((e.path, r) ∷ refused) es d'
        → IsPlaced d refused (e ∷ es) d'
  place_held d refused e r es d' empty held k =
      let s = claim-IsShared lower dest partials policy d e in
      record {
        all = k.all;
        grows = λ p u. k.grows p (under_more e.path r refused p u);
        behind = λ p b n. k.behind p b.1 (none_behind e.path r refused p b.0 n);
        m = s.m ++ k.m;
        f = s.f ++ k.f;
        mkdirs = k.mkdirs ∙ ap (λ l. l ++ k.m) s.mkdirs ∙ append_assoc d.mkdirs s.m k.m;
        files = k.files ∙ ap (λ l. l ++ k.f) s.files ∙ append_assoc d.files s.f k.f;
        only = All-append IsMkdir s.m k.m (Share-IsMkdir (get lower dest) e s.m s.f s.share) k.only;
        copies =
            All-append _ s.f k.f
              (Share-IsFree (get lower dest) k.all e s.m s.f
                (λ i. absurd (let free = claim_file d e empty i in ground (arith, free, held)))
                s.share)
              k.copies;
        dirs = (λ i. inr (k.grows e.path (under_self e.path r refused)), k.dirs);
      }

  pub decide_remembering-IsPlaced :
      (d : Decider) (refused : List (RelPath × SkipReason)) (es : List Entry)
      → d.blocked ≡ none
      → IsSorted es
      → IsPlaced d refused es (decide_remembering lower dest partials policy d refused es)
  unfolding decide_remembering
  decide_remembering-IsPlaced d refused [] empty sorted = record {
    all = refused;
    grows = λ p u. u;
    behind = λ p b n. n;
    m = [];
    f = [];
    mkdirs = rw append-nil;
    files = rw append-nil;
    only = tt;
    copies = tt;
    dirs = tt;
  }
  decide_remembering-IsPlaced d refused (e ∷ es) empty sorted =
      let c = claim lower dest partials policy d e in
      elim (Option-cases (reason_above refused e.path)) [
        | inr (r, h) ↦
            rw (h, decide_remembering)
              (place_skipped d refused e r es _ h (
                decide_remembering-IsPlaced (record d { files = d.files ++ (skip e r ∷ []) })
                  refused es empty sorted.1))
        | inl h ↦ elim (claim-blocked lower dest partials policy d e empty) [
          | inl free ↦
              rw
                (
                  h,
                  decide_remembering,
                  sym (claim-refusal lower dest partials policy d e empty) ∙ free,
                )
                (place_free d refused e es _ free h sorted.0 (
                  decide_remembering-IsPlaced (record c { blocked = none }) refused es refl
                    sorted.1))
          | inr (r, held) ↦
              rw
                (
                  h,
                  decide_remembering,
                  sym (claim-refusal lower dest partials policy d e empty) ∙ held,
                )
                (place_held d refused e r es _ empty held (
                  decide_remembering-IsPlaced (record c { blocked = none }) ((e.path, r) ∷ refused)
                    es refl sorted.1))
        ]
      ]
