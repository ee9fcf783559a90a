-- ===== src/Planner/Subtrees.antt =====
-- The one slot that the planner keeps for a blocked directory is enough, for
-- crates/mtpx-core/src/planner.rs: in path order it decides as if every refused directory were
-- remembered.
use mtpx.Base.{
  ◌≡◌, ◌⊎◌, inl, inr, refl, ap, ◌∙◌, sym, false, List, [], ◌∷◌, ◌++◌, Option, none, some,
  Bool-cases, if◌then◌else◌, Ordering, All, arith, subst,
}
use mtpx.Std.Text.{Str}
use mtpx.Path.RelPath.{RelPath, starts_with}
use mtpx.Path.Subtree.{cmp_path, starts_with_gone}
use mtpx.Entry.{Entry, file, dir, kind-cases}
use mtpx.Snapshot.Sorted.{IsSorted}
use mtpx.Options.{ConflictPolicy}
use mtpx.Plan.{SkipReason, kind_conflict, name_collision}
use mtpx.Planner.{
  Partials, DestIndex, Claims, Decider, get, collides, claim, decide, decide_all, skip, place,
  place_dir, refuse, decide_dir, NameFolding, into_plan, new_decider,
}
use mtpx.Planner.Steps.{blocked-cases, decide-of_none, decide-of_under, decide-of_past}

-- The reason of the last refused directory above the path.
unfoldable pub reason_above : List (RelPath × SkipReason) → RelPath → Option SkipReason
reason_above [] path = none
reason_above ((p, r) ∷ refused) path =
    if starts_with path p then some r else reason_above refused path

-- A directory that is refused is remembered.
abbrev pub remember :
    Option (RelPath × SkipReason) → List (RelPath × SkipReason) → List (RelPath × SkipReason)
remember none refused = refused
remember (some refusal) refused = refusal ∷ refused

-- The reason that the slot gives.
abbrev reason_of : Option (RelPath × SkipReason) → RelPath → Option SkipReason
reason_of none path = none
reason_of (some (p, r)) path = if starts_with path p then some r else none

-- What stands in the slot comes before what is left.
abbrev SlotBefore : Option (RelPath × SkipReason) → List Entry → Type 0
SlotBefore none es = Unit
SlotBefore (some (p, r)) es = All (λ f. cmp_path p f.path ≡ Ordering.lt) es

-- The slot gives every entry that is left the reason that the remembered directories give.
abbrev Agrees : List (RelPath × SkipReason) → Option (RelPath × SkipReason) → List Entry → Type 0
Agrees refused slot es = All (λ f. reason_above refused f.path ≡ reason_of slot f.path) es

remembered :
    (p : RelPath) (r : SkipReason) (refused : List (RelPath × SkipReason)) (es : List Entry)
    → All (λ f. reason_above refused f.path ≡ none) es
    → All (λ f. reason_above ((p, r) ∷ refused) f.path ≡ reason_of (some (p, r)) f.path) es
unfolding reason_above
remembered p r refused [] h = tt
remembered p r refused (e ∷ es) h = (rw (h.0), remembered p r refused es h.1)

-- Behind a subtree nothing of it comes again.
past_clear :
    (refused : List (RelPath × SkipReason)) (p : RelPath) (r : SkipReason) (e : Entry)
    (es : List Entry)
    → cmp_path p e.path ≡ Ordering.lt
    → starts_with e.path p ≡ false
    → All (λ f. cmp_path e.path f.path ≡ Ordering.lt) es
    → Agrees refused (some (p, r)) es
    → All (λ f. reason_above refused f.path ≡ none) es
past_clear refused p r e [] before past s agree = tt
past_clear refused p r e (f ∷ es) before past s agree = (
  agree.0 ∙ rw (starts_with_gone p e.path f.path before past s.0),
  past_clear refused p r e es before past s.1 agree.1,
)

SlotBefore-tail :
    (o : Option (RelPath × SkipReason)) (e : Entry) (es : List Entry)
    → SlotBefore o (e ∷ es)
    → SlotBefore o es
SlotBefore-tail none e es h = tt
SlotBefore-tail (some (p, r)) e es h = h.1

nothing_above : (es : List Entry) → Agrees [] none es
unfolding reason_above
nothing_above [] = tt
nothing_above (e ∷ es) = (refl, nothing_above es)

module _ (lower : Str → Str) (dest : DestIndex) (partials : Partials)
    (policy : ConflictPolicy) where
  -- The directory that is refused at an entry that nothing blocks, with the reason: one that collides,
  -- or one where the destination has a file.
  abbrev pub file_at : Entry → Option Entry → Option (RelPath × SkipReason)
  file_at e none = none
  file_at e (some x) = elim x.kind [ file ↦ some (e.path, kind_conflict) | dir ↦ none ]

  unfoldable pub refusal : Claims → Entry → Option (RelPath × SkipReason)
  refusal claims e = elim e.kind [
    | file ↦ none
    | dir ↦
        if (collides lower claims e).1
        then some (e.path, name_collision)
        else file_at e (get lower dest e.path)
  ]

  -- The planner with every refused directory remembered, and no slot.
  unfoldable pub decide_remembering : Decider → List (RelPath × SkipReason) → List Entry → Decider
  decide_remembering d refused [] = d
  decide_remembering d refused (e ∷ es) = elim (reason_above refused e.path) [
    | some r ↦ decide_remembering (record d { files = d.files ++ (skip e r ∷ []) }) refused es
    | none ↦
        let d' = claim lower dest partials policy d e in
        decide_remembering (record d' { blocked = none }) (remember (refusal d.claims e) refused) es
  ]

  place_dir-refusal :
      (d : Decider) (e : Entry) (o : Option Entry)
      → d.blocked ≡ none
      → e.kind ≡ dir
      → (place_dir lower dest partials policy d e o).blocked ≡ file_at e o
  unfolding place_dir decide_dir refuse
  place_dir-refusal d e none h k = h
  place_dir-refusal d e (some x) h k = elim (kind-cases x.kind) [
    | inl at ↦ rw (at, k) refl
    | inr at ↦ rw (at, h) refl
  ]

  -- What a step on an empty slot leaves in it is the directory that is refused there.
  pub claim-refusal :
      (d : Decider) (e : Entry)
      → d.blocked ≡ none
      → (claim lower dest partials policy d e).blocked ≡ refusal d.claims e
  unfolding claim place refuse refusal
  claim-refusal d e h =
      let d1 : Decider = record d { claims = (collides lower d.claims e).0 } in
      let o = get lower dest e.path in
      elim (kind-cases e.kind) [
        | inl k ↦ ground (arith, h, k)
        | inr k ↦ elim (Bool-cases (collides lower d.claims e).1) [
          | inl hit ↦ ground (arith, hit, k)
          | inr free ↦
              let placed : claim lower dest partials policy d e
                  ≡ place_dir lower dest partials policy d1 e o =
                ground (arith, k, free) in
              let same : refusal d.claims e ≡ file_at e o = ground (arith, k, free) in
              ap (λ (x : Decider). x.blocked) placed ∙ place_dir-refusal d1 e o h k ∙ sym same
        ]
      ]

  -- A step on an empty slot leaves it empty, or holding the entry.
  pub claim-blocked :
      (d : Decider) (e : Entry)
      → d.blocked ≡ none
      → ((claim lower dest partials policy d e).blocked ≡ none)
        ⊎ ((r : SkipReason) × ((claim lower dest partials policy d e).blocked ≡ some (e.path, r)))
  unfolding claim place place_dir decide_dir refuse
  claim-blocked d e h = ground arith

  -- What the step on the head of a sorted listing leaves for the tail.
  slot_after :
      (d : Decider) (refused : List (RelPath × SkipReason)) (e : Entry) (es : List Entry)
      → d.blocked ≡ none
      → All (λ f. cmp_path e.path f.path ≡ Ordering.lt) es
      → All (λ f. reason_above refused f.path ≡ none) es
      → let d' = claim lower dest partials policy d e in
        SlotBefore d'.blocked es
        × All
            (λ f. reason_above (remember d'.blocked refused) f.path ≡ reason_of d'.blocked f.path)
            es
  slot_after d refused e es h before clear = elim (claim-blocked d e h) [
    | inl free ↦ rw free (tt, clear)
    | inr (r, held) ↦ rw held (before, remembered e.path r refused es clear)
  ]

  -- A step on an entry that nothing blocks, from what holds of the entries behind it.
  claimed :
      (d0 d : Decider) (refused : List (RelPath × SkipReason)) (e : Entry) (es : List Entry)
      → d0.blocked ≡ none
      → reason_above refused e.path ≡ none
      → decide lower dest partials policy d e ≡ claim lower dest partials policy d0 e
      → All (λ f. cmp_path e.path f.path ≡ Ordering.lt) es
      → All (λ f. reason_above refused f.path ≡ none) es
      → (let c = claim lower dest partials policy d0 e in
          SlotBefore c.blocked es
          → Agrees (remember c.blocked refused) c.blocked es
          → decide_remembering (record c { blocked = none }) (remember c.blocked refused) es
            ≡ record (decide_all lower dest partials policy c es) { blocked = none })
      → decide_remembering d0 refused (e ∷ es)
        ≡ record (decide_all lower dest partials policy d (e ∷ es)) { blocked = none }
  unfolding decide_remembering decide_all
  claimed d0 d refused e es h free same before clear ih =
      let (slot, agree) = slot_after d0 refused e es h before clear in
      let c = claim lower dest partials policy d0 e in
      (rw (free, decide_remembering) refl)
      ∙ ap (λ o. decide_remembering (record c { blocked = none }) (remember o refused) es)
          (sym (claim-refusal d0 e h))
      ∙ ih slot agree
      ∙ ap (λ (x : Decider). record (decide_all lower dest partials policy x es) { blocked = none })
          (sym same)

  -- Behind the entries that are done, the slot serves as well as the remembered directories.
  decide_all-decide_remembering :
      (d : Decider) (refused : List (RelPath × SkipReason)) (es : List Entry)
      → IsSorted es
      → SlotBefore d.blocked es
      → Agrees refused d.blocked es
      → decide_remembering (record d { blocked = none }) refused es
        ≡ record (decide_all lower dest partials policy d es) { blocked = none }
  unfolding decide_remembering decide_all
  decide_all-decide_remembering d refused [] s before agree = refl
  decide_all-decide_remembering d refused (e ∷ es) s before agree =
      let d0 : Decider = record d { blocked = none } in
      let c : Decider = claim lower dest partials policy d0 e in
      let ih = decide_all-decide_remembering c (remember c.blocked refused) es s.1 in
      elim (blocked-cases d e) [
        | inl free ↦
            let agree' = subst (λ o. Agrees refused o (e ∷ es)) free agree in
            let same : decide lower dest partials policy d e ≡ c =
              decide-of_none lower dest partials policy d e free
              ∙ ap (λ x. claim lower dest partials policy x e) (ground arith) in
            claimed d0 d refused e es refl agree'.0 same s.0 agree'.1 ih
        | inr (inl (p, r, at, under)) ↦
            let d1 : Decider = record d { files = d.files ++ (skip e r ∷ []) } in
            let found : reason_above refused e.path ≡ some r =
              agree.0 ∙ ground (arith, at, under) in
            let same = decide-of_under lower dest partials policy d e p r at under in
            (rw (found, decide_remembering) refl)
            ∙ decide_all-decide_remembering d1 refused es s.1
                (SlotBefore-tail d.blocked e es before) agree.1
            ∙ ap
                (λ (x : Decider). record (decide_all lower dest partials policy x es) {
                  blocked = none;
                })
                (sym same)
        | inr (inr (p, r, at, past)) ↦
            let agree' = subst (λ o. Agrees refused o (e ∷ es)) at agree in
            let before' = subst (λ o. SlotBefore o (e ∷ es)) at before in
            claimed d0 d refused e es refl (agree'.0 ∙ rw past)
              (decide-of_past lower dest partials policy d e p r at past) s.0
              (past_clear refused p r e es before'.0 past s.0 agree'.1) ih
      ]

-- In a source in path order, the planner makes the actions that it would make if it remembered
-- every directory that is refused, one that collides or one where the destination has a file: what
-- lies beneath one, at any depth, is skipped for its reason, and any other entry is decided for itself.
pub decide_all-eq_remembering :
    (lower : Str → Str) (dest : DestIndex) (folding : NameFolding) (partials : Partials)
    (policy : ConflictPolicy) (source : List Entry)
    → IsSorted source
    → into_plan (decide_all lower dest partials policy (new_decider lower folding) source)
      ≡ into_plan
          (decide_remembering lower dest partials policy (new_decider lower folding) [] source)
unfolding into_plan
decide_all-eq_remembering lower dest folding partials policy source s =
    let start = new_decider lower folding in
    ap into_plan (
      sym (
        decide_all-decide_remembering lower dest partials policy start [] source s tt
          (nothing_above source)))
