-- ===== src/Planner/Justified.antt =====
-- Why an action stands in a plan, for crates/mtpx-core/src/planner.rs.
use mtpx.Base.{
  ℕ, ◌≤◌, ◌≡◌, ◌≢◌, ◌⊎◌, inl, inr, refl, true, false, List, Option, none, some, Elem, Bool-cases,
  nat_eq_iff, arith, not, ◌&&◌, leb, nat_eq, subst, map, ◌∷◌, ◌++◌,
}
use mtpx.Std.Text.{Str}
use mtpx.Path.RelPath.{RelPath, starts_with}
use mtpx.Entry.{Entry, ModifiedTime, file, dir, kind_eq, kind-cases}
use mtpx.Options
use mtpx.Options.{ConflictPolicy, TransferOptions}
use mtpx.Partial.{PartialInfo, Fingerprint, matches, modified_eq}
use mtpx.Plan
use mtpx.Plan.{
  Action, mkdir, CopyReason, size_differs, SkipReason, identical, conflict, kind_conflict,
  name_collision, Plan, new_plan,
}
use mtpx.Planner.{
  Partials, DestIndex, NameFolding, case_insensitive, lookup, get, resume_offset, decide_file,
  decide_conflict, is_conflict,
}

-- The offset is zero, or what a partial of this very object holds.
abbrev pub IsResumable : Option PartialInfo → ℕ → Option ModifiedTime → ℕ → Type 0
IsResumable partial size modified offset =
    (offset ≤ size)
    × ((offset ≡ 0)
        ⊎ ((p : PartialInfo) × (partial ≡ some p)
            × (p.bytes ≡ offset)
            × (p.fingerprint ≡ record { size = size; modified = modified })))

modified_eq_sound : (a b : Option ModifiedTime) → modified_eq a b ≡ true → a ≡ b
modified_eq_sound none none h = refl
modified_eq_sound (some t) (some u) h = ground (arith, nat_eq_iff t.unix_seconds u.unix_seconds)
modified_eq_sound none (some u) h = cc
modified_eq_sound (some t) none h = cc

matches_sound :
    (f : Fingerprint) (e : Entry)
    → matches f e ≡ true
    → f ≡ record { size = e.size; modified = e.modified }
unfolding matches
matches_sound f e h =
    ground (arith, modified_eq_sound f.modified e.modified, nat_eq_iff f.size e.size)

pub resume_offset-IsResumable :
    (e : Entry) (partial : Option PartialInfo)
    → IsResumable partial e.size e.modified (resume_offset e partial)
resume_offset-IsResumable e none = (omega arith, inl refl)
resume_offset-IsResumable e (some p) =
    elim (Bool-cases (matches p.fingerprint e && leb p.bytes e.size)) [
      | inl h ↦
          rw h (ground arith, inr (p, refl, refl, matches_sound p.fingerprint e (ground arith)))
      | inr h ↦ rw h (omega arith, inl refl)
    ]

abbrev entry_of : RelPath → ℕ → Option ModifiedTime → Entry
entry_of path size modified = record { path = path; kind = file; size = size; modified = modified }

module _ (lower : Str → Str) (source : List Entry) (dest : DestIndex) (folding : NameFolding)
    (partials : Partials) (policy : ConflictPolicy) where
  -- What the snapshots say of the destination's entry at a file's path.
  abbrev Differs : RelPath → ℕ → Type 0
  Differs path size =
      (x : Entry) × (get lower dest path ≡ some x) × (x.kind ≡ file) × (x.size ≢ size)

  -- The destination has something of another kind at the entry's path.
  abbrev pub IsOther : Entry → Type 0
  IsOther e = (x : Entry) × (get lower dest e.path ≡ some x) × (x.kind ≢ e.kind)

  -- An entry further up in the source has the same path but for its case, the destination takes no
  -- account of that, and one of the two is a file.
  abbrev pub IsRepeat : Entry → Type 0
  IsRepeat e =
      (folding ≡ case_insensitive)
      × (before after : List Entry) × (source ≡ before ++ (e ∷ after))
      × (q : Entry) × Elem q before
      × (map lower q.path ≡ map lower e.path)
      × ((e.kind ≡ file) ⊎ (q.kind ≡ file))

  -- The entry has the fault itself, or lies beneath a directory of the source that has it.
  abbrev pub HasFault : (Entry → Type 0) → RelPath → Type 0
  HasFault IsFault path =
      (e : Entry) × Elem e source
      × (e.path ≡ path)
      × (f : Entry) × Elem f source
      × ((f ≡ e) ⊎ ((f.kind ≡ dir) × (starts_with e.path f.path ≡ true)))
      × IsFault f

  -- Why an action stands in a plan.
  abbrev pub IsJustified : Action → Type 0
  IsJustified (mkdir path) =
      (e : Entry) × Elem e source × (e.path ≡ path) × (e.kind ≡ dir) × (get lower dest path ≡ none)
  IsJustified (Plan.copy path size modified resume_from Plan.new) =
      Elem (entry_of path size modified) source
      × (get lower dest path ≡ none)
      × IsResumable (lookup path partials) size modified resume_from
  IsJustified (Plan.copy path size modified resume_from size_differs) =
      Elem (entry_of path size modified) source
      × Differs path size
      × (policy ≢ Options.skip)
      × IsResumable (lookup path partials) size modified resume_from
  IsJustified (Plan.skip path identical) =
      (e : Entry) × Elem e source
      × (e.path ≡ path)
      × (e.kind ≡ file)
      × (x : Entry) × (get lower dest path ≡ some x)
      × (x.kind ≡ file)
      × (x.size ≡ e.size)
  IsJustified (Plan.skip path conflict) =
      (e : Entry) × Elem e source
      × (e.path ≡ path)
      × (e.kind ≡ file)
      × Differs path e.size
      × (policy ≡ Options.skip)
  IsJustified (Plan.skip path kind_conflict) = HasFault IsOther path
  IsJustified (Plan.skip path name_collision) = HasFault IsRepeat path

  file-Elem :
      (e : Entry) → Elem e source → e.kind ≡ file → Elem (entry_of e.path e.size e.modified) source
  file-Elem e m k =
      let same : e ≡ entry_of e.path e.size e.modified = ground arith in
      subst (λ x. Elem x source) same m

  decide_conflict-IsJustified :
      (e x : Entry)
      → Elem e source
      → e.kind ≡ file
      → get lower dest e.path ≡ some x
      → x.kind ≡ file
      → x.size ≢ e.size
      → (p : ConflictPolicy) → policy ≡ p
      → IsJustified (decide_conflict e (lookup e.path partials) p)
  unfolding decide_conflict
  decide_conflict-IsJustified e x m k g xk differ Options.skip same =
      (e, m, refl, k, (x, g, xk, differ), same)
  decide_conflict-IsJustified e x m k g xk differ Options.fail same = (
    file-Elem e m k,
    (x, g, xk, differ),
    (λ h. cc),
    resume_offset-IsResumable e (lookup e.path partials),
  )
  decide_conflict-IsJustified e x m k g xk differ Options.source_wins same = (
    file-Elem e m k,
    (x, g, xk, differ),
    (λ h. cc),
    resume_offset-IsResumable e (lookup e.path partials),
  )

  pub decide_file-IsJustified :
      (e : Entry)
      → Elem e source
      → e.kind ≡ file
      → (o : Option Entry) → get lower dest e.path ≡ o
      → IsJustified (decide_file e o (lookup e.path partials) policy)
  unfolding decide_file
  decide_file-IsJustified e m k none g =
      (file-Elem e m k, g, resume_offset-IsResumable e (lookup e.path partials))
  decide_file-IsJustified e m k (some x) g = elim (kind-cases x.kind) [
    | inr xk ↦
        let other : not (kind_eq x.kind e.kind) ≡ true = ground arith in
        let unlike : x.kind ≢ e.kind = λ h. ground arith in
        rw other (e, m, refl, e, m, inl refl, (x, g, unlike))
    | inl xk ↦
        let alike : not (kind_eq x.kind e.kind) ≡ false = ground arith in
        elim (Bool-cases (nat_eq e.size x.size)) [
          | inl same ↦
              let kept : not (is_conflict e x) ≡ true = ground arith in
              rw (alike, kept) (e, m, refl, k, x, g, xk, ground (arith, nat_eq_iff e.size x.size))
          | inr differ ↦
              let open' : not (is_conflict e x) ≡ false = ground arith in
              rw (alike, open')
                (decide_conflict-IsJustified e x m k g xk
                  (λ h. ground (arith, nat_eq_iff e.size x.size)) policy refl)
        ]
  ]
