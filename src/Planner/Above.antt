-- ===== src/Planner/Above.antt =====
-- Remembered directories and the paths beneath them, for crates/mtpx-core/src/planner.rs.
use mtpx.Base.{
  Option, ◌≡◌, ◌⊎◌, inl, inr, refl, ap, ◌∙◌, true, false, List, [], ◌∷◌, none, some, Bool-cases,
  All, nat_ord, list_ord, lex-swap, Elem, Ordering, arith,
}
use mtpx.Std.Text.{Str}
use mtpx.Path.RelPath.{RelPath, starts_with}
use mtpx.Path.Subtree.{cmp_path, starts_with_trans, starts_with-cmp, starts_with_refl}
use mtpx.Entry.{Entry, file, dir}
use mtpx.Plan
use mtpx.Plan.{Action, mkdir, Plan, SkipReason, new_plan, kind_conflict, name_collision}
use mtpx.Planner.{DestIndex, get}
use mtpx.Planner.Coverage.{IsOf, Share, made, there, acted}
use mtpx.Planner.Subtrees.{reason_above}

-- A remembered directory is above the path.
abbrev pub IsUnder : List (RelPath × SkipReason) → RelPath → Type 0
IsUnder refused path = (r : SkipReason) × (reason_above refused path ≡ some r)

pub reason_above-trans :
    (refused : List (RelPath × SkipReason)) (p q : RelPath)
    → starts_with q p ≡ true
    → IsUnder refused p
    → IsUnder refused q
unfolding reason_above
reason_above-trans [] p q h (r, k) = cc
reason_above-trans ((x, s) ∷ refused) p q h (r, k) = elim (Bool-cases (starts_with q x)) [
  | inl at ↦ (s, rw at refl)
  | inr past ↦
      let off : starts_with p x ≡ false = elim (Bool-cases (starts_with p x)) [
        | inl up ↦ absurd (ground (arith, starts_with_trans q p x h up))
        | inr off ↦ off
      ] in
      let (t, e) = reason_above-trans refused p q h (r, ground arith) in (t, rw past e)
]

pub lex_gt : (p x : RelPath) → cmp_path p x ≡ Ordering.lt → cmp_path x p ≡ Ordering.gt
lex_gt p x h = ground (arith, lex-swap p x, h)

pub under_more :
    (x : RelPath) (s : SkipReason) (refused : List (RelPath × SkipReason)) (p : RelPath)
    → IsUnder refused p
    → IsUnder ((x, s) ∷ refused) p
unfolding reason_above
under_more x s refused p (r, h) = elim (Bool-cases (starts_with p x)) [
  | inl at ↦ (s, rw at refl)
  | inr past ↦ (r, rw past h)
]

-- A directory behind the path in path order is not above it.
pub none_behind :
    (x : RelPath) (s : SkipReason) (refused : List (RelPath × SkipReason)) (p : RelPath)
    → cmp_path p x ≡ Ordering.lt
    → reason_above refused p ≡ none
    → reason_above ((x, s) ∷ refused) p ≡ none
unfolding reason_above
none_behind x s refused p h k = elim (Bool-cases (starts_with p x)) [
  | inl at ↦ absurd (starts_with-cmp p x at (lex_gt p x h))
  | inr past ↦ rw past k
]

pub under_self :
    (x : RelPath) (s : SkipReason) (refused : List (RelPath × SkipReason))
    → IsUnder ((x, s) ∷ refused) x
unfolding reason_above
under_self x s refused = (s, rw (starts_with_refl x) refl)

-- No remembered directory is above a copy.
abbrev pub IsFree : List (RelPath × SkipReason) → Action → Type 0
IsFree refused (Plan.copy path size modified resume_from reason) = reason_above refused path ≡ none
IsFree refused (mkdir path) = Unit
IsFree refused (Plan.skip path reason) = Unit

pub IsFree-IsOf :
    (refused : List (RelPath × SkipReason)) (e : Entry) (a : Action)
    → (e.kind ≡ file → reason_above refused e.path ≡ none)
    → IsOf e a
    → IsFree refused a
IsFree-IsOf refused e (Plan.copy path size modified resume_from reason) h k =
    ap (reason_above refused) k.1 ∙ h k.0
IsFree-IsOf refused e (mkdir path) h k = tt
IsFree-IsOf refused e (Plan.skip path reason) h k = tt

pub Share-IsFree :
    (at : RelPath → Option Entry) (refused : List (RelPath × SkipReason)) (e : Entry)
    (m f : List Action)
    → (e.kind ≡ file → reason_above refused e.path ≡ none)
    → Share at e m f
    → All (IsFree refused) f
Share-IsFree at refused e _ _ h (made k g) = tt
Share-IsFree at refused e _ _ h (there x k g i) = tt
Share-IsFree at refused e _ _ h (acted a k) = (IsFree-IsOf refused e a h k, tt)

abbrev pub IsMkdir : Action → Type 0
IsMkdir (mkdir path) = Unit
IsMkdir (Plan.copy path size modified resume_from reason) = ⊥
IsMkdir (Plan.skip path reason) = ⊥

pub Share-IsMkdir :
    (at : RelPath → Option Entry) (e : Entry) (m f : List Action) → Share at e m f → All IsMkdir m
Share-IsMkdir at e _ _ (made k g) = (tt, tt)
Share-IsMkdir at e _ _ (there x k g i) = tt
Share-IsMkdir at e _ _ (acted a k) = tt

-- The destination has the directory, or it is made.
abbrev pub HasDir : (Str → Str) → DestIndex → RelPath → List Action → Type 0
HasDir lower dest path actions =
    ((x : Entry) × (get lower dest path ≡ some x) × (x.kind ≡ dir)) ⊎ Elem (mkdir path) actions
