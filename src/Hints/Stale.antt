-- ===== src/Hints/Stale.antt =====
-- The partials that no copy resumes, for crates/mtpx-core/src/device/pull.rs.
use mtpx.Base.{
  ℕ, ◌+◌, ◌^◌, ◌%◌, ◌<◌, ◌≤◌, min, ◌≡◌, refl, ◌∙◌, Bool-cases, ◌⊎◌, inl, inr, true, List, [], ◌∷◌,
  length, ◌==◌, nat_ord, list_ord, ==_iff, arith,
}
use mtpx.Std.Numbers.{u64_max}
use mtpx.Path.RelPath.{RelPath}
use mtpx.Partial.{PartialInfo}
use mtpx.Plan
use mtpx.Plan.{Action, Plan, CopyReason}
use mtpx.Planner.{Partials}
use mtpx.Hints.{resumed, contains, stale_from, stale_partials}

-- Some action copies the path.
abbrev pub IsCopied : List Action → RelPath → Type 0
IsCopied [] path = ⊥
IsCopied (Plan.copy q size modified resume_from reason ∷ rest) path =
    (q ≡ path) ⊎ IsCopied rest path
IsCopied (Plan.mkdir q ∷ rest) path = IsCopied rest path
IsCopied (Plan.skip q reason ∷ rest) path = IsCopied rest path

-- The second list holds the partials of the first that no action copies.
pub data Uncopied (actions : List Action) : Partials → Partials → Type 0 where
  done : Uncopied actions [] []
  kept :
      {path : RelPath} {partial : PartialInfo} {rest stale : Partials}
      → ¬ IsCopied actions path
      → Uncopied actions rest stale
      → Uncopied actions ((path, partial) ∷ rest) ((path, partial) ∷ stale)
  dropped :
      {path : RelPath} {partial : PartialInfo} {rest stale : Partials}
      → IsCopied actions path
      → Uncopied actions rest stale
      → Uncopied actions ((path, partial) ∷ rest) stale

abbrev pub total_bytes : Partials → ℕ
total_bytes [] = 0
total_bytes ((path, partial) ∷ rest) = partial.bytes + total_bytes rest

contains-IsCopied :
    (actions : List Action) (path : RelPath)
    → contains (resumed actions) path ≡ true
    → IsCopied actions path
unfolding resumed
contains-IsCopied [] path h = cc
contains-IsCopied (Plan.copy q size modified resume_from reason ∷ rest) path h =
    elim (Bool-cases (q == path)) [
      | inl same ↦ inl ((==_iff q path).0 same)
      | inr other ↦ inr (contains-IsCopied rest path (ground arith))
    ]
contains-IsCopied (Plan.mkdir q ∷ rest) path h = contains-IsCopied rest path h
contains-IsCopied (Plan.skip q reason ∷ rest) path h = contains-IsCopied rest path h

IsCopied-contains :
    (actions : List Action) (path : RelPath)
    → IsCopied actions path
    → contains (resumed actions) path ≡ true
unfolding resumed
IsCopied-contains [] path h = absurd h
IsCopied-contains (Plan.copy q size modified resume_from reason ∷ rest) path (inl same) =
    let at = (==_iff q path).1 same in rw at refl
IsCopied-contains (Plan.copy q size modified resume_from reason ∷ rest) path (inr h) =
    let ih = IsCopied-contains rest path h in ground arith
IsCopied-contains (Plan.mkdir q ∷ rest) path h = IsCopied-contains rest path h
IsCopied-contains (Plan.skip q reason ∷ rest) path h = IsCopied-contains rest path h

stale_from-Uncopied :
    (actions : List Action) (count bytes : ℕ) (partials : Partials)
    → count + length partials < 2 ^ 64
    → bytes ≤ u64_max
    → (stale : Partials) × Uncopied actions partials stale
      × (stale_from (resumed actions) count bytes partials
          ≡ (count + length stale, min (bytes + total_bytes stale) u64_max))
unfolding stale_from
stale_from-Uncopied actions count bytes [] h k = ([], done, ground arith)
stale_from-Uncopied actions count bytes ((path, partial) ∷ rest) h k =
    elim (Bool-cases (contains (resumed actions) path)) [
      | inl live ↦
          let (stale, u, e) = stale_from-Uncopied actions count bytes rest (omega arith) k in
          (stale, dropped (contains-IsCopied actions path live) u, rw live e)
      | inr dead ↦
          let next : (count + 1) % 2 ^ 64 ≡ count + 1 = omega arith in
          let (stale, u, e) =
            stale_from-Uncopied actions (count + 1) (min (bytes + partial.bytes) u64_max) rest
              (omega arith) (omega arith) in
          (
            (path, partial) ∷ stale,
            kept (λ c. ground (arith, IsCopied-contains actions path c)) u,
            rw (dead, next) (e ∙ ground arith),
          )
    ]

-- The stale partials are those that no copy of the plan is for: their number, and their bytes cut
-- off at the largest `u64`. There are fewer than 2^64 partials.
pub stale_partials-Uncopied :
    (p : Plan) (partials : Partials)
    → length partials < 2 ^ 64
    → (stale : Partials) × Uncopied p.actions partials stale
      × (stale_partials p partials ≡ (length stale, min (total_bytes stale) u64_max))
unfolding stale_partials
stale_partials-Uncopied p partials h =
    let (stale, u, e) = stale_from-Uncopied p.actions 0 0 partials (omega arith) (omega arith) in
    (stale, u, e ∙ ground arith)
