-- ===== src/Hints.antt =====
-- What a plan is announced with, from crates/mtpx-core/src/device/pull.rs.
pub mod Stale
use mtpx.Base.{
  ℕ, ◌+◌, ◌^◌, ◌%◌, Bool, true, false, not, ◌&&◌, List, [], ◌∷◌, ◌++◌, any, ltb, if◌then◌else◌,
  Option, none, some, ◌==◌, nat_ord, list_ord,
}
use mtpx.Mtp
use mtpx.Mtp.{UsbSpeed}
use mtpx.Path.RelPath.{RelPath}
use mtpx.Snapshot.{Snapshot, SkippedEntry}
use mtpx.Partial.{PartialInfo}
use mtpx.Plan
use mtpx.Plan.{Action, Plan, saturating_add}
use mtpx.Planner.{Partials}
use mtpx.Event
use mtpx.Event.{Hint}

abbrev pub slow_link_bytes : ℕ
slow_link_bytes = 2 ^ 30

unfoldable pub is_slow : Option UsbSpeed → Bool
is_slow (some Mtp.low) = true
is_slow (some Mtp.full) = true
is_slow (some Mtp.high) = true
is_slow _ = false

-- The paths of the copies
unfoldable pub resumed : List Action → List RelPath
resumed [] = []
resumed (Plan.copy path size modified resume_from reason ∷ rest) = path ∷ resumed rest
resumed (Plan.mkdir path ∷ rest) = resumed rest
resumed (Plan.skip path reason ∷ rest) = resumed rest

-- `HashSet::contains`
abbrev pub contains : List RelPath → RelPath → Bool
contains paths path = any (λ q. q == path) paths

-- The fold over the partials, with the count and the bytes so far.
unfoldable pub stale_from : List RelPath → ℕ → ℕ → Partials → ℕ × ℕ
stale_from live count bytes [] = (count, bytes)
stale_from live count bytes ((path, partial) ∷ rest) =
    let counted =
      stale_from live ((count + 1) % 2 ^ 64) (saturating_add bytes partial.bytes) rest in
    let passed = stale_from live count bytes rest in if contains live path then passed else counted

unfoldable pub stale_partials : Plan → Partials → ℕ × ℕ
unfolding stale_from resumed
stale_partials plan partials = stale_from (resumed plan.actions) 0 0 partials

abbrev slow_hints : Bool → ℕ → List Hint
slow_hints slow bytes = if slow && ltb slow_link_bytes bytes then Event.slow_link bytes ∷ [] else []

abbrev skipped_hints : List SkippedEntry → List Hint
skipped_hints [] = []
skipped_hints (s ∷ ss) = Event.device_skipped_objects (s ∷ ss) ∷ []

abbrev stale_hints : ℕ × ℕ → List Hint
stale_hints (count, bytes) = if ltb 0 count then Event.stale_partials count bytes ∷ [] else []

unfoldable pub hints : Option UsbSpeed → Plan → Snapshot → Partials → List Hint
unfolding is_slow stale_partials
hints speed plan source partials =
    slow_hints (is_slow speed) plan.summary.bytes_to_copy
    ++ (skipped_hints source.skipped ++ stale_hints (stale_partials plan partials))
