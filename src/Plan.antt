-- ===== src/Plan.antt =====
-- The logical plan, from crates/mtpx-core/src/plan.rs.
pub mod Totals
use mtpx.Base.{ℕ, ◌+◌, ◌-◌, min, Bool, true, false, List, [], ◌∷◌, length, Option}
use mtpx.Std.Numbers.{u64_max}
use mtpx.Path.RelPath.{RelPath}
use mtpx.Entry.{ModifiedTime}

pub data CopyReason : Type 0 where
  new size_differs : CopyReason

pub data SkipReason : Type 0 where
  identical conflict kind_conflict name_collision : SkipReason

pub data Action : Type 0 where
  mkdir : (path : RelPath) → Action
  copy :
      (path : RelPath) (size : ℕ) (modified : Option ModifiedTime) (resume_from : ℕ)
      (reason : CopyReason)
      → Action
  skip : (path : RelPath) (reason : SkipReason) → Action

pub record PlanSummary : Type 0 where
  pub files_to_copy : ℕ
  pub bytes_to_copy : ℕ
  pub resumable_bytes : ℕ
  pub files_to_skip : ℕ

-- `u64::saturating_add`; `saturating_sub` is the subtraction of the natural numbers.
abbrev pub saturating_add : ℕ → ℕ → ℕ
saturating_add a b = min (a + b) u64_max

-- `PlanSummary::add`
add : PlanSummary → Action → PlanSummary
add s (copy path size modified resume_from reason) = record s {
  files_to_copy = saturating_add s.files_to_copy 1;
  bytes_to_copy = saturating_add s.bytes_to_copy (size - resume_from);
  resumable_bytes = saturating_add s.resumable_bytes resume_from;
}
add s (skip path reason) = record s { files_to_skip = saturating_add s.files_to_skip 1 }
add s (mkdir path) = s

abbrev no_actions : PlanSummary
no_actions = record { files_to_copy = 0; bytes_to_copy = 0; resumable_bytes = 0; files_to_skip = 0 }

pub record Plan : Type 0 where
  pub actions : List Action
  pub summary : PlanSummary

summarise : PlanSummary → List Action → PlanSummary
summarise s [] = s
summarise s (a ∷ as') = summarise (add s a) as'

-- `Plan::new`
unfoldable pub new_plan : List Action → Plan
unfolding add summarise
new_plan actions = record { actions = actions; summary = summarise no_actions actions }

abbrev pub len : Plan → ℕ
len p = length p.actions

unfoldable pub is_empty : Plan → Bool
is_empty p = elim p.actions [ [] ↦ true | a ∷ as' ↦ false ]
