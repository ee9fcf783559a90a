-- ===== src/Plan/Totals.antt =====
-- The totals of a plan, for crates/mtpx-core/src/plan.rs.
use mtpx.Base.{ℕ, ◌+◌, ◌-◌, ◌≤◌, ◌≡◌, min, List, [], ◌∷◌, refl, arith}
use mtpx.Std.Numbers.{u64_max}
use mtpx.Plan.{Action, mkdir, copy, skip, PlanSummary, add, summarise, new_plan, no_actions}

-- What one action adds, without a bound.
abbrev pub copies : Action → ℕ
copies (copy path size modified resume_from reason) = 1
copies (mkdir path) = 0
copies (skip path reason) = 0

abbrev pub skips : Action → ℕ
skips (skip path reason) = 1
skips (mkdir path) = 0
skips (copy path size modified resume_from reason) = 0

abbrev pub bytes : Action → ℕ
bytes (copy path size modified resume_from reason) = size - resume_from
bytes (mkdir path) = 0
bytes (skip path reason) = 0

abbrev pub resumable : Action → ℕ
resumable (copy path size modified resume_from reason) = resume_from
resumable (mkdir path) = 0
resumable (skip path reason) = 0

abbrev pub total : (Action → ℕ) → List Action → ℕ
total f [] = 0
total f (a ∷ rest) = f a + total f rest

abbrev InRange : PlanSummary → Type 0
InRange s =
    (s.files_to_copy ≤ u64_max)
    × (s.bytes_to_copy ≤ u64_max)
    × (s.resumable_bytes ≤ u64_max)
    × (s.files_to_skip ≤ u64_max)

-- The totals from a start, each cut off at the largest `u64`.
abbrev pub cut_totals : PlanSummary → List Action → PlanSummary
cut_totals s l = record {
  files_to_copy = min (s.files_to_copy + total copies l) u64_max;
  bytes_to_copy = min (s.bytes_to_copy + total bytes l) u64_max;
  resumable_bytes = min (s.resumable_bytes + total resumable l) u64_max;
  files_to_skip = min (s.files_to_skip + total skips l) u64_max;
}

summarise-eq_totals :
    (s : PlanSummary) (l : List Action) → InRange s → summarise s l ≡ cut_totals s l
unfolding summarise add
summarise-eq_totals s [] h = ground arith
summarise-eq_totals s (mkdir p ∷ l) h = ground (arith, summarise-eq_totals s l h)
summarise-eq_totals s (skip p r ∷ l) h = ground (arith, summarise-eq_totals (add s (skip p r)) l)
summarise-eq_totals s (copy p size m r reason ∷ l) h =
    ground (arith, summarise-eq_totals (add s (copy p size m r reason)) l)

-- A plan keeps the actions it is made of as they are, and its summary is their totals, each cut off
-- at the largest `u64`.
pub new_plan-eq_totals :
    (l : List Action)
    → ((new_plan l).actions ≡ l)
      × ((new_plan l).summary ≡ record {
        files_to_copy = min (total copies l) u64_max;
        bytes_to_copy = min (total bytes l) u64_max;
        resumable_bytes = min (total resumable l) u64_max;
        files_to_skip = min (total skips l) u64_max;
      })
unfolding new_plan
new_plan-eq_totals l = (refl, summed)
  where
    summed : (new_plan l).summary ≡ record {
      files_to_copy = min (total copies l) u64_max;
      bytes_to_copy = min (total bytes l) u64_max;
      resumable_bytes = min (total resumable l) u64_max;
      files_to_skip = min (total skips l) u64_max;
    }
    summed = ground (arith, summarise-eq_totals no_actions l (omega arith))
