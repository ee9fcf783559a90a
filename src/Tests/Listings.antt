-- ===== src/Tests/Listings.antt =====
-- crates/mtpx-core/src/entry.rs and crates/mtpx-core/src/plan.rs on concrete listings.
use mtpx.Base.{ℕ, ◌≡◌, refl, [], ◌∷◌, List, none, some}
use mtpx.Std.Text.{Str, codes}
use mtpx.Entry.{Entry, file}
use mtpx.Snapshot
use mtpx.Snapshot.Sorted.{IsSorted, new-IsSorted}
use mtpx.Snapshot.Lookup.{find, get-new}
use mtpx.Plan.{Action, mkdir, copy, skip, new, identical, new_plan}
use mtpx.Plan.Totals.{new_plan-eq_totals}
use mtpx.Std.Numbers.{u64_max}

abbrev at : List Str → ℕ → Entry
at path size = record { path = path; kind = file; size = size; modified = none }

abbrev listing : List Entry
listing =
    at (codes "b" ∷ []) 1
    ∷ at (codes "a" ∷ codes "x" ∷ []) 2
    ∷ at (codes "b" ∷ []) 3
    ∷ at (codes "a" ∷ []) 4
    ∷ []

sorted_listing :
    (Snapshot.new [] listing []).entries
    ≡ at (codes "a" ∷ []) 4 ∷ at (codes "a" ∷ codes "x" ∷ []) 2 ∷ at (codes "b" ∷ []) 1 ∷ []
unfolding Snapshot.new
sorted_listing = refl

found : Snapshot.get (Snapshot.new [] listing []) (codes "b" ∷ []) ≡ some (at (codes "b" ∷ []) 1)
unfolding Snapshot.get Snapshot.new
found = refl

get-new_example :
    Snapshot.get (Snapshot.new [] listing []) (codes "b" ∷ []) ≡ find (codes "b" ∷ []) listing
get-new_example = get-new [] listing [] (codes "b" ∷ [])

new-IsSorted_example : IsSorted (Snapshot.new [] listing []).entries
new-IsSorted_example = new-IsSorted [] listing []

abbrev huge : List Action
huge =
    copy (codes "a" ∷ []) u64_max none 0 new
    ∷ copy (codes "b" ∷ []) 7 none 2 new
    ∷ skip (codes "c" ∷ []) identical
    ∷ mkdir (codes "d" ∷ [])
    ∷ []

new_plan-eq_totals_example :
    ((new_plan huge).actions ≡ huge)
    × ((new_plan huge).summary ≡ record {
      files_to_copy = 2;
      bytes_to_copy = u64_max;
      resumable_bytes = 2;
      files_to_skip = 1;
    })
new_plan-eq_totals_example = new_plan-eq_totals huge
