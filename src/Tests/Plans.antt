-- ===== src/Tests/Plans.antt =====
-- crates/mtpx-core/src/planner.rs on concrete snapshots.
use mtpx.Base.{ℕ, ◌≡◌, refl, [], ◌∷◌, ◌++◌, List, none, ok, err, Result, All}
use mtpx.Std.Text.{Str, codes}
use mtpx.Path.RelPath.{starts_with}
use mtpx.Entry.{Entry, EntryKind, file, dir}
use mtpx.Snapshot
use mtpx.Snapshot.{Snapshot}
use mtpx.Snapshot.Sorted.{IsSorted}
use mtpx.Options
use mtpx.Options.{pull, sync}
use mtpx.Partial.{matches}
use mtpx.Plan
use mtpx.Plan.{Action, Plan, mkdir, copy, skip, size_differs, identical, kind_conflict, new_plan}
use mtpx.Error.{Error, conflicts}
use mtpx.Planner.{
  Partials, plan, decided, decide_all, decide, claim, place, place_dir, refuse, decide_dir,
  decide_file, decide_conflict, get, new_index, collides, lookup, refused_or, collect_conflicts,
  conflicts_from, is_some_conflict, into_plan, exact, case_insensitive, new_decider,
}
use mtpx.Planner.Index.{found_at, get-new_index}
use mtpx.Planner.Justified.{IsJustified}
use mtpx.Planner.Sound.{plan-IsJustified}
use mtpx.Planner.Coverage.{Share, Covers, plan-Covers}
use mtpx.Planner.Parents.{HasParents, plan-HasParents}
use mtpx.Planner.Refusal.{PlainShare, plan-IsPlain}
use mtpx.Planner.Subtrees.{decide_remembering, decide_all-eq_remembering}

abbrev as_is : Str → Str
as_is s = s

abbrev entry : EntryKind → List Str → ℕ → Entry
entry kind path size = record { path = path; kind = kind; size = size; modified = none }

abbrev snapshot : List Entry → Snapshot
snapshot entries = record { label = []; entries = entries; skipped = [] }

abbrev phone : Snapshot
phone = snapshot (
    entry file (codes "a" ∷ []) 10
    ∷ entry dir (codes "d" ∷ []) 0
    ∷ entry file (codes "d" ∷ codes "x" ∷ []) 3
    ∷ entry dir (codes "e" ∷ []) 0
    ∷ entry file (codes "e" ∷ codes "y" ∷ []) 5
    ∷ [])

-- `d` is a file here.
abbrev disk : Snapshot
disk = snapshot (entry file (codes "a" ∷ []) 9 ∷ entry file (codes "d" ∷ []) 1 ∷ [])

abbrev resumed : Partials
resumed =
    (
      codes "e" ∷ codes "y" ∷ [],
      record { fingerprint = record { size = 5; modified = none }; bytes = 4 },
    )
    ∷ []

abbrev synced : Plan
synced = record {
  actions =
      mkdir (codes "e" ∷ [])
      ∷ copy (codes "a" ∷ []) 10 none 0 size_differs
      ∷ skip (codes "d" ∷ []) kind_conflict
      ∷ skip (codes "d" ∷ codes "x" ∷ []) kind_conflict
      ∷ copy (codes "e" ∷ codes "y" ∷ []) 5 none 4 Plan.new
      ∷ [];
  summary = record {
    files_to_copy = 2;
    bytes_to_copy = 11;
    resumable_bytes = 4;
    files_to_skip = 2;
  };
}

phone_syncs : ◌≡◌ {A = Result Plan (Error ⊥)} (plan as_is phone disk exact resumed sync) (ok synced)
unfolding plan decided decide_all decide claim place place_dir refuse decide_dir decide_file
    decide_conflict get new_index collides lookup into_plan new_plan matches starts_with
    Snapshot.get
phone_syncs = refl

phone_refused :
    ◌≡◌ {A = Result Plan (Error ⊥)}
      (plan as_is phone disk exact resumed pull)
      (err (conflicts ((codes "a" ∷ []) ∷ (codes "d" ∷ []) ∷ [])))
unfolding plan refused_or collect_conflicts conflicts_from is_some_conflict get new_index collides
    Snapshot.get
phone_refused = refl

plan-IsJustified_example :
    All
      (IsJustified as_is phone.entries
        (new_index as_is disk exact)
        exact
        resumed
        Options.source_wins)
      synced.actions
plan-IsJustified_example = plan-IsJustified as_is phone disk exact resumed sync phone_syncs

abbrev empty_disk : Snapshot
empty_disk = snapshot (entry file (codes "a" ∷ []) 10 ∷ [])

abbrev pulled : Plan
pulled = record {
  actions =
      mkdir (codes "d" ∷ [])
      ∷ mkdir (codes "e" ∷ [])
      ∷ skip (codes "a" ∷ []) identical
      ∷ copy (codes "d" ∷ codes "x" ∷ []) 3 none 0 Plan.new
      ∷ copy (codes "e" ∷ codes "y" ∷ []) 5 none 4 Plan.new
      ∷ [];
  summary = record { files_to_copy = 2; bytes_to_copy = 4; resumable_bytes = 4; files_to_skip = 1 };
}

pull_fresh :
    ◌≡◌ {A = Result Plan (Error ⊥)} (plan as_is phone empty_disk exact resumed pull) (ok pulled)
unfolding plan decided decide_all decide claim place place_dir refuse decide_dir decide_file
    decide_conflict get new_index collides lookup into_plan new_plan matches starts_with
    Snapshot.get refused_or collect_conflicts conflicts_from is_some_conflict
pull_fresh = refl

plan-IsPlain_example :
    (m f : List Action) × (pulled.actions ≡ m ++ f)
    × Covers (PlainShare (get as_is (new_index as_is empty_disk exact)) resumed) phone.entries m f
plan-IsPlain_example = plan-IsPlain as_is phone empty_disk exact resumed pull refl pull_fresh

phone-IsSorted : IsSorted phone.entries
phone-IsSorted = (
  (refl, (refl, (refl, (refl, tt)))),
  ((refl, (refl, (refl, tt))), ((refl, (refl, tt)), ((refl, tt), (tt, tt)))),
)

decide_all-eq_remembering_example :
    into_plan (
      decide_all as_is
        (new_index as_is disk exact)
        resumed
        Options.source_wins
        (new_decider as_is exact)
        phone.entries)
    ≡ into_plan (
        decide_remembering as_is
          (new_index as_is disk exact)
          resumed
          Options.source_wins
          (new_decider as_is exact)
          []
          phone.entries)
decide_all-eq_remembering_example =
    decide_all-eq_remembering as_is (new_index as_is disk exact) exact resumed Options.source_wins
      phone.entries phone-IsSorted

plan-Covers_example :
    (m f : List Action) × (synced.actions ≡ m ++ f)
    × Covers (Share (get as_is (new_index as_is disk exact))) phone.entries m f
plan-Covers_example = plan-Covers as_is phone disk exact resumed sync phone_syncs

plan-HasParents_example :
    All (HasParents as_is (new_index as_is disk exact) phone.entries synced.actions) synced.actions
plan-HasParents_example =
    plan-HasParents as_is phone disk exact resumed sync phone-IsSorted phone_syncs

get-new_index_example :
    get as_is (new_index as_is (Snapshot.new [] phone.entries []) case_insensitive) (codes "e" ∷ [])
    ≡ found_at as_is case_insensitive [] phone.entries [] (codes "e" ∷ [])
get-new_index_example = get-new_index as_is case_insensitive [] phone.entries [] (codes "e" ∷ [])
