-- ===== src/Tests/Walks.antt =====
-- crates/mtpx-core/src/internal/mtp on a small device.
use mtpx.Base.{
  ℕ, ◌≡◌, refl, Bool, true, false, List, [], ◌∷◌, Option, none, some, Result, ok, map, arith, ◌<◌,
  subst, All,
}
use mtpx.Std.Text.{Str, codes}
use mtpx.Remote.Storage.{ObjectInfo, Collection, Storage, ListingItem}
use mtpx.Remote.Storage
use mtpx.Mtp.{MtpError}
use mtpx.Remote.Listing.{
  classify, classify_zip, repeated_names, repeated_from, child_path, list_folder,
}
use mtpx.Path.RelPath.{RelPath, join, root}
use mtpx.Path.Segment.{validate_segment}
use mtpx.Error.{Error}
use mtpx.Partial.{is_reserved_name}
use mtpx.Remote.Named.{IsListing, classify-IsListing}
use mtpx.Remote.Walk.{
  Walked, walk, walk_from, round, ensure_live, visit, visit_all, announce, record_child, entry_from,
  skip,
}
use mtpx.Remote.Finite.{IsFinite}
use mtpx.Remote.Pick.{pick_file}
use mtpx.Remote.Picked.{IsPicked, pick_file-IsPicked}
use mtpx.Remote.Walks.{Ends, walk-Ends}
use mtpx.Remote.Tree.{path_of}

abbrev object : ℕ → Bool → Str → ObjectInfo ℕ
object handle is_folder name = record {
  handle = handle;
  filename = name;
  is_folder = is_folder;
  size = 9;
  modified = some 7;
}

-- The name `note` stands twice, and the folder `again` is `DCIM` itself.
abbrev pub objects_in : Option ℕ → List (ObjectInfo ℕ)
objects_in none =
    object 1 true (codes "DCIM")
    ∷ object 2 false (codes "note")
    ∷ object 3 false (codes "note")
    ∷ []
objects_in (some handle) = object 4 false (codes "a.jpg") ∷ object 1 true (codes "again") ∷ []

abbrev pub streamed : List (ObjectInfo ℕ) → List (Result (ListingItem ⊥ ℕ) (MtpError ⊥))
streamed [] = []
streamed (info ∷ objects) = ok (Storage.object info) ∷ streamed objects

abbrev pub device : Storage ⊥
device = record {
  World = Unit {0};
  Date = ℕ;
  from_mtp = λ date. some (record { unix_seconds = date });
  error_text = λ e. codes "refused";
  path_error_text = λ e. codes "invalid";
  root_handle = 0;
  is_stale_handle = λ e. false;
  is_cancelled = λ w. (false, w);
  on_found = λ n w. w;
  collect_objects = λ parent w. (ok (record { objects = objects_in parent; refused = [] }), w);
  get_object_info = λ handle w. (ok (object handle false (codes "a.jpg")), w);
  list_objects_stream = λ folder w. (ok (streamed (objects_in folder)), w);
}

abbrev paths_of : Option (Result Walked (Error ⊥) × Unit {0}) → List RelPath
paths_of (some (ok walked, w)) = map path_of walked.entries
paths_of _ = []

device_walks :
    paths_of (walk device 6 none tt)
    ≡ (codes "DCIM" ∷ []) ∷ (codes "note" ∷ []) ∷ (codes "DCIM" ∷ codes "a.jpg" ∷ []) ∷ []
unfolding walk walk_from round ensure_live visit visit_all announce record_child entry_from skip
    list_folder classify classify_zip repeated_names repeated_from child_path join is_reserved_name
    validate_segment
device_walks = refl

pub device-IsFinite : IsFinite device 5
device-IsFinite = record { described = described }
  where
    small : (parent : Option ℕ) → All (λ info. info.handle < 5) (objects_in parent)
    small none = (omega arith, (omega arith, (omega arith, tt)))
    small (some handle) = (omega arith, (omega arith, tt))

    described :
        (parent : Option ℕ) (w : Unit {0}) (c : Collection ⊥ ℕ)
        → (device.collect_objects parent w).0 ≡ ok c
        → All (λ info. info.handle < 5) c.objects
    described parent w c h =
        let same : record { objects = objects_in parent; refused = [] } ≡ c = cc h in
        subst (λ x. All (λ info. info.handle < 5) x.objects) same (small parent)

walk-Ends_example : Ends device none (walk device 6 none tt)
walk-Ends_example = walk-Ends device 5 none device-IsFinite tt (omega arith)

classify-IsListing_example :
    IsListing device root (objects_in none) (classify device root (objects_in none))
classify-IsListing_example = classify-IsListing device root (objects_in none)

abbrev note : ObjectInfo ℕ
note = object 2 false (codes "note")

pick_file-IsPicked_example : IsPicked device none note (pick_file device none note tt).0
pick_file-IsPicked_example = pick_file-IsPicked device none note tt
