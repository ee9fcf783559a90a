-- ===== src/Remote/Walk.antt =====
-- Walking the folders beneath a root, from crates/mtpx-core/src/internal/mtp/scan.rs. The last pending
-- folder is the head of its list, and a hash set is a list without repetition.
use mtpx.Base.{
  ℕ, zero, suc, nat_eq, any, length, Bool, ◌&&◌, List, [], ◌∷◌, ◌++◌, Option, none, some, Result,
  ok, err, if◌then◌else◌,
}
use mtpx.Std.Text.{Str}
use mtpx.Path.RelPath.{RelPath, root}
use mtpx.Entry.{Entry, file, dir, ModifiedTime}
use mtpx.Snapshot.{SkippedEntry}
use mtpx.Error.{Error}
use mtpx.Remote.Storage.{Storage}
use mtpx.Remote.Listing.{Object, Listing, list_folder, listed_twice}

-- What a walk learned.
pub record Walked : Type 0 where
  pub entries : List Entry
  pub handles : List (RelPath × ℕ)
  pub skipped : List SkippedEntry

abbrev pub has_handle : ℕ → List ℕ → Bool
has_handle handle visited = any (λ h. nat_eq h handle) visited

unfoldable pub skip : RelPath → Str → Walked → Walked
skip parent reason walked = record walked {
  skipped = walked.skipped ++ ((record { parent = parent; reason = reason }) ∷ []);
}

module _ {Other : Type 0} (storage : Storage Other) where
  abbrev pub modified_of : Option storage.Date → Option ModifiedTime
  modified_of none = none
  modified_of (some date) = storage.from_mtp date

  unfoldable pub entry_from : RelPath → Object storage → Entry
  entry_from path info = record {
    path = path;
    kind = if info.is_folder then dir else file;
    size = if info.is_folder then 0 else info.size;
    modified = modified_of info.modified;
  }

  pub record Walking : Type 0 where
    pub walked : Walked
    pub pending : List (RelPath × Option ℕ)
    pub visited : List ℕ
    pub world : storage.World

  unfoldable pub ensure_live : storage.World → Result (Unit {0}) (Error Other) × storage.World
  ensure_live w =
      let (cancelled, w') = storage.is_cancelled w in
      (if cancelled then err Error.cancelled else ok tt, w')

  -- `Walked::record`, with the handle marked as visited.
  unfoldable pub record_child : RelPath → Object storage → Walking → Walking
  record_child child info s = record s {
    walked = record s.walked {
      handles = s.walked.handles ++ ((child, info.handle) ∷ []);
      entries = s.walked.entries ++ (entry_from child info ∷ []);
    };
    pending = if info.is_folder then (child, some info.handle) ∷ s.pending else s.pending;
    visited = if info.is_folder then info.handle ∷ s.visited else s.visited;
  }

  unfoldable pub announce : Walking → Walking
  announce s = record s { world = storage.on_found (length s.walked.entries) s.world }

  unfoldable pub visit : RelPath → RelPath × Object storage → Walking → Walking
  visit path (child, info) s =
      if info.is_folder && has_handle info.handle s.visited
      then record s { walked = skip path listed_twice s.walked }
      else announce (record_child child info s)

  unfoldable pub visit_all : RelPath → List (RelPath × Object storage) → Walking → Walking
  visit_all path [] s = s
  visit_all path (child ∷ children) s = visit_all path children (visit path child s)

  abbrev pub with_listing :
      RelPath → List (RelPath × Option ℕ) → Listing storage → storage.World → Walking → Walking
  with_listing path rest listing w s = visit_all path listing.children (record s {
    walked = record s.walked { skipped = s.walked.skipped ++ listing.skipped };
    pending = rest;
    world = w;
  })

  -- One round of the loop: it ends, or it goes on.
  pub data Round : Type 0 where
    ended : Result Walked (Error Other) → storage.World → Round
    next : Walking → Round

  abbrev pub after_listing :
      RelPath
      → List (RelPath × Option ℕ)
      → Walking
      → Result (Listing storage) (Error Other)
      → storage.World
      → Round
  after_listing path rest s (err e) w = ended (err e) w
  after_listing path rest s (ok listing) w = next (with_listing path rest listing w s)

  abbrev pub after_check :
      RelPath
      → Option ℕ
      → List (RelPath × Option ℕ)
      → Walking
      → Result (Unit {0}) (Error Other)
      → storage.World
      → Round
  after_check path handle rest s (err e) w = ended (err e) w
  after_check path handle rest s (ok _) w =
      let (listing, w') = list_folder storage handle path w in after_listing path rest s listing w'

  abbrev pub round_of : List (RelPath × Option ℕ) → Walking → Round
  round_of [] s = ended (ok s.walked) s.world
  round_of ((path, handle) ∷ rest) s =
      let (live, w) = ensure_live s.world in after_check path handle rest s live w

  unfoldable pub round : Walking → Round
  round s = round_of s.pending s

  -- `none` is a walk that needs more rounds.
  unfoldable pub walk_from : ℕ → Walking → Option (Result Walked (Error Other) × storage.World)
  walk_from zero s = none
  walk_from (suc fuel) s = elim (round s) [
    | ended result w ↦ some (result, w)
    | next s' ↦ walk_from fuel s'
  ]

  abbrev pub handle_or_root : Option ℕ → ℕ
  handle_or_root none = storage.root_handle
  handle_or_root (some handle) = handle

  unfoldable pub walk :
      ℕ → Option ℕ → storage.World → Option (Result Walked (Error Other) × storage.World)
  walk fuel folder w = walk_from fuel (record {
    walked = record { entries = []; handles = []; skipped = [] };
    pending = (root, folder) ∷ [];
    visited = handle_or_root folder ∷ [];
    world = w;
  })
