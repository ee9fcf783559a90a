-- ===== src/Remote/Walks.antt =====
-- A whole walk, for crates/mtpx-core/src/internal/mtp/scan.rs.
use mtpx.Base.{
  ℕ, zero, suc, ◌+◌, ◌<◌, ◌≡◌, inl, refl, sym, subst, ap, List, [], ◌∷◌, length, map, Option, some,
  Result, ok, err, All, All-map, All-elem, Distinct, arith,
}
use mtpx.Path.RelPath.{RelPath}
use mtpx.Error.{Error}
use mtpx.Remote.Storage.{Storage}
use mtpx.Remote.Walk.{Walked, Walking, Round, ended, next, round, walk_from, walk, handle_or_root}
use mtpx.Remote.Rounds.{IsFailure, IsAdvance, IsRound, round-IsRound}
use mtpx.Remote.Tree.{path_of, IsFolderOf, IsBeneath, IsTree}
use mtpx.Remote.Growing.{with_listing-IsTree}
use mtpx.Remote.Seen.{Found, IsFound, IsGathered, with_listing-IsGathered}
use mtpx.Remote.Finite.{IsFinite, children-below, with_listing-IsBounded}
use mtpx.Remote.Pigeons.{length-below}

module _ {Other : Type 0} (storage : Storage Other) (folder : Option ℕ) where
  -- The entries have paths of their own, and each is named beneath the root or a directory among the
  -- entries. Entries and handles are those of objects that the device listed, each in the folder that
  -- its path is beneath.
  pub record IsWholeTree (walked : Walked) : Type 0 where
    pub distinct : Distinct (map path_of walked.entries)
    pub beneath : All (IsBeneath (IsFolderOf walked.entries)) walked.entries
    pub found : Found storage folder
    pub objects : IsFound storage folder walked found

  abbrev pub IsOutcome : Result Walked (Error Other) → Type 0
  IsOutcome (ok walked) = IsWholeTree walked
  IsOutcome (err e) = IsFailure storage e

  abbrev pub Ends : Option (Result Walked (Error Other) × storage.World) → Type 0
  Ends o = (r : Result Walked (Error Other)) × (w : storage.World) × (o ≡ some (r, w)) × IsOutcome r

  IsTree-IsWholeTree :
      (done : List RelPath) (walked : Walked) (pending : List (RelPath × Option ℕ))
      → IsTree storage done walked pending
      → (found : Found storage folder) → IsFound storage folder walked found
      → IsWholeTree walked
  IsTree-IsWholeTree done walked pending t found objects = record {
    distinct = t.distinct;
    beneath =
        All-map _ _
          (λ e (parent, name, listed, named). (
            parent,
            name,
            All-elem (IsFolderOf walked.entries) parent done t.folders listed,
            named,
          ))
          walked.entries t.beneath;
    found = found;
    objects = objects;
  }

module _ {Other : Type 0} (storage : Storage Other) (limit : ℕ) (folder : Option ℕ)
    (finite : IsFinite storage limit) where
  -- The rounds that are left are enough for the folders that may still be visited.
  record IsReady (fuel : ℕ) (s : Walking storage) : Type 0 where
    done : List RelPath
    tree : IsTree storage done s.walked s.pending
    found : Found storage folder
    gathered : IsGathered storage folder s.walked s.pending found
    distinct : Distinct s.visited
    below : All (λ h. h < limit) s.visited
    enough : length s.pending + limit < fuel + length s.visited

  advance-IsReady :
      (fuel : ℕ) (s s' : Walking storage)
      → IsAdvance storage s.pending s s'
      → IsReady (suc fuel) s
      → IsReady fuel s'
  advance-IsReady fuel s s' a k =
      let small =
        children-below storage limit a.path a.collection.objects a.listing.children a.classified
          (finite.described a.handle a.before a.collection a.collected) in
      let (distinct, below, balanced) =
        with_listing-IsBounded storage limit a.path a.rest a.listing a.after s small k.distinct
          k.below in
      let (found, gathered) =
        with_listing-IsGathered storage folder a.path a.handle a.rest a.collection a.listing
          a.before a.after s k.found a.collected a.classified
          (subst (λ p. IsGathered storage folder s.walked p k.found) a.popped k.gathered) in
      subst (IsReady fuel) (sym a.visited) (record {
        done = a.path ∷ k.done;
        tree =
            with_listing-IsTree storage k.done a.path a.handle a.rest a.collection.objects a.listing
              a.after s a.classified (subst (IsTree storage k.done s.walked) a.popped k.tree);
        found = found;
        gathered = gathered;
        distinct = distinct;
        below = below;
        enough = omega (arith, balanced, k.enough, ap length a.popped);
      })

  walk_from-Ends :
      (fuel : ℕ) (s : Walking storage)
      → IsReady fuel s
      → Ends storage folder (walk_from storage fuel s)
  unfolding walk_from
  walk_from-Ends zero s k =
      absurd (omega (arith, k.enough, length-below limit s.visited k.distinct k.below))
  walk_from-Ends (suc fuel) s k =
      ends (round storage s) (round-IsRound storage s)
        (λ s' a. walk_from-Ends fuel s' (advance-IsReady fuel s s' a k))
    where
      ends :
          (r : Round storage)
          → IsRound storage s.pending s r
          → ((s' : Walking storage)
              → IsAdvance storage s.pending s s'
              → Ends storage folder (walk_from storage fuel s'))
          → Ends storage folder
              (elim r [ ended result w ↦ some (result, w) | next s' ↦ walk_from storage fuel s' ])
      ends (ended (ok walked) w) (none_left, same) more = (
        ok walked,
        w,
        refl,
        subst (IsWholeTree storage folder) (sym same) (
            IsTree-IsWholeTree storage folder k.done s.walked s.pending k.tree k.found
              k.gathered.0),
      )
      ends (ended (err e) w) h more = (err e, w, refl, h)
      ends (next s') a more = more s' a

  -- Where the handles are below a bound, a walk from a folder ends, in one round more than the bound.
  -- It fails only because the token said that it is cancelled, or with the error that the device gave
  -- to a listing. Otherwise no two entries have the same path; each has a valid name that is not
  -- reserved, beneath the root or a directory that is an entry too; and the entries and the handles
  -- are, in their order, those of objects that the device listed in the folder above their path, which
  -- was listed by the walked folder's handle or by that of the folder found at that path.
  pub walk-Ends :
      (w : storage.World)
      → handle_or_root storage folder < limit
      → Ends storage folder (walk storage (suc limit) folder w)
  unfolding walk
  walk-Ends w small = walk_from-Ends (suc limit) _ (record {
    done = [];
    tree = record {
      distinct = tt;
      beneath = tt;
      folders = tt;
      waiting = record { ahead = ((λ m. m), tt); apart = ((λ m. m), tt); known = (inl refl, tt) };
    };
    found = [];
    gathered = (record { entries = refl; handles = refl; seen = tt }, (inl (refl, refl), tt));
    distinct = ((λ m. m), tt);
    below = (small, tt);
    enough = omega arith;
  })
