-- ===== src/Remote/Rounds.antt =====
-- One round of a walk, for crates/mtpx-core/src/internal/mtp/scan.rs.
use mtpx.Base.{
  ℕ, ◌≡◌, ◌⊎◌, inl, inr, refl, Bool, true, false, List, [], ◌∷◌, Option, Result, ok, err,
  if◌then◌else◌,
}
use mtpx.Mtp.{MtpError}
use mtpx.Path.RelPath.{RelPath}
use mtpx.Error.{Error, from_mtp}
use mtpx.Remote.Storage.{Collection, Storage}
use mtpx.Remote.Listing.{Listing, classify, listed, list_folder}
use mtpx.Remote.Walk.{
  Walking, Round, ended, next, round, round_of, after_check, after_listing, with_listing,
  ensure_live,
}

module _ {Other : Type 0} (storage : Storage Other) where
  -- What ends a walk before it is through: the token, which says that it is cancelled, or the error
  -- that the device gave to a listing.
  abbrev pub IsFailure : Error Other → Type 0
  IsFailure e =
      ((w : storage.World) × ((storage.is_cancelled w).0 ≡ true) × (e ≡ Error.cancelled))
      ⊎ ((handle : Option ℕ) × (w : storage.World) × (x : MtpError Other)
          × ((storage.collect_objects handle w).0 ≡ err x)
          × (e ≡ from_mtp x))

  -- The next pending folder was listed.
  pub record IsAdvance (pending : List (RelPath × Option ℕ)) (s s' : Walking storage) : Type 0 where
    pub path : RelPath
    pub handle : Option ℕ
    pub rest : List (RelPath × Option ℕ)
    pub collection : Collection Other storage.Date
    pub listing : Listing storage
    pub before : storage.World
    pub after : storage.World
    pub popped : pending ≡ (path, handle) ∷ rest
    pub collected : (storage.collect_objects handle before).0 ≡ ok collection
    pub classified : listing.children ≡ (classify storage path collection.objects).children
    pub visited : s' ≡ with_listing storage path rest listing after s

  abbrev pub IsRound : List (RelPath × Option ℕ) → Walking storage → Round storage → Type 0
  IsRound pending s (ended (ok walked) w) = (pending ≡ []) × (walked ≡ s.walked)
  IsRound pending s (ended (err e) w) = IsFailure e
  IsRound pending s (next s') = IsAdvance pending s s'

  after_listing-IsRound :
      (path : RelPath) (handle : Option ℕ) (rest : List (RelPath × Option ℕ)) (s : Walking storage)
      (w w' : storage.World) (r : Result (Collection Other storage.Date) (MtpError Other))
      → (storage.collect_objects handle w).0 ≡ r
      → IsRound
          ((path, handle) ∷ rest)
          s
          (after_listing storage path rest s (listed storage path r) w')
  after_listing-IsRound path handle rest s w w' (err e) h = inr (handle, w, e, h, refl)
  after_listing-IsRound path handle rest s w w' (ok collection) h = record {
    path = path;
    handle = handle;
    rest = rest;
    collection = collection;
    listing = _;
    before = w;
    after = w';
    popped = refl;
    collected = h;
    classified = refl;
    visited = refl;
  }

  round_of-IsRound :
      (pending : List (RelPath × Option ℕ)) (s : Walking storage)
      → IsRound pending s (round_of storage pending s)
  unfolding ensure_live list_folder
  round_of-IsRound [] s = (refl, refl)
  round_of-IsRound ((path, handle) ∷ rest) s =
      let (cancelled, w) = storage.is_cancelled s.world in checked cancelled w refl
    where
      checked :
          (cancelled : Bool) (w : storage.World)
          → (storage.is_cancelled s.world).0 ≡ cancelled
          → IsRound ((path, handle) ∷ rest) s (
              after_check storage path handle rest s
                (if cancelled then err Error.cancelled else ok tt)
                w)
      checked true w said = inl (s.world, said, refl)
      checked false w said =
          let (r, w') = storage.collect_objects handle w in
          after_listing-IsRound path handle rest s w w' r refl

  pub round-IsRound : (s : Walking storage) → IsRound s.pending s (round storage s)
  unfolding round
  round-IsRound s = round_of-IsRound s.pending s
