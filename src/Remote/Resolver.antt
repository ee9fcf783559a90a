-- ===== src/Remote/Resolver.antt =====
-- Paths to handles with a cache, from crates/mtpx-core/src/internal/mtp/resolver.rs. A hash map is an
-- association list whose first entry for a key counts. The lock is never contended here.
use mtpx.Base.{
  ℕ, Bool, true, false, List, [], ◌∷◌, map, Option, none, some, Result, ok, err, if◌then◌else◌,
  ◌==◌, nat_ord, list_ord,
}
use mtpx.Std.Text.{Str, codes}
use mtpx.Mtp.{MtpError}
use mtpx.Path.RelPath.{RelPath, join, parent}
use mtpx.Path.RelPath
use mtpx.Error.{Error, from_mtp}
use mtpx.Error
use mtpx.Remote.Storage.{Storage}
use mtpx.Remote.Listing.{Object, Listing, list_folder}

-- The methods of `HandleCache`.
abbrev pub HandleCache : Type 0
HandleCache = List (RelPath × ℕ)

unfoldable pub get : RelPath → HandleCache → Option ℕ
get path [] = none
get path ((key, handle) ∷ cache) =
    let rest = get path cache in if key == path then some handle else rest

unfoldable pub prime : List (RelPath × ℕ) → HandleCache → HandleCache
prime [] cache = cache
prime (entry ∷ entries) cache = prime entries (entry ∷ cache)

unfoldable pub remove : RelPath → HandleCache → HandleCache
remove path [] = []
remove path ((key, handle) ∷ cache) =
    let rest = remove path cache in if key == path then rest else (key, handle) ∷ rest

module _ {Other : Type 0} (storage : Storage Other) (root : Option ℕ) where
  pub record Resolver : Type 0 where
    pub cache : HandleCache
    pub world : storage.World

  unfoldable pub cached : RelPath → Resolver → Option ℕ
  cached path s = get path s.cache

  abbrev pub handles_of : List (RelPath × Object storage) → List (RelPath × ℕ)
  handles_of children = map (λ (path, info). (path, info.handle)) children

  -- `Option::ok_or`
  abbrev pub ok_or : {A : Type 0} → Error Other → Option A → Result A (Error Other)
  ok_or e none = err e
  ok_or e (some a) = ok a

  abbrev pub after_listing :
      RelPath
      → Result (Listing storage) (Error Other)
      → Resolver
      → Result ℕ (Error Other) × Resolver
  after_listing path (err e) s = (err e, s)
  after_listing path (ok listing) s =
      let s' = record s { cache = prime (handles_of listing.children) s.cache } in
      (ok_or (Error.source_vanished path) (cached path s'), s')

  abbrev pub unless_cached :
      Option ℕ → RelPath → RelPath → Resolver → Option ℕ → Result ℕ (Error Other) × Resolver
  unless_cached parent_handle parent path s (some handle) = (ok handle, s)
  unless_cached parent_handle parent path s none =
      let (listing, w) = list_folder storage parent_handle parent s.world in
      after_listing path listing (record s { world = w })

  unfoldable pub child : Option ℕ → RelPath → RelPath → Resolver → Result ℕ (Error Other) × Resolver
  child parent_handle parent path s = unless_cached parent_handle parent path s (cached path s)

  -- The loop of `listing_parent`, at the folder `current`.
  unfoldable pub descend :
      List Str → RelPath → Option ℕ → Resolver → Result (Option ℕ) (Error Other) × Resolver
  descend [] current handle s = (ok handle, s)
  descend (segment ∷ segments) current handle s = elim (join current segment) [
    | err e ↦ (err (Error.invalid_path e), s)
    | ok next ↦
        let (found, s') = child handle current next s in
        elim found [ err e ↦ (err e, s') | ok h ↦ descend segments next (some h) s' ]
  ]

  unfoldable pub listing_parent : RelPath → Resolver → Result (Option ℕ) (Error Other) × Resolver
  listing_parent dir s = descend dir RelPath.root root s

  abbrev pub root_unsupported : Error Other
  root_unsupported = Error.unsupported (codes "object operations on the storage root")

  abbrev pub resolve_beneath :
      RelPath → Option RelPath → Resolver → Result ℕ (Error Other) × Resolver
  resolve_beneath path none s = (ok_or root_unsupported root, s)
  resolve_beneath path (some dir) s =
      let (found, s') = listing_parent dir s in
      elim found [ err e ↦ (err e, s') | ok handle ↦ child handle dir path s' ]

  abbrev pub resolve_unless : RelPath → Option ℕ → Resolver → Result ℕ (Error Other) × Resolver
  resolve_unless path (some handle) s = (ok handle, s)
  resolve_unless path none s = resolve_beneath path (parent path) s

  unfoldable pub resolve : RelPath → Resolver → Result ℕ (Error Other) × Resolver
  resolve path s = resolve_unless path (cached path s) s

  -- An operation of the storage on an object.
  abbrev pub Operation : Type 0 → Type 0
  Operation T = ℕ → storage.World → Result T (MtpError Other) × storage.World

  abbrev pub lift : {T : Type 0} → Result T (MtpError Other) → Result T (Error Other)
  lift (ok t) = ok t
  lift (err e) = err (from_mtp e)

  unfoldable pub attempt :
      {T : Type 0} → RelPath → Operation T → Resolver → Result T (Error Other) × Resolver
  attempt path op s =
      let (found, s') = resolve path s in
      elim found [
        | err e ↦ (err e, s')
        | ok handle ↦ let (r, w) = op handle s'.world in (lift r, record s' { world = w })
      ]

  abbrev pub is_stale_result : {A : Type 0} → Result A (MtpError Other) → Bool
  is_stale_result (ok a) = false
  is_stale_result (err e) = storage.is_stale_handle e

  abbrev pub cached_parent : Option RelPath → Resolver → Option ℕ
  cached_parent none s = none
  cached_parent (some dir) s = cached dir s

  abbrev pub ask_parent : Option ℕ → Resolver → Bool × Resolver
  ask_parent none s = (false, s)
  ask_parent (some handle) s =
      let (r, w) = storage.get_object_info handle s.world in
      (is_stale_result r, record s { world = w })

  unfoldable pub parent_is_stale : RelPath → Resolver → Bool × Resolver
  parent_is_stale path s = ask_parent (cached_parent (parent path) s) s

  abbrev pub is_vanished : Error Other → Bool
  is_vanished (Error.source_vanished path) = true
  is_vanished _ = false

  unfoldable pub rekeyed :
      {T : Type 0} → RelPath → Result T (Error Other) → Resolver → Bool × Resolver
  rekeyed path (ok t) s = (false, s)
  rekeyed path (err e) s =
      let asked = parent_is_stale path s in
      if Error.is_stale_handle storage.is_stale_handle e
      then (true, s)
      else if is_vanished e
      then asked
      else (false, s)

  unfoldable pub recover :
      {T : Type 0} → RelPath → Operation T → Resolver → Result T (Error Other) × Resolver
  recover path op s =
      let (outcome, s1) = attempt path op (record s { cache = remove path s.cache }) in
      let (again, s2) = rekeyed path outcome s1 in
      elim again [ false ↦ (outcome, s2) | true ↦ attempt path op (record s2 { cache = [] }) ]

  abbrev pub is_stale : {T : Type 0} → Result T (Error Other) → Bool
  is_stale (ok t) = false
  is_stale (err e) = Error.is_stale_handle storage.is_stale_handle e

  unfoldable pub with_handle :
      {T : Type 0} → RelPath → Operation T → Resolver → Result T (Error Other) × Resolver
  with_handle path op s =
      let (outcome, s') = attempt path op s in
      elim (is_stale outcome) [ false ↦ (outcome, s') | true ↦ recover path op s' ]
