-- ===== src/Remote/Scan.antt =====
-- Scanning the device side, from crates/mtpx-core/src/internal/mtp/mod.rs.
use mtpx.Base.{
  ℕ, suc, ◌<◌, ◌≡◌, inl, inr, refl, sym, ap, subst, ◌∙◌, [], ◌∷◌, ◌++◌, map, Option, none, some,
  Result, ok, err, Elem, All, All-map, All-elem, Distinct, ◌⊎◌, nat_ord, list_ord,
}
use mtpx.Std.Text.{Str, codes}
use mtpx.Path.RelPath.{RelPath}
use mtpx.Path.RemotePath.{RemotePath, display}
use mtpx.Partial.{Identity}
use mtpx.Entry.{Entry}
use mtpx.Snapshot
use mtpx.Snapshot.{Snapshot}
use mtpx.Snapshot.Lookup.{get-new}
use mtpx.Error.{Error}
use mtpx.Remote.Storage.{Collection, Storage}
use mtpx.Remote.Listing.{Object}
use mtpx.Remote.Walk.{Walked, walk, handle_or_root}
use mtpx.Planner.{Partials, NameFolding}
use mtpx.Planner
use mtpx.Remote.Pick.{pick_file}
use mtpx.Remote.Picked.{IsGiven, IsPicked, pick_file-IsPicked}
use mtpx.Remote.Resolver.{Resolver, prime, cached}
use mtpx.Remote.Tree.{path_of, Elem-map}
use mtpx.Remote.Growing.{Elem-unmap}
use mtpx.Remote.Priming.{handle_path, find-Elem, get-prime}
use mtpx.Remote.Seen.{Found, entry_of, handle_of}
use mtpx.Remote.Finite.{IsFinite}
use mtpx.Remote.Walks.{IsOutcome, walk-Ends}

pub record ScanResult : Type 0 where
  pub snapshot : Snapshot
  pub partials : Partials
  pub folding : NameFolding

module _ {Other : Type 0} (storage : Storage Other) where
  pub record MtpEndpoint : Type 0 where
    pub root : RemotePath
    pub file : Option (Object storage)
    pub identity : Identity

  unfoldable pub label : MtpEndpoint → Str
  label endpoint =
      endpoint.identity.device_serial
      ++ (codes ":" ++ (endpoint.identity.storage ++ (codes ":" ++ display endpoint.root)))

  module _ (folder : Option ℕ) where
    abbrev pub look :
        ℕ
        → Option (Object storage)
        → storage.World
        → Option (Result Walked (Error Other) × storage.World)
    look fuel (some info) w = some (pick_file storage folder info w)
    look fuel none w = walk storage fuel folder w

    abbrev pub scanned :
        MtpEndpoint
        → Resolver storage folder
        → Result Walked (Error Other) × storage.World
        → Result ScanResult (Error Other) × Resolver storage folder
    scanned endpoint s (err e, w) = (err e, record s { world = w })
    scanned endpoint s (ok walked, w) = (
      ok (record {
        snapshot = Snapshot.new (label endpoint) walked.entries walked.skipped;
        partials = [];
        folding = Planner.exact;
      }),
      record s { cache = prime walked.handles s.cache; world = w },
    )

    abbrev pub after_look :
        MtpEndpoint
        → Resolver storage folder
        → Option (Result Walked (Error Other) × storage.World)
        → Option (Result ScanResult (Error Other) × Resolver storage folder)
    after_look endpoint s none = none
    after_look endpoint s (some (walked, w)) = some (scanned endpoint s (walked, w))

    unfoldable pub scan :
        ℕ
        → MtpEndpoint
        → Resolver storage folder
        → Option (Result ScanResult (Error Other) × Resolver storage folder)
    scan fuel endpoint s = after_look endpoint s (look fuel endpoint.file s.world)

    -- The device gave the object, in a listing or for a handle.
    abbrev pub IsAnswered : Object storage → Type 0
    IsAnswered info =
        ((h : Option ℕ) × (w : storage.World) × (c : Collection Other storage.Date)
          × ((storage.collect_objects h w).0 ≡ ok c)
          × Elem info c.objects)
        ⊎ ((h : ℕ) × (w : storage.World) × ((storage.get_object_info h w).0 ≡ ok info))

    -- Every path of the snapshot is that of an object that the device gave: the entry is the object's,
    -- and the cache has the object's handle for the path.
    abbrev pub IsPrimed : Result ScanResult (Error Other) × Resolver storage folder → Type 0
    IsPrimed (err e, s) = Unit
    IsPrimed (ok result, s) =
        (path : RelPath) (e : Entry)
        → Snapshot.get result.snapshot path ≡ some e
        → (info : Object storage) × IsAnswered info
          × (e ≡ entry_of storage folder (path, info))
          × (cached storage folder path s ≡ some info.handle)

module _ {Other : Type 0} (storage : Storage Other) (folder : Option ℕ)
    (endpoint : MtpEndpoint storage) (s : Resolver storage folder) where
  handle-path_of :
      (found : Found storage folder)
      → map path_of (map (entry_of storage folder) found)
        ≡ map handle_path (map (handle_of storage folder) found)
  handle-path_of [] = refl
  handle-path_of ((path, info) ∷ found) = ap (λ l. path ∷ l) (handle-path_of found)

  scanned-IsPrimed :
      (walked : Walked) (w : storage.World) (found : Found storage folder)
      → Distinct (map path_of walked.entries)
      → walked.entries ≡ map (entry_of storage folder) found
      → walked.handles ≡ map (handle_of storage folder) found
      → All (λ (p, info). IsAnswered storage folder info) found
      → IsPrimed storage folder (scanned storage folder endpoint s (ok walked, w))
  unfolding cached
  scanned-IsPrimed walked w found distinct entries handles given = λ path e h.
      let (there, at) =
        find-Elem path walked.entries e
          (sym (get-new (label storage endpoint) walked.entries walked.skipped path) ∙ h) in
      let ((key, info), m, same) =
        Elem-unmap (entry_of storage folder) e found (subst (Elem e) entries there) in
      let key_is : key ≡ path = sym (ap path_of same) ∙ at in
      let m' : Elem (path, info) found = subst (λ p. Elem (p, info) found) key_is m in
      let listed : Elem (path, info.handle) walked.handles =
        subst (Elem (path, info.handle)) (sym handles)
          (Elem-map (handle_of storage folder) (path, info) found m') in
      let apart : Distinct (map handle_path walked.handles) =
        subst (λ l. Distinct (map handle_path l)) (sym handles)
          (subst Distinct (handle-path_of found)
            (subst (λ l. Distinct (map path_of l)) entries distinct)) in
      (
        info,
        All-elem (λ (p, x). IsAnswered storage folder x) (path, info) found given m',
        same ∙ ap (λ p. entry_of storage folder (p, info)) key_is,
        get-prime path info.handle walked.handles s.cache apart listed,
      )

  picked-IsPrimed :
      (known : Object storage) (r : Result Walked (Error Other)) (w : storage.World)
      → IsPicked storage folder known r
      → IsPrimed storage folder (scanned storage folder endpoint s (r, w))
  picked-IsPrimed known (err e) w h = tt
  picked-IsPrimed known (ok walked) w (info, named, is_file, given, one) =
      scanned-IsPrimed walked w ((known.filename ∷ [], info) ∷ [])
        (subst (λ x. Distinct (map path_of x.entries)) (sym one) ((λ m. m), tt))
        (ap (λ x. x.entries) one ∙ rw is_file refl) (ap (λ x. x.handles) one) (answered given, tt)
    where
      answered : IsGiven storage folder known info → IsAnswered storage folder info
      answered (inl (w1, h)) = inr (known.handle, w1, h)
      answered (inr (w1, c, h, m)) = inl (folder, w1, c, h, m)

  walked-IsPrimed :
      (r : Result Walked (Error Other)) (w : storage.World)
      → IsOutcome storage folder r
      → IsPrimed storage folder (scanned storage folder endpoint s (r, w))
  walked-IsPrimed (ok walked) w h =
      scanned-IsPrimed walked w h.found h.distinct h.objects.entries h.objects.handles (
        All-map _ _ (λ (p, info) k. inl (k.handle, k.world, k.collection, k.collected, k.listed))
          h.found h.objects.seen)
  walked-IsPrimed (err e) w h = tt

-- Where the handles are below a bound, a scan of the device side ends. If it succeeds, every entry that
-- a lookup finds in its snapshot is that of an object that the device gave, and the cache then has that
-- object's handle for the path.
pub scan-IsPrimed :
    {Other : Type 0} (storage : Storage Other) (folder : Option ℕ) (endpoint : MtpEndpoint storage)
    (s : Resolver storage folder) (limit : ℕ)
    → IsFinite storage limit
    → handle_or_root storage folder < limit
    → (r : Result ScanResult (Error Other)) × (s' : Resolver storage folder) × (scan storage folder
          (suc limit)
          endpoint
          s
        ≡ some (r, s'))
      × IsPrimed storage folder (r, s')
unfolding scan
scan-IsPrimed storage folder endpoint s limit finite small =
    let (r, w, e, h) = looked endpoint.file in
    let (result, s') = scanned storage folder endpoint s (r, w) in
    (result, s', ap (after_look storage folder endpoint s) e, h)
  where
    looked :
        (file : Option (Object storage))
        → (r : Result Walked _) × (w : storage.World) × (look storage folder
              (suc limit)
              file
              s.world
            ≡ some (r, w))
          × IsPrimed storage folder (scanned storage folder endpoint s (r, w))
    looked (some info) =
        let (r, w) = pick_file storage folder info s.world in
        (
          r,
          w,
          refl,
          picked-IsPrimed storage folder endpoint s info r w
              (pick_file-IsPicked storage folder info s.world),
        )
    looked none =
        let (r, w, walks, outcome) = walk-Ends storage limit folder finite s.world small in
        (r, w, walks, walked-IsPrimed storage folder endpoint s r w outcome)
