-- ===== src/Remote/Opened.antt =====
-- Where a remote path leads, for crates/mtpx-core/src/internal/mtp/open.rs.
use mtpx.Base.{
  ℕ, zero, suc, ◌+◌, nat_eq, false, if◌then◌else◌, ◌≡◌, refl, sym, ap, ◌∙◌, inl, inr, Bool-cases,
  List, [], ◌∷◌, ◌++◌, Option, none, some, Result, ok, err, ◌==◌, nat_ord, list_ord, arith,
}
use mtpx.Std.Text.{Str}
use mtpx.Mtp.{MtpError}
use mtpx.Path.RelPath.{RelPath, split_last_segment}
use mtpx.Path.DevicePath.{DevicePath}
use mtpx.Error.{Error}
use mtpx.Remote.Storage.{ObjectInfo, Storage, ListingItem, object, undescribed}
use mtpx.Remote.Listing.{Object}
use mtpx.Remote.Locating.{first_named}
use mtpx.Remote.Resolved.{IsSplit, split_last_segment-IsSplit}
use mtpx.Remote.Open.{
  Target, target_found, not_found, find_item, find_in, find_child, entered, enter_all, target_of,
  locate_last, locate_root,
}

module _ {Other Date : Type 0} where
  -- The objects that were described, and the number of the others.
  abbrev pub described_in : List (ListingItem Other Date) → List (ObjectInfo Date)
  described_in [] = []
  described_in (object info ∷ items) = info ∷ described_in items
  described_in (undescribed e ∷ items) = described_in items

  abbrev pub undescribed_in : List (ListingItem Other Date) → ℕ
  undescribed_in [] = 0
  undescribed_in (object info ∷ items) = undescribed_in items
  undescribed_in (undescribed e ∷ items) = suc (undescribed_in items)

  -- A stream that does not break off.
  abbrev pub unbroken :
      List (ListingItem Other Date) → List (Result (ListingItem Other Date) (MtpError Other))
  unbroken [] = []
  unbroken (item ∷ items) = ok item ∷ unbroken items

-- The folders of the device hold what they hold, and its streams do not break off.
pub record IsListed {Other : Type 0} (storage : Storage Other)
    (items : Option ℕ → List (ListingItem Other storage.Date)) : Type 0 where
  pub streamed :
      (folder : Option ℕ) (w : storage.World)
      → (storage.list_objects_stream folder w).0 ≡ ok (unbroken (items folder))

module _ {Other : Type 0} (storage : Storage Other)
    (items : Option ℕ → List (ListingItem Other storage.Date)) (root : DevicePath) where
  abbrev pub found_or : ℕ → Option (Object storage) → Result (Object storage) (Error Other)
  found_or skipped none = err (not_found storage root skipped)
  found_or skipped (some info) = ok info

  -- What is wrong where no object of a folder has the name, and so many were not described.
  abbrev pub missing : ℕ → Error Other
  missing zero = Error.remote_path_not_found root
  missing (suc n) = Error.remote_path_undescribed root (suc n)

  -- Where a path leads from a folder: each segment to the first object of its name, which has to be a
  -- folder unless it is the last.
  abbrev pub lead : Option ℕ → RelPath → Result (Target storage) (Error Other)
  lead folder [] = ok (record { folder = folder; file = none })
  lead folder (name ∷ []) = elim (first_named name (described_in (items folder))) [
    | none ↦ err (missing (undescribed_in (items folder)))
    | some info ↦
        if info.is_folder
        then ok (record { folder = some info.handle; file = none })
        else ok (record { folder = folder; file = some info })
  ]
  lead folder (name ∷ next ∷ names) = elim (first_named name (described_in (items folder))) [
    | none ↦ err (missing (undescribed_in (items folder)))
    | some info ↦
        if info.is_folder
        then lead (some info.handle) (next ∷ names)
        else err (Error.not_a_directory root)
  ]

  -- The same with the helpers of `locate_root`.
  abbrev stepwise : Option ℕ → RelPath → Result (Target storage) (Error Other)
  stepwise folder [] = ok (record { folder = folder; file = none })
  stepwise folder (name ∷ []) =
      target_of storage folder
        (found_or (undescribed_in (items folder)) (first_named name (described_in (items folder))))
  stepwise folder (name ∷ next ∷ names) =
      elim (entered storage root (
        found_or (undescribed_in (items folder))
          (first_named name (described_in (items folder))))) [
            | err e ↦ err e
            | ok handle ↦ stepwise (some handle) (next ∷ names)
          ]

  stepwise-cons :
      (folder : Option ℕ) (name : Str) (folders : List Str) (last : Str)
      → stepwise folder (name ∷ (folders ++ (last ∷ [])))
        ≡ elim (entered storage root (
            found_or
              (undescribed_in (items folder))
              (first_named name (described_in (items folder))))) [
                | err e ↦ err e
                | ok handle ↦ stepwise (some handle) (folders ++ (last ∷ []))
              ]
  stepwise-cons folder name [] last = refl
  stepwise-cons folder name (f ∷ folders) last = refl

  missing-eq_not_found : (n : ℕ) → not_found storage root n ≡ missing n
  unfolding not_found
  missing-eq_not_found zero = refl
  missing-eq_not_found (suc n) =
      let some_left : nat_eq (suc n) 0 ≡ false = ground arith in rw some_left refl

  stepwise-eq_lead : (path : RelPath) (folder : Option ℕ) → stepwise folder path ≡ lead folder path
  unfolding target_found
  stepwise-eq_lead [] folder = refl
  stepwise-eq_lead (name ∷ []) folder = last (first_named name (described_in (items folder)))
    where
      last :
          (o : Option (Object storage))
          → target_of storage folder (found_or (undescribed_in (items folder)) o) ≡ elim o [
            | none ↦ err (missing (undescribed_in (items folder)))
            | some info ↦
                if info.is_folder
                then ok (record { folder = some info.handle; file = none })
                else ok (record { folder = folder; file = some info })
          ]
      last none = ap err (missing-eq_not_found (undescribed_in (items folder)))
      last (some info) = elim (Bool-cases info.is_folder) [ inl e ↦ rw e refl | inr e ↦ rw e refl ]
  stepwise-eq_lead (name ∷ next ∷ names) folder =
      middle (λ f. stepwise-eq_lead (next ∷ names) f)
        (first_named name (described_in (items folder)))
    where
      middle :
          ((f : Option ℕ) → stepwise f (next ∷ names) ≡ lead f (next ∷ names))
          → (o : Option (Object storage))
          → elim (entered storage root (found_or (undescribed_in (items folder)) o))
              as (λ x. Result (Target storage) (Error Other)) [
                | err e ↦ err e
                | ok handle ↦ stepwise (some handle) (next ∷ names)
              ]
            ≡ elim o [
              | none ↦ err (missing (undescribed_in (items folder)))
              | some info ↦
                  if info.is_folder
                  then lead (some info.handle) (next ∷ names)
                  else err (Error.not_a_directory root)
            ]
      middle more none = ap err (missing-eq_not_found (undescribed_in (items folder)))
      middle more (some info) = elim (Bool-cases info.is_folder) [
        | inl e ↦ rw e (more (some info.handle))
        | inr e ↦ rw e refl
      ]

  find_item-unbroken :
      (name : Str) (skipped : ℕ) (list : List (ListingItem Other storage.Date))
      → find_item storage name root skipped (unbroken list)
        ≡ found_or (undescribed_in list + skipped) (first_named name (described_in list))
  unfolding find_item
  find_item-unbroken name skipped [] =
      let same : skipped ≡ 0 + skipped = omega arith in
      ap (λ n. err (not_found storage root n)) same
  find_item-unbroken name skipped (object info ∷ list) = elim (Bool-cases (info.filename == name)) [
    | inl hit ↦ rw hit refl
    | inr miss ↦ rw miss (find_item-unbroken name skipped list)
  ]
  find_item-unbroken name skipped (undescribed e ∷ list) =
      let count : undescribed_in list + suc skipped ≡ suc (undescribed_in list) + skipped =
        omega arith in
      find_item-unbroken name (suc skipped) list
      ∙ ap (λ n. found_or n (first_named name (described_in list))) count

  module _ (listed : IsListed storage items) where
    find_child-found :
        (folder : Option ℕ) (name : Str) (w : storage.World)
        → (find_child storage folder name root w).0
          ≡ found_or
              (undescribed_in (items folder))
              (first_named name (described_in (items folder)))
    unfolding find_child
    find_child-found folder name w =
        let count : undescribed_in (items folder) + 0 ≡ undescribed_in (items folder) =
          omega arith in
        ap (find_in storage name root) (listed.streamed folder w)
        ∙ find_item-unbroken name 0 (items folder)
        ∙ ap (λ n. found_or n (first_named name (described_in (items folder)))) count

    -- What `locate_root` does once it has a path's folders and its last segment.
    abbrev arrive :
        Str
        → Result (Option ℕ) (Error Other) × storage.World
        → Result (Target storage) (Error Other)
    arrive last (err e, w) = err e
    arrive last (ok folder, w) = target_of storage folder (find_child storage folder last root w).0

    enter_all-stepwise :
        (folders : List Str) (last : Str) (folder : Option ℕ) (w : storage.World)
        → arrive last (enter_all storage root folders folder w)
          ≡ stepwise folder (folders ++ (last ∷ []))
    unfolding enter_all
    enter_all-stepwise [] last folder w =
        ap (target_of storage folder) (find_child-found folder last w)
    enter_all-stepwise (name ∷ folders) last folder w =
        let (found, w') = find_child storage folder name root w in
        entering (entered storage root found) w'
          (λ handle w1. enter_all-stepwise folders last (some handle) w1)
        ∙ ap onward (ap (entered storage root) (find_child-found folder name w))
        ∙ sym (stepwise-cons folder name folders last)
      where
        onward : Result ℕ (Error Other) → Result (Target storage) (Error Other)
        onward r = elim r [
          | err e ↦ err e
          | ok handle ↦ stepwise (some handle) (folders ++ (last ∷ []))
        ]

        entering :
            (r : Result ℕ (Error Other)) (w' : storage.World)
            → ((handle : ℕ) (w1 : storage.World)
                → arrive last (enter_all storage root folders (some handle) w1)
                  ≡ stepwise (some handle) (folders ++ (last ∷ [])))
            → arrive last (elim r as (λ x. Result (Option ℕ) (Error Other) × storage.World) [
              | err e ↦ (err e, w')
              | ok handle ↦ enter_all storage root folders (some handle) w'
            ])
              ≡ onward r
        entering (err e) w' more = refl
        entering (ok handle) w' more = more handle w'

    arrived :
        (last : Str) (folder : Result (Option ℕ) (Error Other)) (w : storage.World)
        → (elim folder as (λ x. Result (Target storage) (Error Other) × storage.World) [
          | err e ↦ (err e, w)
          | ok folder ↦
              let (found, w2) = find_child storage folder last root w in
              (target_of storage folder found, w2)
        ]).0
          ≡ arrive last (folder, w)
    arrived last (err e) w = refl
    arrived last (ok folder) w = refl

    locate_last-stepwise :
        (path : RelPath) (o : Option (List Str × Str)) (w : storage.World)
        → IsSplit path o
        → (locate_last storage root o w).0 ≡ stepwise none path
    locate_last-stepwise path none w h = ap (stepwise none) (sym h)
    locate_last-stepwise path (some (folders, last)) w h =
        let (folder, w1) = enter_all storage root folders none w in
        arrived last folder w1 ∙ enter_all-stepwise folders last none w ∙ ap (stepwise none) (sym h)

    -- On a device whose folders do not change and whose streams do not break off, a root is located
    -- where its path leads from the storage root, segment by segment: to a folder, or to a file and the
    -- folder above it. Where no described object of a folder has the next segment's name, the error is that
    -- the path was not found if every object of the folder was described, and otherwise has the number of
    -- those that were not; for a file in the middle of the path it is that this is no directory.
    pub locate_root-lead :
        (w : storage.World) → (locate_root storage root w).0 ≡ lead none root.path.rel
    unfolding locate_root
    locate_root-lead w =
        locate_last-stepwise root.path.rel (split_last_segment root.path.rel) w
          (split_last_segment-IsSplit root.path.rel)
        ∙ stepwise-eq_lead root.path.rel none
