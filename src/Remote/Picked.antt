-- ===== src/Remote/Picked.antt =====
-- What a walk of a single file finds, for crates/mtpx-core/src/internal/mtp/scan.rs.
use mtpx.Base.{
  ℕ, ◌≡◌, ◌⊎◌, inl, inr, refl, sym, ap, ◌∙◌, Bool, true, false, Bool-cases, List, [], ◌∷◌, Option,
  none, some, Result, ok, err, if◌then◌else◌, ◌==◌, ==_iff, nat_ord, list_ord, arith, then-eq_ok,
  Elem, All, All-elem,
}
use mtpx.Std.Text.{Str}
use mtpx.Mtp.{MtpError}
use mtpx.Entry.{file}
use mtpx.Path.RelPath.{RelPath, root}
use mtpx.Path.RelPath
use mtpx.Path.Segment.{PathError, validate_segment}
use mtpx.Error.{Error, from_mtp}
use mtpx.Remote.Storage.{Collection, Storage}
use mtpx.Remote.Listing.{Object, classify, list_folder, listed}
use mtpx.Remote.Named.{IsNamed, IsFirst, classify-IsListing}
use mtpx.Remote.Seen.{IsFirst-Elem}
use mtpx.Remote.Walk.{Walked, entry_from, modified_of, ensure_live}
use mtpx.Remote.Pick.{
  is_file_named, revalidated, revalidate, find_named, named, or_vanished, found_in, find_file,
  walked_one, picked, or_listed, pick_live, pick_file,
}

-- The path of one segment is that segment.
new_one : (name : Str) (path : RelPath) → RelPath.new (name ∷ []) ≡ ok path → path ≡ name ∷ []
unfolding RelPath.new
new_one name path h =
    let (valid, same) = then-eq_ok (validate_segment name) (ok (name ∷ [])) h in cc same

module _ {Other : Type 0} (storage : Storage Other) (parent : Option ℕ)
    (known : Object storage) where
  -- The device gave the object, for the handle that is known or in a listing of the folder.
  abbrev pub IsGiven : Object storage → Type 0
  IsGiven info =
      ((w : storage.World) × ((storage.get_object_info known.handle w).0 ≡ ok info))
      ⊎ ((w : storage.World) × (c : Collection Other storage.Date) × ((storage.collect_objects
              parent w).0
            ≡ ok c)
          × Elem info c.objects)

  -- The device gave the error, which is not of a stale handle when the object was asked for.
  abbrev pub IsLost : MtpError Other → Type 0
  IsLost x =
      ((w : storage.World) × ((storage.get_object_info known.handle w).0 ≡ err x)
        × (storage.is_stale_handle x ≡ false))
      ⊎ ((w : storage.World) × ((storage.collect_objects parent w).0 ≡ err x))

  -- No child of the folder is a file of the name.
  abbrev pub IsGone : Type 0
  IsGone =
      (w : storage.World) × (c : Collection Other storage.Date) × ((storage.collect_objects parent
          w).0
        ≡ ok c)
      × All (λ (p, info). is_file_named storage known.filename info ≡ false)
          (classify storage root c.objects).children

  abbrev pub IsMissed : Error Other → Type 0
  IsMissed e =
      ((w : storage.World) × ((storage.is_cancelled w).0 ≡ true) × (e ≡ Error.cancelled))
      ⊎ (((x : MtpError Other) × IsLost x × (e ≡ from_mtp x))
          ⊎ ((IsGone × (e ≡ Error.source_vanished (known.filename ∷ [])))
              ⊎ ((x : PathError) × (RelPath.new (known.filename ∷ []) ≡ err x)
                  × (e ≡ Error.invalid_path x))))

  -- A walk of one entry, for a file of the name that the device gave; or the error says what is wrong.
  abbrev pub IsPicked : Result Walked (Error Other) → Type 0
  IsPicked (ok walked) =
      (info : Object storage) × (info.filename ≡ known.filename)
      × (info.is_folder ≡ false)
      × IsGiven info
      × (walked ≡ record {
        entries =
            record {
              path = known.filename ∷ [];
              kind = file;
              size = info.size;
              modified = modified_of storage info.modified;
            }
            ∷ [];
        handles = (known.filename ∷ [], info.handle) ∷ [];
        skipped = [];
      })
  IsPicked (err e) = IsMissed e

  abbrev IsFileNamed : Result (Object storage) (Error Other) → Type 0
  IsFileNamed (ok info) = (is_file_named storage known.filename info ≡ true) × IsGiven info
  IsFileNamed (err e) = IsMissed e

  find_named-some :
      (children : List (RelPath × Object storage)) (info : Object storage)
      → find_named storage known.filename children ≡ some info
      → (is_file_named storage known.filename info ≡ true)
        × ((path : RelPath) × Elem (path, info) children)
  unfolding find_named
  find_named-some [] info h = absurd (cc h)
  find_named-some ((path, x) ∷ children) info h =
      elim (Bool-cases (is_file_named storage known.filename x)) [
        | inl hit ↦
            let same : x ≡ info = ground (arith, h, hit) in
            (
              ap (is_file_named storage known.filename) (sym same) ∙ hit,
              (path, inl (ap (λ o. (path, o)) (sym same))),
            )
        | inr miss ↦
            let (hit, (at, there)) = find_named-some children info (ground (arith, h, miss)) in
            (hit, (at, inr there))
      ]

  find_named-none :
      (children : List (RelPath × Object storage))
      → find_named storage known.filename children ≡ none
      → All (λ (p, info). is_file_named storage known.filename info ≡ false) children
  unfolding find_named
  find_named-none [] h = tt
  find_named-none ((path, x) ∷ children) h =
      elim (Bool-cases (is_file_named storage known.filename x)) [
        | inl hit ↦ absurd (ground (arith, h, hit))
        | inr miss ↦ (miss, find_named-none children (ground (arith, h, miss)))
      ]

  found_in-IsFileNamed :
      (w : storage.World) (r : Result (Collection Other storage.Date) (MtpError Other))
      → (storage.collect_objects parent w).0 ≡ r
      → IsFileNamed (found_in storage known.filename (listed storage root r))
  found_in-IsFileNamed w (err e) h = inr (inl (e, inr (w, h), refl))
  found_in-IsFileNamed w (ok c) h =
      among (find_named storage known.filename (classify storage root c.objects).children) refl
    where
      vanished :
          (r : Result RelPath PathError)
          → RelPath.new (known.filename ∷ []) ≡ r
          → IsGone
          → IsFileNamed (named storage (λ path. err (Error.source_vanished path)) r)
      vanished (ok path) e gone =
          inr (inr (inl (gone, ap Error.source_vanished (new_one known.filename path e))))
      vanished (err x) e gone = inr (inr (inr (x, e, refl)))

      among :
          (o : Option (Object storage))
          → find_named storage known.filename (classify storage root c.objects).children ≡ o
          → IsFileNamed (or_vanished storage known.filename o)
      among none e =
          vanished (RelPath.new (known.filename ∷ [])) refl (w, c, h, find_named-none _ e)
      among (some info) e =
          let (hit, (path, there)) = find_named-some _ info e in
          let (named, first) =
            All-elem (λ (p, x). IsNamed root x.filename p × IsFirst x c.objects) (path, info) _
              (classify-IsListing storage root c.objects).named there in
          (hit, inr (w, c, h, IsFirst-Elem info c.objects first))

  or_listed-IsFileNamed :
      (w w' : storage.World) (r : Result (Object storage) (MtpError Other))
      → (storage.get_object_info known.handle w).0 ≡ r
      → IsFileNamed (or_listed storage parent known (revalidated storage known r) w').0
  unfolding find_file list_folder
  or_listed-IsFileNamed w w' (ok fresh) h = seen (is_file_named storage known.filename fresh) refl
    where
      seen :
          (b : Bool)
          → is_file_named storage known.filename fresh ≡ b
          → IsFileNamed (or_listed storage parent known (ok (if b then some fresh else none)) w').0
      seen true e = (e, inl (w, h))
      seen false e = found_in-IsFileNamed w' _ refl
  or_listed-IsFileNamed w w' (err e) h = stale (storage.is_stale_handle e) refl
    where
      stale :
          (b : Bool)
          → storage.is_stale_handle e ≡ b
          → IsFileNamed
              (or_listed storage parent known (if b then ok none else err (from_mtp e)) w').0
      stale true is_stale = found_in-IsFileNamed w' _ refl
      stale false is_stale = inr (inl (e, inl (w, h, is_stale), refl))

  picked-IsPicked :
      (r : Result (Object storage) (Error Other)) (w : storage.World)
      → IsFileNamed r
      → IsPicked (picked storage known r w).0
  unfolding entry_from
  picked-IsPicked (err e) w h = h
  picked-IsPicked (ok info) w (h, given) = at (RelPath.new (known.filename ∷ [])) refl
    where
      is_file : info.is_folder ≡ false
      is_file = ground (arith, h)

      at :
          (r : Result RelPath PathError)
          → RelPath.new (known.filename ∷ []) ≡ r
          → IsPicked (named storage (λ path. ok (walked_one storage info path)) r)
      at (ok path) e =
          let same : (info.filename == known.filename) ≡ true = ground (arith, h) in
          (
            info,
            (==_iff info.filename known.filename).0 same,
            is_file,
            given,
            ap (walked_one storage info) (new_one known.filename path e) ∙ rw is_file refl,
          )
      at (err x) e = inr (inr (inr (x, e, refl)))

  -- A walk of a file that was seen before has one entry, with the file's name and its size and time,
  -- under its handle, for an object of that name that is a file, as the device gave it for the known
  -- handle or in a listing of the folder. Otherwise it fails: because the token said that it is
  -- cancelled, by the error that the device gave to one of the two, because no child of the folder is a
  -- file of the name, or because the name is no valid segment.
  pub pick_file-IsPicked : (w : storage.World) → IsPicked (pick_file storage parent known w).0
  unfolding pick_file ensure_live revalidate
  pick_file-IsPicked w = let (cancelled, w') = storage.is_cancelled w in live cancelled w' refl
    where
      live :
          (cancelled : Bool) (w' : storage.World)
          → (storage.is_cancelled w).0 ≡ cancelled
          → IsPicked
              (pick_live storage parent known
                (if cancelled then err Error.cancelled else ok tt)
                w').0
      live true w' said = inl (w, said, refl)
      live false w' said =
          let (r, w1) = storage.get_object_info known.handle w' in
          picked-IsPicked (or_listed storage parent known (revalidated storage known r) w1).0 _
            (or_listed-IsFileNamed w' w1 r refl)
