-- ===== src/Remote/Seen.antt =====
-- The objects that a walk found, for crates/mtpx-core/src/internal/mtp/scan.rs.
use mtpx.Base.{
  ℕ, ◌≡◌, ◌⊎◌, inl, inr, refl, sym, ap, subst, ◌∙◌, true, false, ◌&&◌, Bool-cases, List, [], ◌∷◌,
  ◌++◌, map, map-append_one, Option, some, ok, Elem, Elem-append_left, Elem-append_right, All,
  All-map, All-append, append-nil, append_assoc, if◌then◌else◌, Bool,
}
use mtpx.Path.RelPath.{RelPath, root}
use mtpx.Entry.{Entry, file, dir}
use mtpx.Remote.Storage.{ObjectInfo, Collection, Storage}
use mtpx.Remote.Listing.{Object, Listing, classify}
use mtpx.Remote.Named.{IsNamed, IsFirst, classify-IsListing}
use mtpx.Remote.Walk.{
  Walked, Walking, has_handle, modified_of, entry_from, skip, record_child, announce, visit,
  visit_all, with_listing,
}

pub IsFirst-Elem :
    {Date : Type 0} (info : ObjectInfo Date) (objects : List (ObjectInfo Date))
    → IsFirst info objects
    → Elem info objects
IsFirst-Elem info [] h = absurd h
IsFirst-Elem info (x ∷ objects) (inl e) = inl e
IsFirst-Elem info (x ∷ objects) (inr (ne, h)) = inr (IsFirst-Elem info objects h)

module _ {Other : Type 0} (storage : Storage Other) (folder : Option ℕ) where
  -- The objects found, each with its path.
  abbrev pub Found : Type 0
  Found = List (RelPath × Object storage)

  abbrev pub entry_of : RelPath × Object storage → Entry
  entry_of (path, info) = record {
    path = path;
    kind = if info.is_folder then dir else file;
    size = if info.is_folder then 0 else info.size;
    modified = modified_of storage info.modified;
  }

  abbrev pub handle_of : RelPath × Object storage → RelPath × ℕ
  handle_of (path, info) = (path, info.handle)

  -- The handle that a folder is listed by: the walked folder's, or that of a folder found.
  abbrev pub IsAt : Found → RelPath × Option ℕ → Type 0
  IsAt found (path, handle) =
      ((path ≡ root) × (handle ≡ folder))
      ⊎ ((info : Object storage) × Elem (path, info) found
          × (info.is_folder ≡ true)
          × (handle ≡ some info.handle))

  -- The device named the object in a listing of the folder above its path.
  pub record IsSeen (found : Found) (object : RelPath × Object storage) : Type 0 where
    pub parent : RelPath
    pub handle : Option ℕ
    pub at : IsAt found (parent, handle)
    pub world : storage.World
    pub collection : Collection Other storage.Date
    pub collected : (storage.collect_objects handle world).0 ≡ ok collection
    pub listed : Elem object.1 collection.objects
    pub named : IsNamed parent object.1.filename object.0

  -- The entries and the handles are those of the objects found.
  pub record IsFound (walked : Walked) (found : Found) : Type 0 where
    pub entries : walked.entries ≡ map entry_of found
    pub handles : walked.handles ≡ map handle_of found
    pub seen : All (IsSeen found) found

  abbrev pub IsGathered : Walked → List (RelPath × Option ℕ) → Found → Type 0
  IsGathered walked pending found = IsFound walked found × All (IsAt found) pending

  IsAt-more : (found more : Found) (p : RelPath × Option ℕ) → IsAt found p → IsAt (found ++ more) p
  IsAt-more found more (path, handle) (inl top) = inl top
  IsAt-more found more (path, handle) (inr (info, m, is_folder, same)) =
      inr (info, Elem-append_left (path, info) found more m, is_folder, same)

  IsSeen-more :
      (found more : Found) (o : RelPath × Object storage)
      → IsSeen found o
      → IsSeen (found ++ more) o
  IsSeen-more found more o k = record {
    parent = k.parent;
    handle = k.handle;
    at = IsAt-more found more (k.parent, k.handle) k.at;
    world = k.world;
    collection = k.collection;
    collected = k.collected;
    listed = k.listed;
    named = k.named;
  }

  record_child-IsGathered :
      (child : RelPath) (info : Object storage) (s : Walking storage) (found : Found)
      → IsSeen found (child, info)
      → IsGathered s.walked s.pending found
      → let s' = record_child storage child info s in
        IsGathered s'.walked s'.pending (found ++ ((child, info) ∷ []))
  unfolding record_child entry_from
  record_child-IsGathered child info s found seen (k, at) = (
    record {
      entries =
          ap (λ l. l ++ (entry_of (child, info) ∷ [])) k.entries
          ∙ sym (map-append_one entry_of found (child, info));
      handles =
          ap (λ l. l ++ ((child, info.handle) ∷ [])) k.handles
          ∙ sym (map-append_one handle_of found (child, info));
      seen =
          All-append _ found one (All-map _ _ (IsSeen-more found one) found k.seen)
            (IsSeen-more found one (child, info) seen, tt);
    },
    pushed info.is_folder refl,
  )
    where
      one : Found
      one = (child, info) ∷ []

      pushed :
          (b : Bool)
          → info.is_folder ≡ b
          → All
              (IsAt (found ++ one))
              (if b then (child, some info.handle) ∷ s.pending else s.pending)
      pushed true e = (
        inr (info, Elem-append_right (child, info) found one (inl refl), e, refl),
        All-map _ _ (IsAt-more found one) s.pending at,
      )
      pushed false e = All-map _ _ (IsAt-more found one) s.pending at

  -- The objects found, and more.
  abbrev Grown : Found → Walking storage → Type 0
  Grown found s = (more : Found) × IsGathered s.walked s.pending (found ++ more)

  visit-Grown :
      (path : RelPath) (child : RelPath) (info : Object storage) (s : Walking storage)
      (found : Found)
      → IsSeen found (child, info)
      → IsGathered s.walked s.pending found
      → Grown found (visit storage path (child, info) s)
  unfolding visit announce skip record_child entry_from
  visit-Grown path child info s found seen k =
      let none_more = append-nil found in
      elim (Bool-cases (info.is_folder && has_handle info.handle s.visited)) [
        | inl again ↦ rw again (
          [],
          subst (IsGathered _ s.pending) (sym none_more)
              (record { entries = k.0.entries; handles = k.0.handles; seen = k.0.seen }, k.1),
        )
        | inr first ↦
            rw first ((child, info) ∷ [], record_child-IsGathered child info s found seen k)
      ]

  visit_all-Grown :
      (path : RelPath) (children : List (RelPath × Object storage)) (s : Walking storage)
      (found : Found)
      → All (IsSeen found) children
      → IsGathered s.walked s.pending found
      → Grown found (visit_all storage path children s)
  unfolding visit_all
  visit_all-Grown path [] s found seen k =
      ([], subst (IsGathered s.walked s.pending) (sym (append-nil found)) k)
  visit_all-Grown path ((child, info) ∷ children) s found seen k =
      let (more, k') = visit-Grown path child info s found seen.0 k in
      let (rest, k'') =
        visit_all-Grown path children (visit storage path (child, info) s) (found ++ more)
          (All-map _ _ (IsSeen-more found more) children seen.1) k' in
      (more ++ rest, subst (IsGathered _ _) (append_assoc found more rest) k'')

  -- A listing of the next folder adds the objects that it names.
  pub with_listing-IsGathered :
      (path : RelPath) (handle : Option ℕ) (rest : List (RelPath × Option ℕ))
      (collection : Collection Other storage.Date) (listing : Listing storage)
      (before after : storage.World) (s : Walking storage) (found : Found)
      → (storage.collect_objects handle before).0 ≡ ok collection
      → listing.children ≡ (classify storage path collection.objects).children
      → IsGathered s.walked ((path, handle) ∷ rest) found
      → let s' = with_listing storage path rest listing after s in
        (found' : Found) × IsGathered s'.walked s'.pending found'
  with_listing-IsGathered path handle rest collection listing before after s found h same k =
      let l = classify-IsListing storage path collection.objects in
      let seen : All (IsSeen found) listing.children = subst (All (IsSeen found)) (sym same) (
        All-map _ _
          (λ (p, info) (named, first). record {
            parent = path;
            handle = handle;
            at = k.1.0;
            world = before;
            collection = collection;
            collected = h;
            listed = IsFirst-Elem info collection.objects first;
            named = named;
          })
          _ l.named) in
      let (more, grown) =
        visit_all-Grown path listing.children _ found seen
          (record { entries = k.0.entries; handles = k.0.handles; seen = k.0.seen }, k.1.1) in
      (found ++ more, grown)
