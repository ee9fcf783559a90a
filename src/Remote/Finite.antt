-- ===== src/Remote/Finite.antt =====
-- A walk ends, for crates/mtpx-core/src/internal/mtp/scan.rs: it visits no folder twice.
use mtpx.Base.{
  ℕ, ◌+◌, ◌<◌, ◌≡◌, inl, inr, refl, sym, subst, nat_eq, nat_eq_iff, Bool, true, false, List, [],
  ◌∷◌, ◌++◌, length, Option, ok, Elem, All, All-map, All-elem, Distinct, arith,
}
use mtpx.Path.RelPath.{RelPath}
use mtpx.Remote.Storage.{ObjectInfo, Collection, Storage}
use mtpx.Remote.Listing.{Object, Listing, classify}
use mtpx.Remote.Named.{IsFirst, classify-IsListing}
use mtpx.Remote.Walk.{
  Walking, has_handle, visit, visit_all, with_listing, announce, record_child, skip,
}

IsFirst-Elem :
    {Date : Type 0} (info : ObjectInfo Date) (objects : List (ObjectInfo Date))
    → IsFirst info objects
    → Elem info objects
IsFirst-Elem info [] h = h
IsFirst-Elem info (x ∷ objects) (inl e) = inl e
IsFirst-Elem info (x ∷ objects) (inr (ne, h)) = inr (IsFirst-Elem info objects h)

has_handle-not-Elem :
    (handle : ℕ) (visited : List ℕ) → has_handle handle visited ≡ false → Elem handle visited → ⊥
has_handle-not-Elem handle [] h m = m
has_handle-not-Elem handle (x ∷ visited) h (inl e) =
    let same : nat_eq x handle ≡ true = (nat_eq_iff x handle).1 (sym e) in
    absurd (ground (arith, h, same))
has_handle-not-Elem handle (x ∷ visited) h (inr m) =
    has_handle-not-Elem handle visited (ground (arith, h)) m

-- The handles of a device are numbers below a bound, as its type of handles is.
pub record IsFinite {Other : Type 0} (storage : Storage Other) (limit : ℕ) : Type 0 where
  pub described :
      (parent : Option ℕ) (w : storage.World) (c : Collection Other storage.Date)
      → (storage.collect_objects parent w).0 ≡ ok c
      → All (λ info. info.handle < limit) c.objects

module _ {Other : Type 0} (storage : Storage Other) (limit : ℕ) where
  -- The visited handles are different, and each visit adds as many handles as pending folders.
  pub record IsBounded (before s : Walking storage) : Type 0 where
    pub distinct : Distinct s.visited
    pub below : All (λ h. h < limit) s.visited
    pub balanced :
        length s.pending + length before.visited ≡ length before.pending + length s.visited

  visit-IsBounded :
      (path child : RelPath) (info : Object storage) (before s : Walking storage)
      → info.handle < limit
      → IsBounded before s
      → IsBounded before (visit storage path (child, info) s)
  unfolding visit announce record_child skip
  visit-IsBounded path child info before s small k =
      visited info.is_folder refl (has_handle info.handle s.visited) refl
    where
      visited :
          (is_folder : Bool)
          → info.is_folder ≡ is_folder
          → (seen : Bool) → has_handle info.handle s.visited ≡ seen
          → IsBounded before (visit storage path (child, info) s)
      visited true e true h =
          rw (e, h) (record { distinct = k.distinct; below = k.below; balanced = k.balanced })
      visited true e false h =
          rw (e, h)
            (record {
              distinct = (has_handle-not-Elem info.handle s.visited h, k.distinct);
              below = (small, k.below);
              balanced = omega (arith, k.balanced);
            })
      visited false e seen h =
          rw e (record { distinct = k.distinct; below = k.below; balanced = k.balanced })

  visit_all-IsBounded :
      (path : RelPath) (children : List (RelPath × Object storage)) (before s : Walking storage)
      → All (λ (p, info). info.handle < limit) children
      → IsBounded before s
      → IsBounded before (visit_all storage path children s)
  unfolding visit_all
  visit_all-IsBounded path [] before s small k = k
  visit_all-IsBounded path ((child, info) ∷ children) before s small k =
      visit_all-IsBounded path children before (visit storage path (child, info) s) small.1
        (visit-IsBounded path child info before s small.0 k)

  -- The children of a folder that the device described.
  pub children-below :
      (path : RelPath) (objects : List (Object storage))
      (children : List (RelPath × Object storage))
      → children ≡ (classify storage path objects).children
      → All (λ info. info.handle < limit) objects
      → All (λ (p, info). info.handle < limit) children
  children-below path objects children same small = subst (All _) (sym same) (
      All-map _ _
        (λ c (named, first).
          All-elem (λ info. info.handle < limit) (c.1) objects small
            (IsFirst-Elem (c.1) objects first))
        _ (classify-IsListing storage path objects).named)

  -- A round pops a folder, and pushes as many as it visits.
  pub with_listing-IsBounded :
      (path : RelPath) (rest : List (RelPath × Option ℕ)) (listing : Listing storage)
      (w : storage.World) (s : Walking storage)
      → All (λ (p, info). info.handle < limit) listing.children
      → Distinct s.visited
      → All (λ h. h < limit) s.visited
      → let s' = with_listing storage path rest listing w s in
        Distinct s'.visited
        × All (λ h. h < limit) s'.visited
        × (length s'.pending + length s.visited ≡ length rest + length s'.visited)
  with_listing-IsBounded path rest listing w s small distinct below =
      let start : Walking storage = record s {
        walked = record s.walked { skipped = s.walked.skipped ++ listing.skipped };
        pending = rest;
        world = w;
      } in
      let k =
        visit_all-IsBounded path listing.children start start small
          (record { distinct = distinct; below = below; balanced = refl }) in
      (k.distinct, k.below, k.balanced)
