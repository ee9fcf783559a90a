-- ===== src/Remote/Attempts.antt =====
-- How often an operation is tried, for crates/mtpx-core/src/internal/mtp/resolver.rs.
use mtpx.Base.{
  ℕ, suc, ◌+◌, ◌≤◌, ◌≡◌, refl, ◌∙◌, Bool, true, false, List, [], ◌∷◌, Option, none, some, Result,
  ok, err, arith, if◌then◌else◌,
}
use mtpx.Std.Text.{Str}
use mtpx.Path.RelPath.{RelPath, join, parent}
use mtpx.Path.Segment.{PathError}
use mtpx.Error.{Error}
use mtpx.Error
use mtpx.Remote.Storage.{Storage}
use mtpx.Remote.Listing.{Listing, list_folder}
use mtpx.Remote.Resolver.{
  Resolver, remove, cached, after_listing, unless_cached, child, descend, listing_parent,
  resolve_beneath, resolve_unless, resolve, Operation, attempt, ask_parent, cached_parent,
  parent_is_stale, is_vanished, rekeyed, recover, is_stale, lift, with_handle,
}

-- A number that the calls of the storage leave alone, as a count of other operations is.
pub record IsUncounted {Other : Type 0} (storage : Storage Other) (calls : storage.World → ℕ)
    : Type 0 where
  pub collected :
      (folder : Option ℕ) (w : storage.World) → calls (storage.collect_objects folder w).1 ≡ calls w
  pub described :
      (handle : ℕ) (w : storage.World) → calls (storage.get_object_info handle w).1 ≡ calls w

module _ {Other : Type 0} (storage : Storage Other) (root : Option ℕ) (calls : storage.World → ℕ)
    (h : IsUncounted storage calls) where
  after_listing-calls :
      (path : RelPath) (listing : Result (Listing storage) (Error Other))
      (s : Resolver storage root)
      → calls (after_listing storage root path listing s).1.world ≡ calls s.world
  after_listing-calls path (ok l) s = refl
  after_listing-calls path (err e) s = refl

  child-calls :
      (folder : Option ℕ) (dir path : RelPath) (s : Resolver storage root)
      → calls (child storage root folder dir path s).1.world ≡ calls s.world
  unfolding child list_folder
  child-calls folder dir path s = looked_up (cached storage root path s)
    where
      looked_up :
          (o : Option ℕ)
          → calls (unless_cached storage root folder dir path s o).1.world ≡ calls s.world
      looked_up (some handle) = refl
      looked_up none =
          let (listing, w) = list_folder storage folder dir s.world in
          after_listing-calls path listing (record s { world = w }) ∙ h.collected folder s.world

  descend-calls :
      (segments : List Str) (current : RelPath) (folder : Option ℕ) (s : Resolver storage root)
      → calls (descend storage root segments current folder s).1.world ≡ calls s.world
  unfolding descend
  descend-calls [] current folder s = refl
  descend-calls (segment ∷ segments) current folder s =
      joined (join current segment) (λ next handle s1. descend-calls segments next (some handle) s1)
    where
      beneath :
          (next : RelPath) (r : Result ℕ (Error Other)) (s' : Resolver storage root)
          → calls s'.world ≡ calls s.world
          → ((handle : ℕ) (s1 : Resolver storage root)
              → calls (descend storage root segments next (some handle) s1).1.world
                ≡ calls s1.world)
          → calls
              (elim r as (λ x. Result (Option ℕ) (Error Other) × Resolver storage root) [
                | err e ↦ (err e, s')
                | ok handle ↦ descend storage root segments next (some handle) s'
              ]).1.world
            ≡ calls s.world
      beneath next (ok handle) s' e more = more handle s' ∙ e
      beneath next (err x) s' e more = e

      joined :
          (r : Result RelPath PathError)
          → ((next : RelPath) (handle : ℕ) (s1 : Resolver storage root)
              → calls (descend storage root segments next (some handle) s1).1.world
                ≡ calls s1.world)
          → calls
              (elim r as (λ x. Result (Option ℕ) (Error Other) × Resolver storage root) [
                | err e ↦ (err (Error.invalid_path e), s)
                | ok next ↦
                    let (found, s') = child storage root folder current next s in
                    elim found [
                      | err e ↦ (err e, s')
                      | ok handle ↦ descend storage root segments next (some handle) s'
                    ]
              ]).1.world
            ≡ calls s.world
      joined (err e) more = refl
      joined (ok next) more =
          let (r, s') = child storage root folder current next s in
          beneath next r s' (child-calls folder current next s) (more next)

  beneath-calls :
      (path : RelPath) (o : Option RelPath) (s : Resolver storage root)
      → calls (resolve_beneath storage root path o s).1.world ≡ calls s.world
  unfolding listing_parent
  beneath-calls path none s = refl
  beneath-calls path (some dir) s =
      let (found, s') = descend storage root dir [] root s in
      under found s' (descend-calls dir [] root s)
    where
      under :
          (found : Result (Option ℕ) (Error Other)) (s' : Resolver storage root)
          → calls s'.world ≡ calls s.world
          → calls
              (elim found as (λ x. Result ℕ (Error Other) × Resolver storage root) [
                | err e ↦ (err e, s')
                | ok handle ↦ child storage root handle dir path s'
              ]).1.world
            ≡ calls s.world
      under (ok handle) s' e = child-calls handle dir path s' ∙ e
      under (err x) s' e = e

  resolve-calls :
      (path : RelPath) (s : Resolver storage root)
      → calls (resolve storage root path s).1.world ≡ calls s.world
  unfolding resolve
  resolve-calls path s = looked_up (cached storage root path s)
    where
      looked_up :
          (o : Option ℕ) → calls (resolve_unless storage root path o s).1.world ≡ calls s.world
      looked_up (some handle) = refl
      looked_up none = beneath-calls path (parent path) s

  ask_parent-calls :
      (o : Option ℕ) (s : Resolver storage root)
      → calls (ask_parent storage root o s).1.world ≡ calls s.world
  ask_parent-calls none s = refl
  ask_parent-calls (some handle) s = h.described handle s.world

  rekeyed-calls :
      {T : Type 0} (path : RelPath) (r : Result T (Error Other)) (s : Resolver storage root)
      → calls (rekeyed storage root path r s).1.world ≡ calls s.world
  unfolding rekeyed parent_is_stale
  rekeyed-calls path (ok t) s = refl
  rekeyed-calls path (err e) s =
      asked (Error.is_stale_handle storage.is_stale_handle e) (is_vanished storage root e)
    where
      answer : Bool × Resolver storage root
      answer = ask_parent storage root (cached_parent storage root (parent path) s) s

      asked :
          (stale vanished : Bool)
          → calls (if stale then (true, s) else if vanished then answer else (false, s)).1.world
            ≡ calls s.world
      asked true vanished = refl
      asked false true = ask_parent-calls (cached_parent storage root (parent path) s) s
      asked false false = refl

  module _ {T : Type 0} (path : RelPath) (op : Operation storage root T)
      (once : (handle : ℕ) (w : storage.World) → calls (op handle w).1 ≡ suc (calls w)) where
    attempt-calls :
        (s : Resolver storage root)
        → calls (attempt storage root path op s).1.world ≤ suc (calls s.world)
    unfolding attempt
    attempt-calls s =
        let (found, s') = resolve storage root path s in tried found s' (resolve-calls path s)
      where
        tried :
            (found : Result ℕ (Error Other)) (s' : Resolver storage root)
            → calls s'.world ≡ calls s.world
            → calls
                (elim found as (λ x. Result T (Error Other) × Resolver storage root) [
                  | err e ↦ (err e, s')
                  | ok handle ↦
                      let (r, w) = op handle s'.world in
                      (lift storage root r, record s' { world = w })
                ]).1.world
              ≤ suc (calls s.world)
        tried (ok handle) s' e = omega (arith, e, once handle s'.world)
        tried (err x) s' e = omega (arith, e)

    recover-calls :
        (s : Resolver storage root)
        → calls (recover storage root path op s).1.world ≤ calls s.world + 2
    unfolding recover
    recover-calls s =
        let s0 : Resolver storage root = record s { cache = remove path s.cache } in
        let (outcome, s1) = attempt storage root path op s0 in
        let (again, s2) = rekeyed storage root path outcome s1 in
        tried again outcome s2 (omega (arith, attempt-calls s0, rekeyed-calls path outcome s1))
      where
        tried :
            (again : Bool) (outcome : Result T (Error Other)) (s2 : Resolver storage root)
            → calls s2.world ≤ suc (calls s.world)
            → calls
                (elim again as (λ x. Result T (Error Other) × Resolver storage root) [
                  | false ↦ (outcome, s2)
                  | true ↦ attempt storage root path op (record s2 { cache = [] })
                ]).1.world
              ≤ calls s.world + 2
        tried false outcome s2 e = omega (arith, e)
        tried true outcome s2 e = omega (arith, e, attempt-calls (record s2 { cache = [] }))

    -- Where an operation is counted, and no other call of the storage is, one that goes through a
    -- resolver is tried three times at most.
    pub with_handle-calls :
        (s : Resolver storage root)
        → calls (with_handle storage root path op s).1.world ≤ calls s.world + 3
    unfolding with_handle
    with_handle-calls s =
        let (outcome, s') = attempt storage root path op s in
        tried (is_stale storage root outcome) outcome s' (attempt-calls s)
      where
        tried :
            (stale : Bool) (outcome : Result T (Error Other)) (s' : Resolver storage root)
            → calls s'.world ≤ suc (calls s.world)
            → calls
                (elim stale as (λ x. Result T (Error Other) × Resolver storage root) [
                  | false ↦ (outcome, s')
                  | true ↦ recover storage root path op s'
                ]).1.world
              ≤ calls s.world + 3
        tried false outcome s' e = omega (arith, e)
        tried true outcome s' e = omega (arith, e, recover-calls s')
