-- ===== src/Remote/Resolving.antt =====
-- Resolving a path, for crates/mtpx-core/src/internal/mtp/resolver.rs.
use mtpx.Base.{
  ℕ, ◌≡◌, inl, inr, refl, ap, sym, subst, ◌∙◌, false, List, [], ◌∷◌, ◌++◌, Option, none, some,
  Result, ok, err, Elem, All, Bool-cases, arith,
}
use mtpx.Std.Text.{Str}
use mtpx.Mtp.{MtpError}
use mtpx.Path.RelPath.{RelPath}
use mtpx.Path.Segment.{IsValid}
use mtpx.Partial.{is_reserved_name}
use mtpx.Error.{Error}
use mtpx.Remote.Storage.{Collection, Storage}
use mtpx.Remote.Listing.{Object, Listing, listed, list_folder, classify}
use mtpx.Remote.Named.{IsNamed, IsFirst, IsListing, classify-IsListing}
use mtpx.Remote.Resolver.{
  HandleCache, get, prime, Resolver, cached, handles_of, ok_or, after_listing, unless_cached, child,
}
use mtpx.Remote.Locating.{
  first_named-IsFirst, first_named-some, lookup, locate, locate-append_one, IsStable, Agrees,
  get-Agrees, prime-Agrees, prime-finds,
}

module _ {Other : Type 0} (storage : Storage Other) (tree : Option ℕ → List (Object storage))
    (root : Option ℕ) where
  -- The path has the handle, or nothing is there.
  abbrev pub Found : RelPath → Result ℕ (Error Other) × Resolver storage root → Type 0
  Found path (ok h, s) = (locate tree root path ≡ some (some h)) × Agrees storage tree root s.cache
  Found path (err e, s) =
      (locate tree root path ≡ none)
      × (e ≡ Error.source_vanished path)
      × Agrees storage tree root s.cache

  lookup-of_first :
      (folder : Option ℕ) (info : Object storage)
      → is_reserved_name info.filename ≡ false
      → IsFirst info (tree folder)
      → lookup tree folder info.filename ≡ some info
  unfolding lookup
  lookup-of_first folder info free first = rw free (first_named-IsFirst info (tree folder) first)

  lookup-some :
      (folder : Option ℕ) (name : Str) (info : Object storage)
      → lookup tree folder name ≡ some info
      → (is_reserved_name name ≡ false) × (info.filename ≡ name) × IsFirst info (tree folder)
  unfolding lookup
  lookup-some folder name info h = elim (Bool-cases (is_reserved_name name)) [
    | inl reserved ↦ absurd (ground (arith, h, reserved))
    | inr free ↦
        let (named, first) = first_named-some name (tree folder) info (ground (arith, h, free)) in
        (free, named, first)
  ]

  children-Agrees :
      (dir : RelPath) (folder : Option ℕ)
      → locate tree root dir ≡ some folder
      → (children : List (RelPath × Object storage))
      → All (λ (p, info). IsNamed dir info.filename p × IsFirst info (tree folder)) children
      → Agrees storage tree root (handles_of storage root children)
  children-Agrees dir folder at [] named = tt
  children-Agrees dir folder at ((p, info) ∷ children) ((here, first), named) = (
    ap (locate tree root) here.0
        ∙ locate-append_one tree root dir info.filename folder at
        ∙ rw (lookup-of_first folder info here.1.1 first, locate) refl,
    children-Agrees dir folder at children named,
  )

  Elem-handles_of :
      (p : RelPath) (info : Object storage) (children : List (RelPath × Object storage))
      → Elem (p, info) children
      → Elem (p, info.handle) (handles_of storage root children)
  Elem-handles_of p info [] m = m
  Elem-handles_of p info (c ∷ children) (inl e) = inl (ap (λ (q, x). (q, x.handle)) e)
  Elem-handles_of p info (c ∷ children) (inr m) = inr (Elem-handles_of p info children m)

  module _ (dir : RelPath) (folder : Option ℕ) (at : locate tree root dir ≡ some folder)
      (name : Str) (valid : IsValid name) where
    after_listing-Found :
        (listing : Listing storage) (s : Resolver storage root)
        → listing.children ≡ (classify storage dir (tree folder)).children
        → Agrees storage tree root s.cache
        → Found
            (dir ++ (name ∷ []))
            (after_listing storage root (dir ++ (name ∷ [])) (ok listing) s)
    unfolding cached
    after_listing-Found listing s same a =
        looked_up (get path (prime entries s.cache)) refl (lookup tree folder name) refl
      where
        path : RelPath
        path = dir ++ (name ∷ [])

        entries : HandleCache
        entries = handles_of storage root listing.children

        k : IsListing storage dir (tree folder) (classify storage dir (tree folder))
        k = classify-IsListing storage dir (tree folder)

        a' : Agrees storage tree root (prime entries s.cache)
        a' =
            prime-Agrees storage tree root entries s.cache
              (children-Agrees dir folder at listing.children (subst (All _) (sym same) k.named)) a

        looked_up :
            (o : Option ℕ)
            → get path (prime entries s.cache) ≡ o
            → (found : Option (Object storage)) → lookup tree folder name ≡ found
            → Found path (
              ok_or storage root (Error.source_vanished path) o,
              record s { cache = prime entries s.cache },
            )
        looked_up (some h) e found f = (get-Agrees storage tree root path _ h a' e, a')
        looked_up none e none f =
            (locate-append_one tree root dir name folder at ∙ rw (f, locate) refl, refl, a')
        looked_up none e (some info) f =
            let (free, named, first) = lookup-some folder name info f in
            let m =
              k.complete info
                (
                  subst IsValid (sym named) valid,
                  subst (λ n. is_reserved_name n ≡ false) (sym named) free,
                )
                first in
            let m' : Elem (dir ++ (info.filename ∷ []), info) listing.children =
              subst (Elem _) (sym same) m in
            absurd (
              prime-finds storage tree root path info.handle entries s.cache
                (subst (λ n. Elem (dir ++ (n ∷ []), info.handle) entries) named
                  (Elem-handles_of (dir ++ (info.filename ∷ [])) info listing.children m'))
                e)

    pub child-Found :
        (stable : IsStable storage tree) (s : Resolver storage root)
        → Agrees storage tree root s.cache
        → Found (dir ++ (name ∷ [])) (child storage root folder dir (dir ++ (name ∷ [])) s)
    unfolding child list_folder cached
    child-Found stable s a = looked_up (get (dir ++ (name ∷ [])) s.cache) refl
      where
        described :
            (w : storage.World) (r : Result (Collection Other storage.Date) (MtpError Other))
            → ok (record { objects = tree folder; refused = [] }) ≡ r
            → Found (dir ++ (name ∷ [])) (
                after_listing storage root
                  (dir ++ (name ∷ []))
                  (listed storage dir r)
                  (record s { world = w }))
        described w r e =
            subst
              (λ x. Found (dir ++ (name ∷ [])) (
                after_listing storage root (dir ++ (name ∷ [])) (listed storage dir x)
                  (record s { world = w })))
              e
              (after_listing-Found
                (record (classify storage dir (tree folder)) {
                  skipped = (classify storage dir (tree folder)).skipped ++ [];
                })
                (record s { world = w }) refl a)

        looked_up :
            (o : Option ℕ)
            → get (dir ++ (name ∷ [])) s.cache ≡ o
            → Found
                (dir ++ (name ∷ []))
                (unless_cached storage root folder dir (dir ++ (name ∷ [])) s o)
        looked_up (some h) e = (get-Agrees storage tree root (dir ++ (name ∷ [])) s.cache h a e, a)
        looked_up none e = described _ _ (sym (stable.answered folder s.world))
