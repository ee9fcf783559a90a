-- ===== src/Remote/Resolved.antt =====
-- Resolving a whole path, for crates/mtpx-core/src/internal/mtp/resolver.rs.
use mtpx.Base.{
  ℕ, ◌≡◌, ◌⊎◌, inl, inr, refl, ap, sym, subst, ◌∙◌, List, [], ◌∷◌, ◌++◌, Option, none, some,
  append_assoc, append-nil, Result, ok, err, All, All-split,
}
use mtpx.Std.Text.{Str}
use mtpx.Path.RelPath.{RelPath, join, parent, split_last_segment}
use mtpx.Path.Segment.{PathError, IsValid}
use mtpx.Error.{Error}
use mtpx.Remote.Storage.{ObjectInfo, Storage}
use mtpx.Remote.Listing.{Object}
use mtpx.Remote.Resolver.{
  get, Resolver, cached, ok_or, child, descend, listing_parent, resolve_beneath, resolve_unless,
  resolve, root_unsupported,
}
use mtpx.Remote.Locating.{lookup, locate, IsStable, Agrees, get-Agrees}
use mtpx.Remote.Resolving.{Found, child-Found}

locate-none_append :
    {Date : Type 0} (tree : Option ℕ → List (ObjectInfo Date)) (folder : Option ℕ)
    (path rest : RelPath)
    → locate tree folder path ≡ none
    → locate tree folder (path ++ rest) ≡ none
locate-none_append tree folder [] rest h = absurd (cc h)
locate-none_append {Date} tree folder (s ∷ ss) rest h =
    beneath (lookup tree folder s) (λ f. locate-none_append tree f ss rest) h
  where
    beneath :
        (o : Option (ObjectInfo Date))
        → ((f : Option ℕ) → locate tree f ss ≡ none → locate tree f (ss ++ rest) ≡ none)
        → elim o [ none ↦ none | some info ↦ locate tree (some info.handle) ss ] ≡ none
        → elim o [ none ↦ none | some info ↦ locate tree (some info.handle) (ss ++ rest) ] ≡ none
    beneath none more e = refl
    beneath (some info) more e = more (some info.handle) e

join-of_valid :
    (path : RelPath) (segment : Str)
    → IsValid segment
    → join path segment ≡ ok (path ++ (segment ∷ []))
unfolding join
join-of_valid path segment v = rw v refl

-- A path is its parent and one more segment, or the root.
abbrev pub IsSplit : RelPath → Option (List Str × Str) → Type 0
IsSplit path none = path ≡ []
IsSplit path (some (init, last)) = path ≡ init ++ (last ∷ [])

pub split_last_segment-IsSplit : (path : RelPath) → IsSplit path (split_last_segment path)
unfolding split_last_segment
split_last_segment-IsSplit [] = refl
split_last_segment-IsSplit (s ∷ []) = refl
split_last_segment-IsSplit (s ∷ t ∷ ss) =
    more (split_last_segment (t ∷ ss)) (split_last_segment-IsSplit (t ∷ ss))
  where
    more :
        (o : Option (List Str × Str))
        → IsSplit (t ∷ ss) o
        → IsSplit (s ∷ t ∷ ss) (elim o [ none ↦ none | some (init, last) ↦ some (s ∷ init, last) ])
    more none h = absurd (cc h)
    more (some (init, last)) h = ap (◌∷◌ s) h

module _ {Other : Type 0} (storage : Storage Other) (tree : Option ℕ → List (Object storage))
    (root : Option ℕ) (stable : IsStable storage tree) where
  -- The first missing path on the way, as the error names it.
  abbrev pub IsVanished : RelPath → Error Other → Type 0
  IsVanished path e =
      (missing : RelPath) × (rest : RelPath) × (path ≡ missing ++ rest)
      × (locate tree root missing ≡ none)
      × (e ≡ Error.source_vanished missing)

  abbrev Descended : RelPath → Result (Option ℕ) (Error Other) × Resolver storage root → Type 0
  Descended path (ok h, s) = (locate tree root path ≡ some h) × Agrees storage tree root s.cache
  Descended path (err e, s) = IsVanished path e × Agrees storage tree root s.cache

  descend-Descended :
      (segments : List Str) (current : RelPath) (folder : Option ℕ) (s : Resolver storage root)
      → locate tree root current ≡ some folder
      → All IsValid segments
      → Agrees storage tree root s.cache
      → Descended (current ++ segments) (descend storage root segments current folder s)
  unfolding descend
  descend-Descended [] current folder s at valid a =
      (ap (locate tree root) (append-nil current) ∙ at, a)
  descend-Descended (segment ∷ segments) current folder s at (v, valid) a =
      let (r, s') = child storage root folder current (current ++ (segment ∷ [])) s in
      joined (join current segment) (join-of_valid current segment v) (
        beneath r s' (child-Found storage tree root current folder at segment v stable s a)
          (λ h s1 at' a'.
            descend-Descended segments (current ++ (segment ∷ [])) (some h) s1 at' valid a'))
    where
      onward : Result RelPath PathError → Result (Option ℕ) (Error Other) × Resolver storage root
      onward r = elim r [
        | err e ↦ (err (Error.invalid_path e), s)
        | ok next ↦
            let (found, s') = child storage root folder current next s in
            elim found [
              | err e ↦ (err e, s')
              | ok h ↦ descend storage root segments next (some h) s'
            ]
      ]

      same : (current ++ (segment ∷ [])) ++ segments ≡ current ++ (segment ∷ segments)
      same = append_assoc current (segment ∷ []) segments

      beneath :
          (r : Result ℕ (Error Other)) (s' : Resolver storage root)
          → Found storage tree root (current ++ (segment ∷ [])) (r, s')
          → ((h : ℕ) (s1 : Resolver storage root)
              → locate tree root (current ++ (segment ∷ [])) ≡ some (some h)
              → Agrees storage tree root s1.cache
              → Descended
                  ((current ++ (segment ∷ [])) ++ segments)
                  (descend storage root segments (current ++ (segment ∷ [])) (some h) s1))
          → Descended (current ++ (segment ∷ segments)) (elim r [
            | err e ↦ (err e, s')
            | ok h ↦ descend storage root segments (current ++ (segment ∷ [])) (some h) s'
          ])
      beneath (ok h) s' (at', a') more =
          subst
            (λ p.
              Descended p (descend storage root segments (current ++ (segment ∷ [])) (some h) s'))
            same (more h s' at' a')
      beneath (err e) s' (gone, named, a') more =
          ((current ++ (segment ∷ []), segments, sym same, gone, named), a')

      joined :
          (r : Result RelPath PathError)
          → r ≡ ok (current ++ (segment ∷ []))
          → Descended (current ++ (segment ∷ segments)) (onward (ok (current ++ (segment ∷ []))))
          → Descended (current ++ (segment ∷ segments)) (onward r)
      joined r e d = subst (λ x. Descended (current ++ (segment ∷ segments)) (onward x)) (sym e) d

  -- A handle is the one at the path. An error is for a path on the way where nothing is, or for the
  -- storage root itself. The cache still agrees with the device.
  abbrev pub IsResolved : RelPath → Result ℕ (Error Other) × Resolver storage root → Type 0
  IsResolved path (ok h, s) =
      (locate tree root path ≡ some (some h)) × Agrees storage tree root s.cache
  IsResolved path (err e, s) =
      (((path ≡ []) × (root ≡ none) × (e ≡ root_unsupported storage root))
        ⊎ ((locate tree root path ≡ none) × IsVanished path e))
      × Agrees storage tree root s.cache

  Found-IsResolved :
      (path : RelPath) (r : Result ℕ (Error Other)) (s : Resolver storage root)
      → Found storage tree root path (r, s)
      → IsResolved path (r, s)
  Found-IsResolved path (ok h) s f = f
  Found-IsResolved path (err e) s (gone, named, a) =
      (inr (gone, (path, [], sym (append-nil path), gone, named)), a)

  Vanished-IsResolved :
      (dir : RelPath) (name : Str) (e : Error Other) (s : Resolver storage root)
      → IsVanished dir e
      → Agrees storage tree root s.cache
      → IsResolved (dir ++ (name ∷ [])) (err e, s)
  Vanished-IsResolved dir name e s (missing, rest, at, gone, named) a =
      let split : dir ++ (name ∷ []) ≡ missing ++ (rest ++ (name ∷ [])) =
        ap (λ l. l ++ (name ∷ [])) at ∙ append_assoc missing rest (name ∷ []) in
      (
        inr (
          ap (locate tree root) split
              ∙ locate-none_append tree root missing (rest ++ (name ∷ [])) gone,
          (missing, rest ++ (name ∷ []), split, gone, named),
        ),
        a,
      )

  resolve_root :
      (top : Option ℕ) (s : Resolver storage root)
      → root ≡ top
      → Agrees storage tree root s.cache
      → IsResolved [] (ok_or storage root (root_unsupported storage root) top, s)
  resolve_root none s e a = (inl (refl, e, refl), a)
  resolve_root (some h) s e a = (ap some e, a)

  resolve_beneath-IsResolved :
      (path : RelPath) (s : Resolver storage root) (o : Option (List Str × Str))
      → IsSplit path o
      → All IsValid path
      → Agrees storage tree root s.cache
      → IsResolved path (
          resolve_beneath storage root path
            (elim o [ none ↦ none | some (init, last) ↦ some init ])
            s)
  unfolding listing_parent
  resolve_beneath-IsResolved path s none top valid a =
      subst (λ p. IsResolved p (ok_or storage root (root_unsupported storage root) root, s))
        (sym top) (resolve_root root s refl a)
  resolve_beneath-IsResolved path s (some (dir, name)) at valid a =
      let (valid_dir, valid_name) =
        All-split IsValid dir (name ∷ []) (subst (All IsValid) at valid) in
      let (r, s') = descend storage root dir [] root s in
      subst (λ p. IsResolved p (resolve_beneath storage root p (some dir) s)) (sym at)
        (beneath valid_name.0 r s' (descend-Descended dir [] root s refl valid_dir a))
    where
      beneath :
          IsValid name
          → (r : Result (Option ℕ) (Error Other)) (s' : Resolver storage root)
          → Descended dir (r, s')
          → IsResolved (dir ++ (name ∷ [])) (elim r [
            | err e ↦ (err e, s')
            | ok handle ↦ child storage root handle dir (dir ++ (name ∷ [])) s'
          ])
      beneath v (err e) s' (gone, a') = Vanished-IsResolved dir name e s' gone a'
      beneath v (ok handle) s' (found, a') =
          let (r, s1) = child storage root handle dir (dir ++ (name ∷ [])) s' in
          Found-IsResolved (dir ++ (name ∷ [])) r s1
            (child-Found storage tree root dir handle found name v stable s' a')

  -- On a device whose folders do not change and that describes every object, with a cache that agrees
  -- with it, a path of valid segments resolves to the handle that walking it down the folders finds.
  -- It fails only where nothing is at the path, with the first missing path on the way, or for the
  -- storage root itself, which has no handle. The cache agrees with the device afterwards.
  pub resolve-IsResolved :
      (path : RelPath) (s : Resolver storage root)
      → All IsValid path
      → Agrees storage tree root s.cache
      → IsResolved path (resolve storage root path s)
  unfolding resolve cached parent
  resolve-IsResolved path s valid a = looked_up (get path s.cache) refl
    where
      looked_up :
          (o : Option ℕ)
          → get path s.cache ≡ o
          → IsResolved path (resolve_unless storage root path o s)
      looked_up (some h) e = (get-Agrees storage tree root path s.cache h a e, a)
      looked_up none e =
          resolve_beneath-IsResolved path s (split_last_segment path)
            (split_last_segment-IsSplit path) valid a
