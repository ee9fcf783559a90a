-- ===== src/Remote/Locating.antt =====
-- What a resolver finds on a device that does not change, for
-- crates/mtpx-core/src/internal/mtp/resolver.rs.
use mtpx.Base.{
  ℕ, ◌≡◌, inl, inr, ap, sym, subst, ◌∙◌, true, List, [], ◌∷◌, ◌++◌, Option, none, some, ok, Elem,
  All, Bool-cases, if◌then◌else◌, ◌==◌, ==_iff, nat_ord, list_ord, arith,
}
use mtpx.Std.Text.{Str}
use mtpx.Path.RelPath.{RelPath}
use mtpx.Partial.{is_reserved_name}
use mtpx.Remote.Storage.{ObjectInfo, Storage}
use mtpx.Remote.Listing.{Object}
use mtpx.Remote.Named.{IsFirst}
use mtpx.Remote.Resolver.{HandleCache, get, prime}

-- The first object with the name.
abbrev pub first_named : {Date : Type 0} → Str → List (ObjectInfo Date) → Option (ObjectInfo Date)
first_named name [] = none
first_named name (x ∷ objects) = if x.filename == name then some x else first_named name objects

pub first_named-IsFirst :
    {Date : Type 0} (info : ObjectInfo Date) (objects : List (ObjectInfo Date))
    → IsFirst info objects
    → first_named info.filename objects ≡ some info
first_named-IsFirst info [] h = absurd h
first_named-IsFirst info (x ∷ objects) (inl e) =
    let same : (x.filename == info.filename) ≡ true =
      (==_iff x.filename info.filename).1 (ap (λ y. y.filename) (sym e)) in
    rw same (ap some (sym e))
first_named-IsFirst info (x ∷ objects) (inr (ne, h)) =
    elim (Bool-cases (x.filename == info.filename)) [
      | inl same ↦ absurd (ne ((==_iff x.filename info.filename).0 same))
      | inr other ↦ rw other (first_named-IsFirst info objects h)
    ]

pub first_named-some :
    {Date : Type 0} (name : Str) (objects : List (ObjectInfo Date)) (info : ObjectInfo Date)
    → first_named name objects ≡ some info
    → (info.filename ≡ name) × IsFirst info objects
first_named-some name [] info h = absurd (cc h)
first_named-some name (x ∷ objects) info h = elim (Bool-cases (x.filename == name)) [
  | inl same ↦
      let at : x.filename ≡ name = (==_iff x.filename name).0 same in
      let eq : x ≡ info = ground (arith, h, same) in
      (subst (λ y. y.filename ≡ name) eq at, inl (sym eq))
  | inr other ↦
      let (at, first) = first_named-some name objects info (ground (arith, h, other)) in
      (at, inr (λ e. absurd (ground (arith, other, (==_iff x.filename name).1 (e ∙ at))), first))
]

module _ {Date : Type 0} (tree : Option ℕ → List (ObjectInfo Date)) where
  -- The object in a folder, where a name of this kind may be used.
  unfoldable pub lookup : Option ℕ → Str → Option (ObjectInfo Date)
  lookup folder name = if is_reserved_name name then none else first_named name (tree folder)

  -- The handle at the end of a path, by the folders on the way.
  abbrev pub locate : Option ℕ → RelPath → Option (Option ℕ)
  locate folder [] = some folder
  locate folder (name ∷ names) = elim (lookup folder name) [
    | none ↦ none
    | some info ↦ locate (some info.handle) names
  ]

  pub locate-append_one :
      (folder : Option ℕ) (path : RelPath) (name : Str) (at : Option ℕ)
      → locate folder path ≡ some at
      → locate folder (path ++ (name ∷ [])) ≡ locate at (name ∷ [])
  locate-append_one folder [] name at h =
      let same : folder ≡ at = cc h in ap (λ f. locate f (name ∷ [])) same
  locate-append_one folder (s ∷ ss) name at h =
      beneath (lookup folder s) (λ f. locate-append_one f ss name at) h
    where
      beneath :
          (o : Option (ObjectInfo Date))
          → ((f : Option ℕ)
              → locate f ss ≡ some at
              → locate f (ss ++ (name ∷ [])) ≡ locate at (name ∷ []))
          → elim o [ none ↦ none | some info ↦ locate (some info.handle) ss ] ≡ some at
          → elim o [ none ↦ none | some info ↦ locate (some info.handle) (ss ++ (name ∷ [])) ]
            ≡ locate at (name ∷ [])
      beneath none more e = absurd (cc e)
      beneath (some info) more e = more (some info.handle) e

-- The folders of the device hold what they hold, and it describes every object.
pub record IsStable {Other : Type 0} (storage : Storage Other)
    (tree : Option ℕ → List (Object storage)) : Type 0 where
  pub answered :
      (folder : Option ℕ) (w : storage.World)
      → (storage.collect_objects folder w).0 ≡ ok (record { objects = tree folder; refused = [] })

module _ {Other : Type 0} (storage : Storage Other) (tree : Option ℕ → List (Object storage))
    (root : Option ℕ) where
  -- Every handle in the cache is the one that its path has.
  abbrev pub Agrees : HandleCache → Type 0
  Agrees cache = All (λ (path, handle). locate tree root path ≡ some (some handle)) cache

  pub get-Agrees :
      (path : RelPath) (cache : HandleCache) (handle : ℕ)
      → Agrees cache
      → get path cache ≡ some handle
      → locate tree root path ≡ some (some handle)
  unfolding get
  get-Agrees path [] handle a h = absurd (cc h)
  get-Agrees path ((key, x) ∷ cache) handle a h = elim (Bool-cases (key == path)) [
    | inl same ↦
        let eq : x ≡ handle = ground (arith, h, same) in
        let at : key ≡ path = (==_iff key path).0 same in
        subst (λ n. locate tree root path ≡ some (some n)) eq
          (subst (λ p. locate tree root p ≡ some (some x)) at a.0)
    | inr other ↦ get-Agrees path cache handle a.1 (ground (arith, h, other))
  ]

  pub prime-Agrees :
      (entries cache : HandleCache) → Agrees entries → Agrees cache → Agrees (prime entries cache)
  unfolding prime
  prime-Agrees [] cache new a = a
  prime-Agrees ((path, handle) ∷ entries) cache new a =
      prime-Agrees entries ((path, handle) ∷ cache) new.1 (new.0, a)

  -- A path that is among the primed entries is in the cache.
  get-kept :
      (path : RelPath) (entry : RelPath × ℕ) (cache : HandleCache)
      → (get path cache ≡ none → ⊥)
      → get path (entry ∷ cache) ≡ none
      → ⊥
  unfolding get
  get-kept path (key, x) cache found h = elim (Bool-cases (key == path)) [
    | inl same ↦ ground (arith, h, same)
    | inr other ↦ found (ground (arith, h, other))
  ]

  prime-keeps :
      (path : RelPath) (entries cache : HandleCache)
      → (get path cache ≡ none → ⊥)
      → get path (prime entries cache) ≡ none
      → ⊥
  unfolding prime
  prime-keeps path [] cache found h = found h
  prime-keeps path (entry ∷ entries) cache found h =
      prime-keeps path entries (entry ∷ cache) (get-kept path entry cache found) h

  pub prime-finds :
      (path : RelPath) (handle : ℕ) (entries cache : HandleCache)
      → Elem (path, handle) entries
      → get path (prime entries cache) ≡ none
      → ⊥
  unfolding prime get
  prime-finds path handle [] cache m h = m
  prime-finds path handle ((key, x) ∷ entries) cache (inr m) h =
      prime-finds path handle entries ((key, x) ∷ cache) m h
  prime-finds path handle ((key, x) ∷ entries) cache (inl e) h =
      let same : (key == path) ≡ true = (==_iff key path).1 (ap (λ c. c.0) (sym e)) in
      prime-keeps path entries ((key, x) ∷ cache) (λ g. ground (arith, g, same)) h
