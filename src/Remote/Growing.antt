-- ===== src/Remote/Growing.antt =====
-- How a round grows the tree, for crates/mtpx-core/src/internal/mtp/scan.rs.
use mtpx.Base.{
  ℕ, ◌≡◌, inl, inr, refl, sym, subst, ◌∙◌, List, [], ◌∷◌, map, Option, Elem, All, All-map, All-elem,
  All-of_elem, Distinct,
}
use mtpx.Std.Text.{Str}
use mtpx.Path.RelPath.{RelPath}
use mtpx.Entry.{Entry}
use mtpx.Remote.Storage.{Storage}
use mtpx.Remote.Listing.{Object, Listing, classify}
use mtpx.Remote.Named.{IsNamed, name_of, classify-IsListing}
use mtpx.Remote.Walk.{Walked, Walking, visit, visit_all, with_listing}
use mtpx.Remote.Tree.{
  Elem-map, append_one-injective, path_of, IsBeneath, pending_path, IsPending, IsTree, visit-IsTree,
}

pub Elem-unmap :
    {A B : Type 0} (f : A → B) (b : B) (xs : List A)
    → Elem b (map f xs)
    → (a : A) × Elem a xs × (b ≡ f a)
Elem-unmap f b [] h = absurd h
Elem-unmap f b (x ∷ xs) (inl e) = (x, inl refl, e)
Elem-unmap f b (x ∷ xs) (inr m) = let (a, there, e) = Elem-unmap f b xs m in (a, inr there, e)

-- What is known of an element may be used with its place.
All-with :
    {A : Type 0} (P Q : A → Type 0) (xs : List A)
    → ((a : A) → Elem a xs → P a → Q a)
    → All P xs
    → All Q xs
All-with P Q xs f h = All-of_elem Q xs (λ a m. f a m (All-elem P a xs h m))

module _ {Other : Type 0} (storage : Storage Other) where
  abbrev child_path_of : RelPath × Object storage → RelPath
  child_path_of (path, info) = path

  -- A child that the walk has no entry for.
  abbrev IsNew : RelPath → List Entry → RelPath × Object storage → Type 0
  IsNew path entries (child, info) =
      IsNamed path info.filename child × (Elem child (map path_of entries) → ⊥)

  visit_all-IsTree :
      (done : List RelPath) (path : RelPath)
      → Elem path done
      → (children : List (RelPath × Object storage)) (s : Walking storage)
      → All (IsNew path s.walked.entries) children
      → Distinct (map child_path_of children)
      → IsTree storage done s.walked s.pending
      → let s' = visit_all storage path children s in IsTree storage done s'.walked s'.pending
  unfolding visit_all
  visit_all-IsTree done path here [] s new distinct t = t
  visit_all-IsTree done path here ((child, info) ∷ children) s new distinct t =
      let (t', grown) = visit-IsTree storage done path child info s here new.0.0 new.0.1 t in
      visit_all-IsTree done path here children (visit storage path (child, info) s)
        (All-with (IsNew path s.walked.entries) _ children
          (λ (p, x) m (named, fresh). (
            named,
            λ there. elim (grown p there) [
              | inl same ↦ distinct.0 (
                  subst (λ q. Elem q (map child_path_of children)) same
                    (Elem-map child_path_of (p, x) children m))
              | inr old ↦ fresh old
            ],
          ))
          new.1)
        distinct.1 t'

  Distinct-paths :
      (path : RelPath) (children : List (RelPath × Object storage))
      → All (λ (p, info). IsNamed path info.filename p) children
      → Distinct (map (name_of storage path) children)
      → Distinct (map child_path_of children)
  Distinct-paths path [] named distinct = tt
  Distinct-paths path ((child, info) ∷ children) (here, named) (alone, distinct) = (
    λ m.
        let ((p, x), there, same) = Elem-unmap child_path_of child children m in
        let (at, admitted) =
          All-elem (λ (p, info). IsNamed path info.filename p) (p, x) children named there in
        let (eq, name) = append_one-injective path path (sym here.0 ∙ same ∙ at) in
        alone (
          subst (λ n. Elem n (map (name_of storage path) children)) (sym name)
            (Elem-map (name_of storage path) (p, x) children there)),
    Distinct-paths path children named distinct,
  )

  -- The children of a folder that was not listed are new.
  unlisted-IsNew :
      (done : List RelPath) (walked : Walked) (pending : List (RelPath × Option ℕ)) (path : RelPath)
      (child : RelPath) (name : Str)
      → IsTree storage done walked pending
      → (Elem path done → ⊥)
      → IsNamed path name child
      → Elem child (map path_of walked.entries)
      → ⊥
  unlisted-IsNew done walked pending path child name t unlisted named m =
      let (e, there, same) = Elem-unmap path_of child walked.entries m in
      let (parent, other, listed, beneath) =
        All-elem (IsBeneath (λ p. Elem p done)) e walked.entries t.beneath there in
      let (eq, last) = append_one-injective path parent (sym named.0 ∙ same ∙ beneath.0) in
      unlisted (subst (λ p. Elem p done) (sym eq) listed)

  pop-IsPending :
      (done : List RelPath) (entries : List Entry) (path : RelPath) (handle : Option ℕ)
      (rest : List (RelPath × Option ℕ))
      → IsPending storage done entries ((path, handle) ∷ rest)
      → IsPending storage (path ∷ done) entries rest
  pop-IsPending done entries path handle rest k = record {
    ahead = k.ahead.1;
    apart =
        All-with (λ p. Elem (pending_path storage p) done → ⊥) _ rest
          (λ p m old new. elim new [
            | inl same ↦ k.ahead.0 (
                subst (λ q. Elem q (map (pending_path storage) rest)) same
                  (Elem-map (pending_path storage) p rest m))
            | inr listed ↦ old listed
          ])
          k.apart.1;
    known = k.known.1;
  }

  pub with_listing-IsTree :
      (done : List RelPath) (path : RelPath) (handle : Option ℕ) (rest : List (RelPath × Option ℕ))
      (objects : List (Object storage)) (listing : Listing storage) (w : storage.World)
      (s : Walking storage)
      → listing.children ≡ (classify storage path objects).children
      → IsTree storage done s.walked ((path, handle) ∷ rest)
      → let s' = with_listing storage path rest listing w s in
        IsTree storage (path ∷ done) s'.walked s'.pending
  with_listing-IsTree done path handle rest objects listing w s same t =
      let k = classify-IsListing storage path objects in
      let named : All (λ (p, info). IsNamed path info.filename p) listing.children =
        subst (All _) (sym same) (All-map _ _ (λ c (named, first). named) _ k.named) in
      visit_all-IsTree (path ∷ done) path (inl refl) listing.children _
        (All-map _ _
          (λ (p, x) h. (h, unlisted-IsNew done s.walked _ path p x.filename t t.waiting.apart.0 h))
          listing.children named)
        (Distinct-paths path listing.children named
          (subst (λ cs. Distinct (map (name_of storage path) cs)) (sym same) k.distinct))
        (record {
          distinct = t.distinct;
          beneath =
              All-map _ _ (λ e (parent, name, listed, h). (parent, name, inr listed, h))
                s.walked.entries t.beneath;
          folders = (t.waiting.known.0, t.folders);
          waiting = pop-IsPending done s.walked.entries path handle rest t.waiting;
        })
