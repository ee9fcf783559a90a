-- ===== src/Remote/Tree.antt =====
-- The tree that a walk finds, for crates/mtpx-core/src/internal/mtp/scan.rs.
use mtpx.Base.{
  ℕ, ◌≡◌, ◌⊎◌, inl, inr, refl, ap, sym, subst, ◌∙◌, Bool, true, false, ◌&&◌, List, [], ◌∷◌, ◌++◌,
  map, Option, some, Elem, Elem-append_left, Elem-append_right, Elem-append, All, All-map,
  All-append, All-elem, Distinct, Distinct-append_one, All-not-Elem-map, map-append_one, Bool-cases,
  if◌then◌else◌,
}
use mtpx.Std.Text.{Str}
use mtpx.Path.RelPath.{RelPath, root}
use mtpx.Entry.{Entry, dir}
use mtpx.Remote.Storage.{Storage}
use mtpx.Remote.Listing.{Object}
use mtpx.Remote.Named.{IsNamed}
use mtpx.Remote.Walk.{Walked, Walking, has_handle, skip, entry_from, record_child, announce, visit}

-- A list is its start and its last element.
pub append_one-injective :
    {A : Type 0} (xs ys : List A) {a b : A} → xs ++ (a ∷ []) ≡ ys ++ (b ∷ []) → (xs ≡ ys) × (a ≡ b)
append_one-injective [] [] h = (refl, cc h)
append_one-injective [] (y ∷ []) h = absurd (cc h)
append_one-injective [] (y ∷ z ∷ ys) h = absurd (cc h)
append_one-injective (x ∷ []) [] h = absurd (cc h)
append_one-injective (x ∷ z ∷ xs) [] h = absurd (cc h)
append_one-injective (x ∷ xs) (y ∷ ys) {a} {b} h =
    let both : (xs ++ (a ∷ []) ≡ ys ++ (b ∷ [])) = cc h in
    let same : x ≡ y = cc h in
    let (front, last) = append_one-injective xs ys both in
    (ap (λ l. x ∷ l) front ∙ ap (λ z. z ∷ ys) same, last)

append_one-ne_root : (xs : RelPath) (a : Str) → xs ++ (a ∷ []) ≡ root → ⊥
append_one-ne_root [] a h = cc h
append_one-ne_root (x ∷ xs) a h = cc h

abbrev pub path_of : Entry → RelPath
path_of e = e.path

-- The root, or the path of a directory among the entries.
abbrev pub IsFolderOf : List Entry → RelPath → Type 0
IsFolderOf entries p = (p ≡ root) ⊎ ((e : Entry) × Elem e entries × (e.path ≡ p) × (e.kind ≡ dir))

IsFolderOf-more :
    (entries more : List Entry) (p : RelPath)
    → IsFolderOf entries p
    → IsFolderOf (entries ++ more) p
IsFolderOf-more entries more p (inl top) = inl top
IsFolderOf-more entries more p (inr (e, m, at, is_dir)) =
    inr (e, Elem-append_left e entries more m, at, is_dir)

-- The entry is named beneath one of the folders.
abbrev pub IsBeneath : (RelPath → Type 0) → Entry → Type 0
IsBeneath IsFolder e =
    (parent : RelPath) × (name : Str) × IsFolder parent × IsNamed parent name e.path

pub Elem-map : {A B : Type 0} (f : A → B) (a : A) (xs : List A) → Elem a xs → Elem (f a) (map f xs)
Elem-map f a [] h = h
Elem-map f a (x ∷ xs) (inl e) = inl (ap f e)
Elem-map f a (x ∷ xs) (inr h) = inr (Elem-map f a xs h)

new-not_folder :
    (entries : List Entry) (parent : RelPath) (name : Str) (path : RelPath)
    → IsNamed parent name path
    → (Elem path (map path_of entries) → ⊥)
    → IsFolderOf entries path
    → ⊥
new-not_folder entries parent name path named new (inl top) =
    append_one-ne_root parent name (sym named.0 ∙ top)
new-not_folder entries parent name path named new (inr (e, m, at, is_dir)) =
    new (subst (λ p. Elem p (map path_of entries)) at (Elem-map path_of e entries m))

module _ {Other : Type 0} (storage : Storage Other) where
  abbrev pub pending_path : RelPath × Option ℕ → RelPath
  pending_path (path, handle) = path

  -- What is pending beside the folders `done`: folders found and not yet listed, each once.
  pub record IsPending (done : List RelPath) (entries : List Entry)
      (pending : List (RelPath × Option ℕ)) : Type 0 where
    pub ahead : Distinct (map pending_path pending)
    pub apart : All (λ p. Elem (pending_path p) done → ⊥) pending
    pub known : All (λ p. IsFolderOf entries (pending_path p)) pending

  -- A walk that has listed the folders `done`.
  pub record IsTree (done : List RelPath) (walked : Walked) (pending : List (RelPath × Option ℕ))
      : Type 0 where
    pub distinct : Distinct (map path_of walked.entries)
    pub beneath : All (IsBeneath (λ p. Elem p done)) walked.entries
    pub folders : All (IsFolderOf walked.entries) done
    pub waiting : IsPending done walked.entries pending

  IsPending-more :
      (done : List RelPath) (entries more : List Entry) (pending : List (RelPath × Option ℕ))
      → IsPending done entries pending
      → IsPending done (entries ++ more) pending
  IsPending-more done entries more pending k = record {
    ahead = k.ahead;
    apart = k.apart;
    known = All-map _ _ (λ p. IsFolderOf-more entries more (pending_path p)) pending k.known;
  }

  push-IsPending :
      (done : List RelPath) (entries : List Entry) (e : Entry) (handle : ℕ) (is_folder : Bool)
      (pending : List (RelPath × Option ℕ))
      → (is_folder ≡ true → e.kind ≡ dir)
      → (IsFolderOf entries e.path → ⊥)
      → (Elem e.path done → ⊥)
      → IsPending done entries pending
      → IsPending done
          (entries ++ (e ∷ []))
          (if is_folder then (e.path, some handle) ∷ pending else pending)
  push-IsPending done entries e handle false pending is_dir new unlisted k =
      IsPending-more done entries (e ∷ []) pending k
  push-IsPending done entries e handle true pending is_dir new unlisted k =
      let k' = IsPending-more done entries (e ∷ []) pending k in
      record {
        ahead = (
          All-not-Elem-map pending_path e.path pending (
              All-map _ _ (λ p folder same. new (subst (IsFolderOf entries) (sym same) folder))
                pending k.known),
          k.ahead,
        );
        apart = (unlisted, k.apart);
        known =
            (inr (e, Elem-append_right e entries (e ∷ []) (inl refl), refl, is_dir refl), k'.known);
      }

  record-IsTree :
      (done : List RelPath) (path : RelPath) (child : RelPath) (info : Object storage)
      (s : Walking storage)
      → Elem path done
      → IsNamed path info.filename child
      → (Elem child (map path_of s.walked.entries) → ⊥)
      → IsTree done s.walked s.pending
      → let s' = record_child storage child info s in IsTree done s'.walked s'.pending
  unfolding record_child entry_from
  record-IsTree done path child info s here named new t =
      let e : Entry = entry_from storage child info in
      let entries = s.walked.entries in
      record {
        distinct =
            subst Distinct (sym (map-append_one path_of entries e))
              (Distinct-append_one (map path_of entries) child new t.distinct);
        beneath = All-append _ entries (e ∷ []) t.beneath ((path, info.filename, here, named), tt);
        folders = All-map _ _ (IsFolderOf-more entries (e ∷ [])) done t.folders;
        waiting =
            push-IsPending done entries e info.handle info.is_folder s.pending (λ h. rw h refl)
              fresh (λ m. fresh (All-elem (IsFolderOf entries) child done t.folders m)) t.waiting;
      }
    where
      fresh : IsFolderOf s.walked.entries child → ⊥
      fresh = new-not_folder s.walked.entries path info.filename child named new

  -- What a visit adds to the paths: the child's, or nothing.
  pub visit-IsTree :
      (done : List RelPath) (path : RelPath) (child : RelPath) (info : Object storage)
      (s : Walking storage)
      → Elem path done
      → IsNamed path info.filename child
      → (Elem child (map path_of s.walked.entries) → ⊥)
      → IsTree done s.walked s.pending
      → let s' = visit storage path (child, info) s in
        IsTree done s'.walked s'.pending
        × ((p : RelPath)
            → Elem p (map path_of s'.walked.entries)
            → (p ≡ child) ⊎ Elem p (map path_of s.walked.entries))
  unfolding visit announce record_child entry_from skip
  visit-IsTree done path child info s here named new t =
      elim (Bool-cases (info.is_folder && has_handle info.handle s.visited)) [
        | inl again ↦ rw again (
          record {
            distinct = t.distinct;
            beneath = t.beneath;
            folders = t.folders;
            waiting = t.waiting;
          },
          λ p m. inr m,
        )
        | inr first ↦ rw first (
          record-IsTree done path child info s here named new t,
          λ p m.
              elim (Elem-append p (map path_of s.walked.entries) (child ∷ []) (
                subst (Elem p)
                  (map-append_one path_of s.walked.entries (entry_from storage child info)) m)) [
                    | inl old ↦ inr old
                    | inr (inl e) ↦ inl e
                    | inr (inr n) ↦ absurd n
                  ],
        )
      ]
