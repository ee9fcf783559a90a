-- ===== src/Planner/Claimed.antt =====
-- What the planner knows of the names that are taken, for crates/mtpx-core/src/planner.rs.
use mtpx.Base.{
  ◌≡◌, ◌⊎◌, inl, inr, refl, sym, ap, ◌∙◌, true, false, List, [], ◌∷◌, ◌++◌, map, Option, none, some,
  Bool, not, ◌&&◌, All, All-elem, All-map, Elem, Elem-append_left, Elem-append_right, Bool-cases,
  ◌==◌, ==_iff, nat_ord, list_ord, arith,
}
use mtpx.Std.Text.{Str}
use mtpx.Entry.{Entry, EntryKind, file, dir, kind_eq, kind-cases}
use mtpx.Planner.{HashMap, NameFolding, exact, case_insensitive, Claims, lookup, fold, collides}

lookup-Elem :
    {V : Type 0} (k : List Str) (m : HashMap V) (v : V) → lookup k m ≡ some v → Elem (k, v) m
unfolding lookup
lookup-Elem k [] v h = absurd (cc h)
lookup-Elem k ((j, w) ∷ m) v h = elim (Bool-cases (j == k)) [
  | inl same ↦
      let at : j ≡ k = (==_iff j k).0 same in
      let eq : w ≡ v = ground (arith, h, same) in
      inl (sym (ap (λ x. (x, w)) at ∙ ap (λ x. (k, x)) eq))
  | inr other ↦ inr (lookup-Elem k m v (ground (arith, h, other)))
]

module _ (lower : Str → Str) (folding : NameFolding) where
  -- The name, in lower case, is one of an entry of that kind.
  abbrev pub IsOwned : List Entry → List Str × EntryKind → Type 0
  IsOwned before (key, kind) =
      (q : Entry) × Elem q before × (map lower q.path ≡ key) × (q.kind ≡ kind)

  pub record IsClaimed (before : List Entry) (c : Claims) : Type 0 where
    pub folding_is : c.folding ≡ folding
    pub owned : All (IsOwned before) c.seen

  IsOwned-more :
      (before more : List Entry) (k : List Str × EntryKind)
      → IsOwned before k
      → IsOwned (before ++ more) k
  IsOwned-more before more (key, kind) (q, m, at, is_kind) =
      (q, Elem-append_left q before more m, at, is_kind)

  pub IsClaimed-more :
      (before : List Entry) (e : Entry) (c : Claims)
      → IsClaimed before c
      → IsClaimed (before ++ (e ∷ [])) c
  IsClaimed-more before e c k = record {
    folding_is = k.folding_is;
    owned = All-map _ _ (IsOwned-more before (e ∷ [])) c.seen k.owned;
  }

  -- A name that is taken afresh is the entry's.
  pub collides-IsClaimed :
      (before : List Entry) (e : Entry) (c : Claims)
      → IsClaimed before c
      → IsClaimed (before ++ (e ∷ [])) (collides lower c e).0
  unfolding collides fold
  collides-IsClaimed before e c k =
      let k' = IsClaimed-more before e c k in
      let taken : IsOwned (before ++ (e ∷ [])) (map lower e.path, e.kind) =
        (e, Elem-append_right e before (e ∷ []) (inl refl), refl, refl) in
      record { folding_is = ground (arith, k'.folding_is); owned = owned k' taken }
    where
      owned :
          IsClaimed (before ++ (e ∷ [])) c
          → IsOwned (before ++ (e ∷ [])) (map lower e.path, e.kind)
          → All (IsOwned (before ++ (e ∷ []))) (collides lower c e).0.seen
      owned k' taken = by c.folding (lookup (map lower e.path) c.seen)
        where
          by :
              (f : NameFolding) (o : Option EntryKind)
              → All
                  (IsOwned (before ++ (e ∷ [])))
                  (elim f as (λ x. Claims × Bool) [
                    | exact ↦ (c, false)
                    | case_insensitive ↦ elim o as (λ x. Claims × Bool) [
                      | none ↦ (record c { seen = (map lower e.path, e.kind) ∷ c.seen }, false)
                      | some owner ↦ (c, not (kind_eq e.kind dir && kind_eq owner dir))
                    ]
                  ]).0.seen
          by exact o = k'.owned
          by case_insensitive none = (taken, k'.owned)
          by case_insensitive (some owner) = k'.owned

  -- An entry that collides has its name from one before it, and one of the two is a file.
  pub collides-owned :
      (before : List Entry) (e : Entry) (c : Claims)
      → IsClaimed before c
      → (collides lower c e).1 ≡ true
      → (folding ≡ case_insensitive)
        × ((q : Entry) × Elem q before
            × (map lower q.path ≡ map lower e.path)
            × ((e.kind ≡ file) ⊎ (q.kind ≡ file)))
  unfolding collides fold
  collides-owned before e c k h = by c.folding (lookup (map lower e.path) c.seen) refl refl h
    where
      by :
          (f : NameFolding) (o : Option EntryKind)
          → c.folding ≡ f
          → lookup (map lower e.path) c.seen ≡ o
          → (elim f as (λ x. Claims × Bool) [
            | exact ↦ (c, false)
            | case_insensitive ↦ elim o as (λ x. Claims × Bool) [
              | none ↦ (record c { seen = (map lower e.path, e.kind) ∷ c.seen }, false)
              | some owner ↦ (c, not (kind_eq e.kind dir && kind_eq owner dir))
            ]
          ]).1
            ≡ true
          → (folding ≡ case_insensitive)
            × ((q : Entry) × Elem q before
                × (map lower q.path ≡ map lower e.path)
                × ((e.kind ≡ file) ⊎ (q.kind ≡ file)))
      by exact o is_f at h = absurd (cc h)
      by case_insensitive none is_f at h = absurd (cc h)
      by case_insensitive (some owner) is_f at h =
          let (q, m, same, is_kind) =
            All-elem (IsOwned before) (map lower e.path, owner) c.seen k.owned
              (lookup-Elem (map lower e.path) c.seen owner at) in
          (
            sym k.folding_is ∙ is_f,
            (
              q,
              m,
              same,
              elim (kind-cases e.kind) [ inl i ↦ inl i | inr i ↦ inr (is_kind ∙ (ground arith)) ],
            ),
          )
