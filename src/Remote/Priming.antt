-- ===== src/Remote/Priming.antt =====
-- What a primed cache and a snapshot have for a path, for crates/mtpx-core/src/internal/mtp/resolver.rs
-- and crates/mtpx-core/src/entry.rs.
use mtpx.Base.{
  ℕ, ◌≡◌, inl, inr, refl, sym, ap, subst, ◌∙◌, true, Bool-cases, List, [], ◌∷◌, map, some, Elem,
  Distinct, ◌==◌, ==_iff, nat_ord, list_ord, arith,
}
use mtpx.Path.RelPath.{RelPath}
use mtpx.Entry.{Entry}
use mtpx.Snapshot.Lookup.{find}
use mtpx.Remote.Resolver.{HandleCache, get, prime}

abbrev pub handle_path : RelPath × ℕ → RelPath
handle_path (path, handle) = path

-- The entry found is in the list, under the path.
pub find-Elem :
    (path : RelPath) (entries : List Entry) (e : Entry)
    → find path entries ≡ some e
    → Elem e entries × (e.path ≡ path)
unfolding find
find-Elem path [] e h = absurd (cc h)
find-Elem path (x ∷ entries) e h = elim (Bool-cases (x.path == path)) [
  | inl same ↦
      let at : x.path ≡ path = (==_iff x.path path).0 same in
      let one : x ≡ e = ground (arith, h, same) in
      (inl (sym one), subst (λ y. y.path ≡ path) one at)
  | inr other ↦
      let (there, at) = find-Elem path entries e (ground (arith, h, other)) in (inr there, at)
]

get-cons_other :
    (path key : RelPath) (handle : ℕ) (cache : HandleCache)
    → (path ≡ key → ⊥)
    → get path ((key, handle) ∷ cache) ≡ get path cache
unfolding get
get-cons_other path key handle cache ne = elim (Bool-cases (key == path)) [
  | inl same ↦ absurd (ne (sym ((==_iff key path).0 same)))
  | inr other ↦ rw other refl
]

get-prime_other :
    (path : RelPath) (entries cache : HandleCache)
    → (Elem path (map handle_path entries) → ⊥)
    → get path (prime entries cache) ≡ get path cache
unfolding prime
get-prime_other path [] cache absent = refl
get-prime_other path ((key, handle) ∷ entries) cache absent =
    get-prime_other path entries ((key, handle) ∷ cache) (λ m. absent (inr m))
    ∙ get-cons_other path key handle cache (λ e. absent (inl e))

-- Where no two of the entries have the same path, each is found once the cache is primed.
pub get-prime :
    (path : RelPath) (handle : ℕ) (entries cache : HandleCache)
    → Distinct (map handle_path entries)
    → Elem (path, handle) entries
    → get path (prime entries cache) ≡ some handle
unfolding prime get
get-prime path handle [] cache distinct m = absurd m
get-prime path handle ((key, x) ∷ entries) cache distinct (inl e) =
    let at : path ≡ key = ap handle_path e in
    let same : (key == path) ≡ true = (==_iff key path).1 (sym at) in
    let eq : handle ≡ x = ap (λ (p, n). n) e in
    get-prime_other path entries ((key, x) ∷ cache)
      (λ m. distinct.0 (subst (λ p. Elem p (map handle_path entries)) at m))
    ∙ rw same (ap some (sym eq))
get-prime path handle ((key, x) ∷ entries) cache distinct (inr m) =
    get-prime path handle entries ((key, x) ∷ cache) distinct.1 m
