-- ===== src/Device/Storages.antt =====
-- The choice of a storage, for crates/mtpx-core/src/device/mod.rs.
use mtpx.Base.{
  ℕ, zero, suc, ◌≤◌, ◌≡◌, ◌⊎◌, inl, inr, refl, ap, subst, Bool, true, false, Bool-cases, List, [],
  ◌∷◌, ◌++◌, length, Option, none, some, Result, ok, err, All, arith,
}
use mtpx.Std.Text.{Str}
use mtpx.Std.Numbers.{to_string}
use mtpx.Path.DevicePath.{StorageSelector}
use mtpx.Path.DevicePath
use mtpx.Error.{Error}
use mtpx.Device.{
  StorageInfo, storages, nth, find, storage_not_found, only_storage, found_or, is_named,
  select_storage,
}

nth-split :
    (n : ℕ) (infos : List StorageInfo) (info : StorageInfo)
    → nth n infos ≡ some info
    → (before : List StorageInfo) × (after : List StorageInfo) × (infos ≡ before ++ (info ∷ after))
      × (length before ≡ n)
nth-split n [] info h = absurd (cc h)
nth-split zero (x ∷ infos) info h = ([], infos, ap (λ y. y ∷ infos) (cc h), refl)
nth-split (suc n) (x ∷ infos) info h =
    let (before, after, e, l) = nth-split n infos info h in
    (x ∷ before, after, ap (◌∷◌ x) e, ap suc l)

nth-none : (n : ℕ) (infos : List StorageInfo) → nth n infos ≡ none → length infos ≤ n
nth-none n [] h = omega arith
nth-none zero (x ∷ infos) h = absurd (cc h)
nth-none (suc n) (x ∷ infos) h = omega (arith, nth-none n infos h)

find-split :
    (p : StorageInfo → Bool) (infos : List StorageInfo) (info : StorageInfo)
    → find p infos ≡ some info
    → (before : List StorageInfo) × (after : List StorageInfo) × (infos ≡ before ++ (info ∷ after))
      × (p info ≡ true)
      × All (λ x. p x ≡ false) before
find-split p [] info h = absurd (cc h)
find-split p (x ∷ infos) info h = elim (Bool-cases (p x)) [
  | inl hit ↦
      let same : x ≡ info = ground (arith, h, hit) in
      ([], infos, ap (λ y. y ∷ infos) same, subst (λ y. p y ≡ true) same hit, tt)
  | inr miss ↦
      let (before, after, e, hit, misses) = find-split p infos info (ground (arith, h, miss)) in
      (x ∷ before, after, ap (◌∷◌ x) e, hit, (miss, misses))
]

find-none :
    (p : StorageInfo → Bool) (infos : List StorageInfo)
    → find p infos ≡ none
    → All (λ x. p x ≡ false) infos
find-none p [] h = tt
find-none p (x ∷ infos) h = elim (Bool-cases (p x)) [
  | inl hit ↦ absurd (ground (arith, h, hit))
  | inr miss ↦ (miss, find-none p infos (ground (arith, h, miss)))
]

module _ (lower : Str → Str) where
  -- What a selector means of a storage, among those before and after it.
  abbrev pub Means : StorageSelector → List StorageInfo → StorageInfo → List StorageInfo → Type 0
  Means DevicePath.default before info after = (before ≡ []) × (after ≡ [])
  Means (DevicePath.index i) before info after = length before ≡ i
  Means (DevicePath.named name) before info after =
      (is_named lower name info ≡ true) × All (λ x. is_named lower name x ≡ false) before

  -- Why a selector means none of the storages, and the error for it.
  abbrev pub MeansNone :
      {Other : Type 0} → StorageSelector → List StorageInfo → Error Other → Type 0
  MeansNone DevicePath.default infos e =
      ((infos ≡ []) × (e ≡ Error.no_storage))
      ⊎ ((2 ≤ length infos) × (e ≡ Error.storage_required (storages infos)))
  MeansNone (DevicePath.index i) infos e =
      (length infos ≤ i) × (e ≡ Error.storage_not_found (to_string i) (storages infos))
  MeansNone (DevicePath.named name) infos e =
      All (λ x. is_named lower name x ≡ false) infos
      × (e ≡ Error.storage_not_found name (storages infos))

  abbrev pub IsSelection :
      {Other : Type 0}
      → StorageSelector
      → List StorageInfo
      → Result StorageInfo (Error Other)
      → Type 0
  IsSelection selector infos (ok info) =
      (before : List StorageInfo) × (after : List StorageInfo) × (infos ≡ before ++ (info ∷ after))
      × Means selector before info after
  IsSelection selector infos (err e) = MeansNone selector infos e

  found_or-index :
      (Other : Type 0) (infos : List StorageInfo) (i : ℕ) (o : Option StorageInfo)
      → nth i infos ≡ o
      → IsSelection {Other = Other} (DevicePath.index i) infos (found_or infos (to_string i) o)
  unfolding storage_not_found
  found_or-index Other infos i none h = (nth-none i infos h, refl)
  found_or-index Other infos i (some info) h = nth-split i infos info h

  found_or-named :
      (Other : Type 0) (infos : List StorageInfo) (name : Str) (o : Option StorageInfo)
      → find (is_named lower name) infos ≡ o
      → IsSelection {Other = Other} (DevicePath.named name) infos (found_or infos name o)
  unfolding storage_not_found
  found_or-named Other infos name none h = (find-none (is_named lower name) infos h, refl)
  found_or-named Other infos name (some info) h =
      let (before, after, e, hit, misses) = find-split (is_named lower name) infos info h in
      (before, after, e, (hit, misses))

-- A storage that is selected is the one that the selector means: the only one, the one at the index, or
-- the first of the name. An error is for the reason that holds: there is no storage, there are several
-- and none was named, or none is at the index or of the name; it lists the storages where there are any.
pub select_storage-IsSelection :
    (lower : Str → Str) (Other : Type 0) (infos : List StorageInfo) (selector : StorageSelector)
    → IsSelection lower {Other = Other} selector infos (select_storage lower infos selector)
unfolding select_storage only_storage
select_storage-IsSelection lower Other [] DevicePath.default = inl (refl, refl)
select_storage-IsSelection lower Other (info ∷ []) DevicePath.default = ([], [], refl, (refl, refl))
select_storage-IsSelection lower Other (x ∷ y ∷ infos) DevicePath.default = inr (omega arith, refl)
select_storage-IsSelection lower Other infos (DevicePath.index i) =
    found_or-index lower Other infos i (nth i infos) refl
select_storage-IsSelection lower Other infos (DevicePath.named name) =
    found_or-named lower Other infos name (find (is_named lower name) infos) refl
