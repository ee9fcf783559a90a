-- ===== src/Local/Vouching.antt =====
-- The invariant of a write, for crates/mtpx-core/src/internal/local/mod.rs: a record beside the part
-- vouches for the bytes that it counts, and the final path holds what it held or the whole file.
use mtpx.Base.{
  ℕ, zero, suc, ◌≤◌, ◌≡◌, ◌⊎◌, refl, ap, sym, ◌∙◌, [], ◌∷◌, ◌++◌, length, take, Option, none, some,
  append_assoc, arith,
}
use mtpx.Partial.{Sidecar, Fingerprint}
use mtpx.Local.Files.{Files, Bytes}
use mtpx.Local.Laws.{Disk, IsFileSystem, IsPrefix}

abbrev pub drop_bytes : ℕ → Bytes → Bytes
drop_bytes zero xs = xs
drop_bytes (suc n) [] = []
drop_bytes (suc n) (x ∷ xs) = drop_bytes n xs

pub take-append_le : (n : ℕ) (xs ys : Bytes) → n ≤ length xs → take n (xs ++ ys) ≡ take n xs
take-append_le zero xs ys h = refl
take-append_le (suc n) [] ys h = absurd (omega arith)
take-append_le (suc n) (x ∷ xs) ys h = ap (◌∷◌ x) (take-append_le n xs ys (omega arith))

pub some-injective : {A : Type 0} {a b : A} → some a ≡ some b → a ≡ b
some-injective h = cc h

pub IsPrefix-trans : (xs ys zs : Bytes) → IsPrefix xs ys → IsPrefix ys zs → IsPrefix xs zs
IsPrefix-trans xs ys zs (r, h) (q, k) = (r ++ q, k ∙ ap (λ l. l ++ q) h ∙ append_assoc xs r q)

module _ {fs : Files} (laws : IsFileSystem fs) (content : Bytes) (fingerprint : Fingerprint)
    (before : Option Bytes) where
  -- Where a record for this version of the file counts no more than the part holds, these bytes
  -- are the first of the file.
  abbrev pub Vouches : Disk → Type 0
  Vouches d =
      (json : Bytes) (s : Sidecar) (held : Bytes)
      → d.sidecar ≡ some json
      → laws.from_json json ≡ some s
      → s.fingerprint ≡ fingerprint
      → d.part ≡ some held
      → s.bytes ≤ length held
      → take s.bytes held ≡ take s.bytes content

  abbrev pub IsSound : Disk → Type 0
  IsSound d = Vouches d × ((d.target ≡ before) ⊎ (d.target ≡ some content))

  pub Vouches-prefix : (d : Disk) (p : Bytes) → d.part ≡ some p → IsPrefix p content → Vouches d
  Vouches-prefix d p at (rest, whole) = λ json s held rec parsed same found enough.
      let same' : p ≡ held = some-injective (sym at ∙ found) in
      rw (whole, same') (sym (take-append_le s.bytes held rest enough))

  pub Vouches-no_sidecar : (d : Disk) → d.sidecar ≡ none → Vouches d
  Vouches-no_sidecar d h = λ json s held rec. cc (h, rec)

  pub Vouches-no_part : (d : Disk) → d.part ≡ none → Vouches d
  Vouches-no_part d h = λ json s held rec parsed same found. cc (h, found)
