-- ===== src/Entry.antt =====
-- Entries of a scanned side, from crates/mtpx-core/src/entry.rs.
use mtpx.Base.{ℕ, ◌-◌, ◌^◌, ◌≡◌, refl, Bool, true, false, Option, if◌then◌else◌, leb, ◌⊎◌, inl, inr}
use mtpx.Path.RelPath.{RelPath}

pub data EntryKind : Type 0 where
  file dir : EntryKind

abbrev pub kind_eq : EntryKind → EntryKind → Bool
kind_eq file file = true
kind_eq dir dir = true
kind_eq _ _ = false

pub kind-cases : (k : EntryKind) → (k ≡ file) ⊎ (k ≡ dir)
kind-cases file = inl refl
kind-cases dir = inr refl

-- Unix seconds, never negative.
pub record ModifiedTime : Type 0 where
  pub unix_seconds : ℕ

abbrev i64_max : ℕ
i64_max = 2 ^ 63 - 1

-- A `SystemTime` as `duration_since(UNIX_EPOCH)` reports it: an error before the epoch, or the whole
-- seconds and the nanoseconds since.
pub data SystemTime : Type 0 where
  before_epoch : SystemTime
  since_epoch : ℕ → ℕ → SystemTime

unfoldable pub from_system : SystemTime → ModifiedTime
from_system before_epoch = record { unix_seconds = 0 }
from_system (since_epoch secs nanos) = record {
  unix_seconds = if leb secs i64_max then secs else i64_max;
}

unfoldable pub as_system : ModifiedTime → SystemTime
as_system t = since_epoch t.unix_seconds 0

pub record Entry : Type 0 where
  pub path : RelPath
  pub kind : EntryKind
  pub size : ℕ
  pub modified : Option ModifiedTime
