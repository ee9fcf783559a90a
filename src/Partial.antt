-- ===== src/Partial.antt =====
-- What a partial download remembers about its origin, from crates/mtpx-core/src/internal/partial.rs
-- and crates/mtpx-core/src/internal/endpoint.rs.
use mtpx.Base.{
  ℕ, Bool, true, false, not, ◌&&◌, List, [], ◌∷◌, any, Option, none, some, nat_eq, leb, ◌==◌,
  nat_ord, list_ord,
}
use mtpx.Std.Text.{Str, codes, is_empty}
use mtpx.Path.RelPath
use mtpx.Path.RelPath.{RelPath}
use mtpx.Entry.{Entry, ModifiedTime}

abbrev pub part_suffix : Str
part_suffix = codes ".mtpx-part"

abbrev pub sidecar_suffix : Str
sidecar_suffix = codes ".mtpx-part.json"

abbrev pub sidecar_tmp_suffix : Str
sidecar_tmp_suffix = codes ".mtpx-part.json.tmp"

abbrev pub reserved_suffixes : List Str
reserved_suffixes = part_suffix ∷ sidecar_suffix ∷ sidecar_tmp_suffix ∷ []

abbrev pub sidecar_version : ℕ
sidecar_version = 1

-- `str::ends_with(&str)`
ends_with_text : Str → Str → Bool
ends_with_text [] suffix = is_empty suffix
ends_with_text (c ∷ s) suffix = elim ((c ∷ s) == suffix) [
  | true ↦ true
  | false ↦ ends_with_text s suffix
]

unfoldable pub is_reserved_name : Str → Bool
unfolding ends_with_text
is_reserved_name name = any (ends_with_text name) reserved_suffixes

pub record Fingerprint : Type 0 where
  pub size : ℕ
  pub modified : Option ModifiedTime

-- `==` on optional times
abbrev pub modified_eq : Option ModifiedTime → Option ModifiedTime → Bool
modified_eq none none = true
modified_eq (some t) (some u) = nat_eq t.unix_seconds u.unix_seconds
modified_eq _ _ = false

unfoldable pub matches : Fingerprint → Entry → Bool
matches f entry = nat_eq f.size entry.size && modified_eq f.modified entry.modified

pub record PartialInfo : Type 0 where
  pub fingerprint : Fingerprint
  pub bytes : ℕ

-- Device and storage of a transfer.
pub record Identity : Type 0 where
  pub device_serial : Str
  pub storage : Str

abbrev pub identity_eq : Identity → Identity → Bool
identity_eq a b = a.device_serial == b.device_serial && a.storage == b.storage

pub record Sidecar : Type 0 where
  pub version : ℕ
  pub identity : Identity
  pub path : Str
  pub fingerprint : Fingerprint
  pub bytes : ℕ

unfoldable pub new_sidecar : Identity → RelPath → Fingerprint → ℕ → Sidecar
new_sidecar identity path fingerprint bytes = record {
  version = sidecar_version;
  identity = identity;
  path = RelPath.display path;
  fingerprint = fingerprint;
  bytes = bytes;
}

unfoldable pub is_valid_for : Sidecar → Identity → ℕ → Bool
is_valid_for s peer part_len =
    nat_eq s.version sidecar_version
    && not (is_empty peer.device_serial)
    && identity_eq s.identity peer
    && leb s.bytes part_len
