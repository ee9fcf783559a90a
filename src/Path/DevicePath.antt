-- ===== src/Path/DevicePath.antt =====
-- crates/mtpx-core/src/device_path.rs: storage selectors and the `storage:/path` form.
use mtpx.Base.{
  ℕ, Bool, false, not, ◌&&◌, [], ◌∷◌, ◌++◌, nat_eq, if◌then◌else◌, Result, ok, ◌>>=◌, Option, none,
  some,
}
use mtpx.Std.Text.{Str, is_empty, contains}
use mtpx.Std.Numbers.{parse_usize, to_string}
use mtpx.Path.Segment.{PathError, separator}
use mtpx.Path.RemotePath
use mtpx.Path.RemotePath.{RemotePath}

abbrev pub storage_delimiter : ℕ
storage_delimiter = b':'

pub data StorageSelector : Type 0 where
  default : StorageSelector
  index : ℕ → StorageSelector
  named : Str → StorageSelector

pub record DevicePath : Type 0 where
  pub storage : StorageSelector
  pub path : RemotePath

-- `From<&str>`: digits select by index
unfoldable pub selector_from : Str → StorageSelector
unfolding parse_usize
selector_from value = elim (parse_usize value) [ none ↦ named value | some n ↦ index n ]

unfoldable pub is_storage_prefix : Str → Bool
is_storage_prefix prefix = not (is_empty prefix) && not (contains prefix separator)

-- `str::split_once(char)`
abbrev pub split_once : ℕ → Str → Option (Str × Str)
split_once sep [] = none
split_once sep (c ∷ s) =
    let rest = split_once sep s in
    if nat_eq c sep
    then some ([], s)
    else elim rest [ none ↦ none | some (before, after) ↦ some (c ∷ before, after) ]

abbrev starts_with_char : Str → ℕ → Bool
starts_with_char [] c = false
starts_with_char (x ∷ s) c = nat_eq x c

unfoldable pub split_storage : Str → StorageSelector × Str
unfolding is_storage_prefix selector_from
split_storage input = elim (split_once storage_delimiter input) [
  | none ↦ (default, input)
  | some (prefix, rest) ↦
      if is_storage_prefix prefix && starts_with_char rest separator
      then (selector_from prefix, rest)
      else (default, input)
]

-- `FromStr`
unfoldable pub from_str : Str → Result DevicePath PathError
from_str input =
    let (storage, path) = split_storage input in
    do parsed ← RemotePath.parse path; ok (record { storage = storage; path = parsed })

unfoldable pub display_selector : StorageSelector → Str
unfolding to_string
display_selector default = []
display_selector (index n) = to_string n ++ (storage_delimiter ∷ [])
display_selector (named name) = name ++ (storage_delimiter ∷ [])

unfoldable pub display : DevicePath → Str
unfolding display_selector RemotePath.display
display p = display_selector p.storage ++ RemotePath.display p.path
