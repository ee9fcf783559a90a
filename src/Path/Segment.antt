-- ===== src/Path/Segment.antt =====
-- The rules for one path segment, from crates/mtpx-core/src/path.rs.
use mtpx.Base.{
  ℕ, Bool, true, false, not, ◌&&◌, ◌||◌, List, [], ◌∷◌, if◌then◌else◌, leb, nat_eq, any, ◌==◌,
  nat_ord, list_ord, Result, ok, err, ◌≡◌, arith,
}
use mtpx.Std.Text.{
  Str, codes, contains, is_empty, split, ends_with, trim_end, is_control, eq_ignore_ascii_case,
}
use mtpx.Std.Paths.{Component, normal, components}

abbrev pub separator : ℕ
separator = b'/'

pub data PathError : Type 0 where
  empty not_absolute dot_segment : PathError
  invalid_segment : Str → PathError

-- One plain file name per segment.
single_normal : List Component → Bool
single_normal (normal s ∷ []) = true
single_normal _ = false

unfoldable pub is_single_normal_component : Str → Bool
unfolding single_normal components
is_single_normal_component segment = single_normal (components segment)

abbrev pub win32_forbidden_chars : List ℕ
win32_forbidden_chars = b'<' ∷ b'>' ∷ b':' ∷ 34 ∷ b'|' ∷ b'?' ∷ b'*' ∷ []

abbrev pub win32_device_names : List Str
win32_device_names = codes "CON" ∷ codes "PRN" ∷ codes "AUX" ∷ codes "NUL" ∷ []

unfoldable pub is_win32_device : Str → Bool
unfolding eq_ignore_ascii_case
is_win32_device stem = any (eq_ignore_ascii_case stem) win32_device_names

-- COM1 to COM9 and LPT1 to LPT9.
unfoldable pub is_win32_port : Str → Bool
unfolding eq_ignore_ascii_case
is_win32_port (a ∷ b ∷ c ∷ digit ∷ []) =
    let prefix : Str = a ∷ b ∷ c ∷ [] in
    (eq_ignore_ascii_case prefix (codes "COM") || eq_ignore_ascii_case prefix (codes "LPT"))
    && (leb b'1' digit && leb digit b'9')
is_win32_port _ = false

abbrev first_or_default : List Str → Str
first_or_default [] = []
first_or_default (p ∷ ps) = p

unfoldable pub is_valid_windows_name : Str → Bool
unfolding is_win32_device is_win32_port split trim_end
is_valid_windows_name segment =
    let has_forbidden = any (λ c. any (nat_eq c) win32_forbidden_chars || is_control c) segment in
    if has_forbidden || ends_with segment b'.' || ends_with segment b' '
    then false
    else (let stem = trim_end (first_or_default (split b'.' segment)) in
        not (is_win32_device stem || is_win32_port stem))

-- `cfg!(windows)`: the host is a Unix one.
abbrev pub cfg_windows : Bool
cfg_windows = false

unfoldable pub validate_segment : Str → Result (Unit {0}) PathError
unfolding is_single_normal_component is_valid_windows_name
validate_segment segment =
    if is_empty segment
    then err empty
    else if segment == codes "." || segment == codes ".."
    then err dot_segment
    else (let has_forbidden_char = contains segment 0 || contains segment separator in
        let unusable_on_host = cfg_windows && not (is_valid_windows_name segment) in
        if has_forbidden_char || not (is_single_normal_component segment) || unusable_on_host
        then err (invalid_segment segment)
        else ok tt)

-- What `validate_segment` accepts.
abbrev pub IsValid : Str → Type 0
IsValid segment = validate_segment segment ≡ ok tt

pub IsValid-no_separator : (s : Str) → IsValid s → contains s separator ≡ false
unfolding validate_segment
IsValid-no_separator s h = ground arith

pub IsValid-ne_empty : (s : Str) → IsValid s → is_empty s ≡ false
unfolding validate_segment
IsValid-ne_empty s h = ground arith
