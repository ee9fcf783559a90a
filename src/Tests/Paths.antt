-- ===== src/Tests/Paths.antt =====
-- crates/mtpx-core/src/path.rs and crates/mtpx-core/src/device_path.rs on concrete texts.
use mtpx.Base.{◌≡◌, refl, true, false, [], ◌∷◌, ok, err, All}
use mtpx.Std.Text.{codes, split}
use mtpx.Std.Numbers.{parse_usize}
use mtpx.Path.Segment.{
  IsValid, validate_segment, empty, not_absolute, dot_segment, is_valid_windows_name,
}
use mtpx.Path.RelPath
use mtpx.Path.RemotePath
use mtpx.Path.RemotePath.{RemotePath}
use mtpx.Path.DevicePath
use mtpx.Path.DevicePath.{DevicePath, named, index, default}
use mtpx.Path.RoundTrip.{parse-display, parse-IsValid, from_str-display}

abbrev camera : RemotePath
camera = record { rel = codes "DCIM" ∷ codes "Camera" ∷ [] }

camera-IsValid : All IsValid camera.rel
unfolding validate_segment
camera-IsValid = (refl, (refl, tt))

camera_parses : RemotePath.parse (codes "/DCIM//Camera/") ≡ ok camera
unfolding RemotePath.parse RelPath.new validate_segment split
camera_parses = refl

parse_errors :
    (RemotePath.parse (codes "") ≡ err empty)
    × (RemotePath.parse (codes "DCIM") ≡ err not_absolute)
    × (RemotePath.parse (codes "/a/../b") ≡ err dot_segment)
unfolding RemotePath.parse RelPath.new validate_segment split
parse_errors = (refl, refl, refl)

windows_names :
    (is_valid_windows_name (codes "com1.txt") ≡ false)
    × (is_valid_windows_name (codes "COM10") ≡ true)
    × (is_valid_windows_name (codes "nul .txt") ≡ false)
    × (is_valid_windows_name (codes "a:b") ≡ false)
unfolding is_valid_windows_name
windows_names = (refl, refl, refl, refl)

parse-display_example : RemotePath.parse (RemotePath.display camera) ≡ ok camera
parse-display_example = parse-display camera camera-IsValid

parse-IsValid_example :
    All IsValid camera.rel × (RemotePath.parse (RemotePath.display camera) ≡ ok camera)
parse-IsValid_example = parse-IsValid (codes "/DCIM//Camera/") camera_parses

abbrev on_card : DevicePath
on_card = record { storage = named (codes "sd card"); path = camera }

from_str-display_example : DevicePath.from_str (DevicePath.display on_card) ≡ ok on_card
unfolding parse_usize DevicePath.is_storage_prefix
from_str-display_example = from_str-display on_card (refl, refl, refl) camera-IsValid

indexed : DevicePath.selector_from (codes "12") ≡ index 12
unfolding DevicePath.selector_from
indexed = refl
