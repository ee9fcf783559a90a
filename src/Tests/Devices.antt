-- ===== src/Tests/Devices.antt =====
-- crates/mtpx-core/src/discovery.rs, crates/mtpx-core/src/display.rs and
-- crates/mtpx-core/src/device/pull.rs on concrete values.
use mtpx.Base.{
  ◌+◌, ◌-◌, ◌≤◌, ◌^◌, min, ◌≡◌, refl, [], ◌∷◌, List, none, some, ok, err, Option, Result, All,
  length, arith,
}
use mtpx.Std.Text.{Str, codes}
use mtpx.Std.Numbers.{u64_max, to_string}
use mtpx.Mtp
use mtpx.Error.{Error, device_not_found}
use mtpx.Discovery.{DeviceSummary, serial, index}
use mtpx.Discovery.Select.{select_device, IsChoice, select_device-IsChoice}
use mtpx.Display.{sanitize_for_display, IsShown, max_display_chars, sanitize_for_display-IsShown}
use mtpx.Plan
use mtpx.Plan.{Plan, new_plan}
use mtpx.Planner.{Partials}
use mtpx.Event
use mtpx.Event.{Hint}
use mtpx.Hints.{hints, is_slow, resumed, stale_from, stale_partials}
use mtpx.Hints.Stale.{Uncopied, total_bytes, stale_partials-Uncopied}

abbrev device : Option Str → Str → DeviceSummary
device serial' label = record {
  serial = serial';
  label = label;
  vendor_id = 0x18d1;
  product_id = 0x4ee1;
  location_id = 0;
  speed = none;
}

abbrev attached : List DeviceSummary
attached =
    device none (codes "Moto")
    ∷ device (some (codes "ZY22")) (codes "Pixel")
    ∷ device (some (codes "ZY22")) (codes "Copy")
    ∷ []

chosen :
    ◌≡◌ {A = Option (Result DeviceSummary (Error ⊥))}
      (select_device attached (serial (codes "ZY22")))
      (some (ok (device (some (codes "ZY22")) (codes "Pixel"))))
unfolding select_device
chosen = refl

missed :
    ◌≡◌ {A = Option (Result DeviceSummary (Error ⊥))}
      (select_device attached (index 3))
      (some (err (device_not_found (codes "3") attached)))
unfolding select_device to_string
missed = refl

select_device-IsChoice_example :
    (r : Result DeviceSummary (Error ⊥)) × (select_device attached (serial (codes "ZY22")) ≡ some r)
    × IsChoice attached (serial (codes "ZY22")) r
select_device-IsChoice_example = select_device-IsChoice attached (serial (codes "ZY22"))

-- An escape, and a right-to-left override.
abbrev hostile : Str
hostile = b'a' ∷ 0x1b ∷ b'[' ∷ 0x202e ∷ b'b' ∷ []

disarmed : sanitize_for_display hostile ≡ b'a' ∷ 0xfffd ∷ b'[' ∷ 0xfffd ∷ b'b' ∷ []
unfolding sanitize_for_display
disarmed = refl

sanitize_for_display-IsShown_example :
    All IsShown (sanitize_for_display hostile)
    × (length (sanitize_for_display hostile) ≤ max_display_chars + 1)
    × (sanitize_for_display (sanitize_for_display hostile) ≡ sanitize_for_display hostile)
    × (All IsShown hostile
        → length hostile ≤ max_display_chars
        → sanitize_for_display hostile ≡ hostile)
sanitize_for_display-IsShown_example = sanitize_for_display-IsShown hostile

abbrev announced : Plan
announced = new_plan (
    Plan.copy (codes "big" ∷ []) (2 ^ 31) none 40 Plan.new
    ∷ Plan.skip (codes "same" ∷ []) Plan.identical
    ∷ [])

abbrev partials : Partials
partials =
    (
      codes "big" ∷ [],
      record { fingerprint = record { size = 2 ^ 31; modified = none }; bytes = 40 },
    )
    ∷ (
      codes "same" ∷ [],
      record { fingerprint = record { size = 50; modified = none }; bytes = 30 },
    )
    ∷ (
      codes "gone" ∷ [],
      record { fingerprint = record { size = 20; modified = none }; bytes = 12 },
    )
    ∷ []

announced_on_usb2 :
    hints (some Mtp.high) announced (record { label = []; entries = []; skipped = [] }) partials
    ≡ Event.slow_link (2 ^ 31 - 40) ∷ Event.stale_partials 2 42 ∷ []
unfolding hints is_slow resumed stale_from stale_partials new_plan
announced_on_usb2 = refl

stale_partials-Uncopied_example :
    (stale : Partials) × Uncopied announced.actions partials stale
    × (stale_partials announced partials ≡ (length stale, min (total_bytes stale) u64_max))
stale_partials-Uncopied_example = stale_partials-Uncopied announced partials (omega arith)
