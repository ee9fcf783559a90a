-- ===== src/Tests/Texts.antt =====
-- crates/mtpx/src/ui/format.rs on concrete values.
use mtpx.Base.{◌≡◌, refl, false}
use mtpx.Std.Text.{codes}
use mtpx.Std.Numbers.{to_string}
use mtpx.Format.{
  count, group_from, duration, without_commas, starts_with_comma, IsGrouped, count-without_commas,
}

thousands :
    (count 999 ≡ codes "999") × (count 1102 ≡ codes "1,102") × (count 1234567 ≡ codes "1,234,567")
unfolding count to_string group_from
thousands = (refl, refl, refl)

durations :
    (duration 45 ≡ codes "45s") × (duration 132 ≡ codes "2m 12s") × (duration 3725 ≡ codes "1h 02m")
unfolding duration to_string
durations = (refl, refl, refl)

count-without_commas_example :
    (without_commas (count 1102) ≡ to_string 1102)
    × (starts_with_comma (count 1102) ≡ false)
    × IsGrouped (count 1102)
count-without_commas_example = count-without_commas 1102
