-- ===== src/Format.antt =====
-- Counts, lists and durations as text, from crates/mtpx/src/ui/format.rs. The sizes go through the
-- humansize crate and are not modelled.
use mtpx.Base.{
  ℕ, ◌+◌, ◌-◌, ◌/◌, ◌%◌, Bool, true, false, ◌&&◌, List, [], ◌∷◌, ◌++◌, map, length, take, nat_eq,
  ltb, if◌then◌else◌, ◌≡◌, refl, ap, sym, subst, ◌∙◌, suc, not, All, Bool-cases, inl, inr, arith,
}
use mtpx.Std.Text.{Str, codes}
use mtpx.Std.Numbers.{to_string, to_string-IsDigit, IsDigit}
use mtpx.Plan
use mtpx.Plan.{SkipReason}

abbrev pub thousands_group : ℕ
thousands_group = 3

abbrev pub max_listed : ℕ
max_listed = 20

-- The loop of `count` over the digits from an index on.
unfoldable pub group_from : ℕ → ℕ → Str → Str
group_from total index [] = []
group_from total index (digit ∷ digits) =
    let rest = digit ∷ group_from total (index + 1) digits in
    if ltb 0 index && nat_eq ((total - index) % thousands_group) 0 then b',' ∷ rest else rest

unfoldable pub count : ℕ → Str
unfolding group_from
count value = let digits = to_string value in group_from (length digits) 0 digits

unfoldable pub files : ℕ → Str
files value = if nat_eq value 1 then codes "1 file" else count value ++ codes " files"

unfoldable pub objects : ℕ → Str
objects value = if nat_eq value 1 then codes "1 object" else count value ++ codes " objects"

unfoldable pub skip_reason : SkipReason → Str
skip_reason Plan.identical = codes "identical"
skip_reason Plan.conflict = codes "conflict"
skip_reason Plan.kind_conflict = codes "kind conflict"
skip_reason Plan.name_collision = codes "name collision"

unfoldable pub skip_is_notable : SkipReason → Bool
skip_is_notable Plan.identical = false
skip_is_notable _ = true

unfoldable pub capped_list : List Str → List Str
capped_list items =
    let lines = map (λ item. codes "  " ++ item) (take max_listed items) in
    let more = length items - max_listed in
    if ltb 0 more
    then lines ++ ((codes "  ... and " ++ (count more ++ codes " more")) ∷ [])
    else lines

-- `{:02}`
abbrev two_digits : ℕ → Str
two_digits n = if ltb n 10 then b'0' ∷ to_string n else to_string n

unfoldable pub duration : ℕ → Str
duration total =
    let hours = total / 3600 in
    let minutes = total % 3600 / 60 in
    let seconds = total % 60 in
    if ltb 0 hours
    then to_string hours ++ (codes "h " ++ (two_digits minutes ++ codes "m"))
    else if ltb 0 minutes
    then to_string minutes ++ (codes "m " ++ (two_digits seconds ++ codes "s"))
    else to_string seconds ++ codes "s"

-- The text without its commas
abbrev pub without_commas : Str → Str
without_commas [] = []
without_commas (c ∷ s) = if nat_eq c b',' then without_commas s else c ∷ without_commas s

group_from-without_commas :
    (total index : ℕ) (digits : Str)
    → All IsDigit digits
    → without_commas (group_from total index digits) ≡ digits
unfolding group_from
group_from-without_commas total index [] h = refl
group_from-without_commas total index (d ∷ digits) h =
    let plain : nat_eq d b',' ≡ false = ground (arith, h.0) in
    let ih = group_from-without_commas total (index + 1) digits h.1 in
    elim (Bool-cases (ltb 0 index && nat_eq ((total - index) % thousands_group) 0)) [
      | inl comma ↦ rw (comma, plain) (ap (◌∷◌ d) ih)
      | inr none' ↦ rw (none', plain) (ap (◌∷◌ d) ih)
    ]

abbrev pub starts_with_comma : Str → Bool
starts_with_comma [] = false
starts_with_comma (c ∷ s) = nat_eq c b','

-- A comma follows a digit where the digits still to come are groups of three, and nowhere else.
abbrev pub IsGrouped : Str → Type 0
IsGrouped [] = Unit
IsGrouped (c ∷ s) =
    let left = length (without_commas s) in
    (starts_with_comma s ≡ (not (nat_eq c b',') && (ltb 0 left && nat_eq (left % 3) 0)))
    × IsGrouped s

group_from-starts :
    (total index : ℕ) (digits : Str)
    → All IsDigit digits
    → index + length digits ≡ total
    → starts_with_comma (group_from total index digits)
      ≡ (ltb 0 index && (ltb 0 (length digits) && nat_eq (length digits % 3) 0))
unfolding group_from
group_from-starts total index [] h e = ground arith
group_from-starts total index (d ∷ digits) h e =
    let plain : nat_eq d b',' ≡ false = ground (arith, h.0) in
    let left : total - index ≡ suc (length digits) = omega (arith, e) in
    let some_left : ltb 0 (suc (length digits)) ≡ true = ground arith in
    elim (Bool-cases (ltb 0 index && nat_eq ((total - index) % thousands_group) 0)) [
      | inl comma ↦
          rw (comma, some_left)
            (sym (subst (λ n. (ltb 0 index && nat_eq (n % 3) 0) ≡ true) left comma))
      | inr none' ↦
          rw (none', some_left)
            (plain ∙ sym (subst (λ n. (ltb 0 index && nat_eq (n % 3) 0) ≡ false) left none'))
    ]

group_from-IsGrouped :
    (total index : ℕ) (digits : Str)
    → All IsDigit digits
    → index + length digits ≡ total
    → IsGrouped (group_from total index digits)
unfolding group_from
group_from-IsGrouped total index [] h e = tt
group_from-IsGrouped total index (d ∷ digits) h e =
    let plain : nat_eq d b',' ≡ false = ground (arith, h.0) in
    let next : index + 1 + length digits ≡ total = omega (arith, e) in
    let after = group_from total (index + 1) digits in
    let ih = group_from-IsGrouped total (index + 1) digits h.1 next in
    let same = group_from-without_commas total (index + 1) digits h.1 in
    let first : ltb 0 (index + 1) ≡ true = ground arith in
    let here : starts_with_comma after
        ≡ (ltb 0 (length (without_commas after)) && nat_eq (length (without_commas after) % 3) 0) =
      group_from-starts total (index + 1) digits h.1 next ∙ rw (first, same) refl in
    let digit : IsGrouped (d ∷ after) = (rw plain here, ih) in
    elim (Bool-cases (ltb 0 index && nat_eq ((total - index) % thousands_group) 0)) [
      | inl comma ↦ rw comma (plain, digit)
      | inr none' ↦ rw none' digit
    ]

-- A count reads as the number without its commas. It has no comma at its start, and after a digit it
-- has one exactly where the number of the digits still to come is a multiple of three that is not zero;
-- no comma follows another.
pub count-without_commas :
    (n : ℕ)
    → (without_commas (count n) ≡ to_string n)
      × (starts_with_comma (count n) ≡ false)
      × IsGrouped (count n)
unfolding count
count-without_commas n =
    let digits = to_string n in
    let proper = to_string-IsDigit n in
    (
      group_from-without_commas (length digits) 0 digits proper,
      group_from-starts (length digits) 0 digits proper (omega arith),
      group_from-IsGrouped (length digits) 0 digits proper (omega arith),
    )
