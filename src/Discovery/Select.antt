-- ===== src/Discovery/Select.antt =====
-- The choice of a device among those attached, from crates/mtpx-core/src/discovery.rs. `none` is a
-- panic, which `swap_remove` has out of range.
use mtpx.Base.{
  ℕ, zero, suc, ◌≤◌, Bool, true, false, List, [], ◌∷◌, ◌++◌, length, All, ltb, if◌then◌else◌,
  Option, none, some, Result, ok, err, ◌==◌, nat_ord, list_ord, ◌≡◌, ◌⊎◌, inl, inr, refl, ap, arith,
  Bool-cases, Option-cases,
}
use mtpx.Std.Text.{Str}
use mtpx.Std.Numbers.{to_string}
use mtpx.Error.{Error, no_device, ambiguous_device, device_not_found}
use mtpx.Discovery.{DeviceSummary, DeviceSelector, only, serial, index}

abbrev has_serial : Str → DeviceSummary → Bool
has_serial wanted device = elim device.serial [ none ↦ false | some s ↦ s == wanted ]

position_of_serial : List DeviceSummary → Str → Option ℕ
position_of_serial [] wanted = none
position_of_serial (d ∷ ds) wanted =
    let rest = position_of_serial ds wanted in
    if has_serial wanted d then some 0 else elim rest [ none ↦ none | some n ↦ some (suc n) ]

-- The element that `Vec::swap_remove` takes out.
swap_remove : ℕ → List DeviceSummary → Option DeviceSummary
swap_remove n [] = none
swap_remove zero (d ∷ ds) = some d
swap_remove (suc n) (d ∷ ds) = swap_remove n ds

abbrev taken : {Other : Type 0} → Option DeviceSummary → Option (Result DeviceSummary (Error Other))
taken none = none
taken (some d) = some (ok d)

abbrev take_at :
    {Other : Type 0}
    → List DeviceSummary
    → Str
    → Option ℕ
    → Option (Result DeviceSummary (Error Other))
take_at devices wanted none = some (err (device_not_found wanted devices))
take_at devices wanted (some position) = taken (swap_remove position devices)

select_only : {Other : Type 0} → List DeviceSummary → Result DeviceSummary (Error Other)
select_only (d ∷ []) = ok d
select_only devices = err (ambiguous_device devices)

unfoldable pub select_device :
    {Other : Type 0}
    → List DeviceSummary
    → DeviceSelector
    → Option (Result DeviceSummary (Error Other))
unfolding select_only position_of_serial swap_remove
select_device [] selector = some (err no_device)
select_device (d ∷ ds) only = some (select_only (d ∷ ds))
select_device (d ∷ ds) (serial s) = take_at (d ∷ ds) s (position_of_serial (d ∷ ds) s)
select_device (d ∷ ds) (index i) =
    take_at (d ∷ ds) (to_string i) (if ltb i (length (d ∷ ds)) then some i else none)

-- The device is the one that the selector means: the only one, the first with the serial, or the
-- one at the position.
abbrev pub Fits : DeviceSelector → List DeviceSummary → DeviceSummary → List DeviceSummary → Type 0
Fits only before d after = (before ≡ []) × (after ≡ [])
Fits (serial s) before d after = (has_serial s d ≡ true) × All (λ x. has_serial s x ≡ false) before
Fits (index i) before d after = length before ≡ i

-- No attached device is the one that the selector means, and the error that says so.
abbrev pub Misses : {Other : Type 0} → DeviceSelector → List DeviceSummary → Error Other → Type 0
Misses only devices e = (2 ≤ length devices) × (e ≡ ambiguous_device devices)
Misses (serial s) devices e =
    All (λ x. has_serial s x ≡ false) devices × (e ≡ device_not_found s devices)
Misses (index i) devices e = (length devices ≤ i) × (e ≡ device_not_found (to_string i) devices)

abbrev pub IsChoice :
    {Other : Type 0}
    → List DeviceSummary
    → DeviceSelector
    → Result DeviceSummary (Error Other)
    → Type 0
IsChoice devices selector (ok d) =
    (before : List DeviceSummary) × (after : List DeviceSummary) × (devices ≡ before ++ (d ∷ after))
    × Fits selector before d after
IsChoice devices selector (err e) =
    ((devices ≡ []) × (e ≡ no_device)) ⊎ ((1 ≤ length devices) × Misses selector devices e)

swap_remove-split :
    (n : ℕ) (ds : List DeviceSummary)
    → suc n ≤ length ds
    → (d : DeviceSummary) × (before : List DeviceSummary) × (after : List DeviceSummary)
      × (swap_remove n ds ≡ some d)
      × (ds ≡ before ++ (d ∷ after))
      × (length before ≡ n)
unfolding swap_remove
swap_remove-split n [] h = absurd (omega arith)
swap_remove-split zero (d ∷ ds) h = (d, [], ds, refl, refl, refl)
swap_remove-split (suc n) (d ∷ ds) h =
    let (x, before, after, e, split, l) = swap_remove-split n ds (omega arith) in
    (x, d ∷ before, after, e, ap (◌∷◌ d) split, ap suc l)

position_of_serial-none :
    (ds : List DeviceSummary) (s : Str)
    → position_of_serial ds s ≡ none
    → All (λ x. has_serial s x ≡ false) ds
unfolding position_of_serial
position_of_serial-none [] s h = tt
position_of_serial-none (d ∷ ds) s h = (ground arith, position_of_serial-none ds s (ground arith))

position_of_serial-split :
    (ds : List DeviceSummary) (s : Str) {n : ℕ}
    → position_of_serial ds s ≡ some n
    → (d : DeviceSummary) × (before : List DeviceSummary) × (after : List DeviceSummary)
      × (swap_remove n ds ≡ some d)
      × (ds ≡ before ++ (d ∷ after))
      × Fits (serial s) before d after
unfolding position_of_serial swap_remove
position_of_serial-split [] s h = cc
position_of_serial-split (d ∷ ds) s {n} h = elim (Bool-cases (has_serial s d)) [
  | inl hit ↦ let first : n ≡ 0 = ground arith in (d, [], ds, rw first refl, refl, (hit, tt))
  | inr miss ↦ elim (Option-cases (position_of_serial ds s)) [
    | inl e ↦ absurd (ground arith)
    | inr (m, e) ↦
        let (x, before, after, found, split, fits) = position_of_serial-split ds s e in
        let next : n ≡ suc m = ground arith in
        (x, d ∷ before, after, rw next found, ap (◌∷◌ d) split, (fits.0, (miss, fits.1)))
  ]
]

-- Choosing a device never panics. It chooses the only device, the first with the serial, or the one
-- at the index; with no device it fails as such, and otherwise it fails only where the selector
-- means no attached device or, for the only one, there are several, and lists what is attached.
pub select_device-IsChoice :
    {Other : Type 0} (devices : List DeviceSummary) (selector : DeviceSelector)
    → (r : Result DeviceSummary (Error Other)) × (select_device devices selector ≡ some r)
      × IsChoice devices selector r
unfolding select_device select_only
select_device-IsChoice [] selector = (err no_device, refl, inl (refl, refl))
select_device-IsChoice (d ∷ []) only = (ok d, refl, ([], [], refl, (refl, refl)))
select_device-IsChoice (d ∷ x ∷ ds) only =
    (err (ambiguous_device (d ∷ x ∷ ds)), refl, inr (omega arith, (omega arith, refl)))
select_device-IsChoice (d ∷ ds) (serial s) = elim (Option-cases (position_of_serial (d ∷ ds) s)) [
  | inl e ↦ (
    err (device_not_found s (d ∷ ds)),
    rw e refl,
    inr (omega arith, (position_of_serial-none (d ∷ ds) s e, refl)),
  )
  | inr (n, e) ↦
      let (x, before, after, found, split, fits) = position_of_serial-split (d ∷ ds) s e in
      (ok x, rw e (ap taken found), (before, after, split, fits))
]
select_device-IsChoice (d ∷ ds) (index i) = elim (Bool-cases (ltb i (length (d ∷ ds)))) [
  | inl less ↦
      let (x, before, after, found, split, l) = swap_remove-split i (d ∷ ds) (ground arith) in
      (ok x, rw less (ap taken found), (before, after, split, l))
  | inr past ↦ (
    err (device_not_found (to_string i) (d ∷ ds)),
    rw past refl,
    inr (omega arith, (ground arith, refl)),
  )
]
