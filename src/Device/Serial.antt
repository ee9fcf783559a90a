-- ===== src/Device/Serial.antt =====
-- A serial that picks one device, for crates/mtpx-core/src/device/mod.rs.
use mtpx.Base.{
  ◌≤◌, ◌≡◌, inl, inr, refl, sym, subst, ◌∙◌, nat_eq, nat_eq_iff, Bool, true, false, not, Bool-cases,
  List, [], ◌∷◌, Option, none, some, Elem, if◌then◌else◌, ==_refl, nat_ord, list_ord, arith,
}
use mtpx.Std.Text.{Str, is_empty}
use mtpx.Discovery.{DeviceSummary}
use mtpx.Device.{has_serial, matches, nonempty, if_unique, unique_serial}

matches-Elem :
    (serial : Str) (d : DeviceSummary) (devices : List DeviceSummary)
    → Elem d devices
    → has_serial serial d ≡ true
    → 1 ≤ matches serial devices
unfolding matches
matches-Elem serial d [] m h = absurd m
matches-Elem serial d (x ∷ devices) (inl e) h =
    let same : has_serial serial x ≡ true = subst (λ y. has_serial serial y ≡ true) e h in
    rw same (omega arith)
matches-Elem serial d (x ∷ devices) (inr m) h = elim (Bool-cases (has_serial serial x)) [
  | inl hit ↦ rw hit (omega arith)
  | inr miss ↦ rw miss (matches-Elem serial d devices m h)
]

-- Where one device matches, two that match are the same.
matches_one :
    (serial : Str) (devices : List DeviceSummary) (c d : DeviceSummary)
    → matches serial devices ≡ 1
    → Elem c devices
    → has_serial serial c ≡ true
    → Elem d devices
    → has_serial serial d ≡ true
    → d ≡ c
unfolding matches
matches_one serial [] c d one mc hc md hd = absurd mc
matches_one serial (x ∷ devices) c d one (inl ec) hc (inl ed) hd = ed ∙ sym ec
matches_one serial (x ∷ devices) c d one (inl ec) hc (inr md) hd =
    let hit : has_serial serial x ≡ true = subst (λ y. has_serial serial y ≡ true) ec hc in
    absurd (ground (arith, one, hit, matches-Elem serial d devices md hd))
matches_one serial (x ∷ devices) c d one (inr mc) hc (inl ed) hd =
    let hit : has_serial serial x ≡ true = subst (λ y. has_serial serial y ≡ true) ed hd in
    absurd (ground (arith, one, hit, matches-Elem serial c devices mc hc))
matches_one serial (x ∷ devices) c d one (inr mc) hc (inr md) hd =
    elim (Bool-cases (has_serial serial x)) [
      | inl hit ↦ absurd (ground (arith, one, hit, matches-Elem serial c devices mc hc))
      | inr miss ↦ matches_one serial devices c d (ground (arith, one, miss)) mc hc md hd
    ]

has_serial-of_eq :
    (serial : Str) (d : DeviceSummary) → d.serial ≡ some serial → has_serial serial d ≡ true
has_serial-of_eq serial d h = rw h (==_refl serial)

unique-some :
    (devices : List DeviceSummary) (o : Option Str) (serial : Str)
    → if_unique devices (nonempty o) ≡ some serial
    → (o ≡ some serial) × (is_empty serial ≡ false) × (matches serial devices ≡ 1)
unique-some devices none serial h = absurd (cc h)
unique-some devices (some s) serial h = full (is_empty s) refl h
  where
    counted :
        (c : Bool)
        → nat_eq (matches s devices) 1 ≡ c
        → is_empty s ≡ false
        → (if c then some s else none) ≡ some serial
        → (some s ≡ some serial) × (is_empty serial ≡ false) × (matches serial devices ≡ 1)
    counted false e f k = absurd (cc k)
    counted true e f k =
        let same : s ≡ serial = cc k in
        (
          k,
          subst (λ x. is_empty x ≡ false) same f,
          subst (λ x. matches x devices ≡ 1) same ((nat_eq_iff (matches s devices) 1).0 e),
        )

    full :
        (b : Bool)
        → is_empty s ≡ b
        → if_unique devices (if not b then some s else none) ≡ some serial
        → (some s ≡ some serial) × (is_empty serial ≡ false) × (matches serial devices ≡ 1)
    full true e k = absurd (cc k)
    full false e k = counted (nat_eq (matches s devices) 1) refl e k

-- A serial that is used to pick a device again is the chosen one's, not empty, and no other attached
-- device has it.
pub unique_serial-IsUnique :
    (devices : List DeviceSummary) (chosen : DeviceSummary) (serial : Str)
    → unique_serial devices chosen ≡ some serial
    → Elem chosen devices
    → (chosen.serial ≡ some serial)
      × (is_empty serial ≡ false)
      × ((d : DeviceSummary) → Elem d devices → d.serial ≡ some serial → d ≡ chosen)
unfolding unique_serial
unique_serial-IsUnique devices chosen serial h m =
    let (own, full, one) = unique-some devices chosen.serial serial h in
    (
      own,
      full,
      λ d md e.
          matches_one serial devices chosen d one m (has_serial-of_eq serial chosen own) md
            (has_serial-of_eq serial d e),
    )
