-- ===== src/Display.antt =====
-- Text of a device as a terminal may show it, from crates/mtpx-core/src/display.rs.
use mtpx.Base.{
  ℕ, ◌+◌, ◌≤◌, Bool, false, ◌||◌, ◌&&◌, [], ◌∷◌, length, All, nat_eq, leb, any, if◌then◌else◌, ◌≡◌,
  refl, ap, arith, Bool-cases, inl, inr, nat_eq_iff,
}
use mtpx.Std.Text.{Str, is_control}

abbrev pub max_display_chars : ℕ
max_display_chars = 256

abbrev pub is_reordering : ℕ → Bool
is_reordering c =
    any (nat_eq c) (0x61c ∷ 0x200e ∷ 0x200f ∷ [])
    || (leb 0x2028 c && leb c 0x202e)
    || (leb 0x2066 c && leb c 0x2069)

abbrev pub is_hidden : ℕ → Bool
is_hidden c = is_control c || is_reordering c

abbrev replacement : ℕ
replacement = 0xfffd

abbrev ellipsis : ℕ
ellipsis = 0x2026

-- A character as it is shown.
show_char : ℕ → ℕ
show_char c = if is_hidden c then replacement else c

-- The loop behind `index` characters.
sanitize_from : ℕ → Str → Str
sanitize_from index [] = []
sanitize_from index (c ∷ cs) =
    let rest = sanitize_from (index + 1) cs in
    if nat_eq index max_display_chars then ellipsis ∷ [] else show_char c ∷ rest

unfoldable pub sanitize_for_display : Str → Str
unfolding sanitize_from show_char
sanitize_for_display value = sanitize_from 0 value

abbrev pub IsShown : ℕ → Type 0
IsShown c = is_hidden c ≡ false

show_char-IsShown : (c : ℕ) → IsShown (show_char c)
unfolding show_char
show_char-IsShown c = ground arith

show_char-eq_self : (c : ℕ) → IsShown c → show_char c ≡ c
unfolding show_char
show_char-eq_self c h = rw h refl

sanitize_from-IsShown : (n : ℕ) (s : Str) → All IsShown (sanitize_from n s)
unfolding sanitize_from
sanitize_from-IsShown n [] = tt
sanitize_from-IsShown n (c ∷ cs) = elim (Bool-cases (nat_eq n max_display_chars)) [
  | inl at ↦ rw at (refl, tt)
  | inr before ↦ rw before (show_char-IsShown c, sanitize_from-IsShown (n + 1) cs)
]

length-sanitize_from :
    (n : ℕ) (s : Str)
    → n ≤ max_display_chars
    → n + length (sanitize_from n s) ≤ max_display_chars + 1
unfolding sanitize_from
length-sanitize_from n [] h = omega arith
length-sanitize_from n (c ∷ cs) h =
    ground (arith, length-sanitize_from (n + 1) cs, nat_eq_iff n max_display_chars)

sanitize_from-eq_self :
    (n : ℕ) (s : Str) → All IsShown s → n + length s ≤ max_display_chars → sanitize_from n s ≡ s
unfolding sanitize_from
sanitize_from-eq_self n [] h k = refl
sanitize_from-eq_self n (c ∷ cs) h k = ground (
  arith,
  show_char-eq_self c h.0,
  sanitize_from-eq_self (n + 1) cs h.1,
  nat_eq_iff n max_display_chars,
)

sanitize_from-idempotent :
    (n : ℕ) (s : Str) → sanitize_from n (sanitize_from n s) ≡ sanitize_from n s
unfolding sanitize_from
sanitize_from-idempotent n [] = refl
sanitize_from-idempotent n (c ∷ cs) = elim (Bool-cases (nat_eq n max_display_chars)) [
  | inl at ↦ rw at (rw at refl)
  | inr before ↦ rw before (
      rw (before, show_char-eq_self (show_char c) (show_char-IsShown c))
        (ap (◌∷◌ (show_char c)) (sanitize_from-idempotent (n + 1) cs)))
]

-- What is shown holds no control character and none that reorders text, is at most one character
-- longer than the limit, stays as it is when it is sanitised again, and is the text itself when that
-- holds no such character and is no longer than the limit.
pub sanitize_for_display-IsShown :
    (value : Str)
    → All IsShown (sanitize_for_display value)
      × (length (sanitize_for_display value) ≤ max_display_chars + 1)
      × (sanitize_for_display (sanitize_for_display value) ≡ sanitize_for_display value)
      × (All IsShown value → length value ≤ max_display_chars → sanitize_for_display value ≡ value)
unfolding sanitize_for_display
sanitize_for_display-IsShown value = (
  sanitize_from-IsShown 0 value,
  omega (arith, length-sanitize_from 0 value),
  sanitize_from-idempotent 0 value,
  λ h k. sanitize_from-eq_self 0 value h (omega arith),
)
