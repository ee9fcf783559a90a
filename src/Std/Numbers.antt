-- ===== src/Std/Numbers.antt =====
-- `usize` from and to decimal digits.
use Prim.Native.Nat.{suc, zero}
use mtpx.Base.{
  ℕ, ◌+◌, ◌*◌, ◌-◌, ◌^◌, ◌/◌, ◌%◌, false, ◌&&◌, [], ◌∷◌, nat_eq, leb, ltb, if◌then◌else◌, Option,
  none, some, All, nat_eq_iff, ◌∙◌, ◌≤◌, ◌<◌, ◌≡◌, refl, arith,
}
use Prim.Native.Nat.pow
use mtpx.Std.Text.{Str, is_empty, contains}

-- `u64::MAX`, and `usize::MAX` of a 64-bit host
abbrev pub u64_max : ℕ
u64_max = 2 ^ 64 - 1

-- The digits; `none` for any other character and for overflow.
parse_digits : ℕ → Str → Option ℕ
parse_digits n [] = some n
parse_digits n (c ∷ s) =
    let n' = n * 10 + (c - b'0') in
    let rest = parse_digits n' s in
    if leb b'0' c && leb c b'9' && leb n' u64_max then rest else none

-- `str::parse::<usize>`: digits, with one `+` allowed in front
unfoldable pub parse_usize : Str → Option ℕ
unfolding parse_digits
parse_usize [] = none
parse_usize (c ∷ []) = parse_digits 0 (c ∷ [])
parse_usize (c ∷ d ∷ s) =
    if nat_eq c b'+' then parse_digits 0 (d ∷ s) else parse_digits 0 (c ∷ d ∷ s)

-- The last digits of a number, on fuel.
decimal : ℕ → ℕ → Str → Str
decimal zero n out = out
decimal (suc fuel) n out =
    let digit = b'0' + n % 10 in
    let rest = decimal fuel (n / 10) (digit ∷ out) in if ltb n 10 then digit ∷ out else rest

-- `u64::to_string`: twenty digits are enough for the type
unfoldable pub to_string : ℕ → Str
unfolding decimal
to_string n = decimal 20 n []

abbrev pub IsDigit : ℕ → Type 0
IsDigit c = (b'0' ≤ c) × (c ≤ b'9')

decimal-IsDigit : (fuel n : ℕ) (out : Str) → All IsDigit out → All IsDigit (decimal fuel n out)
unfolding decimal
decimal-IsDigit zero n out h = h
decimal-IsDigit (suc fuel) n out h =
    ground (arith, decimal-IsDigit fuel (n / 10) ((b'0' + n % 10) ∷ out))

decimal-ne_empty : (fuel n : ℕ) (c : ℕ) (out : Str) → is_empty (decimal fuel n (c ∷ out)) ≡ false
unfolding decimal
decimal-ne_empty zero n c out = refl
decimal-ne_empty (suc fuel) n c out =
    ground (arith, decimal-ne_empty fuel (n / 10) (b'0' + n % 10) (c ∷ out))

div-lt-pow : (fuel n : ℕ) → n < 10 ^ suc fuel → n / 10 < 10 ^ fuel
div-lt-pow fuel n h = omega (arith, pow.suc 10 fuel)

-- Reading the digits that `decimal` writes gives the number back.
parse_digits-decimal :
    (fuel n : ℕ) (out : Str)
    → n < 10 ^ suc fuel
    → n ≤ u64_max
    → parse_digits 0 (decimal (suc fuel) n out) ≡ parse_digits n out
unfolding decimal parse_digits
parse_digits-decimal zero n out h k = ground arith
parse_digits-decimal (suc fuel) n out h k =
    ground
      (arith, div-lt-pow (suc fuel) n, parse_digits-decimal fuel (n / 10) ((b'0' + n % 10) ∷ out))

parse_usize-eq_digits :
    (s : Str) → All IsDigit s → is_empty s ≡ false → parse_usize s ≡ parse_digits 0 s
unfolding parse_usize
parse_usize-eq_digits [] h e = cc
parse_usize-eq_digits (c ∷ []) h e = refl
parse_usize-eq_digits (c ∷ d ∷ s) h e = ground arith

pub to_string-ne_empty : (n : ℕ) → is_empty (to_string n) ≡ false
unfolding to_string decimal
to_string-ne_empty n = ground (arith, decimal-ne_empty 19 (n / 10) (b'0' + n % 10) [])

-- Printing a number and parsing it back.
pub parse_usize-to_string : (n : ℕ) → n ≤ u64_max → parse_usize (to_string n) ≡ some n
unfolding to_string
parse_usize-to_string n h =
    rw (parse_usize-eq_digits (decimal 20 n []) (decimal-IsDigit 20 n [] tt) (to_string-ne_empty n))
      (parse_digits-decimal 19 n [] (omega arith) h ∙ unfold parse_digits in refl)

pub to_string-IsDigit : (n : ℕ) → All IsDigit (to_string n)
unfolding to_string
to_string-IsDigit n = decimal-IsDigit 20 n [] tt

-- A text of digits holds no other character.
pub digits-contains : (s : Str) (c : ℕ) → All IsDigit s → ¬ IsDigit c → contains s c ≡ false
digits-contains [] c h k = refl
digits-contains (d ∷ s) c h k = ground (arith, digits-contains s c h.1 k, nat_eq_iff c d)
