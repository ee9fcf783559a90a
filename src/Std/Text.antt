-- ===== src/Std/Text.antt =====
-- `str` as the list of its code points, and the methods of `str` and `char` that the program calls.
use Prim.Native.Char.{code}
use Prim.Native.String.{String}
use mtpx.Base.{
  ℕ, ◌+◌, Bool, true, false, ◌&&◌, ◌||◌, List, [], ◌∷◌, ◌++◌, map, if◌then◌else◌, leb, nat_eq, any,
  Bool-cases, inl, inr, ◌==◌, nat_ord, list_ord, ◌≡◌, refl, arith, All,
}

abbrev pub Str : Type 0
Str = List ℕ

-- The code points of a literal.
abbrev pub codes : String → Str
codes String.[] = []
codes (String.◌∷◌ c s) = code c ∷ codes s

-- `str::contains(char)`
abbrev pub contains : Str → ℕ → Bool
contains s c = any (nat_eq c) s

-- `str::is_empty`
abbrev pub is_empty : Str → Bool
is_empty [] = true
is_empty (c ∷ s) = false

-- A character in front of the first piece.
abbrev extend_first : ℕ → List Str → List Str
extend_first c [] = (c ∷ []) ∷ []
extend_first c (p ∷ ps) = (c ∷ p) ∷ ps

-- `str::split(char)`: one piece more than there are separators
unfoldable pub split : ℕ → Str → List Str
split sep [] = [] ∷ []
split sep (c ∷ s) =
    let rest = split sep s in if nat_eq c sep then [] ∷ rest else extend_first c rest

-- `str::ends_with(char)`
abbrev pub ends_with : Str → ℕ → Bool
ends_with [] c = false
ends_with (x ∷ []) c = nat_eq x c
ends_with (x ∷ y ∷ s) c = ends_with (y ∷ s) c

-- `char::is_whitespace`: Unicode's White_Space
abbrev pub is_whitespace : ℕ → Bool
is_whitespace c =
    (leb 9 c && leb c 13)
    || any (nat_eq c) (32 ∷ 0x85 ∷ 0xa0 ∷ 0x1680 ∷ 0x2028 ∷ 0x2029 ∷ 0x202f ∷ 0x205f ∷ 0x3000 ∷ [])
    || (leb 0x2000 c && leb c 0x200a)

-- `char::is_control`: Unicode's Cc
abbrev pub is_control : ℕ → Bool
is_control c = leb c 31 || (leb 127 c && leb c 159)

-- `str::trim_end`
unfoldable pub trim_end : Str → Str
trim_end [] = []
trim_end (c ∷ s) =
    let rest = trim_end s in if is_empty rest && is_whitespace c then [] else c ∷ rest

-- `u8::to_ascii_lowercase`
abbrev pub to_ascii_lowercase : ℕ → ℕ
to_ascii_lowercase c = if leb b'A' c && leb c b'Z' then c + 32 else c

-- `str::eq_ignore_ascii_case`
unfoldable pub eq_ignore_ascii_case : Str → Str → Bool
eq_ignore_ascii_case s t = map to_ascii_lowercase s == map to_ascii_lowercase t

-- A text without the separator is one piece.
pub split_self : (sep : ℕ) (s : Str) → contains s sep ≡ false → split sep s ≡ s ∷ []
unfolding split
split_self sep [] h = refl
split_self sep (c ∷ s) h = ground (arith, split_self sep s)

-- A text without the separator, then the separator, is the first piece.
pub split-append :
    (sep : ℕ) (s t : Str) → contains s sep ≡ false → split sep (s ++ (sep ∷ t)) ≡ s ∷ split sep t
unfolding split
split-append sep [] t h = ground arith
split-append sep (c ∷ s) t h = ground (arith, split-append sep s t)

extend_first-contains :
    (sep c : ℕ) (ps : List Str)
    → nat_eq c sep ≡ false
    → All (λ p. contains p sep ≡ false) ps
    → All (λ p. contains p sep ≡ false) (extend_first c ps)
extend_first-contains sep c [] h a = ground arith
extend_first-contains sep c (p ∷ ps) h a = (ground (arith, a.0), a.1)

-- No piece of a split holds the separator.
pub split-contains : (sep : ℕ) (s : Str) → All (λ p. contains p sep ≡ false) (split sep s)
unfolding split
split-contains sep [] = (refl, tt)
split-contains sep (c ∷ s) = elim (Bool-cases (nat_eq c sep)) [
  | inl e ↦ rw e (refl, split-contains sep s)
  | inr e ↦ rw e (extend_first-contains sep c (split sep s) e (split-contains sep s))
]
