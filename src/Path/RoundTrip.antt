-- ===== src/Path/RoundTrip.antt =====
-- What is printed parses back, and what parses is valid: crates/mtpx-core/src/path.rs and
-- crates/mtpx-core/src/device_path.rs.
use mtpx.Base.{
  ℕ, ◌≤◌, Bool-cases, inl, inr, true, false, List, [], ◌∷◌, ◌++◌, nat_eq, ok, none, some,
  bind-eq_ok, then-eq_ok, ◌≡◌, refl, ap, ◌∙◌, arith, All, append-nil, append_assoc,
}
use mtpx.Std.Text.{Str, contains, split, split_self, split-append}
use mtpx.Std.Numbers.{
  u64_max, parse_usize, to_string, to_string-IsDigit, to_string-ne_empty, digits-contains,
  parse_usize-to_string,
}
use mtpx.Path.Segment.{separator, validate_segment, IsValid, IsValid-no_separator, IsValid-ne_empty}
use mtpx.Path.RelPath
use mtpx.Path.RelPath.{RelPath}
use mtpx.Path.RemotePath
use mtpx.Path.RemotePath.{RemotePath, display_segments, non_empty}
use mtpx.Path.DevicePath
use mtpx.Path.DevicePath.{
  DevicePath, StorageSelector, default, index, named, selector_from, storage_delimiter, split_once,
  is_storage_prefix, display_selector,
}

pub new-IsValid : (ss : List Str) → All IsValid ss → RelPath.new ss ≡ ok ss
unfolding RelPath.new
new-IsValid [] h = refl
new-IsValid (s ∷ ss) (v, h) = rw (v, new-IsValid ss h)

-- `RelPath::new` returns its segments or an error, and only valid ones.
pub new-eq_ok : (ss : List Str) {p : RelPath} → RelPath.new ss ≡ ok p → (ss ≡ p) × All IsValid ss
unfolding RelPath.new
new-eq_ok [] h = (ground arith, tt)
new-eq_ok (s ∷ ss) h =
    let (v, h') = then-eq_ok (validate_segment s) _ h in
    let (rest, e, h'') = bind-eq_ok (RelPath.new ss) _ h' in
    let (same, valid) = new-eq_ok ss e in (cc, (v, valid))

split-display_segments :
    (s : Str) (ss : List Str)
    → All IsValid (s ∷ ss)
    → split separator (s ++ display_segments ss) ≡ s ∷ ss
split-display_segments s [] (v, h) =
    rw (append-nil) (split_self separator s (IsValid-no_separator s v))
split-display_segments s (t ∷ ts) (v, h) =
    rw (split-append separator s (t ++ display_segments ts) (IsValid-no_separator s v))
      (ap (◌∷◌ s) (split-display_segments t ts h))

non_empty-IsValid : (ss : List Str) → All IsValid ss → non_empty ss ≡ ss
non_empty-IsValid [] h = refl
non_empty-IsValid (s ∷ ss) (v, h) = ground (arith, IsValid-ne_empty s v, non_empty-IsValid ss h)

parse-display_rel :
    (ss : List Str)
    → All IsValid ss
    → RemotePath.parse (RemotePath.display (record { rel = ss })) ≡ ok (record { rel = ss })
unfolding RemotePath.parse RemotePath.display
parse-display_rel [] h = unfold split RelPath.new in refl
parse-display_rel (s ∷ ss) h = rw (
  append-nil,
  split-display_segments s ss h,
  non_empty-IsValid (s ∷ ss) h,
  new-IsValid (s ∷ ss) h,
)

-- Parsing what a valid remote path prints gives that path back.
pub parse-display :
    (p : RemotePath) → All IsValid p.rel → RemotePath.parse (RemotePath.display p) ≡ ok p
parse-display p h = parse-display_rel p.rel h

parse-IsValid_cons :
    (c : ℕ) (rest : Str) {p : RemotePath}
    → RemotePath.parse (c ∷ rest) ≡ ok p
    → nat_eq c separator ≡ true
    → All IsValid p.rel
unfolding RemotePath.parse
parse-IsValid_cons c rest {p} h e =
    let (path, parsed, same) =
      bind-eq_ok (RelPath.new (non_empty (split separator rest))) _ (rw e at h) in
    let (pieces, valid) = new-eq_ok (non_empty (split separator rest)) parsed in
    let at : p.rel ≡ non_empty (split separator rest) = ground (arith) in rw at valid

parse-IsValid_any :
    (input : Str) {p : RemotePath} → RemotePath.parse input ≡ ok p → All IsValid p.rel
unfolding RemotePath.parse
parse-IsValid_any [] h = cc
parse-IsValid_any (c ∷ rest) h = elim (Bool-cases (nat_eq c separator)) [
  | inl e ↦ parse-IsValid_cons c rest h e
  | inr e ↦ ground arith
]

-- What parses is made of valid segments, and prints to a text that parses to the same path.
pub parse-IsValid :
    (input : Str) {p : RemotePath}
    → RemotePath.parse input ≡ ok p
    → All IsValid p.rel × (RemotePath.parse (RemotePath.display p) ≡ ok p)
parse-IsValid input {p} h = let v = parse-IsValid_any input h in (v, parse-display p v)

display-first :
    (ss : List Str) → (t : Str) × (RemotePath.display (record { rel = ss }) ≡ separator ∷ t)
unfolding RemotePath.display
display-first [] = ([], refl)
display-first (s ∷ ss) = ((s ++ display_segments ss) ++ [], refl)

split_storage-separator :
    (s : Str) → DevicePath.split_storage (separator ∷ s) ≡ (default, separator ∷ s)
unfolding DevicePath.split_storage
split_storage-separator s = ground arith

split_once-append :
    (sep : ℕ) (s t : Str) → contains s sep ≡ false → split_once sep (s ++ (sep ∷ t)) ≡ some (s, t)
split_once-append sep [] t h = ground arith
split_once-append sep (c ∷ s) t h = ground (arith, split_once-append sep s t)

-- The selectors that a `DevicePath` can show and read back.
abbrev pub IsPrintable : StorageSelector → Type 0
IsPrintable default = Unit
IsPrintable (index n) = n ≤ u64_max
IsPrintable (named name) =
    (is_storage_prefix name ≡ true)
    × (contains name storage_delimiter ≡ false)
    × (parse_usize name ≡ none)

split_storage-prefix :
    (prefix rest : Str)
    → is_storage_prefix prefix ≡ true
    → contains prefix storage_delimiter ≡ false
    → DevicePath.split_storage (prefix ++ (storage_delimiter ∷ separator ∷ rest))
      ≡ (selector_from prefix, separator ∷ rest)
unfolding DevicePath.split_storage
split_storage-prefix prefix rest h k =
    rw (split_once-append storage_delimiter prefix (separator ∷ rest) k, DevicePath.split_storage)
      (rw h refl)

to_string-is_storage_prefix : (n : ℕ) → is_storage_prefix (to_string n) ≡ true
unfolding is_storage_prefix
to_string-is_storage_prefix n = rw (
  to_string-ne_empty n,
  digits-contains (to_string n) separator (to_string-IsDigit n) (λ d. omega arith),
)

selector_from-some : (s : Str) {n : ℕ} → parse_usize s ≡ some n → selector_from s ≡ index n
unfolding selector_from
selector_from-some s h = rw (h, selector_from)

selector_from-none : (s : Str) → parse_usize s ≡ none → selector_from s ≡ named s
unfolding selector_from
selector_from-none s h = rw (h, selector_from)

from_str-display_selector :
    (sel : StorageSelector) (t : Str)
    → IsPrintable sel
    → DevicePath.split_storage (display_selector sel ++ (separator ∷ t)) ≡ (sel, separator ∷ t)
from_str-display_selector default t h = unfold display_selector in split_storage-separator t
from_str-display_selector (index n) t h =
    unfold display_selector in
    rw (append_assoc) (
      split_storage-prefix (to_string n) t (to_string-is_storage_prefix n)
        (digits-contains (to_string n) storage_delimiter (to_string-IsDigit n) (λ d. omega arith))
      ∙ ap (λ sel. (sel, separator ∷ t))
          (selector_from-some (to_string n) (parse_usize-to_string n h)))
from_str-display_selector (named name) t h =
    unfold display_selector in
    rw (append_assoc) (
      split_storage-prefix name t h.0 h.1
      ∙ ap (λ sel. (sel, separator ∷ t)) (selector_from-none name h.2))

from_str-display_parts :
    (sel : StorageSelector) (path : RemotePath) (t : Str)
    → RemotePath.display path ≡ separator ∷ t
    → RemotePath.parse (separator ∷ t) ≡ ok path
    → IsPrintable sel
    → DevicePath.from_str (display_selector sel ++ RemotePath.display path)
      ≡ ok (record { storage = sel; path = path })
unfolding DevicePath.from_str
from_str-display_parts sel path t e parsed h = rw (e, from_str-display_selector sel t h, parsed)

-- Every printable device path prints to a text that parses to it, whatever its segments hold.
pub from_str-display :
    (d : DevicePath)
    → IsPrintable d.storage
    → All IsValid d.path.rel
    → DevicePath.from_str (DevicePath.display d) ≡ ok d
unfolding DevicePath.display
from_str-display d h v =
    let (t, e) = display-first d.path.rel in
    from_str-display_parts d.storage d.path t e (rw e at (parse-display d.path v)) h
