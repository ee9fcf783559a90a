-- ===== src/Path/RelPath.antt =====
-- `RelPath` of crates/mtpx-core/src/path.rs: the newtype over its segments is transparent.
use mtpx.Base.{
  ℕ, Bool, true, false, ◌&&◌, List, [], ◌∷◌, ◌++◌, length, ◌==◌, nat_ord, list_ord, Result, ok,
  ◌>>=◌, ◌>>◌, Option, none, some,
}
use mtpx.Std.Text.{Str}
use mtpx.Std.Paths.{push}
use mtpx.Path.Segment.{PathError, separator, validate_segment}

abbrev pub RelPath : Type 0
RelPath = List Str

unfoldable pub new : List Str → Result RelPath PathError
new [] = ok []
new (segment ∷ segments) = do validate_segment segment; rest ← new segments; ok (segment ∷ rest)

abbrev pub root : RelPath
root = []

-- `slice::split_last`
unfoldable pub split_last_segment : List Str → Option (List Str × Str)
split_last_segment [] = none
split_last_segment (last ∷ []) = some ([], last)
split_last_segment (s ∷ t ∷ ss) = elim (split_last_segment (t ∷ ss)) [
  | none ↦ none
  | some (init, last) ↦ some (s ∷ init, last)
]

unfoldable pub parent : RelPath → Option RelPath
unfolding split_last_segment
parent path = elim (split_last_segment path) [ none ↦ none | some (init, _) ↦ some init ]

unfoldable pub file_name : RelPath → Option Str
unfolding split_last_segment
file_name path = elim (split_last_segment path) [ none ↦ none | some (_, last) ↦ some last ]

unfoldable pub join : RelPath → Str → Result RelPath PathError
join path segment = do validate_segment segment; ok (path ++ (segment ∷ []))

unfoldable pub append : RelPath → RelPath → RelPath
append path tail = path ++ tail

abbrev pub depth : RelPath → ℕ
depth path = length path

unfoldable pub is_root : RelPath → Bool
is_root [] = true
is_root (s ∷ ss) = false

-- `slice::starts_with`
unfoldable pub starts_with : RelPath → RelPath → Bool
starts_with path [] = true
starts_with [] (q ∷ qs) = false
starts_with (s ∷ ss) (q ∷ qs) = s == q && starts_with ss qs

-- `PathBuf::extend` pushes each segment.
unfoldable pub to_local_path : RelPath → Str → Str
unfolding push
to_local_path [] path = path
to_local_path (s ∷ ss) path = to_local_path ss (push path s)

abbrev pub display_rest : List Str → Str
display_rest [] = []
display_rest (s ∷ ss) = separator ∷ (s ++ display_rest ss)

-- `Display`: a separator before every segment but the first
unfoldable pub display : RelPath → Str
display [] = []
display (s ∷ ss) = s ++ display_rest ss
