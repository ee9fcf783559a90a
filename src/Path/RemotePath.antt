-- ===== src/Path/RemotePath.antt =====
-- `RemotePath` of crates/mtpx-core/src/path.rs.
use mtpx.Base.{
  Bool, List, [], ◌∷◌, ◌++◌, nat_eq, if◌then◌else◌, Result, ok, err, ◌>>=◌, Option, none, some,
}
use mtpx.Std.Text.{Str, is_empty, split}
use mtpx.Path.Segment.{PathError, empty, not_absolute, separator}
use mtpx.Path.RelPath
use mtpx.Path.RelPath.{RelPath}

pub record RemotePath : Type 0 where
  pub rel : RelPath

-- The filter that `parse` applies.
abbrev pub non_empty : List Str → List Str
non_empty [] = []
non_empty (s ∷ ss) = let rest = non_empty ss in if is_empty s then rest else s ∷ rest

unfoldable pub parse : Str → Result RemotePath PathError
parse [] = err empty
parse (c ∷ rest) =
    if nat_eq c separator
    then (do path ← RelPath.new (non_empty (split separator rest)); ok (record { rel = path }))
    else err not_absolute

abbrev pub root : RemotePath
root = record { rel = RelPath.root }

abbrev pub segments : RemotePath → List Str
segments path = path.rel

unfoldable pub join : RemotePath → RelPath → RemotePath
unfolding RelPath.append
join path rel = record { rel = RelPath.append path.rel rel }

unfoldable pub file_name : RemotePath → Option Str
unfolding RelPath.file_name
file_name path = RelPath.file_name path.rel

unfoldable pub parent : RemotePath → Option RemotePath
unfolding RelPath.parent
parent path = elim (RelPath.parent path.rel) [
  | none ↦ none
  | some init ↦ some (record { rel = init })
]

unfoldable pub is_root : RemotePath → Bool
unfolding RelPath.is_root
is_root path = RelPath.is_root path.rel

abbrev pub display_segments : List Str → Str
display_segments [] = []
display_segments (s ∷ ss) = separator ∷ (s ++ display_segments ss)

-- `Display`: a separator before every segment, and one alone for the root
unfoldable pub display : RemotePath → Str
unfolding is_root
display path = display_segments path.rel ++ (if is_root path then separator ∷ [] else [])
