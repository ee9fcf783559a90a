-- ===== src/Std/Paths.antt =====
-- `Path::components` and `PathBuf::push` of a Unix host.
use mtpx.Base.{◌||◌, List, [], ◌∷◌, ◌++◌, if◌then◌else◌, nat_eq, ◌==◌, nat_ord, list_ord}
use mtpx.Std.Text.{Str, codes, is_empty, split, ends_with}

pub data Component : Type 0 where
  root_dir cur_dir parent_dir : Component
  normal : Str → Component

-- Empty pieces and `.` are dropped behind the first.
abbrev components_of_pieces : List Str → List Component
components_of_pieces [] = []
components_of_pieces (p ∷ ps) =
    let rest = components_of_pieces ps in
    if is_empty p || p == codes "."
    then rest
    else if p == codes ".."
    then parent_dir ∷ rest
    else normal p ∷ rest

-- A leading `.` is kept.
abbrev components_of_relative : List Str → List Component
components_of_relative [] = []
components_of_relative (p ∷ ps) =
    if p == codes "." then cur_dir ∷ components_of_pieces ps else components_of_pieces (p ∷ ps)

unfoldable pub components : Str → List Component
unfolding split
components [] = []
components (c ∷ s) =
    if nat_eq c b'/'
    then root_dir ∷ components_of_pieces (split b'/' s)
    else components_of_relative (split b'/' (c ∷ s))

-- `PathBuf::push`: an absolute path replaces what stands there
unfoldable pub push : Str → Str → Str
push path [] = if is_empty path || ends_with path b'/' then path else path ++ (b'/' ∷ [])
push path (c ∷ s) =
    if nat_eq c b'/'
    then c ∷ s
    else if is_empty path || ends_with path b'/'
    then path ++ (c ∷ s)
    else path ++ (b'/' ∷ c ∷ s)
