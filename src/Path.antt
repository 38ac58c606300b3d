-- ===== src/Path.antt =====
-- nandroid_shared/path_utils.cpp: paths as byte strings.
pub mod Parents
mod Tests
use nandroidfs.Base.{ℕ, Bool, false, Option, none, some, [], ◌∷◌, ◌++◌, Bytes, ◌==◌, if◌then◌else◌}

abbrev pub slash : ℕ
slash = b'/'

unfoldable pub ends_with : Bytes → ℕ → Bool
ends_with [] c = false
ends_with (b ∷ []) c = b == c
ends_with (b ∷ d ∷ s) c = ends_with (d ∷ s) c

unfoldable pub get_full_path : Bytes → Bytes → Bytes
get_full_path dir_path file_name =
    if ends_with dir_path slash then dir_path ++ file_name else dir_path ++ (slash ∷ file_name)

-- The string without its last byte.
unfoldable pub pop_back : Bytes → Bytes
pop_back [] = []
pop_back (b ∷ []) = []
pop_back (b ∷ d ∷ s) = b ∷ pop_back (d ∷ s)

abbrev pub cut_at : ℕ → Option Bytes → Option Bytes
cut_at b none = if b == slash then some [] else none
cut_at b (some before) = some (b ∷ before)

-- `find_last_of('/')` and `resize` to it: what stands before the last slash, if there is one.
unfoldable pub before_last_slash : Bytes → Option Bytes
before_last_slash [] = none
before_last_slash (b ∷ s) = cut_at b (before_last_slash s)

abbrev pub non_empty : Option Bytes → Option Bytes
non_empty none = none
non_empty (some []) = none
non_empty (some (b ∷ s)) = some (b ∷ s)

unfoldable pub get_parent_path : Bytes → Option Bytes
unfolding before_last_slash
get_parent_path path =
    non_empty (before_last_slash (if ends_with path slash then pop_back path else path))
