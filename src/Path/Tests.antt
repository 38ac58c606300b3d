-- ===== src/Path/Tests.antt =====
-- Paths at concrete values.
use nandroidfs.Base.{false, ◌≡◌, refl, some, [], ◌∷◌, Bytes}
use nandroidfs.Path.{slash, ends_with, get_full_path, get_parent_path}
use nandroidfs.Path.Parents.{IsName, get_parent_path-get_full_path}

abbrev name : Bytes
name = b'f' ∷ b'g' ∷ []

name-IsName : IsName name
name-IsName = record {
  first = b'f';
  others = b'g' ∷ [];
  some_bytes = refl;
  no_slash = (refl, (refl, tt));
}

not_ended : ends_with (slash ∷ b'd' ∷ []) slash ≡ false
unfolding ends_with
not_ended = refl

get_parent_path-get_full_path_example :
    get_parent_path (get_full_path (slash ∷ b'd' ∷ []) name) ≡ some (slash ∷ b'd' ∷ [])
get_parent_path-get_full_path_example =
    get_parent_path-get_full_path slash (b'd' ∷ []) name not_ended name-IsName
