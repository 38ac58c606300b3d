-- ===== src/Path/Parents.antt =====
-- What the parent of a path is, and where the code finds none.
use nandroidfs.Base.{◌∙◌, sym, ap, ℕ, ◌≡◌, refl, false, none, some, [], ◌∷◌, ◌++◌, Bytes, All, ◌==◌}
use nandroidfs.Path.{slash, ends_with, get_full_path, before_last_slash, get_parent_path}

-- The name of an entry: some bytes, none of them a slash.
abbrev pub NoSlash : Bytes → Type 0
NoSlash = All (λ b. (b == slash) ≡ false)

pub record IsName (name : Bytes) : Type 0 where
  pub first : ℕ
  pub others : Bytes
  pub some_bytes : name ≡ first ∷ others
  pub no_slash : NoSlash name

ends_with-append : (xs ys : Bytes) (b c : ℕ) → ends_with (xs ++ (b ∷ ys)) c ≡ ends_with (b ∷ ys) c
unfolding ends_with
ends_with-append [] ys b c = refl
ends_with-append (x ∷ []) ys b c = refl
ends_with-append (x ∷ y ∷ xs) ys b c = ends_with-append (y ∷ xs) ys b c

ends_with-NoSlash : (s : Bytes) → NoSlash s → ends_with s slash ≡ false
unfolding ends_with
ends_with-NoSlash [] h = refl
ends_with-NoSlash (b ∷ []) h = h.0
ends_with-NoSlash (b ∷ d ∷ s) h = ends_with-NoSlash (d ∷ s) h.1

before_last_slash-NoSlash : (s : Bytes) → NoSlash s → before_last_slash s ≡ none
unfolding before_last_slash
before_last_slash-NoSlash [] h = refl
before_last_slash-NoSlash (b ∷ s) h = rw (before_last_slash-NoSlash s h.1, h.0) refl

before_last_slash-append :
    (dir name : Bytes) → NoSlash name → before_last_slash (dir ++ (slash ∷ name)) ≡ some dir
unfolding before_last_slash
before_last_slash-append [] name h = rw (before_last_slash-NoSlash name h) refl
before_last_slash-append (b ∷ dir) name h = rw (before_last_slash-append dir name h) refl

-- A path with a name behind its last slash does not end in a slash.
named : (dir name : Bytes) → IsName name → ends_with (dir ++ (slash ∷ name)) slash ≡ false
unfolding ends_with
named dir name n =
    rw (ends_with-append dir name slash slash, n.some_bytes)
      (ap (λ (t : Bytes). ends_with t slash) (sym n.some_bytes) ∙ ends_with-NoSlash name n.no_slash)

-- The parent of an entry of a directory is that directory, if the directory's path is not empty
-- and does not end in a slash, and the entry's name is not empty and has no slash.
pub get_parent_path-get_full_path :
    (b : ℕ) (dir name : Bytes)
    → ends_with (b ∷ dir) slash ≡ false
    → IsName name
    → get_parent_path (get_full_path (b ∷ dir) name) ≡ some (b ∷ dir)
unfolding get_parent_path get_full_path
get_parent_path-get_full_path b dir name h n =
    rw (h, named (b ∷ dir) name n, before_last_slash-append (b ∷ dir) name n.no_slash) refl

-- An entry of the root, with a name that is not empty and has no slash, has no parent.
pub get_parent_path_root :
    (name : Bytes) → IsName name → get_parent_path (get_full_path (slash ∷ []) name) ≡ none
unfolding get_parent_path get_full_path ends_with
get_parent_path_root name n = rw (named [] name n, before_last_slash-append [] name n.no_slash) refl
