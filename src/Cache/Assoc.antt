-- ===== src/Cache/Assoc.antt =====
-- A map from paths, as std::unordered_map is used: one entry for a path, in no order that shows.
use nandroidfs.Base.{
  Option, none, some, List, [], ◌∷◌, Bytes, ◌≡◌, arith, bytes_eq, bytes_eq→eq, bytes_eq_refl,
  if◌then◌else◌, ◌∙◌, Bool-cases, inl, inr,
}

abbrev pub Map {ℓ} : Type ℓ → Type ℓ
Map V = List (Bytes × V)

module _ {ℓ} {V : Type ℓ} where
  unfoldable pub lookup : Bytes → Map V → Option V
  lookup k [] = none
  lookup k ((j, v) ∷ m) = if bytes_eq j k then some v else lookup k m

  unfoldable pub erase : Bytes → Map V → Map V
  erase k [] = []
  erase k ((j, v) ∷ m) = let rest = erase k m in if bytes_eq j k then rest else (j, v) ∷ rest

  unfoldable pub insert : Bytes → V → Map V → Map V
  unfolding erase
  insert k v m = (k, v) ∷ erase k m

module _ {ℓ} {V : Type ℓ} where
  pub lookup-erase :
      (k j : Bytes) (m : Map V) → lookup j (erase k m) ≡ (if bytes_eq k j then none else lookup j m)
  unfolding lookup erase
  lookup-erase k j [] = ground arith
  lookup-erase k j ((i, v) ∷ m) = ground (
    arith,
    lookup-erase k j m,
    bytes_eq→eq i k,
    bytes_eq→eq i j,
    bytes_eq→eq k j,
    bytes_eq_refl k,
    bytes_eq_refl j,
    bytes_eq_refl i,
  )

  pub lookup-insert :
      (k j : Bytes) (v : V) (m : Map V)
      → lookup j (insert k v m) ≡ (if bytes_eq k j then some v else lookup j m)
  unfolding lookup insert
  lookup-insert k j v m = ground (arith, lookup-erase k j m)

  -- One entry for a path.
  abbrev pub IsUnique : Map V → Type ℓ
  IsUnique [] = Unit
  IsUnique ((k, v) ∷ m) = (lookup k m ≡ none) × IsUnique m

  pub erase-IsUnique : (k : Bytes) (m : Map V) → IsUnique m → IsUnique (erase k m)
  unfolding erase
  erase-IsUnique k [] h = h
  erase-IsUnique k ((j, v) ∷ m) h = elim (Bool-cases (bytes_eq j k)) [
    | inl same ↦ rw same (erase-IsUnique k m h.1)
    | inr other ↦ rw other (ground (arith, lookup-erase k j m, h.0), erase-IsUnique k m h.1)
  ]

  pub insert-IsUnique : (k : Bytes) (v : V) (m : Map V) → IsUnique m → IsUnique (insert k v m)
  unfolding insert
  insert-IsUnique k v m h = (lookup-erase k k m ∙ rw (bytes_eq_refl k), erase-IsUnique k m h)
