-- ===== src/Nandroid/Mount.antt =====
-- nandroidfs/Nandroid.cpp: the search for a drive letter, against the list of the letters.
use nandroidfs.Nandroid.{
  invalid_mount_point, driver_error, driver_not_installed, invalid_drive_letter, unspecified,
  mounted, dokan_other, unfinished, no_mount_point, mount_failed, dokan_success, dokan_error,
  dokan_drive_letter_error, dokan_driver_install_error, dokan_start_error, dokan_mount_error,
  dokan_mount_point_error, dokan_version_error, MountFailure, incompatible_version, unknown,
  DokanStatus, Mounting, mount_status, mount_loop, mount_filesystem,
}
use nandroidfs.Base.{
  ◌≡◌, refl, arith, ℕ, ◌+◌, ◌≤◌, ◌<◌, zero, suc, false, List, [], ◌∷◌, ◌==◌, ◌⊎◌, inl, inr, ◌∙◌,
}
use nandroidfs.Text.{codes}

abbrev pub drive_letters : List ℕ
drive_letters = codes "DEFGHIJKLMNOPQRSTUVWXYZ"

-- A letter that is taken leads to the next one, and any other status decides.
abbrev pub decide : ℕ → Mounting → DokanStatus → Mounting
decide letter rest dokan_success = mounted letter
decide letter rest dokan_mount_error = rest
decide letter rest dokan_error = mount_failed unspecified
decide letter rest dokan_drive_letter_error = mount_failed invalid_drive_letter
decide letter rest dokan_driver_install_error = mount_failed driver_not_installed
decide letter rest dokan_start_error = mount_failed driver_error
decide letter rest dokan_mount_point_error = mount_failed invalid_mount_point
decide letter rest dokan_version_error = mount_failed incompatible_version
decide letter rest (dokan_other code) = mount_failed unknown

abbrev pub first_free : (ℕ → DokanStatus) → List ℕ → Mounting
first_free status [] = mount_failed no_mount_point
first_free status (letter ∷ letters) = decide letter (first_free status letters) (status letter)

abbrev count_up : ℕ → ℕ → List ℕ
count_up zero letter = []
count_up (suc n) letter = letter ∷ count_up n (suc letter)

mount_status-decide :
    (letter : ℕ) (rest : Mounting) (s : DokanStatus)
    → (letter == b'Z') ≡ false
    → mount_status letter rest s ≡ decide letter rest s
mount_status-decide letter rest dokan_success h = refl
mount_status-decide letter rest dokan_mount_error h = rw h
mount_status-decide letter rest dokan_error h = refl
mount_status-decide letter rest dokan_drive_letter_error h = refl
mount_status-decide letter rest dokan_driver_install_error h = refl
mount_status-decide letter rest dokan_start_error h = refl
mount_status-decide letter rest dokan_mount_point_error h = refl
mount_status-decide letter rest dokan_version_error h = refl
mount_status-decide letter rest (dokan_other code) h = refl

mount_status-decide_last :
    (letter : ℕ) (rest : Mounting) (s : DokanStatus)
    → letter ≡ b'Z'
    → mount_status letter rest s ≡ decide letter (mount_failed no_mount_point) s
mount_status-decide_last letter rest dokan_success h = refl
mount_status-decide_last letter rest dokan_mount_error h = rw h
mount_status-decide_last letter rest dokan_error h = refl
mount_status-decide_last letter rest dokan_drive_letter_error h = refl
mount_status-decide_last letter rest dokan_driver_install_error h = refl
mount_status-decide_last letter rest dokan_start_error h = refl
mount_status-decide_last letter rest dokan_mount_point_error h = refl
mount_status-decide_last letter rest dokan_version_error h = refl
mount_status-decide_last letter rest (dokan_other code) h = refl

mount_loop-count_up :
    (status : ℕ → DokanStatus) (n letter : ℕ)
    → letter + n ≡ b'Z'
    → mount_loop status (suc n) letter ≡ first_free status (count_up (suc n) letter)
unfolding mount_loop
mount_loop-count_up status zero letter h =
    mount_status-decide_last letter unfinished (status letter) (omega (arith, h))
mount_loop-count_up status (suc n) letter h =
    rw (mount_loop-count_up status n (suc letter) (omega (arith, h))) (
      mount_status-decide letter (first_free status (count_up (suc n) (suc letter))) (status letter)
        (ground (arith, h)))

-- The search for a mount point tries the letters from D to Z in turn: the first whose status is
-- not that of a letter that is taken decides, and if all are taken it fails.
pub mount_filesystem_lem :
    (status : ℕ → DokanStatus) → mount_filesystem status ≡ first_free status drive_letters
unfolding mount_filesystem
mount_filesystem_lem status = mount_loop-count_up status 22 b'D' refl

-- A letter that was mounted, or a failure.
abbrev IsDecided : (ℕ → DokanStatus) → ℕ → ℕ → Mounting → Type 0
IsDecided status low high m =
    ((l : ℕ) × (m ≡ mounted l) × (status l ≡ dokan_success) × (low ≤ l) × (l < high))
    ⊎ ((f : MountFailure) × (m ≡ mount_failed f))

decide-IsDecided :
    (status : ℕ → DokanStatus) (low high : ℕ) (rest : Mounting) (s : DokanStatus)
    → status low ≡ s
    → low < high
    → IsDecided status (suc low) high rest
    → IsDecided status low high (decide low rest s)
decide-IsDecided status low high rest dokan_success e below h =
    inl (low, refl, e, omega arith, below)
decide-IsDecided status low high rest dokan_mount_error e below h = elim h [
  | inl (l, found, success, above, under) ↦ inl (l, found, success, omega (arith, above), under)
  | inr failed ↦ inr failed
]
decide-IsDecided status low high rest dokan_error e below h = inr (unspecified, refl)
decide-IsDecided status low high rest dokan_drive_letter_error e below h =
    inr (invalid_drive_letter, refl)
decide-IsDecided status low high rest dokan_driver_install_error e below h =
    inr (driver_not_installed, refl)
decide-IsDecided status low high rest dokan_start_error e below h = inr (driver_error, refl)
decide-IsDecided status low high rest dokan_mount_point_error e below h =
    inr (invalid_mount_point, refl)
decide-IsDecided status low high rest dokan_version_error e below h =
    inr (incompatible_version, refl)
decide-IsDecided status low high rest (dokan_other code) e below h = inr (unknown, refl)

first_free-IsDecided :
    (status : ℕ → DokanStatus) (n low high : ℕ)
    → low + n ≡ high
    → IsDecided status low high (first_free status (count_up n low))
first_free-IsDecided status zero low high e = inr (no_mount_point, refl)
first_free-IsDecided status (suc n) low high e =
    decide-IsDecided status low high (first_free status (count_up n (suc low))) (status low) refl
      (omega (arith, e)) (first_free-IsDecided status n (suc low) high (omega (arith, e)))

-- The search for a mount point ends, either with a letter from D to Z for which Dokan reported
-- success, or with a failure.
pub mount_filesystem_decided :
    (status : ℕ → DokanStatus)
    → ((l : ℕ) × (mount_filesystem status ≡ mounted l)
        × (status l ≡ dokan_success)
        × (b'D' ≤ l)
        × (l ≤ b'Z'))
      ⊎ ((f : MountFailure) × (mount_filesystem status ≡ mount_failed f))
mount_filesystem_decided status = elim (first_free-IsDecided status 23 b'D' (suc b'Z') refl) [
  | inl (l, found, success, above, below) ↦
      inl (l, mount_filesystem_lem status ∙ found, success, above, omega (arith, below))
  | inr (f, found) ↦ inr (f, mount_filesystem_lem status ∙ found)
]
