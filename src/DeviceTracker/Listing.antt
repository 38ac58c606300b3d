-- ===== src/DeviceTracker/Listing.antt =====
-- nandroidfs/DeviceTracker.cpp: the parse of the list of devices, line by line.
pub mod RoundTrip
use nandroidfs.Text.Lines.{
  split_lines-rest, split_lines-line, index_of-append, Lacks-uncons, Lacks-cons,
}
use nandroidfs.Base.{
  bytes_eq_refl, length-append, take_all, take, ==_refl, drop, All, take-append_exact,
  drop-append_exact, bytes_eq→eq, length, Bool-cases, bytes_eq, ◌≡◌, refl, ap, sym, ◌∙◌, arith, ℕ,
  suc, ◌+◌, ◌-◌, Bool, true, false, ◌||◌, ◌&&◌, none, some, List, [], ◌∷◌, ◌++◌, Bytes,
  if◌then◌else◌, inl, inr,
}
use nandroidfs.DeviceTracker.{
  is_empty, contains, add, tab, listing_header, add_device, parse_line, authorized_devices,
}
use nandroidfs.Text.Loop.{for_newlines_lem, DoesLine, visit}
use nandroidfs.Path.{ends_with, pop_back}
use nandroidfs.Text.{codes, carriage_return, newline, index_of, Lacks, split_lines}

abbrev strip : Bytes → Bytes
strip cut = if ends_with cut carriage_return then pop_back cut else cut

abbrev parse_stripped : Bytes → List Bytes → List Bytes
parse_stripped line devices =
    if bytes_eq line listing_header || is_empty line
    then devices
    else add_device line (index_of tab line) devices

abbrev pub see_device : Bytes → List Bytes → List Bytes
see_device cut devices = parse_stripped (strip cut) devices

parse_line-DoesLine : DoesLine parse_line (λ devices. devices) see_device
unfolding parse_line
parse_line-DoesLine before line more devices lacks =
    let count : (length before + length line) - length before ≡ length line = omega arith in
    rw (
      drop-append_exact (length before) before (line ++ (newline ∷ more)) refl,
      count,
      take-append_exact (length line) line (newline ∷ more) refl,
    )

pub authorized_devices_lem :
    (output : Bytes) → authorized_devices output ≡ some (visit see_device (split_lines output).0 [])
unfolding authorized_devices
authorized_devices_lem output =
    let (end, start, shown, found, rest) =
      for_newlines_lem parse_line (λ devices. devices) see_device output [] parse_line-DoesLine in
    rw (found, shown)

pub contains-add :
    (x : Bytes) (xs : List Bytes) (s : Bytes)
    → contains (add x xs) s ≡ (bytes_eq x s || contains xs s)
unfolding add contains
contains-add x xs s = elim (Bool-cases (contains xs x)) [
  | inl there ↦ rw there (elim (Bool-cases (bytes_eq x s)) [
    | inl same ↦ rw (same, ← bytes_eq→eq x s same) there
    | inr other ↦ rw other
  ])
  | inr new ↦ rw new
]
