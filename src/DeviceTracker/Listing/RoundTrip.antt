-- ===== src/DeviceTracker/Listing/RoundTrip.antt =====
-- nandroidfs/DeviceTracker.cpp: a listing as adb prints it comes back as its devices.
use nandroidfs.Text.Lines.{
  split_lines-rest, split_lines-line, index_of-append, Lacks-uncons, Lacks-cons,
}
use nandroidfs.Base.{
  bytes_eq_refl, length-append, take_all, take, ==_refl, drop, All, take-append_exact, bytes_eq→eq,
  length, Bool-cases, bytes_eq, ◌≡◌, refl, ap, sym, ◌∙◌, arith, ℕ, suc, Bool, true, false, ◌||◌,
  ◌&&◌, none, some, List, [], ◌∷◌, ◌++◌, Bytes, if◌then◌else◌, inl, inr,
}
use nandroidfs.DeviceTracker.{
  is_empty, contains, add, tab, listing_header, add_device, authorized_devices,
}
use nandroidfs.Path.{ends_with, pop_back}
use nandroidfs.Text.Loop.{visit}
use nandroidfs.Text.{codes, carriage_return, newline, index_of, Lacks, split_lines}
use nandroidfs.DeviceTracker.Listing.{
  strip, parse_stripped, see_device, authorized_devices_lem, contains-add,
}

-- A device as adb prints it.
abbrev pub entry_line : Bytes × Bytes → Bytes
entry_line (serial, status) = serial ++ (tab ∷ status) ++ (carriage_return ∷ [])

abbrev entry_lines : List (Bytes × Bytes) → Bytes
entry_lines [] = carriage_return ∷ newline ∷ []
entry_lines (entry ∷ entries) = entry_line entry ++ (newline ∷ entry_lines entries)

abbrev pub listing : List (Bytes × Bytes) → Bytes
listing entries = (listing_header ++ (carriage_return ∷ [])) ++ (newline ∷ entry_lines entries)

abbrev pub IsEntry : Bytes × Bytes → Type 0
IsEntry (serial, status) = Lacks tab serial × Lacks newline serial × Lacks newline status

abbrev pub is_authorized : List (Bytes × Bytes) → Bytes → Bool
is_authorized [] s = false
is_authorized ((serial, status) ∷ entries) s =
    bytes_eq status (codes "device") && bytes_eq serial s || is_authorized entries s

ends_with-append : (line : Bytes) (c : ℕ) → ends_with (line ++ (c ∷ [])) c ≡ true
unfolding ends_with
ends_with-append [] c = ==_refl c
ends_with-append (b ∷ []) c = ==_refl c
ends_with-append (b ∷ d ∷ line) c = ends_with-append (d ∷ line) c

pop_back-append : (line : Bytes) (c : ℕ) → pop_back (line ++ (c ∷ [])) ≡ line
unfolding pop_back
pop_back-append [] c = refl
pop_back-append (b ∷ []) c = refl
pop_back-append (b ∷ d ∷ line) c = rw (pop_back-append (d ∷ line) c)

Lacks-append : (c : ℕ) (x y : Bytes) → Lacks c x → Lacks c y → Lacks c (x ++ y)
Lacks-append c [] y h k = k
Lacks-append c (b ∷ x) y h k =
    let (other, lacks) = Lacks-uncons c b x h in
    Lacks-cons c b (x ++ y) other (Lacks-append c x y lacks k)

strip-append : (line : Bytes) → strip (line ++ (carriage_return ∷ [])) ≡ line
strip-append line = rw (ends_with-append line carriage_return, pop_back-append line carriage_return)

listing_header-Lacks : Lacks tab listing_header × Lacks newline listing_header
unfolding index_of
listing_header-Lacks = (refl, refl)

-- A line with a tab is not the header.
not_header :
    (serial status : Bytes)
    → Lacks tab serial
    → bytes_eq (serial ++ (tab ∷ status)) listing_header ≡ false
not_header serial status h =
    elim (Bool-cases (bytes_eq (serial ++ (tab ∷ status)) listing_header)) [
      | inl same ↦
          let line = bytes_eq→eq (serial ++ (tab ∷ status)) listing_header same in
          let found = index_of-append tab serial status h in
          let lost = listing_header-Lacks.0 in
          absurd (clash (sym found ∙ ap (index_of tab) line ∙ lost))
      | inr other ↦ other
    ]
  where
    clash : {n : ℕ} → some n ≡ none → ⊥
    clash e = ground (arith, e)

not_empty : (serial status : Bytes) → is_empty (serial ++ (tab ∷ status)) ≡ false
not_empty [] status = refl
not_empty (b ∷ serial) status = refl

parse_entry :
    (serial status : Bytes) (devices : List Bytes)
    → Lacks tab serial
    → parse_stripped (serial ++ (tab ∷ status)) devices
      ≡ (if bytes_eq status (codes "device") then add serial devices else devices)
unfolding add_device
parse_entry serial status devices h =
    let line = serial ++ (tab ∷ status) in
    let status_found : take (length line) (drop (suc (length serial)) line) ≡ status =
      rw (behind_tab serial status)
        (take_all (length line) status (omega (arith, length-append serial (tab ∷ status)))) in
    rw (
      not_header serial status h,
      not_empty serial status,
      index_of-append tab serial status h,
      status_found,
      take-append_exact (length serial) serial (tab ∷ status) refl,
    )
  where
    behind_tab :
        (serial status : Bytes) → drop (suc (length serial)) (serial ++ (tab ∷ status)) ≡ status
    behind_tab [] status = refl
    behind_tab (b ∷ serial) status = behind_tab serial status

see_entry :
    (serial status : Bytes) (devices : List Bytes)
    → Lacks tab serial
    → see_device (entry_line (serial, status)) devices
      ≡ (if bytes_eq status (codes "device") then add serial devices else devices)
see_entry serial status devices h =
    ap (λ line. parse_stripped line devices) (strip-append (serial ++ (tab ∷ status)))
    ∙ parse_entry serial status devices h

carriage_return-Lacks : Lacks newline (carriage_return ∷ [])
unfolding index_of
carriage_return-Lacks = refl

entry_line-Lacks : (entry : Bytes × Bytes) → IsEntry entry → Lacks newline (entry_line entry)
entry_line-Lacks (serial, status) h =
    Lacks-append newline (serial ++ (tab ∷ status)) (carriage_return ∷ [])
      (Lacks-append newline serial (tab ∷ status) h.1 (Lacks-cons newline tab status refl h.2))
      carriage_return-Lacks

see_blank : (devices : List Bytes) → see_device (carriage_return ∷ []) devices ≡ devices
see_blank devices =
    ap (λ line. parse_stripped line devices) (strip-append [])
    ∙ rw (or_true (bytes_eq [] listing_header))
  where
    or_true : (b : Bool) → (b || true) ≡ true
    or_true b = ground arith

add_if-contains :
    (b : Bool) (x : Bytes) (xs : List Bytes) (s : Bytes)
    → contains (if b then add x xs else xs) s ≡ (contains xs s || (b && bytes_eq x s))
add_if-contains true x xs s = ground (arith, contains-add x xs s)
add_if-contains false x xs s = ground arith

-- What the entries add to the set.
see_entries :
    (entries : List (Bytes × Bytes)) (devices : List Bytes) (s : Bytes)
    → All IsEntry entries
    → contains (visit see_device (split_lines (entry_lines entries)).0 devices) s
      ≡ (contains devices s || is_authorized entries s)
see_entries [] devices s h =
    ap (λ cut. contains (visit see_device cut.0 devices) s)
      (split_lines-line (carriage_return ∷ []) [] carriage_return-Lacks)
    ∙ rw (split_lines-rest [] (unfold index_of in refl), see_blank devices) (ground arith)
see_entries ((serial, status) ∷ entries) devices s h =
    let is_device = bytes_eq status (codes "device") in
    let next = if is_device then add serial devices else devices in
    let others = is_authorized entries s in
    let added : (contains next s || others)
        ≡ (contains devices s || (is_device && bytes_eq serial s || others)) =
      rw (add_if-contains is_device serial devices s) (ground arith) in
    ap (λ cut. contains (visit see_device cut.0 devices) s)
      (split_lines-line (entry_line (serial, status)) (entry_lines entries)
        (entry_line-Lacks (serial, status) h.0))
    ∙ ap (λ seen. contains (visit see_device (split_lines (entry_lines entries)).0 seen) s)
        (see_entry serial status devices h.0.0)
    ∙ see_entries entries next s h.1
    ∙ added

header_seen : see_device (listing_header ++ (carriage_return ∷ [])) [] ≡ []
header_seen =
    ap (λ line. parse_stripped line []) (strip-append listing_header)
    ∙ rw (bytes_eq_refl listing_header)

-- The parse of a listing as adb prints it, with a header, lines that end in a carriage return and
-- a newline, and a blank line, ends with the set of the serial numbers whose status is `device`,
-- if no serial number has a tab or a newline and no status has a newline.
pub authorized_devices-listing :
    (entries : List (Bytes × Bytes))
    → All IsEntry entries
    → (devices : List Bytes) × (authorized_devices (listing entries) ≡ some devices)
      × ((s : Bytes) → contains devices s ≡ is_authorized entries s)
authorized_devices-listing entries h =
    let header = listing_header ++ (carriage_return ∷ []) in
    let cut = split_lines-line header (entry_lines entries) (
      Lacks-append newline listing_header (carriage_return ∷ []) listing_header-Lacks.1
        carriage_return-Lacks) in
    let seen =
      authorized_devices_lem (listing entries)
      ∙ ap (λ lines. some (visit see_device lines.0 [])) cut
      ∙ ap (λ devices. some (visit see_device (split_lines (entry_lines entries)).0 devices))
          header_seen in
    (
      visit see_device (split_lines (entry_lines entries)).0 [],
      seen,
      λ s. see_entries entries [] s h ∙ unfold contains in refl,
    )
