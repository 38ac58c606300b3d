-- ===== src/Operations/Times.antt =====
-- The times of a file, from Dokan's pointers to the daemon's timespecs.
use nandroidfs.Base.{
  ℕ, ◌-◌, ◌/◌, ◌^◌, ◌<◌, ◌≡◌, refl, arith, ◌&&◌, ◌==◌, Option, none, some, false, Bool-cases, inl,
  inr, if◌then◌else◌,
}
use nandroidfs.Conversion.{FileTime, epoch_difference}
use nandroidfs.Conversion.Times.{IsFileTime, unix_time_lem, ticks}
use nandroidfs.Daemon.Posix.{Timespec, omit, at_second}
use nandroidfs.Daemon.Convert.{get_timspec_from_timestamp}
use nandroidfs.Operations.Attributes.{signed_time_from_ptr}

-- What a pointer to a time asks for: a null pointer or the time 0 leaves the file's time as it is,
-- and any other is a number of seconds since 1970, or 1970 if it is before.
abbrev pub asked_time : Option FileTime → Timespec
asked_time none = omit
asked_time (some t) =
    if ticks t == 0 then omit else at_second (ticks t / 10000000 - epoch_difference)

abbrev pub IsTimePtr : Option FileTime → Type 0
IsTimePtr none = Unit
IsTimePtr (some t) = IsFileTime t

zero_words : (t : FileTime) → ((t.high_date_time == 0) && (t.low_date_time == 0)) ≡ (ticks t == 0)
zero_words t = ground arith

not_mark : (n : ℕ) → n < 2 ^ 64 - 1 → (n == 2 ^ 64 - 1) ≡ false
not_mark n h = ground arith

-- The timespec that the daemon makes of the number that the client makes of a pointer to a time is
-- the one that the pointer asks for: a null pointer or the time 0 leaves the file's time as it is,
-- and any other is its second since 1970, or 1970 if it is before, if its words have 32 bits; no
-- real time is taken for the mark that leaves the time as it is.
pub get_timspec_from_timestamp-signed_time_from_ptr :
    (t : Option FileTime)
    → IsTimePtr t
    → get_timspec_from_timestamp (signed_time_from_ptr t) ≡ asked_time t
unfolding get_timspec_from_timestamp signed_time_from_ptr
get_timspec_from_timestamp-signed_time_from_ptr none h = refl
get_timspec_from_timestamp-signed_time_from_ptr (some t) v = elim (Bool-cases (ticks t == 0)) [
  | inl zero ↦ rw (zero_words t, zero) refl
  | inr later ↦ rw (
    zero_words t,
    later,
    unix_time_lem t v,
    not_mark (ticks t / 10000000 - epoch_difference) (omega (arith, v.low, v.high)),
  )
]
