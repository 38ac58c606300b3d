-- ===== src/Conversion/Times.antt =====
-- Unix times and FILETIMEs.
use nandroidfs.Base.{ℕ, ◌+◌, ◌-◌, ◌*◌, ◌/◌, ◌^◌, ◌<◌, ◌≡◌, arith}
use Prim.Native.Nat.{max}
use nandroidfs.Base.Bits.{bit_or_disjoint}
use nandroidfs.Conversion.{
  FileTime, filetime_from_unix_time, unix_time_from_filetime, epoch_difference,
}

-- The number of the 100 nanosecond steps that a FILETIME stands for.
abbrev pub ticks : FileTime → ℕ
ticks t = t.high_date_time * 2 ^ 32 + t.low_date_time

pub record IsFileTime (t : FileTime) : Type 0 where
  pub low : t.low_date_time < 2 ^ 32
  pub high : t.high_date_time < 2 ^ 32

pub unix_time_lem :
    (t : FileTime)
    → IsFileTime t
    → unix_time_from_filetime t ≡ ticks t / 10000000 - epoch_difference
unfolding unix_time_from_filetime
unix_time_lem t v =
    rw (bit_or_disjoint 32 t.high_date_time t.low_date_time v.low) (ground (arith, v.high, v.low))

pub filetime_lem :
    (t : ℕ)
    → 10000000 * (t + epoch_difference) < 2 ^ 64
    → ticks (filetime_from_unix_time t) ≡ 10000000 * (t + epoch_difference)
unfolding filetime_from_unix_time
filetime_lem t h = omega arith

filetime-IsFileTime : (t : ℕ) → IsFileTime (filetime_from_unix_time t)
unfolding filetime_from_unix_time
filetime-IsFileTime t = record { low = omega arith; high = omega arith }

-- A Unix time whose FILETIME does not overflow comes back as it was.
pub unix_time_from_filetime-filetime_from_unix_time :
    (t : ℕ)
    → 10000000 * (t + epoch_difference) < 2 ^ 64
    → unix_time_from_filetime (filetime_from_unix_time t) ≡ t
unix_time_from_filetime-filetime_from_unix_time t h =
    omega
      (arith, unix_time_lem (filetime_from_unix_time t) (filetime-IsFileTime t), filetime_lem t h)

-- A FILETIME of two words of 32 bits, if it is from 1970 on, loses less than a second on the way
-- to a Unix time and back, and one before 1970 becomes 1970.
pub filetime_from_unix_time-unix_time_from_filetime :
    (t : FileTime)
    → IsFileTime t
    → ticks (filetime_from_unix_time (unix_time_from_filetime t))
      ≡ 10000000 * max (ticks t / 10000000) epoch_difference
filetime_from_unix_time-unix_time_from_filetime t v =
    ground (arith, unix_time_lem t v, v.low, v.high, filetime_lem (unix_time_from_filetime t))
