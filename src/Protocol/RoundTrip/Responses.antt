-- ===== src/Protocol/RoundTrip/Responses.antt =====
-- The records of nandroid_shared/responses.cpp are read back as they were written.
use nandroidfs.Wire.RoundTrip.{read_u16_lem, read_u64_lem}
use nandroidfs.Base.{◌^◌, ◌<◌, ◌≡◌, refl, some, ◌++◌, Bytes}
use nandroidfs.Wire.{◌>>=◌, write_u64, write_u16}
use nandroidfs.Protocol.{ResponseStatus, status_byte, response_status, success}
use nandroidfs.Protocol.Responses.{
  FileStat, read_file_stat, write_file_stat, DiskStats, read_disk_stats, write_disk_stats,
}

pub record FitsStat (stat : FileStat) : Type 0 where
  pub mode : stat.mode < 2 ^ 16
  pub size : stat.size < 2 ^ 64
  pub access_time : stat.access_time < 2 ^ 64
  pub write_time : stat.write_time < 2 ^ 64

-- What is written for a FileStat whose fields fit the wire is read back as it was, and what
-- follows it on the stream is left.
pub read-write_file_stat :
    (stat : FileStat) (rest : Bytes)
    → FitsStat stat
    → read_file_stat ((write_file_stat stat).bytes ++ rest) ≡ some (stat, rest)
unfolding read_file_stat write_file_stat write_u16 write_u64
read-write_file_stat stat rest fits = rw (
  read_u16_lem stat.mode _ fits.mode,
  ◌>>=◌,
  read_u64_lem stat.size _ fits.size,
  ◌>>=◌,
  read_u64_lem stat.access_time _ fits.access_time,
  ◌>>=◌,
  read_u64_lem stat.write_time _ fits.write_time,
  ◌>>=◌,
)

pub record FitsDisk (stats : DiskStats) : Type 0 where
  pub free_bytes : stats.free_bytes < 2 ^ 64
  pub available_bytes : stats.available_bytes < 2 ^ 64
  pub total_bytes : stats.total_bytes < 2 ^ 64

-- What is written for a DiskStats whose fields fit the wire is read back as it was, and what
-- follows it on the stream is left.
pub read-write_disk_stats :
    (stats : DiskStats) (rest : Bytes)
    → FitsDisk stats
    → read_disk_stats ((write_disk_stats stats).bytes ++ rest) ≡ some (stats, rest)
unfolding read_disk_stats write_disk_stats write_u64
read-write_disk_stats stats rest fits = rw (
  read_u64_lem stats.free_bytes _ fits.free_bytes,
  ◌>>=◌,
  read_u64_lem stats.available_bytes _ fits.available_bytes,
  ◌>>=◌,
  read_u64_lem stats.total_bytes _ fits.total_bytes,
  ◌>>=◌,
)

-- One of the nine statuses that the enum names.
abbrev pub IsStatus : ResponseStatus → Type 0
IsStatus (ResponseStatus.unknown b) = ⊥
IsStatus _ = Unit

pub response_status-status_byte :
    (s : ResponseStatus) → IsStatus s → response_status (status_byte s) ≡ s
response_status-status_byte success h = refl
response_status-status_byte (ResponseStatus.unknown b) h = absurd h
response_status-status_byte _ h = refl
