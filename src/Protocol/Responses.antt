-- ===== src/Protocol/Responses.antt =====
-- nandroid_shared/responses.cpp: the records that a response carries.
use nandroidfs.Base.{ℕ}
use nandroidfs.Wire.{Get, Put, ◌>>=◌, pure, ◌⨾◌, read_u16, read_u64, write_u16, write_u64}

pub record FileStat : Type 0 where
  pub mode : ℕ
  pub size : ℕ
  pub access_time : ℕ
  pub write_time : ℕ

abbrev pub empty_stat : FileStat
empty_stat = record { mode = 0; size = 0; access_time = 0; write_time = 0 }

unfoldable pub write_file_stat : FileStat → Put
write_file_stat stat =
    write_u16 stat.mode
    ⨾ write_u64 stat.size
    ⨾ write_u64 stat.access_time
    ⨾ write_u64 stat.write_time

unfoldable pub read_file_stat : Get FileStat
read_file_stat = do
  mode ← read_u16
  size ← read_u64
  access_time ← read_u64
  write_time ← read_u64
  pure (record { mode = mode; size = size; access_time = access_time; write_time = write_time })

pub record DiskStats : Type 0 where
  pub free_bytes : ℕ
  pub available_bytes : ℕ
  pub total_bytes : ℕ

abbrev pub empty_disk_stats : DiskStats
empty_disk_stats = record { free_bytes = 0; available_bytes = 0; total_bytes = 0 }

unfoldable pub read_disk_stats : Get DiskStats
read_disk_stats = do
  free_bytes ← read_u64
  available_bytes ← read_u64
  total_bytes ← read_u64
  pure (record {
    free_bytes = free_bytes;
    available_bytes = available_bytes;
    total_bytes = total_bytes;
  })

unfoldable pub write_disk_stats : DiskStats → Put
write_disk_stats stats =
    write_u64 stats.free_bytes ⨾ write_u64 stats.available_bytes ⨾ write_u64 stats.total_bytes
