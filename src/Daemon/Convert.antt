-- ===== src/Daemon/Convert.antt =====
-- The constants and the conversions of nandroid_daemon/src/ClientHandler.cpp.
use nandroidfs.Base.{
  ℕ, ◌-◌, ◌*◌, ◌%◌, ◌^◌, Bool, true, false, not, ◌&&◌, ◌||◌, List, [], ◌∷◌, Bytes, ◌==◌,
  if◌then◌else◌, bytes_eq,
}
use nandroidfs.Wire.{Put, write_byte}
use nandroidfs.Protocol.{
  ResponseStatus, status_byte, OpenMode, open_only, create_if_not_exist, truncate,
  create_or_truncate, create_always,
}
use nandroidfs.Protocol.Requests.{OpenHandleArgs}
use nandroidfs.Protocol.Responses.{FileStat, DiskStats}
use nandroidfs.Daemon.Posix.{
  PosixStat, Statvfs, Access, rdonly, wronly, rdwr, OpenFlags, Timespec, omit, at_second,
}

abbrev pub default_file_mode : ℕ
default_file_mode = 33200

abbrev pub default_directory_mode : ℕ
default_directory_mode = 16888

-- "/sdcard/"
abbrev pub free_space_fs_path : Bytes
free_space_fs_path = b'/' ∷ b's' ∷ b'd' ∷ b'c' ∷ b'a' ∷ b'r' ∷ b'd' ∷ b'/' ∷ []

abbrev pub write_status : ResponseStatus → Put
write_status status = write_byte (status_byte status)

-- The stat that is sent: the mode is cut to 16 bits.
abbrev pub to_file_stat : PosixStat → FileStat
to_file_stat st = record {
  mode = st.st_mode % 2 ^ 16;
  size = st.st_size % 2 ^ 64;
  access_time = st.st_atime % 2 ^ 64;
  write_time = st.st_mtime % 2 ^ 64;
}

-- `block_size * count` in uint64_t.
abbrev pub mul64 : ℕ → ℕ → ℕ
mul64 a b = (a * b) % 2 ^ 64

-- The available bytes are those of `f_favail`, as in the source.
abbrev pub to_disk_stats : Statvfs → DiskStats
to_disk_stats v = record {
  free_bytes = mul64 v.f_bsize v.f_bfree;
  available_bytes = mul64 v.f_bsize v.f_favail;
  total_bytes = mul64 v.f_bsize v.f_blocks;
}

abbrev pub access_of : Bool → Bool → Access
access_of read_access write_access =
    if read_access && not write_access
    then rdonly
    else if write_access && not read_access
    then wronly
    else rdwr

-- The switch on the mode; a mode that the enum does not name adds no flag.
abbrev flags_for : Access → OpenMode → OpenFlags
flags_for access create_if_not_exist = record {
  access = access;
  creat = true;
  excl = false;
  trunc = false;
}
flags_for access truncate = record { access = access; creat = false; excl = false; trunc = true }
flags_for access create_or_truncate = record {
  access = access;
  creat = true;
  excl = false;
  trunc = true;
}
flags_for access create_always = record {
  access = access;
  creat = true;
  excl = true;
  trunc = false;
}
flags_for access open_only = record { access = access; creat = false; excl = false; trunc = false }
flags_for access (OpenMode.unknown b) = record {
  access = access;
  creat = false;
  excl = false;
  trunc = false;
}

unfoldable pub creation_flags : OpenHandleArgs → OpenFlags
creation_flags args = flags_for (access_of args.read_access args.write_access) args.mode

-- -1 leaves the time as it is.
unfoldable pub get_timspec_from_timestamp : ℕ → Timespec
get_timspec_from_timestamp timestamp = if timestamp == 2 ^ 64 - 1 then omit else at_second timestamp

abbrev pub is_dots : Bytes → Bool
is_dots name = bytes_eq name (b'.' ∷ []) || bytes_eq name (b'.' ∷ b'.' ∷ [])

-- The loop over `readdir` that stops at an entry other than `.` and `..`.
unfoldable pub has_entry : List Bytes → Bool
has_entry [] = false
has_entry (name ∷ names) = if is_dots name then has_entry names else true
