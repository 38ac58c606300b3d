-- ===== src/Daemon/Posix.antt =====
-- The system calls that nandroid_daemon/src/ClientHandler.cpp makes, as one parameter over an
-- abstract state `F` of the file system and its open descriptors, and the object that makes them.
-- A path is handed over whole: the callee reads it up to its first NUL.
use nandroidfs.Base.{
  ℕ, ◌+◌, ◌-◌, Bool, List, ◌++◌, Bytes, length, take, drop, replicate, ltb, if◌then◌else◌,
}
use nandroidfs.Exec.{Result, Exec, ok, Port, read_with, write_with, flushed}
use nandroidfs.Wire.{Get, Put}
use nandroidfs.Protocol.{
  ResponseStatus, generic_failure, access_denied, not_a_directory, not_a_file, file_not_found,
  file_exists, directory_not_empty,
}

-- The values of errno that the daemon tells apart, and the others.
pub data Errno : Type 0 where
  eacces enoent eexist enotdir eisdir enotempty : Errno
  other : ℕ → Errno

-- The result of a call: -1 with `errno`, or a value.
pub data Sys (A : Type 0) : Type 0 where
  failed : Errno → Sys A
  done : A → Sys A

-- The fields of `struct stat` that are read. Signed fields are bit patterns.
pub record PosixStat : Type 0 where
  pub st_mode : ℕ
  pub st_size : ℕ
  pub st_atime : ℕ
  pub st_mtime : ℕ

pub record Statvfs : Type 0 where
  pub f_bsize : ℕ
  pub f_bfree : ℕ
  pub f_bavail : ℕ
  pub f_favail : ℕ
  pub f_blocks : ℕ

-- An open directory stream, and the names that `readdir` will give before its null.
pub record Dir : Type 0 where
  pub stream : ℕ
  pub names : List Bytes

pub data Access : Type 0 where
  rdonly wronly rdwr : Access

pub record OpenFlags : Type 0 where
  pub access : Access
  pub creat : Bool
  pub excl : Bool
  pub trunc : Bool

-- A timespec: UTIME_OMIT, whose seconds are ignored, or a number of seconds.
pub data Timespec : Type 0 where
  omit : Timespec
  at_second : ℕ → Timespec

pub record Posix (F : Type 0) : Type 0 where
  pub stat : Bytes → F → Sys PosixStat × F
  pub opendir : Bytes → F → Sys Dir × F
  pub closedir : ℕ → F → F
  pub rename : Bytes → Bytes → F → Sys Unit × F
  pub unlink : Bytes → F → Sys Unit × F
  pub rmdir : Bytes → F → Sys Unit × F
  pub mkdir : Bytes → ℕ → F → Sys Unit × F
  pub open_fd : Bytes → OpenFlags → ℕ → F → Sys ℕ × F
  pub close_fd : ℕ → F → Sys Unit × F
  pub lseek_set : ℕ → ℕ → F → Sys ℕ × F
  pub read_fd : ℕ → ℕ → F → Sys Bytes × F
  pub write_fd : ℕ → Bytes → F → Sys ℕ × F
  pub ftruncate : ℕ → ℕ → F → Sys Unit × F
  pub utimensat : Bytes → Timespec → Timespec → F → Sys Unit × F
  pub statvfs : Bytes → F → Sys Statvfs × F
  pub access_rwx : Bytes → F → Sys Unit × F

unfoldable pub get_status_from_errno : Errno → ResponseStatus
get_status_from_errno eacces = access_denied
get_status_from_errno enoent = file_not_found
get_status_from_errno eexist = file_exists
get_status_from_errno enotdir = not_a_directory
get_status_from_errno eisdir = not_a_file
get_status_from_errno enotempty = directory_not_empty
get_status_from_errno (other e) = generic_failure

-- ClientHandler: its reader and writer over the socket, its buffer, and the file system.
pub record Handler (F : Type 0) : Type 0 where
  pub port : Port
  pub rw_buffer : Bytes
  pub fs : F

module _ {F : Type 0} where
  -- The same object with other bytes still to come.
  abbrev pub with_input : Bytes → Handler F → Handler F
  with_input bytes s = record s { port = record s.port { input = bytes } }

  abbrev with_port : {A : Type 0} → Handler F → Result A × Port → Result A × Handler F
  with_port s (r, p) = (r, record s { port = p })

  abbrev with_fs : {A : Type 0} → Handler F → A × F → Result A × Handler F
  with_fs s (r, fs) = (ok r, record s { fs = fs })

  unfoldable pub receive : {A : Type 0} → Get A → Exec (Handler F) A
  receive get s = with_port s (read_with (get s.port.input) s.port)

  unfoldable pub respond : Put → Exec (Handler F) Unit
  respond put s = with_port s (write_with put s.port)

  unfoldable pub flush : Exec (Handler F) Unit
  flush s = (ok tt, record s { port = flushed s.port })

  unfoldable pub call : {A : Type 0} → (F → A × F) → Exec (Handler F) A
  call f s = with_fs s (f s.fs)

  -- A vector grows with zeros.
  unfoldable pub ensure_rw_buffer_size : ℕ → Exec (Handler F) Unit
  ensure_rw_buffer_size size s =
      let old = length s.rw_buffer in
      (
        ok tt,
        record s {
          rw_buffer = if ltb old size then s.rw_buffer ++ replicate (size - old) 0 else s.rw_buffer;
        },
      )

  -- `bytes` put at `&rw_buffer[offset]`.
  unfoldable pub store : ℕ → Bytes → Exec (Handler F) Unit
  store offset bytes s = (
    ok tt,
    record s {
      rw_buffer = take offset s.rw_buffer ++ (bytes ++ drop (offset + length bytes) s.rw_buffer);
    },
  )

  -- `count` bytes from `&rw_buffer[offset]` on.
  unfoldable pub slice : ℕ → ℕ → Exec (Handler F) Bytes
  slice offset count s = (ok (take count (drop offset s.rw_buffer)), s)
