-- ===== src/Daemon/WriteFile.antt =====
-- A write to an open file puts all its bytes there, however many `write` takes at a time.
use nandroidfs.Base.{ℕ, ◌+◌, ◌≤◌, ◌≡◌, ◌∷◌, ◌++◌, Bytes, length, take}
use nandroidfs.Daemon.Posix.{get_status_from_errno, Posix, Handler, Sys, done, failed, Errno}
use nandroidfs.Protocol.{success}
use nandroidfs.Exec.{Exec, Result, ok}
use nandroidfs.Daemon.Transfer.{Ended, moved, broke}
use nandroidfs.Daemon.Convert.{write_status}
use nandroidfs.Daemon.Overwrite.{overwrite}

-- What POSIX says of `lseek` and `write` on a regular file that is open for writing.
module _ {F : Type 0} (os : Posix F) (handle : ℕ) (content : F → Bytes) (position : F → ℕ) where
  -- A write takes at least one byte and at most all, and goes on behind them; or it fails and takes
  -- none.
  pub data IsWrite (bytes : Bytes) (fs : F) : Sys ℕ × F → Type 0 where
    took :
        (n : ℕ) {end : F}
        → 1 ≤ n
        → n ≤ length bytes
        → content end ≡ overwrite (position fs) (take n bytes) (content fs)
        → position end ≡ position fs + n
        → IsWrite bytes fs (done n, end)
    refused : (e : Errno) {end : F} → content end ≡ content fs → IsWrite bytes fs (failed e, end)

  pub record WritableFile : Type 0 where
    pub seeks : (offset : ℕ) (fs : F) → (os.lseek_set handle offset fs).0 ≡ done offset
    pub seeks_to : (offset : ℕ) (fs : F) → position (os.lseek_set handle offset fs).1 ≡ offset
    pub seeks_only : (offset : ℕ) (fs : F) → content (os.lseek_set handle offset fs).1 ≡ content fs
    pub writes :
        (b : ℕ) (bytes : Bytes) (fs : F)
        → IsWrite (b ∷ bytes) fs (os.write_fd handle (b ∷ bytes) fs)

module _ {F : Type 0} (os : Posix F) (handle : ℕ) (content : F → Bytes) (position : F → ℕ) where
  -- All the data are in the file behind the position, or an error and what comes before some byte.
  pub data IsStored (n : ℕ) (bytes : Bytes) (s : Handler F)
      : Result Ended × Handler F → Type 0 where
    complete :
        {end : Handler F}
        → end.port ≡ s.port
        → content end.fs ≡ overwrite (position s.fs) bytes (content s.fs)
        → IsStored n bytes s (ok (moved n), end)
    broken :
        (k : ℕ) (e : Errno) {end : Handler F}
        → end.port ≡ s.port
        → content end.fs ≡ overwrite (position s.fs) (take k bytes) (content s.fs)
        → IsStored n bytes s (ok (broke e), end)

  -- What the handler leaves: the data off the stream and in the file, and the status.
  pub data IsAnswered (offset : ℕ) (bytes more : Bytes) (s : Handler F)
      : Result Unit × Handler F → Type 0 where
    written :
        {end : Handler F}
        → end.port
          ≡ record s.port { input = more; pending = s.port.pending ++ (write_status success).bytes }
        → content end.fs ≡ overwrite offset bytes (content s.fs)
        → IsAnswered offset bytes more s (ok tt, end)
    not_written :
        (k : ℕ) (e : Errno) {end : Handler F}
        → end.port ≡ record s.port {
          input = more;
          pending = s.port.pending ++ (write_status (get_status_from_errno e)).bytes;
        }
        → content end.fs ≡ overwrite offset (take k bytes) (content s.fs)
        → IsAnswered offset bytes more s (ok tt, end)
