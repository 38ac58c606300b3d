-- ===== src/Session/Write.antt =====
-- A write to an open file, end to end.
use nandroidfs.Base.{take, ℕ, ◌≡◌, [], ◌∷◌, Bytes, length}
use nandroidfs.Session.Reply.{status_of}
use nandroidfs.Daemon.Posix.{Posix, Handler, Sys, done, failed, Errno}
use nandroidfs.Exec.{ok, Result}
use nandroidfs.Protocol.{status_byte}
use nandroidfs.Protocol.Requests.{WriteHandleInitArgs}
use nandroidfs.Daemon.Overwrite.{overwrite}
use nandroidfs.Connection

abbrev pub write_args : ℕ → ℕ → Bytes → WriteHandleInitArgs
write_args handle offset bytes = record {
  handle = handle;
  offset = offset;
  data_len = length bytes;
}

module _ {F : Type 0} (os : Posix F) (content : F → Bytes) (position : F → ℕ) where
  -- What the write came to, and the file then.
  pub data Outcome (offset : ℕ) (bytes : Bytes) (fs end : F) : Sys Unit → Type 0 where
    all_written :
        content end ≡ overwrite offset bytes (content fs) → Outcome offset bytes fs end (done tt)
    part_written :
        (k : ℕ) (e : Errno)
        → content end ≡ overwrite offset (take k bytes) (content fs)
        → Outcome offset bytes fs end (failed e)

  abbrev Replied : ℕ → Bytes → Bytes → F → Result Unit × Handler F → Type 0
  Replied offset bytes rw_buffer fs run =
      (r : Sys Unit) × (run.0 ≡ ok tt)
      × (run.1.port.sent ≡ status_byte (status_of r) ∷ [])
      × Outcome offset bytes fs run.1.fs r
