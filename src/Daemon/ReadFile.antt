-- ===== src/Daemon/ReadFile.antt =====
-- A read of an open file gives all the bytes that there are, whatever chunks `read` gives them in.
use nandroidfs.Base.{ℕ, ◌≤◌, ◌<◌, ◌≡◌, [], ◌++◌, Bytes, length, take, drop}
use nandroidfs.Exec.{Exec, Result, ok, Port}
use nandroidfs.Daemon.Posix.{Posix, Handler, done}
use nandroidfs.Daemon.Transfer.{Ended, moved}
use nandroidfs.Protocol.Requests.{ReadHandleArgs}

-- What POSIX says of `lseek` and `read` on a regular file that is open for reading: a read gives
-- some of the bytes from the descriptor's position on, at most as many as asked for, and none only
-- at the end of the file.
pub record RegularFile {F : Type 0} (os : Posix F) (handle : ℕ) : Type 0 where
  pub content : F → Bytes
  pub position : F → ℕ
  pub chunk : ℕ → F → Bytes
  pub seeks : (offset : ℕ) (fs : F) → (os.lseek_set handle offset fs).0 ≡ done offset
  pub seeks_to : (offset : ℕ) (fs : F) → position (os.lseek_set handle offset fs).1 ≡ offset
  pub seeks_only : (offset : ℕ) (fs : F) → content (os.lseek_set handle offset fs).1 ≡ content fs
  pub reads : (n : ℕ) (fs : F) → (os.read_fd handle n fs).0 ≡ done (chunk n fs)
  pub reads_next :
      (n : ℕ) (fs : F)
      → chunk n fs
          ++ drop (position (os.read_fd handle n fs).1) (content (os.read_fd handle n fs).1)
        ≡ drop (position fs) (content fs)
  pub at_most : (n : ℕ) (fs : F) → length (chunk n fs) ≤ n
  pub at_end : (n : ℕ) (fs : F) → 0 < n → chunk n fs ≡ [] → drop (position fs) (content fs) ≡ []

-- The loop ended with the first `n` of the bytes at the start of the buffer.
pub record Loaded {F : Type 0} (n : ℕ) (bytes : Bytes) (port : Port)
    (out : Result Ended × Handler F) : Type 0 where
  pub final : Handler F
  pub runs : out ≡ (ok (moved (length (take n bytes))), final)
  pub loaded : take (length (take n bytes)) final.rw_buffer ≡ take n bytes
  pub same_port : final.port ≡ port

module _ {F : Type 0} (os : Posix F) (handle : ℕ) (file : RegularFile os handle) where
  -- The bytes from the descriptor's position on.
  abbrev ahead : F → Bytes
  ahead fs = drop (file.position fs) (file.content fs)

-- The bytes of the file that a request asks for: those from the offset on, up to its length.
abbrev pub asked_for :
    {F : Type 0} {os : Posix F} (args : ReadHandleArgs) → RegularFile os args.handle → F → Bytes
asked_for args file fs = take args.data_len (drop args.offset (file.content fs))
