-- ===== src/Daemon/Transfer.antt =====
-- Reading and writing an open file: handle_read_file and handle_write_file of
-- nandroid_daemon/src/ClientHandler.cpp. The counters are `int` there: past its largest value they
-- index outside the buffer.
use nandroidfs.Daemon.Posix.{
  slice, Errno, Sys, failed, done, Posix, get_status_from_errno, Handler, receive, respond, call,
  ensure_rw_buffer_size, store,
}
use nandroidfs.Base.{
  ℕ, zero, suc, ◌+◌, ◌-◌, ◌^◌, int_length, [], ◌∷◌, Bytes, length, ltb, if◌then◌else◌,
}
use nandroidfs.Exec.{Exec, stuck, undefined, pure, throw, ◌>>=◌, ◌>>◌}
use nandroidfs.Wire.{read_exact, write_exact, write_u32}
use nandroidfs.Protocol.{success}
use nandroidfs.Protocol.Requests.{ReadHandleArgs, WriteHandleInitArgs}
use nandroidfs.Daemon.Convert.{write_status}

-- How a loop of system calls ended: by an error, or with the bytes that it has moved.
pub data Ended : Type 0 where
  broke : Errno → Ended
  moved : ℕ → Ended

module _ {F : Type 0} (os : Posix F) where
  -- One round: a chunk is put behind the last one; an empty one is the end of the file.
  unfoldable pub read_round : (ℕ → Exec (Handler F) Ended) → ℕ → Sys Bytes → Exec (Handler F) Ended
  read_round next total_read (failed e) = pure (broke e)
  read_round next total_read (done []) = pure (moved total_read)
  read_round next total_read (done (b ∷ chunk)) = do
    store total_read (b ∷ chunk)
    next (total_read + length (b ∷ chunk))

  -- `&rw_buffer[total]`, with a count that is an `int`.
  abbrev pub at_index : ℕ → Exec (Handler F) Ended → Exec (Handler F) Ended
  at_index total round = if ltb total (2 ^ 31) then round else throw undefined

  unfoldable pub read_loop : ℕ → ℕ → ℕ → ℕ → Exec (Handler F) Ended
  read_loop zero handle data_len total_read =
      if ltb total_read data_len then throw stuck else pure (moved total_read)
  read_loop (suc fuel) handle data_len total_read =
      let next = read_loop fuel handle data_len in
      if ltb total_read data_len
      then at_index total_read (do
        read_result ← call (os.read_fd handle (data_len - total_read))
        read_round next total_read read_result)
      else pure (moved total_read)

  unfoldable pub answer_read : Ended → Exec (Handler F) Unit
  answer_read (broke e) = respond (write_status (get_status_from_errno e))
  answer_read (moved total_read) = do
    respond (write_status success)
    respond (write_u32 total_read)
    bytes ← slice 0 (int_length total_read)
    respond (write_exact bytes)

  unfoldable pub read_sought : ReadHandleArgs → Sys ℕ → Exec (Handler F) Unit
  read_sought args (failed e) = respond (write_status (get_status_from_errno e))
  read_sought args (done offset) = do
    ensure_rw_buffer_size args.data_len
    ended ← read_loop args.data_len args.handle args.data_len 0
    answer_read ended

  unfoldable pub act_read_file : ReadHandleArgs → Exec (Handler F) Unit
  act_read_file args = do
    sought ← call (os.lseek_set args.handle args.offset)
    read_sought args sought

  unfoldable pub write_round : (ℕ → Exec (Handler F) Ended) → ℕ → Sys ℕ → Exec (Handler F) Ended
  write_round next total_written (failed e) = pure (broke e)
  write_round next total_written (done n) = next (total_written + n)

  unfoldable pub write_loop : ℕ → ℕ → ℕ → ℕ → Exec (Handler F) Ended
  write_loop zero handle data_len total_written =
      if ltb total_written data_len then throw stuck else pure (moved total_written)
  write_loop (suc fuel) handle data_len total_written =
      let next = write_loop fuel handle data_len in
      if ltb total_written data_len
      then at_index total_written (do
        bytes ← slice total_written (data_len - total_written)
        write_result ← call (os.write_fd handle bytes)
        write_round next total_written write_result)
      else pure (moved total_written)

  unfoldable pub answer_write : Ended → Exec (Handler F) Unit
  answer_write (broke e) = respond (write_status (get_status_from_errno e))
  answer_write (moved total_written) = respond (write_status success)

  -- The buffer holds the data from its start.
  unfoldable pub write_data : WriteHandleInitArgs → Bytes → Exec (Handler F) Unit
  write_data args bytes = do
    store 0 bytes
    ended ← write_loop args.data_len args.handle args.data_len 0
    answer_write ended

  -- When the seek fails, the data stay on the stream.
  unfoldable pub write_sought : WriteHandleInitArgs → Sys ℕ → Exec (Handler F) Unit
  write_sought args (failed e) = respond (write_status (get_status_from_errno e))
  write_sought args (done offset) = do
    ensure_rw_buffer_size args.data_len
    bytes ← receive (read_exact (int_length args.data_len))
    write_data args bytes

  unfoldable pub act_write_file : WriteHandleInitArgs → Exec (Handler F) Unit
  act_write_file args = do
    sought ← call (os.lseek_set args.handle args.offset)
    write_sought args sought
