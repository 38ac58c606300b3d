-- ===== src/Daemon/Messages.antt =====
-- ClientHandler::handle_messages: one request after the other until the client is gone.
use nandroidfs.Base.{ℕ, zero, suc}
use nandroidfs.Exec.{Exec, Result, ok, raise, eof, stuck, runtime, throw, pure, ◌>>=◌, ◌>>◌}
use nandroidfs.Wire.{read_byte, read_u32, read_utf8_string}
use nandroidfs.Protocol.{
  RequestType, request_type, stat_file, list_directory, create_directory, check_remove_file,
  check_remove_directory, remove_file, remove_directory, move_entry, open_handle, close_handle,
  read_handle, write_handle, truncate_handle, set_file_time, get_disk_stats,
}
use nandroidfs.Protocol.Requests.{
  read_open_handle_args, read_read_handle_args, read_write_handle_init_args, read_move_entry_args,
  read_truncate_handle_args, read_set_file_time_args,
}
use nandroidfs.Daemon.Posix.{Posix, Handler, receive, flush}
use nandroidfs.Daemon.Handlers.{
  act_stat, act_list, act_move, act_remove_file, act_remove_directory, act_create_directory,
  act_open_handle, act_close_handle, act_truncate, act_set_file_time, act_get_disk_stats,
  act_check_remove_file, act_check_remove_directory,
}
use nandroidfs.Daemon.Transfer.{act_read_file, act_write_file}

module _ {F : Type 0} (os : Posix F) where
  -- The switch on the request's type; each case reads its arguments first.
  unfoldable pub dispatch : RequestType → Exec (Handler F) Unit
  dispatch stat_file = do path ← receive read_utf8_string; act_stat os path
  dispatch list_directory = do path ← receive read_utf8_string; act_list os path
  dispatch move_entry = do args ← receive read_move_entry_args; act_move os args
  dispatch remove_file = do path ← receive read_utf8_string; act_remove_file os path
  dispatch remove_directory = do path ← receive read_utf8_string; act_remove_directory os path
  dispatch create_directory = do path ← receive read_utf8_string; act_create_directory os path
  dispatch open_handle = do args ← receive read_open_handle_args; act_open_handle os args
  dispatch read_handle = do args ← receive read_read_handle_args; act_read_file os args
  dispatch write_handle = do args ← receive read_write_handle_init_args; act_write_file os args
  dispatch close_handle = do handle ← receive read_u32; act_close_handle os handle
  dispatch truncate_handle = do args ← receive read_truncate_handle_args; act_truncate os args
  dispatch set_file_time = do args ← receive read_set_file_time_args; act_set_file_time os args
  dispatch get_disk_stats = act_get_disk_stats os
  dispatch check_remove_file = do path ← receive read_utf8_string; act_check_remove_file os path
  dispatch check_remove_directory = do
    path ← receive read_utf8_string
    act_check_remove_directory os path
  dispatch (RequestType.unknown b) = throw runtime

  -- The body of the loop behind the read of the type.
  unfoldable pub handle_message : ℕ → Exec (Handler F) Unit
  handle_message req_type = do dispatch (request_type req_type); flush

  -- Only an end of the stream in front of a request ends the loop in peace.
  abbrev pub next_message : Exec (Handler F) Unit → Result ℕ → Exec (Handler F) Unit
  next_message more (raise eof) = pure tt
  next_message more (raise e) = throw e
  next_message more (ok req_type) = do handle_message req_type; more

  -- `while(true)` on fuel.
  unfoldable pub handle_messages : ℕ → Exec (Handler F) Unit
  handle_messages zero s = (raise stuck, s)
  handle_messages (suc fuel) s =
      let more = handle_messages fuel in
      let read = receive read_byte s in next_message more read.0 read.1
