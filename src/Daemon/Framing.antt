-- ===== src/Daemon/Framing.antt =====
-- One request on the stream is one request served: the daemon takes the bytes of the request,
-- no more and no fewer, and does what the request says.
use nandroidfs.Base.{
  int_length_lem, int_length, ◌^◌, ◌<◌, true, ℕ, suc, ◌≡◌, refl, ◌∙◌, some, [], ◌++◌, Bytes, length,
  append_assoc,
}
use nandroidfs.Wire.{
  write_u64, Get, read_byte, read_u32, read_utf8_string, read_exact, write_byte, write_u32,
  write_utf8_string,
}
use nandroidfs.Protocol.RoundTrip.{
  FitsWrite, IsPath, read-write_open_handle_args, read-write_read_handle_args,
  read-write_write_handle_init_args, read-write_move_entry_args, read-write_truncate_handle_args,
  read-write_set_file_time_args,
}
use nandroidfs.Exec.{Exec, ok, ◌>>=◌, ◌>>◌, continue, read_with}
use nandroidfs.Wire.RoundTrip.{
  read_byte_lem, read_u32_lem, read_utf8_string_lem, write_utf8_string_lem, read_exact-append,
}
use nandroidfs.Protocol.{request_type, request_byte}
use nandroidfs.Protocol.Requests.{
  WriteHandleInitArgs, read_open_handle_args, read_read_handle_args, read_write_handle_init_args,
  write_write_handle_init_args, read_move_entry_args, read_truncate_handle_args,
  read_set_file_time_args,
}
use nandroidfs.Protocol.Request.{
  Request, stat_of, list_of, create_dir, can_remove_file, can_remove_dir, delete_file, delete_dir,
  move, open_file, close_file, read_file, write_file, resize_file, set_times, disk_stats, tag, body,
  encode, Fits,
}
use nandroidfs.Daemon.Posix.{
  Sys, failed, done, Posix, get_status_from_errno, Handler, with_input, receive, respond, call,
  flush, ensure_rw_buffer_size,
}
use nandroidfs.Daemon.Convert.{write_status}
use nandroidfs.Daemon.Handlers.{
  act_stat, act_list, act_move, act_remove_file, act_remove_directory, act_create_directory,
  act_open_handle, act_close_handle, act_truncate, act_set_file_time, act_get_disk_stats,
  act_check_remove_file, act_check_remove_directory,
}
use nandroidfs.Daemon.Transfer.{act_read_file, act_write_file, write_data, write_sought}
use nandroidfs.Daemon.Messages.{dispatch, handle_message, handle_messages, next_message}

module _ {F : Type 0} where
  pub receive-bind :
      {A B : Type 0} (get : Get A) (f : A → Exec (Handler F) B) (s : Handler F) (input : Bytes)
      (a : A) (rest : Bytes)
      → get input ≡ some (a, rest)
      → (receive get >>= f) (with_input input s) ≡ f a (with_input rest s)
  unfolding receive
  receive-bind get f s input a rest e = rw (e, read_with)

pub fits-write : (args : WriteHandleInitArgs) → (write_write_handle_init_args args).fits ≡ true
unfolding write_write_handle_init_args write_u32 write_u64
fits-write args = refl

tag_byte : (r : Request) → request_type (request_byte (tag r)) ≡ tag r
tag_byte (stat_of path) = refl
tag_byte disk_stats = refl
tag_byte _ = refl

module _ {F : Type 0} (os : Posix F) where
  abbrev pub perform_write : WriteHandleInitArgs → Bytes → Sys ℕ → Exec (Handler F) Unit
  perform_write args bytes (failed e) = respond (write_status (get_status_from_errno e))
  perform_write args bytes (done offset) = do
    ensure_rw_buffer_size args.data_len
    write_data os args bytes

  -- What a request asks for, with its arguments at hand.
  abbrev pub perform : Request → Exec (Handler F) Unit
  perform (stat_of path) = act_stat os path
  perform (list_of path) = act_list os path
  perform (create_dir path) = act_create_directory os path
  perform (can_remove_file path) = act_check_remove_file os path
  perform (can_remove_dir path) = act_check_remove_directory os path
  perform (delete_file path) = act_remove_file os path
  perform (delete_dir path) = act_remove_directory os path
  perform (move args) = act_move os args
  perform (open_file args) = act_open_handle os args
  perform (close_file handle) = act_close_handle os handle
  perform (read_file args) = act_read_file os args
  perform (write_file args bytes) = do
    sought ← call (os.lseek_set args.handle args.offset)
    perform_write args bytes sought
  perform (resize_file args) = act_truncate os args
  perform (set_times args) = act_set_file_time os args
  perform disk_stats = act_get_disk_stats os

  -- A write's seek succeeds.
  abbrev pub Seeks : Request → F → Type 0
  Seeks (write_file args bytes) fs =
      (offset : ℕ) × ((os.lseek_set args.handle args.offset fs).0 ≡ done offset)
  Seeks _ fs = Unit

  path_request :
      (act : Bytes → Exec (Handler F) Unit) (path rest : Bytes) (s : Handler F)
      → IsPath path
      → (receive read_utf8_string >>= act) (with_input ((write_utf8_string path).bytes ++ rest) s)
        ≡ act path (with_input rest s)
  path_request act path rest s h =
      rw (write_utf8_string_lem path h)
        (receive-bind read_utf8_string act s _ path rest (read_utf8_string_lem path rest h))

  write_request :
      (args : WriteHandleInitArgs) (bytes rest : Bytes) (s : Handler F) (offset : ℕ)
      → FitsWrite args
      → length bytes ≡ args.data_len
      → args.data_len < 2 ^ 31
      → (os.lseek_set args.handle args.offset s.fs).0 ≡ done offset
      → act_write_file os args (with_input (bytes ++ rest) s)
        ≡ (call (os.lseek_set args.handle args.offset) >>= perform_write args bytes)
            (with_input rest s)
  unfolding act_write_file write_sought call ensure_rw_buffer_size
  write_request args bytes rest s offset h n small k =
      rw (k, continue, write_sought, perform_write)
        (receive-bind (read_exact (int_length args.data_len)) (write_data os args)
          (ensure_rw_buffer_size args.data_len (call (os.lseek_set args.handle args.offset) s).1).1
          _ bytes rest
          (rw (int_length_lem args.data_len small, ← n) (read_exact-append bytes rest)))

  pub dispatch-body :
      (r : Request) (rest : Bytes) (s : Handler F)
      → Fits r
      → Seeks r s.fs
      → dispatch os (tag r) (with_input ((body r).bytes ++ rest) s) ≡ perform r (with_input rest s)
  unfolding dispatch
  dispatch-body (stat_of path) rest s h k = path_request (act_stat os) path rest s h
  dispatch-body (list_of path) rest s h k = path_request (act_list os) path rest s h
  dispatch-body (create_dir path) rest s h k = path_request (act_create_directory os) path rest s h
  dispatch-body (can_remove_file path) rest s h k =
      path_request (act_check_remove_file os) path rest s h
  dispatch-body (can_remove_dir path) rest s h k =
      path_request (act_check_remove_directory os) path rest s h
  dispatch-body (delete_file path) rest s h k = path_request (act_remove_file os) path rest s h
  dispatch-body (delete_dir path) rest s h k = path_request (act_remove_directory os) path rest s h
  dispatch-body (move args) rest s h k =
      receive-bind read_move_entry_args (act_move os) s _ args rest
        (read-write_move_entry_args args rest h)
  dispatch-body (open_file args) rest s h k =
      receive-bind read_open_handle_args (act_open_handle os) s _ args rest
        (read-write_open_handle_args args rest h.0 h.1)
  dispatch-body (close_file handle) rest s h k =
      receive-bind read_u32 (act_close_handle os) s _ handle rest
        (unfold write_u32 in read_u32_lem handle rest h)
  dispatch-body (read_file args) rest s h k =
      receive-bind read_read_handle_args (act_read_file os) s _ args rest
        (read-write_read_handle_args args rest h.0)
  dispatch-body (write_file args bytes) rest s h k =
      rw (fits-write args, append_assoc)
        (receive-bind read_write_handle_init_args (act_write_file os) s _ args (bytes ++ rest)
            (read-write_write_handle_init_args args (bytes ++ rest) h.0)
          ∙ write_request args bytes rest s k.0 h.0 h.1 h.2 k.1)
  dispatch-body (resize_file args) rest s h k =
      receive-bind read_truncate_handle_args (act_truncate os) s _ args rest
        (read-write_truncate_handle_args args rest h)
  dispatch-body (set_times args) rest s h k =
      receive-bind read_set_file_time_args (act_set_file_time os) s _ args rest
        (read-write_set_file_time_args args rest h)
  dispatch-body disk_stats rest s h k = refl

  -- One turn of the daemon's loop on the bytes of a request performs that request, flushes the
  -- response and goes on with the bytes that follow.
  pub handle_messages-encode :
      (r : Request) (rest : Bytes) (fuel : ℕ) (s : Handler F)
      → Fits r
      → Seeks r s.fs
      → handle_messages os (suc fuel) (with_input ((encode r).bytes ++ rest) s)
        ≡ ((perform r >> flush) >>= λ _. handle_messages os fuel) (with_input rest s)
  unfolding handle_messages handle_message encode write_byte receive
  handle_messages-encode r rest fuel s h k =
      rw (read_byte_lem, read_with, next_message, tag_byte r, dispatch-body r rest s h k)

  -- A stream that ends in front of a request ends the loop without an error.
  pub handle_messages_end :
      (fuel : ℕ) (s : Handler F)
      → handle_messages os (suc fuel) (with_input [] s) ≡ (ok tt, with_input [] s)
  unfolding handle_messages receive read_byte read_exact
  handle_messages_end fuel s = refl
