-- ===== src/Connection/Requests.antt =====
-- The requests of nandroidfs/Connection.cpp, but for the listing of a directory.
use nandroidfs.Base.{
  ltb, take, int_length, ℕ, Bool, Option, none, some, Bytes, if◌then◌else◌, drop, length, ◌-◌,
  bytes_eq, [], ◌∷◌,
}
use nandroidfs.Exec.{Exec, pure, ◌>>=◌, ◌>>◌}
use nandroidfs.Wire.{read_u32, read_exact, write_exact, write_u32, write_utf8_string}
use nandroidfs.Conversion.{Unicode, WideString, win32_path_to_unix}
use nandroidfs.Protocol.{
  RequestType, stat_file, create_directory, check_remove_file, check_remove_directory, remove_file,
  remove_directory, move_entry, open_handle, close_handle, read_handle, write_handle,
  truncate_handle, set_file_time, get_disk_stats, OpenMode, create_if_not_exist, create_or_truncate,
  create_always, ResponseStatus, success, generic_failure, file_not_found,
}
use nandroidfs.Protocol.Requests.{
  write_open_handle_args, write_read_handle_args, write_write_handle_init_args,
  write_move_entry_args, write_truncate_handle_args, write_set_file_time_args,
}
use nandroidfs.Protocol.Responses.{FileStat, DiskStats, read_file_stat, read_disk_stats}
use nandroidfs.Connection.{
  Client, receive, send, flush, receive_status, send_type, invalidate_stat, invalidate_parent_dir,
  lookup_stat, cache_stat,
}

-- "desktop.ini"
abbrev pub desktop_ini : Bytes
desktop_ini = b'd' ∷ b'e' ∷ b's' ∷ b'k' ∷ b't' ∷ b'o' ∷ b'p' ∷ b'.' ∷ b'i' ∷ b'n' ∷ b'i' ∷ []

-- `ends_with` of a string.
unfoldable pub has_suffix : Bytes → Bytes → Bool
has_suffix suffix path = bytes_eq (drop (length path - length suffix) path) suffix

-- The part that these requests share: the type, the path, and the status that comes back.
unfoldable pub request_of_path : RequestType → Bytes → Exec Client ResponseStatus
request_of_path t unix_path = do
  send_type t
  send (write_utf8_string unix_path)
  flush
  receive_status

-- What a change of an entry takes out of the caches.
unfoldable pub forget : Bytes → Exec Client Unit
forget unix_path = do invalidate_stat unix_path; invalidate_parent_dir unix_path

-- The modes that may have made a new entry.
unfoldable pub forget_parent_if_created : OpenMode → Bytes → Exec Client Unit
forget_parent_if_created create_always unix_path = invalidate_parent_dir unix_path
forget_parent_if_created create_if_not_exist unix_path = invalidate_parent_dir unix_path
forget_parent_if_created create_or_truncate unix_path = invalidate_parent_dir unix_path
forget_parent_if_created _ unix_path = pure tt

-- The handle that follows a success.
unfoldable pub receive_handle : ResponseStatus → Exec Client (Option ℕ)
receive_handle success = do handle ← receive read_u32; pure (some handle)
receive_handle _ = pure none

unfoldable pub open_file_of :
    Bytes → OpenMode → Bool → Bool → Exec Client (ResponseStatus × Option ℕ)
open_file_of unix_path mode read_access write_access = do
  send_type open_handle
  send (
      write_open_handle_args (record {
        path = unix_path;
        mode = mode;
        read_access = read_access;
        write_access = write_access;
      }))
  flush
  status ← receive_status
  handle ← receive_handle status
  forget_parent_if_created mode unix_path
  pure (status, handle)

module _ (unicode : Unicode) where
  unfoldable pub req_remove_file : WideString → Exec Client ResponseStatus
  req_remove_file path = do
    forget (win32_path_to_unix unicode path)
    request_of_path remove_file (win32_path_to_unix unicode path)

  unfoldable pub req_can_remove_file : WideString → Exec Client ResponseStatus
  req_can_remove_file path = request_of_path check_remove_file (win32_path_to_unix unicode path)

  unfoldable pub req_remove_directory : WideString → Exec Client ResponseStatus
  req_remove_directory path = do
    forget (win32_path_to_unix unicode path)
    request_of_path remove_directory (win32_path_to_unix unicode path)

  unfoldable pub req_can_remove_directory : WideString → Exec Client ResponseStatus
  req_can_remove_directory path =
      request_of_path check_remove_directory (win32_path_to_unix unicode path)

  unfoldable pub req_create_directory : WideString → Exec Client ResponseStatus
  req_create_directory path = do
    forget (win32_path_to_unix unicode path)
    request_of_path create_directory (win32_path_to_unix unicode path)

  unfoldable pub req_move_entry : WideString → WideString → Bool → Exec Client ResponseStatus
  req_move_entry from_path to_path replace_if_exists =
      let unix_from_path = win32_path_to_unix unicode from_path in
      let unix_to_path = win32_path_to_unix unicode to_path in
      do
        forget unix_from_path
        forget unix_to_path
        send_type move_entry
        send (
            write_move_entry_args (record {
              from_path = unix_from_path;
              to_path = unix_to_path;
              overwrite = replace_if_exists;
            }))
        flush
        receive_status

  -- The handle is the output parameter, if it is written.
  unfoldable pub req_open_file :
      WideString → OpenMode → Bool → Bool → Exec Client (ResponseStatus × Option ℕ)
  req_open_file path mode read_access write_access =
      if has_suffix desktop_ini (win32_path_to_unix unicode path)
      then pure (generic_failure, none)
      else open_file_of (win32_path_to_unix unicode path) mode read_access write_access

  unfoldable pub req_set_file_time : WideString → ℕ → ℕ → Exec Client ResponseStatus
  req_set_file_time path access_time write_time =
      let unix_path = win32_path_to_unix unicode path in
      do
        invalidate_stat unix_path
        send_type set_file_time
        send (
            write_set_file_time_args
              (record { path = unix_path; access_time = access_time; write_time = write_time }))
        flush
        receive_status

unfoldable pub req_close_file : ℕ → Exec Client ResponseStatus
req_close_file file_handle = do
  send_type close_handle
  send (write_u32 file_handle)
  flush
  receive_status

unfoldable pub req_write_to_file : ℕ → ℕ → Bytes → Exec Client ResponseStatus
req_write_to_file file_handle file_offset bytes = do
  send_type write_handle
  send (
      write_write_handle_init_args
        (record { handle = file_handle; offset = file_offset; data_len = length bytes }))
  send (write_exact (take (int_length (length bytes)) bytes))
  flush
  receive_status

-- The bytes that are read into the buffer of the caller; `none` is a write past its end.
unfoldable pub receive_into : ℕ → ℕ → Exec Client (Option Bytes)
receive_into buffer_len bytes_read =
    if ltb buffer_len (int_length bytes_read)
    then pure none
    else (receive (read_exact (int_length bytes_read)) >>= λ bytes. pure (some bytes))

-- The bytes that follow a success: their number, and then they themselves.
unfoldable pub receive_data : ℕ → ResponseStatus → Exec Client (Option Bytes)
receive_data buffer_len success = do
  bytes_read ← receive read_u32
  receive_into buffer_len bytes_read
receive_data buffer_len _ = pure (some [])

unfoldable pub req_read_from_file : ℕ → ℕ → ℕ → Exec Client (ResponseStatus × Option Bytes)
req_read_from_file file_handle file_offset buffer_len = do
  send_type read_handle
  send (
      write_read_handle_args
        (record { handle = file_handle; data_len = buffer_len; offset = file_offset }))
  flush
  status ← receive_status
  bytes ← receive_data buffer_len status
  pure (status, bytes)

unfoldable pub req_set_file_len : ℕ → ℕ → Exec Client ResponseStatus
req_set_file_len file_handle file_len = do
  send_type truncate_handle
  send (write_truncate_handle_args (record { handle = file_handle; new_length = file_len }))
  flush
  receive_status

unfoldable pub receive_disk_stats : ResponseStatus → Exec Client (Option DiskStats)
receive_disk_stats success = do stats ← receive read_disk_stats; pure (some stats)
receive_disk_stats _ = pure none

unfoldable pub req_get_disk_stats : Exec Client (ResponseStatus × Option DiskStats)
req_get_disk_stats = do
  send_type get_disk_stats
  flush
  status ← receive_status
  stats ← receive_disk_stats status
  pure (status, stats)

module _ (steady : ℕ → ℕ) where
  -- The stat that follows a success is cached.
  unfoldable pub receive_stat :
      Bytes → ResponseStatus → Exec Client (ResponseStatus × Option FileStat)
  receive_stat unix_path success = do
    stat ← receive read_file_stat
    cache_stat steady unix_path stat
    pure (success, some stat)
  receive_stat unix_path status = pure (status, none)

  unfoldable pub stat_remote : Bytes → Exec Client (ResponseStatus × Option FileStat)
  stat_remote unix_path = do
    status ← request_of_path stat_file unix_path
    receive_stat unix_path status

  -- Behind the second look into the cache.
  unfoldable pub stat_uncached :
      Bytes → Option FileStat → Exec Client (ResponseStatus × Option FileStat)
  stat_uncached unix_path (some stat) = pure (success, some stat)
  stat_uncached unix_path none =
      if has_suffix desktop_ini unix_path
      then pure (file_not_found, none)
      else stat_remote unix_path

  -- Behind the first, which is made without the lock.
  unfoldable pub stat_locked :
      Bytes → Option FileStat → Exec Client (ResponseStatus × Option FileStat)
  stat_locked unix_path (some stat) = pure (success, some stat)
  stat_locked unix_path none = do
    cached_stat ← lookup_stat steady unix_path
    stat_uncached unix_path cached_stat

  module _ (unicode : Unicode) where
    unfoldable pub req_stat_file : WideString → Exec Client (ResponseStatus × Option FileStat)
    req_stat_file path = do
      cached_stat ← lookup_stat steady (win32_path_to_unix unicode path)
      stat_locked (win32_path_to_unix unicode path) cached_stat
