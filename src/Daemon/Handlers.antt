-- ===== src/Daemon/Handlers.antt =====
-- The handlers of nandroid_daemon/src/ClientHandler.cpp. Each reads its arguments off the stream
-- and hands them to a function that does the rest of its body.
use nandroidfs.Base.{ℕ, not, ◌&&◌, Option, none, some, List, [], ◌∷◌, Bytes, if◌then◌else◌}
use nandroidfs.Exec.{Exec, pure, ◌>>=◌, ◌>>◌}
use nandroidfs.Wire.{write_u32, write_utf8_string}
use nandroidfs.Path.{get_full_path, get_parent_path}
use nandroidfs.Protocol.{
  ResponseStatus, success, generic_failure, access_denied, file_exists, directory_not_empty,
  no_more_entries, is_success,
}
use nandroidfs.Protocol.Requests.{
  OpenHandleArgs, MoveEntryArgs, TruncateHandleArgs, SetFileTimeArgs,
}
use nandroidfs.Protocol.Responses.{write_file_stat, write_disk_stats}
use nandroidfs.Daemon.Convert.{
  default_file_mode, default_directory_mode, free_space_fs_path, write_status, to_file_stat,
  to_disk_stats, creation_flags, get_timspec_from_timestamp, has_entry,
}
use nandroidfs.Daemon.Posix.{
  enoent, Sys, failed, done, PosixStat, Statvfs, Dir, Posix, get_status_from_errno, Handler,
  respond, call,
}

module _ {F : Type 0} (os : Posix F) where
  -- "-1: send the status of errno; otherwise Success".
  unfoldable pub answer : {A : Type 0} → Sys A → Exec (Handler F) Unit
  answer (failed e) = respond (write_status (get_status_from_errno e))
  answer (done a) = respond (write_status success)

  unfoldable pub answer_stat : Sys PosixStat → Exec (Handler F) Unit
  answer_stat (failed e) = respond (write_status (get_status_from_errno e))
  answer_stat (done st) = do
    respond (write_status success)
    respond (write_file_stat (to_file_stat st))

  unfoldable pub act_stat : Bytes → Exec (Handler F) Unit
  act_stat path = do st ← call (os.stat path); answer_stat st

  unfoldable pub answer_entry : Bytes → Sys PosixStat → Exec (Handler F) Unit
  answer_entry name (failed e) = respond (write_status (get_status_from_errno e))
  answer_entry name (done st) = do
    respond (write_status success)
    respond (write_utf8_string name)
    respond (write_file_stat (to_file_stat st))

  unfoldable pub list_entries : Bytes → List Bytes → Exec (Handler F) Unit
  list_entries directory_path [] = pure tt
  list_entries directory_path (name ∷ names) = do
    st ← call (os.stat (get_full_path directory_path name))
    answer_entry name st
    list_entries directory_path names

  unfoldable pub answer_list : Bytes → Sys Dir → Exec (Handler F) Unit
  answer_list directory_path (failed e) = respond (write_status (get_status_from_errno e))
  answer_list directory_path (done dir) = do
    respond (write_status success)
    list_entries directory_path dir.names
    respond (write_status no_more_entries)
    call (λ fs. (tt, os.closedir dir.stream fs))

  unfoldable pub act_list : Bytes → Exec (Handler F) Unit
  act_list path = do dir ← call (os.opendir path); answer_list path dir

  abbrev rename_entry : MoveEntryArgs → Exec (Handler F) Unit
  rename_entry args = do r ← call (os.rename args.from_path args.to_path); answer r

  -- Only a missing destination, or leave to overwrite it, lets the rename go on.
  unfoldable pub move_if : MoveEntryArgs → Sys PosixStat → Exec (Handler F) Unit
  move_if args (failed enoent) = rename_entry args
  move_if args (failed e) = respond (write_status (get_status_from_errno e))
  move_if args (done st) =
      if not args.overwrite then respond (write_status file_exists) else rename_entry args

  unfoldable pub act_move : MoveEntryArgs → Exec (Handler F) Unit
  act_move args = do st ← call (os.stat args.to_path); move_if args st

  unfoldable pub act_remove_file : Bytes → Exec (Handler F) Unit
  act_remove_file path = do r ← call (os.unlink path); answer r

  unfoldable pub act_remove_directory : Bytes → Exec (Handler F) Unit
  act_remove_directory path = do r ← call (os.rmdir path); answer r

  unfoldable pub act_create_directory : Bytes → Exec (Handler F) Unit
  act_create_directory path = do r ← call (os.mkdir path default_directory_mode); answer r

  unfoldable pub answer_open : Sys ℕ → Exec (Handler F) Unit
  answer_open (failed e) = respond (write_status (get_status_from_errno e))
  answer_open (done fd) = do respond (write_status success); respond (write_u32 fd)

  unfoldable pub act_open_handle : OpenHandleArgs → Exec (Handler F) Unit
  act_open_handle args =
      if not args.read_access && not args.write_access
      then respond (write_status generic_failure)
      else do
        fd ← call (os.open_fd args.path (creation_flags args) default_file_mode)
        answer_open fd

  unfoldable pub act_close_handle : ℕ → Exec (Handler F) Unit
  act_close_handle handle = do call (os.close_fd handle); respond (write_status success)

  unfoldable pub act_truncate : TruncateHandleArgs → Exec (Handler F) Unit
  act_truncate args = do r ← call (os.ftruncate args.handle args.new_length); answer r

  unfoldable pub act_set_file_time : SetFileTimeArgs → Exec (Handler F) Unit
  act_set_file_time args = do
    r ← call (
        os.utimensat args.path (get_timspec_from_timestamp args.access_time)
          (get_timspec_from_timestamp args.write_time))
    answer r

  unfoldable pub answer_disk_stats : Sys Statvfs → Exec (Handler F) Unit
  answer_disk_stats (failed e) = respond (write_status (get_status_from_errno e))
  answer_disk_stats (done v) = do
    respond (write_status success)
    respond (write_disk_stats (to_disk_stats v))

  unfoldable pub act_get_disk_stats : Exec (Handler F) Unit
  act_get_disk_stats = do v ← call (os.statvfs free_space_fs_path); answer_disk_stats v

  abbrev access_status : Sys Unit → ResponseStatus
  access_status (failed e) = get_status_from_errno e
  access_status (done a) = success

  unfoldable pub check_parent : Option Bytes → Exec (Handler F) ResponseStatus
  check_parent none = pure access_denied
  check_parent (some parent) = do r ← call (os.access_rwx parent); pure (access_status r)

  unfoldable pub can_remove_directory_entry : Bytes → Exec (Handler F) ResponseStatus
  can_remove_directory_entry path = check_parent (get_parent_path path)

  unfoldable pub act_check_remove_file : Bytes → Exec (Handler F) Unit
  act_check_remove_file path = do
    status ← can_remove_directory_entry path
    respond (write_status status)

  unfoldable pub answer_emptiness : Sys Dir → Exec (Handler F) Unit
  answer_emptiness (failed e) = respond (write_status (get_status_from_errno e))
  answer_emptiness (done dir) = do
    call (λ fs. (tt, os.closedir dir.stream fs))
    respond (write_status (if has_entry dir.names then directory_not_empty else success))

  abbrev check_empty : Bytes → ResponseStatus → Exec (Handler F) Unit
  check_empty path status =
      if not (is_success status)
      then respond (write_status status)
      else do dir ← call (os.opendir path); answer_emptiness dir

  unfoldable pub act_check_remove_directory : Bytes → Exec (Handler F) Unit
  act_check_remove_directory path = do
    status ← can_remove_directory_entry path
    check_empty path status
