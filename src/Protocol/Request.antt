-- ===== src/Protocol/Request.antt =====
-- A request as a value, and the bytes that stand for it: the type's byte and then its body
-- (nandroid_shared/requests.hpp). `Connection` sends these bytes and `Daemon` serves them.
use nandroidfs.Base.{ℕ, ◌^◌, ◌≡◌, ◌<◌, [], Bytes, length}
use nandroidfs.Wire.{Put, ◌⨾◌, write_exact, write_byte, write_u32, write_utf8_string}
use nandroidfs.Protocol.{
  RequestType, request_byte, stat_file, list_directory, create_directory, check_remove_file,
  check_remove_directory, remove_file, remove_directory, move_entry, open_handle, close_handle,
  read_handle, write_handle, truncate_handle, set_file_time, get_disk_stats,
}
use nandroidfs.Protocol.Requests.{
  OpenHandleArgs, write_open_handle_args, ReadHandleArgs, write_read_handle_args,
  WriteHandleInitArgs, write_write_handle_init_args, MoveEntryArgs, write_move_entry_args,
  TruncateHandleArgs, write_truncate_handle_args, SetFileTimeArgs, write_set_file_time_args,
}
use nandroidfs.Protocol.RoundTrip.{
  IsPath, IsMode, FitsRead, FitsWrite, FitsMove, FitsTruncate, FitsTime,
}

pub data Request : Type 0 where
  stat_of : Bytes → Request
  list_of : Bytes → Request
  create_dir : Bytes → Request
  can_remove_file : Bytes → Request
  can_remove_dir : Bytes → Request
  delete_file : Bytes → Request
  delete_dir : Bytes → Request
  move : MoveEntryArgs → Request
  open_file : OpenHandleArgs → Request
  close_file : ℕ → Request
  read_file : ReadHandleArgs → Request
  write_file : WriteHandleInitArgs → Bytes → Request
  resize_file : TruncateHandleArgs → Request
  set_times : SetFileTimeArgs → Request
  disk_stats : Request

abbrev pub tag : Request → RequestType
tag (stat_of path) = stat_file
tag (list_of path) = list_directory
tag (create_dir path) = create_directory
tag (can_remove_file path) = check_remove_file
tag (can_remove_dir path) = check_remove_directory
tag (delete_file path) = remove_file
tag (delete_dir path) = remove_directory
tag (move args) = move_entry
tag (open_file args) = open_handle
tag (close_file handle) = close_handle
tag (read_file args) = read_handle
tag (write_file args data') = write_handle
tag (resize_file args) = truncate_handle
tag (set_times args) = set_file_time
tag disk_stats = get_disk_stats

abbrev pub body : Request → Put
body (stat_of path) = write_utf8_string path
body (list_of path) = write_utf8_string path
body (create_dir path) = write_utf8_string path
body (can_remove_file path) = write_utf8_string path
body (can_remove_dir path) = write_utf8_string path
body (delete_file path) = write_utf8_string path
body (delete_dir path) = write_utf8_string path
body (move args) = write_move_entry_args args
body (open_file args) = write_open_handle_args args
body (close_file handle) = write_u32 handle
body (read_file args) = write_read_handle_args args
body (write_file args data') = write_write_handle_init_args args ⨾ write_exact data'
body (resize_file args) = write_truncate_handle_args args
body (set_times args) = write_set_file_time_args args
body disk_stats = write_exact []

unfoldable pub encode : Request → Put
encode r = write_byte (request_byte (tag r)) ⨾ body r

-- Every field fits its place on the wire, lengths of data fit an `int`, and the data of a write are
-- as many as it says.
abbrev pub Fits : Request → Type 0
Fits (stat_of path) = IsPath path
Fits (list_of path) = IsPath path
Fits (create_dir path) = IsPath path
Fits (can_remove_file path) = IsPath path
Fits (can_remove_dir path) = IsPath path
Fits (delete_file path) = IsPath path
Fits (delete_dir path) = IsPath path
Fits (move args) = FitsMove args
Fits (open_file args) = IsPath args.path × IsMode args.mode
Fits (close_file handle) = handle < 2 ^ 32
Fits (read_file args) = FitsRead args × (args.data_len < 2 ^ 31)
Fits (write_file args data') =
    FitsWrite args × (length data' ≡ args.data_len) × (args.data_len < 2 ^ 31)
Fits (resize_file args) = FitsTruncate args
Fits (set_times args) = FitsTime args
Fits disk_stats = Unit
