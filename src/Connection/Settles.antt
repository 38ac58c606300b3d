-- ===== src/Connection/Settles.antt =====
-- No request of nandroidfs/Connection.cpp runs out of fuel: what it throws is an exception of the
-- program. One rule for each thing that a request does, and one lemma for each request.
use nandroidfs.Connection.Requests.{
  receive_into, req_remove_file, req_can_remove_file, req_remove_directory,
  req_can_remove_directory, req_create_directory, req_move_entry, req_open_file, req_set_file_time,
  receive_stat, stat_remote, stat_uncached, stat_locked, req_stat_file, forget, request_of_path,
  forget_parent_if_created, receive_handle, receive_data, receive_disk_stats, open_file_of,
  req_close_file, req_write_to_file, req_read_from_file, req_set_file_len, req_get_disk_stats,
}
use nandroidfs.Protocol.Responses.{FileStat}
use nandroidfs.Conversion.{WideString, Unicode}
use nandroidfs.Connection.{
  lookup_stat, cache_stat, receive_status, send_type, invalidate_stat, invalidate_parent_dir,
  receive, send, flush,
}
use nandroidfs.Protocol.{success, create_always, RequestType, ResponseStatus, OpenMode}
use nandroidfs.Wire.{read_byte, Get, Put}
use nandroidfs.Daemon.Settles.{
  Settles, Settles-pure, Settles-throw, Settles-if, Settles-bind, Settles-then, read_with-settles,
}
use nandroidfs.Base.{ℕ, Bytes, Bool, Option, none, some, arith}

pub Settles-receive : {A : Type 0} (get : Get A) → Settles (receive get)
unfolding receive
Settles-receive get = record { at = λ c. read_with-settles (get c.port.input) c.port }

pub Settles-send : (w : Put) → Settles (send w)
unfolding send
Settles-send w = record { at = λ c e. ground arith }

pub Settles-flush : Settles flush
unfolding flush
Settles-flush = record { at = λ c e. cc }

pub Settles-status : Settles receive_status
unfolding receive_status
Settles-status = Settles-bind _ _ (Settles-receive read_byte) (λ b. Settles-pure _)

pub Settles-type : (t : RequestType) → Settles (send_type t)
unfolding send_type
Settles-type t = Settles-send _

pub Settles-invalidate_stat : (path : Bytes) → Settles (invalidate_stat path)
unfolding invalidate_stat
Settles-invalidate_stat path = record { at = λ c e. cc }

pub Settles-invalidate_parent_dir : (path : Bytes) → Settles (invalidate_parent_dir path)
unfolding invalidate_parent_dir
Settles-invalidate_parent_dir path = record { at = λ c e. cc }

pub ruleset client_rules = (
  Settles-pure, Settles-if, Settles-bind, Settles-then, Settles-receive, Settles-send,
  Settles-flush, Settles-status, Settles-type, Settles-invalidate_stat,
  Settles-invalidate_parent_dir,
)

forget-Settles : (path : Bytes) → Settles (forget path)
unfolding forget
forget-Settles path = search client_rules

pub request_of_path-Settles : (t : RequestType) (path : Bytes) → Settles (request_of_path t path)
unfolding request_of_path
request_of_path-Settles t path = search client_rules

forget_parent_if_created-Settles :
    (mode : OpenMode) (path : Bytes) → Settles (forget_parent_if_created mode path)
unfolding forget_parent_if_created
forget_parent_if_created-Settles create_always path = search client_rules
forget_parent_if_created-Settles _ path = search client_rules

receive_handle-Settles : (status : ResponseStatus) → Settles (receive_handle status)
unfolding receive_handle
receive_handle-Settles success = search client_rules
receive_handle-Settles _ = search client_rules

receive_into-Settles : (buffer_len bytes_read : ℕ) → Settles (receive_into buffer_len bytes_read)
unfolding receive_into
receive_into-Settles buffer_len bytes_read = search client_rules

receive_data-Settles :
    (buffer_len : ℕ) (status : ResponseStatus) → Settles (receive_data buffer_len status)
unfolding receive_data
receive_data-Settles buffer_len success = search (client_rules, receive_into-Settles)
receive_data-Settles buffer_len _ = search client_rules

receive_disk_stats-Settles : (status : ResponseStatus) → Settles (receive_disk_stats status)
unfolding receive_disk_stats
receive_disk_stats-Settles success = search client_rules
receive_disk_stats-Settles _ = search client_rules

ruleset part_rules = (
  client_rules, forget-Settles, request_of_path-Settles, forget_parent_if_created-Settles,
  receive_handle-Settles, receive_data-Settles, receive_disk_stats-Settles,
)

open_file_of-Settles :
    (path : Bytes) (mode : OpenMode) (r w : Bool) → Settles (open_file_of path mode r w)
unfolding open_file_of
open_file_of-Settles path mode r w = search part_rules depth 8

pub req_close_file-Settles : (handle : ℕ) → Settles (req_close_file handle)
unfolding req_close_file
req_close_file-Settles handle = search part_rules

pub req_write_to_file-Settles :
    (handle offset : ℕ) (bytes : Bytes) → Settles (req_write_to_file handle offset bytes)
unfolding req_write_to_file
req_write_to_file-Settles handle offset bytes = search part_rules

pub req_read_from_file-Settles :
    (handle offset count : ℕ) → Settles (req_read_from_file handle offset count)
unfolding req_read_from_file
req_read_from_file-Settles handle offset count = search part_rules depth 8

pub req_set_file_len-Settles : (handle size : ℕ) → Settles (req_set_file_len handle size)
unfolding req_set_file_len
req_set_file_len-Settles handle size = search part_rules

pub req_get_disk_stats-Settles : Settles req_get_disk_stats
unfolding req_get_disk_stats
req_get_disk_stats-Settles = search part_rules depth 8

module _ (unicode : Unicode) where
  pub req_remove_file-Settles : (path : WideString) → Settles (req_remove_file unicode path)
  unfolding req_remove_file
  req_remove_file-Settles path = search part_rules

  pub req_can_remove_file-Settles : (path : WideString) → Settles (req_can_remove_file unicode path)
  unfolding req_can_remove_file
  req_can_remove_file-Settles path = search part_rules

  pub req_remove_directory-Settles :
      (path : WideString) → Settles (req_remove_directory unicode path)
  unfolding req_remove_directory
  req_remove_directory-Settles path = search part_rules

  pub req_can_remove_directory-Settles :
      (path : WideString) → Settles (req_can_remove_directory unicode path)
  unfolding req_can_remove_directory
  req_can_remove_directory-Settles path = search part_rules

  pub req_create_directory-Settles :
      (path : WideString) → Settles (req_create_directory unicode path)
  unfolding req_create_directory
  req_create_directory-Settles path = search part_rules

  pub req_move_entry-Settles :
      (from to : WideString) (replace : Bool) → Settles (req_move_entry unicode from to replace)
  unfolding req_move_entry
  req_move_entry-Settles from to replace = search part_rules depth 10

  pub req_open_file-Settles :
      (path : WideString) (mode : OpenMode) (r w : Bool)
      → Settles (req_open_file unicode path mode r w)
  unfolding req_open_file
  req_open_file-Settles path mode r w = search (part_rules, open_file_of-Settles)

  pub req_set_file_time-Settles :
      (path : WideString) (access write : ℕ) → Settles (req_set_file_time unicode path access write)
  unfolding req_set_file_time
  req_set_file_time-Settles path access write = search part_rules depth 8

module _ (steady : ℕ → ℕ) where
  pub lookup_stat-Settles : (path : Bytes) → Settles (lookup_stat steady path)
  unfolding lookup_stat
  lookup_stat-Settles path = record { at = λ c e. cc }

  pub cache_stat-Settles : (path : Bytes) (stat : FileStat) → Settles (cache_stat steady path stat)
  unfolding cache_stat
  cache_stat-Settles path stat = record { at = λ c e. cc }

  receive_stat-Settles :
      (path : Bytes) (status : ResponseStatus) → Settles (receive_stat steady path status)
  unfolding receive_stat
  receive_stat-Settles path success = search (part_rules, cache_stat-Settles)
  receive_stat-Settles path _ = search part_rules

  stat_remote-Settles : (path : Bytes) → Settles (stat_remote steady path)
  unfolding stat_remote
  stat_remote-Settles path = search (part_rules, receive_stat-Settles)

  stat_uncached-Settles :
      (path : Bytes) (cached : Option FileStat) → Settles (stat_uncached steady path cached)
  unfolding stat_uncached
  stat_uncached-Settles path (some stat) = search part_rules
  stat_uncached-Settles path none = search (part_rules, stat_remote-Settles)

  stat_locked-Settles :
      (path : Bytes) (cached : Option FileStat) → Settles (stat_locked steady path cached)
  unfolding stat_locked
  stat_locked-Settles path (some stat) = search part_rules
  stat_locked-Settles path none = search (part_rules, lookup_stat-Settles, stat_uncached-Settles)

  pub req_stat_file-Settles :
      (unicode : Unicode) (path : WideString) → Settles (req_stat_file steady unicode path)
  unfolding req_stat_file
  req_stat_file-Settles unicode path = search (part_rules, lookup_stat-Settles, stat_locked-Settles)
