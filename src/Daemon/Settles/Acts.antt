-- ===== src/Daemon/Settles/Acts.antt =====
-- No handler that only makes a fixed number of system calls can loop.
use nandroidfs.Daemon.Settles.{Settles-call, Settles, Settles-bind, Settles-then, settles_rules}
use nandroidfs.Protocol.Requests.{
  MoveEntryArgs, OpenHandleArgs, TruncateHandleArgs, SetFileTimeArgs,
}
use nandroidfs.Path.{get_parent_path}
use nandroidfs.Daemon.Posix.{Dir, Statvfs, PosixStat, Sys, failed, done, enoent, Posix}
use nandroidfs.Daemon.Handlers.{
  answer_entry, list_entries, answer_list, move_if, answer_open, answer_disk_stats, check_parent,
  can_remove_directory_entry, answer_emptiness, act_stat, act_list, act_move, act_remove_file,
  act_remove_directory, act_create_directory, act_open_handle, act_close_handle, act_truncate,
  act_set_file_time, act_get_disk_stats, act_check_remove_file, act_check_remove_directory, answer,
  answer_stat,
}
use nandroidfs.Base.{ℕ, Bytes, [], ◌∷◌, Option, none, some, List}

module _ {F : Type 0} (os : Posix F) where
  answer-Settles : {A : Type 0} (r : Sys A) → Settles (answer os r)
  unfolding answer
  answer-Settles (failed e) = search settles_rules
  answer-Settles (done a) = search settles_rules

  answer_stat-Settles : (r : Sys PosixStat) → Settles (answer_stat os r)
  unfolding answer_stat
  answer_stat-Settles (failed e) = search settles_rules
  answer_stat-Settles (done a) = search settles_rules

  pub act_stat-Settles : (path : Bytes) → Settles (act_stat os path)
  unfolding act_stat
  act_stat-Settles path = search (settles_rules, answer_stat-Settles)

  answer_entry-Settles : (name : Bytes) (r : Sys PosixStat) → Settles (answer_entry os name r)
  unfolding answer_entry
  answer_entry-Settles name (failed e) = search settles_rules
  answer_entry-Settles name (done a) = search settles_rules

  list_entries-Settles : (path : Bytes) (names : List Bytes) → Settles (list_entries os path names)
  unfolding list_entries
  list_entries-Settles path [] = search settles_rules
  list_entries-Settles path (name ∷ names) =
      Settles-bind _ _ (Settles-call _)
        λ st. Settles-then _ _ (answer_entry-Settles name st) (list_entries-Settles path names)

  answer_list-Settles : (path : Bytes) (r : Sys Dir) → Settles (answer_list os path r)
  unfolding answer_list
  answer_list-Settles path (failed e) = search settles_rules
  answer_list-Settles path (done dir) = search (settles_rules, list_entries-Settles) depth 8

  pub act_list-Settles : (path : Bytes) → Settles (act_list os path)
  unfolding act_list
  act_list-Settles path = search (settles_rules, answer_list-Settles)

  move_if-Settles : (args : MoveEntryArgs) (r : Sys PosixStat) → Settles (move_if os args r)
  unfolding move_if
  move_if-Settles args (failed enoent) = search (settles_rules, answer-Settles)
  move_if-Settles args (failed e) = search settles_rules
  move_if-Settles args (done st) = search (settles_rules, answer-Settles)

  pub act_move-Settles : (args : MoveEntryArgs) → Settles (act_move os args)
  unfolding act_move
  act_move-Settles args = search (settles_rules, move_if-Settles)

  pub act_remove_file-Settles : (path : Bytes) → Settles (act_remove_file os path)
  unfolding act_remove_file
  act_remove_file-Settles path = search (settles_rules, answer-Settles)

  pub act_remove_directory-Settles : (path : Bytes) → Settles (act_remove_directory os path)
  unfolding act_remove_directory
  act_remove_directory-Settles path = search (settles_rules, answer-Settles)

  pub act_create_directory-Settles : (path : Bytes) → Settles (act_create_directory os path)
  unfolding act_create_directory
  act_create_directory-Settles path = search (settles_rules, answer-Settles)

  answer_open-Settles : (r : Sys ℕ) → Settles (answer_open os r)
  unfolding answer_open
  answer_open-Settles (failed e) = search settles_rules
  answer_open-Settles (done fd) = search settles_rules

  pub act_open_handle-Settles : (args : OpenHandleArgs) → Settles (act_open_handle os args)
  unfolding act_open_handle
  act_open_handle-Settles args = search (settles_rules, answer_open-Settles)

  pub act_close_handle-Settles : (handle : ℕ) → Settles (act_close_handle os handle)
  unfolding act_close_handle
  act_close_handle-Settles handle = search settles_rules

  pub act_truncate-Settles : (args : TruncateHandleArgs) → Settles (act_truncate os args)
  unfolding act_truncate
  act_truncate-Settles args = search (settles_rules, answer-Settles)

  pub act_set_file_time-Settles : (args : SetFileTimeArgs) → Settles (act_set_file_time os args)
  unfolding act_set_file_time
  act_set_file_time-Settles args = search (settles_rules, answer-Settles)

  answer_disk_stats-Settles : (r : Sys Statvfs) → Settles (answer_disk_stats os r)
  unfolding answer_disk_stats
  answer_disk_stats-Settles (failed e) = search settles_rules
  answer_disk_stats-Settles (done v) = search settles_rules

  pub act_get_disk_stats-Settles : Settles (act_get_disk_stats os)
  unfolding act_get_disk_stats
  act_get_disk_stats-Settles = search (settles_rules, answer_disk_stats-Settles)

  check_parent-Settles : (parent : Option Bytes) → Settles (check_parent os parent)
  unfolding check_parent
  check_parent-Settles none = search settles_rules
  check_parent-Settles (some parent) = search settles_rules

  can_remove-Settles : (path : Bytes) → Settles (can_remove_directory_entry os path)
  unfolding can_remove_directory_entry
  can_remove-Settles path = check_parent-Settles (get_parent_path path)

  pub act_check_remove_file-Settles : (path : Bytes) → Settles (act_check_remove_file os path)
  unfolding act_check_remove_file
  act_check_remove_file-Settles path = search (settles_rules, can_remove-Settles)

  answer_emptiness-Settles : (r : Sys Dir) → Settles (answer_emptiness os r)
  unfolding answer_emptiness
  answer_emptiness-Settles (failed e) = search settles_rules
  answer_emptiness-Settles (done dir) = search settles_rules

  pub act_check_remove_directory-Settles :
      (path : Bytes) → Settles (act_check_remove_directory os path)
  unfolding act_check_remove_directory
  act_check_remove_directory-Settles path =
      search (settles_rules, can_remove-Settles, answer_emptiness-Settles)
