-- ===== src/Daemon/Frames/Acts.antt =====
-- Every handler of the daemon leaves the bytes that follow its arguments alone.
use nandroidfs.Daemon.Frames.{Frames-call, Frames, Frames-bind, Frames-then, frames_rules}
use nandroidfs.Protocol.Requests.{
  MoveEntryArgs, OpenHandleArgs, TruncateHandleArgs, SetFileTimeArgs,
}
use nandroidfs.Path.{get_parent_path}
use nandroidfs.Daemon.Posix.{Dir, Statvfs, PosixStat, Sys, failed, done, enoent, Posix}
use nandroidfs.Daemon.Handlers.{
  answer_entry, list_entries, answer_list, move_if, answer_open, answer_disk_stats, check_parent,
  can_remove_directory_entry, answer_emptiness, act_stat, act_list, act_move, act_remove_file,
  act_remove_directory, act_create_directory, act_open_handle, act_close_handle, act_truncate,
  act_set_file_time, act_get_disk_stats, act_check_remove_file, act_check_remove_directory, answer,
  answer_stat,
}
use nandroidfs.Base.{ℕ, Bytes, [], ◌∷◌, Option, none, some, List}

module _ {F : Type 0} (os : Posix F) where
  answer-Frames : {A : Type 0} (r : Sys A) → Frames (answer os r)
  unfolding answer
  answer-Frames (failed e) = search frames_rules
  answer-Frames (done a) = search frames_rules

  answer_stat-Frames : (r : Sys PosixStat) → Frames (answer_stat os r)
  unfolding answer_stat
  answer_stat-Frames (failed e) = search frames_rules
  answer_stat-Frames (done a) = search frames_rules

  pub act_stat-Frames : (path : Bytes) → Frames (act_stat os path)
  unfolding act_stat
  act_stat-Frames path = search (frames_rules, answer_stat-Frames)

  answer_entry-Frames : (name : Bytes) (r : Sys PosixStat) → Frames (answer_entry os name r)
  unfolding answer_entry
  answer_entry-Frames name (failed e) = search frames_rules
  answer_entry-Frames name (done a) = search frames_rules

  list_entries-Frames : (path : Bytes) (names : List Bytes) → Frames (list_entries os path names)
  unfolding list_entries
  list_entries-Frames path [] = search frames_rules
  list_entries-Frames path (name ∷ names) =
      Frames-bind _ _ (Frames-call _)
        λ st. Frames-then _ _ (answer_entry-Frames name st) (list_entries-Frames path names)

  answer_list-Frames : (path : Bytes) (r : Sys Dir) → Frames (answer_list os path r)
  unfolding answer_list
  answer_list-Frames path (failed e) = search frames_rules
  answer_list-Frames path (done dir) = search (frames_rules, list_entries-Frames) depth 8

  pub act_list-Frames : (path : Bytes) → Frames (act_list os path)
  unfolding act_list
  act_list-Frames path = search (frames_rules, answer_list-Frames)

  move_if-Frames : (args : MoveEntryArgs) (r : Sys PosixStat) → Frames (move_if os args r)
  unfolding move_if
  move_if-Frames args (failed enoent) = search (frames_rules, answer-Frames)
  move_if-Frames args (failed e) = search frames_rules
  move_if-Frames args (done st) = search (frames_rules, answer-Frames)

  pub act_move-Frames : (args : MoveEntryArgs) → Frames (act_move os args)
  unfolding act_move
  act_move-Frames args = search (frames_rules, move_if-Frames)

  pub act_remove_file-Frames : (path : Bytes) → Frames (act_remove_file os path)
  unfolding act_remove_file
  act_remove_file-Frames path = search (frames_rules, answer-Frames)

  pub act_remove_directory-Frames : (path : Bytes) → Frames (act_remove_directory os path)
  unfolding act_remove_directory
  act_remove_directory-Frames path = search (frames_rules, answer-Frames)

  pub act_create_directory-Frames : (path : Bytes) → Frames (act_create_directory os path)
  unfolding act_create_directory
  act_create_directory-Frames path = search (frames_rules, answer-Frames)

  answer_open-Frames : (r : Sys ℕ) → Frames (answer_open os r)
  unfolding answer_open
  answer_open-Frames (failed e) = search frames_rules
  answer_open-Frames (done fd) = search frames_rules

  pub act_open_handle-Frames : (args : OpenHandleArgs) → Frames (act_open_handle os args)
  unfolding act_open_handle
  act_open_handle-Frames args = search (frames_rules, answer_open-Frames)

  pub act_close_handle-Frames : (handle : ℕ) → Frames (act_close_handle os handle)
  unfolding act_close_handle
  act_close_handle-Frames handle = search frames_rules

  pub act_truncate-Frames : (args : TruncateHandleArgs) → Frames (act_truncate os args)
  unfolding act_truncate
  act_truncate-Frames args = search (frames_rules, answer-Frames)

  pub act_set_file_time-Frames : (args : SetFileTimeArgs) → Frames (act_set_file_time os args)
  unfolding act_set_file_time
  act_set_file_time-Frames args = search (frames_rules, answer-Frames)

  answer_disk_stats-Frames : (r : Sys Statvfs) → Frames (answer_disk_stats os r)
  unfolding answer_disk_stats
  answer_disk_stats-Frames (failed e) = search frames_rules
  answer_disk_stats-Frames (done v) = search frames_rules

  pub act_get_disk_stats-Frames : Frames (act_get_disk_stats os)
  unfolding act_get_disk_stats
  act_get_disk_stats-Frames = search (frames_rules, answer_disk_stats-Frames)

  check_parent-Frames : (parent : Option Bytes) → Frames (check_parent os parent)
  unfolding check_parent
  check_parent-Frames none = search frames_rules
  check_parent-Frames (some parent) = search frames_rules

  can_remove-Frames : (path : Bytes) → Frames (can_remove_directory_entry os path)
  unfolding can_remove_directory_entry
  can_remove-Frames path = check_parent-Frames (get_parent_path path)

  pub act_check_remove_file-Frames : (path : Bytes) → Frames (act_check_remove_file os path)
  unfolding act_check_remove_file
  act_check_remove_file-Frames path = search (frames_rules, can_remove-Frames)

  answer_emptiness-Frames : (r : Sys Dir) → Frames (answer_emptiness os r)
  unfolding answer_emptiness
  answer_emptiness-Frames (failed e) = search frames_rules
  answer_emptiness-Frames (done dir) = search frames_rules

  pub act_check_remove_directory-Frames :
      (path : Bytes) → Frames (act_check_remove_directory os path)
  unfolding act_check_remove_directory
  act_check_remove_directory-Frames path =
      search (frames_rules, can_remove-Frames, answer_emptiness-Frames)
