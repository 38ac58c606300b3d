-- ===== src/Operations/Returns.antt =====
-- Every callback of nandroidfs/operations.cpp returns to Dokan, whatever the daemon sends.
use nandroidfs.Operations.Settles.{
  pure-Answers, filled-ok, returned, gives-Answers, Answers, may_end, Settles-choose,
  handler_with-Returns, handler-Returns, handler_void-Returns, Returns, call_rules,
}
use nandroidfs.Operations.Callbacks.{
  nothing, with_outputs, with_status, read_answer, find_answer, on_get_volume_information,
  on_close_file, on_get_disk_free_space, on_set_allocation_size, on_set_end_of_file, on_move_file,
  on_delete_directory, on_delete_file, on_set_file_time, on_set_file_attributes, on_find_files,
  on_get_file_information, on_write_file, on_read_file, on_clean_up, on_create_file,
  nandroid_operations, Copy, Answer, Callback,
}
use nandroidfs.Base.{
  refl, true, false, arith, length, Option, ◌||◌, ◌≡◌, Bool, not, Bytes, ◌==◌, ℕ, none,
}
use nandroidfs.Conversion.{
  ntstatus_from_respstatus, FileTime, WideString, Unicode, status_access_denied,
}
use nandroidfs.Connection.Listing.{req_list_file_stats}
use nandroidfs.Operations.Settles.Create.{create_statted-Settles, information_answer-Settles}
use nandroidfs.Connection.Settles.{
  req_set_file_time-Settles, req_stat_file-Settles, req_remove_directory-Settles,
  req_remove_file-Settles, req_can_remove_file-Settles, req_can_remove_directory-Settles,
  req_move_entry-Settles, req_write_to_file-Settles, req_set_file_len-Settles,
  req_read_from_file-Settles, req_close_file-Settles, req_get_disk_stats-Settles,
}
use nandroidfs.Operations.Attributes.{
  set_file_time, information_answer, get_file_information, find_files, set_file_attributes,
}
use nandroidfs.Operations.Transfer.{
  disk_space, delete_file, delete_directory, move_file, with_output, answer_status, read_file,
  write_file, set_end_of_file, set_allocation_size, get_disk_free_space,
}
use nandroidfs.Operations.Create.{CreateFlags, create_file, remove_entry, clean_up, close_file}
use nandroidfs.Connection.Requests.{
  req_stat_file, req_get_disk_stats, req_set_file_len, req_read_from_file, req_write_to_file,
  req_close_file,
}
use nandroidfs.Connection.Ends.{req_list_file_stats-Settles}
use nandroidfs.Operations.{no_handle, Call, on_conn}
use nandroidfs.Exec.{pure, ok, ◌>>=◌}
use nandroidfs.Daemon.Settles.{Settles-pure}

read_file-Returns : (buffer_len offset : ℕ) → Returns (read_file buffer_len offset)
unfolding read_file
read_file-Returns buffer_len offset = handler_with-Returns _ (
    Settles-choose
      (λ s. not s.file_info.context.read_access || (s.file_info.context.handle == no_handle))
      (λ s. pure (status_access_denied, none))
      (λ s. on_conn (req_read_from_file s.file_info.context.handle offset buffer_len) >>= λ answer.
        pure (with_output answer.0 answer.1))
      (λ s. Settles-pure _) (λ s. search (call_rules, req_read_from_file-Settles)))

write_file-Returns : (buffer : Bytes) (offset : ℕ) → Returns (write_file buffer offset)
unfolding write_file
write_file-Returns buffer offset = handler_with-Returns _ (
    Settles-choose
      (λ s. not s.file_info.context.write_access || (s.file_info.context.handle == no_handle))
      (λ s. pure (status_access_denied, none))
      (λ s. on_conn (req_write_to_file s.file_info.context.handle offset buffer) >>= λ status.
        pure (with_output status (length buffer)))
      (λ s. Settles-pure _) (λ s. search (call_rules, req_write_to_file-Settles)))

set_end_of_file-Returns : (offset : ℕ) → Returns (set_end_of_file offset)
unfolding set_end_of_file
set_end_of_file-Returns offset = handler-Returns _ (
    Settles-choose (λ s. s.file_info.context.write_access)
      (λ s. answer_status (req_set_file_len s.file_info.context.handle offset))
      (λ s. pure status_access_denied) (λ s. search (call_rules, req_set_file_len-Settles))
      (λ s. Settles-pure _))

set_allocation_size-Returns : (offset : ℕ) → Returns (set_allocation_size offset)
unfolding set_allocation_size
set_allocation_size-Returns offset = set_end_of_file-Returns offset

get_disk_free_space-Returns : Returns get_disk_free_space
unfolding get_disk_free_space
get_disk_free_space-Returns =
    handler_with-Returns (on_conn req_get_disk_stats >>= λ answer. pure (disk_space answer))
      (search (call_rules, req_get_disk_stats-Settles))

close_file-Returns : Returns close_file
unfolding close_file
close_file-Returns = handler_void-Returns _ (
    Settles-choose (λ s. s.file_info.context.handle == no_handle) (λ s. pure tt)
      (λ s. on_conn (req_close_file s.file_info.context.handle) >>= λ _. pure tt)
      (λ s. Settles-pure _) (λ s. search (call_rules, req_close_file-Settles)))

module _ (unicode : Unicode) where
  delete_file-Returns : (name : WideString) → Returns (delete_file unicode name)
  unfolding delete_file
  delete_file-Returns name = handler-Returns _ (search (call_rules, req_can_remove_file-Settles))

  delete_directory-Returns : (name : WideString) → Returns (delete_directory unicode name)
  unfolding delete_directory
  delete_directory-Returns name =
      handler-Returns _ (search (call_rules, req_can_remove_directory-Settles))

  move_file-Returns :
      (name new_name : WideString) (replace : Bool)
      → Returns (move_file unicode name new_name replace)
  unfolding move_file
  move_file-Returns name new_name replace =
      handler-Returns _ (search (call_rules, req_move_entry-Settles))

  set_file_time-Returns :
      (name : WideString) (access write : Option FileTime)
      → Returns (set_file_time unicode name access write)
  unfolding set_file_time
  set_file_time-Returns name access write =
      handler-Returns _ (search (call_rules, req_set_file_time-Settles))

  clean_up-Returns : (name : WideString) → Returns (clean_up unicode name)
  unfolding clean_up
  clean_up-Returns name = handler_void-Returns _ (
      Settles-choose (λ s. s.file_info.delete_on_close)
        (λ s. on_conn (remove_entry unicode name s.file_info.is_directory) >>= λ _. pure tt)
        (λ s. pure tt)
        (λ s. search (call_rules, req_remove_file-Settles, req_remove_directory-Settles))
        (λ s. Settles-pure _))

  module _ (steady : ℕ → ℕ) where
    create_file-Returns :
        (name : WideString) (flags : CreateFlags) → Returns (create_file unicode steady name flags)
    unfolding create_file
    create_file-Returns name flags =
        handler-Returns _ (search (call_rules, req_stat_file-Settles, create_statted-Settles))

    get_file_information-Returns :
        (name : WideString) → Returns (get_file_information unicode steady name)
    unfolding get_file_information
    get_file_information-Returns name =
        handler_with-Returns (on_conn (req_stat_file steady unicode name) >>= information_answer)
          (search (call_rules, req_stat_file-Settles, information_answer-Settles))

    find_files-Returns : (name : WideString) → Returns (find_files unicode steady name)
    unfolding find_files
    find_files-Returns name =
        let listed =
          handler-Returns
            (on_conn (req_list_file_stats unicode steady name) >>= λ status.
              pure (ntstatus_from_respstatus status))
            (search (call_rules, req_list_file_stats-Settles)) in
        record { at = λ s. filled-ok _ _ (listed.at s) }

    set_file_attributes-Returns :
        (name : WideString) (attributes : ℕ)
        → Returns (set_file_attributes unicode steady name attributes)
    unfolding set_file_attributes
    set_file_attributes-Returns name attributes =
        handler-Returns _ (search (call_rules, req_stat_file-Settles))

    nandroid_operations-Answers :
        (wcscpy_s : Copy) (device_serial : WideString) (callback : Callback)
        → Answers callback (nandroid_operations unicode steady wcscpy_s device_serial callback)
    unfolding nandroid_operations
    nandroid_operations-Answers wcscpy_s device_serial (on_create_file name flags) =
        gives-Answers _ with_status _ (create_file-Returns name flags) (λ _ h. refl)
    nandroid_operations-Answers wcscpy_s device_serial (on_clean_up name) =
        gives-Answers _ (λ _. nothing) _ (clean_up-Returns name) (λ _ h. refl)
    nandroid_operations-Answers wcscpy_s device_serial on_close_file =
        gives-Answers _ (λ _. nothing) _ close_file-Returns (λ _ h. refl)
    nandroid_operations-Answers wcscpy_s device_serial (on_read_file buffer_len offset) =
        gives-Answers _ read_answer _ (read_file-Returns buffer_len offset)
          (λ _ h. ground (arith, h))
    nandroid_operations-Answers wcscpy_s device_serial (on_write_file buffer offset) =
        gives-Answers _ with_outputs _ (write_file-Returns buffer offset) (λ _ h. refl)
    nandroid_operations-Answers wcscpy_s device_serial (on_get_file_information name) =
        gives-Answers _ with_outputs _ (get_file_information-Returns name) (λ _ h. refl)
    nandroid_operations-Answers wcscpy_s device_serial (on_find_files name) =
        gives-Answers _ find_answer _ (find_files-Returns name) (λ _ h. ground (arith, h))
    nandroid_operations-Answers wcscpy_s device_serial (on_set_file_attributes name attributes) =
        gives-Answers _ with_status _ (set_file_attributes-Returns name attributes) (λ _ h. refl)
    nandroid_operations-Answers wcscpy_s device_serial (on_set_file_time name access write) =
        gives-Answers _ with_status _ (set_file_time-Returns name access write) (λ _ h. refl)
    nandroid_operations-Answers wcscpy_s device_serial (on_delete_file name) =
        gives-Answers _ with_status _ (delete_file-Returns name) (λ _ h. refl)
    nandroid_operations-Answers wcscpy_s device_serial (on_delete_directory name) =
        gives-Answers _ with_status _ (delete_directory-Returns name) (λ _ h. refl)
    nandroid_operations-Answers wcscpy_s device_serial (on_move_file name new_name replace) =
        gives-Answers _ with_status _ (move_file-Returns name new_name replace) (λ _ h. refl)
    nandroid_operations-Answers wcscpy_s device_serial (on_set_end_of_file offset) =
        gives-Answers _ with_status _ (set_end_of_file-Returns offset) (λ _ h. refl)
    nandroid_operations-Answers wcscpy_s device_serial (on_set_allocation_size offset) =
        gives-Answers _ with_status _ (set_allocation_size-Returns offset) (λ _ h. refl)
    nandroid_operations-Answers wcscpy_s device_serial on_get_disk_free_space =
        gives-Answers _ with_outputs _ get_disk_free_space-Returns (λ _ h. refl)
    nandroid_operations-Answers wcscpy_s device_serial (on_get_volume_information size fs_size) =
        pure-Answers _ _ (λ h. ground (arith, h))
    nandroid_operations-Answers wcscpy_s device_serial _ = pure-Answers _ _ (λ h. refl)

    -- Whatever the daemon sends and whatever state the call is in, the loops of every callback end
    -- and no exception leaves it: it comes to an answer, and that is a return to Dokan but for
    -- find_files, get_volume_information and read_file, where it can be that a text that does not
    -- fit its buffer ends the program, or that more bytes were sent than the buffer of the read
    -- holds.
    pub nandroid_operations_returns :
        (wcscpy_s : Copy) (device_serial : WideString) (callback : Callback) (s : Call)
        → (a : Answer) × ((nandroid_operations unicode steady wcscpy_s device_serial callback s).0
            ≡ ok a)
          × (may_end callback ≡ false → returned a ≡ true)
    nandroid_operations_returns wcscpy_s device_serial callback s =
        (nandroid_operations-Answers wcscpy_s device_serial callback).at s
