-- ===== src/Operations/Transfer.antt =====
-- The callbacks of nandroidfs/operations.cpp that work on an open file, and those that ask the
-- device for one thing.
use nandroidfs.Base.{ℕ, Bool, not, ◌||◌, Option, none, some, if◌then◌else◌, ◌==◌, Bytes, length}
use nandroidfs.Exec.{Exec, pure, ◌>>=◌}
use nandroidfs.Conversion.{
  Unicode, WideString, Ntstatus, status_success, status_access_denied, status_unsuccessful,
  ntstatus_from_respstatus,
}
use nandroidfs.Protocol.{ResponseStatus, success}
use nandroidfs.Protocol.Responses.{DiskStats}
use nandroidfs.Connection.{Client}
use nandroidfs.Connection.Requests.{
  req_read_from_file, req_write_to_file, req_set_file_len, req_can_remove_file,
  req_can_remove_directory, req_move_entry, req_get_disk_stats,
}
use nandroidfs.Operations.{no_handle, Call, on_conn, caught, handler}

-- A status with the output parameters, which are written on success.
abbrev pub with_output : {A : Type 0} → ResponseStatus → A → Ntstatus × Option A
with_output success a = (status_success, some a)
with_output status a = (ntstatus_from_respstatus status, none)

abbrev pub handler_with :
    {A : Type 0} → Exec Call (Ntstatus × Option A) → Exec Call (Ntstatus × Option A)
handler_with m s = caught (status_unsuccessful, none) (m s)

-- The bytes that were read, if they were not written past the end of the buffer.
unfoldable pub read_file : ℕ → ℕ → Exec Call (Ntstatus × Option (Option Bytes))
read_file buffer_len offset = handler_with (λ s.
    let context = s.file_info.context in
    if not context.read_access || (context.handle == no_handle)
    then pure (status_access_denied, none) s
    else (on_conn (req_read_from_file context.handle offset buffer_len) >>= λ answer.
          pure (with_output answer.0 answer.1))
        s)

-- The number of bytes that were written.
unfoldable pub write_file : Bytes → ℕ → Exec Call (Ntstatus × Option ℕ)
write_file buffer offset = handler_with (λ s.
    let context = s.file_info.context in
    if not context.write_access || (context.handle == no_handle)
    then pure (status_access_denied, none) s
    else (on_conn (req_write_to_file context.handle offset buffer) >>= λ status.
          pure (with_output status (length buffer)))
        s)

abbrev pub answer_status : Exec Client ResponseStatus → Exec Call Ntstatus
answer_status request = on_conn request >>= λ status. pure (ntstatus_from_respstatus status)

unfoldable pub set_end_of_file : ℕ → Exec Call Ntstatus
set_end_of_file byte_offset = handler (λ s.
    let context = s.file_info.context in
    let resized = answer_status (req_set_file_len context.handle byte_offset) in
    if context.write_access then resized s else pure status_access_denied s)

unfoldable pub set_allocation_size : ℕ → Exec Call Ntstatus
set_allocation_size = set_end_of_file

abbrev pub disk_space : ResponseStatus × Option DiskStats → Ntstatus × Option DiskStats
disk_space (success, stats) = (status_success, stats)
disk_space (status, stats) = (ntstatus_from_respstatus status, none)

unfoldable pub get_disk_free_space : Exec Call (Ntstatus × Option DiskStats)
get_disk_free_space =
    handler_with (do answer ← on_conn req_get_disk_stats; pure (disk_space answer))

module _ (unicode : Unicode) where
  unfoldable pub delete_file : WideString → Exec Call Ntstatus
  delete_file file_name = handler (answer_status (req_can_remove_file unicode file_name))

  unfoldable pub delete_directory : WideString → Exec Call Ntstatus
  delete_directory file_name = handler (answer_status (req_can_remove_directory unicode file_name))

  unfoldable pub move_file : WideString → WideString → Bool → Exec Call Ntstatus
  move_file file_name new_file_name replace_if_existing =
      handler (answer_status (req_move_entry unicode file_name new_file_name replace_if_existing))
