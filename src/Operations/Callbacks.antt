-- ===== src/Operations/Callbacks.antt =====
-- The rest of nandroidfs/operations.cpp: the callbacks that do not use the connection, and the table
-- of all of them. `wcscpy_s` of Windows is a parameter: it gives nothing if the text does not fit,
-- and then the handler for invalid parameters ends the program.
use nandroidfs.Operations.{Call}
use nandroidfs.Base.{[], ◌∷◌, ◌+◌, ℕ, Bytes, Bool, Option, none, some}
use nandroidfs.Conversion.{
  status_not_implemented, FileTime, Ntstatus, WideString, status_success, Unicode,
}
use nandroidfs.Exec.{Exec, pure, ◌>>=◌}
use nandroidfs.Operations.Create.{CreateFlags, create_file, clean_up, close_file}
use nandroidfs.Operations.Transfer.{
  read_file, write_file, set_end_of_file, set_allocation_size, get_disk_free_space, delete_file,
  delete_directory, move_file,
}
use nandroidfs.Operations.Attributes.{
  get_file_information, find_files, set_file_attributes, set_file_time,
}

abbrev pub flush_file_buffers : Ntstatus
flush_file_buffers = status_success

abbrev pub lock_file : Ntstatus
lock_file = status_not_implemented

abbrev pub unlock_file : Ntstatus
unlock_file = status_not_implemented

abbrev pub nandroid_volume_serial : ℕ
nandroid_volume_serial = 0x20233838

-- What get_volume_information writes. The flags are FILE_CASE_SENSITIVE_SEARCH (1),
-- FILE_CASE_PRESERVED_NAMES (2) and FILE_UNICODE_ON_DISK (4).
pub record VolumeInformation : Type 0 where
  pub volume_name : WideString
  pub volume_serialnumber : ℕ
  pub maximum_component_length : ℕ
  pub fs_flags : ℕ
  pub fs_name : WideString

-- "NTFS"
abbrev pub ntfs : WideString
ntfs = b'N' ∷ b'T' ∷ b'F' ∷ b'S' ∷ []

abbrev pub Copy : Type 0
Copy = ℕ → WideString → Option WideString

abbrev with_names : Option WideString → Option WideString → Option VolumeInformation
with_names (some volume_name) (some fs_name) = some (record {
  volume_name = volume_name;
  volume_serialnumber = nandroid_volume_serial;
  maximum_component_length = 255;
  fs_flags = 1 + 2 + 4;
  fs_name = fs_name;
})
with_names _ _ = none

unfoldable pub get_volume_information : Copy → WideString → ℕ → ℕ → Option VolumeInformation
get_volume_information wcscpy_s device_serial volume_name_size fs_name_size =
    with_names (wcscpy_s volume_name_size device_serial) (wcscpy_s fs_name_size ntfs)

abbrev pub mounted : Ntstatus
mounted = status_success

abbrev pub unmounted : Ntstatus
unmounted = status_success

abbrev pub get_file_security : Ntstatus
get_file_security = status_not_implemented

abbrev pub set_file_security : Ntstatus
set_file_security = status_not_implemented

abbrev pub find_streams : Ntstatus
find_streams = status_not_implemented

-- The members of `nandroid_operations`, each with what Dokan hands it and the callback uses. There
-- is none for FindFilesWithPattern.
pub data Callback : Type 0 where
  on_create_file : WideString → CreateFlags → Callback
  on_clean_up : WideString → Callback
  on_close_file : Callback
  on_read_file : ℕ → ℕ → Callback
  on_write_file : Bytes → ℕ → Callback
  on_flush_file_buffers : Callback
  on_get_file_information : WideString → Callback
  on_find_files : WideString → Callback
  on_set_file_attributes : WideString → ℕ → Callback
  on_set_file_time : WideString → Option FileTime → Option FileTime → Callback
  on_delete_file : WideString → Callback
  on_delete_directory : WideString → Callback
  on_move_file : WideString → WideString → Bool → Callback
  on_set_end_of_file : ℕ → Callback
  on_set_allocation_size : ℕ → Callback
  on_lock_file on_unlock_file on_get_disk_free_space : Callback
  on_get_volume_information : ℕ → ℕ → Callback
  on_mounted on_unmounted on_get_file_security on_set_file_security on_find_streams : Callback

-- What Dokan gets back: a status, or nothing from a void callback; or the program is ended by the
-- handler for invalid parameters, or its memory is written past the end of a buffer.
pub data Answer : Type 0 where
  status : Ntstatus → Answer
  nothing : Answer
  invalid_parameter : Answer
  overrun : Answer

abbrev pub with_status : Ntstatus → Answer
with_status s = status s

abbrev pub with_outputs : {A : Type 0} → Ntstatus × Option A → Answer
with_outputs answer = status answer.0

abbrev pub find_answer : Option Ntstatus → Answer
find_answer none = invalid_parameter
find_answer (some s) = status s

abbrev pub read_answer : Ntstatus × Option (Option Bytes) → Answer
read_answer (s, some none) = overrun
read_answer (s, _) = status s

abbrev pub volume_answer : Option VolumeInformation → Answer
volume_answer none = invalid_parameter
volume_answer (some information) = status status_success

abbrev pub gives : {A : Type 0} → (A → Answer) → Exec Call A → Exec Call Answer
gives f m = m >>= λ a. pure (f a)

module _ (unicode : Unicode) (steady : ℕ → ℕ) (wcscpy_s : Copy) (device_serial : WideString) where
  unfoldable pub nandroid_operations : Callback → Exec Call Answer
  nandroid_operations (on_create_file name flags) =
      gives with_status (create_file unicode steady name flags)
  nandroid_operations (on_clean_up name) = gives (λ _. nothing) (clean_up unicode name)
  nandroid_operations on_close_file = gives (λ _. nothing) close_file
  nandroid_operations (on_read_file buffer_len offset) =
      gives read_answer (read_file buffer_len offset)
  nandroid_operations (on_write_file buffer offset) = gives with_outputs (write_file buffer offset)
  nandroid_operations on_flush_file_buffers = pure (status flush_file_buffers)
  nandroid_operations (on_get_file_information name) =
      gives with_outputs (get_file_information unicode steady name)
  nandroid_operations (on_find_files name) = gives find_answer (find_files unicode steady name)
  nandroid_operations (on_set_file_attributes name attributes) =
      gives with_status (set_file_attributes unicode steady name attributes)
  nandroid_operations (on_set_file_time name last_access last_write) =
      gives with_status (set_file_time unicode name last_access last_write)
  nandroid_operations (on_delete_file name) = gives with_status (delete_file unicode name)
  nandroid_operations (on_delete_directory name) = gives with_status (delete_directory unicode name)
  nandroid_operations (on_move_file name new_name replace) =
      gives with_status (move_file unicode name new_name replace)
  nandroid_operations (on_set_end_of_file offset) = gives with_status (set_end_of_file offset)
  nandroid_operations (on_set_allocation_size offset) =
      gives with_status (set_allocation_size offset)
  nandroid_operations on_lock_file = pure (status lock_file)
  nandroid_operations on_unlock_file = pure (status unlock_file)
  nandroid_operations on_get_disk_free_space = gives with_outputs get_disk_free_space
  nandroid_operations (on_get_volume_information volume_name_size fs_name_size) =
      pure (
        volume_answer (get_volume_information wcscpy_s device_serial volume_name_size fs_name_size))
  nandroid_operations on_mounted = pure (status mounted)
  nandroid_operations on_unmounted = pure (status unmounted)
  nandroid_operations on_get_file_security = pure (status get_file_security)
  nandroid_operations on_set_file_security = pure (status set_file_security)
  nandroid_operations on_find_streams = pure (status find_streams)
