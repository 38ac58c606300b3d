-- ===== src/Operations/Create.antt =====
-- create_file, clean_up and close_file of nandroidfs/operations.cpp. The flags that
-- DokanMapKernelToUserCreateFileFlags computes are arguments.
use nandroidfs.Base.{ℕ, Bool, true, false, not, ◌&&◌, ◌||◌, Option, none, some, if◌then◌else◌, ◌==◌}
use nandroidfs.Exec.{Exec, pure, gets, ◌>>=◌, ◌>>◌}
use nandroidfs.Conversion.{
  Unicode, WideString, Ntstatus, status_success, status_unsuccessful, status_object_name_not_found,
  status_object_name_collision, status_not_a_directory, status_file_is_a_directory,
  ntstatus_from_respstatus, FileAttributes, directory, normal, file_attributes_from_st_mode,
}
use nandroidfs.Protocol.{
  OpenMode, open_only, create_if_not_exist, create_or_truncate, ResponseStatus, success,
  file_not_found,
}
use nandroidfs.Protocol.Responses.{FileStat}
use nandroidfs.Connection.{Client}
use nandroidfs.Connection.Requests.{
  req_create_directory, req_open_file, req_stat_file, req_remove_directory, req_remove_file,
  req_close_file,
}
use nandroidfs.Operations.{
  FileContext, no_handle, Call, on_conn, set_info, set_context, handler, handler_void,
}

pub data CreationDisposition : Type 0 where
  create_always create_new open_always open_existing truncate_existing : CreationDisposition
  unknown : ℕ → CreationDisposition

pub record CreateFlags : Type 0 where
  pub generic_read : Bool
  pub generic_write : Bool
  pub flag_delete_on_close : Bool
  pub creation_disposition : CreationDisposition
  pub non_directory_file : Bool

abbrev pub creates_directory : CreationDisposition → Bool
creates_directory open_always = true
creates_directory create_new = true
creates_directory CreationDisposition.create_always = true
creates_directory _ = false

-- A new file or a changed one, although the entry was there.
abbrev collides : CreationDisposition → Bool
collides open_always = true
collides CreationDisposition.create_always = true
collides _ = false

abbrev pub is_directory_mode : FileAttributes → Bool
is_directory_mode directory = true
is_directory_mode normal = false

abbrev pub no_access : FileContext → Bool
no_access context = not context.read_access && not context.write_access

abbrev pub set_handle : Option ℕ → FileContext → FileContext
set_handle none context = context
set_handle (some handle) context = record context { handle = handle }

abbrev pub at_least_read : FileContext → FileContext
at_least_read context = if no_access context then record context { read_access = true } else context

abbrev pub opened : CreationDisposition → Bool → ResponseStatus → Ntstatus
opened disposition file_exists success =
    if file_exists && collides disposition then status_object_name_collision else status_success
opened disposition file_exists status = ntstatus_from_respstatus status

module _ (unicode : Unicode) where
  unfoldable pub handle_create_directory :
      WideString → CreationDisposition → Bool → Bool → Exec Client Ntstatus
  handle_create_directory path disposition entry_exists entry_is_directory =
      let created = req_create_directory unicode path in
      if creates_directory disposition
      then (do status ← created; pure (ntstatus_from_respstatus status))
      else if entry_exists && entry_is_directory
      then pure status_success
      else if not entry_exists
      then pure status_object_name_not_found
      else if not entry_is_directory
      then pure status_not_a_directory
      else pure status_unsuccessful

  -- The end of handle_create_file, once the mode is settled.
  unfoldable pub open_with : WideString → CreationDisposition → Bool → OpenMode → Exec Call Ntstatus
  open_with path disposition file_exists mode = do
    set_context at_least_read
    context ← gets (λ (s : Call). s.file_info.context)
    answer ← on_conn (req_open_file unicode path mode context.read_access context.write_access)
    set_context (set_handle answer.1)
    pure (opened disposition file_exists answer.0)

  unfoldable pub handle_create_file : WideString → CreationDisposition → Bool → Exec Call Ntstatus
  handle_create_file path CreationDisposition.create_always file_exists s =
      open_with path CreationDisposition.create_always file_exists create_or_truncate s
  handle_create_file path create_new file_exists s =
      open_with path create_new file_exists OpenMode.create_always s
  handle_create_file path open_always file_exists s =
      if no_access s.file_info.context && file_exists
      then pure status_success s
      else open_with path open_always file_exists create_if_not_exist s
  handle_create_file path open_existing file_exists s =
      if no_access s.file_info.context && file_exists
      then pure status_success s
      else if not file_exists
      then pure status_object_name_not_found s
      else open_with path open_existing file_exists open_only s
  handle_create_file path truncate_existing file_exists s =
      open_with path truncate_existing file_exists OpenMode.truncate s
  handle_create_file path (CreationDisposition.unknown n) file_exists s = pure status_unsuccessful s

module _ (unicode : Unicode) where
  -- Behind the stat: the entry exists or not, and is a directory or not.
  unfoldable pub create_entry : WideString → CreateFlags → Bool → Bool → Exec Call Ntstatus
  create_entry path flags entry_exists entry_is_directory s =
      let found_directory = entry_exists && entry_is_directory in
      let info = record s.file_info {
        is_directory = s.file_info.is_directory || found_directory;
      } in
      let disposition = flags.creation_disposition in
      if found_directory && flags.non_directory_file
      then pure status_file_is_a_directory s
      else if info.is_directory
      then on_conn
          (handle_create_directory unicode path disposition entry_exists entry_is_directory)
          (record s { file_info = info })
      else handle_create_file unicode path disposition entry_exists (record s { file_info = info })

  -- The two statuses with which the creation goes on.
  unfoldable pub create_statted :
      WideString → CreateFlags → ResponseStatus × Option FileStat → Exec Call Ntstatus
  create_statted path flags (success, some stat) =
      create_entry path flags true (is_directory_mode (file_attributes_from_st_mode stat.mode))
  create_statted path flags (file_not_found, stat) = create_entry path flags false false
  create_statted path flags (status, stat) = pure (ntstatus_from_respstatus status)

  module _ (steady : ℕ → ℕ) where
    unfoldable pub create_file : WideString → CreateFlags → Exec Call Ntstatus
    create_file file_name flags = handler (do
      set_info (λ info. record info {
        delete_on_close = flags.flag_delete_on_close;
        context = record {
          handle = no_handle;
          read_access = flags.generic_read;
          write_access = flags.generic_write;
        };
      })
      answer ← on_conn (req_stat_file steady unicode file_name)
      create_statted file_name flags answer)

  abbrev pub remove_entry : WideString → Bool → Exec Client ResponseStatus
  remove_entry file_name is_directory =
      if is_directory
      then req_remove_directory unicode file_name
      else req_remove_file unicode file_name

  unfoldable pub clean_up : WideString → Exec Call Unit
  clean_up file_name = handler_void (λ s.
      if s.file_info.delete_on_close
      then (on_conn (remove_entry file_name s.file_info.is_directory) >>= λ _. pure tt) s
      else pure tt s)

unfoldable pub close_file : Exec Call Unit
close_file = handler_void (λ s.
    let handle = s.file_info.context.handle in
    if handle == no_handle then pure tt s else (on_conn (req_close_file handle) >>= λ _. pure tt) s)
