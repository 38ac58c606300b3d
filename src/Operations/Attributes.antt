-- ===== src/Operations/Attributes.antt =====
-- The callbacks of nandroidfs/operations.cpp about the attributes and the times of files.
use nandroidfs.Base.{
  [], length, ◌∷◌, ltb, false, List, drop, true, ℕ, ◌+◌, ◌*◌, ◌/◌, ◌%◌, ◌-◌, ◌^◌, ◌<◌, ◌≡◌, arith,
  Bool, ◌&&◌, ◌||◌, Option, none, some, if◌then◌else◌, ◌==◌,
}
use nandroidfs.Operations.{caught, FileInfo, Call, on_conn, set_info, handler}
use nandroidfs.Exec.{Exec, Result, ok, raise, pure, ◌>>=◌, ◌>>◌}
use nandroidfs.Conversion.{
  Unicode, WideString, Ntstatus, status_success, status_unsuccessful, ntstatus_from_respstatus,
  FileAttributes, directory, normal, file_attributes_from_st_mode, FileTime,
  filetime_from_unix_time, unix_time_from_filetime,
}
use nandroidfs.Protocol.{ResponseStatus, success}
use nandroidfs.Protocol.Responses.{FileStat}
use nandroidfs.Connection.Requests.{req_stat_file, req_set_file_time}
use nandroidfs.Connection.Listing.{req_list_file_stats}
use nandroidfs.Operations.Create.{is_directory_mode}

-- The fields of BY_HANDLE_FILE_INFORMATION and of WIN32_FIND_DATAW that are written.
pub record FileInformation : Type 0 where
  pub attributes : FileAttributes
  pub size_low : ℕ
  pub size_high : ℕ
  pub last_access_time : FileTime
  pub last_write_time : FileTime

unfoldable pub information_of : FileStat → FileInformation
information_of stat = record {
  attributes = file_attributes_from_st_mode stat.mode;
  size_low = stat.size % 2 ^ 32;
  size_high = stat.size / 2 ^ 32 % 2 ^ 32;
  last_access_time = filetime_from_unix_time stat.access_time;
  last_write_time = filetime_from_unix_time stat.write_time;
}

-- The two halves of a size of 64 bits that are handed to Windows are the whole of it.
pub information_of-size :
    (stat : FileStat)
    → stat.size < 2 ^ 64
    → (information_of stat).size_high * 2 ^ 32 + (information_of stat).size_low ≡ stat.size
unfolding information_of
information_of-size stat h = omega arith

abbrev mark_directory : FileAttributes → FileInfo → FileInfo
mark_directory directory info = record info { is_directory = true }
mark_directory normal info = info

abbrev pub information_answer :
    ResponseStatus × Option FileStat → Exec Call (Ntstatus × Option FileInformation)
information_answer (success, some stat) = do
  set_info (mark_directory (file_attributes_from_st_mode stat.mode))
  pure (status_success, some (information_of stat))
information_answer (status, stat) = pure (ntstatus_from_respstatus status, none)

-- The entry that the callback of a listing hands to Dokan.
-- `wcscpy_s` into the 260 units of cFileName gives nothing if the name and its NUL do not fit.
unfoldable pub find_data_of : FileStat × WideString → Option (WideString × FileInformation)
find_data_of (stat, file_name) =
    if ltb (length file_name) 260 then some (file_name, information_of stat) else none

abbrev is_some : {A : Type 0} → Option A → Bool
is_some none = false
is_some (some a) = true

abbrev pub all_filled : List (FileStat × WideString) → Bool
all_filled [] = true
all_filled (entry ∷ entries) = is_some (find_data_of entry) && all_filled entries

-- `none` is the handler for invalid parameters, which ends the program.
abbrev pub filled : Bool → Result Ntstatus → Result (Option Ntstatus)
filled all (raise e) = raise e
filled true (ok status) = ok (some status)
filled false (ok status) = ok none

-- FILE_ATTRIBUTE_NORMAL and FILE_ATTRIBUTE_DIRECTORY.
abbrev attribute_normal : ℕ
attribute_normal = 128

abbrev attribute_directory : ℕ
attribute_directory = 16

unfoldable pub attributes_status : ℕ → Bool → Ntstatus
attributes_status file_attributes entry_is_dir =
    if (file_attributes == 0) || (file_attributes == attribute_normal)
    then if entry_is_dir then status_unsuccessful else status_success
    else if file_attributes == attribute_directory
    then if entry_is_dir then status_success else status_unsuccessful
    else status_unsuccessful

abbrev pub attributes_answer : ℕ → ResponseStatus × Option FileStat → Ntstatus
attributes_answer file_attributes (success, some stat) =
    attributes_status file_attributes (is_directory_mode (file_attributes_from_st_mode stat.mode))
attributes_answer file_attributes (status, stat) = ntstatus_from_respstatus status

-- A pointer to a time, or null. -1 leaves the time as it is.
unfoldable pub signed_time_from_ptr : Option FileTime → ℕ
signed_time_from_ptr none = 2 ^ 64 - 1
signed_time_from_ptr (some file_time) =
    if (file_time.high_date_time == 0) && (file_time.low_date_time == 0)
    then 2 ^ 64 - 1
    else unix_time_from_filetime file_time

module _ (unicode : Unicode) where
  unfoldable pub set_file_time : WideString → Option FileTime → Option FileTime → Exec Call Ntstatus
  set_file_time file_name last_access_time last_write_time = handler (do
    status ← on_conn (
        req_set_file_time unicode file_name (signed_time_from_ptr last_access_time)
          (signed_time_from_ptr last_write_time))
    pure (ntstatus_from_respstatus status))

  module _ (steady : ℕ → ℕ) where
    unfoldable pub get_file_information : WideString → Exec Call (Ntstatus × Option FileInformation)
    get_file_information filename s =
        caught (status_unsuccessful, none)
          ((on_conn (req_stat_file steady unicode filename) >>= information_answer) s)

    abbrev pub list_files : WideString → Exec Call Ntstatus
    list_files filename = handler (do
      status ← on_conn (req_list_file_stats unicode steady filename)
      pure (ntstatus_from_respstatus status))

    -- The entries are those that `find_data_of` makes of what the listing consumed.
    unfoldable pub find_files : WideString → Exec Call (Option Ntstatus)
    find_files filename s =
        let r = list_files filename s in
        let consumed = drop (length s.conn.consumed) r.1.conn.consumed in
        (filled (all_filled consumed) r.0, r.1)

    unfoldable pub set_file_attributes : WideString → ℕ → Exec Call Ntstatus
    set_file_attributes file_name file_attributes = handler (do
      answer ← on_conn (req_stat_file steady unicode file_name)
      pure (attributes_answer file_attributes answer))
