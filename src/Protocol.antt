-- ===== src/Protocol.antt =====
-- nandroid_shared/requests.hpp and responses.hpp: the enums of the protocol and their bytes.
-- A cast of a byte that no enumerator has gives `unknown`.
pub mod Requests
pub mod Responses
pub mod RoundTrip
pub mod Shrink
pub mod Request
mod Tests
use nandroidfs.Base.{
  ℕ, zero, suc, ◌<◌, Bool, true, false, List, [], ◌∷◌, ◌==◌, if◌then◌else◌, Bytes,
}

pub data RequestType : Type 0 where
  stat_file : RequestType
  list_directory : RequestType
  create_directory : RequestType
  check_remove_file : RequestType
  check_remove_directory : RequestType
  remove_file : RequestType
  remove_directory : RequestType
  move_entry : RequestType
  open_handle : RequestType
  close_handle : RequestType
  read_handle : RequestType
  write_handle : RequestType
  truncate_handle : RequestType
  set_file_time : RequestType
  get_disk_stats : RequestType
  unknown : ℕ → RequestType

abbrev pub request_byte : RequestType → ℕ
request_byte stat_file = 0
request_byte list_directory = 1
request_byte create_directory = 2
request_byte check_remove_file = 3
request_byte check_remove_directory = 4
request_byte remove_file = 5
request_byte remove_directory = 6
request_byte move_entry = 7
request_byte open_handle = 8
request_byte close_handle = 9
request_byte read_handle = 10
request_byte write_handle = 11
request_byte truncate_handle = 12
request_byte set_file_time = 13
request_byte get_disk_stats = 14
request_byte (RequestType.unknown b) = b

-- The enumerator at a position, or the default.
abbrev pub nth : {A : Type 0} → List A → ℕ → A → A
nth [] n d = d
nth (x ∷ xs) zero d = x
nth (x ∷ xs) (suc n) d = nth xs n d

abbrev pub request_types : List RequestType
request_types =
    stat_file ∷ list_directory ∷ create_directory ∷ check_remove_file ∷ check_remove_directory
    ∷ remove_file ∷ remove_directory ∷ move_entry ∷ open_handle ∷ close_handle ∷ read_handle
    ∷ write_handle ∷ truncate_handle ∷ set_file_time ∷ get_disk_stats ∷ []

abbrev pub request_type : ℕ → RequestType
request_type b = nth request_types b (RequestType.unknown b)

pub data OpenMode : Type 0 where
  open_only : OpenMode
  create_if_not_exist : OpenMode
  truncate : OpenMode
  create_or_truncate : OpenMode
  create_always : OpenMode
  unknown : ℕ → OpenMode

abbrev pub mode_byte : OpenMode → ℕ
mode_byte open_only = 0
mode_byte create_if_not_exist = 1
mode_byte truncate = 2
mode_byte create_or_truncate = 3
mode_byte create_always = 4
mode_byte (OpenMode.unknown b) = b

abbrev pub open_mode : ℕ → OpenMode
open_mode b =
    nth (open_only ∷ create_if_not_exist ∷ truncate ∷ create_or_truncate ∷ create_always ∷ []) b
      (OpenMode.unknown b)

pub data ResponseStatus : Type 0 where
  success : ResponseStatus
  generic_failure : ResponseStatus
  access_denied : ResponseStatus
  not_a_directory : ResponseStatus
  not_a_file : ResponseStatus
  file_not_found : ResponseStatus
  file_exists : ResponseStatus
  directory_not_empty : ResponseStatus
  no_more_entries : ResponseStatus
  unknown : ℕ → ResponseStatus

abbrev pub status_byte : ResponseStatus → ℕ
status_byte success = 0
status_byte generic_failure = 1
status_byte access_denied = 2
status_byte not_a_directory = 3
status_byte not_a_file = 4
status_byte file_not_found = 5
status_byte file_exists = 6
status_byte directory_not_empty = 7
status_byte no_more_entries = 8
status_byte (ResponseStatus.unknown b) = b

abbrev pub statuses : List ResponseStatus
statuses =
    success ∷ generic_failure ∷ access_denied ∷ not_a_directory ∷ not_a_file ∷ file_not_found
    ∷ file_exists ∷ directory_not_empty ∷ no_more_entries ∷ []

abbrev pub response_status : ℕ → ResponseStatus
response_status b = nth statuses b (ResponseStatus.unknown b)

-- The tests `== Success` and `== NoMoreEntries` of the code.
abbrev pub is_success : ResponseStatus → Bool
is_success success = true
is_success _ = false
