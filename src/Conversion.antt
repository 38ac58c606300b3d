-- ===== src/Conversion.antt =====
-- nandroidfs/conversion.cpp: from the formats of the device to those of Windows and back. The
-- constants of the Windows headers are constructors; a wide string is a list of UTF-16 units, and
-- the conversions of Windows between these and UTF-8 are a parameter.
pub mod Times
use Prim.Native.Nat.{bit_and, bit_or}
use nandroidfs.Base.{
  Option, none, some, ℕ, ◌+◌, ◌-◌, ◌*◌, ◌/◌, ◌%◌, ◌^◌, Bool, List, [], ◌∷◌, Bytes, ◌==◌, ltb, ◌&&◌,
  if◌then◌else◌, length,
}
use nandroidfs.Path.{ends_with, pop_back, slash}
use nandroidfs.Protocol.{
  ResponseStatus, success, access_denied, file_not_found, file_exists, not_a_directory,
  directory_not_empty,
}

-- The values of NTSTATUS that the program returns.
pub data Ntstatus : Type 0 where
  status_success status_unsuccessful status_access_denied status_object_name_not_found : Ntstatus
  status_object_name_collision status_not_a_directory status_directory_not_empty : Ntstatus
  status_file_is_a_directory status_not_implemented : Ntstatus

unfoldable pub ntstatus_from_respstatus : ResponseStatus → Ntstatus
ntstatus_from_respstatus success = status_success
ntstatus_from_respstatus file_not_found = status_object_name_not_found
ntstatus_from_respstatus access_denied = status_access_denied
ntstatus_from_respstatus file_exists = status_object_name_collision
ntstatus_from_respstatus not_a_directory = status_not_a_directory
ntstatus_from_respstatus directory_not_empty = status_directory_not_empty
ntstatus_from_respstatus _ = status_unsuccessful

-- FILE_ATTRIBUTE_DIRECTORY and FILE_ATTRIBUTE_NORMAL.
pub data FileAttributes : Type 0 where
  directory normal : FileAttributes

unfoldable pub file_attributes_from_st_mode : ℕ → FileAttributes
file_attributes_from_st_mode st_mode =
    if bit_and st_mode 0xF000 == 0x4000 then directory else normal

-- Seconds.
abbrev pub epoch_difference : ℕ
epoch_difference = 11644473600

-- FILETIME: two words of 32 bits.
pub record FileTime : Type 0 where
  pub low_date_time : ℕ
  pub high_date_time : ℕ

unfoldable pub filetime_from_unix_time : ℕ → FileTime
filetime_from_unix_time unix_time =
    let since_windows_epoch = (unix_time + epoch_difference) % 2 ^ 64 in
    let win_epoch_valid_res = 10000000 * since_windows_epoch % 2 ^ 64 in
    record {
      low_date_time = win_epoch_valid_res % 2 ^ 32;
      high_date_time = win_epoch_valid_res / 2 ^ 32 % 2 ^ 32;
    }

-- `std::max` of a signed number, given as its bits, and 0.
abbrev pub max_zero : ℕ → ℕ
max_zero bits = if ltb bits (2 ^ 63) then bits else 0

unfoldable pub unix_time_from_filetime : FileTime → ℕ
unix_time_from_filetime file_time =
    let file_time_u64 =
      bit_or (file_time.high_date_time * 2 ^ 32) file_time.low_date_time / 10000000 in
    max_zero ((file_time_u64 + 2 ^ 64 - epoch_difference) % 2 ^ 64)

abbrev pub WideString : Type 0
WideString = List ℕ

-- `WideCharToMultiByte(CP_UTF8, ..)` and `wstring_convert`, on strings without their NUL; the latter
-- throws std::range_error (`none`) on what is not UTF-8.
pub record Unicode : Type 0 where
  pub to_utf8 : WideString → Bytes
  pub from_utf8 : Bytes → Option WideString

-- std::replace
unfoldable pub replace : ℕ → ℕ → List ℕ → List ℕ
replace old new [] = []
replace old new (c ∷ s) = let rest = replace old new s in (if c == old then new else c) ∷ rest

abbrev pub backslash : ℕ
backslash = b'\\'

unfoldable pub trim_slash : Bytes → Bytes
trim_slash path = if ltb 1 (length path) && ends_with path slash then pop_back path else path

unfoldable pub win32_path_to_unix : Unicode → WideString → Bytes
win32_path_to_unix unicode win32_path =
    trim_slash (replace backslash slash (unicode.to_utf8 win32_path))

abbrev with_backslashes : Option WideString → Option WideString
with_backslashes none = none
with_backslashes (some win32_path) = some (replace slash backslash win32_path)

unfoldable pub unix_path_to_win32 : Unicode → Bytes → Option WideString
unix_path_to_win32 unicode unix_path = with_backslashes (unicode.from_utf8 unix_path)
