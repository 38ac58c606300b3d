-- ===== src/Protocol/Requests.antt =====
-- nandroid_shared/requests.cpp: the argument records, each with its reader and its writer.
-- A 64-bit time is a bit pattern: -1 is 2 ^ 64 - 1.
use Prim.Native.Nat.{bit_and, bit_or}
use nandroidfs.Base.{ℕ, Bool, not, ◌==◌, if◌then◌else◌, Bytes}
use nandroidfs.Wire.{
  Get, Put, ◌>>=◌, pure, ◌⨾◌, read_byte, read_u32, read_u64, read_utf8_string, write_byte,
  write_u32, write_u64, write_utf8_string,
}
use nandroidfs.Protocol.{OpenMode, open_mode, mode_byte}

pub record OpenHandleArgs : Type 0 where
  pub path : Bytes
  pub mode : OpenMode
  pub read_access : Bool
  pub write_access : Bool

-- The conversion of a number to `bool`.
abbrev pub to_bool : ℕ → Bool
to_bool n = not (n == 0)

abbrev pub from_bool : Bool → ℕ
from_bool b = if b then 1 else 0

unfoldable pub unpack_mode : Bytes → ℕ → OpenHandleArgs
unpack_mode path mode_and_perms = record {
  path = path;
  mode = open_mode (bit_and mode_and_perms 0b00111111);
  read_access = to_bool (bit_and mode_and_perms 0b10000000);
  write_access = to_bool (bit_and mode_and_perms 0b01000000);
}

unfoldable pub pack_mode : OpenMode → Bool → Bool → ℕ
pack_mode mode read_access write_access =
    bit_or (bit_or (mode_byte mode) (if read_access then 0b10000000 else 0))
      (if write_access then 0b01000000 else 0)

unfoldable pub read_open_handle_args : Get OpenHandleArgs
read_open_handle_args = do
  path ← read_utf8_string
  mode_and_perms ← read_byte
  pure (unpack_mode path mode_and_perms)

unfoldable pub write_open_handle_args : OpenHandleArgs → Put
write_open_handle_args args =
    write_utf8_string args.path
    ⨾ write_byte (pack_mode args.mode args.read_access args.write_access)

pub record ReadHandleArgs : Type 0 where
  pub handle : ℕ
  pub data_len : ℕ
  pub offset : ℕ

unfoldable pub read_read_handle_args : Get ReadHandleArgs
read_read_handle_args = do
  handle ← read_u32
  data_len ← read_u32
  offset ← read_u64
  pure (record { handle = handle; data_len = data_len; offset = offset })

unfoldable pub write_read_handle_args : ReadHandleArgs → Put
write_read_handle_args args =
    write_u32 args.handle ⨾ write_u32 args.data_len ⨾ write_u64 args.offset

pub record WriteHandleInitArgs : Type 0 where
  pub handle : ℕ
  pub offset : ℕ
  pub data_len : ℕ

unfoldable pub read_write_handle_init_args : Get WriteHandleInitArgs
read_write_handle_init_args = do
  handle ← read_u32
  offset ← read_u64
  data_len ← read_u32
  pure (record { handle = handle; offset = offset; data_len = data_len })

unfoldable pub write_write_handle_init_args : WriteHandleInitArgs → Put
write_write_handle_init_args args =
    write_u32 args.handle ⨾ write_u64 args.offset ⨾ write_u32 args.data_len

pub record MoveEntryArgs : Type 0 where
  pub from_path : Bytes
  pub to_path : Bytes
  pub overwrite : Bool

unfoldable pub read_move_entry_args : Get MoveEntryArgs
read_move_entry_args = do
  from_path ← read_utf8_string
  to_path ← read_utf8_string
  overwrite ← read_byte
  pure (record { from_path = from_path; to_path = to_path; overwrite = to_bool overwrite })

unfoldable pub write_move_entry_args : MoveEntryArgs → Put
write_move_entry_args args =
    write_utf8_string args.from_path
    ⨾ write_utf8_string args.to_path
    ⨾ write_byte (from_bool args.overwrite)

pub record TruncateHandleArgs : Type 0 where
  pub handle : ℕ
  pub new_length : ℕ

unfoldable pub read_truncate_handle_args : Get TruncateHandleArgs
read_truncate_handle_args = do
  handle ← read_u32
  new_length ← read_u64
  pure (record { handle = handle; new_length = new_length })

unfoldable pub write_truncate_handle_args : TruncateHandleArgs → Put
write_truncate_handle_args args = write_u32 args.handle ⨾ write_u64 args.new_length

pub record SetFileTimeArgs : Type 0 where
  pub path : Bytes
  pub access_time : ℕ
  pub write_time : ℕ

unfoldable pub read_set_file_time_args : Get SetFileTimeArgs
read_set_file_time_args = do
  path ← read_utf8_string
  access_time ← read_u64
  write_time ← read_u64
  pure (record { path = path; access_time = access_time; write_time = write_time })

unfoldable pub write_set_file_time_args : SetFileTimeArgs → Put
write_set_file_time_args args =
    write_utf8_string args.path ⨾ write_u64 args.access_time ⨾ write_u64 args.write_time
