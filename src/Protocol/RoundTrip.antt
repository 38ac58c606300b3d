-- ===== src/Protocol/RoundTrip.antt =====
-- Each record that one side writes is read back by the other, whatever follows it on the stream.
pub mod Responses
pub use Responses.*
use nandroidfs.Protocol.Requests.{
  write_write_handle_init_args, write_move_entry_args, write_truncate_handle_args,
  write_set_file_time_args, from_bool, to_bool, WriteHandleInitArgs, read_write_handle_init_args,
  MoveEntryArgs, read_move_entry_args, TruncateHandleArgs, read_truncate_handle_args,
  SetFileTimeArgs, read_set_file_time_args, OpenHandleArgs, unpack_mode, pack_mode,
  read_open_handle_args, write_open_handle_args, ReadHandleArgs, read_read_handle_args,
  write_read_handle_args,
}
use nandroidfs.Base.{
  ◌∷◌, [], ◌^◌, ◌<◌, ◌≡◌, refl, true, false, Bool, some, ◌++◌, Bytes, length, append_assoc,
}
use nandroidfs.Wire.RoundTrip.{
  read_u16_lem, read_byte_lem, read_u32_lem, read_u64_lem, read_utf8_string_lem,
  write_utf8_string_lem,
}
use nandroidfs.Wire.{◌>>=◌, write_byte, write_u32, write_u64, write_u16}
use nandroidfs.Protocol.{
  OpenMode, open_only, create_if_not_exist, truncate, create_or_truncate, create_always,
  ResponseStatus, status_byte, response_status, success,
}
use nandroidfs.Protocol.Responses.{
  FileStat, read_file_stat, write_file_stat, DiskStats, read_disk_stats, write_disk_stats,
}

-- The path fits the 16-bit length on the wire.
abbrev pub IsPath : Bytes → Type 0
IsPath path = length path < 2 ^ 16

-- One of the five modes that the enum names.
abbrev pub IsMode : OpenMode → Type 0
IsMode (OpenMode.unknown b) = ⊥
IsMode _ = Unit

pub unpack-pack_mode :
    (path : Bytes) (mode : OpenMode) (r w : Bool)
    → IsMode mode
    → unpack_mode path (pack_mode mode r w)
      ≡ record { path = path; mode = mode; read_access = r; write_access = w }
unfolding unpack_mode pack_mode
unpack-pack_mode path open_only true true h = refl
unpack-pack_mode path open_only true false h = refl
unpack-pack_mode path open_only false true h = refl
unpack-pack_mode path open_only false false h = refl
unpack-pack_mode path create_if_not_exist true true h = refl
unpack-pack_mode path create_if_not_exist true false h = refl
unpack-pack_mode path create_if_not_exist false true h = refl
unpack-pack_mode path create_if_not_exist false false h = refl
unpack-pack_mode path truncate true true h = refl
unpack-pack_mode path truncate true false h = refl
unpack-pack_mode path truncate false true h = refl
unpack-pack_mode path truncate false false h = refl
unpack-pack_mode path create_or_truncate true true h = refl
unpack-pack_mode path create_or_truncate true false h = refl
unpack-pack_mode path create_or_truncate false true h = refl
unpack-pack_mode path create_or_truncate false false h = refl
unpack-pack_mode path create_always true true h = refl
unpack-pack_mode path create_always true false h = refl
unpack-pack_mode path create_always false true h = refl
unpack-pack_mode path create_always false false h = refl
unpack-pack_mode path (OpenMode.unknown b) r w h = absurd h

-- What is written for an OpenHandleArgs whose path and mode fit the wire is read back as it was,
-- and what follows it on the stream is left.
pub read-write_open_handle_args :
    (args : OpenHandleArgs) (rest : Bytes)
    → IsPath args.path
    → IsMode args.mode
    → read_open_handle_args ((write_open_handle_args args).bytes ++ rest) ≡ some (args, rest)
unfolding read_open_handle_args write_open_handle_args write_byte
read-write_open_handle_args args rest hp hm = rw (
  write_utf8_string_lem args.path hp,
  append_assoc,
  read_utf8_string_lem args.path _ hp,
  ◌>>=◌,
  read_byte_lem,
  ◌>>=◌,
  unpack-pack_mode args.path args.mode args.read_access args.write_access hm,
)

pub record FitsRead (args : ReadHandleArgs) : Type 0 where
  pub handle : args.handle < 2 ^ 32
  pub data_len : args.data_len < 2 ^ 32
  pub offset : args.offset < 2 ^ 64

-- What is written for a ReadHandleArgs whose fields fit the wire is read back as it was, and what
-- follows it on the stream is left.
pub read-write_read_handle_args :
    (args : ReadHandleArgs) (rest : Bytes)
    → FitsRead args
    → read_read_handle_args ((write_read_handle_args args).bytes ++ rest) ≡ some (args, rest)
unfolding read_read_handle_args write_read_handle_args write_u32 write_u64
read-write_read_handle_args args rest fits = rw (
  read_u32_lem args.handle _ fits.handle,
  ◌>>=◌,
  read_u32_lem args.data_len _ fits.data_len,
  ◌>>=◌,
  read_u64_lem args.offset _ fits.offset,
  ◌>>=◌,
)

pub record FitsWrite (args : WriteHandleInitArgs) : Type 0 where
  pub handle : args.handle < 2 ^ 32
  pub offset : args.offset < 2 ^ 64
  pub data_len : args.data_len < 2 ^ 32

-- What is written for a WriteHandleInitArgs whose fields fit the wire is read back as it was, and
-- what follows it on the stream is left.
pub read-write_write_handle_init_args :
    (args : WriteHandleInitArgs) (rest : Bytes)
    → FitsWrite args
    → read_write_handle_init_args ((write_write_handle_init_args args).bytes ++ rest)
      ≡ some (args, rest)
unfolding read_write_handle_init_args write_write_handle_init_args write_u32 write_u64
read-write_write_handle_init_args args rest fits = rw (
  read_u32_lem args.handle _ fits.handle,
  ◌>>=◌,
  read_u64_lem args.offset _ fits.offset,
  ◌>>=◌,
  read_u32_lem args.data_len _ fits.data_len,
  ◌>>=◌,
)

to_bool-from_bool : (b : Bool) → to_bool (from_bool b) ≡ b
to_bool-from_bool true = refl
to_bool-from_bool false = refl

pub record FitsMove (args : MoveEntryArgs) : Type 0 where
  pub from_path : IsPath args.from_path
  pub to_path : IsPath args.to_path

-- What is written for a MoveEntryArgs whose paths fit the wire is read back as it was, and what
-- follows it on the stream is left.
pub read-write_move_entry_args :
    (args : MoveEntryArgs) (rest : Bytes)
    → FitsMove args
    → read_move_entry_args ((write_move_entry_args args).bytes ++ rest) ≡ some (args, rest)
unfolding read_move_entry_args write_move_entry_args write_byte
read-write_move_entry_args args rest fits = rw (
  write_utf8_string_lem args.from_path fits.from_path,
  write_utf8_string_lem args.to_path fits.to_path,
  append_assoc,
  append_assoc,
  read_utf8_string_lem args.from_path _ fits.from_path,
  ◌>>=◌,
  append_assoc args.to_path (from_bool args.overwrite ∷ []) rest,
  read_utf8_string_lem args.to_path _ fits.to_path,
  ◌>>=◌,
  read_byte_lem,
  ◌>>=◌,
  to_bool-from_bool args.overwrite,
)

pub record FitsTruncate (args : TruncateHandleArgs) : Type 0 where
  pub handle : args.handle < 2 ^ 32
  pub new_length : args.new_length < 2 ^ 64

-- What is written for a TruncateHandleArgs whose fields fit the wire is read back as it was, and
-- what follows it on the stream is left.
pub read-write_truncate_handle_args :
    (args : TruncateHandleArgs) (rest : Bytes)
    → FitsTruncate args
    → read_truncate_handle_args ((write_truncate_handle_args args).bytes ++ rest)
      ≡ some (args, rest)
unfolding read_truncate_handle_args write_truncate_handle_args write_u32 write_u64
read-write_truncate_handle_args args rest fits = rw (
  read_u32_lem args.handle _ fits.handle,
  ◌>>=◌,
  read_u64_lem args.new_length _ fits.new_length,
  ◌>>=◌,
)

pub record FitsTime (args : SetFileTimeArgs) : Type 0 where
  pub path : IsPath args.path
  pub access_time : args.access_time < 2 ^ 64
  pub write_time : args.write_time < 2 ^ 64

-- What is written for a SetFileTimeArgs whose fields fit the wire is read back as it was, and what
-- follows it on the stream is left.
pub read-write_set_file_time_args :
    (args : SetFileTimeArgs) (rest : Bytes)
    → FitsTime args
    → read_set_file_time_args ((write_set_file_time_args args).bytes ++ rest) ≡ some (args, rest)
unfolding read_set_file_time_args write_set_file_time_args write_u64
read-write_set_file_time_args args rest fits = rw (
  write_utf8_string_lem args.path fits.path,
  append_assoc,
  read_utf8_string_lem args.path _ fits.path,
  ◌>>=◌,
  read_u64_lem args.access_time _ fits.access_time,
  ◌>>=◌,
  read_u64_lem args.write_time _ fits.write_time,
  ◌>>=◌,
)
