-- ===== src/Operations.antt =====
-- nandroidfs/operations.cpp: what Dokan's callbacks share. A callback works on the connection and
-- on what Dokan keeps for the open file.
pub mod Create
pub mod Transfer
pub mod Attributes
pub mod Times
pub mod Information
pub mod Callbacks
pub mod Settles
pub mod Returns
pub mod Plan
pub mod Opened
mod Tests
use nandroidfs.Base.{ℕ, ◌-◌, ◌^◌, Bool, true, false, Option, none, some}
use nandroidfs.Exec.{Exec, Result, ok, raise, stuck}
use nandroidfs.Conversion.{Ntstatus, status_unsuccessful}
use nandroidfs.Connection.{Client}

-- FileContext (nandroidfs/FileContext.hpp).
pub record FileContext : Type 0 where
  pub handle : ℕ
  pub read_access : Bool
  pub write_access : Bool

-- -1 as a FILE_HANDLE of 32 bits.
abbrev pub no_handle : ℕ
no_handle = 4294967295

-- DOKAN_FILE_INFO, as far as it is used.
pub record FileInfo : Type 0 where
  pub delete_on_close : Bool
  pub is_directory : Bool
  pub context : FileContext

-- `unmounted` is whether `Nandroid::unmount` was called.
pub record Call : Type 0 where
  pub conn : Client
  pub file_info : FileInfo
  pub unmounted : Bool

unfoldable pub on_conn : {A : Type 0} → Exec Client A → Exec Call A
on_conn m s = let r = m s.conn in (r.0, record s { conn = r.1 })

unfoldable pub set_info : (FileInfo → FileInfo) → Exec Call Unit
set_info f s = (ok tt, record s { file_info = f s.file_info })

unfoldable pub set_context : (FileContext → FileContext) → Exec Call Unit
set_context f s =
    (ok tt, record s { file_info = record s.file_info { context = f s.file_info.context } })

-- NAN_HANDLER_START and NAN_HANDLER_END: any exception unmounts, and gives `failed`. A loop of the
-- model that is out of fuel is no exception, and the client raises no `undefined`.
abbrev pub caught : {A : Type 0} → A → Result A × Call → Result A × Call
caught failed (ok a, s) = (ok a, s)
caught failed (raise stuck, s) = (raise stuck, s)
caught failed (raise e, s) = (ok failed, record s { unmounted = true })

unfoldable pub handler : Exec Call Ntstatus → Exec Call Ntstatus
handler m s = caught status_unsuccessful (m s)

unfoldable pub handler_void : Exec Call Unit → Exec Call Unit
handler_void m s = caught tt (m s)
