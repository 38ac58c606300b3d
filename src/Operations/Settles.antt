-- ===== src/Operations/Settles.antt =====
-- Callbacks that return: rules for what nandroidfs/operations.cpp is built of.
pub mod Create
use nandroidfs.Operations.Callbacks.{
  invalid_parameter, overrun, nothing, on_get_volume_information, status, on_close_file,
  on_get_disk_free_space, on_set_allocation_size, on_set_end_of_file, on_move_file,
  on_delete_directory, on_delete_file, on_set_file_time, on_set_file_attributes, on_find_files,
  on_get_file_information, on_write_file, on_read_file, on_clean_up, on_create_file,
  nandroid_operations, Copy, with_outputs, gives, Answer, Callback,
}
use nandroidfs.Operations.Attributes.{
  filled, set_file_time, information_answer, get_file_information, find_files, set_file_attributes,
}
use nandroidfs.Connection.Settles.{
  req_set_file_time-Settles, req_stat_file-Settles, req_remove_directory-Settles,
  req_open_file-Settles, req_remove_file-Settles, req_create_directory-Settles,
  req_can_remove_file-Settles, req_can_remove_directory-Settles, req_move_entry-Settles,
  req_write_to_file-Settles, req_set_file_len-Settles, req_read_from_file-Settles,
  req_close_file-Settles, req_get_disk_stats-Settles,
}
use nandroidfs.Conversion.{
  FileTime, status_file_is_a_directory, status_object_name_not_found, status_success, WideString,
  Unicode, status_access_denied, status_unsuccessful, Ntstatus,
}
use nandroidfs.Operations.Transfer.{
  disk_space, delete_file, delete_directory, move_file, with_output, handler_with, answer_status,
  read_file, write_file, set_end_of_file, set_allocation_size, get_disk_free_space,
}
use nandroidfs.Protocol.{open_only, ResponseStatus, OpenMode, success, file_not_found}
use nandroidfs.Operations.Create.{
  CreateFlags, create_entry, create_statted, create_file, no_access, remove_entry,
  CreationDisposition, clean_up, open_with, handle_create_file, handle_create_directory, close_file,
  create_always, create_new, open_always, open_existing, truncate_existing, unknown,
}
use nandroidfs.Connection.Requests.{
  req_stat_file, req_get_disk_stats, req_set_file_len, req_read_from_file, req_write_to_file,
  req_close_file,
}
use nandroidfs.Protocol.Responses.{FileStat}
use nandroidfs.Connection.Ends.{req_list_file_stats-Settles}
use nandroidfs.Base.{
  ◌&&◌, length, refl, inr, inl, Bool-cases, Option, if◌then◌else◌, ◌||◌, ◌≡◌, ◌≢◌, Bool, not, Bytes,
  ◌==◌, All, ℕ, true, false, some, none,
}
use nandroidfs.Operations.{
  caught, no_handle, Call, FileInfo, FileContext, handler, handler_void, on_conn, set_info,
  set_context,
}
use nandroidfs.Exec.{
  gets, pure, Exec, Result, ok, raise, eof, socket_error, runtime, undefined, stuck, ◌>>=◌,
  continue,
}
use nandroidfs.Connection.{Client}
use nandroidfs.Daemon.Settles.{
  Settles, Settles-pure, Settles-throw, Settles-if, Settles-bind, Settles-then,
}

-- It ends with a value, and throws nothing.
pub record Returns {A : Type 0} (m : Exec Call A) : Type 0 where
  pub at : (s : Call) → (a : A) × ((m s).0 ≡ ok a)

pub caught-ok :
    {A : Type 0} (failed : A) (r : Result A × Call)
    → r.0 ≢ raise stuck
    → (a : A) × ((caught failed r).0 ≡ ok a)
caught-ok failed (ok a, s) h = (a, refl)
caught-ok failed (raise stuck, s) h = absurd (h refl)
caught-ok failed (raise eof, s) h = (failed, refl)
caught-ok failed (raise (socket_error n), s) h = (failed, refl)
caught-ok failed (raise runtime, s) h = (failed, refl)
caught-ok failed (raise undefined, s) h = (failed, refl)

pub handler-Returns : (m : Exec Call Ntstatus) → Settles m → Returns (handler m)
unfolding handler
handler-Returns m h = record { at = λ s. caught-ok status_unsuccessful (m s) (h.at s) }

pub handler_void-Returns : (m : Exec Call Unit) → Settles m → Returns (handler_void m)
unfolding handler_void
handler_void-Returns m h = record { at = λ s. caught-ok tt (m s) (h.at s) }

pub handler_with-Returns :
    {A : Type 0} (m : Exec Call (Ntstatus × Option A)) → Settles m → Returns (handler_with m)
handler_with-Returns m h = record { at = λ s. caught-ok (status_unsuccessful, none) (m s) (h.at s) }

-- The callbacks that can end the program or write past a buffer.
abbrev pub may_end : Callback → Bool
may_end (on_find_files name) = true
may_end (on_get_volume_information volume_name_size fs_name_size) = true
may_end (on_read_file buffer_len offset) = true
may_end _ = false

abbrev pub returned : Answer → Bool
returned (status s) = true
returned nothing = true
returned invalid_parameter = false
returned overrun = false

pub record Answers (callback : Callback) (m : Exec Call Answer) : Type 0 where
  pub at :
      (s : Call) → (a : Answer) × ((m s).0 ≡ ok a) × (may_end callback ≡ false → returned a ≡ true)

pub gives-Answers :
    {A : Type 0} (callback : Callback) (f : A → Answer) (m : Exec Call A)
    → Returns m
    → ((a : A) → may_end callback ≡ false → returned (f a) ≡ true)
    → Answers callback (gives f m)
gives-Answers callback f m h all = record {
  at = λ s. let (a, e) = h.at s in (f a, rw e refl, all a);
}

pub pure-Answers :
    (callback : Callback) (a : Answer)
    → (may_end callback ≡ false → returned a ≡ true)
    → Answers callback (pure a)
pure-Answers callback a h = record { at = λ s. (a, refl, h) }

pub filled-ok :
    (b : Bool) (r : Result Ntstatus)
    → (st : Ntstatus) × (r ≡ ok st)
    → (answer : Option Ntstatus) × (filled b r ≡ ok answer)
filled-ok true r (st, e) = (some st, rw e refl)
filled-ok false r (st, e) = (none, rw e refl)

pub Settles-on_conn : {A : Type 0} (m : Exec Client A) → Settles m → Settles (on_conn m)
unfolding on_conn
Settles-on_conn m h = record { at = λ s. h.at s.conn }

pub Settles-set_info : (f : FileInfo → FileInfo) → Settles (set_info f)
unfolding set_info
Settles-set_info f = record { at = λ s e. cc }

pub Settles-set_context : (f : FileContext → FileContext) → Settles (set_context f)
unfolding set_context
Settles-set_context f = record { at = λ s e. cc }

pub Settles-gets : {A : Type 0} (f : Call → A) → Settles (gets f)
Settles-gets f = record { at = λ s e. cc }

pub if-settles :
    {A : Type 0} (test : Bool) (r q : Result A × Call)
    → r.0 ≢ raise stuck
    → q.0 ≢ raise stuck
    → (if test then r else q).0 ≢ raise stuck
if-settles true r q h k = h
if-settles false r q h k = k

-- Code that looks at the call before it chooses.
pub Settles-choose :
    {A : Type 0} (test : Call → Bool) (m n : Call → Exec Call A)
    → ((s : Call) → Settles (m s))
    → ((s : Call) → Settles (n s))
    → Settles (λ s. if test s then m s s else n s s)
Settles-choose test m n km kn = record {
  at = λ s. elim (Bool-cases (test s)) [ inl e ↦ rw e ((km s).at s) | inr e ↦ rw e ((kn s).at s) ];
}

pub ruleset call_rules = (
  Settles-pure, Settles-if, Settles-bind, Settles-then, Settles-on_conn, Settles-set_info,
  Settles-set_context, Settles-gets,
)
