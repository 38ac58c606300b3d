-- ===== src/Adb/Handles.antt =====
-- The handles that invoke_process_capture_output of nandroidfs/Adb.cpp holds, and which of them it
-- leaves open. Only what the calls of Windows return matters here.
use nandroidfs.Base.{◌≡◌, arith, Bool, true, false, not, ◌&&◌, if◌then◌else◌}
use nandroidfs.Exec.{Exec, Result, ok, raise, runtime, ◌>>◌}

-- Whether each of the calls succeeds.
pub record ProcessCalls : Type 0 where
  pub create_pipe : Bool
  pub set_handle_information : Bool
  pub create_process : Bool
  pub get_exit_code : Bool

-- The handles that are open.
pub record Handles : Type 0 where
  pub child_stdout_read : Bool
  pub child_stdout_write : Bool
  pub process : Bool
  pub thread : Bool

abbrev pub no_handles : Handles
no_handles = record {
  child_stdout_read = false;
  child_stdout_write = false;
  process = false;
  thread = false;
}

-- A call that fails throws; one that succeeds changes the handles.
abbrev pub throwing : Bool → (Handles → Handles) → Exec Handles Unit
throwing succeeds change h = if succeeds then (ok tt, change h) else (raise runtime, h)

abbrev pub close : (Handles → Handles) → Exec Handles Unit
close change h = (ok tt, change h)

unfoldable pub create_stdouterr_pipes : ProcessCalls → Exec Handles Unit
create_stdouterr_pipes c = do
  throwing c.create_pipe (λ h. record h { child_stdout_read = true; child_stdout_write = true })
  throwing c.set_handle_information (λ h. h)

unfoldable pub create_process_pipe_output : ProcessCalls → Exec Handles Unit
create_process_pipe_output c =
    throwing c.create_process (λ h. record h { process = true; thread = true })

-- The reading loop and the wait between the two groups of CloseHandle change no handle.
unfoldable pub invoke_process_handles : ProcessCalls → Exec Handles Unit
unfolding create_stdouterr_pipes create_process_pipe_output
invoke_process_handles c = do
  create_stdouterr_pipes c
  create_process_pipe_output c
  close (λ h. record h { child_stdout_write = false })
  close (λ h. record h { child_stdout_read = false })
  close (λ h. record h { thread = false })
  throwing c.get_exit_code (λ h. h)
  close (λ h. record h { process = false })

abbrev pub succeeds : {A : Type 0} → Result A → Bool
succeeds (ok a) = true
succeeds (raise e) = false

-- An invocation of a process succeeds exactly if all four calls do, and then no handle is left
-- open; both ends of the pipe are left open exactly if it was made and its information cannot be
-- set or the process cannot be made, and the handle of the process exactly if its exit code cannot
-- be read.
pub invoke_process_handles_lem :
    (c : ProcessCalls)
    → let (r, h) = invoke_process_handles c no_handles in
      let started = c.create_pipe && c.set_handle_information && c.create_process in
      (succeeds r ≡ (started && c.get_exit_code))
      × (h.child_stdout_read ≡ (c.create_pipe && not started))
      × (h.child_stdout_write ≡ (c.create_pipe && not started))
      × (h.process ≡ (started && not c.get_exit_code))
      × (h.thread ≡ false)
unfolding invoke_process_handles
invoke_process_handles_lem c = ground arith
