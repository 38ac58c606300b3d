-- ===== src/Adb/Tests.antt =====
-- A command whose output comes in two chunks.
use nandroidfs.Adb.Handles.{
  invoke_process_handles_lem, succeeds, no_handles, ProcessCalls, invoke_process_handles,
}
use nandroidfs.Adb.{false, Windows, Process, Adb, find_adb_path, invoke_adb_with_serial}
use nandroidfs.Base.{true, ◌≡◌, refl, none, some, List, [], ◌∷◌, Bytes}
use nandroidfs.Exec.{ok}
use nandroidfs.Text.{codes}
use nandroidfs.Nandroid.Output.{concat}
use nandroidfs.Adb.Output.{at_end, invoke_adb_with_serial_lem}

abbrev chunks : List Bytes
chunks = codes "one" ∷ codes "two" ∷ []

abbrev talking : Process
talking = record { output = some (codes "one") ∷ some (codes "two") ∷ []; exit_code = some 0 }

abbrev windows : Windows
windows = record {
  creates_pipe = true;
  create_process = λ command_line. some talking;
  included_adb_path = none;
}

abbrev not_searched : Adb
not_searched = record { adb_invoke_path = none; probed = [] }

found_on_path : (find_adb_path windows not_searched).0 ≡ ok (codes "adb")
unfolding find_adb_path
found_on_path = refl

invoke_adb_with_serial_lem_example :
    invoke_adb_with_serial windows (codes "A") (codes "push a b") not_searched
    ≡ (ok (concat chunks), (find_adb_path windows not_searched).1)
invoke_adb_with_serial_lem_example =
    invoke_adb_with_serial_lem windows not_searched (codes "adb") (codes "A") (codes "push a b")
      chunks [] found_on_path refl refl (tt, (tt, tt)) at_end

abbrev no_such_program : ProcessCalls
no_such_program = record {
  create_pipe = true;
  set_handle_information = true;
  create_process = false;
  get_exit_code = true;
}

invoke_process_handles_lem_example :
    let (r, h) = invoke_process_handles no_such_program no_handles in
    (succeeds r ≡ false)
    × (h.child_stdout_read ≡ true)
    × (h.child_stdout_write ≡ true)
    × (h.process ≡ false)
    × (h.thread ≡ false)
invoke_process_handles_lem_example = invoke_process_handles_lem no_such_program
