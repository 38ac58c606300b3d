-- ===== src/Adb.antt =====
-- nandroidfs/Adb.cpp: the search for adb and the processes that run it. What Windows does for a
-- command line is the parameter `Windows`. Wide strings are lists of UTF-16 units; the output of a
-- process is bytes.
pub mod Output
pub mod Handles
mod Tests
use nandroidfs.Base.{
  true, false, ℕ, suc, ◌+◌, Bool, Option, none, some, List, [], ◌∷◌, ◌++◌, Bytes, length,
  if◌then◌else◌, ◌==◌,
}
use nandroidfs.Exec.{Exec, Result, ok, raise, runtime, pure, throw, ◌>>=◌, ◌>>◌}
use nandroidfs.Text.{codes}
use nandroidfs.Conversion.{WideString}

-- A process: what `ReadFile` gives of its output, call by call, where `none` is a failure and the
-- end of the list the end of the file, and what `GetExitCodeProcess` gives.
pub record Process : Type 0 where
  pub output : List (Option Bytes)
  pub exit_code : Option ℕ

-- Whether the pipe can be made, what `CreateProcess` does for a command line, and the path that the
-- installer puts adb at.
pub record Windows : Type 0 where
  pub creates_pipe : Bool
  pub create_process : WideString → Option Process
  pub included_adb_path : Option WideString

-- `adb_invoke_path`, and the installations that were looked for.
pub record Adb : Type 0 where
  pub adb_invoke_path : Option WideString
  pub probed : List WideString

module _ {S : Type 0} (consume_output : Bytes → S → S) where
  -- The loop around `ReadFile`.
  unfoldable pub capture : List (Option Bytes) → S → S
  capture [] s = s
  capture (none ∷ reads) s = s
  capture (some [] ∷ reads) s = s
  capture (some (b ∷ chunk) ∷ reads) s = capture reads (consume_output (b ∷ chunk) s)

  abbrev exit_result : Option ℕ → Result ℕ
  exit_result none = raise runtime
  exit_result (some code) = ok code

  abbrev run_process : Option Process → Exec S ℕ
  run_process none s = (raise runtime, s)
  run_process (some p) s = (exit_result p.exit_code, capture p.output s)

  unfoldable pub invoke_process_capture_output : Windows → WideString → Exec S ℕ
  unfolding capture
  invoke_process_capture_output w command_line s =
      if w.creates_pipe then run_process (w.create_process command_line) s else (raise runtime, s)

-- The captured output is appended to a string.
abbrev pub append_output : Bytes → Bytes → Bytes
append_output chunk output = output ++ chunk

abbrev pub zero_exit : Result ℕ × Bytes → Result Bytes
zero_exit (raise e, output) = raise e
zero_exit (ok exit_code, output) = if exit_code == 0 then ok output else raise runtime

unfoldable pub invoke_throw_on_nonzero : Windows → WideString → Result Bytes
unfolding invoke_process_capture_output
invoke_throw_on_nonzero w command_line =
    zero_exit (invoke_process_capture_output append_output w command_line [])

-- The path in quotes.
abbrev pub quoted : WideString → WideString
quoted path = codes "\"" ++ path ++ codes "\""

abbrev pub with_serial : WideString → WideString → WideString → WideString
with_serial path serial args = path ++ codes " -s " ++ serial ++ codes " " ++ args

module _ (w : Windows) where
  abbrev is_process : Option Process → Bool
  is_process none = false
  is_process (some p) = true

  unfoldable pub adb_install_exists : WideString → Adb → Bool × Adb
  adb_install_exists invoke_path a = (
    is_process (w.create_process invoke_path),
    record a { probed = a.probed ++ (invoke_path ∷ []) },
  )

  abbrev found : WideString → Adb → Result WideString × Adb
  found path a = (ok path, record a { adb_invoke_path = some path })

  abbrev try_included : Option WideString → Exec Adb WideString
  try_included none a = (raise runtime, a)
  try_included (some path) a =
      let probe = adb_install_exists (quoted path) a in
      if probe.0 then found (quoted path) probe.1 else (raise runtime, probe.1)

  abbrev search_adb : Option WideString → Exec Adb WideString
  search_adb (some current) a = (ok current, a)
  search_adb none a =
      let probe = adb_install_exists (codes "adb") a in
      let included = try_included w.included_adb_path probe.1 in
      if probe.0 then found (codes "adb") probe.1 else included

  unfoldable pub find_adb_path : Exec Adb WideString
  unfolding adb_install_exists
  find_adb_path a = search_adb a.adb_invoke_path a

  abbrev lift : {A : Type 0} → Result A → Exec Adb A
  lift r a = (r, a)

  unfoldable pub invoke_adb : WideString → Exec Adb Bytes
  unfolding find_adb_path invoke_throw_on_nonzero
  invoke_adb args = do
    path ← find_adb_path
    lift (invoke_throw_on_nonzero w (path ++ codes " " ++ args))

  unfoldable pub invoke_adb_with_serial : WideString → WideString → Exec Adb Bytes
  unfolding find_adb_path invoke_throw_on_nonzero
  invoke_adb_with_serial serial args = do
    path ← find_adb_path
    lift (invoke_throw_on_nonzero w (with_serial path serial args))

  abbrev capture_with :
      {S : Type 0} → (Bytes → S → S) → WideString → WideString → Result WideString × Adb → Exec S ℕ
  capture_with consume_output serial args (raise e, a) s = (raise e, s)
  capture_with consume_output serial args (ok path, a) s =
      invoke_process_capture_output consume_output w (with_serial path serial args) s

  -- The path that was found is kept, and the output goes to `consume_output`.
  unfoldable pub invoke_adb_capture_output :
      {S : Type 0} → WideString → WideString → (Bytes → S → S) → Exec (Adb × S) ℕ
  unfolding find_adb_path invoke_process_capture_output
  invoke_adb_capture_output serial args consume_output (a, s) =
      let found_path = find_adb_path a in
      let run = capture_with consume_output serial args found_path s in
      (run.0, (found_path.1, run.1))
