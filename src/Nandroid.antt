-- ===== src/Nandroid.antt =====
-- nandroidfs/Nandroid.cpp: one device, its daemon and its drive. Here are the constructor, `begin`,
-- the destructor and what the lines of the daemon's output do; adb, the connection, the wait for
-- the daemon and Dokan are the parameter `World`.
pub mod Output
pub mod Mount
pub mod Start
mod Tests
use nandroidfs.Base.{
  ◌&&◌, ℕ, zero, suc, ◌+◌, Bool, true, false, Option, none, some, List, [], ◌∷◌, ◌++◌, Bytes,
  length, drop, if◌then◌else◌, ◌==◌,
}
use nandroidfs.Exec.{Exec, Result, ok, raise, runtime, pure, throw, gets, ◌>>=◌, ◌>>◌}
use nandroidfs.Path.{ends_with, pop_back}
use nandroidfs.Text.{codes, newline, carriage_return, substr, starts_with, for_newlines, decimal16}

-- What the thread of the daemon and that of `begin` share, and what was logged of the output.
pub record Agent : Type 0 where
  pub agent_output_buffer : Bytes
  pub agent_ready : Bool
  pub agent_ready_notified : Bool
  pub agent_dead_notified : Bool
  pub agent_log : List Bytes

abbrev pub new_agent : Agent
new_agent = record {
  agent_output_buffer = [];
  agent_ready = false;
  agent_ready_notified = false;
  agent_dead_notified = false;
  agent_log = [];
}

abbrev pub agent_ready_msg : Bytes
agent_ready_msg = codes "NANDROID_READY_FOR_CONNECTION"

abbrev pub mark_ready : Agent → Agent
mark_ready a = record a { agent_ready = true; agent_ready_notified = true }

abbrev drop_ending : ℕ → Bytes → Bytes
drop_ending c line = if ends_with line c then pop_back line else line

-- The body of the loop: the second argument of `substr` is the index of the newline.
unfoldable pub handle_line : Bytes → ℕ → ℕ → Agent → Agent
unfolding starts_with
handle_line text start next a =
    let line = substr start next text in
    let marked = if starts_with line agent_ready_msg then mark_ready a else a in
    record marked {
      agent_log = marked.agent_log ++ (drop_ending carriage_return (drop_ending newline line) ∷ []);
    }

abbrev keep_rest : Bytes → Option (Agent × ℕ) → Option Agent
keep_rest text none = none
keep_rest text (some (a, start)) = some (record a { agent_output_buffer = drop start text })

-- `none` means that the loop ran out of fuel.
unfoldable pub handle_daemon_output : Bytes → Agent → Option Agent
unfolding for_newlines
handle_daemon_output chunk a =
    let text = a.agent_output_buffer ++ chunk in
    keep_rest text (for_newlines (handle_line text) text (suc (length text)) 0 a)

-- The end of `invoke_daemon`.
unfoldable pub daemon_ended : Agent → Agent
daemon_ended a = record a {
  agent_ready = false;
  agent_ready_notified = true;
  agent_dead_notified = true;
}

-- What `DokanCreateFileSystem` may return.
pub data DokanStatus : Type 0 where
  dokan_success dokan_error dokan_drive_letter_error dokan_driver_install_error : DokanStatus
  dokan_start_error dokan_mount_error dokan_mount_point_error dokan_version_error : DokanStatus
  dokan_other : ℕ → DokanStatus

pub data MountFailure : Type 0 where
  unspecified invalid_drive_letter driver_not_installed driver_error : MountFailure
  no_mount_point invalid_mount_point incompatible_version unknown : MountFailure

-- `unfinished` means that the loop ran out of fuel.
pub data Mounting : Type 0 where
  mounted : ℕ → Mounting
  mount_failed : MountFailure → Mounting
  unfinished : Mounting

-- The loop over the drive letters; `retry` is what it does with the next letter.
abbrev pub mount_status : ℕ → Mounting → DokanStatus → Mounting
mount_status letter retry dokan_success = mounted letter
mount_status letter retry dokan_error = mount_failed unspecified
mount_status letter retry dokan_drive_letter_error = mount_failed invalid_drive_letter
mount_status letter retry dokan_driver_install_error = mount_failed driver_not_installed
mount_status letter retry dokan_start_error = mount_failed driver_error
mount_status letter retry dokan_mount_error =
    if letter == b'Z' then mount_failed no_mount_point else retry
mount_status letter retry dokan_mount_point_error = mount_failed invalid_mount_point
mount_status letter retry dokan_version_error = mount_failed incompatible_version
mount_status letter retry (dokan_other code) = mount_failed unknown

module _ (create_file_system : ℕ → DokanStatus) where
  unfoldable pub mount_loop : ℕ → ℕ → Mounting
  mount_loop zero letter = unfinished
  mount_loop (suc fuel) letter =
      mount_status letter (mount_loop fuel (suc letter)) (create_file_system letter)

  -- There are 23 letters from D to Z.
  unfoldable pub mount_filesystem : Mounting
  unfolding mount_loop
  mount_filesystem = mount_loop 23 b'D'

-- What `begin` finds: the path of the agent beside the program, what becomes of an adb command for
-- the device, `agent_ready` when the wait for the daemon ends, what the constructor of the
-- connection does, Dokan, and whether the daemon ends within two seconds of losing the connection.
pub record World : Type 0 where
  pub agent_path : Option Bytes
  pub invoke_adb : Bytes → Result Unit
  pub ready_at_wake : Bool
  pub connect : ℕ → Result Unit
  pub create_file_system : ℕ → DokanStatus
  pub dies_in_time : Bool

-- What the destructor looks at. `commands` are those that adb was called with.
pub record Nandroid : Type 0 where
  pub device_serial : Bytes
  pub port_num : ℕ
  pub commands : List Bytes
  pub thread_started : Bool
  pub connection : Bool
  pub instance : Option ℕ

unfoldable pub new_nandroid : Bytes → ℕ → Nandroid
new_nandroid serial port = record {
  device_serial = serial;
  port_num = port;
  commands = [];
  thread_started = false;
  connection = false;
  instance = none;
}

abbrev agent_dest_path : Bytes
agent_dest_path = codes "/data/local/tmp/nandroid-daemon"

abbrev agent_port : ℕ
agent_port = 28933

abbrev pub push_command : Bytes → Bytes
push_command path = codes "push \"" ++ path ++ codes "\" " ++ agent_dest_path

abbrev pub chmod_command : Bytes
chmod_command = codes "shell chmod +x " ++ agent_dest_path

abbrev pub forward_command : ℕ → Bytes
forward_command port =
    codes "forward tcp:" ++ decimal16 port ++ codes " tcp:" ++ decimal16 agent_port

module _ (w : World) where
  abbrev pub adb : Bytes → Exec Nandroid Unit
  adb command n = (w.invoke_adb command, record n { commands = n.commands ++ (command ∷ []) })

  abbrev found_path : Option Bytes → Exec Nandroid Bytes
  found_path none = throw runtime
  found_path (some path) = pure path

  abbrev set_thread : Exec Nandroid Unit
  set_thread n = (ok tt, record n { thread_started = true })

  abbrev connect_to : Result Unit → Exec Nandroid Unit
  connect_to (ok u) n = (ok tt, record n { connection = true })
  connect_to (raise e) n = (raise e, n)

  abbrev mount_at : Mounting → Exec Nandroid Unit
  mount_at (mounted letter) n = (ok tt, record n { instance = some letter })
  mount_at (mount_failed f) n = (raise runtime, n)
  mount_at unfinished n = (raise runtime, n)

  unfoldable pub begin : Exec Nandroid Unit
  begin = do
    path ← found_path w.agent_path
    adb (push_command path)
    adb chmod_command
    port ← gets (λ n. n.port_num)
    adb (forward_command port)
    set_thread
    if w.ready_at_wake then pure tt else throw runtime
    connect_to (w.connect port)
    mount_at (mount_filesystem w.create_file_system)

-- The destructor: `join` on a thread that was never started throws, and an exception that leaves
-- a destructor ends the program. An adb command that fails there is only logged.
pub data Deleted : Type 0 where
  deleted : Nandroid → Deleted
  terminated : Deleted

module _ (w : World) where
  abbrev pub kill_daemon : Nandroid → Nandroid
  kill_daemon n =
      if n.thread_started && w.dies_in_time
      then n
      else (record n { commands = n.commands ++ (codes "shell pkill nandroid-daemon" ∷ []) })

  unfoldable pub delete : Nandroid → Deleted
  delete n =
      let closed = kill_daemon (record n { instance = none; connection = false }) in
      if n.thread_started then deleted closed else terminated
