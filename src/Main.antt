-- ===== src/Main.antt =====
-- nandroidfs/main.cpp: the program from the check for another instance to its exit code, over the
-- rounds of its loop.
pub mod Safety
mod Tests
use nandroidfs.Base.{Bool, true, false, ℕ, Option, none, some, List, [], ◌∷◌, Bytes, if◌then◌else◌}
use nandroidfs.Exec.{Result, ok, raise}
use nandroidfs.Cache.Assoc.{lookup}
use nandroidfs.Nandroid.{World}
use nandroidfs.DeviceTracker.{
  DeviceTracker, new_tracker, Ran, ran, program_ended, update_connected_devices, unmount_device,
  delete_all, and_then,
}

-- `GetLastError` after `CreateMutex`.
pub data LastError : Type 0 where
  error_success error_already_exists error_other : LastError

unfoldable pub prompt_if_already_running : LastError → Bool
prompt_if_already_running error_success = true
prompt_if_already_running error_already_exists = false
prompt_if_already_running error_other = false

-- A round of the loop: how the devices behave, what `adb devices` comes to, the serial numbers
-- of the devices that callbacks unmount during the wait, and whether a shutdown is requested by
-- its end.
pub record Round : Type 0 where
  pub worlds : Bytes → World
  pub listed : Result Bytes
  pub dropped : List Bytes
  pub shutdown_requested : Bool

-- How the loop was left, or that it still runs or has ended the program.
pub data ScanEnd : Type 0 where
  left : Result Unit → DeviceTracker → ScanEnd
  scanning : DeviceTracker → ScanEnd
  ended : ScanEnd

-- A handle is used and deleted without a test: of a device that has no instance any more it is one
-- that was freed, and what follows is not defined.
unfoldable pub unmount_all : (Bytes → World) → List Bytes → DeviceTracker → Ran Unit
unmount_all worlds [] t = ran (ok tt) t
unmount_all worlds (serial ∷ serials) t = elim (lookup serial t.instances) [
  | none ↦ program_ended
  | some n ↦ and_then (unmount_device worlds n t) (unmount_all worlds serials)
]

unfoldable pub round : Round → DeviceTracker → Ran Unit
unfolding unmount_all
round r t = and_then (update_connected_devices r.worlds r.listed t) (unmount_all r.worlds r.dropped)

-- An exception leaves the loop.
abbrev pub after_round : (DeviceTracker → ScanEnd) → Ran Unit → ScanEnd
after_round next (ran (ok u) t) = next t
after_round next (ran (raise e) t) = left (raise e) t
after_round next program_ended = ended

-- The loop of `scan_for_devices`, with `shutdown_requested` as it reads it first.
unfoldable pub scan : List Round → Bool → DeviceTracker → ScanEnd
unfolding round
scan rounds true t = left (ok tt) t
scan [] false t = scanning t
scan (r ∷ rounds) false t = after_round (scan rounds r.shutdown_requested) (round r t)

pub data Exit : Type 0 where
  exits : ℕ → Exit
  running : Exit
  aborted : Exit

-- The destructor of the tracker runs however the loop is left; `closing` is how the devices behave
-- then.
unfoldable pub scan_for_devices : (Bytes → World) → ScanEnd → Exit
scan_for_devices closing (left (ok u) t) =
    if delete_all closing t.instances then exits 0 else aborted
scan_for_devices closing (left (raise e) t) =
    if delete_all closing t.instances then exits 1 else aborted
scan_for_devices closing (scanning t) = running
scan_for_devices closing ended = aborted

unfoldable pub win_main : (Bytes → World) → LastError → List Round → Exit
unfolding scan scan_for_devices prompt_if_already_running
win_main closing last_error rounds =
    if prompt_if_already_running last_error
    then scan_for_devices closing (scan rounds false new_tracker)
    else exits 1
