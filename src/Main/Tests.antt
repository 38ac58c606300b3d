-- ===== src/Main/Tests.antt =====
-- A first round with a device that a callback unmounts, and a second in which the program is closed.
use nandroidfs.Path.{pop_back, ends_with}
use nandroidfs.Base.{bytes_eq, refl, some, ◌≢◌, true, false, List, [], ◌∷◌, Bytes}
use nandroidfs.Nandroid.{
  handle_line, delete, begin, new_nandroid, mount_filesystem, mount_loop, World, dokan_success,
}
use nandroidfs.Cache.Assoc.{insert, erase, lookup}
use nandroidfs.Text.{split_lines, for_newlines, starts_with, find, index_of, codes}
use nandroidfs.DeviceTracker.{
  remove_all, connect_new, connect_if_new, unmount_device, connect_to_device_internal, gone,
  has_failed, is_mounted, contains, add, add_device, parse_line, authorized_devices, update_with,
  new_tracker, update_connected_devices,
}
use nandroidfs.Main.Safety.{HeldAll, win_main-goes_on}
use nandroidfs.Main.{unmount_all, round, Round, win_main, aborted, error_success}
use nandroidfs.Exec.{ok}

abbrev working : Bytes → World
working serial = record {
  agent_path = some (codes "nandroid-daemon");
  invoke_adb = λ command. ok tt;
  ready_at_wake = true;
  connect = λ port. ok tt;
  create_file_system = λ letter. dokan_success;
  dies_in_time = false;
}

abbrev rounds : List Round
rounds =
    record {
      worlds = working;
      listed = ok (codes "List of devices attached\r\nA\tdevice\r\n\r\n");
      dropped = codes "A" ∷ [];
      shutdown_requested = false;
    }
    ∷ record {
      worlds = working;
      listed = ok (codes "List of devices attached\r\n\r\n");
      dropped = [];
      shutdown_requested = true;
    }
    ∷ []

rounds-HeldAll : HeldAll rounds false new_tracker
unfolding update_connected_devices update_with authorized_devices parse_line add_device add contains
    is_mounted has_failed gone connect_to_device_internal unmount_device connect_if_new connect_new
    remove_all round unmount_all mount_loop mount_filesystem new_nandroid begin delete index_of find
    starts_with for_newlines split_lines lookup erase insert handle_line bytes_eq ends_with pop_back
rounds-HeldAll = ((_, refl, tt), (tt, tt))

win_main-goes_on_example : win_main working error_success rounds ≢ aborted
win_main-goes_on_example =
    win_main-goes_on working error_success rounds ((λ s p. refl), ((λ s p. refl), tt))
      rounds-HeldAll
