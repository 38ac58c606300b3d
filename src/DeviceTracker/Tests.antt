-- ===== src/DeviceTracker/Tests.antt =====
-- Two devices, of which one is authorized.
use nandroidfs.Text.{digits_of, codes, index_of}
use nandroidfs.Nandroid.{
  chmod_command, mount_filesystem, push_command, Nandroid, delete, new_nandroid, begin, World,
  dokan_success,
}
use nandroidfs.Cache.Assoc.{insert}
use nandroidfs.DeviceTracker.{
  connect_to_device, program_ended, ran, contains, new_tracker, update_connected_devices,
  authorized_devices, connect_to_device_internal, DeviceTracker,
}
use nandroidfs.DeviceTracker.Update.Removal.{update_connected_devices_lem, Updated}
use nandroidfs.DeviceTracker.Listing.RoundTrip.{
  IsEntry, listing, authorized_devices-listing, is_authorized,
}
use nandroidfs.Base.{All, ◌≡◌, refl, true, some, List, [], ◌∷◌, Bytes}
use nandroidfs.DeviceTracker.Invariant.{Inv}
use nandroidfs.DeviceTracker.Invariant.Calls.{start, connected, Reach-Inv}
use nandroidfs.Exec.{ok, raise, runtime}

abbrev entries : List (Bytes × Bytes)
entries = (codes "2G0YC5", codes "device") ∷ (codes "emulator-5554", codes "offline") ∷ []

entries-IsEntry : All IsEntry entries
unfolding index_of
entries-IsEntry = ((refl, refl, refl), ((refl, refl, refl), tt))

authorized_devices-listing_example :
    (devices : List Bytes) × (authorized_devices (listing entries) ≡ some devices)
    × ((s : Bytes) → contains devices s ≡ is_authorized entries s)
authorized_devices-listing_example = authorized_devices-listing entries entries-IsEntry

-- Everything works.
abbrev working : Bytes → World
working serial = record {
  agent_path = some (codes "C:\\nandroid-daemon");
  invoke_adb = λ command. ok tt;
  ready_at_wake = true;
  connect = λ port. ok tt;
  create_file_system = λ letter. dokan_success;
  dies_in_time = true;
}

-- Adb does not work.
abbrev broken : Bytes → World
broken serial = record {
  agent_path = some (codes "C:\\nandroid-daemon");
  invoke_adb = λ command. raise runtime;
  ready_at_wake = true;
  connect = λ port. ok tt;
  create_file_system = λ letter. dokan_success;
  dies_in_time = true;
}

ended : connect_to_device_internal broken (codes "A") new_tracker ≡ program_ended
unfolding connect_to_device_internal begin new_nandroid delete
ended = refl

update_connected_devices_lem_example :
    (end : DeviceTracker) × (update_connected_devices working (ok (listing entries)) new_tracker
      ≡ ran (ok tt) end)
    × Updated (is_authorized entries) new_tracker end
update_connected_devices_lem_example =
    update_connected_devices_lem working entries new_tracker entries-IsEntry (λ s p. refl) tt

abbrev serving : Nandroid
serving = record {
  device_serial = codes "A";
  port_num = 25989;
  commands =
      push_command (codes "C:\\nandroid-daemon")
      ∷ chmod_command
      ∷ codes "forward tcp:25989 tcp:28933"
      ∷ [];
  thread_started = true;
  connection = true;
  instance = some b'D';
}

abbrev one_device : DeviceTracker
one_device = record {
  current_port = 25990;
  instances = (codes "A", serving) ∷ [];
  failed_to_connect = [];
}

one_connected : connect_to_device working (codes "A") new_tracker ≡ ran (ok serving) one_device
unfolding connect_to_device connect_to_device_internal begin new_nandroid insert mount_filesystem
    digits_of
one_connected = refl

Reach-Inv_example : Inv one_device
Reach-Inv_example = Reach-Inv (connected working (codes "A") start one_connected)
