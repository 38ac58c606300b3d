-- ===== src/DeviceTracker/Invariant.antt =====
-- nandroidfs/DeviceTracker.cpp: what holds of the instances after any calls, whatever the devices do.
pub mod Calls
use nandroidfs.Base.{
  refl, true, Bool-cases, ◌≡◌, arith, ◌<◌, ◌^◌, ◌&&◌, not, Option, none, some, List, [], ◌∷◌, Bytes,
  inl, inr,
}
use nandroidfs.DeviceTracker.Update.Removal.{delete-live}
use nandroidfs.Cache.Assoc.{Map, insert-IsUnique, lookup, erase-IsUnique, erase, IsUnique}
use nandroidfs.DeviceTracker.{
  delete_all, has_failed, is_mounted, gone, ran, new_tracker, note_failure, and_then, after_delete,
  connect_to_device_internal, delete_found, update_listed, authorized_devices, DeviceTracker, Ran,
  connect_if_new, connect_new, remove_all, update_with, update_connected_devices, unmount_device,
  connect_to_device, program_ended,
}
use nandroidfs.DeviceTracker.Attempts.{
  crashed, succeeded, connect_to_device_internal_lem, IsAttempt, failed,
}
use nandroidfs.DeviceTracker.Update.{insert-Live, Live, erase-Live}
use nandroidfs.Nandroid.{Nandroid, World, delete, Deleted, deleted, terminated}
use nandroidfs.Exec.{Result, ok, raise}

pub record Inv (t : DeviceTracker) : Type 0 where
  pub live : Live t.instances
  pub unique : IsUnique t.instances
  pub port : t.current_port < 2 ^ 16

-- What is left, if the program goes on.
abbrev Keeps : {A : Type 0} → Ran A → Type 0
Keeps (ran r t) = Inv t
Keeps program_ended = Unit

IsAttempt-Keeps :
    (w : World) (serial : Bytes) (t : DeviceTracker) (attempt : Ran Nandroid)
    → Inv t
    → IsAttempt w serial t attempt
    → Keeps attempt
IsAttempt-Keeps w serial t _ h (succeeded n good complete port live) = record {
  live = insert-Live serial n t.instances live h.live;
  unique = insert-IsUnique serial n t.instances h.unique;
  port = omega arith;
}
IsAttempt-Keeps w serial t _ h (failed e good incomplete) = record {
  live = h.live;
  unique = h.unique;
  port = omega arith;
}
IsAttempt-Keeps w serial t _ h (crashed bad) = tt

note_failure-Keeps : (serial : Bytes) (r : Ran Nandroid) → Keeps r → Keeps (note_failure serial r)
note_failure-Keeps serial (ran (ok n) t) h = h
note_failure-Keeps serial (ran (raise e) t) h = record {
  live = h.live;
  unique = h.unique;
  port = h.port;
}
note_failure-Keeps serial program_ended h = tt

and_then-Keeps :
    (r : Ran Unit) (f : DeviceTracker → Ran Unit)
    → Keeps r
    → ((t : DeviceTracker) → Inv t → Keeps (f t))
    → Keeps (and_then r f)
and_then-Keeps (ran (ok u) t) f h k = k t h
and_then-Keeps (ran (raise e) t) f h k = h
and_then-Keeps program_ended f h k = tt

erased-Inv :
    (serial : Bytes) (t : DeviceTracker)
    → Inv t
    → Inv (record t { instances = erase serial t.instances })
erased-Inv serial t h = record {
  live = erase-Live serial t.instances h.live;
  unique = erase-IsUnique serial t.instances h.unique;
  port = h.port;
}

after_delete-Keeps : (t : DeviceTracker) (d : Deleted) → Inv t → Keeps (after_delete t d)
after_delete-Keeps t (deleted n) h = h
after_delete-Keeps t terminated h = tt

module _ (worlds : Bytes → World) where
  connect-Keeps :
      (serial : Bytes) (t : DeviceTracker)
      → Inv t
      → Keeps (connect_to_device_internal worlds serial t)
  connect-Keeps serial t h =
      IsAttempt-Keeps (worlds serial) serial t (connect_to_device_internal worlds serial t) h
        (connect_to_device_internal_lem worlds serial t)

  connect_if_new-Keeps :
      (serial : Bytes) (t : DeviceTracker) → Inv t → Keeps (connect_if_new worlds serial t)
  unfolding connect_if_new
  connect_if_new-Keeps serial t h =
      elim (Bool-cases (not (is_mounted t serial) && not (has_failed t serial))) [
        | inl new ↦ rw (new) (
            note_failure-Keeps serial (connect_to_device_internal worlds serial t)
              (connect-Keeps serial t h))
        | inr old ↦ rw old h
      ]

  connect_new-Keeps :
      (devices : List Bytes) (t : DeviceTracker) → Inv t → Keeps (connect_new worlds devices t)
  unfolding connect_new
  connect_new-Keeps [] t h = h
  connect_new-Keeps (serial ∷ devices) t h =
      and_then-Keeps (connect_if_new worlds serial t) (connect_new worlds devices)
        (connect_if_new-Keeps serial t h) (connect_new-Keeps devices)

  delete_found-Keeps :
      (serial : Bytes) (t : DeviceTracker) (found : Option Nandroid)
      → Inv t
      → Keeps (delete_found worlds serial t found)
  delete_found-Keeps serial t none h = h
  delete_found-Keeps serial t (some n) h =
      after_delete-Keeps (record t { instances = erase serial t.instances })
        (delete (worlds serial) n) (erased-Inv serial t h)

  remove_all-Keeps :
      (serials : List Bytes) (t : DeviceTracker) → Inv t → Keeps (remove_all worlds serials t)
  unfolding remove_all
  remove_all-Keeps [] t h = h
  remove_all-Keeps (serial ∷ serials) t h =
      and_then-Keeps (delete_found worlds serial t (lookup serial t.instances))
        (remove_all worlds serials) (delete_found-Keeps serial t (lookup serial t.instances) h)
        (remove_all-Keeps serials)

  update_listed-Keeps :
      (listed : Option (List Bytes)) (t : DeviceTracker)
      → Inv t
      → Keeps (update_listed worlds t listed)
  unfolding update_with
  update_listed-Keeps none t h = h
  update_listed-Keeps (some devices) t h =
      and_then-Keeps (connect_new worlds devices t)
        (λ t'. remove_all worlds (gone devices t'.instances) t') (connect_new-Keeps devices t h)
        (λ t' h'. remove_all-Keeps (gone devices t'.instances) t' h')

  update-Keeps :
      (listed : Result Bytes) (t : DeviceTracker)
      → Inv t
      → Keeps (update_connected_devices worlds listed t)
  unfolding update_connected_devices
  update-Keeps (raise e) t h = h
  update-Keeps (ok output) t h = update_listed-Keeps (authorized_devices output) t h

  unmount-Keeps : (n : Nandroid) (t : DeviceTracker) → Inv t → Keeps (unmount_device worlds n t)
  unfolding unmount_device
  unmount-Keeps n t h =
      after_delete-Keeps (record t { instances = erase n.device_serial t.instances })
        (delete (worlds n.device_serial) n) (erased-Inv n.device_serial t h)

  connect_to_device-Keeps :
      (serial : Bytes) (t : DeviceTracker) → Inv t → Keeps (connect_to_device worlds serial t)
  unfolding connect_to_device
  connect_to_device-Keeps = connect-Keeps

-- The destructor can delete them.
pub delete_all-Live :
    (worlds : Bytes → World) (m : Map Nandroid) → Live m → delete_all worlds m ≡ true
unfolding delete_all
delete_all-Live worlds [] h = refl
delete_all-Live worlds ((serial, n) ∷ m) h =
    let (closed, gone) = delete-live (worlds serial) serial n h.0 in
    rw (delete_all, gone) (delete_all-Live worlds m h.1)
