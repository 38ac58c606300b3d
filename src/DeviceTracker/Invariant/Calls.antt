-- ===== src/DeviceTracker/Invariant/Calls.antt =====
-- nandroidfs/DeviceTracker.cpp: the instances after any calls, whatever the devices do.
use nandroidfs.Cache.Assoc.{lookup}
use nandroidfs.DeviceTracker.{
  ran, new_tracker, DeviceTracker, Ran, update_connected_devices, unmount_device, connect_to_device,
}
use nandroidfs.Base.{◌≡◌, arith, some, Bytes}
use nandroidfs.Nandroid.{Nandroid, World}
use nandroidfs.Exec.{Result}
use nandroidfs.DeviceTracker.Invariant.{
  Inv, Keeps, update-Keeps, connect_to_device-Keeps, unmount-Keeps,
}

-- A state that calls lead to, one after the other, with the devices doing what they like.
pub data Reach : DeviceTracker → Type 0 where
  start : Reach new_tracker
  updated :
      {t end : DeviceTracker} {r : Result Unit} (worlds : Bytes → World) (listed : Result Bytes)
      → Reach t
      → update_connected_devices worlds listed t ≡ ran r end
      → Reach end
  connected :
      {t end : DeviceTracker} {r : Result Nandroid} (worlds : Bytes → World) (serial : Bytes)
      → Reach t
      → connect_to_device worlds serial t ≡ ran r end
      → Reach end
  unmounted :
      {t end : DeviceTracker} {r : Result Unit} (worlds : Bytes → World) (serial : Bytes)
      (n : Nandroid)
      → Reach t
      → lookup serial t.instances ≡ some n
      → unmount_device worlds n t ≡ ran r end
      → Reach end

kept :
    {A : Type 0} {run : Ran A} {r : Result A} {end : DeviceTracker}
    → run ≡ ran r end
    → Keeps run
    → Inv end
kept e h = rw e at h

-- After any calls of the tracker, whatever the devices do, as long as the program goes on: each
-- serial number has one instance, which has that number, a connection, a started thread and a
-- drive from D to Z, and the next port has 16 bits.
pub Reach-Inv : {t : DeviceTracker} → Reach t → Inv t
Reach-Inv start = record { live = tt; unique = tt; port = omega arith }
Reach-Inv (updated {t} worlds listed r e) = kept e (update-Keeps worlds listed t (Reach-Inv r))
Reach-Inv (connected {t} worlds serial r e) =
    kept e (connect_to_device-Keeps worlds serial t (Reach-Inv r))
Reach-Inv (unmounted {t} worlds serial n r found e) =
    kept e (unmount-Keeps worlds n t (Reach-Inv r))
