-- ===== src/Main/Safety.antt =====
-- nandroidfs/main.cpp: the program is not aborted, if the devices do not abort it.
use nandroidfs.DeviceTracker.Listing.{authorized_devices_lem, see_device}
use nandroidfs.Text.{split_lines}
use nandroidfs.Text.Loop.{visit}
use nandroidfs.DeviceTracker.Update.Removal.{update_with-Updated, delete-live}
use nandroidfs.DeviceTracker.Update.{lookup-Live, erase-Live, AllPrepared, Live}
use nandroidfs.DeviceTracker.{
  new_tracker, and_then, DeviceTracker, unmount_device, update_connected_devices, Ran, ran,
  program_ended,
}
use nandroidfs.Cache.Assoc.{lookup}
use nandroidfs.Main.{
  prompt_if_already_running, after_round, Round, ScanEnd, left, scanning, ended, unmount_all, round,
  scan, aborted, scan_for_devices, win_main, LastError,
}
use nandroidfs.Base.{
  ◌≡◌, some, Bool-cases, All, ◌≢◌, arith, Bool, true, false, List, [], ◌∷◌, Bytes, inl, inr,
}
use nandroidfs.DeviceTracker.Invariant.{delete_all-Live}
use nandroidfs.Nandroid.{Nandroid, World}
use nandroidfs.DeviceTracker.Attempts.{IsLive}
use nandroidfs.Exec.{Result, ok, raise}

-- The program goes on, with live instances.
abbrev Goes : Ran Unit → Type 0
Goes (ran r t) = Live t.instances
Goes program_ended = ⊥

abbrev Safe : ScanEnd → Type 0
Safe (left r t) = Live t.instances
Safe (scanning t) = Unit
Safe ended = ⊥

-- What holds of the tracker if the program goes on without an exception.
abbrev pub Follows : (DeviceTracker → Type 0) → Ran Unit → Type 0
Follows P (ran (ok u) t) = P t
Follows P (ran (raise e) t) = Unit
Follows P program_ended = Unit

-- Each device still has its instance when its turn comes.
abbrev pub Held : (Bytes → World) → List Bytes → DeviceTracker → Type 0
Held worlds [] t = Unit
Held worlds (serial ∷ serials) t =
    (n : Nandroid) × (lookup serial t.instances ≡ some n)
    × Follows (Held worlds serials) (unmount_device worlds n t)

-- So does each that a callback unmounts, in every round.
abbrev pub HeldAll : List Round → Bool → DeviceTracker → Type 0
HeldAll rounds true t = Unit
HeldAll [] false t = Unit
HeldAll (r ∷ rounds) false t =
    Follows (Held r.worlds r.dropped) (update_connected_devices r.worlds r.listed t)
    × Follows (HeldAll rounds r.shutdown_requested) (round r t)

and_then-Goes :
    (P : DeviceTracker → Type 0) (r : Ran Unit) (f : DeviceTracker → Ran Unit)
    → Goes r
    → Follows P r
    → ((t : DeviceTracker) → Live t.instances → P t → Goes (f t))
    → Goes (and_then r f)
and_then-Goes P (ran (ok u) t) f h p k = k t h p
and_then-Goes P (ran (raise e) t) f h p k = h
and_then-Goes P program_ended f h p k = h

unmount-Goes :
    (worlds : Bytes → World) (serial : Bytes) (n : Nandroid) (t : DeviceTracker)
    → Live t.instances
    → IsLive serial n
    → Goes (unmount_device worlds n t)
unfolding unmount_device
unmount-Goes worlds serial n t h live =
    let (closed, gone) = delete-live (worlds n.device_serial) serial n live in
    rw gone (erase-Live n.device_serial t.instances h)

unmount_all-Goes :
    (worlds : Bytes → World) (serials : List Bytes) (t : DeviceTracker)
    → Live t.instances
    → Held worlds serials t
    → Goes (unmount_all worlds serials t)
unfolding unmount_all
unmount_all-Goes worlds [] t h held = h
unmount_all-Goes worlds (serial ∷ serials) t h (n, found, held) =
    rw (unmount_all, found)
      (and_then-Goes (Held worlds serials) (unmount_device worlds n t) (unmount_all worlds serials)
        (unmount-Goes worlds serial n t h (lookup-Live serial n t.instances h found)) held
        (unmount_all-Goes worlds serials))

update-Goes :
    (worlds : Bytes → World) (listed : Result Bytes) (t : DeviceTracker)
    → AllPrepared worlds
    → Live t.instances
    → Goes (update_connected_devices worlds listed t)
unfolding update_connected_devices
update-Goes worlds (raise e) t p h = h
update-Goes worlds (ok output) t p h =
    let (end, done, updated) =
      update_with-Updated worlds (visit see_device (split_lines output).0 []) t p h in
    rw (update_connected_devices, authorized_devices_lem output, done) updated.live

abbrev Tame : Round → Type 0
Tame r = AllPrepared r.worlds

round-Goes :
    (r : Round) (t : DeviceTracker)
    → Tame r
    → Live t.instances
    → Follows (Held r.worlds r.dropped) (update_connected_devices r.worlds r.listed t)
    → Goes (round r t)
unfolding round
round-Goes r t p h held =
    and_then-Goes (Held r.worlds r.dropped) (update_connected_devices r.worlds r.listed t)
      (unmount_all r.worlds r.dropped) (update-Goes r.worlds r.listed t p h) held
      (unmount_all-Goes r.worlds r.dropped)

after_round-Safe :
    (P : DeviceTracker → Type 0) (next : DeviceTracker → ScanEnd) (run : Ran Unit)
    → Goes run
    → Follows P run
    → ((t : DeviceTracker) → Live t.instances → P t → Safe (next t))
    → Safe (after_round next run)
after_round-Safe P next (ran (ok u) t) h p k = k t h p
after_round-Safe P next (ran (raise e) t) h p k = h
after_round-Safe P next program_ended h p k = h

scan-Safe :
    (rounds : List Round) (stop : Bool) (t : DeviceTracker)
    → All Tame rounds
    → Live t.instances
    → HeldAll rounds stop t
    → Safe (scan rounds stop t)
unfolding scan
scan-Safe [] true t p h held = h
scan-Safe (r ∷ rounds) true t p h held = h
scan-Safe [] false t p h held = tt
scan-Safe (r ∷ rounds) false t p h (held, after) =
    after_round-Safe (HeldAll rounds r.shutdown_requested) (scan rounds r.shutdown_requested)
      (round r t) (round-Goes r t p.0 h held) after
      (λ t' h'. scan-Safe rounds r.shutdown_requested t' p.1 h')

scan_for_devices-Safe :
    (closing : Bytes → World) (e : ScanEnd) → Safe e → scan_for_devices closing e ≢ aborted
unfolding scan_for_devices
scan_for_devices-Safe closing (left (ok u) t) h =
    rw (delete_all-Live closing t.instances h) (λ bad. ground (arith, bad))
scan_for_devices-Safe closing (left (raise e) t) h =
    rw (delete_all-Live closing t.instances h) (λ bad. ground (arith, bad))
scan_for_devices-Safe closing (scanning t) h = λ bad. ground (arith, bad)
scan_for_devices-Safe closing ended h = absurd h

-- If what comes before the daemon's thread works for every device in every round, and each device
-- that a callback unmounts still has its instance at its turn, the program is not aborted,
-- whatever adb lists and however the loop is left.
pub win_main-goes_on :
    (closing : Bytes → World) (last_error : LastError) (rounds : List Round)
    → All Tame rounds
    → HeldAll rounds false new_tracker
    → win_main closing last_error rounds ≢ aborted
unfolding win_main
win_main-goes_on closing last_error rounds h held =
    elim (Bool-cases (prompt_if_already_running last_error)) [
      | inl alone ↦ rw alone (
          scan_for_devices-Safe closing (scan rounds false new_tracker)
            (scan-Safe rounds false new_tracker h tt held))
      | inr other ↦ rw other (λ bad. ground (arith, bad))
    ]
