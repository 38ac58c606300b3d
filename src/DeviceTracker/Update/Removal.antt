-- ===== src/DeviceTracker/Update/Removal.antt =====
-- nandroidfs/DeviceTracker.cpp: the removal of the devices that are gone, and a whole update.
use nandroidfs.DeviceTracker.{
  update_listed, update_connected_devices, delete_found, has_failed, ran, DeviceTracker, is_mounted,
  contains, gone, remove_all, update_with,
}
use nandroidfs.DeviceTracker.Listing.RoundTrip.{
  authorized_devices-listing, is_authorized, listing, IsEntry,
}
use nandroidfs.Base.{
  All, bytes_eq→eq, Option-cases, bytes_eq, ◌≡◌, refl, ◌∙◌, arith, Bool, true, false, ◌||◌, ◌&&◌,
  not, none, List, [], ◌∷◌, Bytes, inl, inr,
}
use nandroidfs.Nandroid.{kill_daemon, Nandroid, World, delete, deleted}
use nandroidfs.Cache.Assoc.{lookup-erase, Map, erase, lookup}
use nandroidfs.DeviceTracker.Update.{connect_new-Tried, Live, erase-Live, lookup-Live, AllPrepared}
use nandroidfs.DeviceTracker.Attempts.{IsLive}
use nandroidfs.Exec.{ok}

-- A live object can be deleted.
pub delete-live :
    (w : World) (serial : Bytes) (n : Nandroid)
    → IsLive serial n
    → (closed : Nandroid) × (delete w n ≡ deleted closed)
unfolding delete
delete-live w serial n h =
    (kill_daemon w (record n { instance = none; connection = false }), rw h.thread)

-- What is left when some of the entries are removed.
pub record Removed (serials : List Bytes) (t end : DeviceTracker) : Type 0 where
  pub mounted_lem : (s : Bytes) → is_mounted end s ≡ (is_mounted t s && not (contains serials s))
  pub failed_lem : (s : Bytes) → has_failed end s ≡ has_failed t s
  pub live : Live end.instances

is_mounted-erase :
    (serial : Bytes) (t : DeviceTracker) (s : Bytes)
    → is_mounted (record t { instances = erase serial t.instances }) s
      ≡ (is_mounted t s && not (bytes_eq serial s))
unfolding is_mounted
is_mounted-erase serial t s = ground (arith, lookup-erase serial s t.instances)

unmounted_missing :
    (serial : Bytes) (t : DeviceTracker) (s : Bytes)
    → lookup serial t.instances ≡ none
    → is_mounted t s ≡ (is_mounted t s && not (contains (serial ∷ []) s))
unfolding contains is_mounted
unmounted_missing serial t s h = ground (arith, h, bytes_eq→eq serial s)

gone-contains :
    (devices : List Bytes) (t : DeviceTracker) (m : Map Nandroid) (s : Bytes)
    → contains (gone devices m) s
      ≡ (is_mounted (record t { instances = m }) s && not (contains devices s))
unfolding gone contains is_mounted lookup
gone-contains devices t [] s = refl
gone-contains devices t ((serial, n) ∷ m) s =
    ground (arith, gone-contains devices t m s, bytes_eq→eq serial s)

-- What an update leaves: the devices that are listed, and of the others none.
pub record Updated (listed : Bytes → Bool) (t end : DeviceTracker) : Type 0 where
  pub mounted_lem :
      (s : Bytes) → is_mounted end s ≡ (listed s && (is_mounted t s || not (has_failed end s)))
  pub failed_grows : (s : Bytes) → has_failed t s ≡ true → has_failed end s ≡ true
  pub live : Live end.instances

module _ (worlds : Bytes → World) where
  delete_found-Removed :
      (serial : Bytes) (t : DeviceTracker)
      → Live t.instances
      → (end : DeviceTracker) × (delete_found worlds serial t (lookup serial t.instances)
          ≡ ran (ok tt) end)
        × Removed (serial ∷ []) t end
  unfolding contains has_failed
  delete_found-Removed serial t h = elim (Option-cases (lookup serial t.instances)) [
    | inl missing ↦ (
      t,
      rw missing,
      record {
        mounted_lem = λ s. unmounted_missing serial t s missing;
        failed_lem = λ s. refl;
        live = h;
      },
    )
    | inr (n, found) ↦
        let (closed, gone) =
          delete-live (worlds serial) serial n (lookup-Live serial n t.instances h found) in
        (
          record t { instances = erase serial t.instances },
          rw (found, gone),
          record {
            mounted_lem = λ s. ground (arith, is_mounted-erase serial t s);
            failed_lem = λ s. refl;
            live = erase-Live serial t.instances h;
          },
        )
  ]

  remove_all-Removed :
      (serials : List Bytes) (t : DeviceTracker)
      → Live t.instances
      → (end : DeviceTracker) × (remove_all worlds serials t ≡ ran (ok tt) end)
        × Removed serials t end
  unfolding remove_all contains
  remove_all-Removed [] t h =
      (t, refl, record { mounted_lem = λ s. ground arith; failed_lem = λ s. refl; live = h })
  remove_all-Removed (serial ∷ serials) t h =
      let (mid, first, one) = delete_found-Removed serial t h in
      let (end, others, more) = remove_all-Removed serials mid one.live in
      (
        end,
        rw first others,
        record {
          mounted_lem = λ s. ground (arith, one.mounted_lem s, more.mounted_lem s);
          failed_lem = λ s. more.failed_lem s ∙ one.failed_lem s;
          live = more.live;
        },
      )

  pub update_with-Updated :
      (devices : List Bytes) (t : DeviceTracker)
      → AllPrepared worlds
      → Live t.instances
      → (end : DeviceTracker) × (update_with worlds devices t ≡ ran (ok tt) end)
        × Updated (contains devices) t end
  unfolding update_with
  update_with-Updated devices t h l =
      let (mid, first, tried) = connect_new-Tried worlds devices t h in
      let serials = gone devices mid.instances in
      let (end, others, removed) = remove_all-Removed serials mid (tried.live l) in
      let removed_lem = λ (s : Bytes). gone-contains devices mid mid.instances s in
      (
        end,
        rw first others,
        record {
          mounted_lem = λ s. ground (
            arith,
            tried.mounted_lem s,
            removed.mounted_lem s,
            removed.failed_lem s,
            removed_lem s,
          );
          failed_grows = λ s f. ground (arith, f, tried.failed_lem s, removed.failed_lem s);
          live = removed.live;
        },
      )

  -- An update with a listing of well-formed entries goes on if what comes before the daemon's
  -- thread works for every device and the instances are live: after it, the devices that are
  -- mounted are those that are authorized in the listing and were mounted before or are not noted
  -- as failed; no note of a failure is lost, and the instances are live.
  pub update_connected_devices_lem :
      (entries : List (Bytes × Bytes)) (t : DeviceTracker)
      → All IsEntry entries
      → AllPrepared worlds
      → Live t.instances
      → (end : DeviceTracker) × (update_connected_devices worlds (ok (listing entries)) t
          ≡ ran (ok tt) end)
        × Updated (is_authorized entries) t end
  unfolding update_connected_devices
  update_connected_devices_lem entries t wf h l =
      let (devices, parsed, listed) = authorized_devices-listing entries wf in
      let (end, done, updated) = update_with-Updated devices t h l in
      (
        end,
        rw (update_listed, parsed) done,
        record {
          mounted_lem = λ s. ground (arith, updated.mounted_lem s, listed s);
          failed_grows = updated.failed_grows;
          live = updated.live;
        },
      )
