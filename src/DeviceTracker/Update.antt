-- ===== src/DeviceTracker/Update.antt =====
-- nandroidfs/DeviceTracker.cpp: what an update leaves mounted, when no device ends the program.
pub mod Removal
use nandroidfs.DeviceTracker.Attempts.{
  crashed, failed, next_port, succeeded, IsAttempt, connect_to_device_internal_lem, with_instance,
  IsLive, prepared,
}
use nandroidfs.DeviceTracker.Listing.{contains-add}
use nandroidfs.DeviceTracker.{
  add, note_failure, Ran, connect_to_device_internal, has_failed, is_mounted, ran, contains,
  DeviceTracker, connect_if_new, connect_new,
}
use nandroidfs.Base.{
  ◌^◌, ◌%◌, bytes_eq→eq, All, Bool-cases, bytes_eq, map, ◌≡◌, refl, ap, sym, ◌∙◌, arith, ℕ, suc,
  zero, ◌+◌, ◌-◌, Bool, true, false, ◌||◌, ◌&&◌, not, Option, none, some, List, [], ◌∷◌, ◌++◌,
  Bytes, if◌then◌else◌, inl, inr,
}
use nandroidfs.Cache.Assoc.{lookup-insert, Map, erase, insert, lookup}
use nandroidfs.Nandroid.{Nandroid, World, begin, Mounting, mounted, mount_failed, unfinished}
use nandroidfs.Exec.{Result, ok, raise}

-- Every entry has the serial number of a live object.
abbrev pub Live : Map Nandroid → Type 0
Live = All (λ entry. IsLive entry.0 entry.1)

pub erase-Live : (k : Bytes) (m : Map Nandroid) → Live m → Live (erase k m)
unfolding erase
erase-Live k [] h = h
erase-Live k ((j, n) ∷ m) h = elim (Bool-cases (bytes_eq j k)) [
  | inl same ↦ rw same (erase-Live k m h.1)
  | inr other ↦ rw other (h.0, erase-Live k m h.1)
]

pub insert-Live :
    (k : Bytes) (n : Nandroid) (m : Map Nandroid) → IsLive k n → Live m → Live (insert k n m)
unfolding insert
insert-Live k n m h l = (h, erase-Live k m l)

pub lookup-Live :
    (k : Bytes) (n : Nandroid) (m : Map Nandroid) → Live m → lookup k m ≡ some n → IsLive k n
unfolding lookup
lookup-Live k n [] h e = absurd (ground (arith, e))
lookup-Live k n ((j, i) ∷ m) h e = elim (Bool-cases (bytes_eq j k)) [
  | inl same ↦
      let hit : some i ≡ some n = ground (arith, e, same) in
      let found : i ≡ n = cc hit in rw (← found, ← bytes_eq→eq j k same) h.0
  | inr other ↦ lookup-Live k n m h.1 (ground (arith, e, other))
]

-- No device that is tried ends the program.
abbrev pub AllPrepared : (Bytes → World) → Type 0
AllPrepared worlds = (serial : Bytes) (port : ℕ) → prepared (worlds serial) port ≡ true

-- What became of the devices that were tried, those for which `tried` holds.
pub record Tried (tried : Bytes → Bool) (t end : DeviceTracker) : Type 0 where
  pub mounted_lem :
      (s : Bytes) → is_mounted end s ≡ (is_mounted t s || tried s && not (has_failed end s))
  pub failed_lem :
      (s : Bytes)
      → has_failed end s
        ≡ (has_failed t s || tried s && not (is_mounted t s) && not (is_mounted end s))
  pub live : Live t.instances → Live end.instances

is_mounted-insert :
    (serial : Bytes) (n : Nandroid) (t : DeviceTracker) (s : Bytes)
    → is_mounted (with_instance serial n (next_port t)) s ≡ (is_mounted t s || bytes_eq serial s)
unfolding is_mounted
is_mounted-insert serial n t s = ground (arith, lookup-insert serial s n t.instances)

-- A device that need not be tried.
skipped-Tried :
    (serial : Bytes) (t : DeviceTracker)
    → (is_mounted t serial || has_failed t serial) ≡ true
    → Tried (bytes_eq serial) t t
skipped-Tried serial t h = record {
  mounted_lem = λ s. ground (arith, h, bytes_eq→eq serial s);
  failed_lem = λ s. ground (arith, h, bytes_eq→eq serial s);
  live = λ l. l;
}

module _ (worlds : Bytes → World) where
  note_failure-Tried :
      (serial : Bytes) (t : DeviceTracker) (attempt : Ran Nandroid)
      → IsAttempt (worlds serial) serial t attempt
      → prepared (worlds serial) t.current_port ≡ true
      → is_mounted t serial ≡ false
      → has_failed t serial ≡ false
      → (end : DeviceTracker) × (note_failure serial attempt ≡ ran (ok tt) end)
        × Tried (bytes_eq serial) t end
  unfolding has_failed is_mounted
  note_failure-Tried serial t _ (succeeded n good complete port live) p m f = (
    with_instance serial n (next_port t),
    refl,
    record {
      mounted_lem = λ s. ground (arith, is_mounted-insert serial n t s, bytes_eq→eq serial s, f);
      failed_lem = λ s. ground (arith, is_mounted-insert serial n t s);
      live = insert-Live serial n t.instances live;
    },
  )
  note_failure-Tried serial t _ (failed e good incomplete) p m f = (
    record t {
      current_port = (t.current_port + 1) % 2 ^ 16;
      failed_to_connect = add serial t.failed_to_connect;
    },
    refl,
    record {
      mounted_lem = λ s. ground (arith, contains-add serial t.failed_to_connect s);
      failed_lem = λ s.
          ground (arith, contains-add serial t.failed_to_connect s, bytes_eq→eq serial s, m, f);
      live = λ l. l;
    },
  )
  note_failure-Tried serial t _ (crashed bad) p m f = absurd (ground (arith, bad, p))

  connect_if_new-Tried :
      (serial : Bytes) (t : DeviceTracker)
      → AllPrepared worlds
      → (end : DeviceTracker) × (connect_if_new worlds serial t ≡ ran (ok tt) end)
        × Tried (bytes_eq serial) t end
  unfolding connect_if_new
  connect_if_new-Tried serial t h = elim (Bool-cases (is_mounted t serial || has_failed t serial)) [
    | inl skip ↦ (t, ground (arith, skip), skipped-Tried serial t skip)
    | inr new ↦
        let (end, done, tried) =
          note_failure-Tried serial t (connect_to_device_internal worlds serial t)
            (connect_to_device_internal_lem worlds serial t) (h serial t.current_port)
            (ground (arith, new)) (ground (arith, new)) in
        (end, ground (arith, new, done), tried)
  ]

  connect_new-Tried :
      (devices : List Bytes) (t : DeviceTracker)
      → AllPrepared worlds
      → (end : DeviceTracker) × (connect_new worlds devices t ≡ ran (ok tt) end)
        × Tried (contains devices) t end
  unfolding connect_new contains
  connect_new-Tried [] t h = (
    t,
    refl,
    record { mounted_lem = λ s. ground arith; failed_lem = λ s. ground arith; live = λ l. l },
  )
  connect_new-Tried (serial ∷ devices) t h =
      let (mid, first, one) = connect_if_new-Tried serial t h in
      let (end, others, more) = connect_new-Tried devices mid h in
      (
        end,
        rw (first) others,
        record {
          mounted_lem = λ s.
              ground
                (arith, one.mounted_lem s, one.failed_lem s, more.mounted_lem s, more.failed_lem s);
          failed_lem = λ s.
              ground
                (arith, one.mounted_lem s, one.failed_lem s, more.mounted_lem s, more.failed_lem s);
          live = λ l. more.live (one.live l);
        },
      )
