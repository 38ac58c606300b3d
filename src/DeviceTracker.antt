-- ===== src/DeviceTracker.antt =====
-- nandroidfs/DeviceTracker.cpp: the devices that adb lists and the drives that are mounted for
-- them. The mutex makes each operation one step. What a device does is a `World`, given to the
-- operation for each serial number.
pub mod Listing
pub mod Attempts
pub mod Update
pub mod Invariant
mod Tests
use nandroidfs.Base.{
  ℕ, suc, ◌+◌, ◌-◌, ◌%◌, ◌^◌, Bool, true, false, not, ◌||◌, ◌&&◌, Option, none, some, List, [], ◌∷◌,
  ◌++◌, Bytes, length, if◌then◌else◌, bytes_eq,
}
use nandroidfs.Exec.{Result, ok, raise, stuck}
use nandroidfs.Path.{ends_with, pop_back}
use nandroidfs.Text.{codes, carriage_return, substr, index_of, for_newlines}
use nandroidfs.Cache.Assoc.{Map, lookup, insert, erase}
use nandroidfs.Nandroid.{Nandroid, World, new_nandroid, begin, delete, Deleted, deleted, terminated}

-- A set of strings.
unfoldable pub contains : List Bytes → Bytes → Bool
contains [] s = false
contains (x ∷ xs) s = bytes_eq x s || contains xs s

unfoldable pub add : Bytes → List Bytes → List Bytes
unfolding contains
add s xs = if contains xs s then xs else s ∷ xs

abbrev pub tab : ℕ
tab = b'\t'

abbrev pub listing_header : Bytes
listing_header = codes "List of devices attached"

abbrev is_empty : Bytes → Bool
is_empty [] = true
is_empty (b ∷ s) = false

unfoldable pub add_device : Bytes → Option ℕ → List Bytes → List Bytes
unfolding add
add_device line none devices = devices
add_device line (some tab_idx) devices =
    if bytes_eq (substr (suc tab_idx) (length line) line) (codes "device")
    then add (substr 0 tab_idx line) devices
    else devices

-- The body of the loop.
unfoldable pub parse_line : Bytes → ℕ → ℕ → List Bytes → List Bytes
unfolding add_device index_of
parse_line output start next devices =
    let cut = substr start (next - start) output in
    let line = if ends_with cut carriage_return then pop_back cut else cut in
    if bytes_eq line listing_header || is_empty line
    then devices
    else add_device line (index_of tab line) devices

abbrev first : {A B : Type 0} → Option (A × B) → Option A
first none = none
first (some (a, b)) = some a

-- The parse of what `adb devices` prints; `none` means that the loop ran out of fuel.
unfoldable pub authorized_devices : Bytes → Option (List Bytes)
unfolding for_newlines
authorized_devices output =
    first (for_newlines (parse_line output) output (suc (length output)) 0 [])

pub record DeviceTracker : Type 0 where
  pub current_port : ℕ
  pub instances : Map Nandroid
  pub failed_to_connect : List Bytes

abbrev pub new_tracker : DeviceTracker
new_tracker = record { current_port = 25989; instances = []; failed_to_connect = [] }

-- What an operation comes to, if the program goes on.
pub data Ran (A : Type 0) : Type 0 where
  ran : Result A → DeviceTracker → Ran A
  program_ended : Ran A

unfoldable pub is_mounted : DeviceTracker → Bytes → Bool
unfolding lookup
is_mounted t serial = elim (lookup serial t.instances) [ none ↦ false | some n ↦ true ]

unfoldable pub has_failed : DeviceTracker → Bytes → Bool
unfolding contains
has_failed t serial = contains t.failed_to_connect serial

abbrev note_failure : Bytes → Ran Nandroid → Ran Unit
note_failure serial (ran (ok n) t) = ran (ok tt) t
note_failure serial (ran (raise e) t) =
    ran (ok tt) (record t { failed_to_connect = add serial t.failed_to_connect })
note_failure serial program_ended = program_ended

abbrev pub and_then : Ran Unit → (DeviceTracker → Ran Unit) → Ran Unit
and_then (ran (ok u) t) f = f t
and_then (ran (raise e) t) f = ran (raise e) t
and_then program_ended f = program_ended

-- The serial numbers of the instances whose devices are gone.
unfoldable pub gone : List Bytes → Map Nandroid → List Bytes
unfolding contains
gone devices [] = []
gone devices ((serial, n) ∷ m) =
    let rest = gone devices m in if contains devices serial then rest else serial ∷ rest

abbrev after_delete : DeviceTracker → Deleted → Ran Unit
after_delete t (deleted n) = ran (ok tt) t
after_delete t terminated = program_ended

module _ (worlds : Bytes → World) where
  abbrev after_failure : Result Nandroid → DeviceTracker → Deleted → Ran Nandroid
  after_failure r t (deleted n) = ran r t
  after_failure r t terminated = program_ended

  abbrev after_begin : Bytes → DeviceTracker → Result Unit × Nandroid → Ran Nandroid
  after_begin serial t (ok u, n) = ran (ok n) (record t { instances = insert serial n t.instances })
  after_begin serial t (raise e, n) = after_failure (raise e) t (delete (worlds serial) n)

  unfoldable pub connect_to_device_internal : Bytes → DeviceTracker → Ran Nandroid
  connect_to_device_internal serial t =
      after_begin serial (record t { current_port = (t.current_port + 1) % 2 ^ 16 })
        (begin (worlds serial) (new_nandroid serial t.current_port))

  unfoldable pub connect_to_device : Bytes → DeviceTracker → Ran Nandroid
  connect_to_device = connect_to_device_internal

  -- The handle is that of an object that lives.
  unfoldable pub unmount_device : Nandroid → DeviceTracker → Ran Unit
  unmount_device handle t =
      after_delete (record t { instances = erase handle.device_serial t.instances })
        (delete (worlds handle.device_serial) handle)

  unfoldable pub connect_if_new : Bytes → DeviceTracker → Ran Unit
  unfolding is_mounted has_failed
  connect_if_new serial t =
      let attempt = note_failure serial (connect_to_device_internal serial t) in
      if not (is_mounted t serial) && not (has_failed t serial) then attempt else ran (ok tt) t

  unfoldable pub connect_new : List Bytes → DeviceTracker → Ran Unit
  connect_new [] t = ran (ok tt) t
  connect_new (serial ∷ devices) t = and_then (connect_if_new serial t) (connect_new devices)

  abbrev delete_found : Bytes → DeviceTracker → Option Nandroid → Ran Unit
  delete_found serial t none = ran (ok tt) t
  delete_found serial t (some n) =
      after_delete (record t { instances = erase serial t.instances }) (delete (worlds serial) n)

  unfoldable pub remove_all : List Bytes → DeviceTracker → Ran Unit
  remove_all [] t = ran (ok tt) t
  remove_all (serial ∷ serials) t =
      and_then (delete_found serial t (lookup serial t.instances)) (remove_all serials)

  unfoldable pub update_with : List Bytes → DeviceTracker → Ran Unit
  unfolding connect_new
  update_with devices t =
      and_then (connect_new devices t) λ t'. remove_all (gone devices t'.instances) t'

  -- The destructor; false means that the program ended.
  unfoldable pub delete_all : Map Nandroid → Bool
  delete_all [] = true
  delete_all ((serial, n) ∷ m) =
      let rest = delete_all m in
      elim (delete (worlds serial) n) [ deleted closed ↦ rest | terminated ↦ false ]

  abbrev update_listed : DeviceTracker → Option (List Bytes) → Ran Unit
  update_listed t none = ran (raise stuck) t
  update_listed t (some devices) = update_with devices t

  -- `listed` is what `adb devices` comes to.
  unfoldable pub update_connected_devices : Result Bytes → DeviceTracker → Ran Unit
  unfolding authorized_devices
  update_connected_devices (raise e) t = ran (raise e) t
  update_connected_devices (ok output) t = update_listed t (authorized_devices output)
