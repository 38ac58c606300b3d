-- ===== src/DeviceTracker/Attempts.antt =====
-- nandroidfs/Nandroid.cpp and nandroidfs/DeviceTracker.cpp: an attempt to mount a device, on every
-- branch.
use nandroidfs.Base.{
  Bool-cases, ◌^◌, ◌%◌, ◌≤◌, ◌≡◌, refl, ◌∙◌, arith, ℕ, ◌+◌, Bool, true, false, ◌||◌, ◌&&◌, Option,
  none, some, Bytes, inl, inr,
}
use nandroidfs.DeviceTracker.{
  after_begin, program_ended, ran, insert, Ran, connect_to_device_internal, DeviceTracker,
}
use nandroidfs.Exec.{Exception, Result, ok, raise}
use nandroidfs.Nandroid.{
  delete, new_nandroid, forward_command, push_command, chmod_command, mount_filesystem, Nandroid,
  World, begin, Mounting, mounted, mount_failed, unfinished,
}
use nandroidfs.Nandroid.Mount.{mount_filesystem_decided}

abbrev pub is_ok : {A : Type 0} → Result A → Bool
is_ok (ok a) = true
is_ok (raise e) = false

abbrev pub is_mounting : Mounting → Bool
is_mounting (mounted letter) = true
is_mounting (mount_failed f) = false
is_mounting unfinished = false

abbrev pub pushes : World → Option Bytes → Bool
pushes w none = false
pushes w (some path) = is_ok (w.invoke_adb (push_command path))

-- What `begin` does before the thread of the daemon starts succeeds.
abbrev pub prepared : World → ℕ → Bool
prepared w port =
    pushes w w.agent_path
    && is_ok (w.invoke_adb chmod_command)
    && is_ok (w.invoke_adb (forward_command port))

-- And what it does after that.
abbrev pub completes : World → ℕ → Bool
completes w port =
    w.ready_at_wake && is_ok (w.connect port) && is_mounting (mount_filesystem w.create_file_system)

abbrev pub letter_of : Mounting → Option ℕ
letter_of (mounted letter) = some letter
letter_of (mount_failed f) = none
letter_of unfinished = none

pub record Begun (w : World) (n : Nandroid) (run : Result Unit × Nandroid) : Type 0 where
  pub serial : run.1.device_serial ≡ n.device_serial
  pub port : run.1.port_num ≡ n.port_num
  pub thread : run.1.thread_started ≡ (n.thread_started || prepared w n.port_num)
  pub success : is_ok run.0 ≡ (prepared w n.port_num && completes w n.port_num)
  pub drive :
      is_ok run.0 ≡ true
      → (run.1.connection ≡ true)
        × (run.1.instance ≡ letter_of (mount_filesystem w.create_file_system))

pub begin-Begun : (w : World) (n : Nandroid) → Begun w n (begin w n)
unfolding begin
begin-Begun w n = record {
  serial = ground arith;
  port = ground arith;
  thread = ground arith;
  success = ground arith;
  drive = λ e. ground (arith, e);
}

-- An object that is ready to serve its drive.
pub record IsLive (serial : Bytes) (n : Nandroid) : Type 0 where
  pub serial_same : n.device_serial ≡ serial
  pub thread : n.thread_started ≡ true
  pub connected : n.connection ≡ true
  pub drive : (letter : ℕ) × (n.instance ≡ some letter) × (b'D' ≤ letter) × (letter ≤ b'Z')

-- The port of the next attempt.
abbrev pub next_port : DeviceTracker → DeviceTracker
next_port t = record t { current_port = (t.current_port + 1) % 2 ^ 16 }

abbrev pub with_instance : Bytes → Nandroid → DeviceTracker → DeviceTracker
with_instance serial n t = record t { instances = insert serial n t.instances }

-- What an attempt comes to: a drive, an exception, or the end of the program.
pub data IsAttempt (w : World) (serial : Bytes) (t : DeviceTracker) : Ran Nandroid → Type 0 where
  succeeded :
      (n : Nandroid)
      → prepared w t.current_port ≡ true
      → completes w t.current_port ≡ true
      → n.port_num ≡ t.current_port
      → IsLive serial n
      → IsAttempt w serial t (ran (ok n) (with_instance serial n (next_port t)))
  failed :
      (e : Exception)
      → prepared w t.current_port ≡ true
      → completes w t.current_port ≡ false
      → IsAttempt w serial t (ran (raise e) (next_port t))
  crashed : prepared w t.current_port ≡ false → IsAttempt w serial t program_ended

drive_letter :
    (w : World)
    → is_mounting (mount_filesystem w.create_file_system) ≡ true
    → (letter : ℕ) × (letter_of (mount_filesystem w.create_file_system) ≡ some letter)
      × (b'D' ≤ letter)
      × (letter ≤ b'Z')
drive_letter w h = elim (mount_filesystem_decided w.create_file_system) [
  | inl (l, found, success, above, below) ↦ (l, rw found, above, below)
  | inr (f, found) ↦ absurd (ground (arith, h, found))
]

module _ (worlds : Bytes → World) (serial : Bytes) (t : DeviceTracker) where
  after_begin-IsAttempt :
      (run : Result Unit × Nandroid)
      → Begun (worlds serial) (new_nandroid serial t.current_port) run
      → IsAttempt (worlds serial) serial t (after_begin worlds serial (next_port t) run)
  unfolding new_nandroid delete
  after_begin-IsAttempt (ok u, n) h =
      succeeded n (ground (arith, h.success)) (ground (arith, h.success)) h.port (record {
        serial_same = h.serial;
        thread = ground (arith, h.thread, h.success);
        connected = (h.drive refl).0;
        drive =
            let (letter, found, above, below) =
              drive_letter (worlds serial) (ground (arith, h.success)) in
            (letter, (h.drive refl).1 ∙ found, above, below);
      })
  after_begin-IsAttempt (raise e, n) h =
      elim (Bool-cases (prepared (worlds serial) t.current_port)) [
        | inl good ↦
            let started : n.thread_started ≡ true = ground (arith, h.thread, good) in
            rw started (failed e good (ground (arith, h.success, good)))
        | inr bad ↦
            let never : n.thread_started ≡ false = ground (arith, h.thread, bad) in
            rw never (crashed bad)
      ]

  pub connect_to_device_internal_lem :
      IsAttempt (worlds serial) serial t (connect_to_device_internal worlds serial t)
  unfolding connect_to_device_internal
  connect_to_device_internal_lem =
      after_begin-IsAttempt (begin (worlds serial) (new_nandroid serial t.current_port))
        (begin-Begun (worlds serial) (new_nandroid serial t.current_port))
