-- ===== src/Daemon/Frames/Transfer.antt =====
-- Reading and writing a file leave the bytes that follow the request alone.
use nandroidfs.Daemon.Transfer.{
  moved, broke, Ended, read_round, read_loop, answer_read, read_sought, act_read_file, write_round,
  write_loop, answer_write, write_data,
}
use nandroidfs.Base.{◌+◌, ℕ, zero, suc, Bytes, [], ◌∷◌}
use nandroidfs.Protocol.Requests.{ReadHandleArgs, WriteHandleInitArgs}
use nandroidfs.Daemon.Framing.{perform_write}
use nandroidfs.Exec.{Exec}
use nandroidfs.Daemon.Posix.{Sys, failed, done, Posix, Handler}
use nandroidfs.Daemon.Frames.{Frames, frames_rules}

module _ {F : Type 0} (os : Posix F) where
  read_round-Frames :
      (next : ℕ → Exec (Handler F) Ended) (total : ℕ) (r : Sys Bytes)
      → ((n : ℕ) → Frames (next n))
      → Frames (read_round os next total r)
  unfolding read_round
  read_round-Frames next total (failed e) h = search frames_rules
  read_round-Frames next total (done []) h = search frames_rules
  read_round-Frames next total (done (b ∷ chunk)) h = search frames_rules

  read_loop-Frames : (fuel handle n total : ℕ) → Frames (read_loop os fuel handle n total)
  unfolding read_loop
  read_loop-Frames zero handle n total = search frames_rules
  read_loop-Frames (suc fuel) handle n total =
      search (frames_rules, read_round-Frames, read_loop-Frames fuel handle n)

  answer_read-Frames : (ended : Ended) → Frames (answer_read os ended)
  unfolding answer_read
  answer_read-Frames (broke e) = search frames_rules
  answer_read-Frames (moved n) = search frames_rules depth 7

  read_sought-Frames : (args : ReadHandleArgs) (r : Sys ℕ) → Frames (read_sought os args r)
  unfolding read_sought
  read_sought-Frames args (failed e) = search frames_rules
  read_sought-Frames args (done offset) =
      search (frames_rules, read_loop-Frames, answer_read-Frames)

  pub act_read_file-Frames : (args : ReadHandleArgs) → Frames (act_read_file os args)
  unfolding act_read_file
  act_read_file-Frames args = search (frames_rules, read_sought-Frames)

  write_round-Frames :
      (next : ℕ → Exec (Handler F) Ended) (total : ℕ) (r : Sys ℕ)
      → ((n : ℕ) → Frames (next n))
      → Frames (write_round os next total r)
  unfolding write_round
  write_round-Frames next total (failed e) h = search frames_rules
  write_round-Frames next total (done n) h = h (total + n)

  write_loop-Frames : (fuel handle n total : ℕ) → Frames (write_loop os fuel handle n total)
  unfolding write_loop
  write_loop-Frames zero handle n total = search frames_rules
  write_loop-Frames (suc fuel) handle n total =
      search (frames_rules, write_round-Frames, write_loop-Frames fuel handle n) depth 7

  answer_write-Frames : (ended : Ended) → Frames (answer_write os ended)
  unfolding answer_write
  answer_write-Frames (broke e) = search frames_rules
  answer_write-Frames (moved n) = search frames_rules

  pub write_data-Frames :
      (args : WriteHandleInitArgs) (bytes : Bytes) → Frames (write_data os args bytes)
  unfolding write_data
  write_data-Frames args bytes = search (frames_rules, write_loop-Frames, answer_write-Frames)

  pub perform_write-Frames :
      (args : WriteHandleInitArgs) (bytes : Bytes) (r : Sys ℕ)
      → Frames (perform_write os args bytes r)
  perform_write-Frames args bytes (failed e) = search frames_rules
  perform_write-Frames args bytes (done offset) = search (frames_rules, write_data-Frames)
