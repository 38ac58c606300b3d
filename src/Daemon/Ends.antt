-- ===== src/Daemon/Ends.antt =====
-- The daemon's loop ends on every stream, well formed or not.
use nandroidfs.Base.{
  int_length, ℕ, zero, suc, ◌<◌, ◌≤◌, ◌≡◌, ◌≢◌, refl, arith, Bytes, length, Option, none, some,
  Option-cases, inl, inr, ap,
}
use nandroidfs.Protocol.Requests.{WriteHandleInitArgs}
use nandroidfs.Wire.{Get, read_byte, read_exact}
use nandroidfs.Wire.Shrink.{
  Shrinks, Shrinks-read_u32, Shrinks-read_utf8_string, Shrinks-read_exact, read_byte-shorter,
}
use nandroidfs.Exec.{Exec, Result, ok, raise, stuck, runtime, ◌>>=◌, continue, read_with, Port}
use nandroidfs.Protocol.{
  RequestType, request_type, stat_file, list_directory, create_directory, check_remove_file,
  check_remove_directory, remove_file, remove_directory, move_entry, open_handle, close_handle,
  read_handle, write_handle, truncate_handle, set_file_time, get_disk_stats,
}
use nandroidfs.Protocol.Shrink.{
  Shrinks-open_handle_args, Shrinks-read_handle_args, Shrinks-write_handle_init_args,
  Shrinks-move_entry_args, Shrinks-truncate_handle_args, Shrinks-set_file_time_args,
}
use nandroidfs.Daemon.Posix.{Posix, Handler, receive, Sys, failed, done}
use nandroidfs.Daemon.Frames.{Frames, Frames-flush, Frames-ensure, Frames-call, Frames-respond}
use nandroidfs.Daemon.Frames.Acts.{
  act_stat-Frames, act_list-Frames, act_move-Frames, act_remove_file-Frames,
  act_remove_directory-Frames, act_create_directory-Frames, act_open_handle-Frames,
  act_close_handle-Frames, act_truncate-Frames, act_set_file_time-Frames, act_get_disk_stats-Frames,
  act_check_remove_file-Frames, act_check_remove_directory-Frames,
}
use nandroidfs.Daemon.Frames.Transfer.{act_read_file-Frames, write_data-Frames}
use nandroidfs.Daemon.Settles.{
  Settles, Settles-bind, Settles-receive, Settles-then, Settles-throw, Settles-flush,
}
use nandroidfs.Daemon.Settles.Acts.{
  act_stat-Settles, act_list-Settles, act_move-Settles, act_remove_file-Settles,
  act_remove_directory-Settles, act_create_directory-Settles, act_open_handle-Settles,
  act_close_handle-Settles, act_truncate-Settles, act_set_file_time-Settles,
  act_get_disk_stats-Settles, act_check_remove_file-Settles, act_check_remove_directory-Settles,
}
use nandroidfs.Daemon.Settles.Transfer.{Progress, act_read_file-Settles, act_write_file-Settles}
use nandroidfs.Daemon.Transfer.{write_sought, act_write_file}
use nandroidfs.Daemon.Messages.{dispatch, handle_message, handle_messages, next_message}

-- No byte is put back on the stream.
record Lessens {F A : Type 0} (m : Exec (Handler F) A) : Type 0 where
  at : (s : Handler F) → length (m s).1.port.input ≤ length s.port.input

received-lessens :
    {A : Type 0} (o : Option (A × Bytes)) (p : Port)
    → ((a : A) (rest : Bytes) → o ≡ some (a, rest) → length rest ≤ length p.input)
    → length (read_with o p).1.input ≤ length p.input
received-lessens none p h = omega arith
received-lessens (some (a, rest)) p h = h a rest refl

module _ {F A : Type 0} where
  Lessens-Frames : {m : Exec (Handler F) A} → Frames m → Lessens m
  Lessens-Frames {m} h = record {
    at = λ s.
        let same = ap (λ (p : Result A × Handler F). length p.1.port.input) (h.at s.port.input s) in
        omega (arith, same);
  }

  Lessens-receive : (get : Get A) → Shrinks get → Lessens (receive {F = F} get)
  unfolding receive
  Lessens-receive get h = record {
    at = λ s. received-lessens (get s.port.input) s.port (h.at s.port.input);
  }

module _ {F A B : Type 0} where
  continue-Lessens :
      (r : Result A) (f : A → Exec (Handler F) B) (s : Handler F)
      → ((a : A) → Lessens (f a))
      → length (continue r f s).1.port.input ≤ length s.port.input
  continue-Lessens (ok a) f s h = (h a).at s
  continue-Lessens (raise e) f s h = omega arith

  Lessens-bind :
      (m : Exec (Handler F) A) (f : A → Exec (Handler F) B)
      → Lessens m
      → ((a : A) → Lessens (f a))
      → Lessens (m >>= f)
  Lessens-bind m f hm hf = record {
    at = λ s. omega (arith, hm.at s, continue-Lessens (m s).0 f (m s).1 hf);
  }

module _ {F : Type 0} (os : Posix F) where
  reading :
      {A : Type 0} (get : Get A) (act : A → Exec (Handler F) Unit)
      → Shrinks get
      → ((a : A) → Frames (act a))
      → Lessens (receive get >>= act)
  reading get act hg ha = Lessens-bind _ act (Lessens-receive get hg) (λ a. Lessens-Frames (ha a))

  write_sought-Lessens : (args : WriteHandleInitArgs) (r : Sys ℕ) → Lessens (write_sought os args r)
  unfolding write_sought
  write_sought-Lessens args (failed e) = Lessens-Frames (Frames-respond _)
  write_sought-Lessens args (done n) =
      Lessens-bind _ _ (Lessens-Frames (Frames-ensure args.data_len)) λ _.
        reading (read_exact (int_length args.data_len)) _ (Shrinks-read_exact _)
          (write_data-Frames os args)

  act_write_file-Lessens : (args : WriteHandleInitArgs) → Lessens (act_write_file os args)
  unfolding act_write_file
  act_write_file-Lessens args =
      Lessens-bind _ _ (Lessens-Frames (Frames-call _)) (write_sought-Lessens args)

  dispatch-Lessens : (t : RequestType) → Lessens (dispatch os t)
  unfolding dispatch
  dispatch-Lessens stat_file = reading _ _ Shrinks-read_utf8_string (act_stat-Frames os)
  dispatch-Lessens list_directory = reading _ _ Shrinks-read_utf8_string (act_list-Frames os)
  dispatch-Lessens move_entry = reading _ _ Shrinks-move_entry_args (act_move-Frames os)
  dispatch-Lessens remove_file = reading _ _ Shrinks-read_utf8_string (act_remove_file-Frames os)
  dispatch-Lessens remove_directory =
      reading _ _ Shrinks-read_utf8_string (act_remove_directory-Frames os)
  dispatch-Lessens create_directory =
      reading _ _ Shrinks-read_utf8_string (act_create_directory-Frames os)
  dispatch-Lessens open_handle = reading _ _ Shrinks-open_handle_args (act_open_handle-Frames os)
  dispatch-Lessens read_handle = reading _ _ Shrinks-read_handle_args (act_read_file-Frames os)
  dispatch-Lessens write_handle =
      Lessens-bind _ _ (Lessens-receive _ Shrinks-write_handle_init_args) act_write_file-Lessens
  dispatch-Lessens close_handle = reading _ _ Shrinks-read_u32 (act_close_handle-Frames os)
  dispatch-Lessens truncate_handle =
      reading _ _ Shrinks-truncate_handle_args (act_truncate-Frames os)
  dispatch-Lessens set_file_time =
      reading _ _ Shrinks-set_file_time_args (act_set_file_time-Frames os)
  dispatch-Lessens get_disk_stats = Lessens-Frames (act_get_disk_stats-Frames os)
  dispatch-Lessens check_remove_file =
      reading _ _ Shrinks-read_utf8_string (act_check_remove_file-Frames os)
  dispatch-Lessens check_remove_directory =
      reading _ _ Shrinks-read_utf8_string (act_check_remove_directory-Frames os)
  dispatch-Lessens (RequestType.unknown b) = record { at = λ s. omega arith }

  module _ (progress : Progress os) where
    receiving :
        {A : Type 0} (get : Get A) (act : A → Exec (Handler F) Unit)
        → ((a : A) → Settles (act a))
        → Settles (receive get >>= act)
    receiving get act h = Settles-bind _ act (Settles-receive get) h

    dispatch-Settles : (t : RequestType) → Settles (dispatch os t)
    unfolding dispatch
    dispatch-Settles stat_file = receiving _ _ (act_stat-Settles os)
    dispatch-Settles list_directory = receiving _ _ (act_list-Settles os)
    dispatch-Settles move_entry = receiving _ _ (act_move-Settles os)
    dispatch-Settles remove_file = receiving _ _ (act_remove_file-Settles os)
    dispatch-Settles remove_directory = receiving _ _ (act_remove_directory-Settles os)
    dispatch-Settles create_directory = receiving _ _ (act_create_directory-Settles os)
    dispatch-Settles open_handle = receiving _ _ (act_open_handle-Settles os)
    dispatch-Settles read_handle = receiving _ _ (act_read_file-Settles os)
    dispatch-Settles write_handle = receiving _ _ (act_write_file-Settles os progress)
    dispatch-Settles close_handle = receiving _ _ (act_close_handle-Settles os)
    dispatch-Settles truncate_handle = receiving _ _ (act_truncate-Settles os)
    dispatch-Settles set_file_time = receiving _ _ (act_set_file_time-Settles os)
    dispatch-Settles get_disk_stats = act_get_disk_stats-Settles os
    dispatch-Settles check_remove_file = receiving _ _ (act_check_remove_file-Settles os)
    dispatch-Settles check_remove_directory = receiving _ _ (act_check_remove_directory-Settles os)
    dispatch-Settles (RequestType.unknown b) = Settles-throw runtime (λ p. ground arith)

    handle_message-Lessens : (b : ℕ) → Lessens (handle_message os b)
    unfolding handle_message
    handle_message-Lessens b =
        Lessens-bind _ _ (dispatch-Lessens (request_type b)) (λ _. Lessens-Frames Frames-flush)

    handle_message-Settles : (b : ℕ) → Settles (handle_message os b)
    unfolding handle_message
    handle_message-Settles b = Settles-then _ _ (dispatch-Settles (request_type b)) Settles-flush

    goes_on :
        (r : Result Unit) (more : Exec (Handler F) Unit) (s : Handler F)
        → r ≢ raise stuck
        → (more s).0 ≢ raise stuck
        → (continue r (λ _. more) s).0 ≢ raise stuck
    goes_on (ok a) more s h k = k
    goes_on (raise e) more s h k = λ p. ground arith

    -- Whatever the client sends, one turn of the daemon's loop more than there are bytes on the
    -- stream is enough for it to return or to throw, if a write of some bytes to a file writes at
    -- least one.
    pub handle_messages-ends :
        (fuel : ℕ) (s : Handler F)
        → length s.port.input < fuel
        → (handle_messages os fuel s).0 ≢ raise stuck
    unfolding handle_messages receive
    handle_messages-ends zero s h = absurd (omega arith)
    handle_messages-ends (suc fuel) s h = elim (Option-cases (read_byte s.port.input)) [
      | inl e ↦ rw (e, read_with, next_message) (λ p. cc)
      | inr ((b, rest), e) ↦
          rw (e, read_with, next_message)
            (goes_on _ _ _ ((handle_message-Settles b).at _) (
              handle_messages-ends fuel _ (
                omega (
                  arith,
                  read_byte-shorter s.port.input b rest e,
                  (handle_message-Lessens b).at
                      (record s { port = record s.port { input = rest } }),
                ))))
    ]
