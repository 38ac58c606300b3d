-- ===== src/Daemon/Serve.antt =====
-- Whole conversations: a stream of requests is served one after the other, and the loop ends on
-- every stream.
use nandroidfs.Base.{ℕ, zero, suc, ◌<◌, ◌≡◌, arith, [], ◌∷◌, ◌++◌, Bytes, length, List}
use nandroidfs.Exec.{Exec, Result, ok, raise, pure, ◌>>=◌, ◌>>◌, continue}
use nandroidfs.Protocol.Request.{
  Request, encode, Fits, stat_of, list_of, create_dir, can_remove_file, can_remove_dir, delete_file,
  delete_dir, move, open_file, close_file, read_file, write_file, resize_file, set_times,
  disk_stats,
}
use nandroidfs.Daemon.Posix.{Posix, Handler, with_input, flush}
use nandroidfs.Daemon.Messages.{handle_messages}
use nandroidfs.Daemon.Framing.{perform, Seeks, handle_messages-encode, handle_messages_end}
use nandroidfs.Daemon.Frames.{Frames, Frames-flush, Frames-then, Frames-bind, Frames-call}
use nandroidfs.Daemon.Frames.Acts.{
  act_stat-Frames, act_list-Frames, act_move-Frames, act_remove_file-Frames,
  act_remove_directory-Frames, act_create_directory-Frames, act_open_handle-Frames,
  act_close_handle-Frames, act_truncate-Frames, act_set_file_time-Frames, act_get_disk_stats-Frames,
  act_check_remove_file-Frames, act_check_remove_directory-Frames,
}
use nandroidfs.Daemon.Frames.Transfer.{act_read_file-Frames, perform_write-Frames}

abbrev pub encode_all : List Request → Bytes
encode_all [] = []
encode_all (r ∷ rs) = (encode r).bytes ++ encode_all rs

abbrev pub AllFit : List Request → Type 0
AllFit [] = Unit
AllFit (r ∷ rs) = Fits r × AllFit rs

module _ {F : Type 0} (os : Posix F) where
  perform-Frames : (r : Request) → Frames (perform os r)
  perform-Frames (stat_of path) = act_stat-Frames os path
  perform-Frames (list_of path) = act_list-Frames os path
  perform-Frames (create_dir path) = act_create_directory-Frames os path
  perform-Frames (can_remove_file path) = act_check_remove_file-Frames os path
  perform-Frames (can_remove_dir path) = act_check_remove_directory-Frames os path
  perform-Frames (delete_file path) = act_remove_file-Frames os path
  perform-Frames (delete_dir path) = act_remove_directory-Frames os path
  perform-Frames (move args) = act_move-Frames os args
  perform-Frames (open_file args) = act_open_handle-Frames os args
  perform-Frames (close_file handle) = act_close_handle-Frames os handle
  perform-Frames (read_file args) = act_read_file-Frames os args
  perform-Frames (write_file args bytes) =
      Frames-bind _ _ (Frames-call _) (perform_write-Frames os args bytes)
  perform-Frames (resize_file args) = act_truncate-Frames os args
  perform-Frames (set_times args) = act_set_file_time-Frames os args
  perform-Frames disk_stats = act_get_disk_stats-Frames os

  -- A request and the flush of its response.
  abbrev pub handled : Request → Exec (Handler F) Unit
  handled r = perform os r >> flush

  handled-Frames : (r : Request) → Frames (handled r)
  handled-Frames r = Frames-then (perform os r) flush (perform-Frames r) Frames-flush

  -- The requests, performed in turn on the object.
  abbrev pub serve : List Request → Exec (Handler F) Unit
  serve [] = pure tt
  serve (r ∷ rs) = handled r >>= λ _. serve rs

  -- Each write's seek succeeds at its turn.
  abbrev pub SeeksAll : List Request → Handler F → Type 0
  SeeksAll [] s = Unit
  SeeksAll (r ∷ rs) s = Seeks os r s.fs × SeeksAll rs (handled r s).1

  -- The bytes of well-formed requests, whose reads and writes are of less than 2 ^ 31 bytes, sent
  -- in one stream, are served as the requests in turn, and the loop returns at the end of the
  -- stream, if every write's seek succeeds, no request throws, and there is more fuel than
  -- requests.
  pub handle_messages-serve :
      (rs : List Request) (fuel : ℕ) (s : Handler F)
      → length rs < fuel
      → AllFit rs
      → SeeksAll rs s
      → (serve rs s).0 ≡ ok tt
      → handle_messages os fuel (with_input (encode_all rs) s)
        ≡ (ok tt, with_input [] (serve rs s).1)
  handle_messages-serve rs zero s lt h k e = absurd (omega arith)
  handle_messages-serve [] (suc fuel) s lt h k e = handle_messages_end os fuel s
  handle_messages-serve (r ∷ rs) (suc fuel) s lt h k e =
      rw
        (
          handle_messages-encode os r (encode_all rs) fuel s h.0 k.0,
          (handled-Frames r).at (encode_all rs) s,
        )
        (rest (handled r s).0 (handled r s).1 e
          (handle_messages-serve rs fuel (handled r s).1 (omega arith) h.1 k.1))
    where
      rest :
          (x : Result Unit) (s' : Handler F)
          → (continue x (λ _. serve rs) s').0 ≡ ok tt
          → ((serve rs s').0 ≡ ok tt
              → handle_messages os fuel (with_input (encode_all rs) s')
                ≡ (ok tt, with_input [] (serve rs s').1))
          → continue x (λ _. handle_messages os fuel) (with_input (encode_all rs) s')
            ≡ (ok tt, with_input [] (continue x (λ _. serve rs) s').1)
      rest (ok a) s' p ih = ih p
      rest (raise x) s' p ih = cc
