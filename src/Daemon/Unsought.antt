-- ===== src/Daemon/Unsought.antt =====
-- A write whose seek fails, in the daemon's loop.
use nandroidfs.Base.{ℕ, suc, ◌≡◌, refl, [], ◌∷◌, ◌++◌, Bytes, append_assoc}
use nandroidfs.Exec.{ok, read_with, ◌>>=◌}
use nandroidfs.Wire.{write_byte}
use nandroidfs.Wire.RoundTrip.{read_byte_lem}
use nandroidfs.Protocol.{status_byte}
use nandroidfs.Protocol.Requests.{WriteHandleInitArgs, read_write_handle_init_args}
use nandroidfs.Protocol.RoundTrip.{FitsWrite, read-write_write_handle_init_args}
use nandroidfs.Protocol.Request.{write_file, encode}
use nandroidfs.Daemon.Posix.{
  Errno, failed, Posix, Handler, with_input, get_status_from_errno, receive, respond, call, flush,
}
use nandroidfs.Daemon.Framing.{receive-bind, fits-write}
use nandroidfs.Daemon.Transfer.{act_write_file, write_sought}
use nandroidfs.Daemon.Messages.{dispatch, handle_message, handle_messages, next_message}

-- The handler behind the response to such a write.
abbrev pub refused : {F : Type 0} → Errno → F → Handler F → Handler F
refused e fs s = record s {
  fs = fs;
  port = record s.port {
    pending = [];
    sent = s.port.sent ++ (s.port.pending ++ (status_byte (get_status_from_errno e) ∷ []));
  };
}

module _ {F : Type 0} (os : Posix F) where
  act_write_file_unsought :
      (args : WriteHandleInitArgs) (i : Bytes) (s : Handler F) (e : Errno)
      → (os.lseek_set args.handle args.offset s.fs).0 ≡ failed e
      → (act_write_file os args >>= λ _. flush) (with_input i s)
        ≡ (ok tt, with_input i (refused e (os.lseek_set args.handle args.offset s.fs).1 s))
  unfolding act_write_file write_sought call respond flush write_byte
  act_write_file_unsought args i s e k = rw k refl

  -- If the seek of a well-formed write fails, the daemon answers with the error and takes the data
  -- of that write for the requests that follow.
  pub handle_messages_unsought :
      (args : WriteHandleInitArgs) (bytes rest : Bytes) (fuel : ℕ) (s : Handler F) (e : Errno)
      → FitsWrite args
      → (os.lseek_set args.handle args.offset s.fs).0 ≡ failed e
      → handle_messages os
          (suc fuel)
          (with_input ((encode (write_file args bytes)).bytes ++ rest) s)
        ≡ handle_messages os fuel
            (with_input (bytes ++ rest) (refused e (os.lseek_set args.handle args.offset s.fs).1 s))
  unfolding handle_messages handle_message dispatch encode write_byte receive
  handle_messages_unsought args bytes rest fuel s e h k = rw (
    read_byte_lem,
    read_with,
    next_message,
    fits-write args,
    append_assoc,
    receive-bind read_write_handle_init_args (act_write_file os) s _ args (bytes ++ rest)
        (read-write_write_handle_init_args args (bytes ++ rest) h),
    act_write_file_unsought args (bytes ++ rest) s e k,
  )
