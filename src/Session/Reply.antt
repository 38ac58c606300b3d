-- ===== src/Session/Reply.antt =====
-- The responses of the daemon, byte for byte, and what the client makes of them.
use nandroidfs.Protocol.{
  generic_failure, directory_not_empty, not_a_file, not_a_directory, file_exists, file_not_found,
  access_denied, RequestType, request_byte, ResponseStatus, response_status, status_byte, success,
}
use nandroidfs.Daemon.Posix.{
  Handler, with_input, Posix, Sys, failed, done, Errno, eacces, enoent, eexist, enotdir, eisdir,
  enotempty, other, get_status_from_errno, call, respond, flush,
}
use nandroidfs.Exec.{Result, ok, read_with, ◌>>=◌}
use nandroidfs.Base.{◌∙◌, sym, ap, ℕ, ◌≡◌, refl, arith, [], ◌∷◌, ◌++◌, Bytes, append-nil}
use nandroidfs.Session.{handle_messages, at_rest, reply, awaiting}
use nandroidfs.Wire.{write_byte, write_utf8_string}
use nandroidfs.Wire.RoundTrip.{read_byte_lem, write_utf8_string_lem}
use nandroidfs.Protocol.RoundTrip.{IsPath, IsStatus, response_status-status_byte}
use nandroidfs.Protocol.Request.{Request, Fits, encode}
use nandroidfs.Daemon.Handlers.{answer}
use nandroidfs.Daemon.Framing.{Seeks}
use nandroidfs.Daemon.Serve.{handled, handle_messages-serve}
use nandroidfs.Connection
use nandroidfs.Connection.{Client, receive_status, send_type, send, receive}
use nandroidfs.Connection.Requests.{request_of_path}

-- A property of the statuses of failed calls is one of these seven.
pub errno_cases :
    (P : ResponseStatus → Type 0)
    → P access_denied
    → P file_not_found
    → P file_exists
    → P not_a_directory
    → P not_a_file
    → P directory_not_empty
    → P generic_failure
    → (e : Errno) → P (get_status_from_errno e)
unfolding get_status_from_errno
errno_cases P a b c d e f g eacces = a
errno_cases P a b c d e f g enoent = b
errno_cases P a b c d e f g eexist = c
errno_cases P a b c d e f g enotdir = d
errno_cases P a b c d e f g eisdir = e
errno_cases P a b c d e f g enotempty = f
errno_cases P a b c d e f g (other x) = g

errno-IsStatus : (e : Errno) → IsStatus (get_status_from_errno e)
errno-IsStatus = errno_cases IsStatus tt tt tt tt tt tt tt

-- The status that stands for the result of a call.
abbrev pub status_of : {A : Type 0} → Sys A → ResponseStatus
status_of (failed e) = get_status_from_errno e
status_of (done a) = success

pub status_of_lem :
    {A : Type 0} (r : Sys A) → response_status (status_byte (status_of r)) ≡ status_of r
status_of_lem (failed e) = response_status-status_byte (get_status_from_errno e) (errno-IsStatus e)
status_of_lem (done a) = refl

module _ {F : Type 0} (os : Posix F) where
  pub reply_lem :
      (r : Request) (rw_buffer : Bytes) (fs : F)
      → Fits r
      → Seeks os r fs
      → (handled os r (at_rest rw_buffer fs)).0 ≡ ok tt
      → reply os r rw_buffer fs ≡ (handled os r (at_rest rw_buffer fs)).1.port.sent
  reply_lem r rw_buffer fs h k e =
      let s = at_rest rw_buffer fs in
      let served =
        handle_messages-serve os (r ∷ []) 2 s (omega arith) (h, tt) (k, tt) (rw e refl) in
      ap (λ (b : Bytes). (handle_messages os 2 (with_input b s)).1.port.sent)
        (sym (append-nil (encode r).bytes))
      ∙ (ap (λ (p : Result Unit × Handler F). p.1.port.sent) served ∙ rw e refl)

  -- The file system behind the request.
  pub file_system_lem :
      (r : Request) (rw_buffer : Bytes) (fs : F)
      → Fits r
      → Seeks os r fs
      → (handled os r (at_rest rw_buffer fs)).0 ≡ ok tt
      → (handle_messages os 2 (with_input (encode r).bytes (at_rest rw_buffer fs))).1.fs
        ≡ (handled os r (at_rest rw_buffer fs)).1.fs
  file_system_lem r rw_buffer fs h k e =
      let s = at_rest rw_buffer fs in
      let served =
        handle_messages-serve os (r ∷ []) 2 s (omega arith) (h, tt) (k, tt) (rw e refl) in
      ap (λ (b : Bytes). (handle_messages os 2 (with_input b s)).1.fs)
        (sym (append-nil (encode r).bytes))
      ∙ (ap (λ (p : Result Unit × Handler F). p.1.fs) served ∙ rw e refl)

  answered_by :
      {A : Type 0} (r : Sys A) (rw_buffer : Bytes) (fs : F)
      → (answer os r >>= λ _. flush) (at_rest rw_buffer fs) ≡ (
        ok tt,
        record (at_rest rw_buffer fs) {
          port = record { input = []; pending = []; sent = status_byte (status_of r) ∷ [] };
        },
      )
  unfolding answer respond flush write_byte
  answered_by (failed e) rw_buffer fs = refl
  answered_by (done a) rw_buffer fs = refl

  -- A call whose result is answered by a status alone.
  pub answered :
      {A : Type 0} (f : F → Sys A × F) (rw_buffer : Bytes) (fs : F)
      → ((call f >>= answer os) >>= λ _. flush) (at_rest rw_buffer fs) ≡ (
        ok tt,
        record (at_rest rw_buffer (f fs).1) {
          port = record { input = []; pending = []; sent = status_byte (status_of (f fs).0) ∷ [] };
        },
      )
  unfolding call
  answered f rw_buffer fs = answered_by (f fs).0 rw_buffer (f fs).1

-- The client's side of a request with a path.
pub request_of_path_lem :
    (t : RequestType) (p rest sent : Bytes) (b : ℕ) (c : Client)
    → IsPath p
    → request_of_path t p (awaiting (b ∷ rest) sent c) ≡ (
      ok (response_status b),
      awaiting rest (sent ++ (request_byte t ∷ (write_utf8_string p).bytes)) c,
    )
unfolding request_of_path send_type send Connection.flush receive_status receive write_byte
request_of_path_lem t p rest sent b c h =
    rw (write_utf8_string_lem p h, read_byte_lem b rest, read_with) refl
