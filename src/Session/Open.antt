-- ===== src/Session/Open.antt =====
-- The opening of a file, end to end.
use nandroidfs.Session.Reply.{file_system_lem, reply_lem, status_of_lem, errno_cases, status_of}
use nandroidfs.Daemon.Posix.{with_input, flush, done, respond, call, failed, Posix, Sys}
use nandroidfs.Daemon.Messages.{handle_messages}
use nandroidfs.Connection.Requests.{
  desktop_ini, has_suffix, req_open_file, receive_handle, forget_parent_if_created, open_file_of,
}
use nandroidfs.Conversion.{win32_path_to_unix, WideString, Unicode}
use nandroidfs.Session.{at_rest, reply, awaiting}
use nandroidfs.Base.{
  refl, ◌++◌, ◌∙◌, ap, ◌∷◌, append-nil, false, ◌^◌, ◌&&◌, not, ◌<◌, some, [], none, ◌≡◌, Option,
  Bytes, ℕ,
}
use nandroidfs.Exec.{◌>>=◌, read_with, ok}
use nandroidfs.Connection.{
  receive, receive_status, forget_listing, send, Client, invalidate_parent_dir, send_type,
}
use nandroidfs.Daemon.Serve.{handled}
use nandroidfs.Wire.RoundTrip.{read_byte_lem, write_utf8_string_lem, read_u32_lem}
use nandroidfs.Protocol.{
  status_byte, create_always, create_if_not_exist, create_or_truncate, open_only, truncate,
  OpenMode,
}
use nandroidfs.Protocol.Request.{open_file, encode}
use nandroidfs.Protocol.Requests.{write_open_handle_args, OpenHandleArgs}
use nandroidfs.Protocol.RoundTrip.{IsPath, IsMode}
use nandroidfs.Connection
use nandroidfs.Wire.{write_u32, write_byte, network32}
use nandroidfs.Daemon.Convert.{default_file_mode, creation_flags}
use nandroidfs.Path.{get_parent_path}
use nandroidfs.Daemon.Handlers.{answer_open, act_open_handle}

-- What `open` gives for it.
abbrev pub opens : {F : Type 0} → Posix F → OpenHandleArgs → F → Sys ℕ × F
opens os args fs = os.open_fd args.path (creation_flags args) default_file_mode fs

-- A descriptor is an int, and not negative.
abbrev pub FitsHandle : Sys ℕ → Type 0
FitsHandle (failed e) = Unit
FitsHandle (done fd) = fd < 2 ^ 32

-- What follows the status.
abbrev handle_bytes : Sys ℕ → Bytes
handle_bytes (failed e) = []
handle_bytes (done fd) = network32 fd

abbrev pub handle_seen : Sys ℕ → Option ℕ
handle_seen (failed e) = none
handle_seen (done fd) = some fd

module _ {F : Type 0} (os : Posix F) where
  answered_open :
      (r : Sys ℕ) (rw_buffer : Bytes) (fs : F)
      → (answer_open os r >>= λ _. flush) (at_rest rw_buffer fs) ≡ (
        ok tt,
        record (at_rest rw_buffer fs) {
          port = record {
            input = [];
            pending = [];
            sent = status_byte (status_of r) ∷ handle_bytes r;
          };
        },
      )
  unfolding answer_open respond flush write_byte write_u32
  answered_open (failed e) rw_buffer fs = refl
  answered_open (done fd) rw_buffer fs = refl

  -- An open with some access reaches `open`.
  handled_open :
      (args : OpenHandleArgs) (rw_buffer : Bytes) (fs : F)
      → (not args.read_access && not args.write_access) ≡ false
      → handled os (open_file args) (at_rest rw_buffer fs) ≡ (
        ok tt,
        record (at_rest rw_buffer (opens os args fs).1) {
          port = record {
            input = [];
            pending = [];
            sent = status_byte (status_of (opens os args fs).0) ∷ handle_bytes (opens os args fs).0;
          };
        },
      )
  unfolding act_open_handle call
  handled_open args rw_buffer fs access =
      rw access (answered_open (opens os args fs).0 rw_buffer (opens os args fs).1)

  open_file-reply :
      (args : OpenHandleArgs) (rw_buffer : Bytes) (fs : F)
      → IsPath args.path
      → IsMode args.mode
      → (not args.read_access && not args.write_access) ≡ false
      → reply os (open_file args) rw_buffer fs
        ≡ status_byte (status_of (opens os args fs).0) ∷ handle_bytes (opens os args fs).0
  open_file-reply args rw_buffer fs hp hm access =
      let answered = handled_open args rw_buffer fs access in
      reply_lem os (open_file args) rw_buffer fs (hp, hm) tt (ap (λ r. r.0) answered)
      ∙ ap (λ r. r.1.port.sent) answered

  -- The file system behind it is that behind `open`.
  pub open_file-file_system :
      (args : OpenHandleArgs) (rw_buffer : Bytes) (fs : F)
      → IsPath args.path
      → IsMode args.mode
      → (not args.read_access && not args.write_access) ≡ false
      → (handle_messages os 2
          (with_input (encode (open_file args)).bytes (at_rest rw_buffer fs))).1.fs
        ≡ (opens os args fs).1
  open_file-file_system args rw_buffer fs hp hm access =
      let answered = handled_open args rw_buffer fs access in
      file_system_lem os (open_file args) rw_buffer fs (hp, hm) tt (ap (λ r. r.0) answered)
      ∙ ap (λ r. r.1.fs) answered

-- The client's side.
receive_handle_lem :
    (r : Sys ℕ) (sent : Bytes) (c : Client)
    → FitsHandle r
    → receive_handle (status_of r) (awaiting (handle_bytes r) sent c)
      ≡ (ok (handle_seen r), awaiting [] sent c)
unfolding receive_handle receive
receive_handle_lem (failed e) sent c h =
    errno_cases
      (λ status. receive_handle status (awaiting [] sent c) ≡ (ok none, awaiting [] sent c)) refl
      refl refl refl refl refl refl e
receive_handle_lem (done fd) sent c h =
    rw (← append-nil (network32 fd), read_u32_lem fd [] h, read_with) refl

-- What an open may take out of the caches.
abbrev pub forgets_parent : OpenMode → Bytes → Client → Client
forgets_parent create_always path c = record c {
  dir_list_cache = forget_listing (get_parent_path path) c.dir_list_cache;
}
forgets_parent create_if_not_exist path c = record c {
  dir_list_cache = forget_listing (get_parent_path path) c.dir_list_cache;
}
forgets_parent create_or_truncate path c = record c {
  dir_list_cache = forget_listing (get_parent_path path) c.dir_list_cache;
}
forgets_parent _ path c = c

forget_parent_lem :
    (mode : OpenMode) (path : Bytes) (c : Client)
    → forget_parent_if_created mode path c ≡ (ok tt, forgets_parent mode path c)
unfolding forget_parent_if_created invalidate_parent_dir
forget_parent_lem create_always path c = refl
forget_parent_lem create_if_not_exist path c = refl
forget_parent_lem create_or_truncate path c = refl
forget_parent_lem open_only path c = refl
forget_parent_lem truncate path c = refl
forget_parent_lem (OpenMode.unknown b) path c = refl

open_file_of_lem :
    (args : OpenHandleArgs) (r : Sys ℕ) (sent : Bytes) (c : Client)
    → IsPath args.path
    → FitsHandle r
    → open_file_of args.path args.mode args.read_access args.write_access
        (awaiting (status_byte (status_of r) ∷ handle_bytes r) sent c)
      ≡ (
        ok (status_of r, handle_seen r),
        forgets_parent args.mode args.path
            (awaiting [] (sent ++ (encode (open_file args)).bytes) c),
      )
unfolding open_file_of send_type send Connection.flush receive_status receive write_byte encode
    write_open_handle_args
open_file_of_lem args r sent c h k =
    rw
      (
        write_utf8_string_lem args.path h,
        read_byte_lem,
        read_with,
        status_of_lem r,
        receive_handle_lem r _ c k,
        forget_parent_lem,
      )
      refl

module _ {F : Type 0} (os : Posix F) (unicode : Unicode) where
  pub req_open_file_lem :
      (path : WideString) (args : OpenHandleArgs) (rw_buffer sent : Bytes) (fs : F) (c : Client)
      → args.path ≡ win32_path_to_unix unicode path
      → IsPath args.path
      → IsMode args.mode
      → (not args.read_access && not args.write_access) ≡ false
      → has_suffix desktop_ini args.path ≡ false
      → FitsHandle (opens os args fs).0
      → req_open_file unicode path args.mode args.read_access args.write_access
          (awaiting (reply os (open_file args) rw_buffer fs) sent c)
        ≡ (
          ok (status_of (opens os args fs).0, handle_seen (opens os args fs).0),
          forgets_parent args.mode args.path
              (awaiting [] (sent ++ (encode (open_file args)).bytes) c),
        )
  unfolding req_open_file
  req_open_file_lem path args rw_buffer sent fs c e hp hm access no_ini fits =
      rw (open_file-reply os args rw_buffer fs hp hm access, ← e, no_ini)
        (open_file_of_lem args (opens os args fs).0 sent c hp fits)
