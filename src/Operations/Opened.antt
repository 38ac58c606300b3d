-- ===== src/Operations/Opened.antt =====
-- The end of create_file of nandroidfs/operations.cpp for a file, with the daemon's response.
use nandroidfs.Operations.Plan.{plan-IsMode, answers, opens_as, Plan, plan}
use nandroidfs.Session.Open.{
  open_file-file_system, req_open_file_lem, forgets_parent, handle_seen, FitsHandle, opens,
}
use nandroidfs.Base.{◌∙◌, ◌++◌, [], arith, false, ◌≡◌, ◌&&◌, ◌||◌, ℕ, not, Bytes, Bool, true, refl}
use nandroidfs.Session.{at_rest, reply, awaiting}
use nandroidfs.Daemon.Posix.{with_input, get_status_from_errno, Sys, Posix, failed, done}
use nandroidfs.Exec.{pure, Exec, ok}
use nandroidfs.Daemon.Messages.{handle_messages}
use nandroidfs.Operations.Create.{
  handle_create_file, at_least_read, opened, set_handle, open_with, CreationDisposition,
  open_always, create_new, open_existing, truncate_existing,
}
use nandroidfs.Session.Reply.{status_of, errno_cases}
use nandroidfs.Protocol.Request.{encode, open_file}
use nandroidfs.Operations.{set_context, on_conn, Call, FileContext}
use nandroidfs.Connection.Requests.{desktop_ini, has_suffix}
use nandroidfs.Conversion.{
  win32_path_to_unix, status_object_name_collision, WideString, ntstatus_from_respstatus,
  status_success, Ntstatus, Unicode,
}
use nandroidfs.Protocol.Requests.{OpenHandleArgs}
use nandroidfs.Protocol.{OpenMode}
use nandroidfs.Protocol.RoundTrip.{IsPath, IsMode}

-- What is asked of the daemon: in POSIX a file is opened at least for reading.
abbrev pub open_args : Bytes → OpenMode → FileContext → OpenHandleArgs
open_args path mode context = record {
  path = path;
  mode = mode;
  read_access = context.read_access || not context.write_access;
  write_access = context.write_access;
}

-- What is kept for the open file.
abbrev pub context_after : Sys ℕ → OpenHandleArgs → FileContext → FileContext
context_after (failed e) args context = record {
  handle = context.handle;
  read_access = args.read_access;
  write_access = args.write_access;
}
context_after (done fd) args context = record {
  handle = fd;
  read_access = args.read_access;
  write_access = args.write_access;
}

-- A file that was there counts as a collision where Windows may have made it.
abbrev pub open_outcome : CreationDisposition → Bool → Sys ℕ → Ntstatus
open_outcome disposition existed (failed e) = ntstatus_from_respstatus (get_status_from_errno e)
open_outcome open_always true (done fd) = status_object_name_collision
open_outcome CreationDisposition.create_always true (done fd) = status_object_name_collision
open_outcome disposition existed (done fd) = status_success

access_asked : (r w : Bool) → (not (r || not w) && not w) ≡ false
access_asked true true = refl
access_asked true false = refl
access_asked false true = refl
access_asked false false = refl

at_least_read_lem :
    (context : FileContext) (path : Bytes) (mode : OpenMode)
    → at_least_read context
      ≡ record context { read_access = (open_args path mode context).read_access }
at_least_read_lem context path mode = ground arith

set_handle_lem :
    (r : Sys ℕ) (args : OpenHandleArgs) (context : FileContext)
    → args.write_access ≡ context.write_access
    → set_handle (handle_seen r) (record context { read_access = args.read_access })
      ≡ context_after r args context
set_handle_lem (failed e) args context h = ground arith
set_handle_lem (done fd) args context h = ground arith

opened_lem :
    (disposition : CreationDisposition) (existed : Bool) (r : Sys ℕ)
    → opened disposition existed (status_of r) ≡ open_outcome disposition existed r
opened_lem disposition existed (failed e) =
    errno_cases (λ status. opened disposition existed status ≡ ntstatus_from_respstatus status) refl
      refl refl refl refl refl refl e
opened_lem open_always true (done fd) = refl
opened_lem open_always false (done fd) = refl
opened_lem CreationDisposition.create_always true (done fd) = refl
opened_lem CreationDisposition.create_always false (done fd) = refl
opened_lem create_new existed (done fd) = ground arith
opened_lem open_existing existed (done fd) = ground arith
opened_lem truncate_existing existed (done fd) = ground arith
opened_lem (CreationDisposition.unknown n) existed (done fd) = ground arith

module _ {F : Type 0} (os : Posix F) (unicode : Unicode) where
  open_with_lem :
      (path : WideString) (disposition : CreationDisposition) (existed : Bool) (mode : OpenMode)
      (rw_buffer sent : Bytes) (fs : F) (s : Call)
      → let unix = win32_path_to_unix unicode path in
        let args = open_args unix mode s.file_info.context in
        let r = (opens os args fs).0 in
        IsPath unix
        → IsMode mode
        → has_suffix desktop_ini unix ≡ false
        → FitsHandle r
        → open_with unicode path disposition existed mode
            (record s { conn = awaiting (reply os (open_file args) rw_buffer fs) sent s.conn })
          ≡ (
            ok (open_outcome disposition existed r),
            record s {
              conn =
                  forgets_parent mode unix
                    (awaiting [] (sent ++ (encode (open_file args)).bytes) s.conn);
              file_info = record s.file_info { context = context_after r args s.file_info.context };
            },
          )
  unfolding open_with on_conn set_context
  open_with_lem path disposition existed mode rw_buffer sent fs s hp hm no_ini fits =
      rw
        (
          at_least_read_lem s.file_info.context (win32_path_to_unix unicode path) mode,
          req_open_file_lem os unicode path
              (open_args (win32_path_to_unix unicode path) mode s.file_info.context) rw_buffer sent
              fs s.conn refl hp hm
              (access_asked s.file_info.context.read_access s.file_info.context.write_access) no_ini
              fits,
        )
        (rw
          (
            opened_lem disposition existed,
            set_handle_lem _ (open_args (win32_path_to_unix unicode path) mode s.file_info.context)
                s.file_info.context refl,
          )
          refl)

  -- The plan, carried out.
  abbrev follow : WideString → CreationDisposition → Bool → Plan → Exec Call Ntstatus
  follow path disposition existed (answers status) = pure status
  follow path disposition existed (opens_as mode) = open_with unicode path disposition existed mode

  handle_create_file-plan :
      (path : WideString) (disposition : CreationDisposition) (existed : Bool) (s : Call)
      → handle_create_file unicode path disposition existed s
        ≡ follow path disposition existed
            (plan disposition existed
              (s.file_info.context.read_access || s.file_info.context.write_access))
            s
  unfolding handle_create_file
  handle_create_file-plan path CreationDisposition.create_always existed s = refl
  handle_create_file-plan path create_new existed s = refl
  handle_create_file-plan path open_always true s = ground arith
  handle_create_file-plan path open_always false s = ground arith
  handle_create_file-plan path open_existing true s = ground arith
  handle_create_file-plan path open_existing false s = ground arith
  handle_create_file-plan path truncate_existing existed s = refl
  handle_create_file-plan path (CreationDisposition.unknown n) existed s = refl

  -- If the disposition, whether the file is there, and the access asked for call for an open,
  -- handle_create_file gives with the daemon's response the outcome of `open` for the mode they
  -- call for, with at least read access: on success the open file keeps the descriptor, and on
  -- failure the handle it had; the listing of the parent is forgotten where the file may be new,
  -- that request and no more is sent, and the device's file system is that behind `open`; if the
  -- path fits the wire and does not end in desktop.ini, and a descriptor fits 32 bits.
  pub handle_create_file_lem :
      (path : WideString) (disposition : CreationDisposition) (existed : Bool) (mode : OpenMode)
      (rw_buffer sent : Bytes) (fs : F) (s : Call)
      → let unix = win32_path_to_unix unicode path in
        let args = open_args unix mode s.file_info.context in
        let r = opens os args fs in
        plan disposition existed
            (s.file_info.context.read_access || s.file_info.context.write_access)
          ≡ opens_as mode
        → IsPath unix
        → has_suffix desktop_ini unix ≡ false
        → FitsHandle r.0
        → (handle_create_file unicode path disposition existed
              (record s { conn = awaiting (reply os (open_file args) rw_buffer fs) sent s.conn })
            ≡ (
              ok (open_outcome disposition existed r.0),
              record s {
                conn =
                    forgets_parent mode unix
                      (awaiting [] (sent ++ (encode (open_file args)).bytes) s.conn);
                file_info = record s.file_info {
                  context = context_after r.0 args s.file_info.context;
                };
              },
            ))
          × ((handle_messages os 2
                (with_input (encode (open_file args)).bytes (at_rest rw_buffer fs))).1.fs
              ≡ r.1)
  handle_create_file_lem path disposition existed mode rw_buffer sent fs s e hp no_ini fits =
      let hm = plan-IsMode disposition existed _ mode e in
      let context = s.file_info.context in
      let args = open_args (win32_path_to_unix unicode path) mode context in
      (
        handle_create_file-plan path disposition existed
              (record s { conn = awaiting (reply os (open_file args) rw_buffer fs) sent s.conn })
            ∙ rw e
                (open_with_lem path disposition existed mode rw_buffer sent fs s hp hm no_ini fits),
        open_file-file_system os args rw_buffer fs hp hm
            (access_asked context.read_access context.write_access),
      )
