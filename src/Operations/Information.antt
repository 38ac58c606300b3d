-- ===== src/Operations/Information.antt =====
-- What Windows is told about a file of the device.
use Prim.Native.Nat.{bit_and}
use nandroidfs.Base.{
  if◌then◌else◌, ◌==◌, ◌%◌, ◌/◌, ◌^◌, ℕ, ◌≡◌, refl, Bytes, Option, none, some, false,
}
use nandroidfs.Exec.{ok}
use nandroidfs.Conversion.{
  Unicode, WideString, Ntstatus, status_success, directory, normal, filetime_from_unix_time,
  file_attributes_from_st_mode, status_unsuccessful, ntstatus_from_respstatus, win32_path_to_unix,
}
use nandroidfs.Protocol.RoundTrip.{IsPath}
use nandroidfs.Protocol.Request.{stat_of}
use nandroidfs.Cache.Assoc.{lookup}
use nandroidfs.Daemon.Posix.{Posix, Sys, failed, done, PosixStat}
use nandroidfs.Connection.Requests.{has_suffix, desktop_ini}
use nandroidfs.Session.{reply, awaiting}
use nandroidfs.Session.Reply.{status_of, errno_cases}
use nandroidfs.Session.Stat.{stat_seen, req_stat_file_lem}
use nandroidfs.Operations.{Call, caught, on_conn, set_info}
use nandroidfs.Operations.Attributes.{
  FileInformation, information_of, information_answer, get_file_information,
}

-- What a `stat` is to be seen as: S_IFDIR decides on the attributes, and the size of 64 bits comes
-- in two halves.
abbrev pub information_seen : Sys PosixStat → Ntstatus × Option FileInformation
information_seen (failed e) =
    (ntstatus_from_respstatus (status_of {A = PosixStat} (failed e)), none)
information_seen (done st) = (
  status_success,
  some (record {
    attributes = if bit_and (st.st_mode % 2 ^ 16) 0xF000 == 0x4000 then directory else normal;
    size_low = st.st_size % 2 ^ 64 % 2 ^ 32;
    size_high = st.st_size % 2 ^ 64 / 2 ^ 32 % 2 ^ 32;
    last_access_time = filetime_from_unix_time (st.st_atime % 2 ^ 64);
    last_write_time = filetime_from_unix_time (st.st_mtime % 2 ^ 64);
  }),
)

answered_information :
    (r : Sys PosixStat) (s : Call)
    → (caught (status_unsuccessful, none) (information_answer (status_of r, stat_seen r) s)).0
      ≡ ok (information_seen r)
unfolding set_info ntstatus_from_respstatus information_of file_attributes_from_st_mode
answered_information (failed e) s =
    errno_cases
      (λ status.
        (caught (status_unsuccessful, none) (information_answer (status, none) s)).0
        ≡ ok (ntstatus_from_respstatus status, none))
      refl refl refl refl refl refl refl e
answered_information (done st) s = refl

-- What Dokan is told about a file whose stat is not cached is, with the daemon's response, the
-- status of `stat` on the device and, of its result, whether it is a directory, both halves of the
-- size, and the times of the last access and of the last write, if the path fits the wire and does
-- not end in desktop.ini.
pub get_file_information_lem :
    {F : Type 0} (os : Posix F) (unicode : Unicode) (steady : ℕ → ℕ) (filename : WideString)
    (rw_buffer sent : Bytes) (fs : F) (s : Call)
    → IsPath (win32_path_to_unix unicode filename)
    → has_suffix desktop_ini (win32_path_to_unix unicode filename) ≡ false
    → lookup (win32_path_to_unix unicode filename) s.conn.stat_cache.cached_data ≡ none
    → (get_file_information unicode steady filename (record s {
      conn =
          awaiting
            (reply os (stat_of (win32_path_to_unix unicode filename)) rw_buffer fs)
            sent
            s.conn;
    })).0
      ≡ ok (information_seen (os.stat (win32_path_to_unix unicode filename) fs).0)
unfolding get_file_information on_conn
get_file_information_lem os unicode steady filename rw_buffer sent fs s h no_ini miss =
    let stat =
      req_stat_file_lem steady os unicode filename rw_buffer sent fs s.conn h no_ini miss in
    rw stat.0 (answered_information (os.stat (win32_path_to_unix unicode filename) fs).0 _)
