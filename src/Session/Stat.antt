-- ===== src/Session/Stat.antt =====
-- The stat of a file, end to end.
use nandroidfs.Base.{
  ◌+◌, suc, append-nil, ℕ, ◌≡◌, refl, arith, ap, ◌∙◌, [], ◌∷◌, ◌++◌, Bytes, Option, none, some,
  false,
}
use nandroidfs.Session.Reply.{errno_cases, reply_lem, status_of, status_of_lem, request_of_path_lem}
use nandroidfs.Exec.{ok, ◌>>=◌, read_with}
use nandroidfs.Wire.{write_byte, write_u16, write_u64}
use nandroidfs.Protocol.{stat_file, status_byte}
use nandroidfs.Protocol.Responses.{FileStat, write_file_stat}
use nandroidfs.Protocol.RoundTrip.{IsPath, FitsStat, read-write_file_stat}
use nandroidfs.Protocol.Request.{stat_of, encode}
use nandroidfs.Daemon.Posix.{Posix, Sys, failed, done, PosixStat, call, respond, flush}
use nandroidfs.Daemon.Convert.{to_file_stat}
use nandroidfs.Daemon.Handlers.{act_stat, answer_stat}
use nandroidfs.Cache.{get_cached}
use nandroidfs.Cache.Assoc.{lookup}
use nandroidfs.Conversion.{Unicode, WideString, win32_path_to_unix}
use nandroidfs.Connection.{Client, receive, lookup_stat, cache_stat}
use nandroidfs.Connection.Requests.{
  req_stat_file, stat_locked, stat_uncached, stat_remote, receive_stat, has_suffix, desktop_ini,
}
use nandroidfs.Session.{at_rest, reply, awaiting}

-- What the client is to see of a `stat`.
abbrev pub stat_seen : Sys PosixStat → Option FileStat
stat_seen (failed e) = none
stat_seen (done st) = some (to_file_stat st)

-- What follows the status.
abbrev stat_bytes : Sys PosixStat → Bytes
stat_bytes (failed e) = []
stat_bytes (done st) = (write_file_stat (to_file_stat st)).bytes

pub fits_stat : (st : PosixStat) → FitsStat (to_file_stat st)
fits_stat st = record {
  mode = omega arith;
  size = omega arith;
  access_time = omega arith;
  write_time = omega arith;
}

module _ {F : Type 0} (os : Posix F) where
  answered_stat :
      (r : Sys PosixStat) (rw_buffer : Bytes) (fs : F)
      → (answer_stat os r >>= λ _. flush) (at_rest rw_buffer fs) ≡ (
        ok tt,
        record (at_rest rw_buffer fs) {
          port = record {
            input = [];
            pending = [];
            sent = status_byte (status_of r) ∷ stat_bytes r;
          };
        },
      )
  unfolding answer_stat respond flush write_byte write_file_stat write_u16 write_u64
  answered_stat (failed e) rw_buffer fs = refl
  answered_stat (done a) rw_buffer fs = refl

  stat_of-reply :
      (p rw_buffer : Bytes) (fs : F)
      → IsPath p
      → reply os (stat_of p) rw_buffer fs
        ≡ status_byte (status_of (os.stat p fs).0) ∷ stat_bytes (os.stat p fs).0
  unfolding act_stat call
  stat_of-reply p rw_buffer fs h =
      let answered = answered_stat (os.stat p fs).0 rw_buffer (os.stat p fs).1 in
      reply_lem os (stat_of p) rw_buffer fs h tt (ap (λ r. r.0) answered)
      ∙ ap (λ r. r.1.port.sent) answered

module _ (steady : ℕ → ℕ) where
  receive_stat_lem :
      (p sent : Bytes) (r : Sys PosixStat) (c : Client)
      → (receive_stat steady p (status_of r) (awaiting (stat_bytes r) sent c)).0
        ≡ ok (status_of r, stat_seen r)
  unfolding receive_stat receive cache_stat
  receive_stat_lem p sent (failed e) c =
      errno_cases
        (λ status. (receive_stat steady p status (awaiting [] sent c)).0 ≡ ok (status, none)) refl
        refl refl refl refl refl refl e
  receive_stat_lem p sent (done st) c =
      rw
        (
          ← append-nil (write_file_stat (to_file_stat st)).bytes,
          read-write_file_stat (to_file_stat st) [] (fits_stat st),
          read_with,
        )
        refl

  receive_stat_sent :
      (p sent : Bytes) (r : Sys PosixStat) (c : Client)
      → (receive_stat steady p (status_of r) (awaiting (stat_bytes r) sent c)).1.port.sent ≡ sent
  unfolding receive_stat receive cache_stat
  receive_stat_sent p sent (failed e) c =
      errno_cases (λ status. (receive_stat steady p status (awaiting [] sent c)).1.port.sent ≡ sent)
        refl refl refl refl refl refl refl e
  receive_stat_sent p sent (done st) c =
      rw
        (
          ← append-nil (write_file_stat (to_file_stat st)).bytes,
          read-write_file_stat (to_file_stat st) [] (fits_stat st),
          read_with,
        )
        refl

  -- What a look-up that finds nothing leaves behind.
  abbrev counted : Client → Client
  counted c = record c {
    readings = suc c.readings;
    stat_cache = record c.stat_cache { total_data_fetched = c.stat_cache.total_data_fetched + 1 };
  }

  missed :
      (p : Bytes) (c : Client)
      → lookup p c.stat_cache.cached_data ≡ none
      → lookup_stat steady p c ≡ (ok none, counted c)
  unfolding lookup_stat get_cached
  missed p c e = rw e refl

  module _ {F : Type 0} (os : Posix F) (unicode : Unicode) where
    -- The stat of a file whose stat is not cached gives, with the daemon's response, the status of
    -- `stat` and the fields of its result, and sends that request and no more, if the path fits
    -- the wire and does not end in desktop.ini.
    pub req_stat_file_lem :
        (path : WideString) (rw_buffer sent : Bytes) (fs : F) (c : Client)
        → IsPath (win32_path_to_unix unicode path)
        → has_suffix desktop_ini (win32_path_to_unix unicode path) ≡ false
        → lookup (win32_path_to_unix unicode path) c.stat_cache.cached_data ≡ none
        → ((req_stat_file steady unicode path (
              awaiting
                (reply os (stat_of (win32_path_to_unix unicode path)) rw_buffer fs)
                sent
                c)).0
            ≡ ok (
              status_of (os.stat (win32_path_to_unix unicode path) fs).0,
              stat_seen (os.stat (win32_path_to_unix unicode path) fs).0,
            ))
          × ((req_stat_file steady unicode path (
                awaiting
                  (reply os (stat_of (win32_path_to_unix unicode path)) rw_buffer fs)
                  sent
                  c)).1.port.sent
              ≡ sent ++ (encode (stat_of (win32_path_to_unix unicode path))).bytes)
    unfolding req_stat_file stat_locked stat_uncached stat_remote encode write_byte
    req_stat_file_lem path rw_buffer sent fs c h no_ini miss =
        let p = win32_path_to_unix unicode path in
        let r = (os.stat p fs).0 in
        let input = status_byte (status_of r) ∷ stat_bytes r in
        rw
          (
            stat_of-reply os p rw_buffer fs h,
            missed p (awaiting input sent c) miss,
            missed p (awaiting input sent (counted c)) miss,
            no_ini,
            request_of_path_lem stat_file p (stat_bytes r) sent (status_byte (status_of r))
                (counted (counted c)) h,
            status_of_lem r,
          )
          (
            receive_stat_lem p _ r (counted (counted c)),
            receive_stat_sent p _ r (counted (counted c)),
          )
