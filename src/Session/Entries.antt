-- ===== src/Session/Entries.antt =====
-- The listing of a directory as the daemon sends it.
use nandroidfs.Base.{
  ◌≤◌, arith, length, List, append_assoc, [], append-nil, ◌++◌, ◌≡◌, ◌∷◌, Bytes, refl, ◌∙◌,
}
use nandroidfs.Protocol.Request.{list_of}
use nandroidfs.Daemon.Posix.{
  Dir, get_status_from_errno, PosixStat, Sys, Handler, Posix, failed, done, flush, respond, call,
}
use nandroidfs.Daemon.Handlers.{answer_list, act_list, answer_entry, list_entries}
use nandroidfs.Protocol.{success, no_more_entries, status_byte}
use nandroidfs.Session.{at_rest, reply}
use nandroidfs.Session.Reply.{reply_lem, status_of}
use nandroidfs.Wire.{write_utf8_string, write_u64, write_u16, write_byte}
use nandroidfs.Wire.RoundTrip.{write_utf8_string_lem}
use nandroidfs.Protocol.Responses.{FileStat, write_file_stat}
use nandroidfs.Exec.{ok, ◌>>=◌}
use nandroidfs.Daemon.Convert.{to_file_stat}
use nandroidfs.Path.{get_full_path}
use nandroidfs.Protocol.RoundTrip.{IsPath}

-- An entry whose stat is known.
abbrev pub Entry : Type 0
Entry = Bytes × FileStat

abbrev pub with_entry : Bytes → Sys PosixStat → List Entry → List Entry
with_entry name (failed e) entries = entries
with_entry name (done st) entries = (name, to_file_stat st) ∷ entries

-- An entry on the wire.
abbrev pub entry_bytes : Bytes → Sys PosixStat → Bytes
entry_bytes name (failed e) = status_byte (get_status_from_errno e) ∷ []
entry_bytes name (done st) =
    status_byte success
    ∷ ((write_utf8_string name).bytes ++ (write_file_stat (to_file_stat st)).bytes)

pub length-entry_bytes : (name : Bytes) (r : Sys PosixStat) → 1 ≤ length (entry_bytes name r)
length-entry_bytes name (failed e) = omega arith
length-entry_bytes name (done st) = omega arith

-- Each name fits the wire.
abbrev pub AllPaths : List Bytes → Type 0
AllPaths [] = Unit
AllPaths (name ∷ names) = IsPath name × AllPaths names

module _ {F : Type 0} (os : Posix F) (path : Bytes) where
  -- The stat of an entry, as the file system then is.
  abbrev pub stat_entry : Bytes → F → Sys PosixStat × F
  stat_entry name fs = os.stat (get_full_path path name) fs

  -- The entries whose stat succeeds, in the order of the directory.
  unfoldable pub entries_of : List Bytes → F → List Entry
  entries_of [] fs = []
  entries_of (name ∷ names) fs =
      with_entry name (stat_entry name fs).0 (entries_of names (stat_entry name fs).1)

  unfoldable pub listing_bytes : List Bytes → F → Bytes
  listing_bytes [] fs = []
  listing_bytes (name ∷ names) fs =
      entry_bytes name (stat_entry name fs).0 ++ listing_bytes names (stat_entry name fs).1

  listing_fs : List Bytes → F → F
  listing_fs [] fs = fs
  listing_fs (name ∷ names) fs = listing_fs names (stat_entry name fs).1

  abbrev answering : Handler F → Bytes → Handler F
  answering s bytes = record s { port = record s.port { pending = s.port.pending ++ bytes } }

  answer_entry_lem :
      (name : Bytes) (r : Sys PosixStat) (s : Handler F)
      → IsPath name
      → answer_entry os name r s ≡ (ok tt, answering s (entry_bytes name r))
  unfolding answer_entry respond write_byte write_file_stat write_u16 write_u64
  answer_entry_lem name (failed e) s h = refl
  answer_entry_lem name (done st) s h = rw (write_utf8_string_lem name h) (simp append_assoc)

  list_entries_lem :
      (names : List Bytes) (s : Handler F)
      → AllPaths names
      → list_entries os path names s
        ≡ (ok tt, record (answering s (listing_bytes names s.fs)) { fs = listing_fs names s.fs })
  unfolding list_entries call listing_bytes listing_fs
  list_entries_lem [] s h = rw append-nil refl
  list_entries_lem (name ∷ names) s h =
      let r = stat_entry name s.fs in
      rw (answer_entry_lem name r.0 (record s { fs = r.1 }) h.0) (
        list_entries_lem names (answering (record s { fs = r.1 }) (entry_bytes name r.0)) h.1
        ∙ rw append_assoc refl)

  -- What follows the status of a listing.
  abbrev pub body_bytes : Sys Dir → F → Bytes
  body_bytes (failed e) fs = []
  body_bytes (done dir) fs = listing_bytes dir.names fs ++ (status_byte no_more_entries ∷ [])

  abbrev pub FitsNames : Sys Dir → Type 0
  FitsNames (failed e) = Unit
  FitsNames (done dir) = AllPaths dir.names

  handled_list :
      (r : Sys Dir) (rw_buffer : Bytes) (fs : F)
      → FitsNames r
      → ((answer_list os path r >>= λ _. flush) (at_rest rw_buffer fs)).0 ≡ ok tt
        × (((answer_list os path r >>= λ _. flush) (at_rest rw_buffer fs)).1.port.sent
            ≡ status_byte (status_of r) ∷ body_bytes r fs)
  unfolding answer_list respond flush write_byte call
  handled_list (failed e) rw_buffer fs h = (refl, refl)
  handled_list (done dir) rw_buffer fs h =
      rw
        (list_entries_lem dir.names (answering (at_rest rw_buffer fs) (status_byte success ∷ [])) h)
        (refl, refl)

  pub list_of-reply :
      (rw_buffer : Bytes) (fs : F)
      → IsPath path
      → FitsNames (os.opendir path fs).0
      → reply os (list_of path) rw_buffer fs
        ≡ status_byte (status_of (os.opendir path fs).0)
          ∷ body_bytes (os.opendir path fs).0 (os.opendir path fs).1
  unfolding act_list call
  list_of-reply rw_buffer fs h k =
      let (ends, sent) = handled_list (os.opendir path fs).0 rw_buffer (os.opendir path fs).1 k in
      reply_lem os (list_of path) rw_buffer fs h tt ends ∙ sent
