-- ===== src/Session/Received.antt =====
-- What the client makes of the entries of a listing.
use nandroidfs.Base.{
  Option, none, some, ap, suc, ℕ, List, append_assoc, [], append-nil, ◌++◌, ◌≡◌, ◌∷◌, Bytes, refl,
  ◌∙◌,
}
use nandroidfs.Connection.Listing.{consume_named, entry_turn, receive_entry}
use nandroidfs.Session.Entries.{with_entry, Entry, entry_bytes}
use nandroidfs.Protocol.{no_more_entries, status_byte}
use nandroidfs.Session.Reply.{status_of_lem, errno_cases}
use nandroidfs.Conversion.{Unicode, WideString, unix_path_to_win32}
use nandroidfs.Cache.{cache}
use nandroidfs.Connection.{receive_status, consume_stat, cache_stat, Client, receive}
use nandroidfs.Wire.RoundTrip.{read_byte_lem, read_utf8_string_lem, write_utf8_string_lem}
use nandroidfs.Exec.{Exec, read_with, ok, ◌>>=◌}
use nandroidfs.Protocol.RoundTrip.{read-write_file_stat, IsPath}
use nandroidfs.Session.Stat.{fits_stat}
use nandroidfs.Session.{awaiting}
use nandroidfs.Wire.{write_utf8_string}
use nandroidfs.Protocol.Responses.{FileStat, write_file_stat}
use nandroidfs.Daemon.Posix.{get_status_from_errno, PosixStat, Sys, failed, done}
use nandroidfs.Daemon.Convert.{to_file_stat}
use nandroidfs.Path.{get_full_path}

abbrev with_name :
    FileStat → Option WideString → List (FileStat × WideString) → List (FileStat × WideString)
with_name stat none entries = entries
with_name stat (some name) entries = (stat, name) ∷ entries

-- A name that is UTF-8.
abbrev pub IsText : Unicode → Bytes → Type 0
IsText unicode name = (wide : WideString) × (unix_path_to_win32 unicode name ≡ some wide)

abbrev pub AllText : Unicode → List Bytes → Type 0
AllText unicode [] = Unit
AllText unicode (name ∷ names) = IsText unicode name × AllText unicode names

-- What the callback is given.
abbrev pub shown : Unicode → List Entry → List (FileStat × WideString)
shown unicode [] = []
shown unicode ((name, stat) ∷ entries) =
    with_name stat (unix_path_to_win32 unicode name) (shown unicode entries)

abbrev pub names_of : List Entry → List Bytes
names_of [] = []
names_of ((name, stat) ∷ entries) = name ∷ names_of entries

with_name-append :
    (stat : FileStat) (name : Option WideString) (entries : List (FileStat × WideString))
    → with_name stat name [] ++ entries ≡ with_name stat name entries
with_name-append stat none entries = refl
with_name-append stat (some name) entries = refl

-- The client, after it was given some entries of a directory.
module _ (unicode : Unicode) (steady : ℕ → ℕ) (path : Bytes) where
  -- An entry is cached, and handed to the callback.
  abbrev pub took : Entry → Client → Client
  took (name, stat) c = record c {
    readings = suc (suc c.readings);
    stat_cache =
        cache (get_full_path path name) stat (steady c.readings) (steady (suc c.readings))
          c.stat_cache;
    consumed = c.consumed ++ shown unicode ((name, stat) ∷ []);
  }

  abbrev pub took_all : List Entry → Client → Client
  took_all [] c = c
  took_all (entry ∷ entries) c = took_all entries (took entry c)

  pub took_all-consumed :
      (entries : List Entry) (c : Client)
      → (took_all entries c).consumed ≡ c.consumed ++ shown unicode entries
  took_all-consumed [] c = rw append-nil refl
  took_all-consumed ((name, stat) ∷ entries) c =
      took_all-consumed entries (took (name, stat) c)
      ∙ (append_assoc c.consumed (shown unicode ((name, stat) ∷ [])) (shown unicode entries)
          ∙ ap (λ (t : List (FileStat × WideString)). c.consumed ++ t)
              (with_name-append stat (unix_path_to_win32 unicode name) (shown unicode entries)))

  pub receive_entry_lem :
      (name rest sent : Bytes) (st : PosixStat) (c : Client)
      → IsPath name
      → IsText unicode name
      → receive_entry unicode steady path (
          awaiting
            (((write_utf8_string name).bytes ++ (write_file_stat (to_file_stat st)).bytes) ++ rest)
            sent
            c)
        ≡ (ok name, awaiting rest sent (took (name, to_file_stat st) c))
  unfolding receive_entry receive cache_stat consume_named consume_stat
  receive_entry_lem name rest sent st c h (wide, text) =
      rw
        (
          append_assoc,
          write_utf8_string_lem name h,
          read_utf8_string_lem name _ h,
          read_with,
          read-write_file_stat (to_file_stat st) rest (fits_stat st),
          read_with,
          text,
        )
        refl

  -- A turn of the loop: an entry that cannot be read leaves nothing.
  pub entry_turn_lem :
      (next : List Bytes → Exec Client (List Bytes)) (before : List Bytes) (name : Bytes)
      (r : Sys PosixStat) (rest sent : Bytes) (c : Client)
      → IsPath name
      → IsText unicode name
      → (receive_status >>= entry_turn unicode steady next path before)
          (awaiting (entry_bytes name r ++ rest) sent c)
        ≡ next
            (before ++ names_of (with_entry name r []))
            (awaiting rest sent (took_all (with_entry name r []) c))
  unfolding receive_status receive entry_turn
  entry_turn_lem next before name (failed e) rest sent c h text =
      rw
        (
          read_byte_lem (status_byte (get_status_from_errno e)) rest,
          read_with,
          status_of_lem {A = Unit} (failed e),
          append-nil,
        )
        (errno_cases
          (λ status.
            entry_turn unicode steady next path before status (awaiting rest sent c)
            ≡ next before (awaiting rest sent c))
          refl refl refl refl refl refl refl e)
  entry_turn_lem next before name (done st) rest sent c h text =
      rw (read_byte_lem, read_with, receive_entry_lem name rest sent st c h text) refl

  pub entry_turn_end :
      (next : List Bytes → Exec Client (List Bytes)) (before : List Bytes) (sent : Bytes)
      (c : Client)
      → (receive_status >>= entry_turn unicode steady next path before)
          (awaiting (status_byte no_more_entries ∷ []) sent c)
        ≡ (ok (before ++ []), awaiting [] sent c)
  unfolding receive_status receive entry_turn
  entry_turn_end next before sent c = rw (read_byte_lem, read_with, append-nil) refl

  pub took_all-with_entry :
      (name : Bytes) (r : Sys PosixStat) (entries : List Entry) (c : Client)
      → took_all (with_entry name r entries) c
        ≡ took_all entries (took_all (with_entry name r []) c)
  took_all-with_entry name (failed e) entries c = refl
  took_all-with_entry name (done st) entries c = refl

  pub names_of-with_entry :
      (name : Bytes) (r : Sys PosixStat) (entries : List Entry) (before : List Bytes)
      → before ++ names_of (with_entry name r entries)
        ≡ (before ++ names_of (with_entry name r [])) ++ names_of entries
  names_of-with_entry name (failed e) entries before = rw append-nil refl
  names_of-with_entry name (done st) entries before = rw append_assoc refl
