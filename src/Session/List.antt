-- ===== src/Session/List.antt =====
-- The listing of a directory, end to end.
use nandroidfs.Session.Received.{
  AllText, took_all-with_entry, names_of-with_entry, entry_turn_lem, entry_turn_end, took_all,
  took_all-consumed, names_of, shown,
}
use nandroidfs.Session.Entries.{
  AllPaths, length-entry_bytes, list_of-reply, with_entry, entries_of, stat_entry, body_bytes,
  Entry, entry_bytes, listing_bytes, FitsNames,
}
use nandroidfs.Protocol.{list_directory, no_more_entries, status_byte}
use nandroidfs.Session.Reply.{request_of_path_lem, status_of_lem, status_of, errno_cases}
use nandroidfs.Conversion.{win32_path_to_unix, Unicode, WideString}
use nandroidfs.Cache.Assoc.{lookup}
use nandroidfs.Cache.{get_cached}
use nandroidfs.Connection.Listing.{
  list_remote, req_list_file_stats, receive_listing, receive_entries,
}
use nandroidfs.Base.{
  ◌+◌, length-append, ◌≤◌, zero, arith, ◌<◌, length, suc, ℕ, List, none, append_assoc, [],
  append-nil, ◌++◌, ◌≡◌, ◌∷◌, Bytes, refl, ◌∙◌,
}
use nandroidfs.Connection.{lookup_listing, cache_listing, Client}
use nandroidfs.Protocol.Request.{list_of, encode}
use nandroidfs.Daemon.Posix.{Dir, Sys, Posix, failed, done}
use nandroidfs.Session.{reply, awaiting}
use nandroidfs.Exec.{ok}
use nandroidfs.Wire.{write_byte}
use nandroidfs.Protocol.RoundTrip.{IsPath}

module _ (unicode : Unicode) (steady : ℕ → ℕ) (path : Bytes) where
  module _ {F : Type 0} (os : Posix F) where
    receive_entries_lem :
        (names : List Bytes) (fs : F) (fuel : ℕ) (before : List Bytes) (sent : Bytes) (c : Client)
        → AllPaths names
        → AllText unicode names
        → length names < fuel
        → receive_entries unicode steady fuel path before
            (awaiting (listing_bytes os path names fs ++ (status_byte no_more_entries ∷ [])) sent c)
          ≡ (
            ok (before ++ names_of (entries_of os path names fs)),
            awaiting [] sent (took_all unicode steady path (entries_of os path names fs) c),
          )
    unfolding receive_entries listing_bytes entries_of
    receive_entries_lem names fs zero before sent c h text k = absurd (omega arith)
    receive_entries_lem [] fs (suc fuel) before sent c h text k =
        entry_turn_end unicode steady path (receive_entries unicode steady fuel path) before sent c
    receive_entries_lem (name ∷ names) fs (suc fuel) before sent c h text k =
        let r = stat_entry os path name fs in
        let rest = listing_bytes os path names r.1 ++ (status_byte no_more_entries ∷ []) in
        let first = with_entry name r.0 [] in
        let turn =
          entry_turn_lem unicode steady path (receive_entries unicode steady fuel path) before name
            r.0 rest sent c h.0 text.0 in
        rw
          (
            append_assoc,
            names_of-with_entry unicode steady path name r.0,
            took_all-with_entry unicode steady path name r.0,
          )
          (turn
            ∙ receive_entries_lem names r.1 fuel (before ++ names_of first) sent
                (took_all unicode steady path first c) h.1 text.1 (omega arith))

    -- Each entry takes a byte at least.
    length-listing_bytes :
        (names : List Bytes) (fs : F) → length names ≤ length (listing_bytes os path names fs)
    unfolding listing_bytes
    length-listing_bytes [] fs = omega arith
    length-listing_bytes (name ∷ names) fs =
        let r = stat_entry os path name fs in
        omega (
          arith,
          length-append (entry_bytes name r.0) (listing_bytes os path names r.1),
          length-entry_bytes name r.0,
          length-listing_bytes names r.1,
        )

    -- What the callback of a listing is to be given.
    abbrev pub entries_seen : Sys Dir → F → List Entry
    entries_seen (failed e) fs = []
    entries_seen (done dir) fs = entries_of os path dir.names fs

    -- The names of the directory are UTF-8.
    abbrev pub TextNames : Sys Dir → Type 0
    TextNames (failed e) = Unit
    TextNames (done dir) = AllText unicode dir.names

    receive_listing_lem :
        (r : Sys Dir) (fs : F) (sent : Bytes) (c : Client)
        → FitsNames os path r
        → TextNames r
        → let out =
            receive_listing unicode steady path
              (status_of r)
              (awaiting (body_bytes os path r fs) sent c) in
          (out.0 ≡ ok (status_of r))
          × (out.1.consumed ≡ c.consumed ++ shown unicode (entries_seen r fs))
          × (out.1.port ≡ record { input = []; pending = []; sent = sent })
    unfolding receive_listing cache_listing
    receive_listing_lem (failed e) fs sent c h text =
        errno_cases
          (λ status.
            let out = receive_listing unicode steady path status (awaiting [] sent c) in
            (out.0 ≡ ok status)
            × (out.1.consumed ≡ c.consumed ++ [])
            × (out.1.port ≡ record { input = []; pending = []; sent = sent }))
          (refl, rw append-nil refl, refl) (refl, rw append-nil refl, refl)
          (refl, rw append-nil refl, refl) (refl, rw append-nil refl, refl)
          (refl, rw append-nil refl, refl) (refl, rw append-nil refl, refl)
          (refl, rw append-nil refl, refl) e
    receive_listing_lem (done dir) fs sent c h text =
        let bytes = listing_bytes os path dir.names fs in
        rw
          (receive_entries_lem dir.names fs
            (suc (length (bytes ++ (status_byte no_more_entries ∷ [])))) [] sent c h text
            (omega (
              arith,
              length-append bytes (status_byte no_more_entries ∷ []),
              length-listing_bytes dir.names fs,
            )))
          (refl, took_all-consumed unicode steady path (entries_of os path dir.names fs) c, refl)

  -- What a look-up that finds no listing leaves behind.
  abbrev missed : Client → Client
  missed c = record c {
    readings = suc c.readings;
    dir_list_cache = record c.dir_list_cache {
      total_data_fetched = c.dir_list_cache.total_data_fetched + 1;
    };
  }

  lookup_listing_lem :
      (c : Client)
      → lookup path c.dir_list_cache.cached_data ≡ none
      → lookup_listing steady path c ≡ (ok none, missed c)
  unfolding lookup_listing get_cached
  lookup_listing_lem c e = rw e refl

module _ {F : Type 0} (os : Posix F) (unicode : Unicode) (steady : ℕ → ℕ) where
  -- The listing of a directory that is not cached gives, with the daemon's response, the status of
  -- `opendir`, and hands to its callback, in the order of the directory, exactly the entries whose
  -- `stat` succeeds, with the fields of its result; it has sent that request and no more, and read
  -- the response to its end, if the path and the names fit the wire and every name converts to a
  -- wide string.
  pub req_list_file_stats_lem :
      (wide_path : WideString) (rw_buffer sent : Bytes) (fs : F) (c : Client)
      → let path = win32_path_to_unix unicode wide_path in
        let dir = os.opendir path fs in
        let out =
          req_list_file_stats unicode steady wide_path
            (awaiting (reply os (list_of path) rw_buffer fs) sent c) in
        IsPath path
        → FitsNames os path dir.0
        → TextNames unicode steady path os dir.0
        → lookup path c.dir_list_cache.cached_data ≡ none
        → (out.0 ≡ ok (status_of dir.0))
          × (out.1.consumed
              ≡ c.consumed ++ shown unicode (entries_seen unicode steady path os dir.0 dir.1))
          × (out.1.port
              ≡ record { input = []; pending = []; sent = sent ++ (encode (list_of path)).bytes })
  unfolding req_list_file_stats list_remote encode write_byte
  req_list_file_stats_lem wide_path rw_buffer sent fs c h k text miss =
      let path = win32_path_to_unix unicode wide_path in
      let dir = os.opendir path fs in
      let body = body_bytes os path dir.0 dir.1 in
      rw
        (
          list_of-reply os path rw_buffer fs h k,
          lookup_listing_lem unicode steady path
              (awaiting (status_byte (status_of dir.0) ∷ body) sent c) miss,
          request_of_path_lem list_directory path body sent (status_byte (status_of dir.0))
              (missed unicode steady path c) h,
          status_of_lem dir.0,
        )
        (receive_listing_lem unicode steady path os dir.0 dir.1
          (sent ++ (encode (list_of path)).bytes) (missed unicode steady path c) k text)
