-- ===== src/Connection/Listing.antt =====
-- The listing of a directory in nandroidfs/Connection.cpp. The loop over the entries of the
-- response is on fuel: each turn takes a byte at least off the stream.
use nandroidfs.Base.{ℕ, zero, suc, Option, none, some, List, [], ◌∷◌, ◌++◌, Bytes, length}
use nandroidfs.Exec.{Exec, pure, throw, gets, runtime, stuck, ◌>>=◌, ◌>>◌}
use nandroidfs.Wire.{read_utf8_string}
use nandroidfs.Path.{get_full_path}
use nandroidfs.Conversion.{Unicode, WideString, win32_path_to_unix, unix_path_to_win32}
use nandroidfs.Protocol.{ResponseStatus, list_directory, success, no_more_entries}
use nandroidfs.Protocol.Responses.{FileStat, read_file_stat}
use nandroidfs.Connection.{
  Client, receive, receive_status, lookup_stat, cache_stat, lookup_listing, cache_listing,
  consume_stat,
}
use nandroidfs.Connection.Requests.{request_of_path}

-- A name that cannot be converted throws in front of the call of the callback.
unfoldable pub consume_named : FileStat → Option WideString → Exec Client Unit
consume_named stat none = throw runtime
consume_named stat (some name) = consume_stat stat name

module _ (unicode : Unicode) (steady : ℕ → ℕ) where
  abbrev pub consume_cached : Bytes → Option FileStat → Exec Client Unit
  consume_cached name none = pure tt
  consume_cached name (some stat) = consume_named stat (unix_path_to_win32 unicode name)

  -- The entries of a cached listing whose stats are still cached.
  unfoldable pub consume_listing : Bytes → List Bytes → Exec Client Unit
  consume_listing unix_dir_path [] = pure tt
  consume_listing unix_dir_path (name ∷ names) = do
    cached ← lookup_stat steady (get_full_path unix_dir_path name)
    consume_cached name cached
    consume_listing unix_dir_path names

  unfoldable pub receive_entry : Bytes → Exec Client Bytes
  receive_entry unix_dir_path = do
    file_name ← receive read_utf8_string
    entry_stat ← receive read_file_stat
    cache_stat steady (get_full_path unix_dir_path file_name) entry_stat
    consume_named entry_stat (unix_path_to_win32 unicode file_name)
    pure file_name

  -- What a turn of the loop does with the status of an entry; `entries` are those before it.
  unfoldable pub entry_turn :
      (List Bytes → Exec Client (List Bytes))
      → Bytes
      → List Bytes
      → ResponseStatus
      → Exec Client (List Bytes)
  entry_turn next unix_dir_path entries no_more_entries = pure entries
  entry_turn next unix_dir_path entries success = do
    file_name ← receive_entry unix_dir_path
    next (entries ++ (file_name ∷ []))
  entry_turn next unix_dir_path entries _ = next entries

  unfoldable pub receive_entries : ℕ → Bytes → List Bytes → Exec Client (List Bytes)
  receive_entries zero unix_dir_path entries = throw stuck
  receive_entries (suc fuel) unix_dir_path entries =
      let next = receive_entries fuel unix_dir_path in
      receive_status >>= entry_turn next unix_dir_path entries

  unfoldable pub receive_listing : Bytes → ResponseStatus → Exec Client ResponseStatus
  receive_listing unix_dir_path success = do
    bytes ← gets (λ (c : Client). length c.port.input)
    entries ← receive_entries (suc bytes) unix_dir_path []
    cache_listing steady unix_dir_path entries
    pure success
  receive_listing unix_dir_path status = pure status

  unfoldable pub list_remote : Bytes → Option (List Bytes) → Exec Client ResponseStatus
  list_remote unix_dir_path (some names) = do consume_listing unix_dir_path names; pure success
  list_remote unix_dir_path none = do
    status ← request_of_path list_directory unix_dir_path
    receive_listing unix_dir_path status

  unfoldable pub req_list_file_stats : WideString → Exec Client ResponseStatus
  req_list_file_stats path = do
    cached_dir ← lookup_listing steady (win32_path_to_unix unicode path)
    list_remote (win32_path_to_unix unicode path) cached_dir
