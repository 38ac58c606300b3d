-- ===== src/Session/Tests.antt =====
-- The client and a daemon over a disk with one file.
use nandroidfs.Session.List.{TextNames, req_list_file_stats_lem, entries_seen}
use nandroidfs.Conversion.{unix_path_to_win32, win32_path_to_unix}
use nandroidfs.Session.Received.{shown}
use nandroidfs.Base.{
  Bool-cases, inl, inr, bytes_eq, bytes_eq→eq, ap, length, refl, ◌≡◌, arith, [], ◌∷◌, ◌++◌, Bytes,
  none, some,
}
use nandroidfs.Protocol.Request.{list_of, stat_of, delete_file, encode}
use nandroidfs.Connection.Listing.{req_list_file_stats}
use nandroidfs.Protocol.{ResponseStatus}
use nandroidfs.Cache.Assoc.{lookup}
use nandroidfs.Exec.{Result, ok}
use nandroidfs.Session.Fixtures.{
  wide_path-unix, call, not_cached, wide_path_no_ini, wide_path-IsPath, client, wide_path, disk,
  unix_path, ascii,
}
use nandroidfs.Daemon.Disk.{one_file}
use nandroidfs.Connection.Requests.{req_stat_file, req_remove_file}
use nandroidfs.Session.{reply, awaiting}
use nandroidfs.Session.Handshake.{handshake_lem, handshake_bytes, greeted}
use nandroidfs.Connection.{handshake, Client}
use nandroidfs.Path.{before_last_slash, ends_with, get_parent_path}
use nandroidfs.Operations.Attributes.{get_file_information}
use nandroidfs.Operations.Information.{information_seen, get_file_information_lem}
use nandroidfs.Protocol.Requests.{ReadHandleArgs}
use nandroidfs.Session.Reply.{status_of}
use nandroidfs.Session.Changes.{forgotten, req_remove_file_lem}
use nandroidfs.Session.Stat.{stat_seen, req_stat_file_lem}

parent_of_unix_path : get_parent_path unix_path ≡ some (b'/' ∷ b'd' ∷ [])
unfolding get_parent_path ends_with before_last_slash
parent_of_unix_path = refl

req_remove_file_lem_example :
    req_remove_file ascii wide_path (
      awaiting
        (reply one_file (delete_file (win32_path_to_unix ascii wide_path)) [] disk)
        []
        client)
    ≡ (
      ok (status_of (one_file.unlink (win32_path_to_unix ascii wide_path) disk).0),
      awaiting []
          ([] ++ (encode (delete_file (win32_path_to_unix ascii wide_path))).bytes)
          (forgotten (win32_path_to_unix ascii wide_path) client),
    )
req_remove_file_lem_example =
    req_remove_file_lem one_file ascii wide_path [] [] disk client wide_path-IsPath

abbrev asked : Client
asked = awaiting (reply one_file (stat_of (win32_path_to_unix ascii wide_path)) [] disk) [] client

req_stat_file_lem_example :
    ((req_stat_file (λ n. n) ascii wide_path asked).0
      ≡ ok (
        status_of (one_file.stat (win32_path_to_unix ascii wide_path) disk).0,
        stat_seen (one_file.stat (win32_path_to_unix ascii wide_path) disk).0,
      ))
    × ((req_stat_file (λ n. n) ascii wide_path asked).1.port.sent
        ≡ [] ++ (encode (stat_of (win32_path_to_unix ascii wide_path))).bytes)
req_stat_file_lem_example =
    req_stat_file_lem (λ n. n) one_file ascii wide_path [] [] disk client wide_path-IsPath
      wide_path_no_ini not_cached

abbrev read_five : ReadHandleArgs
read_five = record { handle = 3; data_len = 5; offset = 1 }

get_file_information_lem_example :
    (get_file_information ascii (λ n. n) wide_path (record call { conn = asked })).0
    ≡ ok (information_seen (one_file.stat (win32_path_to_unix ascii wide_path) disk).0)
get_file_information_lem_example =
    get_file_information_lem one_file ascii (λ n. n) wide_path [] [] disk call wide_path-IsPath
      wide_path_no_ini not_cached

handshake_lem_example :
    ((greeted (1 ∷ 2 ∷ []) [] disk).0 ≡ ok tt)
    × ((greeted (1 ∷ 2 ∷ []) [] disk).1.port.input ≡ 1 ∷ 2 ∷ [])
    × (handshake (awaiting ((greeted (1 ∷ 2 ∷ []) [] disk).1.port.sent ++ (3 ∷ [])) [] client)
        ≡ (ok tt, awaiting (3 ∷ []) ([] ++ handshake_bytes) client))
handshake_lem_example = handshake_lem (1 ∷ 2 ∷ []) (3 ∷ []) [] [] disk client

abbrev new_bytes : Bytes
new_bytes = 7 ∷ 8 ∷ 9 ∷ []

listing_not_cached :
    lookup (win32_path_to_unix ascii wide_path) client.dir_list_cache.cached_data ≡ none
unfolding lookup
listing_not_cached = elim (Bool-cases (bytes_eq (b'/' ∷ b'd' ∷ []) unix_path)) [
  | inl same ↦ absurd (omega (arith, ap length (bytes_eq→eq (b'/' ∷ b'd' ∷ []) unix_path same)))
  | inr other ↦ rw wide_path-unix (rw other refl)
]

abbrev listed : Result ResponseStatus × Client
listed =
    req_list_file_stats ascii (λ n. n) wide_path
      (awaiting (reply one_file (list_of (win32_path_to_unix ascii wide_path)) [] disk) [] client)

one_file-TextNames :
    TextNames ascii
      (λ n. n)
      (win32_path_to_unix ascii wide_path)
      one_file
      (one_file.opendir (win32_path_to_unix ascii wide_path) disk).0
unfolding unix_path_to_win32
one_file-TextNames = ((_, refl), tt)

req_list_file_stats_lem_example :
    (listed.0 ≡ ok (status_of (one_file.opendir (win32_path_to_unix ascii wide_path) disk).0))
    × (listed.1.consumed
        ≡ []
          ++ shown ascii (
              entries_seen ascii
                (λ n. n)
                (win32_path_to_unix ascii wide_path)
                one_file
                (one_file.opendir (win32_path_to_unix ascii wide_path) disk).0
                disk))
    × (listed.1.port ≡ record {
      input = [];
      pending = [];
      sent = [] ++ (encode (list_of (win32_path_to_unix ascii wide_path))).bytes;
    })
req_list_file_stats_lem_example =
    req_list_file_stats_lem one_file ascii (λ n. n) wide_path [] [] disk client wide_path-IsPath
      (omega arith, tt) one_file-TextNames listing_not_cached
