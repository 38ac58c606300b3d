-- ===== src/Session/Fixtures.antt =====
-- A path, a client and a disk on which the tests run both sides.
use nandroidfs.Daemon.Disk.{Disk}
use nandroidfs.Connection.Requests.{has_suffix, desktop_ini}
use nandroidfs.Connection.{Client}
use nandroidfs.Path.{ends_with}
use nandroidfs.Base.{
  some, ◌≡◌, refl, arith, [], ◌∷◌, Bytes, none, false, Bool-cases, bytes_eq, bytes_eq→eq, inl, inr,
  ap, length,
}
use nandroidfs.Protocol.RoundTrip.{IsPath}
use nandroidfs.Operations.{Call, no_handle}
use nandroidfs.Cache.{TimedCache}
use nandroidfs.Cache.Assoc.{lookup}
use nandroidfs.Conversion.{Unicode, WideString, win32_path_to_unix, replace, trim_slash}

abbrev pub ascii : Unicode
ascii = record { to_utf8 = λ s. s; from_utf8 = λ s. some s }

-- "\d\f", and what it is on the device.
abbrev pub wide_path : WideString
wide_path = b'\\' ∷ b'd' ∷ b'\\' ∷ b'f' ∷ []

abbrev pub unix_path : Bytes
unix_path = b'/' ∷ b'd' ∷ b'/' ∷ b'f' ∷ []

pub wide_path-unix : win32_path_to_unix ascii wide_path ≡ unix_path
unfolding win32_path_to_unix replace trim_slash ends_with
wide_path-unix = refl

abbrev pub disk : Disk
disk = record { content = 1 ∷ 2 ∷ 3 ∷ []; position = 0 }

abbrev pub no_data : {A : Type 0} → TimedCache A
no_data = record {
  cache_scan_interval = 5000;
  cached_item_valid_for = 200;
  total_cache_hits = 0;
  total_data_fetched = 0;
  last_cache_scan = 0;
  cached_data = [];
}

abbrev pub client : Client
client = record {
  port = record { input = []; pending = []; sent = [] };
  stat_cache = no_data;
  dir_list_cache = record no_data {
    cached_data = (b'/' ∷ b'd' ∷ [], record { datum = []; fetched_at = 1 }) ∷ [];
  };
  readings = 0;
  consumed = [];
}

pub wide_path-IsPath : IsPath (win32_path_to_unix ascii wide_path)
wide_path-IsPath = rw wide_path-unix (omega arith)

pub wide_path_no_ini : has_suffix desktop_ini (win32_path_to_unix ascii wide_path) ≡ false
unfolding has_suffix
wide_path_no_ini = rw wide_path-unix (elim (Bool-cases (bytes_eq unix_path desktop_ini)) [
  | inl same ↦ absurd (omega (arith, ap length (bytes_eq→eq unix_path desktop_ini same)))
  | inr other ↦ other
])

pub not_cached : lookup (win32_path_to_unix ascii wide_path) client.stat_cache.cached_data ≡ none
unfolding lookup
not_cached = refl

abbrev pub call : Call
call = record {
  conn = client;
  file_info = record {
    delete_on_close = false;
    is_directory = false;
    context = record { handle = no_handle; read_access = false; write_access = false };
  };
  unmounted = false;
}
