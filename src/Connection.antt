-- ===== src/Connection.antt =====
-- nandroidfs/Connection.cpp: the client of the daemon, with its two caches. The mutex makes each
-- request one step.
pub mod Requests
pub mod Listing
pub mod Settles
pub mod Ends
pub mod DataLog
use nandroidfs.Base.{
  ℕ, suc, Bool, true, false, Option, none, some, List, [], ◌∷◌, ◌++◌, Bytes, if◌then◌else◌, ◌==◌,
}
use nandroidfs.Exec.{
  Exec, Result, ok, runtime, Port, read_with, write_with, flushed, pure, throw, ◌>>=◌, ◌>>◌,
}
use nandroidfs.Wire.{Get, Put, read_byte, read_u32, write_byte, write_u32}
use nandroidfs.Path.{get_parent_path}
use nandroidfs.Conversion.{WideString}
use nandroidfs.Protocol.{RequestType, request_byte, ResponseStatus, response_status}
use nandroidfs.Protocol.Responses.{FileStat}
use nandroidfs.Cache.{TimedCache, get_cached, cache, invalidate}

-- Connection. `readings` counts how often the clock was read, and `consumed` holds what was handed
-- to the callback of a listing.
pub record Client : Type 0 where
  pub port : Port
  pub stat_cache : TimedCache FileStat
  pub dir_list_cache : TimedCache (List Bytes)
  pub readings : ℕ
  pub consumed : List (FileStat × WideString)

abbrev with_port : {A : Type 0} → Client → Result A × Port → Result A × Client
with_port c (r, p) = (r, record c { port = p })

unfoldable pub receive : {A : Type 0} → Get A → Exec Client A
receive get c = with_port c (read_with (get c.port.input) c.port)

unfoldable pub send : Put → Exec Client Unit
send put c = with_port c (write_with put c.port)

unfoldable pub flush : Exec Client Unit
flush c = (ok tt, record c { port = flushed c.port })

unfoldable pub receive_status : Exec Client ResponseStatus
receive_status = do b ← receive read_byte; pure (response_status b)

-- The first byte of a request.
unfoldable pub send_type : RequestType → Exec Client Unit
send_type t = send (write_byte (request_byte t))

abbrev pub handshake_data : ℕ
handshake_data = 0xFAFE5ABE

unfoldable pub handshake : Exec Client Unit
handshake = do
  send (write_u32 handshake_data)
  flush
  received_data ← receive read_u32
  if received_data == handshake_data then pure tt else throw runtime

unfoldable pub invalidate_stat : Bytes → Exec Client Unit
invalidate_stat path c = (ok tt, record c { stat_cache = invalidate path c.stat_cache })

abbrev pub forget_listing : Option Bytes → TimedCache (List Bytes) → TimedCache (List Bytes)
forget_listing none listings = listings
forget_listing (some parent) listings = invalidate parent listings

unfoldable pub invalidate_parent_dir : Bytes → Exec Client Unit
invalidate_parent_dir path c =
    (ok tt, record c { dir_list_cache = forget_listing (get_parent_path path) c.dir_list_cache })

-- `steady_clock::now()` as a function of how often it was called before.
module _ (steady : ℕ → ℕ) where
  unfoldable pub lookup_stat : Bytes → Exec Client (Option FileStat)
  lookup_stat path c =
      let found = get_cached path (steady c.readings) c.stat_cache in
      (ok found.0, record c { readings = suc c.readings; stat_cache = found.1 })

  unfoldable pub cache_stat : Bytes → FileStat → Exec Client Unit
  cache_stat path stat c = (
    ok tt,
    record c {
      readings = suc (suc c.readings);
      stat_cache = cache path stat (steady c.readings) (steady (suc c.readings)) c.stat_cache;
    },
  )

  unfoldable pub lookup_listing : Bytes → Exec Client (Option (List Bytes))
  lookup_listing path c =
      let found = get_cached path (steady c.readings) c.dir_list_cache in
      (ok found.0, record c { readings = suc c.readings; dir_list_cache = found.1 })

  unfoldable pub cache_listing : Bytes → List Bytes → Exec Client Unit
  cache_listing path entries c = (
    ok tt,
    record c {
      readings = suc (suc c.readings);
      dir_list_cache =
          cache path entries (steady c.readings) (steady (suc c.readings)) c.dir_list_cache;
    },
  )

-- A call of the callback of a listing.
unfoldable pub consume_stat : FileStat → WideString → Exec Client Unit
consume_stat stat name c = (ok tt, record c { consumed = c.consumed ++ ((stat, name) ∷ []) })
