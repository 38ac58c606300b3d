-- ===== src/Protocol/Tests.antt =====
-- The protocol's records at concrete values.
use nandroidfs.Base.{◌≡◌, arith, some, [], ◌∷◌, ◌++◌, Bytes, true, false}
use nandroidfs.Protocol.{create_always}
use nandroidfs.Protocol.Requests
use nandroidfs.Protocol.Requests.{OpenHandleArgs}
use nandroidfs.Protocol.RoundTrip.{read-write_open_handle_args}

abbrev path : Bytes
path = b'/' ∷ b'd' ∷ b'/' ∷ b'f' ∷ []

abbrev more : Bytes
more = 9 ∷ 0 ∷ []

abbrev open_args : OpenHandleArgs
open_args = record { path = path; mode = create_always; read_access = false; write_access = true }

read-write_open_handle_args_example :
    Requests.read_open_handle_args ((Requests.write_open_handle_args open_args).bytes ++ more)
    ≡ some (open_args, more)
read-write_open_handle_args_example = read-write_open_handle_args open_args more (omega arith) tt
