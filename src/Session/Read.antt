-- ===== src/Session/Read.antt =====
-- A read of an open file, end to end.
use nandroidfs.Base.{◌∷◌, ◌++◌, Bytes, length}
use nandroidfs.Wire.{network32}
use nandroidfs.Protocol.{status_byte, success}
use nandroidfs.Daemon.Posix.{Posix}
use nandroidfs.Connection

-- The response with some bytes.
abbrev data_response : Bytes → Bytes
data_response bytes = status_byte success ∷ (network32 (length bytes) ++ bytes)
