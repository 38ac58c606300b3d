-- ===== src/Session/Handshake.antt =====
-- The handshake: Connection::handshake and the constructor of ClientHandler together.
use nandroidfs.Exec.{Result, ok}
use nandroidfs.Base.{◌≡◌, refl, ◌++◌, Bytes}
use nandroidfs.Connection
use nandroidfs.Wire.{write_u32, read_u32, read_exact}
use nandroidfs.Daemon.Posix.{with_input, Handler, receive, respond, flush}
use nandroidfs.Connection.{Client, handshake, handshake_data}
use nandroidfs.Server.{accept_handshake}
use nandroidfs.Session.{at_rest, awaiting}

abbrev pub handshake_bytes : Bytes
handshake_bytes = (write_u32 handshake_data).bytes

-- What the daemon does when the client's handshake and requests behind it come in.
abbrev pub greeted : {F : Type 0} → Bytes → Bytes → F → Result Unit × Handler F
greeted requests rw_buffer fs =
    accept_handshake (with_input (handshake_bytes ++ requests) (at_rest rw_buffer fs))

-- The handshake of the client succeeds with what the daemon echoes of it, and the daemon's with
-- what the client sends; both leave what follows on the stream.
pub handshake_lem :
    {F : Type 0} (requests more sent rw_buffer : Bytes) (fs : F) (c : Client)
    → let daemon = greeted requests rw_buffer fs in
      (daemon.0 ≡ ok tt)
      × (daemon.1.port.input ≡ requests)
      × (handshake (awaiting (daemon.1.port.sent ++ more) sent c)
          ≡ (ok tt, awaiting more (sent ++ handshake_bytes) c))
unfolding handshake accept_handshake receive respond flush Connection.receive Connection.send
    Connection.flush read_u32 write_u32 read_exact
handshake_lem requests more sent rw_buffer fs c = (refl, refl, refl)
