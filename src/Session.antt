-- ===== src/Session.antt =====
-- The client and the daemon together: what a request of `Connection` gives when its response comes
-- from the daemon's loop.
pub mod Reply
pub mod Changes
pub mod Stat
pub mod Read
pub mod Handshake
pub mod Write
pub mod Open
pub mod Entries
pub mod Received
pub mod List
pub mod Fixtures
mod Tests
use nandroidfs.Base.{[], Bytes}
use nandroidfs.Exec.{Port}
use nandroidfs.Protocol.Request.{Request, encode}
use nandroidfs.Daemon.Posix.{Posix, Handler, with_input}
use nandroidfs.Daemon.Messages.{handle_messages}
use nandroidfs.Connection.{Client}

-- A handler between two requests.
abbrev pub at_rest : {F : Type 0} → Bytes → F → Handler F
at_rest rw_buffer fs = record {
  port = record { input = []; pending = []; sent = [] };
  rw_buffer = rw_buffer;
  fs = fs;
}

-- What the daemon sends on the bytes of a request.
abbrev pub reply : {F : Type 0} → Posix F → Request → Bytes → F → Bytes
reply os r rw_buffer fs =
    (handle_messages os 2 (with_input (encode r).bytes (at_rest rw_buffer fs))).1.port.sent

-- A client that has flushed, in front of a response.
abbrev pub awaiting : Bytes → Bytes → Client → Client
awaiting input sent c = record c { port = record { input = input; pending = []; sent = sent } }
